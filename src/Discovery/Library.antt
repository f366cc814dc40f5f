-- ===== src/Discovery/Library.antt =====
-- What src/personal_voice_msg/discovery/web.py uses of Python's library: `ipaddress`,
-- `urllib.parse`, the `idna` codec, `html` and `unicodedata`. It is a parameter of the model.
use personal_voice_msg.Prelude.{ℕ, Bool, Option, List}
use personal_voice_msg.Prelude.Int.{ℤ}
use personal_voice_msg.Prelude.Text.{Text}

-- What `ipaddress` answers of an address. `number` is `int(parsed)`.
pub record Address : Type 0 where
  pub is_version_6 : Bool
  pub number : ℕ
  pub compressed : Text
  pub is_global : Bool
  pub is_loopback : Bool
  pub is_link_local : Bool
  pub is_multicast : Bool
  pub is_private : Bool
  pub is_reserved : Bool
  pub is_unspecified : Bool
  -- whether these properties of an IPv6 address are not `None`
  pub has_ipv4_mapped : Bool
  pub has_sixtofour : Bool
  pub has_teredo : Bool

-- `urlsplit(url)` with its properties. `port` is `none` where the property raises `ValueError`.
pub record SplitResult : Type 0 where
  pub scheme : Text
  pub netloc : Text
  pub path : Text
  pub query : Text
  pub fragment : Text
  pub hostname : Option Text
  pub has_username : Bool
  pub has_password : Bool
  pub port : Option (Option ℕ)

-- `none` is a `ValueError` or a subclass of it.
pub record Library : Type 0 where
  pub ip_address : Text → Option Address
  pub urlsplit : Text → Option SplitResult
  -- `urlunsplit` of a scheme, a network location, a path, a query and a fragment
  pub urlunsplit : Text → Text → Text → Text → Text → Text
  pub urljoin : Text → Text → Option Text
  -- `text.encode("idna").decode("ascii")`
  pub idna : Text → Option Text
  -- `str.lower`
  pub lower : Text → Text
  -- `int(text, 10)`
  pub int : Text → Option ℤ
  -- `html.unescape`
  pub unescape : Text → Text
  -- what an `HTMLParser` passes to `handle_data` from `feed` to `close`
  pub text_parts : Text → Option (List Text)
  -- `unicodedata.normalize("NFKC", text)`
  pub compatible : Text → Text
  -- `unicodedata.category(character) in {"Cc", "Cf"}`
  pub is_control : ℕ → Bool

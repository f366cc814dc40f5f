-- ===== src/Discovery/Url.antt =====
-- `is_public_address`, `_canonical_hostname` and `canonical_public_url` of
-- src/personal_voice_msg/discovery/web.py.
use personal_voice_msg.Prelude.{
  ℕ, ◌+◌, ◌*◌, ◌/◌, ◌^◌, Bool, true, false, not, ◌&&◌, ◌||◌, Option, none, some, List, [], ◌∷◌,
  ◌++◌, ◌==◌, leb, length, all, any, if◌then◌else◌,
}
use personal_voice_msg.Prelude.Text.{Text, codes, same_text, contains, is_space}
use personal_voice_msg.Prelude.Checks.{◌>>=◌, ◌>>◌, require}
use personal_voice_msg.Prelude.Strip.{drop_end, split_on, ends_with, lower_ascii}
use personal_voice_msg.Discovery.Library.{Address, Library}

abbrev pub max_url_characters : ℕ
max_url_characters = 2048

abbrev metadata_service : ℕ
metadata_service = ((168 * 256 + 63) * 256 + 129) * 256 + 16

-- `parsed in prefix` for 64:ff9b::/96 and for 64:ff9b:1::/48
abbrev in_nat64_prefix : ℕ → Bool
in_nat64_prefix n = n / 2 ^ 32 == 6619035 * 2 ^ 64 || n / 2 ^ 80 == 6619035 * 2 ^ 16 + 1

unfoldable pub is_public_parsed : Address → Bool
is_public_parsed a =
    if not a.is_version_6 && a.number == metadata_service
      || (not a.is_global || (a.is_loopback || (a.is_link_local || a.is_multicast)))
      || (a.is_private || (a.is_reserved || a.is_unspecified))
    then false
    else if a.is_version_6
    then not (a.has_ipv4_mapped || (a.has_sixtofour || a.has_teredo) || in_nat64_prefix a.number)
    else true

-- `numeric_host` and `domain_label` are the full matches of the source's regular expressions.
abbrev is_numeric_character : ℕ → Bool
is_numeric_character c =
    leb b'0' c && leb c b'9'
    || leb b'a' c && leb c b'f'
    || (leb b'A' c && leb c b'F' || (c == b'x' || (c == b'X' || (c == b'.' || c == b':'))))

unfoldable pub numeric_host : Text → Bool
numeric_host [] = false
numeric_host (c ∷ s) = all is_numeric_character (c ∷ s)

abbrev pub is_label_end : ℕ → Bool
is_label_end c = leb b'0' c && leb c b'9' || leb b'a' c && leb c b'z'

abbrev pub is_label_character : ℕ → Bool
is_label_character c = is_label_end c || c == b'-'

abbrev last_is_end : ℕ → Text → Bool
last_is_end c [] = is_label_end c
last_is_end c (d ∷ s) = last_is_end d s

unfoldable pub domain_label : Text → Bool
domain_label [] = false
domain_label (c ∷ s) =
    is_label_end c && (last_is_end c s && (all is_label_character s && leb (length s) 62))

abbrev pub local_host_suffixes : List Text
local_host_suffixes =
    codes ".home.arpa" ∷ codes ".internal" ∷ codes ".local" ∷ codes ".localhost" ∷ []

unfoldable pub is_public_name : Text → Bool
unfolding domain_label
is_public_name canonical =
    contains (b'.' ∷ []) canonical
    && leb (length canonical) 253
    && not (any (λ suffix. ends_with suffix canonical) local_host_suffixes)
    && all domain_label (split_on b'.' canonical)

abbrev is_dot : ℕ → Bool
is_dot c = c == b'.'

abbrev is_url_breaker : ℕ → Bool
is_url_breaker c = is_space c || (leb c 31 || c == 127)

abbrev pub is_empty : Text → Bool
is_empty [] = true
is_empty (c ∷ s) = false

module _ (lib : Library) where
  unfoldable pub is_public_address : Text → Bool
  unfolding is_public_parsed
  is_public_address address = elim (lib.ip_address address) [
    | none ↦ false
    | some a ↦ is_public_parsed a
  ]

  -- The two parts of `_canonical_hostname` behind the first test: for a hostname that is no
  -- address and for one that is. The result is the hostname, and whether it is an IPv6 address.
  unfoldable pub host_of : Option Address → Text → Option (Text × Bool)
  unfolding numeric_host is_public_name is_public_address drop_end lower_ascii
  host_of none hostname = do
    require (not (numeric_host hostname))
    encoded ← lib.idna (drop_end is_dot hostname)
    let canonical = lower_ascii encoded
    require (is_public_name canonical)
    some (canonical, false)
  host_of (some a) hostname = do
    require (is_public_address a.compressed)
    some (a.compressed, a.is_version_6)

  unfoldable pub canonical_hostname : Text → Option (Text × Bool)
  unfolding host_of
  canonical_hostname hostname =
      require (not (contains (b'%' ∷ []) hostname)) >> host_of (lib.ip_address hostname) hostname

  unfoldable pub is_plain_url : Text → Bool
  is_plain_url url =
      not (is_empty url)
      && leb (length url) max_url_characters
      && not (contains (b'\\' ∷ []) url)
      && not (any is_url_breaker url)

  abbrev pub is_web_scheme : Text → Bool
  is_web_scheme scheme = same_text scheme (codes "http") || same_text scheme (codes "https")

  abbrev pub expected_port : Text → ℕ
  expected_port scheme = if same_text scheme (codes "http") then 80 else 443

  abbrev pub is_expected_port : Text → Option ℕ → Bool
  is_expected_port scheme none = true
  is_expected_port scheme (some port) = port == expected_port scheme

  -- `none` is the `DiscoveryBoundaryError` that every rejection of the file raises.
  unfoldable pub canonical_public_url : Text → Option Text
  unfolding is_plain_url canonical_hostname
  canonical_public_url raw_url = do
    require (is_plain_url raw_url)
    parsed ← lib.urlsplit raw_url
    port ← parsed.port
    let scheme = lib.lower parsed.scheme
    require (is_web_scheme scheme && not (is_empty parsed.netloc))
    host ← parsed.hostname
    require (not parsed.has_username && not parsed.has_password)
    require (is_expected_port scheme port)
    named ← canonical_hostname host
    let netloc = if named.1 then b'[' ∷ named.0 ++ b']' ∷ [] else named.0
    let path = if is_empty parsed.path then b'/' ∷ [] else parsed.path
    let rendered = lib.urlunsplit scheme netloc path parsed.query []
    require (leb (length rendered) max_url_characters)
    some rendered

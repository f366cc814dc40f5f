-- ===== src/Discovery/Resolver.antt =====
-- `_PublicResolver` and `_public_socket_factory` of src/personal_voice_msg/discovery/web.py. What
-- `getaddrinfo` answers is an argument of `resolve`.
use personal_voice_msg.Prelude.{
  ℕ, Bool, true, false, not, ◌&&◌, ◌||◌, Option, none, some, List, [], ◌∷◌, ◌==◌, all, any, map,
  if◌then◌else◌,
}
use personal_voice_msg.Prelude.Text.{Text, same_text}
use personal_voice_msg.Exec.{Exec, os_error, ⊤, gets, modify, or_raise, raise_if, pure, ◌>>=◌, ◌>>◌}
use personal_voice_msg.Discovery.Library.{Library}
use personal_voice_msg.Discovery.Url.{is_public_address}

-- One tuple of `getaddrinfo`: its family, its protocol and the address in it.
pub record AddressInfo : Type 0 where
  pub family : ℕ
  pub protocol : ℕ
  pub address : Text

pub record ResolveResult : Type 0 where
  pub hostname : Text
  pub host : Text
  pub port : ℕ
  pub family : ℕ
  pub proto : ℕ

-- A call of `resolve`, with what `getaddrinfo` answers it.
pub record Lookup : Type 0 where
  pub host : Text
  pub port : ℕ
  pub found : Option (List AddressInfo)

-- `self._answers`: the addresses that a host and a port were resolved to.
abbrev pub Answers : Type 0
Answers = Text → ℕ → Option (List Text)

abbrev pub member : Text → List Text → Bool
member address addresses = any (same_text address) addresses

abbrev pub subset : List Text → List Text → Bool
subset one other = all (λ address. member address other) one

-- `==` on frozen sets
unfoldable pub same_set : List Text → List Text → Bool
unfolding same_text
same_set one other = subset one other && subset other one

abbrev pub differs : Option (List Text) → List Text → Bool
differs none addresses = false
differs (some previous) addresses = not (same_set previous addresses)

abbrev pub remember : Text → ℕ → List Text → Answers → Answers
remember host port addresses answers name number =
    if same_text name host && number == port then some addresses else answers name number

abbrev pub seen_before : AddressInfo → List AddressInfo → Bool
seen_before info seen =
    any (λ other. info.family == other.family && same_text info.address other.address) seen

-- The loop over the answers, with those that were seen before.
unfoldable pub results_from : Text → ℕ → List AddressInfo → List AddressInfo → List ResolveResult
results_from host port seen [] = []
results_from host port seen (info ∷ infos) =
    let skipped = results_from host port seen infos in
    let more = results_from host port (info ∷ seen) infos in
    if seen_before info seen
    then skipped
    else record {
      hostname = host;
      host = info.address;
      port = port;
      family = info.family;
      proto = info.protocol;
    }
      ∷ more

abbrev pub is_none_found : List Text → Bool
is_none_found [] = true
is_none_found (address ∷ addresses) = false

module _ (lib : Library) where
  -- `none` is an `OSError` or a `TimeoutError` of `getaddrinfo`.
  unfoldable pub resolve : Text → ℕ → Option (List AddressInfo) → Exec Answers (List ResolveResult)
  resolve host port found = do
    raw_answers ← or_raise os_error found
    let addresses = map (λ info. info.address) raw_answers
    raise_if
        (is_none_found addresses || any (λ address. not (is_public_address lib address)) addresses)
        os_error
    previous ← gets (λ answers. answers (lib.lower host) port)
    raise_if (differs previous addresses) os_error
    modify (remember (lib.lower host) port addresses)
    pure (results_from host port [] raw_answers)

  -- The answers after a number of calls.
  unfoldable pub resolve_all : List Lookup → Answers → Answers
  unfolding resolve
  resolve_all [] answers = answers
  resolve_all (call ∷ calls) answers =
      resolve_all calls (resolve call.host call.port call.found answers).1

  -- `close`
  unfoldable pub close_resolver : Exec Answers ⊤
  close_resolver = modify (λ answers host port. none)

  -- `_public_socket_factory`: whether it opens a socket.
  unfoldable pub public_socket_factory : AddressInfo → Bool
  public_socket_factory info = is_public_address lib info.address

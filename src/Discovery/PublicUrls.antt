-- ===== src/Discovery/PublicUrls.antt =====
-- The URLs that `canonical_public_url` (src/personal_voice_msg/discovery/web.py) returns.
use personal_voice_msg.Prelude.{
  ℕ, ◌==◌, ◌≤◌, ◌≡◌, refl, arith, Bool, true, false, ◌⊎◌, inl, inr, Option, none, some, List, [],
  ◌∷◌, ◌++◌, length, all, any, All, if◌then◌else◌,
}
use personal_voice_msg.Prelude.Text.{Text, contains, strip_prefix}
use personal_voice_msg.Prelude.Checks.{Returns, Returns-bind, Returns-require, Returns-some}
use personal_voice_msg.Prelude.Strip.{split_on, ends_with, drop_end, lower_ascii}
use personal_voice_msg.Discovery.Library.{Address, SplitResult, Library}
use personal_voice_msg.Discovery.Url.{
  max_url_characters, is_label_character, domain_label, local_host_suffixes, is_public_name,
  is_public_address, host_of, canonical_hostname, is_web_scheme, is_expected_port, is_empty,
  canonical_public_url,
}

abbrev IsLabel : Text → Type 0
IsLabel label = (1 ≤ length label) × (length label ≤ 63) × (all is_label_character label ≡ true)

-- A name of at least two labels, none empty or longer than 63 characters, that is no local name.
abbrev pub IsPublicName : Text → Type 0
IsPublicName name =
    (2 ≤ length (split_on b'.' name))
    × All IsLabel (split_on b'.' name)
    × (length name ≤ 253)
    × (any (λ suffix. ends_with suffix name) local_host_suffixes ≡ false)

domain_label-IsLabel : (label : Text) → domain_label label ≡ true → IsLabel label
unfolding domain_label
domain_label-IsLabel [] h = cc
domain_label-IsLabel (c ∷ s) h = ground (arith, h)

labels : (words : List Text) → all domain_label words ≡ true → All IsLabel words
labels [] h = tt
labels (word ∷ words) h = (domain_label-IsLabel word (ground arith), labels words (ground arith))

some_part : (s : Text) → 1 ≤ length (split_on b'.' s)
unfolding split_on
some_part [] = omega arith
some_part (c ∷ s) = ground (arith, some_part s)

two_parts : (s : Text) → contains (b'.' ∷ []) s ≡ true → 2 ≤ length (split_on b'.' s)
unfolding contains strip_prefix split_on
two_parts [] h = cc
two_parts (c ∷ s) h = ground (arith, h, two_parts s, some_part s)

is_public_name-IsPublicName : (name : Text) → is_public_name name ≡ true → IsPublicName name
unfolding is_public_name
is_public_name-IsPublicName name h =
    (two_parts name (ground arith), labels _ (ground arith), ground arith, ground arith)

module _ (lib : Library) where
  -- The network location of a hostname: of the public address that it is, in brackets if that is
  -- an IPv6 address, or else its IDNA form without a final dot and in lower case, a public name.
  abbrev pub IsPublicHost : Text → Text → Type 0
  IsPublicHost hostname netloc =
      ((a : Address) × (lib.ip_address hostname ≡ some a)
        × (is_public_address lib a.compressed ≡ true)
        × (netloc ≡ (if a.is_version_6 then b'[' ∷ a.compressed ++ b']' ∷ [] else a.compressed)))
      ⊎ ((encoded : Text) × (lib.ip_address hostname ≡ none)
          × (lib.idna (drop_end (λ c. c == b'.') hostname) ≡ some encoded)
          × (netloc ≡ lower_ascii encoded)
          × IsPublicName netloc)

  abbrev pub rooted : Text → Text
  rooted [] = b'/' ∷ []
  rooted (c ∷ s) = c ∷ s

  -- The URL that the parts of a split URL name: its scheme in lower case, its host without the
  -- port, which is that of the scheme if there is one, its path, or `/`, and its query; the fragment
  -- is gone and there are no credentials.
  abbrev pub IsPublicUrl : SplitResult → Text → Type 0
  IsPublicUrl parsed url =
      (hostname : Text) × (parsed.hostname ≡ some hostname)
      × (netloc : Text) × (url
          ≡ lib.urlunsplit (lib.lower parsed.scheme) netloc (rooted parsed.path) parsed.query [])
      × IsPublicHost hostname netloc
      × (length url ≤ max_url_characters)
      × (is_web_scheme lib (lib.lower parsed.scheme) ≡ true)
      × (parsed.has_username ≡ false)
      × (parsed.has_password ≡ false)
      × ((port : Option ℕ) × (parsed.port ≡ some port)
          × (is_expected_port lib (lib.lower parsed.scheme) port ≡ true))

  abbrev in_netloc : Text × Bool → Text
  in_netloc named = if named.1 then b'[' ∷ named.0 ++ b']' ∷ [] else named.0

  host_of-IsPublicHost :
      (parsed : Option Address) (hostname : Text)
      → lib.ip_address hostname ≡ parsed
      → Returns (host_of lib parsed hostname) (λ named. IsPublicHost hostname (in_netloc named))
  unfolding host_of
  host_of-IsPublicHost none hostname e = Returns-require _ _ (λ letters.
      Returns-bind _ _ (λ encoded f. Returns-require _ _ (λ public.
        Returns-some _ (inr (encoded, e, f, refl, is_public_name-IsPublicName _ public)))))
  host_of-IsPublicHost (some a) hostname e =
      Returns-require _ _ (λ public. Returns-some _ (inl (a, e, public, refl)))

  canonical_hostname-IsPublicHost :
      (hostname : Text)
      → Returns (canonical_hostname lib hostname) (λ named. IsPublicHost hostname (in_netloc named))
  unfolding canonical_hostname
  canonical_hostname-IsPublicHost hostname =
      Returns-require _ _ (λ _. host_of-IsPublicHost (lib.ip_address hostname) hostname refl)

  rooted_path :
      (path scheme netloc query : Text)
      → lib.urlunsplit scheme netloc (if is_empty path then b'/' ∷ [] else path) query []
        ≡ lib.urlunsplit scheme netloc (rooted path) query []
  rooted_path [] scheme netloc query = refl
  rooted_path (c ∷ s) scheme netloc query = refl

  -- A URL that is returned is made of the parts of the URL given: its scheme in lower case, http or
  -- https; its hostname, as the public address that it is or as its IDNA form in lower case without
  -- a final dot, a public name; its path, or `/` where it has none; and its query. There are no
  -- credentials, a port was the scheme's own, and the URL has at most 2,048 characters.
  pub canonical_public_url-IsPublicUrl :
      (raw : Text)
      → Returns (canonical_public_url lib raw) (λ url.
        (parsed : SplitResult) × (lib.urlsplit raw ≡ some parsed) × IsPublicUrl parsed url)
  unfolding canonical_public_url
  canonical_public_url-IsPublicUrl raw = Returns-require _ _ (λ plain.
      Returns-bind _ _ (λ parsed split. Returns-bind _ _ (λ port at_port.
        Returns-require _ _ (λ web. Returns-bind _ _ (λ host at_host.
          Returns-require _ _ (λ open_to_all. Returns-require _ _ (λ usual.
            Returns-bind _ _ (λ named found. Returns-require _ _ (λ short. Returns-some _ (
              parsed,
              split,
              (
                host,
                at_host,
                in_netloc named,
                rooted_path parsed.path (lib.lower parsed.scheme) (in_netloc named) parsed.query,
                (canonical_hostname-IsPublicHost host).at named found,
                ground (arith, short),
                ground (arith, web),
                ground (arith, open_to_all),
                ground (arith, open_to_all),
                (port, at_port, usual),
              ),
            ))))))))))

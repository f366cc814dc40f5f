-- ===== src/Discovery/Response.antt =====
-- The checks on a response in src/personal_voice_msg/discovery/web.py: `_single_header`,
-- `_response_media_type`, `_validate_response_framing` and `_read_bounded_body`.
use personal_voice_msg.Prelude.{
  ℕ, ◌+◌, Bool, true, false, not, ◌&&◌, ◌||◌, Option, none, some, List, [], ◌∷◌, ◌++◌, ◌==◌, ltb,
  leb, length, all, any, if◌then◌else◌,
}
use personal_voice_msg.Prelude.Int.{pos, ltb_ℤ}
use personal_voice_msg.Prelude.Text.{Text, Bytes, codes, same_text, contains}
use personal_voice_msg.Prelude.Checks.{◌>>=◌, ◌>>◌, require}
use personal_voice_msg.Prelude.Strip.{strip, split_on, split_once, ends_with}
use personal_voice_msg.Discovery.Library.{Library}
use personal_voice_msg.Discovery.Policy.{FetchPolicy}
use personal_voice_msg.Discovery.Url.{max_url_characters}

-- A response of `aiohttp`: `headers.getall(name, [])` of the headers that the program reads, and
-- the chunks that `iter_chunked` hands out. If the body is not complete, reading it raises after
-- the last of them.
pub record Response : Type 0 where
  pub status : ℕ
  pub content_type : List Text
  pub location : List Text
  pub content_encoding : List Text
  pub content_length : List Text
  pub chunks : List Bytes
  pub complete : Bool

abbrev pub is_empty : Text → Bool
is_empty [] = true
is_empty (c ∷ s) = false

abbrev one_value : List Text → Option Text
one_value (raw ∷ []) = some raw
one_value _ = none

unfoldable pub single_header : List Text → Option Text
single_header values = do
  raw ← one_value values
  let value = strip raw
  require (not (is_empty value) && leb (length value) max_url_characters)
  some value

abbrev is_token_character : ℕ → Bool
is_token_character c =
    leb b'0' c && leb c b'9'
    || leb b'a' c && leb c b'z'
    || leb b'A' c && leb c b'Z'
    || contains (c ∷ []) (codes "!#$%&'*+.^_`|~-")

-- A full match of `HTTP_TOKEN`.
unfoldable pub http_token : Text → Bool
unfolding contains
http_token [] = false
http_token (c ∷ s) = all is_token_character (c ∷ s)

abbrev is_control_character : ℕ → Bool
is_control_character c = ltb c 32 || c == 127

unfoldable pub is_quoted : Text → Bool
unfolding ends_with
is_quoted value =
    leb 2 (length value) && ends_with (b'"' ∷ []) value && not (any is_control_character value)

abbrev starts_with_quote : Text → Bool
starts_with_quote [] = false
starts_with_quote (c ∷ s) = c == b'"'

-- The body of the loop over the parameters.
unfoldable pub is_parameter : Text → Bool
unfolding http_token is_quoted split_once
is_parameter parameter = elim (split_once b'=' parameter) [
  | none ↦ false
  | some parts ↦
      let name = strip (parts.0) in
      let value = strip (parts.1) in
      if not (http_token name) || is_empty value
      then false
      else if starts_with_quote value
      then is_quoted value
      else http_token value
]

abbrev pub supported_media_types : List Text
supported_media_types = codes "application/xhtml+xml" ∷ codes "text/html" ∷ codes "text/plain" ∷ []

abbrev pub is_supported : Text → Bool
is_supported media_type = any (same_text media_type) supported_media_types

abbrev pieces : List Text → Option (Text × List Text)
pieces [] = none
pieces (first ∷ rest) = some (first, rest)

module _ (lib : Library) where
  unfoldable pub response_media_type : Response → Option Text
  unfolding single_header http_token is_parameter split_on
  response_media_type response = do
    raw ← single_header response.content_type
    sections ← pieces (split_on b';' raw)
    let media_type = lib.lower (strip (sections.0))
    let tokens = split_on b'/' media_type
    require (length tokens == 2 && all http_token tokens)
    require (all (λ section. is_parameter (strip section)) (sections.1))
    require (is_supported media_type)
    some media_type

  abbrev encoding_passes : List Text → Bool
  encoding_passes [] = true
  encoding_passes (one ∷ []) = same_text (lib.lower (strip one)) (codes "identity")
  encoding_passes (one ∷ two ∷ more) = false

  abbrev length_passes : FetchPolicy → List Text → Bool
  length_passes policy [] = true
  length_passes policy (one ∷ []) = elim (lib.int one) [
    | none ↦ false
    | some n ↦ not (ltb_ℤ n (pos 0) || ltb_ℤ (pos policy.max_body_bytes) n)
  ]
  length_passes policy (one ∷ two ∷ more) = false

  -- `_validate_response_framing`: whether it raises nothing.
  unfoldable pub validate_response_framing : FetchPolicy → Response → Bool
  validate_response_framing policy response =
      encoding_passes response.content_encoding && length_passes policy response.content_length

-- The loop over the chunks, from the length and the bytes so far.
unfoldable pub read_chunks : ℕ → Bool → ℕ → Bytes → List Bytes → Option Bytes
read_chunks limit complete size body [] = if complete then some body else none
read_chunks limit complete size body (chunk ∷ chunks) =
    let rest = read_chunks limit complete (size + length chunk) (body ++ chunk) chunks in
    if ltb limit (size + length chunk) then none else rest

unfoldable pub read_bounded_body : FetchPolicy → Response → Option Bytes
unfolding read_chunks
read_bounded_body policy response = do
  body ← read_chunks policy.max_body_bytes response.complete 0 [] response.chunks
  require (not (is_empty body))
  some body

-- ===== src/Discovery/Metadata.antt =====
-- `SearchHit`, `SearchResult` and `_sanitize_metadata` of src/personal_voice_msg/discovery/web.py.
use personal_voice_msg.Prelude.{
  ℕ, zero, suc, Option, some, List, [], ◌∷◌, ◌++◌, leb, length, if◌then◌else◌,
}
use personal_voice_msg.Prelude.Text.{Text, is_space}
use personal_voice_msg.Prelude.Checks.{◌>>=◌, ◌>>◌, require}
use personal_voice_msg.Normalization.{split_from, split, join_words}
use personal_voice_msg.Discovery.Library.{Library}
use personal_voice_msg.Discovery.Url.{canonical_public_url}

pub record SearchHit : Type 0 where
  pub url : Text
  pub title : Text
  pub snippet : Text

pub record SearchResult : Type 0 where
  pub result_id : Text
  pub title : Text
  pub snippet : Text
  pub display_hostname : Text

abbrev pub max_title_characters : ℕ
max_title_characters = 200

abbrev pub max_snippet_characters : ℕ
max_snippet_characters = 500

abbrev pub max_raw_title_characters : ℕ
max_raw_title_characters = 2000

abbrev pub max_raw_snippet_characters : ℕ
max_raw_snippet_characters = 5000

-- `text[:n]`
unfoldable pub take : ℕ → Text → Text
take zero s = []
take (suc n) [] = []
take (suc n) (c ∷ s) = c ∷ take n s

abbrev concat : List Text → Text
concat [] = []
concat (s ∷ texts) = s ++ concat texts

-- A hit that is ready to be stored.
pub record Prepared : Type 0 where
  pub url : Text
  pub title : Text
  pub snippet : Text
  pub hostname : Text

module _ (lib : Library) where
  unfoldable pub safe_characters : Text → Text
  safe_characters [] = []
  safe_characters (c ∷ s) =
      let rest = safe_characters s in
      if is_space c then b' ' ∷ rest else if lib.is_control c then rest else c ∷ rest

  unfoldable pub sanitize_metadata : Text → ℕ → ℕ → Option Text
  unfolding safe_characters split_from join_words take
  sanitize_metadata value limit raw_limit = do
    require (leb (length value) raw_limit)
    parts ← lib.text_parts (lib.unescape value)
    some (take limit (join_words (split (safe_characters (lib.compatible (concat parts))))))

  -- The body of the loop over the hits of `record_search_results`.
  unfoldable pub prepare : SearchHit → Option Prepared
  unfolding canonical_public_url sanitize_metadata
  prepare hit = do
    url ← canonical_public_url lib hit.url
    parsed ← lib.urlsplit url
    hostname ← parsed.hostname
    title ← sanitize_metadata hit.title max_title_characters max_raw_title_characters
    snippet ← sanitize_metadata hit.snippet max_snippet_characters max_raw_snippet_characters
    some (record { url = url; title = title; snippet = snippet; hostname = hostname })

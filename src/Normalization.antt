-- ===== src/Normalization.antt =====
-- src/personal_voice_msg/normalization.py: the normal form of a text and the test for copied spans. The tables of the Unicode database
-- are the record `Unicode`.
use personal_voice_msg.Prelude.{
  ℕ, zero, suc, Bool, true, false, not, ◌&&◌, ◌||◌, List, [], ◌∷◌, ◌++◌, ◌==◌, ltb, leb, length,
  any, if◌then◌else◌,
}
use personal_voice_msg.Prelude.Text.{Text, same_text, contains, is_space}
use personal_voice_msg.Exec.{Result, ok, err, value_error}

pub record Unicode : Type 0 where
  -- `unicodedata.normalize("NFKC", text).casefold()`
  pub compatible : Text → Text
  -- the first letter of `unicodedata.category(character)`
  pub major_category : ℕ → ℕ
  -- whether `\w` matches the character
  pub is_word : ℕ → Bool

-- The loop over the characters.
unfoldable pub comparable_characters : Unicode → Text → Text
comparable_characters u [] = []
comparable_characters u (c ∷ s) =
    let rest = comparable_characters u s in
    if u.major_category c == b'C'
    then (if is_space c then b' ' ∷ rest else rest)
    else (if u.major_category c == b'P' then b' ' ∷ rest else c ∷ rest)

abbrev add_word : Text → List Text → List Text
add_word [] words = words
add_word (c ∷ word) words = (c ∷ word) ∷ words

-- `str.split()`, from the characters of a word so far.
unfoldable pub split_from : Text → Text → List Text
split_from word [] = add_word word []
split_from word (c ∷ s) =
    let same = split_from (word ++ c ∷ []) s in
    let next = split_from [] s in if is_space c then add_word word next else same

abbrev pub split : Text → List Text
split s = split_from [] s

-- `" ".join(words)`
unfoldable pub join_words : List Text → Text
join_words [] = []
join_words (w ∷ []) = w
join_words (w ∷ v ∷ words) = w ++ b' ' ∷ join_words (v ∷ words)

unfoldable pub normalize_text : Unicode → Text → Text
unfolding comparable_characters split_from join_words
normalize_text u text = join_words (split (comparable_characters u (u.compatible text)))

-- `normalized_hash`, for a digest that is not of this program
unfoldable pub normalized_hash : Unicode → (Text → Text) → Text → Text
unfolding normalize_text
normalized_hash u sha256 text = sha256 (normalize_text u text)

abbrev is_compact_category : ℕ → Bool
is_compact_category c = c == b'L' || (c == b'M' || c == b'N')

abbrev compact_characters : Unicode → Text → Text
compact_characters u [] = []
compact_characters u (c ∷ s) =
    let rest = compact_characters u s in
    if is_compact_category (u.major_category c) then c ∷ rest else rest

-- `_source_copy_compact`
unfoldable pub source_copy_compact : Unicode → Text → Text
source_copy_compact u text = compact_characters u (u.compatible text)

abbrev pub is_nil : Text → Bool
is_nil [] = true
is_nil (c ∷ s) = false

abbrev take : ℕ → List Text → List Text
take zero words = []
take (suc n) [] = []
take (suc n) (w ∷ words) = w ∷ take n words

-- The windows of so many words: `words[index : index + n]` for each index of the range.
unfoldable pub windows : ℕ → List Text → List (List Text)
windows n [] = []
windows n (w ∷ words) =
    if leb n (length (w ∷ words)) then take n (w ∷ words) ∷ windows n words else []

abbrev same_words : List Text → List Text → Bool
same_words [] [] = true
same_words (a ∷ s) (b ∷ t) = same_text a b && same_words s t
same_words _ _ = false

-- Whether the compact form of a span is not empty and stands in that of the candidate.
abbrev compact_in : Unicode → Text → List Text → Bool
compact_in u compact span =
    let compact_span = source_copy_compact u (join_words span) in
    not (is_nil compact_span) && contains compact_span compact

unfoldable pub copies_source_span : Unicode → Text → Text → ℕ → Result Bool
unfolding normalize_text split_from windows same_text source_copy_compact contains
copies_source_span u candidate source span_words =
    let candidate_words = split (normalize_text u candidate) in
    let source_words = split (normalize_text u source) in
    let source_spans = windows span_words source_words in
    if ltb span_words 1
    then err value_error
    else if ltb (length source_words) span_words
    then ok false
    else if any (λ span. any (same_words span) source_spans) (windows span_words candidate_words)
    then ok true
    else ok (any (compact_in u (source_copy_compact u candidate)) source_spans)

-- ===== src/Generation/Sentence.antt =====
-- src/personal_voice_msg/generation/sentence.py: the prompt, the validation of a generated
-- sentence, and its way into the history.
use personal_voice_msg.Prelude.{
  ℕ, ◌+◌, Bool, true, false, not, ◌&&◌, ◌||◌, Option, none, some, [], ◌∷◌, ◌++◌, ◌==◌, leb, any,
  if◌then◌else◌,
}
use personal_voice_msg.Prelude.Text.{Text, codes, contains}
use personal_voice_msg.Prelude.Json.{Json, string, get}
use personal_voice_msg.Prelude.Strip.{drop_start, drop_end, strip}
use personal_voice_msg.Exec.{Exec, Result, ok, err, pure, raise, ◌>>=◌}
use personal_voice_msg.Scheduling.{Datetime}
use personal_voice_msg.Normalization.{Unicode, copies_source_span}
use personal_voice_msg.Database.Schema.{Db}
use personal_voice_msg.History.{DuplicateDecision, evaluate_and_record}
use personal_voice_msg.Generation.Gemini.{Reply, replied, failed, escaped}
use personal_voice_msg.Generation.Cards.{
  InspirationCard, theme_value, emotion_value, imagery_value, tone_value,
}

-- The rules of `SentenceValidationError`.
pub data SentenceRule : Type 0 where
  empty url no_terminal_punctuation mid_terminal_punctuation source_copy : SentenceRule
  client_error malformed_output : SentenceRule

-- What is returned, or the rule of the `SentenceValidationError` that is raised.
pub data Checked {ℓ} (A : Type ℓ) : Type ℓ where
  valid : A → Checked A
  rejected : SentenceRule → Checked A

abbrev spaced : ℕ → ℕ
spaced c = if c == b'_' then b' ' else c

-- `value.replace("_", " ")`
abbrev with_spaces : Text → Text
with_spaces [] = []
with_spaces (c ∷ s) = spaced c ∷ with_spaces s

unfoldable pub build_prompt : InspirationCard → Text
build_prompt card =
    codes "Write exactly one short, natural, spoken-style English sentence "
    ++ (codes "expressing "
        ++ theme_value card.theme
        ++ codes " with a feeling of "
        ++ emotion_value card.emotion
        ++ codes ", ")
    ++ (codes "evoking "
        ++ with_spaces (imagery_value card.imagery)
        ++ codes ", in a "
        ++ tone_value card.tone
        ++ codes " tone. ")
    ++ codes "Do not use any quotes, song lyrics, citations, URLs, names of real "
    ++ codes "people, or references to a specific shared memory. Do not mention "
    ++ codes "sex, money, marriage proposals, or breaking up. Return only the "
    ++ codes "sentence."

-- The letters that a pattern with `re.IGNORECASE` takes for the same; 383 is the long s.
abbrev fold_character : ℕ → ℕ
fold_character c = if leb b'A' c && leb c b'Z' then c + 32 else if c == 383 then b's' else c

abbrev fold_case : Text → Text
fold_case [] = []
fold_case (c ∷ s) = fold_character c ∷ fold_case s

-- Whether `_URL_PATTERN` matches somewhere.
unfoldable pub has_url : Text → Bool
unfolding contains
has_url text =
    contains (codes "http://") (fold_case text)
    || (contains (codes "https://") (fold_case text) || contains (codes "www.") (fold_case text))

abbrev pub is_terminal : ℕ → Bool
is_terminal c = c == b'.' || (c == b'!' || c == b'?')

-- `candidate[-1]` and `candidate[:-1]` of a text that starts with the character.
abbrev pub last_of : ℕ → Text → ℕ
last_of c [] = c
last_of c (d ∷ s) = last_of d s

abbrev pub all_but_last : ℕ → Text → Text
all_but_last c [] = []
all_but_last c (d ∷ s) = c ∷ all_but_last d s

module _ (u : Unicode) where
  abbrev pub copied_from : Text → Option Text → Result Bool
  copied_from candidate none = ok false
  copied_from candidate (some source) = copies_source_span u candidate source 6

  -- The last test; for spans of six words it raises no error of its own.
  abbrev pub unless_copied : Result Bool → Text → Checked Text
  unless_copied (ok true) candidate = rejected source_copy
  unless_copied (ok false) candidate = valid candidate
  unless_copied (err e) candidate = rejected source_copy

  abbrev pub check : Text → Option Text → Checked Text
  check [] source = rejected empty
  check (c ∷ s) source =
      if has_url (c ∷ s)
      then rejected url
      else if not (is_terminal (last_of c s))
      then rejected no_terminal_punctuation
      else if any is_terminal (all_but_last c s)
      then rejected mid_terminal_punctuation
      else unless_copied (copied_from (c ∷ s) source) (c ∷ s)

  unfoldable pub validate_generated_sentence : Text → Option Text → Checked Text
  unfolding drop_start drop_end has_url copies_source_span
  validate_generated_sentence raw source = check (strip raw) source

abbrev pub sentence_in : Option Json → Checked Text
sentence_in (some (string text)) = valid text
sentence_in _ = rejected malformed_output

module _ (u : Unicode) (sha256 : Text → Text) (ratio : Text → Text → ℕ) where
  abbrev pub record_valid :
      Datetime → Option Text → Checked Text → Exec Db (Checked DuplicateDecision)
  record_valid now source (rejected rule) = pure (rejected rule)
  record_valid now source (valid sentence) = do
    decision ← evaluate_and_record u sha256 ratio sentence now source
    pure (valid decision)

  abbrev pub then_validate : Option Text → Checked Text → Checked Text
  then_validate source (valid sentence) = validate_generated_sentence u sentence source
  then_validate source (rejected rule) = rejected rule

  abbrev pub from_reply : Datetime → Option Text → Reply → Exec Db (Checked DuplicateDecision)
  from_reply now source (failed reason) = pure (rejected client_error)
  from_reply now source (escaped e) = raise e
  from_reply now source (replied fields) =
      record_valid now source (then_validate source (sentence_in (get (codes "sentence") fields)))

  -- `reply` is what `generate_structured` does with a prompt.
  unfoldable pub generate_sentence :
      (Text → Reply)
      → InspirationCard
      → Datetime
      → Option Text
      → Exec Db (Checked DuplicateDecision)
  unfolding get build_prompt validate_generated_sentence
  generate_sentence reply card now source = from_reply now source (reply (build_prompt card))

-- ===== src/Judging/Gates.antt =====
-- src/personal_voice_msg/judging/gates.py
use personal_voice_msg.Prelude.{
  Bool, true, false, not, ◌&&◌, ◌||◌, none, some, List, [], ◌∷◌, ◌++◌, ◌==◌, ltb, any,
  if◌then◌else◌,
}
use personal_voice_msg.Prelude.Text.{Text, codes, same_text, strip_prefix}
use personal_voice_msg.Rows.{count}
use personal_voice_msg.Normalization.{Unicode, normalize_text, split}
use personal_voice_msg.Judging.Phrases.{phrase_categories, stranger_name_tokens}

pub record GateViolation : Type 0 where
  pub category : Text
  pub matched_phrase : Text

pub record GateDecision : Type 0 where
  pub accepted : Bool
  pub violations : List GateViolation

-- The first token that is a name.
unfoldable pub name_violation : List Text → List GateViolation
unfolding same_text
name_violation [] = []
name_violation (token ∷ tokens) =
    if any (same_text token) stranger_name_tokens
    then record { category = codes "stranger_name"; matched_phrase = token } ∷ []
    else name_violation tokens

abbrev pub exclamation_violation : Text → List GateViolation
exclamation_violation candidate =
    if ltb 1 (count (λ c. c == b'!') candidate)
    then record { category = codes "excessive_emotional_intensity"; matched_phrase = codes "!!" }
      ∷ []
    else []

abbrev pub is_empty : List GateViolation → Bool
is_empty [] = true
is_empty (v ∷ vs) = false

module _ (u : Unicode) where
  -- `(?!\w)`
  abbrev pub ends_here : Text → Bool
  ends_here [] = true
  ends_here (c ∷ s) = not (u.is_word c)

  -- The phrase stands at the start of the text, and no word character follows.
  abbrev pub stands_at : Text → Text → Bool
  stands_at phrase s = elim (strip_prefix phrase s) [ none ↦ false | some rest ↦ ends_here rest ]

  -- `_phrase_pattern(phrase).search(text)`, where `inside` says whether a word character precedes
  unfoldable pub phrase_found : Text → Bool → Text → Bool
  unfolding strip_prefix
  phrase_found phrase inside [] = not inside && stands_at phrase []
  phrase_found phrase inside (c ∷ s) =
      not inside && stands_at phrase (c ∷ s) || phrase_found phrase (u.is_word c) s

  -- The first phrase of a category that is found, as a violation.
  unfoldable pub category_violation : Text → Text → List Text → List GateViolation
  unfolding phrase_found
  category_violation normalized category [] = []
  category_violation normalized category (phrase ∷ phrases) =
      if phrase_found phrase false normalized
      then record { category = category; matched_phrase = phrase } ∷ []
      else category_violation normalized category phrases

  unfoldable pub phrase_violations : Text → List (Text × List Text) → List GateViolation
  unfolding category_violation
  phrase_violations normalized [] = []
  phrase_violations normalized ((category, phrases) ∷ categories) =
      category_violation normalized category phrases ++ phrase_violations normalized categories

  unfoldable pub evaluate_gates : Text → GateDecision
  unfolding normalize_text phrase_violations name_violation count
  evaluate_gates candidate =
      let normalized = normalize_text u candidate in
      let violations =
        phrase_violations normalized phrase_categories
        ++ name_violation (split normalized)
        ++ exclamation_violation candidate in
      record { accepted = is_empty violations; violations = violations }

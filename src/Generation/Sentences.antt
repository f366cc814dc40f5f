-- ===== src/Generation/Sentences.antt =====
-- The sentences that src/personal_voice_msg/generation/sentence.py accepts and records.
use personal_voice_msg.Prelude.{
  ℕ, ◌≡◌, refl, ap, ◌∙◌, Bool, true, false, not, ◌↔◌, Option, [], ◌∷◌, ◌++◌, any, if◌then◌else◌,
}
use personal_voice_msg.Prelude.Text.{Text}
use personal_voice_msg.Prelude.Strip.{strip}
use personal_voice_msg.Exec.{Result, ok, err}
use personal_voice_msg.Normalization.{Unicode}
use personal_voice_msg.Generation.Sentence.{
  url, no_terminal_punctuation, mid_terminal_punctuation, Checked, valid, rejected, has_url,
  is_terminal, last_of, all_but_last, copied_from, unless_copied, check,
  validate_generated_sentence,
}

-- One terminal punctuation mark, at the end.
abbrev pub IsOneSentence : Text → Type 0
IsOneSentence s =
    (body : Text) × (mark : ℕ) × (s ≡ body ++ mark ∷ [])
    × (is_terminal mark ≡ true)
    × (any is_terminal body ≡ false)

last_apart : (c : ℕ) (s : Text) → c ∷ s ≡ all_but_last c s ++ last_of c s ∷ []
last_apart c [] = refl
last_apart c (d ∷ s) = ap (λ t. c ∷ t) (last_apart d s)

last_of-append : (c : ℕ) (s : Text) (mark : ℕ) → last_of c (s ++ mark ∷ []) ≡ mark
last_of-append c [] mark = refl
last_of-append c (d ∷ s) mark = last_of-append d s mark

all_but_last-append : (c : ℕ) (s : Text) (mark : ℕ) → all_but_last c (s ++ mark ∷ []) ≡ c ∷ s
all_but_last-append c [] mark = refl
all_but_last-append c (d ∷ s) mark = ap (λ t. c ∷ t) (all_but_last-append d s mark)

abbrev checked_value : Checked Text → Text
checked_value (valid s) = s
checked_value (rejected rule) = []

passed_all :
    (a b c : Bool) (rest : Checked Text) (s : Text)
    → (if a
        then rejected url
        else if not b
        then rejected no_terminal_punctuation
        else if c
        then rejected mid_terminal_punctuation
        else rest)
      ≡ valid s
    → (a ≡ false) × (b ≡ true) × (c ≡ false) × (rest ≡ valid s)
passed_all true b c rest s h = cc
passed_all false false c rest s h = cc
passed_all false true true rest s h = cc
passed_all false true false rest s h = (refl, refl, refl, h)

module _ (u : Unicode) (source : Option Text) where
  -- What is accepted of a text without leading and trailing white space.
  abbrev pub IsAccepted : Text → Type 0
  IsAccepted s = IsOneSentence s × (has_url s ≡ false) × (copied_from u s source ≡ ok false)

  uncopied :
      (r : Result Bool) (candidate s : Text)
      → unless_copied u r candidate ≡ valid s
      → (r ≡ ok false) × (candidate ≡ s)
  uncopied (ok true) candidate s h = cc
  uncopied (ok false) candidate s h = (refl, ap checked_value h)
  uncopied (err e) candidate s h = cc

  check-IsAccepted :
      (candidate s : Text)
      → check u candidate source ≡ valid s
      → (candidate ≡ s) × IsAccepted candidate
  check-IsAccepted [] s h = cc
  check-IsAccepted (c ∷ t) s h =
      let (plain, marked, single, rest) =
        passed_all (has_url (c ∷ t)) (is_terminal (last_of c t))
          (any is_terminal (all_but_last c t)) _ s h in
      let (uncopied_text, same) = uncopied (copied_from u (c ∷ t) source) (c ∷ t) s rest in
      (
        same,
        ((all_but_last c t, last_of c t, last_apart c t, marked, single), plain, uncopied_text),
      )

  checked :
      (c : ℕ) (t : Text)
      → has_url (c ∷ t) ≡ false
      → is_terminal (last_of c t) ≡ true
      → any is_terminal (all_but_last c t) ≡ false
      → copied_from u (c ∷ t) source ≡ ok false
      → check u (c ∷ t) source ≡ valid (c ∷ t)
  checked c t plain marked single fresh = rw (plain, marked, single, fresh) refl

  closed :
      (body : Text) (mark : ℕ)
      → is_terminal mark ≡ true
      → any is_terminal body ≡ false
      → has_url (body ++ mark ∷ []) ≡ false
      → copied_from u (body ++ mark ∷ []) source ≡ ok false
      → check u (body ++ mark ∷ []) source ≡ valid (body ++ mark ∷ [])
  closed [] mark marked single plain fresh = checked mark [] plain marked refl fresh
  closed (d ∷ body) mark marked single plain fresh =
      checked d (body ++ mark ∷ []) plain (ap is_terminal (last_of-append d body mark) ∙ marked)
        (ap (any is_terminal) (all_but_last-append d body mark) ∙ single) fresh

  IsAccepted-check :
      (candidate : Text) → IsAccepted candidate → check u candidate source ≡ valid candidate
  IsAccepted-check candidate ((body, mark, e, marked, single), plain, fresh) =
      rw e (closed body mark marked single (rw (← e) plain) (rw (← e) fresh))

  -- A generated text is accepted as a sentence exactly if the sentence is the text without leading
  -- and trailing white space and has one terminal punctuation mark, at its end, no URL, and no
  -- span copied from the source.
  pub validate_generated_sentence_iff :
      (raw s : Text)
      → (validate_generated_sentence u raw source ≡ valid s) ↔ ((strip raw ≡ s) × IsAccepted s)
  unfolding validate_generated_sentence
  validate_generated_sentence_iff raw s = (
    (λ h. let (e, k) = check-IsAccepted (strip raw) s h in (e, rw (← e) k)),
    λ h. rw (h.0) (IsAccepted-check s (h.1)),
  )

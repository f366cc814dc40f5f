-- ===== src/Judging/GateResults.antt =====
-- The decisions of `evaluate_gates` (src/personal_voice_msg/judging/gates.py).
use personal_voice_msg.Prelude.{
  ◌≡◌, refl, ◌∙◌, Bool, true, false, not, ◌&&◌, List, [], ◌∷◌, ◌++◌, ◌==◌, ltb, any, all, arith,
  Bool-cases, inl, inr,
}
use personal_voice_msg.Prelude.Text.{Text, same_text, same_text→eq, strip_prefix-append}
use personal_voice_msg.Rows.{count}
use personal_voice_msg.Normalization.{Unicode, normalize_text, split}
use personal_voice_msg.Judging.Phrases.{phrase_categories, stranger_name_tokens}
use personal_voice_msg.Judging.Gates.{
  GateViolation, ends_here, stands_at, phrase_found, category_violation, phrase_violations,
  name_violation, exclamation_violation, is_empty, evaluate_gates,
}

is_empty-append : (xs ys : List GateViolation) → is_empty (xs ++ ys) ≡ is_empty xs && is_empty ys
is_empty-append [] ys = refl
is_empty-append (x ∷ xs) ys = refl

three :
    (xs ys zs : List GateViolation)
    → is_empty (xs ++ ys ++ zs) ≡ is_empty xs && (is_empty ys && is_empty zs)
three [] ys zs = is_empty-append ys zs
three (x ∷ xs) ys zs = refl

module _ (u : Unicode) where
  -- No phrase of the list is in the text.
  abbrev pub free_of : Text → List Text → Bool
  free_of normalized phrases = all (λ phrase. not (phrase_found u phrase false normalized)) phrases

  category-free :
      (normalized category : Text) (phrases : List Text)
      → is_empty (category_violation u normalized category phrases) ≡ free_of normalized phrases
  unfolding category_violation
  category-free normalized category [] = refl
  category-free normalized category (phrase ∷ phrases) =
      ground (arith, category-free normalized category phrases)

  phrases-free :
      (normalized : Text) (categories : List (Text × List Text))
      → is_empty (phrase_violations u normalized categories)
        ≡ all (λ c. free_of normalized (c.1)) categories
  unfolding phrase_violations
  phrases-free normalized [] = refl
  phrases-free normalized ((category, phrases) ∷ categories) =
      rw
        (
          is_empty-append (category_violation u normalized category phrases)
              (phrase_violations u normalized categories),
          category-free normalized category phrases,
          phrases-free normalized categories,
        )
        refl

  names-free :
      (tokens : List Text)
      → is_empty (name_violation tokens)
        ≡ not (any (λ token. any (same_text token) stranger_name_tokens) tokens)
  unfolding name_violation
  names-free [] = refl
  names-free (token ∷ tokens) = ground (arith, names-free tokens)

  exclamations-free :
      (candidate : Text)
      → is_empty (exclamation_violation candidate) ≡ not (ltb 1 (count (λ c. c == b'!') candidate))
  exclamations-free candidate = ground arith

  -- The gates accept a candidate exactly if its normalised text has no phrase of any category
  -- between word boundaries and no word that is a listed name, and the candidate itself has at
  -- most one exclamation mark.
  pub evaluate_gates-accepted :
      (candidate : Text)
      → (evaluate_gates u candidate).accepted ≡ (
          all (λ c. free_of (normalize_text u candidate) (c.1)) phrase_categories
          && (not (
                any
                  (λ token. any (same_text token) stranger_name_tokens)
                  (split (normalize_text u candidate)))
              && not (ltb 1 (count (λ c. c == b'!') candidate))))
  unfolding evaluate_gates
  evaluate_gates-accepted candidate =
      let n = normalize_text u candidate in
      three (phrase_violations u n phrase_categories) (name_violation (split n))
        (exclamation_violation candidate)
      ∙ rw (phrases-free n phrase_categories, names-free (split n), exclamations-free candidate)
          refl

  -- Whether a word character ends the text, from whether one precedes it.
  abbrev pub inside_after : Bool → Text → Bool
  inside_after inside [] = inside
  inside_after inside (c ∷ s) = inside_after (u.is_word c) s

  found_start :
      (phrase : Text) (inside : Bool) (s : Text)
      → inside ≡ false
      → stands_at u phrase s ≡ true
      → phrase_found u phrase inside s ≡ true
  unfolding phrase_found
  found_start phrase inside [] b h = rw (b, h) refl
  found_start phrase inside (c ∷ s) b h = rw (b, h) refl

  stands-append :
      (phrase after : Text) → ends_here u after ≡ true → stands_at u phrase (phrase ++ after) ≡ true
  stands-append phrase after e = rw (stands_at, strip_prefix-append phrase after) e

  found_at :
      (phrase : Text) (inside : Bool) (before after : Text)
      → inside_after inside before ≡ false
      → ends_here u after ≡ true
      → phrase_found u phrase inside (before ++ phrase ++ after) ≡ true
  unfolding phrase_found
  found_at phrase inside [] after b e =
      found_start phrase inside (phrase ++ after) b (stands-append phrase after e)
  found_at phrase inside (c ∷ before) after b e =
      ground (arith, found_at phrase (u.is_word c) before after b e)

  not_free :
      (normalized phrase : Text) (phrases : List Text)
      → phrase_found u phrase false normalized ≡ true
      → any (same_text phrase) phrases ≡ true
      → free_of normalized phrases ≡ false
  not_free normalized phrase [] found listed = cc
  not_free normalized phrase (p ∷ phrases) found listed = elim (Bool-cases (same_text phrase p)) [
    | inl same ↦
        let here : phrase_found u p false normalized ≡ true =
          rw (← same_text→eq phrase p same) found in
        rw (here) refl
    | inr other ↦ ground (arith, other, not_free normalized phrase phrases found)
  ]

  not_all_free :
      (normalized phrase : Text) (categories : List (Text × List Text))
      → phrase_found u phrase false normalized ≡ true
      → any (λ c. any (same_text phrase) (c.1)) categories ≡ true
      → all (λ c. free_of normalized (c.1)) categories ≡ false
  not_all_free normalized phrase [] found listed = cc
  not_all_free normalized phrase (c ∷ categories) found listed =
      elim (Bool-cases (any (same_text phrase) (c.1))) [
        | inl here ↦ rw (not_free normalized phrase (c.1) found here) refl
        | inr other ↦ ground (arith, other, not_all_free normalized phrase categories found)
      ]

  -- A candidate whose normalised text holds a listed phrase, with no word character right before
  -- it or right after it, is refused, whatever else it says.
  pub phrase_refused :
      (candidate before phrase after : Text)
      → any (λ c. any (same_text phrase) (c.1)) phrase_categories ≡ true
      → normalize_text u candidate ≡ before ++ phrase ++ after
      → inside_after false before ≡ false
      → ends_here u after ≡ true
      → (evaluate_gates u candidate).accepted ≡ false
  phrase_refused candidate before phrase after listed e b a =
      let found : phrase_found u phrase false (normalize_text u candidate) ≡ true =
        rw e (found_at phrase false before after b a) in
      evaluate_gates-accepted candidate
      ∙ rw (not_all_free (normalize_text u candidate) phrase phrase_categories found listed) refl

-- ===== src/Prelude/Decimal.antt =====
-- `str(n)` for a natural number `n`, and the value of a decimal numeral.
use Prim.Native.Nat.{ℕ, zero, suc, ◌+◌, ◌-◌, ◌*◌, ◌/◌, ◌%◌, ◌^◌, ◌<◌, ◌≤◌}
use mathlib.Core.Path.{◌≡◌, refl, sym, ap, ◌∙◌}
use mathlib.Core.Bool.{Bool, true, ◌&&◌}
use mathlib.Core.Logic.{dite}
use mathlib.Core.List.{[], ◌∷◌, ◌++◌, foldl, foldl-append}
use mathlib.Core.WellFounded.{Acc, WellFounded}
use native.Mathlib.Nat.{pow-suc}
use native.Mathlib.Decide.{dec_lt}
use native.Mathlib.Omega.{arith}
use personal_voice_msg.Prelude.Tests.{leb}
use personal_voice_msg.Prelude.Lists.{length, length-append, all, all-append}
use personal_voice_msg.Prelude.Text.{Text}

Acc-below : (k n : ℕ) → n < k → Acc ◌<◌ n
Acc-below zero n h = elim h [ ]
Acc-below (suc k) n h = Acc.intro n (λ m lt. Acc-below k m (omega arith))

lt_wf : WellFounded ◌<◌
unfolding Acc-below
lt_wf = record { apply = λ n. Acc-below (suc n) n (omega arith) }

smaller_tenth : (n : ℕ) → 9 < n → n / 10 < n
smaller_tenth n h = omega arith

-- The last digit of `n` stands behind the numeral of `n / 10`.
numeral : (n : ℕ) → Acc ◌<◌ n → Text
numeral n (Acc.intro _ smaller) =
    dite (dec_lt 9 n)
      (λ h. numeral (n / 10) (smaller (n / 10) (smaller_tenth n h)) ++ (48 + n % 10) ∷ [])
      (λ _. (48 + n) ∷ [])

unfoldable pub decimal : ℕ → Text
unfolding numeral lt_wf dec_lt smaller_tenth
decimal n = numeral n (lt_wf.apply n)

abbrev pub is_digit : ℕ → Bool
is_digit c = leb 48 c && leb c 57

abbrev push_digit : ℕ → ℕ → ℕ
push_digit v c = v * 10 + (c - 48)

abbrev value : Text → ℕ
value = foldl push_digit 0

-- What holds of one digit, and passes on to a numeral with one more, holds of every numeral.
module _ {ℓ} (P : ℕ → Text → Type ℓ) (one : (n : ℕ) → n ≤ 9 → P n ((48 + n) ∷ []))
    (more : (n : ℕ) (s : Text) → 9 < n → P (n / 10) s → P n (s ++ (48 + n % 10) ∷ [])) where
  numeral_induction : (n : ℕ) (w : Acc ◌<◌ n) → P n (numeral n w)
  unfolding numeral
  numeral_induction n (Acc.intro _ smaller) =
      elim (dec_lt 9 n)
        as (λ d. P n (
          dite d
            (λ h. numeral (n / 10) (smaller (n / 10) (smaller_tenth n h)) ++ (48 + n % 10) ∷ [])
            (λ _. (48 + n) ∷ []))) [
              | yes h ↦
                  more n (numeral (n / 10) (smaller (n / 10) (smaller_tenth n h))) h
                    (numeral_induction (n / 10) (smaller (n / 10) (smaller_tenth n h)))
              | no h ↦ one n (omega arith)
            ]

  decimal_induction : (n : ℕ) → P n (decimal n)
  unfolding decimal
  decimal_induction n = numeral_induction n (lt_wf.apply n)

-- The numeral of a number has its value.
pub value-decimal : (n : ℕ) → value (decimal n) ≡ n
value-decimal =
    decimal_induction (λ n s. value s ≡ n) (λ n h. omega arith)
      (λ n s h ih. rw foldl-append (rw ih (omega arith)))

-- Two numbers with one numeral are equal.
pub decimal-injective : (m n : ℕ) → decimal m ≡ decimal n → m ≡ n
decimal-injective m n e = sym (value-decimal m) ∙ ap value e ∙ value-decimal n

pub all-is_digit : (n : ℕ) → all is_digit (decimal n) ≡ true
all-is_digit =
    decimal_induction (λ n s. all is_digit s ≡ true) (λ n h. ground arith)
      (λ n s h ih. all-append is_digit s ((48 + n % 10) ∷ []) ih (ground arith))

-- A number below a power of ten has no more digits than the power's exponent.
pub length-decimal-le : (n k : ℕ) → n < 10 ^ suc k → length (decimal n) ≤ suc k
length-decimal-le =
    decimal_induction (λ n s. (k : ℕ) → n < 10 ^ suc k → length s ≤ suc k) (λ n h k lt. omega arith)
      shorter
  where
    shorter :
        (n : ℕ) (s : Text)
        → 9 < n
        → ((k : ℕ) → n / 10 < 10 ^ suc k → length s ≤ suc k)
        → (k : ℕ) → n < 10 ^ suc k
        → length (s ++ (48 + n % 10) ∷ []) ≤ suc k
    shorter n s h ih zero lt = absurd (omega arith)
    shorter n s h ih (suc k) lt =
        omega
          (arith, length-append s ((48 + n % 10) ∷ []), ih k (omega (arith, pow-suc 10 (suc k))))

pub decimal-ne-nil : (n : ℕ) → 0 < length (decimal n)
decimal-ne-nil =
    decimal_induction (λ n s. 0 < length s) (λ n h. omega arith)
      (λ n s h ih. omega (arith, length-append s ((48 + n % 10) ∷ [])))

decimal_of_year : decimal 2026 ≡ 50 ∷ 48 ∷ 50 ∷ 54 ∷ []
unfolding decimal
decimal_of_year = refl

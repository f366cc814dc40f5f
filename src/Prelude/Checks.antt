-- ===== src/Prelude/Checks.antt =====
-- Functions of the source that return a value or raise the one error that they have.
use mathlib.Core.Path.{◌≡◌, refl, subst}
use mathlib.Core.Bool.{Bool, true, false}
use mathlib.Core.Option.{Option, none, some, some-injective}
use personal_voice_msg.Prelude.Tests.{if◌then◌else◌}
use mathlib.Core.List.{List, [], ◌∷◌}

infixl 10 ◌>>=◌ ◌>>◌
-- `none` stands for the error.
unfoldable pub ◌>>=◌ {ℓ κ} : {A : Type ℓ} {B : Type κ} → Option A → (A → Option B) → Option B
none >>= f = none
some a >>= f = f a

abbrev Passed : Type 0
Passed = Unit

-- `if not test: raise`
unfoldable pub require : Bool → Option Passed
require true = some tt
require false = none

abbrev pub ◌>>◌ {ℓ} : {B : Type ℓ} → Option Passed → Option B → Option B
m >> n = m >>= λ _. n

-- What is known of a value that is returned.
pub record Returns {ℓ} {A : Type ℓ} (m : Option A) (Q : A → Type ℓ) : Type ℓ where
  pub at : (a : A) → m ≡ some a → Q a

module _ {ℓ} {A : Type ℓ} {Q : A → Type ℓ} where
  pub Returns-some : (a : A) → Q a → Returns (some a) Q
  Returns-some a h = record { at = λ b e. subst Q (some-injective a b e) h }

  pub Returns-none : Returns none Q
  Returns-none = record { at = λ b e. cc }

  pub Returns-require :
      (test : Bool) (n : Option A) → (test ≡ true → Returns n Q) → Returns (require test >> n) Q
  unfolding ◌>>=◌ require
  Returns-require true n h = h refl
  Returns-require false n h = record { at = λ b e. cc }

  pub Returns-if :
      (test : Bool) (m n : Option A)
      → (test ≡ true → Returns m Q)
      → (test ≡ false → Returns n Q)
      → Returns (if test then m else n) Q
  Returns-if true m n hm hn = hm refl
  Returns-if false m n hm hn = hn refl

pub Returns-bind {ℓ κ} :
    {A : Type κ} {B : Type ℓ} {Q : B → Type ℓ} (m : Option A) (f : A → Option B)
    → ((a : A) → m ≡ some a → Returns (f a) Q)
    → Returns (m >>= f) Q
unfolding ◌>>=◌
Returns-bind none f h = record { at = λ b e. cc }
Returns-bind (some a) f h = h a refl

-- One function for each element, in order, until one raises.
abbrev pub each {ℓ κ} : {A : Type ℓ} {B : Type κ} → (A → Option B) → List A → Option (List B)
each f [] = some []
each f (x ∷ xs) = do y ← f x; ys ← each f xs; some (y ∷ ys)

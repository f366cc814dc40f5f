-- ===== src/Exec/Ends.antt =====
-- How an action ends from a given state: a postcondition for its value and one for its error,
-- with a rule for each way to build an action.
use mathlib.Core.Path.{subst}
use personal_voice_msg.Prelude.{Bool, true, false, ◌≡◌, refl, Option, none, some, if◌then◌else◌}
use personal_voice_msg.Exec.{
  Error, Result, ok, err, settle, resume, recast_result, Exec, pure, raise, lift, gets, or_raise,
  transaction, ⊤, modify, raise_if, recast, attempt, ◌>>=◌,
}

abbrev pub Outcome {ℓ} :
    {S A : Type ℓ} → (A → S → Type ℓ) → (Error → S → Type ℓ) → Result A → S → Type ℓ
Outcome Q R (ok a) t = Q a t
Outcome Q R (err e) t = R e t

pub record Ends {ℓ} {S A : Type ℓ} (m : Exec S A) (s : S) (Q : A → S → Type ℓ)
    (R : Error → S → Type ℓ) : Type ℓ where
  pub at : Outcome Q R (m s).0 (m s).1

module _ {ℓ} {S A : Type ℓ} {Q : A → S → Type ℓ} {R : Error → S → Type ℓ} where
  pub Ends-pure : (a : A) (s : S) → Q a s → Ends (pure a) s Q R
  unfolding pure
  Ends-pure a s h = record { at = h }

  pub Ends-raise : (e : Error) (s : S) → R e s → Ends (raise e) s Q R
  unfolding raise
  Ends-raise e s h = record { at = h }

  pub Ends-lift :
      (r : Result A) (s : S)
      → ((a : A) → r ≡ ok a → Q a s)
      → ((e : Error) → r ≡ err e → R e s)
      → Ends (lift r) s Q R
  unfolding lift
  Ends-lift (ok a) s q r = record { at = q a refl }
  Ends-lift (err e) s q r = record { at = r e refl }

  pub Ends-outcome : (r : Result A) (s : S) → Outcome Q R r s → Ends (lift r) s Q R
  unfolding lift
  Ends-outcome r s h = record { at = h }

  pub Ends-gets : (f : S → A) (s : S) → Q (f s) s → Ends (gets f) s Q R
  unfolding gets
  Ends-gets f s h = record { at = h }

  pub Ends-or_raise :
      (e : Error) (o : Option A) (s : S)
      → ((a : A) → o ≡ some a → Q a s)
      → (o ≡ none → R e s)
      → Ends (or_raise e o) s Q R
  unfolding or_raise
  Ends-or_raise e none s q r = record { at = r refl }
  Ends-or_raise e (some a) s q r = record { at = q a refl }

  pub Ends-if :
      (b : Bool) (m n : Exec S A) (s : S)
      → (b ≡ true → Ends m s Q R)
      → (b ≡ false → Ends n s Q R)
      → Ends (if b then m else n) s Q R
  Ends-if true m n s hm hn = hm refl
  Ends-if false m n s hm hn = hn refl

module _ {S : Type 0} {Q : ⊤ → S → Type 0} {R : Error → S → Type 0} where
  pub Ends-raise_if :
      (b : Bool) (e : Error) (s : S)
      → (b ≡ false → Q tt s)
      → (b ≡ true → R e s)
      → Ends (raise_if b e) s Q R
  unfolding raise_if
  Ends-raise_if true e s q r = record { at = r refl }
  Ends-raise_if false e s q r = record { at = q refl }

  pub Ends-modify : (f : S → S) (s : S) → Q tt (f s) → Ends (modify f) s Q R
  unfolding modify
  Ends-modify f s h = record { at = h }

module _ {ℓ} {S A B : Type ℓ} (Q : B → S → Type ℓ) (R : Error → S → Type ℓ) (f : A → Exec S B) where
  resumed :
      (r : Result A) (t : S)
      → Outcome (λ a u. Ends (f a) u Q R) R r t
      → Outcome Q R (resume r f t).0 (resume r f t).1
  resumed (ok a) t h = h.at
  resumed (err e) t h = h

module _ {ℓ} {S A B : Type ℓ} {Q : B → S → Type ℓ} {R : Error → S → Type ℓ} where
  pub Ends-bind :
      (m : Exec S A) (f : A → Exec S B) (s : S)
      → Ends m s (λ a t. Ends (f a) t Q R) R
      → Ends (m >>= f) s Q R
  unfolding ◌>>=◌
  Ends-bind m f s h = record { at = resumed Q R f (m s).0 (m s).1 h.at }

module _ {ℓ} {S A : Type ℓ} (Q : A → S → Type ℓ) (R : Error → S → Type ℓ) where
  settled :
      (s : S) (r : Result A) (t : S)
      → Outcome Q (λ e _. R e s) r t
      → Outcome Q R (settle s r t).0 (settle s r t).1
  settled s (ok a) t h = h
  settled s (err e) t h = h

  recasted :
      (f : Error → Error) (r : Result A) (t : S)
      → Outcome Q (λ e u. R (f e) u) r t
      → Outcome Q R (recast_result f r) t
  recasted f (ok a) t h = h
  recasted f (err e) t h = h

  weakened :
      (Q' : A → S → Type ℓ) (R' : Error → S → Type ℓ) (r : Result A) (t : S)
      → ((a : A) → r ≡ ok a → Q' a t → Q a t)
      → ((e : Error) → r ≡ err e → R' e t → R e t)
      → Outcome Q' R' r t
      → Outcome Q R r t
  weakened Q' R' (ok a) t q r h = q a refl h
  weakened Q' R' (err e) t q r h = r e refl h

module _ {ℓ} {S A : Type ℓ} {Q : A → S → Type ℓ} {R : Error → S → Type ℓ} where
  -- An error leaves the state from before the transaction.
  pub Ends-transaction :
      (m : Exec S A) (s : S) → Ends m s Q (λ e _. R e s) → Ends (transaction m) s Q R
  unfolding transaction
  Ends-transaction m s h = record { at = settled Q R s (m s).0 (m s).1 h.at }

  pub Ends-recast :
      (f : Error → Error) (m : Exec S A) (s : S)
      → Ends m s Q (λ e t. R (f e) t)
      → Ends (recast f m) s Q R
  unfolding recast
  Ends-recast f m s h = record { at = recasted Q R f (m s).0 (m s).1 h.at }

  pub Ends-weaken :
      {Q' : A → S → Type ℓ} {R' : Error → S → Type ℓ} (m : Exec S A) (s : S)
      → Ends m s Q' R'
      → ((a : A) (t : S) → m s ≡ (ok a, t) → Q' a t → Q a t)
      → ((e : Error) (t : S) → m s ≡ (err e, t) → R' e t → R e t)
      → Ends m s Q R
  Ends-weaken {Q'} {R'} m s h q r = record {
    at =
        weakened Q R Q' R' (m s).0 (m s).1 (λ a e. q a (m s).1 (cc)) (λ x e. r x (m s).1 (cc)) h.at;
  }

pub Outcome-both {ℓ} :
    {S A : Type ℓ} (Q : Result A → S → Type ℓ) (r : Result A) (t : S)
    → Q r t
    → Outcome (λ a u. Q (ok a) u) (λ e u. Q (err e) u) r t
Outcome-both Q (ok a) t h = h
Outcome-both Q (err e) t h = h

attempted {ℓ} :
    {S A : Type ℓ} (Q : Result A → S → Type ℓ) (r : Result A) (t : S)
    → Outcome (λ a u. Q (ok a) u) (λ e u. Q (err e) u) r t
    → Q r t
attempted Q (ok a) t h = h
attempted Q (err e) t h = h

module _ {ℓ} {S A : Type ℓ} {Q : Result A → S → Type ℓ} {R : Error → S → Type ℓ} where
  pub Ends-attempt :
      (m : Exec S A) (s : S)
      → Ends m s (λ a t. Q (ok a) t) (λ e t. Q (err e) t)
      → Ends (attempt m) s Q R
  unfolding attempt
  Ends-attempt m s h = record { at = attempted Q (m s).0 (m s).1 h.at }

module _ {ℓ} {S A B : Type ℓ} {Q : B → S → Type ℓ} {R : Error → S → Type ℓ} where
  -- What is known of the first part is handed to the rest.
  pub Ends-then :
      {Q' : A → S → Type ℓ} {R' : Error → S → Type ℓ} (m : Exec S A) (f : A → Exec S B) (s : S)
      → Ends m s Q' R'
      → ((a : A) (t : S) → Q' a t → Ends (f a) t Q R)
      → ((e : Error) (t : S) → R' e t → R e t)
      → Ends (m >>= f) s Q R
  Ends-then m f s h q r = Ends-bind m f s (Ends-weaken m s h (λ a t _. q a t) (λ e t _. r e t))

  -- The first part changes nothing.
  pub Ends-read :
      {P : A → Type ℓ} (m : Exec S A) (f : A → Exec S B) (s : S)
      → Ends m s (λ a t. (t ≡ s) × P a) (λ e t. t ≡ s)
      → ((a : A) → P a → Ends (f a) s Q R)
      → ((e : Error) → R e s)
      → Ends (m >>= f) s Q R
  Ends-read m f s h q r = Ends-then m f s h (λ a t k. rw (k.0) (q a k.1)) (λ e t k. rw k (r e))

-- The postcondition at a known end.
module _ {ℓ} {S A : Type ℓ} {Q : A → S → Type ℓ} {R : Error → S → Type ℓ} (m : Exec S A) (s : S)
    (h : Ends m s Q R) where
  pub Ends-returned : (a : A) (t : S) → m s ≡ (ok a, t) → Q a t
  Ends-returned a t e = subst (λ (end : Result A × S). Outcome Q R end.0 end.1) e h.at

  pub Ends-raised : (x : Error) (t : S) → m s ≡ (err x, t) → R x t
  Ends-raised x t e = subst (λ (end : Result A × S). Outcome Q R end.0 end.1) e h.at

-- ===== src/Exec/Keeps.antt =====
-- Predicates on the state that an action keeps, however it ends.
use personal_voice_msg.Prelude.{
  ◌≡◌, refl, Bool, true, false, Option, none, some, List, [], ◌∷◌, if◌then◌else◌,
}
use personal_voice_msg.Exec.Ends.{Ends, Outcome, Outcome-both}
use personal_voice_msg.Exec.{
  Error, Result, ok, err, settle, resume, Exec, pure, raise, lift, gets, or_raise, transaction,
  raise_if, ◌>>=◌, modify, recast, attempt,
}

-- Every run of `act` from a state with `I` ends in a state with `I`.
pub record Keeps {ℓ} {St V : Type ℓ} (I : St → Type ℓ) (act : Exec St V) : Type ℓ where
  pub at : (before : St) → I before → I (act before).1

-- Of a transaction and of the part of a chain that follows: what the first part kept is enough.
module _ {ℓ} {St V : Type ℓ} (I : St → Type ℓ) where
  settled :
      (before : St) (end : Result V) (after : St)
      → I before
      → I after
      → I (settle before end after).1
  settled before (ok v) after old new = new
  settled before (err e) after old new = old

module _ {ℓ} {St V W : Type ℓ} (I : St → Type ℓ) where
  resumed :
      (end : Result V) (next : V → Exec St W) (after : St)
      → ((v : V) → Keeps I (next v))
      → I after
      → I (resume end next after).1
  resumed (ok v) next after each i = (each v).at after i
  resumed (err e) next after each i = i

module _ {ℓ} {St V : Type ℓ} {I : St → Type ℓ} where
  -- An action that writes nothing keeps everything.
  Keeps-reading : (act : Exec St V) → ((before : St) → (act before).1 ≡ before) → Keeps I act
  Keeps-reading act same = record { at = λ before i. rw (same before) i }

  pub Keeps-pure : (v : V) → Keeps I (pure v)
  unfolding pure
  Keeps-pure v = Keeps-reading (pure v) λ before. refl

  pub Keeps-raise : (e : Error) → Keeps I (raise {A = V} e)
  unfolding raise
  Keeps-raise e = Keeps-reading (raise e) λ before. refl

  pub Keeps-lift : (end : Result V) → Keeps I (lift end)
  unfolding lift
  Keeps-lift end = Keeps-reading (lift end) λ before. refl

  pub Keeps-gets : (column : St → V) → Keeps I (gets column)
  unfolding gets
  Keeps-gets column = Keeps-reading (gets column) λ before. refl

  pub Keeps-or_raise : (e : Error) (row : Option V) → Keeps I (or_raise e row)
  unfolding or_raise
  Keeps-or_raise e none = Keeps-reading (or_raise e none) λ before. refl
  Keeps-or_raise e (some v) = Keeps-reading (or_raise e (some v)) λ before. refl

  pub Keeps-if :
      (test : Bool) (one other : Exec St V)
      → Keeps I one
      → Keeps I other
      → Keeps I (if test then one else other)
  Keeps-if true one other k l = k
  Keeps-if false one other k l = l

  pub Keeps-transaction : (act : Exec St V) → Keeps I act → Keeps I (transaction act)
  unfolding transaction
  Keeps-transaction act k = record {
    at = λ before i. settled I before (act before).0 (act before).1 i (k.at before i);
  }

module _ {St : Type 0} {I : St → Type 0} where
  pub Keeps-raise_if : (test : Bool) (e : Error) → Keeps I (raise_if {S = St} test e)
  unfolding raise_if
  Keeps-raise_if true e = Keeps-reading (raise_if true e) λ before. refl
  Keeps-raise_if false e = Keeps-reading (raise_if false e) λ before. refl

module _ {ℓ} {St V W : Type ℓ} {I : St → Type ℓ} where
  pub Keeps-bind :
      (first : Exec St V) (next : V → Exec St W)
      → Keeps I first
      → ((v : V) → Keeps I (next v))
      → Keeps I (first >>= next)
  unfolding ◌>>=◌
  Keeps-bind first next k each = record {
    at = λ before i. resumed I (first before).0 next (first before).1 each (k.at before i);
  }

pub Keeps-modify :
    {S : Type 0} {P : S → Type 0} (f : S → S) → ((s : S) → P s → P (f s)) → Keeps P (modify f)
unfolding modify
Keeps-modify f h = record { at = h }

module _ {ℓ} {S A : Type ℓ} {P : S → Type ℓ} where
  pub Keeps-recast : (f : Error → Error) (m : Exec S A) → Keeps P m → Keeps P (recast f m)
  unfolding recast
  Keeps-recast f m k = record { at = k.at }

  pub Keeps-attempt : (m : Exec S A) → Keeps P m → Keeps P (attempt m)
  unfolding attempt
  Keeps-attempt m k = record { at = k.at }

pub ruleset keeps_rules = (
  Keeps-pure, Keeps-raise, Keeps-lift, Keeps-gets, Keeps-or_raise, Keeps-if, Keeps-transaction,
  Keeps-raise_if, Keeps-bind, Keeps-recast, Keeps-attempt,
)

-- The state after one action for each of the arguments, however each of them ends.
abbrev pub run_each {ℓ} : {S A B : Type ℓ} → (A → Exec S B) → List A → S → S
run_each act [] s = s
run_each act (a ∷ args) s = run_each act args (act a s).1

pub run_each-Keeps {ℓ} :
    {S A B : Type ℓ} {P : S → Type ℓ} (act : A → Exec S B) (args : List A) (s : S)
    → ((a : A) → Keeps P (act a))
    → P s
    → P (run_each act args s)
run_each-Keeps act [] s k h = h
run_each-Keeps act (a ∷ args) s k h = run_each-Keeps act args (act a s).1 k ((k a).at s h)

-- What an action keeps holds at either end.
pub Ends_of_Keeps {ℓ} :
    {S A : Type ℓ} (P : S → Type ℓ) (m : Exec S A) (s : S)
    → Keeps P m
    → P s
    → Ends m s (λ _ t. P t) (λ _ t. P t)
Ends_of_Keeps P m s k h = record { at = Outcome-both (λ _ t. P t) (m s).0 (m s).1 (k.at s h) }

pub either_end {ℓ} :
    {S A : Type ℓ} (P : S → Type ℓ) (r : Result A) (t : S)
    → Outcome (λ _ u. P u) (λ _ u. P u) r t
    → P t
either_end P (ok a) t h = h
either_end P (err e) t h = h

pub Keeps-of_Ends {ℓ} :
    {S A : Type ℓ} {P : S → Type ℓ} (m : Exec S A)
    → ((s : S) → P s → Ends m s (λ _ t. P t) (λ _ t. P t))
    → Keeps P m
Keeps-of_Ends {P} m h = record { at = λ s k. either_end P (m s).0 (m s).1 ((h s k).at) }

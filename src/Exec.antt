-- ===== src/Exec.antt =====
-- Methods that change state and may raise. A write made before a raise stays made, so the state
-- comes back beside the error too; a transaction (`Database._transaction` in
-- src/personal_voice_msg/database.py) is what undoes it.
pub mod Keeps
pub mod Ends
use personal_voice_msg.Prelude.{Bool, true, false, Option, none, some, ◌≡◌, refl}

-- The exceptions that the modelled code raises or handles.
pub data Error : Type 0 where
  -- `ValueError`
  value_error : Error
  -- the subclasses of `DatabaseError`
  record_not_found invalid_transition database_invariant replay_detected migration_error : Error
  -- `sqlite3.IntegrityError`
  integrity_error : Error
  -- `SenderRejected` itself, its subclass `SenderBlocked`, and `SenderAmbiguous`
  sender_rejected sender_blocked sender_ambiguous : Error
  -- `TelegramPollError`, `AudioPipelineError`, `UnicodeDecodeError`
  poll_error audio_error unicode_decode_error : Error
  -- `DiscoveryBoundaryError`, `DiscoverySearchError`, `DiscoveryExtractionError`
  boundary_error search_error extraction_error : Error
  -- `OSError`, `MemoryError`
  os_error memory_error : Error
  -- any exception that no handler of the modelled code names
  other_error : Error
  -- the process ends in the middle of a call
  killed : Error

pub data Result {ℓ} (A : Type ℓ) : Type ℓ where
  ok : A → Result A
  err : Error → Result A

abbrev pub Exec {ℓ} : Type ℓ → Type ℓ → Type ℓ
Exec S A = S → Result A × S

module _ {ℓ} {S A : Type ℓ} where
  unfoldable pub pure : A → Exec S A
  pure a s = (ok a, s)

  unfoldable pub raise : Error → Exec S A
  raise e s = (err e, s)

  -- The outcome of a computation that reads and writes no state.
  unfoldable pub lift : Result A → Exec S A
  lift r s = (r, s)

  unfoldable pub gets : (S → A) → Exec S A
  gets f s = (ok (f s), s)

  -- The value of an optional row, or an error where there is none.
  unfoldable pub or_raise : Error → Option A → Exec S A
  or_raise e none s = (err e, s)
  or_raise e (some a) s = (ok a, s)

  abbrev settle : S → Result A → S → Result A × S
  settle before (ok a) after = (ok a, after)
  settle before (err e) after = (err e, before)

  -- `with self._transaction()`: commit on a normal end, roll back on an exception.
  unfoldable pub transaction : Exec S A → Exec S A
  transaction m s = let (r, t) = m s in settle s r t

abbrev pub ⊤ : Type 0
⊤ = Unit

module _ {S : Type 0} where
  unfoldable pub modify : (S → S) → Exec S ⊤
  modify f s = (ok tt, f s)

  -- `if test: raise error`
  unfoldable pub raise_if : Bool → Error → Exec S ⊤
  raise_if true e s = (err e, s)
  raise_if false e s = (ok tt, s)

module _ {ℓ} {S A B : Type ℓ} where
  abbrev resume : Result A → (A → Exec S B) → Exec S B
  resume (ok a) f s = f a s
  resume (err e) f s = (err e, s)

  infixl 10 ◌>>=◌ ◌>>◌
  -- Opening it opens the ways to build an action too.
  unfoldable pub ◌>>=◌ : Exec S A → (A → Exec S B) → Exec S B
  unfolding pure raise lift gets or_raise modify raise_if
  ◌>>=◌ m f s = let (r, t) = m s in resume r f t

  abbrev pub ◌>>◌ : Exec S A → Exec S B → Exec S B
  m >> n = m >>= λ _. n

abbrev recast_result {ℓ} : {A : Type ℓ} → (Error → Error) → Result A → Result A
recast_result f (ok a) = ok a
recast_result f (err e) = err (f e)

module _ {ℓ} {S A : Type ℓ} where
  -- `try: m` with handlers that raise another exception; what no handler names passes.
  unfoldable pub recast : (Error → Error) → Exec S A → Exec S A
  recast f m s = let (r, t) = m s in (recast_result f r, t)

  -- `try: m` with handlers that follow: the outcome of `m` as a value.
  unfoldable pub attempt : Exec S A → Exec S (Result A)
  attempt m s = let (r, t) = m s in (ok r, t)

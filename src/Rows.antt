-- ===== src/Rows.antt =====
-- A SQLite table as the list of its rows in rowid order, and the statements that the program runs
-- on one: a `SELECT` that fetches one row, a `SELECT COUNT(*)`, an `UPDATE` with its `rowcount`,
-- and the rowid that an `INSERT` gives to an `INTEGER PRIMARY KEY`.
pub mod Keyed
use Prim.Native.Nat.{max}
use personal_voice_msg.Prelude.{
  ℕ, suc, ◌+◌, ◌≡◌, refl, ◌≤◌, ◌<◌, Bool, true, false, ◌&&◌, Option, none, some, List, [], ◌∷◌,
  ◌++◌, arith, ◌==◌, if◌then◌else◌, Bool-cases, inl, inr,
}

module _ {ℓ} {A : Type ℓ} where
  -- `SELECT ... WHERE test ORDER BY id LIMIT 1`, or the one row that a unique key selects.
  unfoldable pub find : (A → Bool) → List A → Option A
  find test [] = none
  find test (r ∷ rows) = if test r then some r else find test rows

  -- `SELECT COUNT(*) ... WHERE test`
  unfoldable pub count : (A → Bool) → List A → ℕ
  count test [] = 0
  count test (r ∷ rows) = if test r then suc (count test rows) else count test rows

  -- `UPDATE ... SET change WHERE test`; its `rowcount` is `count test rows`.
  unfoldable pub update : (A → Bool) → (A → A) → List A → List A
  update test change [] = []
  update test change (r ∷ rows) = (if test r then change r else r) ∷ update test change rows

  -- The largest rowid, 0 in an empty table.
  unfoldable pub last_id : (A → ℕ) → List A → ℕ
  last_id id [] = 0
  last_id id (r ∷ rows) = max (id r) (last_id id rows)

  -- The rowid of the next insert.
  abbrev pub next_id : (A → ℕ) → List A → ℕ
  next_id id rows = suc (last_id id rows)

  abbrev pub or_else : Option A → Option A → Option A
  or_else (some a) b = some a
  or_else none b = b

  abbrev pub changed : (A → Bool) → (A → A) → Option A → Option A
  changed test change none = none
  changed test change (some r) = some (if test r then change r else r)

  -- A search by a test that the change does not touch finds the changed row.
  pub find-update :
      (p q : A → Bool) (change : A → A) (rows : List A)
      → ((r : A) → p (change r) ≡ p r)
      → find p (update q change rows) ≡ changed q change (find p rows)
  unfolding find update
  find-update p q change [] same = refl
  find-update p q change (r ∷ rows) same = ground (arith, same r, find-update p q change rows same)

  pub find-append :
      (p : A → Bool) (rows : List A) (r : A)
      → find p (rows ++ r ∷ []) ≡ or_else (find p rows) (if p r then some r else none)
  unfolding find
  find-append p [] r = refl
  find-append p (x ∷ rows) r = ground (arith, find-append p rows r)

  pub find-eq-some : (p : A → Bool) (rows : List A) (r : A) → find p rows ≡ some r → p r ≡ true
  unfolding find
  find-eq-some p [] r h = cc
  find-eq-some p (x ∷ rows) r h = elim (Bool-cases (p x)) [
    | inl e ↦ ground (arith, find-eq-some p rows r)
    | inr e ↦ ground (arith, find-eq-some p rows r)
  ]

  pub count-eq-zero : (p : A → Bool) (rows : List A) → find p rows ≡ none → count p rows ≡ 0
  unfolding find count
  count-eq-zero p [] h = refl
  count-eq-zero p (x ∷ rows) h = ground (arith, count-eq-zero p rows)

  pub count-append :
      (p : A → Bool) (rows : List A) (r : A)
      → count p (rows ++ r ∷ []) ≡ count p rows + (if p r then 1 else 0)
  unfolding count
  count-append p [] r = ground arith
  count-append p (x ∷ rows) r = ground (arith, count-append p rows r)

  -- No row has an id past the largest.
  pub find-past_last :
      (id : A → ℕ) (i : ℕ) (rows : List A) → last_id id rows < i → find (λ r. id r == i) rows ≡ none
  unfolding find last_id
  find-past_last id i [] h = refl
  find-past_last id i (x ∷ rows) h = ground (arith, find-past_last id i rows)

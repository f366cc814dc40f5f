-- ===== src/Rows/Keyed.antt =====
-- Tables whose rowids grow from row to row.
use personal_voice_msg.Prelude.{
  ℕ, ◌≡◌, refl, ◌<◌, Bool, true, ◌&&◌, ◌||◌, ==_iff, none, some, List, [], ◌∷◌, ◌++◌, arith, ◌==◌,
  Bool-cases, inl, inr,
}
use personal_voice_msg.Rows.{find, count, update, last_id}

module _ {ℓ} {A : Type ℓ} (id : A → ℕ) where
  abbrev pub AllAbove : ℕ → List A → Type 0
  AllAbove n [] = Unit
  AllAbove n (r ∷ rows) = (n < id r) × AllAbove n rows

  -- The ids grow strictly.
  abbrev pub IsKeyed : List A → Type 0
  IsKeyed [] = Unit
  IsKeyed (r ∷ rows) = AllAbove (id r) rows × IsKeyed rows

  AllAbove-append :
      (n : ℕ) (rows : List A) (r : A) → AllAbove n rows → n < id r → AllAbove n (rows ++ r ∷ [])
  AllAbove-append n [] r a h = (h, tt)
  AllAbove-append n (x ∷ rows) r a h = (a.0, AllAbove-append n rows r a.1 h)

  pub IsKeyed-append :
      (rows : List A) (r : A) → IsKeyed rows → last_id id rows < id r → IsKeyed (rows ++ r ∷ [])
  unfolding last_id
  IsKeyed-append [] r k h = (tt, tt)
  IsKeyed-append (x ∷ rows) r k h =
      (AllAbove-append (id x) rows r k.0 (omega arith), IsKeyed-append rows r k.1 (omega arith))

  AllAbove-update :
      (n : ℕ) (q : A → Bool) (change : A → A) (rows : List A)
      → ((r : A) → id (change r) ≡ id r)
      → AllAbove n rows
      → AllAbove n (update q change rows)
  unfolding update
  AllAbove-update n q change [] same a = tt
  AllAbove-update n q change (x ∷ rows) same a =
      (ground (arith, same x, a.0), AllAbove-update n q change rows same a.1)

  pub IsKeyed-update :
      (q : A → Bool) (change : A → A) (rows : List A)
      → ((r : A) → id (change r) ≡ id r)
      → IsKeyed rows
      → IsKeyed (update q change rows)
  unfolding update
  IsKeyed-update q change [] same k = tt
  IsKeyed-update q change (x ∷ rows) same k = elim (Bool-cases (q x)) [
    | inl e ↦ rw e (
      rw (same x) (AllAbove-update (id x) q change rows same k.0),
      IsKeyed-update q change rows same k.1,
    )
    | inr e ↦
        rw e (AllAbove-update (id x) q change rows same k.0, IsKeyed-update q change rows same k.1)
  ]

  count-above :
      (i : ℕ) (q : A → Bool) (rows : List A)
      → AllAbove i rows
      → count (λ r. id r == i && q r) rows ≡ 0
  unfolding count
  count-above i q [] a = refl
  count-above i q (x ∷ rows) a = ground (arith, a.0, count-above i q rows a.1)

  -- An update by id and a test that the found row passes changes exactly one row.
  pub count-eq-one :
      (i : ℕ) (q : A → Bool) (rows : List A) (r : A)
      → IsKeyed rows
      → find (λ x. id x == i) rows ≡ some r
      → q r ≡ true
      → count (λ x. id x == i && q x) rows ≡ 1
  unfolding find count
  count-eq-one i q [] r k f h = cc
  count-eq-one i q (x ∷ rows) r k f h =
      ground (arith, count-above i q rows, count-eq-one i q rows r k.1, k.0)

  find-above :
      (n : ℕ) (q : A → Bool) (rows : List A) (r : A)
      → AllAbove n rows
      → find q rows ≡ some r
      → n < id r
  unfolding find
  find-above n q [] r a f = absurd (cc f)
  find-above n q (x ∷ rows) r a f = elim (Bool-cases (q x)) [
    | inl e ↦ ground (arith, f, e, a.0)
    | inr e ↦ find-above n q rows r a.1 (ground (arith, f, e))
  ]

  -- A row that any test finds is found by its id.
  pub find-id :
      (q : A → Bool) (rows : List A) (r : A)
      → IsKeyed rows
      → find q rows ≡ some r
      → find (λ x. id x == id r) rows ≡ some r
  unfolding find
  find-id q [] r k f = absurd (cc f)
  find-id q (x ∷ rows) r k f = elim (Bool-cases (q x)) [
    | inl e ↦ let it : x ≡ r = ground (arith, f, e) in rw (it, (==_iff (id r) (id r)).1 refl) refl
    | inr e ↦
        let later : find q rows ≡ some r = ground (arith, f, e) in
        let apart : id x < id r = find-above (id x) q rows r k.0 later in
        ground (arith, find-id q rows r k.1 later, apart)
  ]

module _ {ℓ} {A : Type ℓ} where
  -- No row passes one of two tests that find nothing.
  pub count-or :
      (p q : A → Bool) (rows : List A)
      → find p rows ≡ none
      → find q rows ≡ none
      → count (λ r. p r || q r) rows ≡ 0
  unfolding find count
  count-or p q [] f g = refl
  count-or p q (x ∷ rows) f g = ground (arith, count-or p q rows)

-- ===== src/Database/Messages/Differs.antt =====
-- Two versions of the table of messages that differ in the rows of one id only.
use personal_voice_msg.Prelude.{
  ℕ, ◌≡◌, ◌≢◌, refl, ap, ◌≤◌, ◌<◌, Bool, false, some, List, [], ◌∷◌, ◌==◌, ==_iff, arith,
  Bool-cases, inl, inr,
}
use personal_voice_msg.Rows.{find, count, update}
use personal_voice_msg.Rows.Keyed.{AllAbove, IsKeyed}
use personal_voice_msg.Database.States.{MessageState, is_self}
use personal_voice_msg.Database.Schema.{Message, message_has_id}
use personal_voice_msg.Database.Messages.{message_in_state}

-- The rows of the id `i` are in the state `s` now, and all other rows are as before.
abbrev pub Differs : ℕ → MessageState → List Message → List Message → Type 0
Differs i s [] [] = Unit
Differs i s [] (y ∷ ys) = ⊥
Differs i s (x ∷ xs) [] = ⊥
Differs i s (x ∷ xs) (y ∷ ys) =
    ((x.id ≡ i) → (y.id ≡ i) × (y.state ≡ s)) × ((x.id ≢ i) → y ≡ x) × Differs i s xs ys

abbrev moved_message : MessageState → ℕ → Message → Message
moved_message target timestamp m = record m { state = target; updated_at = timestamp }

pub Differs-update :
    (i : ℕ) (current target : MessageState) (timestamp : ℕ) (xs ys : List Message)
    → Differs i current xs ys
    → Differs i target xs (update (message_in_state i current) (moved_message target timestamp) ys)
unfolding update
Differs-update i current target timestamp [] [] d = tt
Differs-update i current target timestamp [] (y ∷ ys) d = d
Differs-update i current target timestamp (x ∷ xs) [] d = d
Differs-update i current target timestamp (x ∷ xs) (y ∷ ys) (at, other, rest) = (
  λ e.
      let (same, state) = at e in
      rw (same, state, (==_iff i i).1 refl, is_self current) (refl, refl),
  λ e. let whole = other e in rw (whole, is_other e) refl,
  Differs-update i current target timestamp xs ys rest,
)
  where
    is_other : x.id ≢ i → (x.id == i) ≡ false
    is_other e = elim (Bool-cases (x.id == i)) [
      | inl h ↦ absurd (e ((==_iff x.id i).0 h))
      | inr h ↦ h
    ]

above-find :
    (P : Message → Bool) (n : ℕ) (xs : List Message) (m : Message)
    → AllAbove (λ m. m.id) n xs
    → find P xs ≡ some m
    → n < m.id
unfolding find
above-find P n [] m a f = cc
above-find P n (x ∷ xs) m a f = elim (Bool-cases (P x)) [
  | inl h ↦ ground (arith, h, a.0)
  | inr h ↦ ground (arith, h, above-find P n xs m a.1)
]

-- The first row that passes a test is the row of its id.
pub find_by_id :
    (P : Message → Bool) (xs : List Message) (m : Message)
    → IsKeyed (λ m. m.id) xs
    → find P xs ≡ some m
    → find (message_has_id m.id) xs ≡ some m
unfolding find
find_by_id P [] m k f = cc
find_by_id P (x ∷ xs) m k f = elim (Bool-cases (P x)) [
  | inl h ↦ ground (arith, h)
  | inr h ↦ ground (arith, h, above-find P x.id xs m k.0, find_by_id P xs m k.1)
]

unchanged_above :
    (i : ℕ) (s : MessageState) (xs : List Message) → AllAbove (λ m. m.id) i xs → Differs i s xs xs
unchanged_above i s [] a = tt
unchanged_above i s (x ∷ xs) a =
    (λ e. absurd (ground (arith, a.0, e)), λ e. refl, unchanged_above i s xs a.1)

-- A table whose ids grow differs from itself in no row of an id, at the state of that row.
pub Differs-refl :
    (i : ℕ) (xs : List Message) (m : Message)
    → IsKeyed (λ m. m.id) xs
    → find (message_has_id i) xs ≡ some m
    → Differs i m.state xs xs
unfolding find
Differs-refl i [] m k f = tt
Differs-refl i (x ∷ xs) m k f = elim (Bool-cases (x.id == i)) [
  | inl h ↦
      let its_id : x.id ≡ i = (==_iff x.id i).0 h in
      let whole : x ≡ m = ground (arith, h, f) in
      (
        λ e. (e, ap (λ (m : Message). m.state) whole),
        λ e. refl,
        unchanged_above i m.state xs (rw (← its_id) k.0),
      )
  | inr h ↦ (
    λ e. absurd (ground (arith, h, e)),
    λ e. refl,
    Differs-refl i xs m k.1 (ground (arith, h, f)),
  )
]

module _ (P Q : Message → Bool) (i : ℕ) (s : MessageState)
    (gone : (y : Message) → y.id ≡ i → y.state ≡ s → Q y ≡ false)
    (same : (x : Message) → x.id ≢ i → Q x ≡ P x) where
  is_not : (x : Message) → (x.id == i) ≡ false → x.id ≢ i
  is_not x h e = ground (arith, h, e)

  -- No more rows pass the test after the change than before.
  pub count-Differs-le : (xs ys : List Message) → Differs i s xs ys → count Q ys ≤ count P xs
  unfolding count
  count-Differs-le [] [] d = omega arith
  count-Differs-le [] (y ∷ ys) d = absurd d
  count-Differs-le (x ∷ xs) [] d = absurd d
  count-Differs-le (x ∷ xs) (y ∷ ys) (at, other, rest) =
      let le = count-Differs-le xs ys rest in
      elim (Bool-cases (x.id == i)) [
        | inl h ↦ let (e, f) = at ((==_iff x.id i).0 h) in rw (gone y e f) (ground (arith, le))
        | inr h ↦ rw (other (is_not x h), same x (is_not x h)) (ground (arith, le))
      ]

  -- Fewer rows pass if a row of the id did before.
  pub count-Differs-lt :
      (xs ys : List Message) (m : Message)
      → Differs i s xs ys
      → find P xs ≡ some m
      → m.id ≡ i
      → count Q ys < count P xs
  unfolding count find
  count-Differs-lt [] ys m d f e = cc
  count-Differs-lt (x ∷ xs) [] m d f e = absurd d
  count-Differs-lt (x ∷ xs) (y ∷ ys) m (at, other, rest) f e =
      let le = count-Differs-le xs ys rest in
      let lt = count-Differs-lt xs ys m rest in
      elim (Bool-cases (x.id == i)) [
        | inl h ↦
            let (its, now) = at ((==_iff x.id i).0 h) in
            rw (gone y its now) (elim (Bool-cases (P x)) [
              | inl p ↦ ground (arith, p, le)
              | inr p ↦ ground (arith, p, f, lt, e)
            ])
        | inr h ↦
            rw (other (is_not x h), same x (is_not x h))
              (elim (Bool-cases (P x)) [
                | inl p ↦ absurd (ground (arith, p, f, e, h))
                | inr p ↦ ground (arith, p, f, lt, e)
              ])
      ]

-- ===== src/Delivery/Budget.antt =====
-- How many notes a delivery may have had delivered, by its state.
use personal_voice_msg.Prelude.{
  ℕ, ◌≡◌, ◌+◌, ◌≤◌, Option, some, List, [], ◌∷◌, ◌++◌, ◌==◌, ==_iff, arith, Bool-cases, inl, inr,
  if◌then◌else◌,
}
use personal_voice_msg.Prelude.Text.{
  Text, same_text, same_text→eq, same_text_self, count_text, count_text-append,
}
use personal_voice_msg.Prelude.Decimal.{decimal-injective}
use personal_voice_msg.Database.States.{MessageState, sending, sent, delivery_unknown}
use personal_voice_msg.Database.Schema.{Delivery, Db}
use personal_voice_msg.Database.Deliveries.{Reservation}
use personal_voice_msg.Database.Deliveries.Effects.{Moves}
use personal_voice_msg.Database.Deliveries.Reserving.{Reserves}
use personal_voice_msg.Database.Views.{
  state_at, SetsState, state_at-after, state_at-reserves, state_at-unreserved,
}
use personal_voice_msg.World.{World}
use personal_voice_msg.World.Runs.{with_db}
use personal_voice_msg.Delivery.{delivery_key}

-- A note may be out once the delivery has entered `SENDING`, and not after a certain failure.
abbrev pub budget : Option MessageState → ℕ
budget (some sending) = 1
budget (some sent) = 1
budget (some delivery_unknown) = 1
budget _ = 0

-- How many notes of delivery `i` Telegram has delivered.
abbrev pub notes_of : ℕ → World → ℕ
notes_of i w = count_text (delivery_key i) w.outbox

pub record IsWithinBudget (w : World) : Type 0 where
  pub at : (i : ℕ) → notes_of i w ≤ budget (state_at i w.db)

delivery_key-injective : (i j : ℕ) → delivery_key i ≡ delivery_key j → i ≡ j
unfolding delivery_key
delivery_key-injective i j e = decimal-injective i j (cc)

pub budget_le_one : (o : Option MessageState) → budget o ≤ 1
budget_le_one o = ground arith

-- The same deliveries and the same notes: the same budget.
pub IsWithinBudget-same :
    {w t : World}
    → IsWithinBudget w
    → t.db.deliveries ≡ w.db.deliveries
    → t.outbox ≡ w.outbox
    → IsWithinBudget t
unfolding state_at
IsWithinBudget-same b d o = record { at = λ i. rw (d, o) (b.at i) }

module _ (w : World) {i : ℕ} {current target : MessageState} {timestamp : ℕ}
    {change : Delivery → Delivery} {t : Db} (k : Moves i current target timestamp change w.db t)
    (s : SetsState target change) where
  pub IsWithinBudget-moves :
      IsWithinBudget w → notes_of i w ≤ budget (some target) → IsWithinBudget (with_db w t)
  IsWithinBudget-moves b h = record {
    at = λ j. rw (state_at-after k s j) (elim (Bool-cases (i == j)) [
      | inl same ↦ rw same (rw ((==_iff i j).0 same) at h)
      | inr other ↦ rw other (b.at j)
    ]);
  }

pub IsWithinBudget-Reserves :
    (w : World) {key : Text} {date : ℕ} {r : Reservation} {t : Db}
    → Reserves key date r w.db t
    → IsWithinBudget w
    → IsWithinBudget (with_db w t)
IsWithinBudget-Reserves w {r = r} k b = record {
  at = λ j. rw (state_at-reserves k j) (elim (Bool-cases (r.delivery_id == j)) [
    | inl same ↦
        rw same (
          ground
            (arith, b.at r.delivery_id, state_at-unreserved k, (==_iff r.delivery_id j).0 same))
    | inr other ↦ rw other (b.at j)
  ]);
}

same_text-delivery_key : (i j : ℕ) → same_text (delivery_key j) (delivery_key i) ≡ (i == j)
same_text-delivery_key i j = elim (Bool-cases (i == j)) [
  | inl same ↦ rw same (rw ((==_iff i j).0 same) (same_text_self (delivery_key j)))
  | inr other ↦ rw other (elim (Bool-cases (same_text (delivery_key j) (delivery_key i))) [
    | inl e ↦
        ground
          (arith, delivery_key-injective j i (same_text→eq (delivery_key j) (delivery_key i) e))
    | inr e ↦ e
  ])
]

-- One more note of delivery `i`.
pub notes_of-append :
    (i j : ℕ) (outbox : List Text)
    → count_text (delivery_key j) (outbox ++ delivery_key i ∷ [])
      ≡ count_text (delivery_key j) outbox + (if i == j then 1 else 0)
notes_of-append i j outbox =
    rw (count_text-append (delivery_key j) outbox (delivery_key i ∷ []))
      (unfold count_text in rw (same_text-delivery_key i j))

-- ===== src/Database/Views.antt =====
-- The abstract view of the deliveries, the state of each id, and what the methods do to it.
use personal_voice_msg.Prelude.{
  ℕ, ◌≡◌, refl, ap, ◌∙◌, Option, none, some, List, ◌==◌, ==_iff, arith, if◌then◌else◌, Option-cases,
  Bool-cases, inl, inr,
}
use personal_voice_msg.Prelude.Text.{Text, Bytes}
use personal_voice_msg.Rows.{find, changed, find-update, find-eq-some, find-append, find-past_last}
use personal_voice_msg.Database.States.{MessageState, reserved, is_self}
use personal_voice_msg.Database.Schema.{Delivery, Db, delivery_has_id}
use personal_voice_msg.Database.Deliveries.{
  Reservation, delivery_in_state, moved, with_audio, concluded,
}
use personal_voice_msg.Database.Deliveries.Effects.{Moves}
use personal_voice_msg.Database.Deliveries.Reserving.{Reserves}

abbrev pub state_of : Option Delivery → Option MessageState
state_of none = none
state_of (some d) = some d.state

unfoldable pub state_at : ℕ → Db → Option MessageState
state_at i db = state_of (find (delivery_has_id i) db.deliveries)

pub state_at-same :
    (j : ℕ) (db t : Db) → t.deliveries ≡ db.deliveries → state_at j t ≡ state_at j db
unfolding state_at
state_at-same j db t e = rw e

-- A change of a delivery that keeps its id and sets its state.
pub record SetsState (target : MessageState) (change : Delivery → Delivery) : Type 0 where
  pub same_id : (d : Delivery) → (change d).id ≡ d.id
  pub sets : (d : Delivery) → (change d).state ≡ target

pub moved-SetsState :
    (target : MessageState) (timestamp : ℕ) → SetsState target (moved target timestamp)
moved-SetsState target timestamp = record { same_id = λ d. refl; sets = λ d. refl }

pub with_audio-SetsState :
    (b : Bytes) (timestamp : ℕ) → SetsState MessageState.audio_ready (with_audio b timestamp)
with_audio-SetsState b timestamp = record { same_id = λ d. refl; sets = λ d. refl }

pub concluded-SetsState :
    (outcome : MessageState) (id : Option Text) (timestamp : ℕ)
    → SetsState outcome (concluded outcome id timestamp)
unfolding concluded
concluded-SetsState outcome id timestamp = record {
  same_id = λ d. ground arith;
  sets = λ d. ground arith;
}

found_id :
    (i : ℕ) (rows : List Delivery) (d : Delivery)
    → find (delivery_has_id i) rows ≡ some d
    → d.id ≡ i
found_id i rows d e = (==_iff d.id i).0 (find-eq-some (delivery_has_id i) rows d e)

module _ {i : ℕ} {current target : MessageState} {timestamp : ℕ} {change : Delivery → Delivery}
    {db t : Db} (k : Moves i current target timestamp change db t) where
  -- Before the move the delivery is in the state that it leaves.
  pub state_at-before : state_at i db ≡ some current
  unfolding state_at
  state_at-before = rw (k.found) (ap some k.in_state)

  moved_row :
      SetsState target change
      → (j : ℕ) (o : Option Delivery) → find (delivery_has_id j) db.deliveries ≡ o
      → state_of (changed (delivery_in_state k.d.id k.d.state) change o)
        ≡ (if i == j then some target else state_of o)
  moved_row s j none e = elim (Bool-cases (i == j)) [
    | inl same ↦ cc (e, k.found, (==_iff i j).0 same)
    | inr other ↦ rw other
  ]
  moved_row s j (some x) e = elim (Bool-cases (i == j)) [
    | inl same ↦
        let whole : x ≡ k.d = cc (e, k.found, (==_iff i j).0 same) in
        rw same
          (rw whole (rw (is_self k.d.state, (==_iff k.d.id k.d.id).1 refl) (ap some (s.sets k.d))))
    | inr other ↦ ground (arith, found_id j db.deliveries x e, found_id i db.deliveries k.d k.found)
  ]

  -- After the move it is in the target state, and every other delivery is as before.
  pub state_at-after :
      SetsState target change
      → (j : ℕ) → state_at j t ≡ (if i == j then some target else state_at j db)
  unfolding state_at
  state_at-after s j =
      ap (λ (rows : List Delivery). state_of (find (delivery_has_id j) rows)) k.deliveries
      ∙ ap state_of (
          find-update (delivery_has_id j) (delivery_in_state k.d.id k.d.state) change db.deliveries
            (λ d. rw (s.same_id d)))
      ∙ moved_row s j (find (delivery_has_id j) db.deliveries) refl

-- A reservation adds one id, in `RESERVED`, which had no state before.
module _ {recipient_key : Text} {date : ℕ} {r : Reservation} {db t : Db}
    (k : Reserves recipient_key date r db t) where
  pub state_at-reserves :
      (j : ℕ) → state_at j t ≡ (if r.delivery_id == j then some reserved else state_at j db)
  unfolding state_at
  state_at-reserves j =
      ap (λ (rows : List Delivery). state_of (find (delivery_has_id j) rows)) k.deliveries
      ∙ ap state_of (find-append (delivery_has_id j) db.deliveries _)
      ∙ ground (
        arith,
        k.delivery_id,
        find-past_last (λ d. d.id) j db.deliveries,
        Option-cases (find (delivery_has_id j) db.deliveries),
      )

  pub state_at-unreserved : state_at r.delivery_id db ≡ none
  unfolding state_at
  state_at-unreserved =
      rw (find-past_last (λ d. d.id) r.delivery_id db.deliveries (omega (arith, k.delivery_id)))

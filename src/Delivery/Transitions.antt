-- ===== src/Delivery/Transitions.antt =====
-- The states of a delivery under the methods that src/personal_voice_msg/delivery.py calls.
use personal_voice_msg.Prelude.{
  ℕ, ◌≡◌, refl, true, Option, none, some, ◌==◌, arith, Bool-cases, inl, inr, ==_iff,
}
use personal_voice_msg.Prelude.Text.{Text, Bytes}
use personal_voice_msg.Exec.Ends.{Ends-weaken}
use personal_voice_msg.Exec.Keeps.{Keeps, Keeps-of_Ends}
use personal_voice_msg.Scheduling.{Datetime}
use personal_voice_msg.Database.States.{MessageState, reserved, audio_ready, sent, is, can_deliver}
use personal_voice_msg.Database.Schema.{Delivery, Db}
use personal_voice_msg.Database.Deliveries.{
  Reservation, reserve_next_message, transition_delivery, mark_audio_ready, record_delivery_attempt,
}
use personal_voice_msg.Database.Deliveries.Effects.{
  Moves, transition_delivery_lem, mark_audio_ready_lem, record_delivery_attempt_lem,
}
use personal_voice_msg.Database.Deliveries.Reserving.{Reserved, reserve_next_message_lem}
use personal_voice_msg.Database.Views.{
  state_at, state_at-same, state_at-before, state_at-after, SetsState, moved-SetsState,
  with_audio-SetsState, concluded-SetsState, state_at-reserves, state_at-unreserved,
}

-- The states that a delivery can come to, one permitted move after the other; a delivery that
-- does not exist can be created in `RESERVED`.
pub data Leads (a : Option MessageState) : Option MessageState → Type 0 where
  here : Leads a a
  created : Leads a none → Leads a (some reserved)
  moves : (s t : MessageState) → Leads a (some s) → can_deliver s t ≡ true → Leads a (some t)

pub sent_is_final : (o : Option MessageState) → Leads (some sent) o → o ≡ some sent
unfolding can_deliver
sent_is_final o here = refl
sent_is_final o (created l) = absurd (cc (sent_is_final none l))
sent_is_final o (moves s t l allowed) = ground (arith, sent_is_final (some s) l)

from_reserved : (s : MessageState) → is s reserved ≡ true → can_deliver s audio_ready ≡ true
unfolding can_deliver is
from_reserved s h = ground arith

module _ (a : Option MessageState) (j : ℕ) where
  abbrev pub Led : Db → Type 0
  Led db = Leads a (state_at j db)

  pub Led-same : (db t : Db) → t.deliveries ≡ db.deliveries → Led db → Led t
  Led-same db t e l = rw (state_at-same j db t e) l

  Led-at :
      (i : ℕ) (db : Db) (o : Option MessageState) → i ≡ j → state_at i db ≡ o → Led db → Leads a o
  Led-at i db o e h l = rw (← h, e) l

  Led-moved :
      {i : ℕ} {current target : MessageState} {timestamp : ℕ} {change : Delivery → Delivery}
      (db t : Db)
      → Moves i current target timestamp change db t
      → SetsState target change
      → can_deliver current target ≡ true
      → Led db
      → Led t
  Led-moved {i} {current} {target} db t k s allowed l =
      rw (state_at-after k s j) (elim (Bool-cases (i == j)) [
        | inl same ↦ rw same (
            moves current target
              (Led-at i db (some current) ((==_iff i j).0 same) (state_at-before k) l) allowed)
        | inr other ↦ rw other l
      ])

  Led-Reserved :
      (key : Text) (date : ℕ) (db t : Db) (o : Option Reservation)
      → Reserved key date db o t
      → Led db
      → Led t
  Led-Reserved key date db t none e l = rw e l
  Led-Reserved key date db t (some r) k l =
      rw (state_at-reserves k j) (elim (Bool-cases (r.delivery_id == j)) [
        | inl same ↦ rw same (
            created (
              Led-at r.delivery_id db none ((==_iff r.delivery_id j).0 same) (state_at-unreserved k)
                l))
        | inr other ↦ rw other l
      ])

  module _ (i : ℕ) (now : Datetime) where
    pub transition_delivery-Led :
        (target : MessageState) → Keeps Led (transition_delivery i target now)
    transition_delivery-Led target = Keeps-of_Ends _ λ db l.
        Ends-weaken _ db (transition_delivery_lem i now db target)
          (λ _ t _ (s, ts, allowed, k). Led-moved db t k (moved-SetsState target ts) allowed l)
          (λ e t _ same. rw same l)

    pub mark_audio_ready-Led :
        (audio_bytes : Bytes) → Keeps Led (mark_audio_ready i audio_bytes now)
    mark_audio_ready-Led audio_bytes = Keeps-of_Ends _ λ db l.
        Ends-weaken _ db (mark_audio_ready_lem i now db audio_bytes)
          (λ _ t _ (s, ts, allowed, k).
            Led-moved db t k (with_audio-SetsState audio_bytes ts) (from_reserved s allowed) l)
          (λ e t _ same. rw same l)

    pub record_delivery_attempt-Led :
        (outcome : MessageState) (id : Option Text)
        → Keeps Led (record_delivery_attempt i outcome now id)
    record_delivery_attempt-Led outcome id = Keeps-of_Ends _ λ db l.
        Ends-weaken _ db (record_delivery_attempt_lem i now db outcome id)
          (λ _ t _ (s, ts, allowed, k).
            Led-moved db t k (concluded-SetsState outcome id ts) allowed l)
          (λ e t _ same. rw same l)

  pub reserve_next_message-Led :
      (key : Text) (date : ℕ) (now : Datetime) → Keeps Led (reserve_next_message key date now)
  reserve_next_message-Led key date now = Keeps-of_Ends _ λ db l.
      Ends-weaken _ db (reserve_next_message_lem key date now db)
        (λ o t _ k. Led-Reserved key date db t o k l) (λ e t _ same. rw same l)

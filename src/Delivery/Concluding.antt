-- ===== src/Delivery/Concluding.antt =====
-- What `conclude` (src/personal_voice_msg/delivery.py) leaves of a delivery in `SENDING`.
use personal_voice_msg.Prelude.{ℕ, ◌≡◌, refl, true, not, Option, none, some, List}
use personal_voice_msg.Prelude.Text.{Text, Bytes}
use personal_voice_msg.Exec.{Result, ok, err, sender_rejected, sender_blocked, sender_ambiguous}
use personal_voice_msg.Exec.Ends.{
  Ends, Ends-then, Ends-bind, Ends-gets, Ends-if, Ends-modify, Ends-pure, Ends-outcome,
  Ends-transaction, Ends-weaken,
}
use personal_voice_msg.Scheduling.{aware}
use personal_voice_msg.Database.States.{
  MessageState, sending, sent, failed, delivery_unknown, blocked_by_user, can_deliver,
  is_attempt_outcome,
}
use personal_voice_msg.Database.Schema.{Db}
use personal_voice_msg.Database.RecipientKey.{timestamp_of}
use personal_voice_msg.Database.Deliveries.{record_delivery_attempt}
use personal_voice_msg.Database.Deliveries.Paired.{Paired, elsewhere}
use personal_voice_msg.Database.Deliveries.Moving.{record_delivery_attempt-Paired}
use personal_voice_msg.Database.Control.{enabled_of, disable_sending}
use personal_voice_msg.World.{World, on_db}
use personal_voice_msg.World.Runs.{Ends-on_db}
use personal_voice_msg.Delivery.{conclude}

-- The state in which `conclude` leaves a delivery, for the outcomes that it handles.
abbrev pub concluded_state : Result Text → Option MessageState
concluded_state (ok provider_message_id) = some sent
concluded_state (err sender_blocked) = some failed
concluded_state (err sender_rejected) = some failed
concluded_state (err sender_ambiguous) = some delivery_unknown
concluded_state (err _) = none

as_state : (a b : MessageState) → some a ≡ some b → a ≡ b
as_state a b e = cc e

-- The delivery `i` and its message stand in a state, whatever the nonces and the switch.
abbrev pub StandsAs : Text → ℕ → MessageState → Option Bytes → Db → Type 0
StandsAs text i s audio db = Paired text db.nonces db.control i s audio db

module _ (text : Text) (i : ℕ) (audio : Option Bytes) (outbox : List Text) where
  abbrev pub Finished : MessageState → MessageState → World → Type 0
  Finished s state w = (state ≡ s) × StandsAs text i s audio w.db × (w.outbox ≡ outbox)

  recorded :
      (s outcome : MessageState) (now : ℕ) (id : Option Text) (w : World)
      → can_deliver s outcome ≡ true
      → is_attempt_outcome outcome ≡ true
      → StandsAs text i s audio w.db
      → w.outbox ≡ outbox
      → Ends
          (on_db (record_delivery_attempt i outcome (aware now) id))
          w
          (λ _ t. StandsAs text i outcome audio t.db × (t.outbox ≡ outbox))
          (λ e t. ⊥)
  recorded s outcome now id w allowed listed p same = Ends-on_db _ w (
      Ends-weaken _ w.db
        (record_delivery_attempt-Paired text w.db.nonces w.db.control i s audio w.db p now outcome
          id allowed listed)
        (λ _ t _ q. (
          elsewhere text w.db.nonces w.db.control i outcome audio t q t refl refl _ refl _ refl,
          same,
        ))
        (λ e t _ never. never))

  disabled :
      (s : MessageState) (now : ℕ) (w : World)
      → StandsAs text i s audio w.db
      → w.outbox ≡ outbox
      → Ends
          (on_db (disable_sending blocked_by_user (aware now)))
          w
          (λ _ t. StandsAs text i s audio t.db × (t.outbox ≡ outbox))
          (λ e t. ⊥)
  unfolding disable_sending timestamp_of
  disabled s now w p same = Ends-on_db _ w (
      Ends-bind _ _ w.db (
        Ends-outcome (timestamp_of (aware now)) w.db (
          Ends-transaction _ w.db (
            Ends-bind _ _ w.db (
              Ends-gets _ w.db (
                Ends-if (not (enabled_of w.db.control)) _ _ w.db (λ _. Ends-pure _ w.db (p, same))
                  (λ _. Ends-modify _ w.db (
                    elsewhere text w.db.nonces w.db.control i s audio w.db p _ refl refl _ refl _
                        refl,
                    same,
                  ))))))))

  pub conclude_lem :
      (now : ℕ) (answer : Result Text) (s : MessageState) (w : World)
      → concluded_state answer ≡ some s
      → StandsAs text i sending audio w.db
      → w.outbox ≡ outbox
      → Ends (conclude i (aware now) answer) w (Finished s) (λ e t. ⊥)
  unfolding conclude can_deliver is_attempt_outcome
  conclude_lem now (ok id) s w e p same =
      Ends-then _ _ w (recorded sending sent now (some id) w refl refl p same)
        (λ _ t (q, kept). rw (← as_state sent s e) (Ends-pure _ t (refl, q, kept)))
        (λ e t never. never)
  conclude_lem now (err sender_blocked) s w e p same =
      Ends-then _ _ w (disabled sending now w p same)
        (λ _ t (q, kept).
          Ends-then _ _ t (recorded sending failed now none t refl refl q kept)
            (λ _ u (q', kept'). rw (← as_state failed s e) (Ends-pure _ u (refl, q', kept')))
            (λ e u never. never))
        (λ e t never. never)
  conclude_lem now (err sender_rejected) s w e p same =
      Ends-then _ _ w (recorded sending failed now none w refl refl p same)
        (λ _ t (q, kept). rw (← as_state failed s e) (Ends-pure _ t (refl, q, kept)))
        (λ e t never. never)
  conclude_lem now (err sender_ambiguous) s w e p same =
      Ends-then _ _ w (recorded sending delivery_unknown now none w refl refl p same)
        (λ _ t (q, kept). rw (← as_state delivery_unknown s e) (Ends-pure _ t (refl, q, kept)))
        (λ e t never. never)
  conclude_lem now (err _) s w e p same = absurd (cc e)

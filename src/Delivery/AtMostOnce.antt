-- ===== src/Delivery/AtMostOnce.antt =====
-- The send of src/personal_voice_msg/delivery.py and the budget of notes.
use personal_voice_msg.Prelude.{
  ℕ, ◌≡◌, refl, ◌≤◌, ◌⊎◌, inl, inr, true, false, Option, none, some, List, ◌==◌, ==_iff, Bool-cases,
  arith,
}
use personal_voice_msg.Prelude.Text.{Text, Bytes}
use personal_voice_msg.Exec.{Result, ok, err, sender_rejected, sender_blocked, sender_ambiguous}
use personal_voice_msg.Exec.Ends.{
  Ends, Ends-pure, Ends-raise, Ends-read, Ends-or_raise, Ends-bind, Ends-then, Ends-raise_if,
  Ends-weaken, Ends-attempt,
}
use personal_voice_msg.Exec.Keeps.{Ends_of_Keeps}
use personal_voice_msg.Scheduling.{Datetime}
use personal_voice_msg.Database.States.{
  MessageState, sending, sent, failed, delivery_unknown, blocked_by_user, can_deliver,
}
use personal_voice_msg.Database.Deliveries.{transition_delivery, record_delivery_attempt}
use personal_voice_msg.Database.Deliveries.Effects.{
  fetch_delivery_lem, transition_delivery_lem, record_delivery_attempt_lem,
}
use personal_voice_msg.Database.Control.Effects.{disable_sending-HasTables}
use personal_voice_msg.Database.Views.{
  state_at, state_at-same, state_at-before, state_at-after, moved-SetsState, concluded-SetsState,
}
use personal_voice_msg.World.{Platform, Settings, answered, Tick, World, on_db}
use personal_voice_msg.World.Runs.{Ends-on_db}
use personal_voice_msg.World.Quiet.{IsQuiet, IsQuiet-refl, on_db-IsQuiet}
use personal_voice_msg.Sender.{is_definite_rejection}
use personal_voice_msg.Sender.Effects.{Sends, judge_response-rejects, send_voice_note_lem}
use personal_voice_msg.Database.DeliveryReads.{get_audio_data}
use personal_voice_msg.Sender.{unix_seconds}
use personal_voice_msg.Delivery.{instant, delivery_key, conclude, send_ready}
use personal_voice_msg.Delivery.Budget.{
  budget, notes_of, IsWithinBudget, IsWithinBudget-same, IsWithinBudget-moves, notes_of-append,
}

-- Telegram's documented behaviour: a request that it refuses with a status of the allow-list has
-- delivered nothing.
pub record IsHonest (tick : Tick) : Type 0 where
  pub refused :
      (status : ℕ) (chunks : List Bytes)
      → tick.reply ≡ answered status chunks
      → is_definite_rejection status ≡ true
      → tick.delivered ≡ false

abbrev pub Safe : {A : Type 0} → A → World → Type 0
Safe _ t = IsWithinBudget t

-- A recorded outcome keeps the budget, where the outcome's own budget allows the notes so far.
pub record_outcome :
    (i : ℕ) (outcome : MessageState) (now : Datetime) (id : Option Text) (w : World)
    → IsWithinBudget w
    → notes_of i w ≤ budget (some outcome)
    → Ends (on_db (record_delivery_attempt i outcome now id)) w Safe Safe
record_outcome i outcome now id w b h = Ends-on_db _ w (
    Ends-weaken _ w.db (record_delivery_attempt_lem i now w.db outcome id)
      (λ _ t _ k. IsWithinBudget-moves w (k.3) (concluded-SetsState outcome id (k.1)) b h)
      (λ _ t _ e. rw e b))

-- Certain failures: nothing of the delivery may be out.
abbrev IsRejected : Result Text → Type 0
IsRejected r = (r ≡ err sender_rejected) ⊎ (r ≡ err sender_blocked)

conclude_lem :
    (i : ℕ) (now : Datetime) (r : Result Text) (w : World)
    → IsWithinBudget w
    → notes_of i w ≤ 1
    → (IsRejected r → notes_of i w ≡ 0)
    → Ends (conclude i now r) w Safe Safe
unfolding conclude
conclude_lem i now (ok id) w b one rejected =
    Ends-then _ _ w (record_outcome i sent now (some id) w b one) (λ _ t h. Ends-pure _ t h)
      (λ _ t h. h)
conclude_lem i now (err sender_ambiguous) w b one rejected =
    Ends-then _ _ w (record_outcome i delivery_unknown now none w b one) (λ _ t h. Ends-pure _ t h)
      (λ _ t h. h)
conclude_lem i now (err sender_rejected) w b one rejected =
    Ends-then _ _ w (record_outcome i failed now none w b (omega (arith, rejected (inl refl))))
      (λ _ t h. Ends-pure _ t h) (λ _ t h. h)
conclude_lem i now (err sender_blocked) w b one rejected =
    Ends-then _ _ w
      (Ends_of_Keeps (IsQuiet w) _ w
        (on_db-IsQuiet w _
          (disable_sending-HasTables w.db.deliveries w.db.messages blocked_by_user now))
        (IsQuiet-refl w))
      (λ _ t q.
        Ends-then _ _ t
          (record_outcome i failed now none t (IsWithinBudget-same b q.tables.deliveries q.outbox)
            (rw q.outbox (omega (arith, rejected (inr refl)))))
          (λ _ u h. Ends-pure _ u h) (λ _ u h. h))
      (λ _ t q. IsWithinBudget-same b q.tables.deliveries q.outbox)
conclude_lem i now (err _) w b one rejected = Ends-raise _ w b

-- Sending: `u` is the world after the delivery has entered `SENDING`, with no note out.
module _ (p : Platform) (i : ℕ) (tick : Tick) (honest : IsHonest tick) {u : World}
    (b : IsWithinBudget u) (unsent : notes_of i u ≡ 0) (in_flight : state_at i u.db ≡ some sending)
    {r : Result Text} {t : World} (s : Sends p (delivery_key i) tick u r t) where
  one_note : notes_of i t ≤ 1
  one_note = elim s.outbox [
    | inl same ↦ rw same (omega arith)
    | inr more ↦ rw (more.1) (ground (arith, notes_of-append i i u.outbox))
  ]

  after_send : IsWithinBudget t
  after_send = record {
    at = λ j. rw (state_at-same j u.db t.db s.tables.deliveries) (elim s.outbox [
      | inl same ↦ rw same (b.at j)
      | inr more ↦
          rw (more.1, notes_of-append i j u.outbox)
            (elim (Bool-cases (i == j)) [
              | inl e ↦ rw e (rw (← (==_iff i j).0 e) (rw in_flight (omega arith)))
              | inr e ↦ rw e (omega (arith, b.at j))
            ])
    ]);
  }

  refused_unsent : IsRejected r → notes_of i t ≡ 0
  refused_unsent h = elim s.outbox [
    | inl same ↦ rw same unsent
    | inr more ↦
        let (status, chunks, e, definite) = judge_response-rejects p tick.reply (rw (more.2) h) in
        cc (more.0, honest.refused status chunks e definite)
  ]

ready_of : (s : MessageState) → can_deliver s sending ≡ true → budget (some s) ≡ 0
unfolding can_deliver
ready_of s h = ground arith

-- A delivery in `SENDING` with no note out.
record IsInFlight (i : ℕ) (u : World) : Type 0 where
  within : IsWithinBudget u
  unsent : notes_of i u ≡ 0
  in_flight : state_at i u.db ≡ some sending

enter_sending :
    (i : ℕ) (now : Datetime) (w : World)
    → IsWithinBudget w
    → Ends (on_db (transition_delivery i sending now)) w (λ _ u. IsInFlight i u) Safe
enter_sending i now w b = Ends-on_db _ w (
    Ends-weaken _ w.db (transition_delivery_lem i now w.db sending)
      (λ _ t _ k.
        let zero_notes : notes_of i w ≡ 0 =
          ground (arith, b.at i, state_at-before (k.3), ready_of (k.0) (k.2)) in
        record {
          within = IsWithinBudget-moves w (k.3) (moved-SetsState sending (k.1)) b (omega arith);
          unsent = zero_notes;
          in_flight =
              rw (state_at-after (k.3) (moved-SetsState sending (k.1)) i)
                (rw ((==_iff i i).1 refl));
        })
      (λ _ t _ e. rw e b))

-- Reading the stored audio changes nothing.
read_audio : (i : ℕ) (w : World) → Ends (on_db (get_audio_data i)) w (λ _ t. t ≡ w) (λ _ t. t ≡ w)
unfolding get_audio_data
read_audio i w = Ends-on_db _ w (
    Ends-read _ _ w.db (fetch_delivery_lem i w.db)
      (λ d _. Ends-or_raise _ _ w.db (λ _ _. refl) (λ _. refl)) (λ _. refl))

module _ (p : Platform) (settings : Settings) (recipient_key : Text) (tick : Tick)
    (honest : IsHonest tick) where
  finish :
      (i : ℕ) (now : Datetime) (r : Result Text) (u v : World)
      → IsInFlight i u
      → Sends p (delivery_key i) tick u r v
      → Ends (conclude i now r) v Safe Safe
  finish i now r u v k s =
      conclude_lem i now r v (after_send p i tick honest (k.within) (k.unsent) (k.in_flight) s)
        (one_note p i tick honest (k.within) (k.unsent) (k.in_flight) s)
        (refused_unsent p i tick honest (k.within) (k.unsent) (k.in_flight) s)

  -- A delivery that is sent had no note out: the move to `SENDING` is allowed only from
  -- `AUDIO_READY`.
  pub send_ready_lem :
      (i : ℕ) (w : World)
      → IsWithinBudget w
      → Ends (send_ready p settings recipient_key tick i) w Safe Safe
  unfolding send_ready
  send_ready_lem i w b = Ends-bind _ _ w (
      Ends-raise_if _ _ w
        (λ _.
          Ends-then _ _ w (read_audio i w)
            (λ audio t e.
              Ends-then _ _ t (enter_sending i tick.now t (rw e b))
                (λ _ u k. Ends-bind _ _ u (
                  Ends-attempt _ u (
                    Ends-weaken _ u
                      (send_voice_note_lem p settings audio (delivery_key i)
                        (unix_seconds (instant tick.now)) _ (instant tick.now) tick u)
                      (λ id v _ s. finish i tick.now (ok id) u v k s)
                      (λ x v _ s. finish i tick.now (err x) u v k s))))
                (λ _ u h. h))
            (λ _ t e. rw e b))
        (λ _. b))

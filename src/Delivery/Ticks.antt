-- ===== src/Delivery/Ticks.antt =====
-- The branches of `run_daily_send` (src/personal_voice_msg/delivery.py) and the budget of notes.
use personal_voice_msg.Prelude.{ℕ, ◌≡◌, refl, ap, sym, Bool, not, Option, none, some, ==_iff, arith}
use personal_voice_msg.Prelude.Text.{Text}
use personal_voice_msg.Exec.Ends.{
  Ends, Ends-pure, Ends-read, Ends-or_raise, Ends-bind, Ends-then, Ends-if, Ends-raise_if,
  Ends-lift, Ends-gets, Ends-weaken,
}
use personal_voice_msg.Scheduling.{Zone, Datetime}
use personal_voice_msg.Database.States.{
  MessageState, reserved, audio_ready, sending, failed, delivery_unknown, is, is→eq,
}
use personal_voice_msg.Database.Schema.{Db}
use personal_voice_msg.Database.Messages.{get_message_text}
use personal_voice_msg.Database.Deliveries.{Reservation, reserve_next_message}
use personal_voice_msg.Database.Deliveries.Effects.{
  fetch_delivery_lem, fetch_message_lem, transition_delivery_lem, mark_audio_ready_lem,
}
use personal_voice_msg.Database.Deliveries.Reserving.{Reserved, reserve_next_message_lem}
use personal_voice_msg.Database.DeliveryReads.{
  get_delivery_state, get_delivery_message_id, get_delivery_updated_at, get_delivery_for_date,
}
use personal_voice_msg.Database.Control.{is_sending_enabled, enabled_of}
use personal_voice_msg.Database.Views.{
  state_at, state_at-before, state_at-reserves, moved-SetsState, with_audio-SetsState,
}
use personal_voice_msg.World.{Platform, Settings, Tick, World, on_db}
use personal_voice_msg.World.Runs.{with_db, Ends-on_db}
use personal_voice_msg.Delivery.{
  Located, retry_failed, produce_voice_note, produce_reserved, advance, give_up_sending,
  resume_delivery, existing_delivery, locate, send_window_open, run_daily_send,
}
use personal_voice_msg.Delivery.Budget.{
  budget_le_one, IsWithinBudget, IsWithinBudget-moves, IsWithinBudget-Reserves,
}
use personal_voice_msg.Delivery.AtMostOnce.{IsHonest, Safe, record_outcome, send_ready_lem}

-- What is known of a delivery that was found: its state is the one in the table.
abbrev pub IsFound : Option Located → Db → Type 0
IsFound none db = Unit
IsFound (some f) db = state_at f.delivery_id db ≡ some f.state

existing_delivery_lem :
    (o : Option ℕ) (db : Db)
    → Ends (existing_delivery o) db (λ f t. (t ≡ db) × IsFound f db) (λ _ t. t ≡ db)
unfolding existing_delivery get_delivery_message_id get_delivery_state state_at
existing_delivery_lem none db = Ends-pure _ db (refl, tt)
existing_delivery_lem (some i) db = Ends-bind _ _ db (
    Ends-read _ _ db (fetch_delivery_lem i db)
      (λ d _. Ends-pure _ db (
        Ends-bind _ _ db (
          Ends-read _ _ db (fetch_delivery_lem i db)
            (λ d e. Ends-pure _ db (Ends-pure _ db (refl, rw e))) (λ _. refl))))
      (λ _. refl))

abbrev IsReserved : Option Reservation → Db → Type 0
IsReserved none db = Unit
IsReserved (some r) db = state_at r.delivery_id db ≡ some r.state

pub locate_lem :
    (key : Text) (date : ℕ) (o : Option Reservation) (db : Db)
    → IsReserved o db
    → Ends (locate key date o) db (λ f t. (t ≡ db) × IsFound f db) (λ _ t. t ≡ db)
unfolding locate get_delivery_for_date
locate_lem key date none db h = Ends-bind _ _ db (Ends-gets _ db (existing_delivery_lem _ db))
locate_lem key date (some r) db h = Ends-pure _ db (refl, h)

Reserved-IsReserved :
    (key : Text) (date : ℕ) (o : Option Reservation) (db t : Db)
    → Reserved key date db o t
    → IsReserved o t
Reserved-IsReserved key date none db t h = tt
Reserved-IsReserved key date (some r) db t h =
    rw (state_at-reserves h r.delivery_id)
      (rw ((==_iff r.delivery_id r.delivery_id).1 refl) (ap some (sym h.in_state)))

-- The delivery's recorded entry into `SENDING` becomes an ambiguous attempt.
give_up_sending_lem : (i : ℕ) (w : World) → IsWithinBudget w → Ends (give_up_sending i) w Safe Safe
unfolding give_up_sending get_delivery_updated_at
give_up_sending_lem i w b =
    Ends-then _ _ w
      (Ends-on_db _ w
        (Ends-read _ _ w.db (fetch_delivery_lem i w.db) (λ d _. Ends-pure _ w.db b) (λ _. b)))
      (λ started t h.
        Ends-then _ _ t
          (record_outcome i delivery_unknown _ none t h
            (omega (arith, h.at i, budget_le_one (state_at i t.db))))
          (λ _ u k. Ends-pure _ u k) (λ _ u k. k))
      (λ _ t h. h)

module _ (p : Platform) (settings : Settings) (recipient_key : Text) (tick : Tick)
    (honest : IsHonest tick) where
  retry_failed_lem :
      (i : ℕ) (s : MessageState) (w : World)
      → IsWithinBudget w
      → state_at i w.db ≡ some s
      → Ends (retry_failed p settings recipient_key tick i s) w Safe Safe
  unfolding retry_failed
  retry_failed_lem i s w b e =
      Ends-if (is s failed) _ _ w
        (λ f.
          Ends-then _ _ w
            (Ends-on_db _ w (
              Ends-weaken _ w.db (transition_delivery_lem i tick.now w.db audio_ready)
                (λ _ t _ k.
                  IsWithinBudget-moves w (k.3) (moved-SetsState audio_ready (k.1)) b
                    (rw (e, is→eq s failed f) at (b.at i)))
                (λ _ t _ x. rw x b)))
            (λ _ t h. Ends-pure _ t h) (λ _ t h. h))
        (λ _. Ends-pure _ w b)

  produce_voice_note_lem :
      (i : ℕ) (text : Text) (w : World)
      → IsWithinBudget w
      → Ends (produce_voice_note tick i text) w Safe Safe
  unfolding produce_voice_note
  produce_voice_note_lem i text w b = Ends-bind _ _ w (
      Ends-lift _ w
        (λ audio _.
          Ends-then _ _ w
            (Ends-on_db _ w (
              Ends-weaken _ w.db (mark_audio_ready_lem i tick.now w.db audio)
                (λ _ t _ k.
                  IsWithinBudget-moves w (k.3) (with_audio-SetsState audio (k.1)) b
                    (rw (state_at-before (k.3), is→eq (k.0) reserved (k.2)) at (b.at i)))
                (λ _ t _ x. rw x b)))
            (λ _ t h. Ends-pure _ t h) (λ _ t h. h))
        (λ _ _. b))

  produce_reserved_lem :
      (i m : ℕ) (s : MessageState) (w : World)
      → IsWithinBudget w
      → Ends (produce_reserved p settings recipient_key tick i m s) w Safe Safe
  unfolding produce_reserved get_message_text
  produce_reserved_lem i m s w b =
      Ends-if (is s reserved) _ _ w
        (λ _.
          Ends-then _ _ w
            (Ends-on_db _ w
              (Ends-read _ _ w.db (fetch_message_lem m w.db) (λ x _. Ends-pure _ w.db b) (λ _. b)))
            (λ text t h.
              Ends-then _ _ t (produce_voice_note_lem i text t h) (λ _ u k. Ends-pure _ u k)
                (λ _ u k. k))
            (λ _ t h. h))
        (λ _. Ends-pure _ w b)

  advance_lem :
      (f : Located) (w : World)
      → IsWithinBudget w
      → state_at f.delivery_id w.db ≡ some f.state
      → Ends (advance p settings recipient_key tick f) w Safe Safe
  unfolding advance
  advance_lem f w b e =
      Ends-then _ _ w (retry_failed_lem f.delivery_id f.state w b e)
        (λ s t h.
          Ends-if (is s delivery_unknown) _ _ t (λ _. Ends-pure _ t h)
            (λ _.
              Ends-then _ _ t (produce_reserved_lem f.delivery_id f.message_id s t h)
                (λ r u k.
                  Ends-if (is r audio_ready) _ _ u
                    (λ _. send_ready_lem p settings recipient_key tick honest f.delivery_id u k)
                    (λ _. Ends-pure _ u k))
                (λ _ u k. k)))
        (λ _ t h. h)

  resume_delivery_lem :
      (enabled : Bool) (o : Option Located) (w : World)
      → IsWithinBudget w
      → IsFound o w.db
      → Ends (resume_delivery p settings recipient_key tick enabled o) w Safe Safe
  unfolding resume_delivery
  resume_delivery_lem enabled none w b e = Ends-pure _ w b
  resume_delivery_lem enabled (some f) w b e =
      Ends-if (is f.state sending) _ _ w (λ _. give_up_sending_lem f.delivery_id w b)
        (λ _. Ends-if (not enabled) _ _ w (λ _. Ends-pure _ w b) (λ _. advance_lem f w b e))

-- Whether the window is open is read off the clock.
pub send_window_open_lem :
    (z : Zone) (date : ℕ) (now : Datetime) (w : World)
    → Ends (send_window_open z date now) w (λ _ t. t ≡ w) (λ _ t. t ≡ w)
unfolding send_window_open
send_window_open_lem z date now w = Ends-bind _ _ w (
    Ends-or_raise _ _ w
      (λ trigger _. Ends-bind _ _ w (Ends-lift _ w (λ s _. Ends-pure _ w refl) (λ _ _. refl)))
      (λ _. refl))

-- What is known of a reservation that was tried, or not, before the delivery is looked for.
record IsReady (o : Option Reservation) (t : World) : Type 0 where
  within : IsWithinBudget t
  reserved : IsReserved o t.db

reserving_lem :
    (key : Text) (date : ℕ) (now : Datetime) (w : World)
    → IsWithinBudget w
    → Ends (on_db (reserve_next_message key date now)) w IsReady Safe
reserving_lem key date now w b = Ends-on_db _ w (
    Ends-weaken _ w.db (reserve_next_message_lem key date now w.db)
      (λ o t _ k. record {
        within = within_budget o t k;
        reserved = Reserved-IsReserved key date o w.db t k;
      })
      (λ _ t _ x. rw x b))
  where
    within_budget :
        (o : Option Reservation) (t : Db)
        → Reserved key date w.db o t
        → IsWithinBudget (with_db w t)
    within_budget none t k = rw k b
    within_budget (some r) t k = IsWithinBudget-Reserves w k b

module _ (z : Zone) (p : Platform) (settings : Settings) (recipient_key : Text) (date : ℕ)
    (tick : Tick) (honest : IsHonest tick) where
  pub run_daily_send_lem :
      (w : World)
      → IsWithinBudget w
      → Ends (run_daily_send z p settings recipient_key date tick) w Safe Safe
  unfolding run_daily_send is_sending_enabled
  run_daily_send_lem w b =
      Ends-then _ _ w (send_window_open_lem z date tick.now w)
        (λ _ t e. Ends-bind _ _ t (
          Ends-raise_if _ _ t
            (λ _. Ends-bind _ _ t (
              Ends-on_db _ t (
                Ends-gets _ t.db (
                  Ends-then _ _ t
                    (Ends-if (enabled_of t.db.control) _ _ t
                      (λ _. reserving_lem recipient_key date tick.now t (rw e b))
                      (λ _. Ends-pure _ t (record { within = rw e b; reserved = tt })))
                    (λ o u k.
                      Ends-then _ _ u (located o u k)
                        (λ f v h.
                          resume_delivery_lem p settings recipient_key tick honest _ f v (h.0)
                            (h.1))
                        (λ _ v h. h))
                    (λ _ u h. h)))))
            (λ _. rw e b)))
        (λ _ t e. rw e b)
    where
      located :
          (o : Option Reservation) (u : World)
          → IsReady o u
          → Ends
              (on_db (locate recipient_key date o))
              u
              (λ f v. IsWithinBudget v × IsFound f v.db)
              Safe
      located o u k = Ends-on_db _ u (
          Ends-weaken _ u.db (locate_lem recipient_key date o u.db (k.reserved))
            (λ f t _ h. rw (h.0) (k.within, h.1)) (λ _ t _ h. rw h (k.within)))

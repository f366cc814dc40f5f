-- ===== src/Delivery/Finishing.antt =====
-- A run of `run_daily_send` (src/personal_voice_msg/delivery.py) in which every part works.
use personal_voice_msg.Prelude.{
  ℕ, ◌≡◌, refl, ◌≤◌, ◌<◌, ◌+◌, true, Option, none, some, List, [], ◌∷◌, ◌++◌, if◌then◌else◌,
}
use personal_voice_msg.Prelude.Text.{Text, Bytes}
use personal_voice_msg.Exec.{ok}
use personal_voice_msg.Exec.Ends.{
  Ends, Ends-bind, Ends-gets, Ends-pure, Ends-raise_if, Ends-outcome, Ends-or_raise, Ends-weaken,
}
use personal_voice_msg.Scheduling.{
  Zone, aware, daily_send, wall_time, trigger_window, due, ScheduledTrigger,
}
use personal_voice_msg.Scheduling.Windows.{first_send, due_iff}
use personal_voice_msg.Database.States.{MessageState, reserved, audio_ready, is}
use personal_voice_msg.Database.Schema.{Message, Nonce, Control}
use personal_voice_msg.Database.Messages.{fetch_message, get_message_text}
use personal_voice_msg.Database.Deliveries.Paired.{Paired}
use personal_voice_msg.Database.Deliveries.Moving.{mark_audio_ready-Paired}
use personal_voice_msg.Database.Deliveries.Reserving.{next_delivery_id}
use personal_voice_msg.Database.Deliveries.Fresh.{
  IsReservable, reserved_db, reserved-Paired, message-reserved-Paired, reserve_next_message-returns,
}
use personal_voice_msg.Database.Control.{enabled_of, is_sending_enabled}
use personal_voice_msg.World.{Platform, Settings, Tick, World}
use personal_voice_msg.World.Runs.{with_db, Ends-on_db}
use personal_voice_msg.Delivery.{
  delivery_key, retry_failed, produce_voice_note, produce_reserved, advance, resume_delivery,
  locate, send_window_open, run_daily_send,
}
use personal_voice_msg.Delivery.Concluding.{Finished}
use personal_voice_msg.Delivery.Asking.{Sendable, send_ready_lem}

module _ (p : Platform) (settings : Settings) (tick : Tick) (now : ℕ) (text : Text) (i : ℕ)
    (audio_bytes : Bytes) (nonces : List Nonce) (control : Option Control) where
  produced :
      (message_id : ℕ) (key : Text) (w : World)
      → tick.now ≡ aware now
      → tick.synthesis text ≡ ok audio_bytes
      → (q : Paired text nonces control i reserved none w.db) → q.d.message_id ≡ message_id
      → Ends
          (produce_reserved p settings key tick i message_id reserved)
          w
          (λ s t.
            (s ≡ audio_ready)
            × (t.outbox ≡ w.outbox)
            × Paired text nonces control i audio_ready (some audio_bytes) t.db)
          (λ e t. ⊥)
  unfolding produce_reserved produce_voice_note get_message_text fetch_message is
  produced message_id key w on_time spoken q named = rw on_time (
      Ends-bind _ _ w (
        Ends-on_db _ w (
          Ends-bind _ _ w.db (
            Ends-bind _ _ w.db (
              Ends-gets _ w.db (
                Ends-or_raise _ _ w.db
                  (λ m e.
                    let it : m ≡ q.m = cc (e, q.message_found, named) in
                    let its_text : m.text ≡ text = rw it (q.text_is) in
                    Ends-pure _ w.db (
                      Ends-bind _ _ w (
                        Ends-bind _ _ w (
                          rw (its_text, spoken)
                            (Ends-outcome (ok audio_bytes) w (
                              Ends-bind _ _ w (
                                Ends-on_db _ w (
                                  Ends-weaken _ w.db
                                    (mark_audio_ready-Paired text nonces control i reserved none
                                      w.db q now audio_bytes refl)
                                    (λ _ t _ r. Ends-pure _ _ (Ends-pure _ _ (refl, refl, r)))
                                    (λ x t _ never. never)))))))))
                  (λ e. absurd (cc (e, q.message_found, named)))))))))

  advanced :
      (message_id : ℕ) (key : Text) (s : MessageState) (w : World)
      → tick.synthesis text ≡ ok audio_bytes
      → Sendable p settings tick now text i audio_bytes nonces control key s
      → (q : Paired text nonces control i reserved none w.db) → q.d.message_id ≡ message_id
      → Ends
          (advance p settings key tick
            (record { delivery_id = i; message_id = message_id; state = reserved }))
          w
          (Finished text i
            (some audio_bytes)
            (if tick.delivered then w.outbox ++ delivery_key i ∷ [] else w.outbox)
            s)
          (λ e t. ⊥)
  unfolding advance retry_failed is
  advanced message_id key s w spoken h q named = Ends-bind _ _ w (
      Ends-pure reserved w (
        Ends-bind _ _ w (
          Ends-weaken _ w (produced message_id key w (h.on_time) spoken q named)
            (λ r t _ (ready, kept, after).
              rw (ready, ← kept)
                (send_ready_lem p settings tick now text i audio_bytes nonces control key s t h
                  after))
            (λ x t _ never. never))))

in_window :
    (z : Zone) (date now : ℕ) (w : World)
    → z.instant_of date (wall_time daily_send) ≤ now
    → now < z.instant_of date (wall_time daily_send) + trigger_window daily_send
    → Ends (send_window_open z date (aware now)) w (λ b t. (b ≡ true) × (t ≡ w)) (λ e t. ⊥)
unfolding send_window_open
in_window z date now w opened before =
    let is_now = (due_iff z date daily_send now).1 (opened, before) in
    rw (first_send z date) (
      Ends-bind _ _ w (
        Ends-or_raise _ _ w
          (λ trigger e.
            rw (← as_trigger _ trigger e) (
              Ends-bind _ _ w
                (rw is_now (Ends-outcome (ok due) w (Ends-pure true w (refl, refl))))))
          (λ e. absurd (cc e))))
  where
    as_trigger : (a b : ScheduledTrigger) → some a ≡ some b → a ≡ b
    as_trigger a b e = cc e

module _ (z : Zone) (p : Platform) (settings : Settings) (key : Text) (date : ℕ) (tick : Tick)
    (now : ℕ) (m : Message) (audio_bytes : Bytes) (w : World) where
  -- The delivery that the run reserves.
  abbrev pub new_id : ℕ
  new_id = next_delivery_id w.db

  -- Inside the send window, with sending enabled and tables whose ids grow, a run for the
  -- configured recipient, whose key is well formed, and a date without a delivery, where the oldest
  -- queued message has no delivery and can be spoken, the audio passes the check, the nonce is new
  -- and Telegram answers with a success, a rejection or something unclear, returns the state of
  -- that answer: the new delivery and its message stand in that state with the audio, and the
  -- outbox has gained what Telegram delivered of this one request.
  pub run_daily_send-finishes :
      (s : MessageState)
      → z.instant_of date (wall_time daily_send) ≤ now
      → now < z.instant_of date (wall_time daily_send) + trigger_window daily_send
      → enabled_of w.db.control ≡ true
      → IsReservable key date m w.db
      → tick.synthesis m.text ≡ ok audio_bytes
      → Sendable p settings tick now m.text new_id audio_bytes w.db.nonces w.db.control key s
      → Ends
          (run_daily_send z p settings key date tick)
          w
          (Finished m.text new_id
            (some audio_bytes)
            (if tick.delivered then w.outbox ++ delivery_key new_id ∷ [] else w.outbox)
            s)
          (λ e t. ⊥)
  unfolding run_daily_send is_sending_enabled locate resume_delivery is
  run_daily_send-finishes s opened before enabled ready spoken h = rw (h.on_time) (
      Ends-bind _ _ w (
        Ends-weaken _ w (in_window z date now w opened before)
          (λ b t _ (open_now, same).
            rw (open_now, same)
              (Ends-bind _ _ w (
                Ends-raise_if _ _ w
                  (λ _. Ends-bind _ _ w (
                    Ends-on_db _ w (
                      Ends-gets _ w.db (
                        rw enabled (
                          Ends-bind _ _ w (
                            Ends-on_db _ w (
                              Ends-weaken _ w.db
                                (reserve_next_message-returns key date m w.db now ready)
                                (λ o u _ (got, after).
                                  rw (got, after)
                                    (Ends-bind _ _ _ (
                                      Ends-on_db _ _ (
                                        Ends-pure _ _ (
                                          advanced p settings (record tick { now = aware now }) now
                                            m.text new_id audio_bytes w.db.nonces w.db.control m.id
                                            key s
                                            (with_db w (reserved_db key date m w.db now ready))
                                            spoken
                                            (record {
                                              on_time = refl;
                                              own = h.own;
                                              checked = h.checked;
                                              unused = h.unused;
                                              answer = h.answer;
                                            })
                                            (reserved-Paired key date m w.db now ready)
                                            (message-reserved-Paired key date m w.db now ready))))))
                                (λ e u _ never. never))))))))
                  (λ bad. absurd (cc (bad))))))
          (λ e t _ never. never)))

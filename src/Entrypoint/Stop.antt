-- ===== src/Entrypoint/Stop.antt =====
-- The processes of scripts/run_daily_entrypoint.py and the sending switch.
use personal_voice_msg.Prelude.{
  ℕ, ◌≡◌, ◌⊎◌, inl, inr, refl, Bool, true, false, not, some, List, [], ◌∷◌,
}
use personal_voice_msg.Prelude.Text.{Text}
use personal_voice_msg.Exec.{Result, ok, err, poll_error, pure, ◌>>=◌}
use personal_voice_msg.Exec.Ends.{
  Ends, Outcome, Ends-pure, Ends-raise, Ends-bind, Ends-then, Ends-if, Ends-weaken, Ends-attempt,
  Ends-lift, Ends-or_raise,
}
use personal_voice_msg.Exec.Keeps.{Ends_of_Keeps}
use personal_voice_msg.Scheduling.{
  Zone, aware, daily_send, due, classify_trigger, scheduled_trigger,
}
use personal_voice_msg.Database.RecipientKey.{recipient_key_for_chat_id}
use personal_voice_msg.Database.Control.{enabled_of}
use personal_voice_msg.World.{Platform, Settings, Tick, World}
use personal_voice_msg.Consent.{poll_inbound_stop}
use personal_voice_msg.Scheduling.Windows.{first_send}
use personal_voice_msg.Delivery.{instant, send_window_open, run_daily_send}
use personal_voice_msg.Delivery.Ticks.{send_window_open_lem}
use personal_voice_msg.Delivery.KillSwitch.{IsStopped, Halted, run_daily_send-IsStopped}
use personal_voice_msg.Entrypoint.{
  pass_poll_error, run_daily_entrypoint, run_process, run_processes,
}
use personal_voice_msg.Consent.Stopping.{ReadsStop, poll_inbound_stop-IsStopped, poll_stops}

pass_poll_error-IsStopped :
    (w u : World) (r : Result Bool)
    → IsStopped w u
    → Ends (pass_poll_error r) u (Halted w) (Halted w)
unfolding pass_poll_error
pass_poll_error-IsStopped w u (ok stopped) h = Ends-pure _ u h
pass_poll_error-IsStopped w u (err poll_error) h = Ends-pure _ u h
pass_poll_error-IsStopped w u (err _) h = Ends-raise _ u h

halted :
    {A : Type 0} (w : World) (r : Result A) (t : World)
    → Outcome (Halted w) (Halted w) r t
    → IsStopped w t
halted w (ok a) t h = h
halted w (err e) t h = h

module _ (z : Zone) (p : Platform) (settings : Settings) (key : Text) (date : ℕ) (tick : Tick)
    (w t : World) where
  -- Once the poll has left sending disabled, the rest of the process sends nothing.
  entrypoint-IsStopped :
      Ends
        (send_window_open z date tick.now)
        t
        (λ b u. (u ≡ t) × ((b ≡ true) ⊎ IsStopped w t))
        (λ _ u. IsStopped w u)
      → Ends (poll_inbound_stop p settings tick) t (Halted w) (Halted w)
      → Ends (run_daily_entrypoint z p settings key date tick) t (Halted w) (Halted w)
  unfolding run_daily_entrypoint
  entrypoint-IsStopped opens stops =
      Ends-then _ _ t opens
        (λ b u e. rw (e.0) (
          Ends-if (not b) _ _ t
            (λ shut. Ends-pure _ t (elim (e.1) [ inl h ↦ cc (h, shut) | inr h ↦ h ]))
            (λ _. Ends-bind _ _ t (
              Ends-attempt _ t (
                Ends-weaken _ t stops (λ r v _ h. after_poll v (ok r) h)
                  (λ x v _ h. after_poll v (err x) h))))))
        (λ _ u h. h)
    where
      after_poll :
          (v : World) (r : Result Bool)
          → IsStopped w v
          → Ends
              (pass_poll_error r >>= λ _.
                run_daily_send z p settings key date tick >>= λ s. pure (some s))
              v
              (Halted w)
              (Halted w)
      after_poll v r h =
          Ends-then _ _ v (pass_poll_error-IsStopped w v r h)
            (λ _ x k.
              Ends-then _ _ x (run_daily_send-IsStopped p settings key tick z date w x k)
                (λ s y m. Ends-pure _ y m) (λ _ y m. m))
            (λ _ x k. k)

module _ (z : Zone) (p : Platform) (settings : Settings) where
  abbrev today : Tick → ℕ
  today tick = z.date_of (instant tick.now)

  abbrev enrolled_key : Text
  enrolled_key = recipient_key_for_chat_id settings.telegram_chat_id

  run_process-IsStopped :
      (tick : Tick) (w t : World)
      → Ends
          (run_daily_entrypoint z p settings enrolled_key (today tick) tick)
          t
          (Halted w)
          (Halted w)
      → IsStopped w (run_process z p settings tick t).1
  unfolding run_process
  run_process-IsStopped tick w t h =
      halted w (run_daily_entrypoint z p settings enrolled_key (today tick) tick t).0
        (run_daily_entrypoint z p settings enrolled_key (today tick) tick t).1 h.at

  run_processes-IsStopped :
      (ticks : List Tick) (w t : World)
      → IsStopped w t
      → IsStopped w (run_processes z p settings ticks t)
  unfolding run_processes
  run_processes-IsStopped [] w t h = h
  run_processes-IsStopped (tick ∷ ticks) w t h =
      run_processes-IsStopped ticks w (run_process z p settings tick t).1 (
        run_process-IsStopped tick w t (
          entrypoint-IsStopped z p settings enrolled_key (today tick) tick w t
            (Ends-weaken _ t (send_window_open_lem z (today tick) tick.now t)
              (λ b u _ e. (e, inr h)) (λ _ u _ e. rw e h))
            (Ends_of_Keeps (IsStopped w) _ t (poll_inbound_stop-IsStopped p settings tick w) h)))

  -- Once sending is disabled, no process delivers a note, and none enables sending again,
  -- whatever the clock, Telegram and the audio tools answer.
  pub disabled_stays :
      (ticks : List Tick) (w : World)
      → enabled_of w.db.control ≡ false
      → (enabled_of (run_processes z p settings ticks w).db.control ≡ false)
        × ((run_processes z p settings ticks w).outbox ≡ w.outbox)
  disabled_stays ticks w off =
      let h = run_processes-IsStopped ticks w w (record { disabled = off; outbox = refl }) in
      (h.disabled, h.outbox)

  window_due :
      (tick : Tick) (t : World)
      → classify_trigger (scheduled_trigger z daily_send (today tick)) tick.now ≡ ok due
      → Ends (send_window_open z (today tick) tick.now) t (λ b u. (u ≡ t) × (b ≡ true)) (λ _ u. ⊥)
  unfolding send_window_open
  window_due tick t h = rw (first_send z (today tick)) (
      Ends-bind _ _ t (
        Ends-or_raise _ _ t
          (λ trigger e.
            let planned : scheduled_trigger z daily_send (today tick) ≡ trigger = cc in
            Ends-bind _ _ t (
              Ends-lift _ t
                (λ status f.
                  let now_due : status ≡ due = cc (planned, f, h) in
                  Ends-pure _ t (refl, rw now_due))
                (λ x f. cc (planned, f, h))))
          (λ e. cc)))

  -- A process that runs inside the send window and reads a STOP of the enrolled chat delivers
  -- nothing and leaves sending disabled, and so do all processes after it.
  pub stop_halts :
      (tick : Tick) (t : ℕ) (ticks : List Tick) (w : World)
      → tick.now ≡ aware t
      → classify_trigger (scheduled_trigger z daily_send (today tick)) tick.now ≡ ok due
      → ReadsStop p settings tick w
      → (enabled_of (run_processes z p settings (tick ∷ ticks) w).db.control ≡ false)
        × ((run_processes z p settings (tick ∷ ticks) w).outbox ≡ w.outbox)
  unfolding run_processes
  stop_halts tick t ticks w on_time h stop =
      let first = run_process-IsStopped tick w w (
        entrypoint-IsStopped z p settings enrolled_key (today tick) tick w w
          (Ends-weaken _ w (window_due tick w h) (λ b u _ e. (e.0, inl (e.1)))
            (λ _ u _ never. absurd never))
          (poll_stops p settings tick w t on_time stop)) in
      let after = run_processes-IsStopped ticks w (run_process z p settings tick w).1 first in
      (after.disabled, after.outbox)

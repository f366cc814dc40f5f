-- ===== src/Entrypoint/Windows.antt =====
-- `run_daily_entrypoint` outside the send window.
use personal_voice_msg.Prelude.{ℕ, ◌≡◌, refl, false, none}
use personal_voice_msg.Prelude.Text.{Text}
use personal_voice_msg.Exec.{ok, ◌>>=◌}
use personal_voice_msg.Scheduling.{
  Zone, TriggerStatus, daily_send, is_due, classify_trigger, scheduled_trigger,
}
use personal_voice_msg.Scheduling.Windows.{first_send}
use personal_voice_msg.World.{Platform, Settings, Tick, World}
use personal_voice_msg.Delivery.{instant, send_window_open}
use personal_voice_msg.Entrypoint.{run_daily_entrypoint, run_process}

module _ (z : Zone) (p : Platform) (settings : Settings) (tick : Tick) (w : World) where
  window_closed :
      (key : Text) (date : ℕ) (status : TriggerStatus)
      → classify_trigger (scheduled_trigger z daily_send date) tick.now ≡ ok status
      → is_due status ≡ false
      → run_daily_entrypoint z p settings key date tick w ≡ (ok none, w)
  unfolding run_daily_entrypoint send_window_open ◌>>=◌
  window_closed key date status h shut = rw (first_send z date, h, shut) refl

  -- A process outside the send window of its date exits with 0 and changes nothing.
  pub outside_window :
      (status : TriggerStatus)
      → classify_trigger (scheduled_trigger z daily_send (z.date_of (instant tick.now))) tick.now
        ≡ ok status
      → is_due status ≡ false
      → run_process z p settings tick w ≡ (0, w)
  unfolding run_process
  outside_window status h shut = rw (window_closed _ _ status h shut) refl

-- ===== src/Entrypoint.antt =====
-- src/personal_voice_msg/daily_send_entrypoint.py, and the process of
-- scripts/run_daily_entrypoint.py that a timer starts again and again.
pub mod AtMostOnce
pub mod Keeping
pub mod Transitions
pub mod OncePerDay
pub mod Stop
pub mod Windows
use personal_voice_msg.Prelude.{
  ℕ, Bool, not, ◌||◌, Option, none, some, List, [], ◌∷◌, if◌then◌else◌,
}
use personal_voice_msg.Prelude.Text.{Text}
use personal_voice_msg.Exec.{
  Result, ok, err, Exec, ⊤, poll_error, pure, raise, attempt, ◌>>=◌, ◌>>◌,
}
use personal_voice_msg.Scheduling.{Zone}
use personal_voice_msg.Database.States.{MessageState, failed, delivery_unknown, is}
use personal_voice_msg.Database.RecipientKey.{recipient_key_for_chat_id}
use personal_voice_msg.World.{Platform, Settings, Tick, World}
use personal_voice_msg.Consent.{poll_inbound_stop}
use personal_voice_msg.Delivery.{instant, send_window_open, run_daily_send}

-- `except TelegramPollError: pass`
unfoldable pub pass_poll_error : Result Bool → Exec World ⊤
pass_poll_error (ok stopped) = pure tt
pass_poll_error (err poll_error) = pure tt
pass_poll_error (err e) = raise e

module _ (z : Zone) (p : Platform) (settings : Settings) where
  -- `none` outside the send window
  unfoldable pub run_daily_entrypoint : Text → ℕ → Tick → Exec World (Option MessageState)
  run_daily_entrypoint recipient_key date tick = do
    open_now ← send_window_open z date tick.now
    if not open_now then pure none else (do
      polled ← attempt (poll_inbound_stop p settings tick)
      pass_poll_error polled
      state ← run_daily_send z p settings recipient_key date tick
      pure (some state))

  -- `_exit_code_for`
  abbrev pub exit_code_for : Option MessageState → ℕ
  exit_code_for none = 0
  exit_code_for (some state) = if is state failed || is state delivery_unknown then 1 else 0

  -- `main`: an exception is printed and ends the process with 1.
  abbrev pub exit_code : Result (Option MessageState) → ℕ
  exit_code (ok result) = exit_code_for result
  exit_code (err e) = 1

  -- One process: `_run` on a database that is migrated already, with the date and the recipient
  -- that it computes; and the exit code.
  unfoldable pub run_process : Tick → World → ℕ × World
  run_process tick w =
      let (result, after) =
        run_daily_entrypoint (recipient_key_for_chat_id settings.telegram_chat_id)
          (z.date_of (instant tick.now)) tick w in
      (exit_code result, after)

  -- The timer starts one process after another.
  unfoldable pub run_processes : List Tick → World → World
  run_processes [] w = w
  run_processes (tick ∷ ticks) w = run_processes ticks (run_process tick w).1

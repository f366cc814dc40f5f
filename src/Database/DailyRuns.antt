-- ===== src/Database/DailyRuns.antt =====
-- The methods of `Database` that claim and complete a daily run
-- (src/personal_voice_msg/database.py).
pub mod Claiming
pub mod Once
use personal_voice_msg.Prelude.{
  ℕ, Bool, true, false, ◌&&◌, not, Option, none, some, [], ◌∷◌, ◌++◌, ◌==◌, ltb, is_some,
  if◌then◌else◌,
}
use personal_voice_msg.Prelude.Text.{Text}
use personal_voice_msg.Exec.{
  Exec, value_error, record_not_found, invalid_transition, database_invariant, other_error, pure,
  lift, gets, modify, or_raise, raise_if, transaction, ◌>>=◌, ◌>>◌,
}
use personal_voice_msg.Rows.{find, count, update, next_id}
use personal_voice_msg.Scheduling.{
  Datetime, Zone, daily_prepare, planned_triggers_for_date, classify_trigger, first_of_kind, is_due,
}
use personal_voice_msg.Database.States.{DailyRunState, claimed, completed}
use personal_voice_msg.Database.Schema.{DailyRun, Db, run_is_for}
use personal_voice_msg.Database.RecipientKey.{timestamp_of, is_opaque_recipient_key}

abbrev pub is_claimed : DailyRunState → Bool
is_claimed claimed = true
is_claimed completed = false

-- `INSERT INTO daily_runs ... ON CONFLICT (recipient_key, pacific_date) DO NOTHING RETURNING ...`
unfoldable pub insert_daily_run : Text → ℕ → ℕ → Exec Db (Option DailyRun)
insert_daily_run recipient_key date timestamp = do
  conflict ← gets (λ db. find (run_is_for recipient_key date) db.daily_runs)
  run_id ← gets (λ db. next_id (λ r. r.id) db.daily_runs)
  let run : DailyRun = record {
    id = run_id;
    recipient_key = recipient_key;
    pacific_date = date;
    state = claimed;
    started_at = timestamp;
    finished_at = none;
  }
  if is_some conflict
      then pure none
      else (do modify (λ db. record db { daily_runs = db.daily_runs ++ run ∷ [] }); pure (some run))

module _ (z : Zone) where
  unfoldable pub claim_daily_run : Text → ℕ → Datetime → Exec Db (Option DailyRun)
  claim_daily_run recipient_key date now = do
    raise_if (not (is_opaque_recipient_key recipient_key)) value_error
    timestamp ← lift (timestamp_of now)
    transaction do
      existing ← gets (λ db. find (run_is_for recipient_key date) db.daily_runs)
      if is_some existing then pure none else (do
        trigger ←
            or_raise other_error (first_of_kind daily_prepare (planned_triggers_for_date z date))
        status ← lift (classify_trigger trigger now)
        raise_if (not (is_due status)) value_error
        insert_daily_run recipient_key date timestamp)

  -- `UPDATE daily_runs ... WHERE id = ? AND state = 'claimed'`
  abbrev pub is_claimed_run : ℕ → DailyRun → Bool
  is_claimed_run run_id r = r.id == run_id && is_claimed r.state

  unfoldable pub complete_daily_run : ℕ → Datetime → Exec Db DailyRun
  complete_daily_run run_id now = do
    timestamp ← lift (timestamp_of now)
    transaction do
      row ← gets (λ db. find (λ r. r.id == run_id) db.daily_runs)
      r ← or_raise record_not_found row
      raise_if (not (is_claimed r.state)) invalid_transition
      raise_if (ltb timestamp r.started_at) value_error
      raise_if (not (z.date_of timestamp == r.pacific_date)) value_error
      rowcount ← gets (λ db. count (is_claimed_run run_id) db.daily_runs)
      modify λ db. record db {
        daily_runs =
            update (is_claimed_run run_id)
              (λ r. record r { state = completed; finished_at = some timestamp }) db.daily_runs;
      }
      raise_if (not (rowcount == 1)) database_invariant
      pure (record r { state = completed; finished_at = some timestamp })

unfoldable pub get_daily_run : Text → ℕ → Exec Db (Option DailyRun)
get_daily_run recipient_key date = do
  raise_if (not (is_opaque_recipient_key recipient_key)) value_error
  gets (λ db. find (run_is_for recipient_key date) db.daily_runs)

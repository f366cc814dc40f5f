-- ===== src/Tests/Tables.antt =====
-- Methods of the database on small tables.
use personal_voice_msg.Prelude.{ℕ, ◌+◌, ◌-◌, ◌*◌, ◌≡◌, ◌≢◌, refl, none, some, List, [], ◌∷◌}
use personal_voice_msg.Prelude.Text.{Text, codes}
use personal_voice_msg.Exec.{ok, transaction, ◌>>=◌}
use personal_voice_msg.Exec.Ends.{Ends}
use personal_voice_msg.Rows.{find, last_id}
use personal_voice_msg.Scheduling.{
  aware, naive, seconds, scheduled_trigger, planned_triggers_for_date, classify_trigger,
  first_of_kind,
}
use personal_voice_msg.Database.States.{
  claimed, discovered, sending, audio_ready, sent, stop_command, admin_kill_switch, can_deliver,
}
use personal_voice_msg.Database.Schema.{Message, DailyRun, Db, fresh}
use personal_voice_msg.Database.RecipientKey.{is_opaque_recipient_key, timestamp_of}
use personal_voice_msg.Database.Deliveries.{
  new_delivery, moved, concluded, transition_delivery, record_delivery_attempt,
  reserve_next_message,
}
use personal_voice_msg.Database.Deliveries.Effects.{
  Moved, Unchanged, transition_delivery_lem, record_delivery_attempt_lem,
}
use personal_voice_msg.Database.Deliveries.Reserving.{Reserved, reserve_next_message_lem}
use personal_voice_msg.Database.Control.Switch.{
  Command, disable, enable, IsLogged, run_commands, log_tells_switch,
}
use personal_voice_msg.Database.DailyRuns.{insert_daily_run, claim_daily_run}
use personal_voice_msg.Database.DailyRuns.Claiming.{Claimed, claim_daily_run_lem}
use personal_voice_msg.Database.DailyRuns.Once.{
  DailyCall, claiming, completing, daily_call, claimed_once,
}
use personal_voice_msg.Exec.Keeps.{run_each}
use personal_voice_msg.Tests.Fixture.{zone, one_queued, message}

abbrev key : Text
key = codes "recipient_telegram_42"

abbrev date : ℕ
date = 740000

abbrev commands : List Command
commands =
    disable stop_command (aware 1)
    ∷ disable admin_kill_switch (aware 2)
    ∷ enable (codes "agreed") (aware 3)
    ∷ disable admin_kill_switch (naive 4)
    ∷ []

log_tells_switch_example : IsLogged (run_commands commands fresh)
log_tells_switch_example = log_tells_switch commands fresh refl

abbrev chat : ℕ
chat = 42

abbrev new_message : Message
new_message = record message { state = discovered }

abbrev one_discovered : Db
one_discovered = record fresh { messages = new_message ∷ [] }

abbrev prepare_time : ℕ → ℕ
prepare_time offset = seconds ((date - 1) * 86400 + 24600 + 28800 + offset)

claim_daily_run_lem_example :
    Ends
      (claim_daily_run zone key date (aware (prepare_time 0)))
      fresh
      (Claimed zone key date (aware (prepare_time 0)) fresh)
      (λ e t. t ≡ fresh)
claim_daily_run_lem_example = claim_daily_run_lem zone key date (aware (prepare_time 0)) fresh

abbrev claimed_run : DailyRun
claimed_run = record {
  id = 1;
  recipient_key = key;
  pacific_date = date;
  state = claimed;
  started_at = prepare_time 0;
  finished_at = none;
}

abbrev claimed_db : Db
claimed_db = record fresh { daily_runs = claimed_run ∷ [] }

first_claim :
    claim_daily_run zone key date (aware (prepare_time 0)) fresh
    ≡ (ok (some claimed_run), claimed_db)
unfolding claim_daily_run insert_daily_run is_opaque_recipient_key timestamp_of
    planned_triggers_for_date scheduled_trigger first_of_kind classify_trigger find last_id ◌>>=◌
    transaction
first_claim = refl

abbrev between : List DailyCall
between =
    completing 1 (aware (prepare_time 30))
    ∷ claiming (codes "recipient_telegram_43") date (aware (prepare_time 40))
    ∷ []

claimed_once_example :
    claim_daily_run zone key date
      (aware (prepare_time 60))
      (run_each (daily_call zone) between claimed_db)
    ≢ (ok (some claimed_run), claimed_db)
claimed_once_example =
    claimed_once zone key date (aware (prepare_time 0)) (aware (prepare_time 60)) fresh claimed_db
      claimed_db claimed_run claimed_run between first_claim

reserve_next_message_lem_example :
    Ends
      (reserve_next_message key date (aware 5))
      one_queued.db
      (Reserved key date one_queued.db)
      (Unchanged one_queued.db)
reserve_next_message_lem_example = reserve_next_message_lem key date (aware 5) one_queued.db

abbrev ready_db : Db
ready_db = record fresh {
  messages = record message { state = audio_ready } ∷ [];
  deliveries =
      record (new_delivery 1 1 key date 0) { state = audio_ready; audio_data = some (1 ∷ []) } ∷ [];
}

transition_delivery_lem_example :
    Ends
      (transition_delivery 1 sending (aware 5))
      ready_db
      (Moved 1 (λ s. can_deliver s sending) sending (moved sending) ready_db)
      (Unchanged ready_db)
transition_delivery_lem_example = transition_delivery_lem 1 (aware 5) ready_db sending

abbrev sending_db : Db
sending_db = record fresh {
  messages = record message { state = sending } ∷ [];
  deliveries = record (new_delivery 1 1 key date 0) { state = sending } ∷ [];
}

record_delivery_attempt_lem_example :
    Ends
      (record_delivery_attempt 1 sent (aware 5) none)
      sending_db
      (Moved 1 (λ s. can_deliver s sent) sent (concluded sent none) sending_db)
      (Unchanged sending_db)
record_delivery_attempt_lem_example = record_delivery_attempt_lem 1 (aware 5) sending_db sent none

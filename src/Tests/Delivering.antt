-- ===== src/Tests/Delivering.antt =====
-- Runs of the entrypoint.
use personal_voice_msg.Prelude.{ℕ, ◌≡◌, ◌≤◌, refl, true, false, none, some, List, [], ◌∷◌, arith}
use personal_voice_msg.Exec.{ok}
use personal_voice_msg.Scheduling.{daily_send, due, missed, classify_trigger, scheduled_trigger}
use personal_voice_msg.Database.States.{admin_kill_switch, sent}
use personal_voice_msg.Database.Schema.{Delivery}
use personal_voice_msg.Database.Control.{enabled_of}
use personal_voice_msg.Database.Views.{state_at}
use personal_voice_msg.World.{Tick, World}
use personal_voice_msg.Delivery.{instant}
use personal_voice_msg.Delivery.Budget.{budget, notes_of}
use personal_voice_msg.Delivery.AtMostOnce.{IsHonest}
use personal_voice_msg.Sender.{is_definite_rejection}
use personal_voice_msg.Consent.{received_body, parse_getupdates_body, process_updates}
use personal_voice_msg.Entrypoint.Transitions.{follows_transitions}
use personal_voice_msg.Entrypoint.OncePerDay.{notes_on, one_delivery_per_date, one_note_per_date}
use personal_voice_msg.Delivery.OnePerDate.{IsOnePerDate}
use personal_voice_msg.Delivery.Transitions.{Leads}
use personal_voice_msg.Database.Deliveries.{new_delivery}
use personal_voice_msg.Rows.{find, count}
use personal_voice_msg.Prelude.Text.{codes}
use personal_voice_msg.Prelude.Int.{pos}
use personal_voice_msg.Consent.Stopping.{ReadsStop}
use personal_voice_msg.Entrypoint.{run_processes}
use personal_voice_msg.Entrypoint.AtMostOnce.{Event, process, run_events, at_most_once}
use personal_voice_msg.Entrypoint.Stop.{disabled_stays, stop_halts}
use personal_voice_msg.Tests.Fixture.{
  zone, platform, settings, tick_at, send_time, stopping, stop_payload, accepted, refused,
  one_queued,
}

abbrev retried : List Event
retried =
    process (tick_at 0 refused false)
    ∷ process (tick_at 60 accepted true)
    ∷ process (tick_at 120 accepted true)
    ∷ []

accepted-IsHonest : (offset : ℕ) → IsHonest (tick_at offset accepted true)
unfolding is_definite_rejection
accepted-IsHonest offset = record { refused = λ status chunks e d. ground arith }

refused-IsHonest : (offset : ℕ) → IsHonest (tick_at offset refused false)
refused-IsHonest offset = record { refused = λ status chunks e d. refl }

at_most_once_example :
    notes_of 1 (run_events zone platform settings retried one_queued)
    ≤ budget (state_at 1 (run_events zone platform settings retried one_queued).db)
at_most_once_example =
    at_most_once zone platform settings retried one_queued refl refl
      (refused-IsHonest 0, (accepted-IsHonest 60, (accepted-IsHonest 120, tt))) 1

abbrev switched_off : World
switched_off = record one_queued {
  db = record (one_queued.db) {
    control = some (record { enabled = false; reason = some admin_kill_switch; changed_at = 0 });
  };
}

abbrev two_ticks : List Tick
two_ticks = tick_at 0 accepted true ∷ tick_at 60 accepted true ∷ []

disabled_stays_example :
    (enabled_of (run_processes zone platform settings two_ticks switched_off).db.control ≡ false)
    × ((run_processes zone platform settings two_ticks switched_off).outbox ≡ [])
disabled_stays_example = disabled_stays zone platform settings two_ticks switched_off refl

stopping_due :
    classify_trigger
      (scheduled_trigger zone daily_send (zone.date_of (instant stopping.now)))
      stopping.now
    ≡ ok due
unfolding classify_trigger scheduled_trigger
stopping_due = refl

reads_stop : ReadsStop platform settings stopping one_queued
unfolding received_body parse_getupdates_body process_updates
reads_stop = record {
  body = 3 ∷ [];
  payload = stop_payload;
  offset = some (pos 10);
  received = refl;
  parsed = refl;
  stop = refl;
}

stop_halts_example :
    (enabled_of (run_processes zone platform settings (stopping ∷ two_ticks) one_queued).db.control
      ≡ false)
    × ((run_processes zone platform settings (stopping ∷ two_ticks) one_queued).outbox ≡ [])
stop_halts_example =
    stop_halts zone platform settings stopping (send_time 60) two_ticks one_queued refl stopping_due
      reads_stop

follows_transitions_example :
    Leads none (state_at 1 (run_events zone platform settings retried one_queued).db)
unfolding state_at find
follows_transitions_example = follows_transitions zone platform settings retried one_queued 1

abbrev sent_delivery : Delivery
sent_delivery = record (new_delivery 1 1 (codes "recipient_telegram_42") 740000 0) { state = sent }

abbrev already_sent : World
already_sent = record one_queued { db = record (one_queued.db) { deliveries = sent_delivery ∷ [] } }

sent_before : state_at 1 already_sent.db ≡ some sent
unfolding state_at find
sent_before = refl

abbrev too_late : Tick
too_late = tick_at 300 accepted true

late_missed :
    classify_trigger
      (scheduled_trigger zone daily_send (zone.date_of (instant too_late.now)))
      too_late.now
    ≡ ok missed
unfolding classify_trigger scheduled_trigger
late_missed = refl

one_note_per_date_example :
    notes_on
      (codes "recipient_telegram_42")
      740000
      (run_events zone platform settings retried one_queued)
      (run_events zone platform settings retried one_queued).db.deliveries
    ≤ 1
one_note_per_date_example =
    one_note_per_date zone platform settings retried one_queued refl refl
      (refused-IsHonest 0, (accepted-IsHonest 60, (accepted-IsHonest 120, tt)))
      (codes "recipient_telegram_42") 740000

sent-IsOnePerDate : IsOnePerDate already_sent.db
unfolding count
sent-IsOnePerDate key date = ground arith

one_delivery_per_date_example :
    IsOnePerDate (run_events zone platform settings retried already_sent).db
one_delivery_per_date_example =
    one_delivery_per_date zone platform settings retried already_sent sent-IsOnePerDate

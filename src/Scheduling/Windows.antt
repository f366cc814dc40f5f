-- ===== src/Scheduling/Windows.antt =====
-- The windows of a date (src/personal_voice_msg/scheduling.py), and how they lie to one another.
use personal_voice_msg.Prelude.{ℕ, ◌+◌, ◌≡◌, ◌↔◌, ◌⊎◌, ◌≤◌, ◌<◌, some, arith}
use personal_voice_msg.Exec.{ok}
use personal_voice_msg.Scheduling.{
  aware, Zone, ScheduleKind, daily_prepare, daily_send, due, missed, minutes, wall_time,
  trigger_window, scheduled_trigger, planned_triggers_for_date, classify_trigger, first_of_kind,
}

-- The trigger of a date that the callers look for is always planned.
module _ (z : Zone) (date : ℕ) where
  pub first_prepare :
      first_of_kind daily_prepare (planned_triggers_for_date z date)
      ≡ some (scheduled_trigger z daily_prepare date)
  unfolding first_of_kind planned_triggers_for_date
  first_prepare = ground arith

  pub first_send :
      first_of_kind daily_send (planned_triggers_for_date z date)
      ≡ some (scheduled_trigger z daily_send date)
  unfolding first_of_kind planned_triggers_for_date
  first_send = ground arith

  -- The wall clock runs evenly from 06:50 to 07:05: no change of offset lies in between.
  abbrev pub RunsEvenly : Type 0
  RunsEvenly =
      z.instant_of date (wall_time daily_send)
      ≡ z.instant_of date (wall_time daily_prepare) + minutes 10

  -- An instant is due for a trigger exactly from its scheduled instant to before its cutoff.
  pub due_iff :
      (kind : ScheduleKind) (t : ℕ)
      → (classify_trigger (scheduled_trigger z kind date) (aware t) ≡ ok due)
        ↔ (z.instant_of date (wall_time kind) ≤ t)
          × (t < z.instant_of date (wall_time kind) + trigger_window kind)
  unfolding classify_trigger scheduled_trigger
  due_iff kind t = ground arith

  -- Where the clock runs evenly, an instant misses the preparation exactly if it is due for sending
  -- or misses that too.
  pub windows_adjacent :
      RunsEvenly
      → (t : ℕ)
      → (classify_trigger (scheduled_trigger z daily_prepare date) (aware t) ≡ ok missed) ↔ (
          (classify_trigger (scheduled_trigger z daily_send date) (aware t) ≡ ok due)
          ⊎ (classify_trigger (scheduled_trigger z daily_send date) (aware t) ≡ ok missed))
  unfolding classify_trigger scheduled_trigger
  windows_adjacent even t = ground arith

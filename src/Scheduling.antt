-- ===== src/Scheduling.antt =====
-- src/personal_voice_msg/scheduling.py: the triggers of a Pacific date and their windows.
--
-- An instant is the number of microseconds since 0001-01-01T00:00 UTC, which is what an aware
-- `datetime` is worth; a date is its proleptic ordinal (`date.toordinal()`). The time zone
-- database behind `ZoneInfo("America/Los_Angeles")` is data that the program does not hold: it is
-- the record `Zone`.
pub mod Windows
use personal_voice_msg.Prelude.{
  ℕ, ◌+◌, ◌*◌, ◌%◌, ◌≡◌, Bool, true, false, List, [], ◌∷◌, ◌++◌, Option, none, some, ltb, ◌==◌,
  if◌then◌else◌,
}
use personal_voice_msg.Exec.{Result, ok, err, value_error}

pub data Datetime : Type 0 where
  -- an aware datetime, as its instant
  aware : ℕ → Datetime
  -- a datetime with no time zone, as its wall clock reading
  naive : ℕ → Datetime

pub record Zone : Type 0 where
  -- `datetime.combine(date, time, tzinfo=PACIFIC).astimezone(UTC)`, the time of day in seconds
  pub instant_of : ℕ → ℕ → ℕ
  -- `instant.astimezone(PACIFIC).date()`
  pub date_of : ℕ → ℕ

abbrev pub seconds : ℕ → ℕ
seconds n = n * 1000000

abbrev pub minutes : ℕ → ℕ
minutes n = seconds (n * 60)

pub data ScheduleKind : Type 0 where
  weekly_discovery daily_prepare daily_send : ScheduleKind

pub data TriggerStatus : Type 0 where
  not_due due missed : TriggerStatus

-- `TRIGGER_WINDOWS`
abbrev pub trigger_window : ScheduleKind → ℕ
trigger_window weekly_discovery = minutes (24 * 60)
trigger_window daily_prepare = minutes 10
trigger_window daily_send = minutes 5

pub record ScheduledTrigger : Type 0 where
  pub kind : ScheduleKind
  pub pacific_date : ℕ
  pub scheduled_at : ℕ
  pub cutoff_at : ℕ

-- The wall times of the three triggers, in seconds.
abbrev pub wall_time : ScheduleKind → ℕ
wall_time weekly_discovery = 0
wall_time daily_prepare = (6 * 60 + 50) * 60
wall_time daily_send = 7 * 60 * 60

-- `date.weekday()`: the ordinal 1 is a Monday, and Monday is 0.
abbrev pub weekday : ℕ → ℕ
weekday date = (date + 6) % 7

module _ (z : Zone) where
  -- `_scheduled_trigger`, at the wall time of its kind
  unfoldable pub scheduled_trigger : ScheduleKind → ℕ → ScheduledTrigger
  scheduled_trigger kind date = record {
    kind = kind;
    pacific_date = date;
    scheduled_at = z.instant_of date (wall_time kind);
    cutoff_at = z.instant_of date (wall_time kind) + trigger_window kind;
  }

  unfoldable pub planned_triggers_for_date : ℕ → List ScheduledTrigger
  unfolding scheduled_trigger
  planned_triggers_for_date date =
      (if weekday date == 0 then scheduled_trigger weekly_discovery date ∷ [] else [])
      ++ scheduled_trigger daily_prepare date ∷ scheduled_trigger daily_send date ∷ []

unfoldable pub classify_trigger : ScheduledTrigger → Datetime → Result TriggerStatus
classify_trigger trigger (naive t) = err value_error
classify_trigger trigger (aware t) = ok (
    if ltb t trigger.scheduled_at then not_due else if ltb t trigger.cutoff_at then due else missed)

abbrev same_kind : ScheduleKind → ScheduleKind → Bool
same_kind weekly_discovery weekly_discovery = true
same_kind daily_prepare daily_prepare = true
same_kind daily_send daily_send = true
same_kind _ _ = false

-- `next(trigger for trigger in triggers if trigger.kind is kind)`
unfoldable pub first_of_kind : ScheduleKind → List ScheduledTrigger → Option ScheduledTrigger
first_of_kind kind [] = none
first_of_kind kind (t ∷ ts) = if same_kind t.kind kind then some t else first_of_kind kind ts

abbrev pub is_due : TriggerStatus → Bool
is_due due = true
is_due _ = false

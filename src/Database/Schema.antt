-- ===== src/Database/Schema.antt =====
-- The tables of src/personal_voice_msg/database.py that the methods read and write, as the schema
-- of version 8 lays them out. Timestamps are stored as UTC ISO texts and read back by
-- `datetime.fromisoformat`; they stand as the instants that they denote. Pacific dates stand as
-- ordinals. A table is in rowid order.
use personal_voice_msg.Prelude.{ℕ, Bool, ◌&&◌, Option, none, List, []}
use personal_voice_msg.Prelude.Text.{Text, Bytes, same_text}
use personal_voice_msg.Prelude.{◌==◌}
use personal_voice_msg.Prelude.Int.{ℤ}
use personal_voice_msg.Database.States.{MessageState, DailyRunState, DisableReason}

pub record Message : Type 0 where
  pub id : ℕ
  pub text : Text
  pub state : MessageState
  pub created_at : ℕ
  pub updated_at : ℕ

-- `message_history`
pub record HistoryRow : Type 0 where
  pub message_id : ℕ
  pub normalized_hash : Text

pub record Delivery : Type 0 where
  pub id : ℕ
  pub message_id : ℕ
  pub recipient_key : Text
  pub pacific_date : ℕ
  pub state : MessageState
  pub provider_message_id : Option Text
  pub created_at : ℕ
  pub updated_at : ℕ
  pub audio_data : Option Bytes

-- `delivery_attempts`
pub record Attempt : Type 0 where
  pub id : ℕ
  pub delivery_id : ℕ
  pub attempted_at : ℕ
  pub outcome : MessageState
  pub provider_message_id : Option Text

-- `message_rejections`
pub record Rejection : Type 0 where
  pub id : ℕ
  pub message_id : ℕ
  pub reason : Text
  pub rejected_at : ℕ

-- `daily_runs`, and the dataclass `DailyRun` that is read from it
pub record DailyRun : Type 0 where
  pub id : ℕ
  pub recipient_key : Text
  pub pacific_date : ℕ
  pub state : DailyRunState
  pub started_at : ℕ
  pub finished_at : Option ℕ

-- `sender_auth_nonces`
pub record Nonce : Type 0 where
  pub idempotency_key : Text
  pub timestamp : ℕ
  pub expires_at : ℕ

-- The one row of `sending_control`.
pub record Control : Type 0 where
  pub enabled : Bool
  pub reason : Option DisableReason
  pub changed_at : ℕ

-- `sending_control_events`
pub record ControlEvent : Type 0 where
  pub enabled : Bool
  pub reason : Option DisableReason
  pub note : Option Text
  pub changed_at : ℕ

-- The one row of `telegram_inbound_offset`.
pub record InboundOffset : Type 0 where
  pub next_offset : ℤ
  pub updated_at : ℕ

pub record Db : Type 0 where
  pub messages : List Message
  pub message_history : List HistoryRow
  pub deliveries : List Delivery
  pub attempts : List Attempt
  pub rejections : List Rejection
  pub daily_runs : List DailyRun
  pub nonces : List Nonce
  pub control : Option Control
  pub control_events : List ControlEvent
  pub inbound_offset : Option InboundOffset

-- The database that the migrations leave in an empty file.
abbrev pub fresh : Db
fresh = record {
  messages = [];
  message_history = [];
  deliveries = [];
  attempts = [];
  rejections = [];
  daily_runs = [];
  nonces = [];
  control = none;
  control_events = [];
  inbound_offset = none;
}

abbrev pub message_has_id : ℕ → Message → Bool
message_has_id i m = m.id == i

abbrev pub delivery_has_id : ℕ → Delivery → Bool
delivery_has_id i d = d.id == i

-- `WHERE recipient_key = ? AND pacific_date = ?`
abbrev pub is_for : Text → ℕ → Delivery → Bool
is_for key date d = same_text d.recipient_key key && d.pacific_date == date

abbrev pub run_is_for : Text → ℕ → DailyRun → Bool
run_is_for key date r = same_text r.recipient_key key && r.pacific_date == date

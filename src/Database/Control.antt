-- ===== src/Database/Control.antt =====
-- The methods of `Database` on the sending switch, the inbound offset and the replay nonces
-- (src/personal_voice_msg/database.py).
pub mod Effects
pub mod Switch
use personal_voice_msg.Prelude.{
  ℕ, Bool, true, false, ◌&&◌, not, Option, none, some, [], ◌∷◌, ◌++◌, ◌==◌, any, if◌then◌else◌,
}
use personal_voice_msg.Prelude.Text.{Text, same_text, is_blank}
use personal_voice_msg.Prelude.Int.{ℤ}
use personal_voice_msg.Exec.{
  Exec, ⊤, value_error, replay_detected, pure, lift, gets, modify, raise_if, transaction, ◌>>=◌,
  ◌>>◌,
}
use personal_voice_msg.Scheduling.{Datetime}
use personal_voice_msg.Database.States.{DisableReason}
use personal_voice_msg.Database.Schema.{Nonce, Control, InboundOffset, Db}
use personal_voice_msg.Database.RecipientKey.{timestamp_of}

-- A missing row means that sending was never disabled.
abbrev pub enabled_of : Option Control → Bool
enabled_of none = true
enabled_of (some c) = c.enabled

unfoldable pub is_sending_enabled : Exec Db Bool
is_sending_enabled = gets (λ db. enabled_of db.control)

-- The upsert of the switch and the row of the event log.
abbrev pub switched : Bool → Option DisableReason → Option Text → ℕ → Db → Db
switched enabled reason note timestamp db = record db {
  control = some (record { enabled = enabled; reason = reason; changed_at = timestamp });
  control_events =
      db.control_events
      ++ record { enabled = enabled; reason = reason; note = note; changed_at = timestamp } ∷ [];
}

unfoldable pub disable_sending : DisableReason → Datetime → Exec Db ⊤
disable_sending reason now = do
  timestamp ← lift (timestamp_of now)
  transaction do
    enabled ← gets (λ db. enabled_of db.control)
    if not enabled then pure tt else modify (switched false (some reason) none timestamp)

unfoldable pub enable_sending : Text → Datetime → Exec Db ⊤
enable_sending note now = do
  raise_if (is_blank note) value_error
  timestamp ← lift (timestamp_of now)
  transaction do
    enabled ← gets (λ db. enabled_of db.control)
    if enabled then pure tt else modify (switched true none (some note) timestamp)

abbrev pub offset_of : Option InboundOffset → Option ℤ
offset_of none = none
offset_of (some o) = some o.next_offset

unfoldable pub get_telegram_inbound_offset : Exec Db (Option ℤ)
get_telegram_inbound_offset = gets (λ db. offset_of db.inbound_offset)

unfoldable pub set_telegram_inbound_offset : ℤ → Datetime → Exec Db ⊤
set_telegram_inbound_offset offset now = do
  timestamp ← lift (timestamp_of now)
  transaction (
      modify λ db. record db {
        inbound_offset = some (record { next_offset = offset; updated_at = timestamp });
      })

-- The primary key of `sender_auth_nonces`.
abbrev pub is_nonce : Text → ℕ → Nonce → Bool
is_nonce key timestamp n = same_text n.idempotency_key key && n.timestamp == timestamp

unfoldable pub record_sender_nonce : Text → ℕ → Datetime → Exec Db ⊤
record_sender_nonce idempotency_key timestamp expires_at = transaction do
  expiry ← lift (timestamp_of expires_at)
  nonces ← gets (λ db. db.nonces)
  raise_if (any (is_nonce idempotency_key timestamp) nonces) replay_detected
  modify λ db. record db {
    nonces =
        db.nonces
        ++ record { idempotency_key = idempotency_key; timestamp = timestamp; expires_at = expiry }
          ∷ [];
  }

-- ===== src/Database/Deliveries.antt =====
-- The methods of `Database` that reserve a message and move its delivery
-- (src/personal_voice_msg/database.py).
pub mod Effects
pub mod Reserving
pub mod Paired
pub mod Moving
pub mod Fresh
use personal_voice_msg.Prelude.{
  ℕ, Bool, not, ◌&&◌, ◌||◌, Option, none, some, [], ◌∷◌, ◌++◌, ◌==◌, is_some, if◌then◌else◌,
}
use personal_voice_msg.Prelude.Text.{Text, Bytes}
use personal_voice_msg.Exec.{
  Exec, ⊤, database_invariant, record_not_found, invalid_transition, value_error, integrity_error,
  pure, lift, gets, modify, or_raise, raise_if, transaction, ◌>>=◌, ◌>>◌,
}
use personal_voice_msg.Rows.{find, count, update, next_id}
use personal_voice_msg.Scheduling.{Datetime}
use personal_voice_msg.Database.States.{
  MessageState, queued, reserved, audio_ready, sent, is, can_deliver, is_attempt_outcome,
}
use personal_voice_msg.Database.Schema.{Message, Delivery, Db, delivery_has_id, is_for}
use personal_voice_msg.Database.RecipientKey.{timestamp_of, is_opaque_recipient_key}
use personal_voice_msg.Database.Messages.{fetch_message, update_message_state, is_queued}

-- The dataclass `Reservation`.
pub record Reservation : Type 0 where
  pub delivery_id : ℕ
  pub message_id : ℕ
  pub recipient_key : Text
  pub pacific_date : ℕ
  pub state : MessageState

abbrev pub new_delivery : ℕ → ℕ → Text → ℕ → ℕ → Delivery
new_delivery delivery_id message_id recipient_key date timestamp = record {
  id = delivery_id;
  message_id = message_id;
  recipient_key = recipient_key;
  pacific_date = date;
  state = reserved;
  provider_message_id = none;
  created_at = timestamp;
  updated_at = timestamp;
  audio_data = none;
}

-- `INSERT INTO deliveries`: `message_id` is unique, and so is the recipient with the date.
unfoldable pub insert_delivery : ℕ → Text → ℕ → ℕ → Exec Db ℕ
insert_delivery message_id recipient_key date timestamp = do
  deliveries ← gets (λ db. db.deliveries)
  raise_if
      (not (count (λ d. d.message_id == message_id || is_for recipient_key date d) deliveries == 0))
      integrity_error
  delivery_id ← gets (λ db. next_id (λ d. d.id) db.deliveries)
  modify λ db. record db {
    deliveries =
        db.deliveries ++ new_delivery delivery_id message_id recipient_key date timestamp ∷ [];
  }
  pure delivery_id

-- What `reserve_next_message` does with the oldest queued message, if there is one.
unfoldable pub reserve_message : Text → ℕ → ℕ → Option Message → Exec Db (Option Reservation)
reserve_message recipient_key date timestamp none = pure none
reserve_message recipient_key date timestamp (some m) = do
  rowcount ← update_message_state m.id queued reserved timestamp
  raise_if (not (rowcount == 1)) database_invariant
  delivery_id ← insert_delivery m.id recipient_key date timestamp
  pure (
      some (record {
        delivery_id = delivery_id;
        message_id = m.id;
        recipient_key = recipient_key;
        pacific_date = date;
        state = reserved;
      }))

unfoldable pub reserve_next_message : Text → ℕ → Datetime → Exec Db (Option Reservation)
reserve_next_message recipient_key date now = do
  raise_if (not (is_opaque_recipient_key recipient_key)) value_error
  timestamp ← lift (timestamp_of now)
  transaction do
    existing ← gets (λ db. find (is_for recipient_key date) db.deliveries)
    if is_some existing then pure none else (do
      message ← gets (λ db. find is_queued db.messages)
      reserve_message recipient_key date timestamp message)

-- `SELECT ... FROM deliveries WHERE id = ?`, and `RecordNotFound` where there is none
unfoldable pub fetch_delivery : ℕ → Exec Db Delivery
fetch_delivery delivery_id = do
  row ← gets (λ db. find (delivery_has_id delivery_id) db.deliveries)
  or_raise record_not_found row

-- `SELECT ... FROM deliveries JOIN messages` by id, and the test that the two states agree
unfoldable pub fetch_joined : ℕ → Exec Db Delivery
fetch_joined delivery_id = do
  d ← fetch_delivery delivery_id
  m ← fetch_message d.message_id
  raise_if (not (is m.state d.state)) database_invariant
  pure d

abbrev pub delivery_in_state : ℕ → MessageState → Delivery → Bool
delivery_in_state delivery_id state d = d.id == delivery_id && is d.state state

-- `UPDATE deliveries SET ... WHERE id = ? AND state = ?` and its `rowcount`
unfoldable pub update_delivery : ℕ → MessageState → (Delivery → Delivery) → Exec Db ℕ
update_delivery delivery_id current change = do
  rowcount ← gets (λ db. count (delivery_in_state delivery_id current) db.deliveries)
  modify λ db. record db {
    deliveries = update (delivery_in_state delivery_id current) change db.deliveries;
  }
  pure rowcount

-- The two updates that close each transition: the delivery, then its message.
unfoldable pub move_both : Delivery → MessageState → ℕ → (Delivery → Delivery) → Exec Db ⊤
move_both d target timestamp change = do
  delivery_update ← update_delivery d.id d.state change
  message_update ← update_message_state d.message_id d.state target timestamp
  raise_if (not (delivery_update == 1) || not (message_update == 1)) database_invariant

abbrev pub moved : MessageState → ℕ → Delivery → Delivery
moved target timestamp d = record d { state = target; updated_at = timestamp }

unfoldable pub transition_delivery : ℕ → MessageState → Datetime → Exec Db ⊤
transition_delivery delivery_id target now = do
  timestamp ← lift (timestamp_of now)
  transaction do
    d ← fetch_joined delivery_id
    raise_if (not (can_deliver d.state target)) invalid_transition
    move_both d target timestamp (moved target timestamp)

abbrev pub with_audio : Bytes → ℕ → Delivery → Delivery
with_audio audio_bytes timestamp d = record d {
  state = audio_ready;
  audio_data = some audio_bytes;
  updated_at = timestamp;
}

unfoldable pub mark_audio_ready : ℕ → Bytes → Datetime → Exec Db ⊤
mark_audio_ready delivery_id audio_bytes now = do
  timestamp ← lift (timestamp_of now)
  transaction do
    d ← fetch_joined delivery_id
    raise_if (not (is d.state reserved)) invalid_transition
    move_both d audio_ready timestamp (with_audio audio_bytes timestamp)

-- `INSERT INTO delivery_attempts`
unfoldable pub insert_attempt : ℕ → ℕ → MessageState → Option Text → Exec Db ⊤
insert_attempt delivery_id timestamp outcome provider_message_id = modify λ db. record db {
  attempts =
      db.attempts
      ++ record {
        id = next_id (λ a. a.id) db.attempts;
        delivery_id = delivery_id;
        attempted_at = timestamp;
        outcome = outcome;
        provider_message_id = provider_message_id;
      }
        ∷ [];
}

-- The columns that a recorded attempt sets: the provider's id is written for `SENT` alone.
unfoldable pub concluded : MessageState → Option Text → ℕ → Delivery → Delivery
unfolding is
concluded outcome provider_message_id timestamp d =
    if is outcome sent
    then record d {
      state = outcome;
      provider_message_id = provider_message_id;
      updated_at = timestamp;
    }
    else record d { state = outcome; updated_at = timestamp }

unfoldable pub record_delivery_attempt : ℕ → MessageState → Datetime → Option Text → Exec Db ⊤
record_delivery_attempt delivery_id outcome now provider_message_id = do
  raise_if (not (is_attempt_outcome outcome)) value_error
  timestamp ← lift (timestamp_of now)
  transaction do
    d ← fetch_joined delivery_id
    raise_if (not (can_deliver d.state outcome)) invalid_transition
    insert_attempt delivery_id timestamp outcome provider_message_id
    move_both d outcome timestamp (concluded outcome provider_message_id timestamp)

abbrev pub without_audio : ℕ → Delivery → Delivery
without_audio timestamp d = record d { audio_data = none; updated_at = timestamp }

unfoldable pub clear_audio_data : ℕ → Datetime → Exec Db ⊤
clear_audio_data delivery_id now = do
  timestamp ← lift (timestamp_of now)
  transaction do
    d ← fetch_delivery delivery_id
    raise_if (not (is d.state sent)) invalid_transition
    rowcount ← update_delivery delivery_id sent (without_audio timestamp)
    raise_if (not (rowcount == 1)) database_invariant

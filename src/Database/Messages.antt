-- ===== src/Database/Messages.antt =====
-- The methods of `Database` on messages and their rejections
-- (src/personal_voice_msg/database.py). `normalized_hash` is the argument `hash`.
pub mod Differs
pub mod Approval
pub mod Rejecting
use personal_voice_msg.Prelude.{
  ℕ, zero, suc, Bool, not, ◌&&◌, ◌||◌, Option, none, some, [], ◌∷◌, ◌++◌, ◌==◌, any, if◌then◌else◌,
}
use personal_voice_msg.Prelude.Text.{Text, same_text, is_blank}
use personal_voice_msg.Exec.{
  Exec, ⊤, database_invariant, record_not_found, invalid_transition, value_error, integrity_error,
  other_error, pure, raise, lift, gets, modify, or_raise, raise_if, transaction, ◌>>=◌, ◌>>◌,
}
use personal_voice_msg.Rows.{find, count, update, next_id}
use personal_voice_msg.Scheduling.{Datetime}
use personal_voice_msg.Database.States.{
  MessageState, discovered, validated, queued, is, content_transition, is_content_step,
}
use personal_voice_msg.Database.Schema.{Message, Db, message_has_id}
use personal_voice_msg.Database.RecipientKey.{timestamp_of}

-- `SELECT ... FROM messages WHERE id = ?`, and `RecordNotFound` where there is none
unfoldable pub fetch_message : ℕ → Exec Db Message
fetch_message message_id = do
  row ← gets (λ db. find (message_has_id message_id) db.messages)
  or_raise record_not_found row

-- `WHERE id = ? AND state = ?`
abbrev pub message_in_state : ℕ → MessageState → Message → Bool
message_in_state message_id state m = m.id == message_id && is m.state state

-- `UPDATE messages SET state = ?, updated_at = ? WHERE id = ? AND state = ?` and its `rowcount`
unfoldable pub update_message_state : ℕ → MessageState → MessageState → ℕ → Exec Db ℕ
update_message_state message_id current target timestamp = do
  rowcount ← gets (λ db. count (message_in_state message_id current) db.messages)
  modify λ db. record db {
    messages =
        update (message_in_state message_id current)
          (λ m. record m { state = target; updated_at = timestamp }) db.messages;
  }
  pure rowcount

-- `_transition_message_in_transaction`
unfoldable pub transition_message_in_transaction : ℕ → MessageState → ℕ → Exec Db ⊤
transition_message_in_transaction message_id target timestamp = do
  m ← fetch_message message_id
  raise_if (not (is_content_step m.state target)) invalid_transition
  rowcount ← update_message_state message_id m.state target timestamp
  raise_if (not (rowcount == 1)) database_invariant

unfoldable pub transition_message : ℕ → MessageState → Datetime → Exec Db ⊤
transition_message message_id target now = do
  timestamp ← lift (timestamp_of now)
  transaction (transition_message_in_transaction message_id target timestamp)

-- `INSERT INTO message_rejections`, whose `message_id` is unique
unfoldable pub insert_rejection : ℕ → Text → ℕ → Exec Db ⊤
insert_rejection message_id reason timestamp = do
  rejections ← gets (λ db. db.rejections)
  raise_if (any (λ r. r.message_id == message_id) rejections) database_invariant
  modify λ db. record db {
    rejections =
        db.rejections
        ++ record {
          id = next_id (λ r. r.id) db.rejections;
          message_id = message_id;
          reason = reason;
          rejected_at = timestamp;
        }
          ∷ [];
  }

-- The first part of `reject_message`'s transaction: the walk to `VALIDATED`.
unfoldable pub walk_to_validated : ℕ → MessageState → ℕ → Exec Db ⊤
walk_to_validated message_id current timestamp =
    if is current discovered
    then transition_message_in_transaction message_id validated timestamp
    else raise_if (not (is current validated)) invalid_transition

unfoldable pub reject_message : ℕ → Text → Datetime → Exec Db ⊤
reject_message message_id reason now = do
  raise_if (is_blank reason) value_error
  timestamp ← lift (timestamp_of now)
  transaction do
    m ← fetch_message message_id
    walk_to_validated message_id m.state timestamp
    insert_rejection message_id reason timestamp

-- The `while` loop of `approve_message`. The states that lead to `QUEUED` are three, so fuel 4
-- is enough; running out of it is an error that the source does not have.
unfoldable pub approve_loop : ℕ → ℕ → MessageState → ℕ → Exec Db ⊤
approve_loop zero message_id current timestamp = raise other_error
approve_loop (suc fuel) message_id current timestamp =
    let again = λ (target : MessageState). approve_loop fuel message_id target timestamp in
    if is current queued then pure tt else (do
      target ← or_raise invalid_transition (content_transition current)
      transition_message_in_transaction message_id target timestamp
      again target)

unfoldable pub approve_message : ℕ → Datetime → Exec Db ⊤
approve_message message_id now = do
  timestamp ← lift (timestamp_of now)
  transaction do
    m ← fetch_message message_id
    raise_if (is m.state queued) invalid_transition
    approve_loop 4 message_id m.state timestamp

-- `WHERE state IN ('discovered', 'validated') AND NOT EXISTS (a rejection of it)`
abbrev pub is_unjudged : Db → Message → Bool
is_unjudged db m =
    (is m.state discovered || is m.state validated)
    && not (any (λ r. r.message_id == m.id) db.rejections)

abbrev pub id_and_text : Option Message → Option (ℕ × Text)
id_and_text none = none
id_and_text (some m) = some (m.id, m.text)

unfoldable pub next_unjudged_message : Exec Db (Option (ℕ × Text))
next_unjudged_message = gets (λ db. id_and_text (find (is_unjudged db) db.messages))

abbrev pub is_queued : Message → Bool
is_queued m = is m.state queued

unfoldable pub count_queued_messages : Exec Db ℕ
count_queued_messages = gets (λ db. count is_queued db.messages)

unfoldable pub get_message_state : ℕ → Exec Db MessageState
get_message_state message_id = do m ← fetch_message message_id; pure m.state

unfoldable pub get_message_text : ℕ → Exec Db Text
get_message_text message_id = do m ← fetch_message message_id; pure m.text

module _ (hash : Text → Text) where
  -- `_create_message_in_transaction`, called inside a transaction; `message_history` has a
  -- unique index on the hash
  unfoldable pub create_message_in_transaction : Text → Datetime → Exec Db ℕ
  create_message_in_transaction text now = do
    raise_if (is_blank text) value_error
    timestamp ← lift (timestamp_of now)
    message_id ← gets (λ db. next_id (λ m. m.id) db.messages)
    modify λ db. record db {
      messages =
          db.messages
          ++ record {
            id = message_id;
            text = text;
            state = discovered;
            created_at = timestamp;
            updated_at = timestamp;
          }
            ∷ [];
    }
    history ← gets (λ db. db.message_history)
    raise_if (any (λ h. same_text h.normalized_hash (hash text)) history) integrity_error
    modify λ db. record db {
      message_history =
          db.message_history
          ++ record { message_id = message_id; normalized_hash = hash text } ∷ [];
    }
    pure message_id

-- ===== src/Delivery.antt =====
-- src/personal_voice_msg/delivery.py, with `produce_voice_note` and `remove_audio_after_delivery`
-- of src/personal_voice_msg/audio_pipeline.py.
pub mod Budget
pub mod AtMostOnce
pub mod Ticks
pub mod KillSwitch
pub mod Transitions
pub mod OnePerDate
pub mod Concluding
pub mod Asking
pub mod Finishing
use personal_voice_msg.Prelude.{ℕ, Bool, not, Option, none, some, ◌++◌, if◌then◌else◌}
use personal_voice_msg.Prelude.Text.{Text, Bytes, codes, same_text}
use personal_voice_msg.Prelude.Decimal.{decimal}
use personal_voice_msg.Exec.{
  Result, ok, err, Exec, ⊤, value_error, poll_error, audio_error, other_error, sender_rejected,
  sender_blocked, sender_ambiguous, pure, raise, lift, or_raise, raise_if, attempt, ◌>>=◌, ◌>>◌,
}
use personal_voice_msg.Scheduling.{
  Datetime, aware, naive, Zone, daily_send, planned_triggers_for_date, classify_trigger,
  first_of_kind, is_due,
}
use personal_voice_msg.Database.States.{
  MessageState, queued, reserved, audio_ready, sending, sent, failed, delivery_unknown,
  blocked_by_user, is,
}
use personal_voice_msg.Database.Schema.{Db}
use personal_voice_msg.Database.RecipientKey.{recipient_key_for_chat_id}
use personal_voice_msg.Database.Messages.{get_message_text}
use personal_voice_msg.Database.Deliveries.{
  Reservation, reserve_next_message, transition_delivery, mark_audio_ready, record_delivery_attempt,
  clear_audio_data,
}
use personal_voice_msg.Database.DeliveryReads.{
  get_audio_data, get_delivery_for_date, get_delivery_state, get_delivery_updated_at,
  get_delivery_message_id,
}
use personal_voice_msg.Database.Control.{is_sending_enabled, disable_sending}
use personal_voice_msg.World.{Platform, Settings, Tick, World, on_db}
use personal_voice_msg.Sender.{sign_request, send_voice_note, unix_seconds}
use personal_voice_msg.Consent.{poll_inbound_stop}

-- `idempotency_key = f"delivery-{delivery_id}"`
unfoldable pub delivery_key : ℕ → Text
delivery_key delivery_id = codes "delivery-" ++ decimal delivery_id

-- The instant of an aware `now`; `run_daily_send` has refused any other when it asks for it.
abbrev pub instant : Datetime → ℕ
instant (aware t) = t
instant (naive t) = t

-- `produce_voice_note`, less the temporary files, which it removes on every way out
unfoldable pub produce_voice_note : Tick → ℕ → Text → Exec World Bytes
produce_voice_note tick delivery_id text = do
  audio_bytes ← lift (tick.synthesis text)
  on_db (mark_audio_ready delivery_id audio_bytes tick.now)
  pure audio_bytes

unfoldable pub remove_audio_after_delivery : ℕ → Datetime → Exec Db ⊤
remove_audio_after_delivery delivery_id now = do
  state ← get_delivery_state delivery_id
  raise_if (not (is state sent)) audio_error
  clear_audio_data delivery_id now

-- The `except` clauses and the `else` of the send: what is recorded, and the state returned.
unfoldable pub conclude : ℕ → Datetime → Result Text → Exec World MessageState
conclude delivery_id now (err sender_blocked) = do
  on_db (disable_sending blocked_by_user now)
  on_db (record_delivery_attempt delivery_id failed now none)
  pure failed
conclude delivery_id now (err sender_rejected) = do
  on_db (record_delivery_attempt delivery_id failed now none)
  pure failed
conclude delivery_id now (err sender_ambiguous) = do
  on_db (record_delivery_attempt delivery_id delivery_unknown now none)
  pure delivery_unknown
conclude delivery_id now (err e) = raise e
conclude delivery_id now (ok provider_message_id) = do
  on_db (record_delivery_attempt delivery_id sent now (some provider_message_id))
  pure sent

-- A delivery found in `SENDING` is recorded as ambiguous, as of when it entered that state.
unfoldable pub give_up_sending : ℕ → Exec World MessageState
give_up_sending delivery_id = do
  started ← on_db (get_delivery_updated_at delivery_id)
  on_db (record_delivery_attempt delivery_id delivery_unknown (aware started) none)
  pure delivery_unknown

-- A delivery that a call works on: its id, its message's id and its state.
pub record Located : Type 0 where
  pub delivery_id : ℕ
  pub message_id : ℕ
  pub state : MessageState

module _ (p : Platform) (settings : Settings) (recipient_key : Text) (tick : Tick) where
  -- The branch `if state is MessageState.AUDIO_READY`.
  unfoldable pub send_ready : ℕ → Exec World MessageState
  send_ready delivery_id = do
    raise_if (not (same_text recipient_key (recipient_key_for_chat_id settings.telegram_chat_id)))
        value_error
    audio_bytes ← on_db (get_audio_data delivery_id)
    on_db (transition_delivery delivery_id sending tick.now)
    let idempotency_key = delivery_key delivery_id
    let timestamp = unix_seconds (instant tick.now)
    let signature = sign_request p settings.sender_auth_key idempotency_key timestamp
    result ← attempt (
        send_voice_note p settings audio_bytes idempotency_key timestamp signature
          (instant tick.now) tick)
    conclude delivery_id tick.now result

  -- The branch `if state is MessageState.FAILED`, and the state after it.
  unfoldable pub retry_failed : ℕ → MessageState → Exec World MessageState
  retry_failed delivery_id state =
      if is state failed
      then (do on_db (transition_delivery delivery_id audio_ready tick.now); pure audio_ready)
      else pure state

  -- The branch `if state is MessageState.RESERVED`, and the state after it.
  unfoldable pub produce_reserved : ℕ → ℕ → MessageState → Exec World MessageState
  produce_reserved delivery_id message_id state =
      if is state reserved
      then (do
        text ← on_db (get_message_text message_id)
        produce_voice_note tick delivery_id text
        pure audio_ready)
      else pure state

  -- What follows once sending is known to be enabled.
  unfoldable pub advance : Located → Exec World MessageState
  advance found = do
    state ← retry_failed found.delivery_id found.state
    if is state delivery_unknown then pure delivery_unknown else (do
      ready ← produce_reserved found.delivery_id found.message_id state
      if is ready audio_ready then send_ready found.delivery_id else pure ready)

  unfoldable pub resume_delivery : Bool → Option Located → Exec World MessageState
  resume_delivery sending_enabled none = pure queued
  resume_delivery sending_enabled (some found) =
      if is found.state sending
      then give_up_sending found.delivery_id
      else if not sending_enabled
      then pure found.state
      else advance found

-- The delivery of a fresh reservation, or else the one that the date already has.
unfoldable pub existing_delivery : Option ℕ → Exec Db (Option Located)
existing_delivery none = pure none
existing_delivery (some delivery_id) = do
  message_id ← get_delivery_message_id delivery_id
  state ← get_delivery_state delivery_id
  pure (some (record { delivery_id = delivery_id; message_id = message_id; state = state }))

unfoldable pub locate : Text → ℕ → Option Reservation → Exec Db (Option Located)
locate recipient_key date (some r) =
    pure (some (record { delivery_id = r.delivery_id; message_id = r.message_id; state = r.state }))
locate recipient_key date none = do
  existing ← get_delivery_for_date recipient_key date
  existing_delivery existing

-- Whether `now` lies in the send window of the date.
unfoldable pub send_window_open : Zone → ℕ → Datetime → Exec World Bool
send_window_open z date now = do
  trigger ← or_raise other_error (first_of_kind daily_send (planned_triggers_for_date z date))
  status ← lift (classify_trigger trigger now)
  pure (is_due status)

module _ (z : Zone) (p : Platform) (settings : Settings) (recipient_key : Text) (date : ℕ)
    (tick : Tick) where
  unfoldable pub run_daily_send : Exec World MessageState
  run_daily_send = do
    open_now ← send_window_open z date tick.now
    raise_if (not open_now) value_error
    sending_enabled ← on_db is_sending_enabled
    reservation ←
        if sending_enabled
        then on_db (reserve_next_message recipient_key date tick.now)
        else pure none
    found ← on_db (locate recipient_key date reservation)
    resume_delivery p settings recipient_key tick sending_enabled found

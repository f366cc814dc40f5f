-- ===== src/Sender.antt =====
-- src/personal_voice_msg/sender.py: signing, freshness, and the one request to Telegram.
pub mod Effects
pub mod Requests
pub mod Guards
pub mod Replays
use personal_voice_msg.Prelude.{
  ℕ, ◌+◌, ◌-◌, ◌*◌, ◌/◌, Bool, false, ◌&&◌, not, Option, none, some, [], ◌∷◌, ◌++◌, ◌==◌, leb, ltb,
  any, if◌then◌else◌,
}
use personal_voice_msg.Prelude.Text.{Text, Bytes, codes, same_text, contains}
use personal_voice_msg.Prelude.Decimal.{decimal}
use personal_voice_msg.Prelude.Json.{
  Json, Loaded, null, string, object, loaded, decode_error, unicode_error, digits_error,
  recursion_error, get, get_or_null, truthy,
}
use personal_voice_msg.Exec.{
  Error, Result, ok, err, Exec, replay_detected, audio_error, sender_rejected, sender_blocked,
  sender_ambiguous, unicode_decode_error, value_error, other_error, killed, lift, raise_if, recast,
  ◌>>◌,
}
use personal_voice_msg.Scheduling.{aware, seconds}
use personal_voice_msg.Database.Control.{record_sender_nonce}
use personal_voice_msg.World.{
  Platform, Settings, Response, no_response, terminated, answered, Tick, World, on_db,
}
use personal_voice_msg.World.Body.{max_response_bytes, read_bounded}

-- `REPLAY_WINDOW_SECONDS`
abbrev pub replay_window_seconds : ℕ
replay_window_seconds = 300

-- 1970-01-01T00:00 UTC
abbrev pub epoch : ℕ
epoch = seconds (719162 * 86400)

-- `int(now.timestamp())`, for an instant that is not before 1970
abbrev pub unix_seconds : ℕ → ℕ
unix_seconds now = (now - epoch) / 1000000

module _ (p : Platform) where
  unfoldable pub sign_request : Text → Text → ℕ → Text
  sign_request key idempotency_key timestamp =
      p.hmac key (decimal timestamp ++ codes ":" ++ idempotency_key)

  unfoldable pub verify_signature : Text → Text → ℕ → Text → Bool
  unfolding sign_request same_text
  verify_signature key idempotency_key timestamp signature =
      same_text (sign_request key idempotency_key timestamp) signature

-- `abs(now.timestamp() - timestamp) <= REPLAY_WINDOW_SECONDS`, in microseconds
unfoldable pub is_fresh : ℕ → ℕ → Bool
is_fresh timestamp now =
    leb (now - epoch - seconds timestamp) (seconds replay_window_seconds)
    && leb (seconds timestamp - (now - epoch)) (seconds replay_window_seconds)

-- `_DEFINITE_REJECTION_STATUS_CODES`
unfoldable pub is_definite_rejection : ℕ → Bool
is_definite_rejection status = any (λ s. s == status) (400 ∷ 401 ∷ 403 ∷ 404 ∷ 429 ∷ [])

-- The diagnostic text of `_describe_rejection`: what it is made of.
pub data Description : Type 0 where
  unparseable : Description
  detail : Json → Json → Json → Description

abbrev retry_after : Json → Json
retry_after (object parameters) = get_or_null (codes "retry_after") parameters
retry_after _ = null

-- `_describe_rejection`. Only `JSONDecodeError` and `AttributeError` are caught: every other
-- exception of `json.loads` passes.
unfoldable pub describe_rejection : Loaded → Result Description
unfolding get_or_null
describe_rejection (loaded (object payload)) = ok (
    detail (get_or_null (codes "error_code") payload) (get_or_null (codes "description") payload)
      (retry_after (get_or_null (codes "parameters") payload)))
describe_rejection (loaded _) = ok unparseable
describe_rejection decode_error = ok unparseable
describe_rejection unicode_error = err unicode_decode_error
describe_rejection digits_error = err value_error
describe_rejection recursion_error = err other_error

abbrev names_block : Json → Bool
names_block (string description) = contains (codes "blocked by the user") description
names_block _ = false

-- `_is_blocked_by_user`, which catches every `ValueError` and `AttributeError`
unfoldable pub is_blocked_by_user : Loaded → Result Bool
unfolding get_or_null contains
is_blocked_by_user (loaded (object payload)) =
    ok (names_block (get_or_null (codes "description") payload))
is_blocked_by_user recursion_error = err other_error
is_blocked_by_user _ = ok false

-- `raise E(f"... {_describe_rejection(body)}")`: the description may raise first.
abbrev raise_described : Error → Result Description → Result Text
raise_described e (ok description) = err e
raise_described e (err other) = err other

abbrev replay_as_rejection : Error → Error
replay_as_rejection replay_detected = sender_rejected
replay_as_rejection e = e

abbrev audio_as_rejection : Error → Error
audio_as_rejection audio_error = sender_rejected
audio_as_rejection e = e

module _ (p : Platform) where
  abbrev message_id_text : Option Json → Result Text
  message_id_text (some (object result)) = elim (get (codes "message_id") result) [
    | none ↦ err sender_ambiguous
    | some id ↦ ok (p.str id)
  ]
  message_id_text _ = err sender_ambiguous

  -- The end of `send_voice_note`: the payload of a complete answer 200.
  unfoldable pub provider_message_id : Loaded → Result Text
  unfolding get get_or_null truthy
  provider_message_id (loaded (object payload)) =
      if truthy (get_or_null (codes "ok") payload)
      then message_id_text (get (codes "result") payload)
      else err sender_ambiguous
  provider_message_id (loaded _) = err sender_ambiguous
  provider_message_id decode_error = err sender_ambiguous
  provider_message_id unicode_error = err unicode_decode_error
  provider_message_id digits_error = err value_error
  provider_message_id recursion_error = err other_error

  -- `status == 403 and _is_blocked_by_user(body)`
  abbrev pub blocks : ℕ → Loaded → Result Bool
  blocks status answer = if status == 403 then is_blocked_by_user answer else ok false

  -- What follows that test.
  abbrev pub judge_unless : Result Bool → ℕ → Bytes → ℕ → Result Text
  judge_unless (err e) status body total = err e
  judge_unless (ok blocked) status body total =
      if blocked
      then raise_described sender_blocked (describe_rejection (p.loads body))
      else if is_definite_rejection status
      then raise_described sender_rejected (describe_rejection (p.loads body))
      else if not (status == 200)
      then err sender_ambiguous
      else if ltb max_response_bytes total
      then err sender_ambiguous
      else provider_message_id (p.loads body)

  -- What `send_voice_note` makes of a received answer.
  unfoldable pub judge_answer : ℕ → Bytes → ℕ → Result Text
  unfolding is_blocked_by_user describe_rejection is_definite_rejection provider_message_id
  judge_answer status body total = judge_unless (blocks status (p.loads body)) status body total

  unfoldable pub judge_response : Response → Result Text
  unfolding judge_answer read_bounded
  judge_response no_response = err sender_ambiguous
  judge_response terminated = err killed
  judge_response (answered status chunks) =
      let (body, total) = read_bounded 0 chunks in judge_answer status body total

  -- `session.post(...)`: whatever the answer, the note may have been delivered.
  unfoldable pub post : Text → Tick → Exec World Text
  post idempotency_key tick w = (
    judge_response tick.reply,
    record w { outbox = if tick.delivered then w.outbox ++ idempotency_key ∷ [] else w.outbox },
  )

  unfoldable pub send_voice_note : Settings → Bytes → Text → ℕ → Text → ℕ → Tick → Exec World Text
  send_voice_note settings audio_bytes idempotency_key timestamp signature now tick = do
    raise_if (not (verify_signature p settings.sender_auth_key idempotency_key timestamp signature))
        sender_rejected
    raise_if (not (is_fresh timestamp now)) sender_rejected
    recast replay_as_rejection (
        on_db (
          record_sender_nonce idempotency_key timestamp
            (aware (now + seconds replay_window_seconds))))
    recast audio_as_rejection (lift (tick.audio_check audio_bytes))
    post idempotency_key tick

-- ===== src/Consent.antt =====
-- src/personal_voice_msg/consent.py: the poll for a STOP of the enrolled chat.
pub mod Effects
pub mod Stopping
pub mod Reading
pub mod Failing
use personal_voice_msg.Prelude.{
  ℕ, Bool, true, false, ◌&&◌, ◌||◌, not, Option, none, some, ltb, if◌then◌else◌,
}
use personal_voice_msg.Prelude.Text.{Bytes, codes, same_text}
use personal_voice_msg.Prelude.Int.{ℤ, ltb_ℤ, suc_ℤ}
use personal_voice_msg.Prelude.Json.{
  recursion_error, Json, Items, Loaded, boolean, integer, string, array, object, nil, cons, loaded,
  get_or_null, equals_number,
}
use personal_voice_msg.Exec.{
  Result, ok, err, Exec, ⊤, poll_error, other_error, killed, pure, lift, ◌>>=◌, ◌>>◌,
}
use personal_voice_msg.Scheduling.{Datetime}
use personal_voice_msg.Database.States.{stop_command}
use personal_voice_msg.Database.Control.{
  is_sending_enabled, disable_sending, get_telegram_inbound_offset, set_telegram_inbound_offset,
}
use personal_voice_msg.World.{
  Platform, Settings, Response, no_response, terminated, answered, Tick, World, on_db,
}
use personal_voice_msg.World.Body.{max_response_bytes, read_bounded}

-- `_parse_getupdates_body`, which catches every `ValueError`, but not `RecursionError`
unfoldable pub parse_getupdates_body : Loaded → Result Json
parse_getupdates_body (loaded payload) = ok payload
parse_getupdates_body recursion_error = err other_error
parse_getupdates_body _ = err poll_error

abbrev pub chat_id_is : ℕ → Json → Bool
chat_id_is enrolled (object chat) = equals_number (get_or_null (codes "id") chat) enrolled
chat_id_is enrolled _ = false

abbrev pub is_stop_text : Json → Bool
is_stop_text (string text) = same_text text (codes "STOP")
is_stop_text _ = false

-- `chat_id == enrolled_chat_id and message.get("text") == STOP_TEXT`, for a message that is a dict
abbrev pub is_stop_message : ℕ → Json → Bool
is_stop_message enrolled (object message) =
    chat_id_is enrolled (get_or_null (codes "chat") message)
    && is_stop_text (get_or_null (codes "text") message)
is_stop_message enrolled _ = false

-- The larger of the largest update id so far and the next.
abbrev pub raise_max : Option ℤ → ℤ → ℤ
raise_max none id = id
raise_max (some best) id = if ltb_ℤ best id then id else best

-- The fields of one update that the loop reads: its id, which must be an `int`, and its message.
abbrev pub read_update : Json → Result (ℤ × Json)
read_update (object update) = elim (get_or_null (codes "update_id") update) [
  | integer id ↦ ok (id, get_or_null (codes "message") update)
  | _ ↦ err poll_error
]
read_update _ = err poll_error

abbrev then_pair :
    Result (ℤ × Json) → (ℤ → Json → Result (Option ℤ × Bool)) → Result (Option ℤ × Bool)
then_pair (ok (id, message)) f = f id message
then_pair (err e) f = err e

-- The loop of `_process_updates`.
unfoldable pub scan_updates : ℕ → Items → Option ℤ → Bool → Result (Option ℤ × Bool)
unfolding get_or_null equals_number same_text
scan_updates enrolled nil best stop_found = ok (best, stop_found)
scan_updates enrolled (cons update updates) best stop_found =
    then_pair (read_update update) λ id message.
      scan_updates enrolled updates (some (raise_max best id))
        (is_stop_message enrolled message || stop_found)

abbrev next_offset : Option ℤ → Option ℤ
next_offset none = none
next_offset (some id) = some (suc_ℤ id)

abbrev finish_scan : Result (Option ℤ × Bool) → Result (Option ℤ × Bool)
finish_scan (ok (best, stop_found)) = ok (next_offset best, stop_found)
finish_scan (err e) = err e

abbrev is_true : Json → Bool
is_true (boolean true) = true
is_true _ = false

-- `_process_updates`: the new offset, and whether a STOP was found
unfoldable pub process_updates : Json → ℕ → Result (Option ℤ × Bool)
unfolding scan_updates
process_updates (object payload) enrolled =
    if is_true (get_or_null (codes "ok") payload)
    then elim (get_or_null (codes "result") payload) [
      | array updates ↦ finish_scan (scan_updates enrolled updates none false)
      | _ ↦ err poll_error
    ]
    else err poll_error
process_updates _ enrolled = err poll_error

-- The body of a `getUpdates` answer; its status is not looked at.
unfoldable pub received_body : Response → Result Bytes
unfolding read_bounded
received_body no_response = err poll_error
received_body terminated = err killed
received_body (answered status chunks) =
    let (body, total) = read_bounded 0 chunks in
    if ltb max_response_bytes total then err poll_error else ok body

unfoldable pub store_offset : Option ℤ → Datetime → Exec World ⊤
store_offset none now = pure tt
store_offset (some offset) now = on_db (set_telegram_inbound_offset offset now)

unfoldable pub poll_inbound_stop : Platform → Settings → Tick → Exec World Bool
poll_inbound_stop p settings tick = do
  offset ← on_db get_telegram_inbound_offset
  body ← lift (received_body (tick.updates offset))
  payload ← lift (parse_getupdates_body (p.loads body))
  found ← lift (process_updates payload settings.telegram_chat_id)
  if found.1 then on_db (disable_sending stop_command tick.now) else pure tt
  store_offset found.0 tick.now
  enabled ← on_db is_sending_enabled
  pure (not enabled)

-- ===== src/Tests/Fixture.antt =====
-- A time zone, library functions and ticks for the runs.
use personal_voice_msg.Prelude.{ℕ, zero, suc, ◌+◌, ◌*◌, ◌/◌, ◌-◌, Bool, true, [], ◌∷◌, ◌++◌}
use personal_voice_msg.Prelude.Text.{Bytes, codes}
use personal_voice_msg.Prelude.Int.{pos}
use personal_voice_msg.Prelude.Json.{
  Json, Loaded, boolean, integer, string, array, object, nil, cons, end, field, loaded,
  decode_error, unicode_error,
}
use personal_voice_msg.Exec.{ok}
use personal_voice_msg.Scheduling.{Zone, aware, seconds}
use personal_voice_msg.Database.States.{queued}
use personal_voice_msg.Database.Schema.{Message, fresh}
use personal_voice_msg.World.{Platform, Settings, Response, answered, Tick, World}

-- A zone eight hours behind UTC, all year.
abbrev pub zone : Zone
zone = record {
  instant_of = λ date wall. seconds ((date - 1) * 86400 + wall + 28800);
  date_of = λ t. (t - seconds 28800) / seconds 86400 + 1;
}

-- Bodies of the runs, told apart by their first byte.
abbrev pub stop : Json
stop = object (
    field (codes "update_id") (integer (pos 9)) (
      field (codes "message")
        (object (
          field (codes "chat") (object (field (codes "id") (integer (pos 42)) end))
            (field (codes "text") (string (codes "STOP")) end)))
        end))

abbrev pub stop_payload : Json
stop_payload =
    object (field (codes "ok") (boolean true) (field (codes "result") (array (cons stop nil)) end))

abbrev body_json : Bytes → Loaded
body_json [] = decode_error
body_json (zero ∷ r) = unicode_error
body_json (suc zero ∷ r) = loaded (
    object (
      field (codes "ok") (boolean true)
        (field (codes "result") (object (field (codes "message_id") (integer (pos 77)) end)) end)))
body_json (suc (suc zero) ∷ r) =
    loaded (object (field (codes "ok") (boolean true) (field (codes "result") (array nil) end)))
body_json (suc (suc (suc zero)) ∷ r) = loaded stop_payload
body_json (suc (suc (suc (suc n))) ∷ r) = loaded (
    object
      (field (codes "description") (string (codes "Forbidden: bot was blocked by the user")) end))

abbrev pub platform : Platform
platform = record {
  hmac = λ key message. key ++ message;
  loads = body_json;
  str = λ value. codes "77";
}

abbrev pub settings : Settings
settings = record { telegram_chat_id = 42; sender_auth_key = codes "key" }

-- The fifth minute of the send window is over at 300 seconds.
abbrev pub send_time : ℕ → ℕ
send_time offset = seconds (739999 * 86400 + 25200 + 28800 + offset)

-- A tick so many seconds after 07:00, with an answer to `sendVoice` and whether it delivers.
abbrev pub tick_at : ℕ → Response → Bool → Tick
tick_at offset reply delivered = record {
  now = aware (send_time offset);
  updates = λ o. answered 200 ((2 ∷ []) ∷ []);
  synthesis = λ text. ok (1 ∷ 2 ∷ 3 ∷ []);
  audio_check = λ audio. ok tt;
  reply = reply;
  delivered = delivered;
}

abbrev pub accepted : Response
accepted = answered 200 ((1 ∷ []) ∷ [])

abbrev pub refused : Response
refused = answered 429 ((2 ∷ []) ∷ [])

abbrev pub undecodable : Response
undecodable = answered 400 ((0 ∷ []) ∷ [])

abbrev pub blocked : Response
blocked = answered 403 ((4 ∷ []) ∷ [])

abbrev pub stopping : Tick
stopping = record (tick_at 60 accepted true) { updates = λ o. answered 200 ((3 ∷ []) ∷ []) }

abbrev pub message : Message
message = record { id = 1; text = codes "Hello."; state = queued; created_at = 0; updated_at = 0 }

abbrev pub one_queued : World
one_queued = record { db = record fresh { messages = message ∷ [] }; outbox = [] }

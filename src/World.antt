-- ===== src/World.antt =====
-- What the delivery code runs in: the database, the notes that Telegram has delivered, and what
-- the outside answers during one run of the entrypoint. Sockets and files are not modelled; a
-- call of the network is one answer, which an argument gives.
pub mod Body
pub mod Runs
pub mod Quiet
use personal_voice_msg.Prelude.{ℕ, Bool, Option, List}
use personal_voice_msg.Prelude.Text.{Text, Bytes}
use personal_voice_msg.Prelude.Int.{ℤ}
use personal_voice_msg.Prelude.Json.{Json, Loaded}
use personal_voice_msg.Exec.{Result, ⊤, Exec}
use personal_voice_msg.Scheduling.{Datetime}
use personal_voice_msg.Database.Schema.{Db}

-- The library functions that the sender calls.
pub record Platform : Type 0 where
  -- `hmac.new(key, message, hashlib.sha256).hexdigest()`, on texts that are encoded first
  pub hmac : Text → Text → Text
  -- `json.loads` of a body
  pub loads : Bytes → Loaded
  -- `str` of a loaded value
  pub str : Json → Text

-- The settings that the delivery code reads (`Settings` of config.py, revealed).
pub record Settings : Type 0 where
  pub telegram_chat_id : ℕ
  pub sender_auth_key : Text

-- How a request to Telegram ends.
pub data Response : Type 0 where
  -- `aiohttp.ClientError` or `TimeoutError`, before or while the body is read
  no_response : Response
  -- the process ends while it waits
  terminated : Response
  -- a status, and the body in the chunks in which it arrives
  answered : ℕ → List Bytes → Response

-- What one run of the entrypoint meets.
pub record Tick : Type 0 where
  pub now : Datetime
  -- the answer to `getUpdates` at the offset that the request carries
  pub updates : Option ℤ → Response
  -- what synthesis, conversion, validation and reading back make of a text
  pub synthesis : Text → Result Bytes
  -- `validate_audio` on the file that the sender writes
  pub audio_check : Bytes → Result ⊤
  -- the answer to `sendVoice`
  pub reply : Response
  -- whether Telegram delivers the note of that request
  pub delivered : Bool

pub record World : Type 0 where
  pub db : Db
  -- the idempotency keys of the notes that Telegram has delivered, in order
  pub outbox : List Text

-- A method of the database, run in the world.
unfoldable pub on_db : {A : Type 0} → Exec Db A → Exec World A
on_db m w = let (r, db') = m w.db in (r, record w { db = db' })

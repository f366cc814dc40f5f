-- ===== src/Lib.antt =====
-- The personal voice message sender: a timer starts a process that polls Telegram for a STOP,
-- reserves a queued message for the day, synthesises it, and sends it as one voice note.
--
-- The parts of the program and the files that model them (paths from the repository's root):
--
--   src/personal_voice_msg/scheduling.py              Scheduling: triggers, windows
--   src/personal_voice_msg/database.py                Database/*: States (the enumerations and
--     transition tables), Schema (the tables of schema version 8 as lists of rows), RecipientKey,
--     Messages, Deliveries, DeliveryReads, Control (switch, cursor, nonces), DailyRuns; Views is
--     the abstract view that forgets all of a delivery but its state
--   src/personal_voice_msg/sender.py                  Sender: signing, freshness, one request
--   src/personal_voice_msg/consent.py                 Consent: the poll for a STOP
--   src/personal_voice_msg/delivery.py, audio_pipeline.py   Delivery: one step of the day
--   src/personal_voice_msg/daily_send_entrypoint.py,
--   scripts/run_daily_entrypoint.py                   Entrypoint: one process, many processes
--   src/personal_voice_msg/normalization.py           Normalization
--   src/personal_voice_msg/history.py                 History: the duplicate gate
--   src/personal_voice_msg/judging/*.py               Judging: Phrases, Gates, Judge, the decision
--   src/personal_voice_msg/queue_refill.py            QueueRefill: judging until the queue is full
--   src/personal_voice_msg/discovery/web.py           Discovery/*: Library (what it uses of Python's
--     library), Url, Policy, Response, Redirect and Fetch (the loop over redirects), Resolver,
--     Metadata, Session
--   src/personal_voice_msg/discovery/baseline.py      Discovery/*: Rules, Search, Analysis, Baseline
--   src/personal_voice_msg/discovery/inspiration.py   Generation/Cards
--   src/personal_voice_msg/generation/*.py            Generation: Gemini, Sentence; Config (its keys)
--   src/personal_voice_msg/config.py                  Config
--   src/personal_voice_msg/recipient_enrollment.py    Enrollment
--
-- How they interact: `run_process` computes the date and the recipient and calls
-- `run_daily_entrypoint`, which polls (Consent) and then calls `run_daily_send` (Delivery), which
-- calls the database and `send_voice_note` (Sender). A function keeps the name it has in the
-- source, and a local part of a function is named for what it does.
--
-- State: a method of `Database` is an `Exec Db A`: from a database to a result and a database. A
-- write before an exception stays, unless a `transaction` undoes it, as `BEGIN IMMEDIATE` with the
-- rollback of `_transaction` does. What talks to Telegram is an `Exec World A`: the database and
-- the list of notes that Telegram has delivered. A `Tick` holds what one process meets: the time,
-- the answers of `getUpdates` and `sendVoice`, whether Telegram delivers the note (which the answer
-- does not tell), and what the audio tools return. An answer can be missing, and the process can be
-- killed while it waits for it. `Platform` holds HMAC-SHA256, `json.loads` and `str`, `Zone` the
-- time zone database, `Unicode` the Unicode tables. They are arguments, about which nothing is
-- assumed but what a theorem says.
--
-- Proof method: `Exec/Ends` has a rule for each way to build an action, for a postcondition of its
-- value and one of its error; `Exec/Keeps` is the case of a predicate that every end keeps.
--
-- Bounds and fuel: integers are natural numbers, or ℤ where Telegram's ids may be negative; instants
-- are microseconds since the year 1, dates are ordinals. The loop of `approve_message` runs on fuel
-- 4, since three transitions lead to QUEUED (Database/Messages/Approval). The loop of `refill_queue`
-- runs on more fuel than there are messages that wait for a decision, of which each round leaves
-- fewer (QueueRefill/Filling). The loop over redirects runs for one round more than the redirects
-- that are allowed (Discovery/Rounds). Every other loop is structural.
--
-- Not modelled: the migrations, redaction, the enrollment of the voice, the discovery worker, the
-- development scripts, and the inside of the audio tools. Concurrent
-- processes are run one after the other: each transaction is serialised by SQLite, but an
-- interleaving of the transactions of two processes is not.
pub mod Prelude
pub mod Exec
pub mod Scheduling
pub mod Rows
pub mod Database
pub mod World
pub mod Sender
pub mod Consent
pub mod Delivery
pub mod Entrypoint
pub mod Normalization
pub mod Judging
pub mod History
pub mod QueueRefill
pub mod Discovery
pub mod Generation
pub mod Config
pub mod Enrollment
mod Tests

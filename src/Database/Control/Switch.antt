-- ===== src/Database/Control/Switch.antt =====
-- The sending switch and its event log (src/personal_voice_msg/database.py).
use personal_voice_msg.Prelude.{
  ℕ, ◌≡◌, refl, ap, ◌∙◌, Bool, true, false, not, Option, none, some, List, [], ◌∷◌, ◌++◌, arith,
  if◌then◌else◌,
}
use personal_voice_msg.Prelude.Text.{Text}
use personal_voice_msg.Exec.Keeps.{Keeps, Keeps-of_Ends}
use personal_voice_msg.Exec.Ends.{
  Ends-bind, Ends-lift, Ends-gets, Ends-if, Ends-pure, Ends-modify, Ends-transaction, Ends-raise_if,
}
use personal_voice_msg.Scheduling.{Datetime}
use personal_voice_msg.Database.States.{DisableReason}
use personal_voice_msg.Database.Schema.{ControlEvent, Db, fresh}
use personal_voice_msg.Database.Control.{enabled_of, switched, disable_sending, enable_sending}

-- The switch after the events of a log, from a given position; none where an event does not
-- change the position.
abbrev pub replay : Bool → List ControlEvent → Option Bool
replay enabled [] = some enabled
replay true (e ∷ events) = if e.enabled then none else replay false events
replay false (e ∷ events) = if e.enabled then replay true events else none

replay-append :
    (before now : Bool) (events : List ControlEvent) (e : ControlEvent)
    → replay before events ≡ some now
    → e.enabled ≡ not now
    → replay before (events ++ e ∷ []) ≡ some (not now)
replay-append true now [] e h f = ground arith
replay-append false now [] e h f = ground arith
replay-append true now (x ∷ events) e h f = ground (arith, replay-append false now events e)
replay-append false now (x ∷ events) e h f = ground (arith, replay-append true now events e)

-- Every event of the log changed the switch, and the last one left it as it is.
abbrev pub IsLogged : Db → Type 0
IsLogged db = replay true db.control_events ≡ some (enabled_of db.control)

pub fresh-IsLogged : IsLogged fresh
fresh-IsLogged = refl

abbrev event : Bool → Option DisableReason → Option Text → ℕ → ControlEvent
event enabled reason note timestamp = record {
  enabled = enabled;
  reason = reason;
  note = note;
  changed_at = timestamp;
}

switched-IsLogged :
    (enabled : Bool) (reason : Option DisableReason) (note : Option Text) (timestamp : ℕ) (db : Db)
    → IsLogged db
    → enabled_of db.control ≡ not enabled
    → IsLogged (switched enabled reason note timestamp db)
switched-IsLogged true reason note timestamp db l off =
    replay-append true false db.control_events (event true reason note timestamp) (l ∙ ap some off)
      refl
switched-IsLogged false reason note timestamp db l on =
    replay-append true true db.control_events (event false reason note timestamp) (l ∙ ap some on)
      refl

was_on : (b : Bool) → not b ≡ false → b ≡ true
was_on true h = refl
was_on false h = cc

-- `disable_sending` keeps the log in step with the switch: it adds an event exactly where it
-- switches.
pub disable_sending-IsLogged :
    (reason : DisableReason) (now : Datetime) → Keeps IsLogged (disable_sending reason now)
unfolding disable_sending
disable_sending-IsLogged reason now = Keeps-of_Ends _ λ db l. Ends-bind _ _ db (
    Ends-lift _ db
      (λ timestamp _. Ends-transaction _ db (
        Ends-bind _ _ db (
          Ends-gets _ db (
            Ends-if (not (enabled_of db.control)) _ _ db (λ _. Ends-pure _ db l)
              (λ on. Ends-modify _ db (
                switched-IsLogged false (some reason) none timestamp db l
                  (was_on (enabled_of db.control) on)))))))
      (λ e _. l))

-- `enable_sending` keeps the log in step with the switch too.
pub enable_sending-IsLogged :
    (note : Text) (now : Datetime) → Keeps IsLogged (enable_sending note now)
unfolding enable_sending
enable_sending-IsLogged note now = Keeps-of_Ends _ λ db l. Ends-bind _ _ db (
    Ends-raise_if _ _ db
      (λ _. Ends-bind _ _ db (
        Ends-lift _ db
          (λ timestamp _. Ends-transaction _ db (
            Ends-bind _ _ db (
              Ends-gets _ db (
                Ends-if (enabled_of db.control) _ _ db (λ _. Ends-pure _ db l)
                  (λ off.
                    Ends-modify _ db
                      (switched-IsLogged true none (some note) timestamp db l off))))))
          (λ e _. l)))
      (λ _. l))

-- A command of the operator or of the poll.
pub data Command : Type 0 where
  disable : DisableReason → Datetime → Command
  enable : Text → Datetime → Command

-- A command that raises leaves the database as it found it.
pub run_commands : List Command → Db → Db
run_commands [] db = db
run_commands (disable reason now ∷ cs) db = run_commands cs (disable_sending reason now db).1
run_commands (enable note now ∷ cs) db = run_commands cs (enable_sending note now db).1

-- After any commands on a database whose log tells its switch, the log still does: each of its
-- events changed the switch, and the last one left it as it stands.
pub log_tells_switch : (cs : List Command) (db : Db) → IsLogged db → IsLogged (run_commands cs db)
unfolding run_commands
log_tells_switch [] db l = l
log_tells_switch (disable reason now ∷ cs) db l =
    log_tells_switch cs (disable_sending reason now db).1
      ((disable_sending-IsLogged reason now).at db l)
log_tells_switch (enable note now ∷ cs) db l =
    log_tells_switch cs (enable_sending note now db).1 ((enable_sending-IsLogged note now).at db l)

-- ===== src/Tests/Queue.antt =====
-- Refilling a queue of two candidates.
use personal_voice_msg.Prelude.{◌≡◌, ◌<◌, refl, true, false, ◌||◌, some, [], ◌∷◌, ◌==◌, arith}
use personal_voice_msg.Prelude.Text.{codes, is_blank}
use personal_voice_msg.Exec.Ends.{Ends}
use personal_voice_msg.Rows.{find, count}
use personal_voice_msg.Scheduling.{aware}
use personal_voice_msg.Database.States.{discovered, validated, is}
use personal_voice_msg.Database.Schema.{Message, Db, fresh}
use personal_voice_msg.Database.Messages.{reject_message}
use personal_voice_msg.Database.Messages.Rejecting.{Rejects, reject_message_lem}
use personal_voice_msg.QueueRefill.{refill_queue}
use personal_voice_msg.QueueRefill.Deciding.{unjudged}
use personal_voice_msg.QueueRefill.Filling.{Refilled, Interrupted, refill_queue_lem}
use personal_voice_msg.Tests.Fixture.{message}
use personal_voice_msg.Tests.Texts.{ascii, provider, kind, proposal}

abbrev first : Message
first = record message { text = kind; state = discovered }

abbrev second : Message
second = record message { id = 2; text = proposal; state = validated }

abbrev waiting_db : Db
waiting_db = record fresh { messages = first ∷ second ∷ [] }

second_found : find (λ m. m.id == 2) waiting_db.messages ≡ some second
unfolding find
second_found = refl

second_waits : (is validated discovered || is validated validated) ≡ true
unfolding is
second_waits = refl

told : is_blank (codes "gate_violation") ≡ false
unfolding is_blank
told = refl

reject_message_lem_example :
    Ends
      (reject_message 2 (codes "gate_violation") (aware 5))
      waiting_db
      (λ _ u. Rejects 2 (codes "gate_violation") waiting_db u)
      (λ e u. ⊥)
reject_message_lem_example =
    reject_message_lem 2 5 (codes "gate_violation") waiting_db second ((ground arith, tt), (tt, tt))
      second_found second_waits refl told

two_wait : unjudged waiting_db < 3
unfolding count is
two_wait = omega arith

refill_queue_lem_example :
    Ends
      (refill_queue ascii provider (aware 5) 30 3)
      waiting_db
      (Refilled ascii provider 5 30 waiting_db)
      (Interrupted ascii provider 5 30 waiting_db)
refill_queue_lem_example =
    refill_queue_lem ascii provider 5 30 3 waiting_db ((ground arith, tt), (tt, tt)) two_wait

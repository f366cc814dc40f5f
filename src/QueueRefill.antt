-- ===== src/QueueRefill.antt =====
-- src/personal_voice_msg/queue_refill.py: candidates are judged until the queue is full.
pub mod Deciding
pub mod Filling
use personal_voice_msg.Prelude.{ℕ, zero, suc, Bool, not, Option, none, some, ltb, if◌then◌else◌}
use personal_voice_msg.Prelude.Text.{Text}
use personal_voice_msg.Generation.Gemini.{Reply}
use personal_voice_msg.Exec.{Exec, ⊤, other_error, pure, raise, lift, or_raise, ◌>>=◌, ◌>>◌}
use personal_voice_msg.Scheduling.{Datetime}
use personal_voice_msg.Normalization.{Unicode}
use personal_voice_msg.Judging.{SafetyDecision, evaluate_message_safety}
use personal_voice_msg.Database.Schema.{Db}
use personal_voice_msg.Database.Messages.{
  next_unjudged_message, count_queued_messages, approve_message, reject_message,
}

-- `MIN_QUEUE_SIZE`
abbrev pub min_queue_size : ℕ
min_queue_size = 30

pub record QueueHealth : Type 0 where
  pub queued_count : ℕ
  pub minimum : ℕ
  pub below_minimum : Bool

pub record RefillResult : Type 0 where
  pub approved : ℕ
  pub rejected : ℕ
  pub health : QueueHealth

-- What the loop does with a decision, less its counters.
unfoldable pub apply_decision : ℕ → SafetyDecision → Datetime → Exec Db ⊤
apply_decision message_id decision now =
    if decision.approved
    then approve_message message_id now
    else (do reason ← or_raise other_error decision.reason; reject_message message_id reason now)

module _ (u : Unicode) (generate : Text → Reply) (now : Datetime) (target : ℕ) where
  -- What follows once a candidate is asked for.
  unfoldable pub judge_next :
      (ℕ → ℕ → Exec Db (ℕ × ℕ)) → ℕ → ℕ → Option (ℕ × Text) → Exec Db (ℕ × ℕ)
  judge_next again approved rejected none = pure (approved, rejected)
  judge_next again approved rejected (some (message_id, text)) = do
    decision ← lift (evaluate_message_safety u generate text)
    apply_decision message_id decision now
    if decision.approved then again (suc approved) rejected else again approved (suc rejected)

  -- The `while` loop and its two counters. Running out of fuel is an error that the source does not
  -- have.
  unfoldable pub refill_loop : ℕ → ℕ → ℕ → Exec Db (ℕ × ℕ)
  refill_loop zero approved rejected = raise other_error
  refill_loop (suc fuel) approved rejected =
      let again = λ (a r : ℕ). refill_loop fuel a r in
      do
        queued ← count_queued_messages
        if not (ltb queued target) then pure (approved, rejected) else (do
          candidate ← next_unjudged_message
          judge_next again approved rejected candidate)

  unfoldable pub refill_queue : ℕ → Exec Db RefillResult
  refill_queue fuel = do
    counts ← refill_loop fuel 0 0
    queued_count ← count_queued_messages
    pure (record {
      approved = counts.0;
      rejected = counts.1;
      health = record {
        queued_count = queued_count;
        minimum = target;
        below_minimum = ltb queued_count target;
      };
    })

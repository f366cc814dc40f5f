-- ===== src/Judging.antt =====
-- src/personal_voice_msg/judging: the gates, the structured judge and, here, the decision of
-- pipeline.py. `generate` is `generate_structured` of generation/gemini_client.py: from the sentence,
-- as the prompt quotes it, to how the call ends.
pub mod Phrases
pub mod Gates
pub mod GateResults
pub mod Judge
pub mod Approved
use personal_voice_msg.Prelude.{
  ℕ, ◌*◌, ◌/◌, Bool, true, false, ◌||◌, Option, none, some, List, [], ◌∷◌, ltb, if◌then◌else◌,
}
use personal_voice_msg.Prelude.Text.{Text, codes}
use personal_voice_msg.Prelude.Json.{real_one}
use personal_voice_msg.Exec.{Result, ok, err}
use personal_voice_msg.Generation.Gemini.{Reply}
use personal_voice_msg.Normalization.{Unicode}
use personal_voice_msg.Judging.Gates.{GateViolation, evaluate_gates}
use personal_voice_msg.Judging.Judge.{
  JudgeResult, Judged, judged, judge_error, safe_sentence, judge_answered,
}

-- `SAFE_TONE_FLOOR`, `SAFE_WARMTH_FLOOR` and `SAFE_NATURALNESS_FLOOR`: 6.5
unfoldable pub safe_floor : ℕ
unfolding real_one
safe_floor = real_one * 13 / 2

pub record SafetyDecision : Type 0 where
  pub approved : Bool
  pub reason : Option Text
  pub gate_violations : List GateViolation
  pub judge_result : Option JudgeResult

abbrev refused : Text → JudgeResult → SafetyDecision
refused reason result = record {
  approved = false;
  reason = some reason;
  gate_violations = [];
  judge_result = some result;
}

abbrev pub below_floor : JudgeResult → Bool
below_floor r =
    ltb r.romantic_tone_score safe_floor
    || (ltb r.warmth_score safe_floor || ltb r.naturalness_score safe_floor)

abbrev decide_unflagged : JudgeResult → SafetyDecision
decide_unflagged result =
    if below_floor result
    then refused (codes "judge_score_floor") result
    else record { approved = true; reason = none; gate_violations = []; judge_result = some result }

abbrev pub decide_by_flags : List Text → JudgeResult → SafetyDecision
decide_by_flags [] result = decide_unflagged result
decide_by_flags (flag ∷ flags) result = refused (codes "judge_risk_flag") result

unfoldable pub decide_from_judge_result : JudgeResult → SafetyDecision
decide_from_judge_result result = decide_by_flags result.risk_flags result

abbrev pub decide_judged : Judged JudgeResult → SafetyDecision
decide_judged (judged result) = decide_from_judge_result result
decide_judged (judge_error rule) = record {
  approved = false;
  reason = some (codes "judge_error");
  gate_violations = [];
  judge_result = none;
}

abbrev pub decide_answered : Result (Judged JudgeResult) → Result SafetyDecision
decide_answered (ok j) = ok (decide_judged j)
decide_answered (err e) = err e

module _ (u : Unicode) (generate : Text → Reply) where
  -- A result of it is a value or a `JudgeError`; an error is another exception.
  unfoldable pub judge_sentence : Text → Result (Judged JudgeResult)
  unfolding judge_answered safe_sentence
  judge_sentence sentence = judge_answered (generate (safe_sentence sentence))

  unfoldable pub evaluate_message_safety : Text → Result SafetyDecision
  unfolding evaluate_gates judge_sentence decide_from_judge_result
  evaluate_message_safety sentence =
      if (evaluate_gates u sentence).accepted
      then decide_answered (judge_sentence sentence)
      else ok (record {
        approved = false;
        reason = some (codes "gate_violation");
        gate_violations = (evaluate_gates u sentence).violations;
        judge_result = none;
      })

-- ===== src/Judging/Approved.antt =====
-- The decisions of src/personal_voice_msg/judging/pipeline.py.
use personal_voice_msg.Prelude.{
  ℕ, ◌*◌, ◌≡◌, refl, sym, ◌∙◌, ◌↔◌, inl, inr, Bool-cases, ◌≤◌, Bool, true, false, some, List, [],
  ◌∷◌, arith, if◌then◌else◌,
}
use personal_voice_msg.Prelude.Text.{Text, codes, is_blank}
use personal_voice_msg.Exec.{Result, ok, err}
use personal_voice_msg.Generation.Gemini.{Reply, replied, failed, escaped}
use personal_voice_msg.Prelude.Json.{Json, real_one, integer, real}
use personal_voice_msg.Prelude.Int.{pos}
use personal_voice_msg.Normalization.{Unicode}
use personal_voice_msg.Judging.Gates.{evaluate_gates}
use personal_voice_msg.Judging.Judge.{
  JudgeResult, Judged, judged, judge_error, client_error, score, safe_sentence, judge_answered,
}
use personal_voice_msg.Judging.{
  below_floor, safe_floor, decide_by_flags, decide_judged, decide_answered, SafetyDecision,
  decide_from_judge_result, judge_sentence, evaluate_message_safety,
}

-- A score that the parser accepts lies between 0 and 10.
score_bound : (value : Json) (n : ℕ) → score value ≡ judged n → n ≤ real_one * 10
unfolding score
score_bound (integer (pos m)) n h = ground arith
score_bound (real (pos m)) n h = ground arith
score_bound _ n h = cc

-- A result that the decision approves: no risk flag, and every score at least the floor.
pub record IsSafe (r : JudgeResult) : Type 0 where
  pub no_flags : r.risk_flags ≡ []
  pub tone : safe_floor ≤ r.romantic_tone_score
  pub warmth : safe_floor ≤ r.warmth_score
  pub naturalness : safe_floor ≤ r.naturalness_score

-- The call returned a decision, and it approves.
abbrev pub approves : Result SafetyDecision → Bool
approves (ok d) = d.approved
approves (err e) = false

chosen :
    (c : Bool) (b : Bool) (one other : Result SafetyDecision)
    → b ≡ c
    → approves (if b then one else other) ≡ approves (if c then one else other)
chosen c b one other e = rw e refl

decide_by :
    (r : JudgeResult) (flags : List Text)
    → r.risk_flags ≡ flags
    → ((decide_by_flags flags r).approved ≡ true) ↔ IsSafe r
decide_by r [] e = (
  λ h. record {
    no_flags = e;
    tone = ground arith;
    warmth = ground arith;
    naturalness = ground arith;
  },
  λ k. ground (arith, k.tone, k.warmth, k.naturalness),
)
decide_by r (flag ∷ flags) e = (λ h. cc, λ h. cc (e, h.no_flags))

decide_iff : (r : JudgeResult) → ((decide_from_judge_result r).approved ≡ true) ↔ IsSafe r
unfolding decide_from_judge_result
decide_iff r = decide_by r r.risk_flags refl

module _ (u : Unicode) (generate : Text → Reply) (sentence : Text) where
  -- What an approved sentence has gone through.
  pub record Passes : Type 0 where
    pub gated : (evaluate_gates u sentence).accepted ≡ true
    pub result : JudgeResult
    pub answer : judge_sentence u generate sentence ≡ ok (judged result)
    pub safe : IsSafe result

  by_judge :
      (j : Result (Judged JudgeResult))
      → judge_sentence u generate sentence ≡ j
      → (evaluate_gates u sentence).accepted ≡ true
      → approves (decide_answered j) ≡ true
      → Passes
  by_judge (ok (judged r)) e g h = record {
    gated = g;
    result = r;
    answer = e;
    safe = (decide_iff r).0 h;
  }
  by_judge (ok (judge_error rule)) e g h = cc
  by_judge (err x) e g h = cc

  -- A sentence is approved exactly if the gates accept it, the judge's answer parses, and the
  -- answer has no risk flag and every score at least the floor.
  pub evaluate_message_safety_lem :
      (approves (evaluate_message_safety u generate sentence) ≡ true) ↔ Passes
  unfolding evaluate_message_safety
  evaluate_message_safety_lem = (
    λ h. elim (Bool-cases (evaluate_gates u sentence).accepted) [
      | inl g ↦ by_judge (judge_sentence u generate sentence) refl g (sym (chosen true _ _ _ g) ∙ h)
      | inr f ↦ absurd (cc (sym (chosen false _ _ _ f) ∙ h))
    ],
    λ k. chosen true _ _ _ k.gated ∙ rw k.answer ((decide_iff k.result).1 k.safe),
  )

-- A decision that does not approve says why.
abbrev pub HasReason : SafetyDecision → Type 0
HasReason d =
    d.approved ≡ false → (reason : Text) × (d.reason ≡ some reason) × (is_blank reason ≡ false)

flags-HasReason : (r : JudgeResult) (flags : List Text) → HasReason (decide_by_flags flags r)
unfolding is_blank
flags-HasReason r [] h = elim (Bool-cases (below_floor r)) [
  | inl low ↦ (codes "judge_score_floor", rw low refl, refl)
  | inr high ↦ absurd (ground (arith, high, h))
]
flags-HasReason r (flag ∷ flags) h = (codes "judge_risk_flag", refl, refl)

judged-HasReason : (j : Judged JudgeResult) → HasReason (decide_judged j)
unfolding is_blank decide_from_judge_result
judged-HasReason (judged r) h = flags-HasReason r r.risk_flags h
judged-HasReason (judge_error rule) h = (codes "judge_error", refl, refl)

module _ (u : Unicode) (generate : Text → Reply) (sentence : Text) where
  -- How an evaluation ends: a decision that does not approve says why, and an exception is one that
  -- the provider let through.
  abbrev pub Evaluated : Result SafetyDecision → Type 0
  Evaluated (ok d) = HasReason d
  Evaluated (err e) = generate (safe_sentence sentence) ≡ escaped e

  answered-Evaluated :
      (reply : Reply)
      → generate (safe_sentence sentence) ≡ reply
      → Evaluated (decide_answered (judge_answered reply))
  unfolding judge_answered
  answered-Evaluated (replied fields) e = judged-HasReason _
  answered-Evaluated (failed reason) e = judged-HasReason (judge_error client_error)
  answered-Evaluated (escaped x) e = e

  gated :
      (b : Bool) (one other : Result SafetyDecision)
      → Evaluated one
      → Evaluated other
      → Evaluated (if b then one else other)
  gated true one other h k = h
  gated false one other h k = k

  pub evaluate_message_safety-Evaluated : Evaluated (evaluate_message_safety u generate sentence)
  unfolding evaluate_message_safety judge_sentence is_blank
  evaluate_message_safety-Evaluated =
      gated (evaluate_gates u sentence).accepted _ _
        (answered-Evaluated (generate (safe_sentence sentence)) refl)
        (λ h. (codes "gate_violation", refl, refl))

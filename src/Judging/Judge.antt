-- ===== src/Judging/Judge.antt =====
-- src/personal_voice_msg/judging/judge.py. How `generate_structured` ends for a prompt is an
-- argument. A score is a float from 0 to 10, as the multiple of 2 ^ -1074 that it is.
use personal_voice_msg.Prelude.{
  ℕ, ◌*◌, Bool, Option, none, some, List, [], ◌∷◌, ◌==◌, leb, any, all, is_some, if◌then◌else◌, map,
}
use personal_voice_msg.Prelude.Text.{Text, codes, same_text}
use personal_voice_msg.Prelude.Int.{pos, negsuc}
use personal_voice_msg.Prelude.Json.{
  Json, Items, Fields, integer, real, infinity, nan, string, array, nil, cons, get, get_or_null,
  real_one,
}
use personal_voice_msg.Exec.{Result, ok, err}
use personal_voice_msg.Generation.Gemini.{Reply, replied, failed, escaped}

-- The rules of `JudgeError`.
pub data JudgeRule : Type 0 where
  malformed_output out_of_range_score unknown_risk_flag client_error : JudgeRule

pub data Judged {ℓ} (A : Type ℓ) : Type ℓ where
  judged : A → Judged A
  judge_error : JudgeRule → Judged A

pub record JudgeResult : Type 0 where
  pub romantic_tone_score : ℕ
  pub warmth_score : ℕ
  pub naturalness_score : ℕ
  pub risk_flags : List Text
  pub reasons : Text

-- `RISK_FLAG_VOCABULARY`, sorted
unfoldable pub risk_flag_vocabulary : List Text
risk_flag_vocabulary =
    codes "breakup"
    ∷ codes "fabricated_memory"
    ∷ codes "guilt_inducing"
    ∷ codes "insulting"
    ∷ codes "manipulative"
    ∷ codes "money"
    ∷ codes "overly_intense"
    ∷ codes "possessive"
    ∷ codes "prompt_injection"
    ∷ codes "proposal"
    ∷ codes "sexual"
    ∷ codes "stranger_name"
    ∷ []

abbrev pub and_then : {A B : Type 0} → Judged A → (A → Judged B) → Judged B
and_then (judged a) f = f a
and_then (judge_error rule) f = judge_error rule

abbrev pub require : {B : Type 0} → Bool → JudgeRule → Judged B → Judged B
require test rule rest = if test then rest else judge_error rule

-- `sentence.replace('"', "'")`
unfoldable pub safe_sentence : Text → Text
safe_sentence = map λ c. if c == b'"' then b'\'' else c

-- `_score`
unfoldable pub score : Json → Judged ℕ
unfolding real_one
score (integer (pos n)) = require (leb n 10) out_of_range_score (judged (real_one * n))
score (integer (negsuc n)) = judge_error out_of_range_score
score (real (pos n)) = require (leb n (real_one * 10)) out_of_range_score (judged n)
score (real (negsuc n)) = judge_error out_of_range_score
score (infinity negative) = judge_error out_of_range_score
score nan = judge_error out_of_range_score
score _ = judge_error malformed_output

-- The texts of a list, if all of its items are texts.
unfoldable pub flags_of : Items → Option (List Text)
flags_of nil = some []
flags_of (cons (string flag) flags) = elim (flags_of flags) [
  | none ↦ none
  | some rest ↦ some (flag ∷ rest)
]
flags_of (cons _ flags) = none

abbrev pub known_flag : Text → Bool
known_flag flag = any (same_text flag) risk_flag_vocabulary

unfoldable pub risk_flags_of : Json → Judged (List Text)
unfolding flags_of
risk_flags_of (array flags) = elim (flags_of flags) [
  | none ↦ judge_error malformed_output
  | some texts ↦ require (all known_flag texts) unknown_risk_flag (judged texts)
]
risk_flags_of _ = judge_error malformed_output

unfoldable pub reasons_of : Json → Judged Text
reasons_of (string reasons) = judged reasons
reasons_of _ = judge_error malformed_output

abbrev required : List Text
required =
    codes "romantic_tone_score"
    ∷ codes "warmth_score"
    ∷ codes "naturalness_score"
    ∷ codes "risk_flags"
    ∷ codes "reasons"
    ∷ []

-- `_parse_judge_result`
unfoldable pub parse_judge_result : Fields → Judged JudgeResult
unfolding get get_or_null score risk_flags_of reasons_of
parse_judge_result structured =
    require (all (λ key. is_some (get key structured)) required) malformed_output (
      and_then (score (get_or_null (codes "romantic_tone_score") structured)) λ romantic_tone.
        and_then (score (get_or_null (codes "warmth_score") structured)) λ warmth.
          and_then (score (get_or_null (codes "naturalness_score") structured)) λ naturalness.
            and_then (risk_flags_of (get_or_null (codes "risk_flags") structured)) λ risk_flags.
              and_then (reasons_of (get_or_null (codes "reasons") structured)) λ reasons.
                judged (record {
                  romantic_tone_score = romantic_tone;
                  warmth_score = warmth;
                  naturalness_score = naturalness;
                  risk_flags = risk_flags;
                  reasons = reasons;
                }))

-- The part of `judge_sentence` behind the call of the provider: a `GeminiClientError` becomes a
-- `JudgeError`, and any other exception passes.
unfoldable pub judge_answered : Reply → Result (Judged JudgeResult)
unfolding parse_judge_result
judge_answered (failed finish_reason) = ok (judge_error client_error)
judge_answered (escaped e) = err e
judge_answered (replied structured) = ok (parse_judge_result structured)

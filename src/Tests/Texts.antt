-- ===== src/Tests/Texts.antt =====
-- The gates, the judge and the duplicate gate on short texts.
use personal_voice_msg.Prelude.{
  ℕ, ◌*◌, ◌≡◌, ◌↔◌, refl, Bool, true, false, not, ◌&&◌, ◌||◌, none, some, List, [], ◌∷◌, ◌++◌, ◌==◌,
  leb, ltb, any, all, if◌then◌else◌,
}
use personal_voice_msg.Prelude.Text.{Text, codes, same_text, is_blank}
use personal_voice_msg.Prelude.Int.{pos}
use personal_voice_msg.Prelude.Json.{Fields, integer, string, array, nil, end, field, real_one}
use personal_voice_msg.Exec.{ok, transaction, ◌>>=◌}
use personal_voice_msg.Exec.Ends.{Ends}
use personal_voice_msg.Rows.{find, count, last_id}
use personal_voice_msg.Scheduling.{aware}
use personal_voice_msg.Database.States.{discovered}
use personal_voice_msg.Database.Schema.{Db, fresh}
use personal_voice_msg.Database.RecipientKey.{timestamp_of}
use personal_voice_msg.Database.Messages.{create_message_in_transaction}
use personal_voice_msg.Normalization.{Unicode, normalize_text, normalized_hash, split}
use personal_voice_msg.Judging.Phrases.{phrase_categories, stranger_name_tokens}
use personal_voice_msg.Judging.Gates.{evaluate_gates}
use personal_voice_msg.Judging.GateResults.{free_of, evaluate_gates-accepted, phrase_refused}
use personal_voice_msg.Judging.{safe_floor, evaluate_message_safety}
use personal_voice_msg.Generation.Gemini.{Reply, replied}
use personal_voice_msg.Judging.Approved.{Passes, approves, evaluate_message_safety_lem}
use personal_voice_msg.History.{
  DuplicateDecision, exact, refused, passed, best_match, evaluate, evaluate_with_connection,
  evaluate_and_record,
}
use personal_voice_msg.Exec.Keeps.{run_each}
use personal_voice_msg.History.Recording.{Recorded, evaluate_and_record_lem}
use personal_voice_msg.History.Duplicates.{Call, call, recorded_is_duplicate}

abbrev is_letter : ℕ → Bool
is_letter c = leb b'a' c && leb c b'z' || leb b'A' c && leb c b'Z'

-- The Unicode tables, as far as lower-case letters, spaces and ASCII punctuation.
abbrev pub ascii : Unicode
ascii = record {
  compatible = λ text. text;
  major_category = λ c. if is_letter c then b'L' else if c == b' ' then b'Z' else b'P';
  is_word = is_letter;
}

abbrev pub proposal : Text
proposal = codes "honey, marry me!"

abbrev pub kind : Text
kind = codes "your smile warms my day."

normal_proposal : normalize_text ascii proposal ≡ codes "honey " ++ codes "marry me" ++ []
unfolding normalize_text
normal_proposal = refl

listed :
    any (λ (c : Text × List Text). any (same_text (codes "marry me")) (c.1)) phrase_categories
    ≡ true
unfolding phrase_categories same_text
listed = refl

phrase_refused_example : (evaluate_gates ascii proposal).accepted ≡ false
phrase_refused_example =
    phrase_refused ascii proposal (codes "honey ") (codes "marry me") [] listed normal_proposal refl
      refl

evaluate_gates-accepted_example : (evaluate_gates ascii kind).accepted ≡ (
    all (λ c. free_of ascii (normalize_text ascii kind) (c.1)) phrase_categories
    && (not (
          any
            (λ token. any (same_text token) stranger_name_tokens)
            (split (normalize_text ascii kind)))
        && not (ltb 1 (count (λ c. c == b'!') kind))))
evaluate_gates-accepted_example = evaluate_gates-accepted ascii kind

abbrev warm : Fields
warm = field (codes "romantic_tone_score") (integer (pos 8)) (
    field (codes "warmth_score") (integer (pos 9)) (
      field (codes "naturalness_score") (integer (pos 7)) (
        field (codes "risk_flags") (array nil)
          (field (codes "reasons") (string (codes "warm")) end))))

abbrev pub provider : Text → Reply
provider prompt = replied warm

evaluate_message_safety_lem_example :
    (approves (evaluate_message_safety ascii provider kind) ≡ true) ↔ Passes ascii provider kind
evaluate_message_safety_lem_example = evaluate_message_safety_lem ascii provider kind

-- The whole chain approves this sentence.
kind_approved : approves (evaluate_message_safety ascii provider kind) ≡ true
unfolding evaluate_message_safety phrase_categories stranger_name_tokens safe_floor
kind_approved = refl

abbrev digest : Text → Text
digest text = text

abbrev ratio : Text → Text → ℕ
ratio a b = 0

abbrev let_in : DuplicateDecision
let_in = passed none (some 1)

abbrev with_kind : Db
with_kind = record fresh {
  messages =
      record { id = 1; text = kind; state = discovered; created_at = 5; updated_at = 5 } ∷ [];
  message_history =
      record { message_id = 1; normalized_hash = codes "your smile warms my day" } ∷ [];
}

kind_recorded :
    evaluate_and_record ascii digest ratio kind (aware 5) none fresh ≡ (ok let_in, with_kind)
unfolding evaluate_and_record evaluate_with_connection create_message_in_transaction normalized_hash
    timestamp_of find last_id is_blank best_match transaction ◌>>=◌
kind_recorded = refl

evaluate_and_record_lem_example :
    Ends
      (evaluate_and_record ascii digest ratio kind (aware 5) none)
      fresh
      (Recorded ascii digest ratio kind fresh none)
      (λ e t. t ≡ fresh)
evaluate_and_record_lem_example =
    evaluate_and_record_lem ascii digest ratio kind fresh (aware 5) none

abbrev proposed : List Call
proposed = (proposal, aware 6, none) ∷ (kind, aware 7, none) ∷ []

recorded_is_duplicate_example :
    evaluate ascii digest ratio kind none (run_each (call ascii digest ratio) proposed with_kind)
    ≡ (
      ok (refused exact (some 1) (some (real_one * 100))),
      run_each (call ascii digest ratio) proposed with_kind,
    )
recorded_is_duplicate_example =
    recorded_is_duplicate ascii digest ratio kind (aware 5) none fresh with_kind let_in
      kind_recorded refl proposed none refl

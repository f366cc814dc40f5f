-- ===== src/History.antt =====
-- src/personal_voice_msg/history.py: the duplicate gate before a message is recorded. The digest
-- and rapidfuzz's `token_sort_ratio` are arguments; a score is the multiple of 2 ^ -1074 that the
-- float is.
pub mod Gate
pub mod Recording
pub mod Duplicates
use personal_voice_msg.Prelude.{
  ℕ, ◌*◌, zero, suc, Bool, true, false, not, Option, none, some, List, [], ◌∷◌, leb, ltb, is_some,
  if◌then◌else◌,
}
use personal_voice_msg.Prelude.Text.{Text, same_text}
use personal_voice_msg.Prelude.Json.{real_one}
use personal_voice_msg.Exec.{
  Result, ok, err, Exec, value_error, pure, lift, gets, raise_if, transaction, ◌>>=◌, ◌>>◌,
}
use personal_voice_msg.Rows.{find}
use personal_voice_msg.Scheduling.{Datetime}
use personal_voice_msg.Normalization.{
  Unicode, is_nil, normalize_text, normalized_hash, copies_source_span,
}
use personal_voice_msg.Database.Schema.{Message, HistoryRow, Db}
use personal_voice_msg.Database.Messages.{create_message_in_transaction}

pub data DuplicateReason : Type 0 where
  exact near source_copy : DuplicateReason

pub record DuplicateDecision : Type 0 where
  pub accepted : Bool
  pub reason : Option DuplicateReason
  pub matched_message_id : Option ℕ
  pub score : Option ℕ
  pub recorded_message_id : Option ℕ

-- `NEAR_DUPLICATE_THRESHOLD`
unfoldable pub near_duplicate_threshold : ℕ
unfolding real_one
near_duplicate_threshold = real_one * 79

abbrev pub refused : DuplicateReason → Option ℕ → Option ℕ → DuplicateDecision
refused reason matched score = record {
  accepted = false;
  reason = some reason;
  matched_message_id = matched;
  score = score;
  recorded_message_id = none;
}

abbrev pub passed : Option ℕ → Option ℕ → DuplicateDecision
passed score recorded = record {
  accepted = true;
  reason = none;
  matched_message_id = none;
  score = score;
  recorded_message_id = recorded;
}

-- `best_score or None`
abbrev score_or_none : ℕ → Option ℕ
score_or_none zero = none
score_or_none (suc n) = some (suc n)

abbrev pub decide_best : Option ℕ × ℕ → DuplicateDecision
decide_best (none, best_score) = passed (score_or_none best_score) none
decide_best (some id, best_score) =
    if leb near_duplicate_threshold best_score
    then refused near (some id) (some best_score)
    else passed (score_or_none best_score) none

module _ (u : Unicode) (sha256 : Text → Text) (ratio : Text → Text → ℕ) where
  -- The loop over the messages, from the best one so far.
  unfoldable pub best_match : Text → List Message → Option ℕ → ℕ → Option ℕ × ℕ
  unfolding normalize_text
  best_match normalized [] best best_score = (best, best_score)
  best_match normalized (m ∷ rows) best best_score =
      let score = ratio normalized (normalize_text u m.text) in
      let other = best_match normalized rows (some m.id) score in
      let same = best_match normalized rows best best_score in
      if ltb best_score score then other else same

  abbrev copied : Text → Option Text → Result Bool
  copied candidate none = ok false
  copied candidate (some source) = copies_source_span u candidate source 6

  abbrev pub has_hash : Text → HistoryRow → Bool
  has_hash candidate h = same_text h.normalized_hash (normalized_hash u sha256 candidate)

  -- From the row with the same hash, and what the scores say otherwise.
  abbrev pub decide_unless_exact : Option HistoryRow → DuplicateDecision → DuplicateDecision
  decide_unless_exact (some h) other = refused exact (some h.message_id) (some (real_one * 100))
  decide_unless_exact none other = other

  unfoldable pub evaluate_with_connection : Text → Option Text → Exec Db DuplicateDecision
  evaluate_with_connection candidate source_text = do
    raise_if (is_nil (normalize_text u candidate)) value_error
    is_copy ← lift (copied candidate source_text)
    same_hash ← gets (λ db. find (has_hash candidate) db.message_history)
    best ← gets (λ db. best_match (normalize_text u candidate) db.messages none 0)
    pure (
        if is_copy
        then refused source_copy none none
        else decide_unless_exact same_hash (decide_best best))

  unfoldable pub evaluate : Text → Option Text → Exec Db DuplicateDecision
  evaluate candidate source_text = evaluate_with_connection candidate source_text

  unfoldable pub evaluate_and_record : Text → Datetime → Option Text → Exec Db DuplicateDecision
  evaluate_and_record candidate now source_text = transaction do
    decision ← evaluate_with_connection candidate source_text
    if not decision.accepted then pure decision else (do
      message_id ← create_message_in_transaction (normalized_hash u sha256) candidate now
      pure (passed decision.score (some message_id)))

-- ===== src/History/Duplicates.antt =====
-- What stays of a recorded candidate in the history (src/personal_voice_msg/history.py).
use personal_voice_msg.Prelude.{
  ℕ, ◌≡◌, refl, ap, ◌∙◌, ◌*◌, true, false, Option, some, List, inl, inr,
}
use personal_voice_msg.Prelude.Text.{Text, same_text_self}
use personal_voice_msg.Prelude.Json.{real_one}
use personal_voice_msg.Exec.{Exec, ok, ◌>>=◌}
use personal_voice_msg.Exec.Ends.{Ends-weaken, Ends-returned}
use personal_voice_msg.Exec.Keeps.{Keeps, Keeps-of_Ends, run_each, run_each-Keeps}
use personal_voice_msg.Rows.{find, find-append}
use personal_voice_msg.Scheduling.{Datetime}
use personal_voice_msg.Normalization.{Unicode, is_nil, normalize_text, normalized_hash}
use personal_voice_msg.Database.Schema.{HistoryRow, Db}
use personal_voice_msg.History.{
  DuplicateDecision, exact, refused, copied, has_hash, evaluate_with_connection, evaluate,
  evaluate_and_record,
}
use personal_voice_msg.History.Recording.{Adds, new_id, evaluate_and_record_lem}

-- One call of `evaluate_and_record`: its candidate, its time and its source text.
abbrev pub Call : Type 0
Call = Text × Datetime × Option Text

abbrev pub call : Unicode → (Text → Text) → (Text → Text → ℕ) → Call → Exec Db DuplicateDecision
call u sha256 ratio (other, now, source) = evaluate_and_record u sha256 ratio other now source

module _ (u : Unicode) (sha256 : Text → Text) (ratio : Text → Text → ℕ) (candidate : Text) where
  -- The first row with the hash of the candidate.
  abbrev IsFirst : HistoryRow → Db → Type 0
  IsFirst h db = find (has_hash u sha256 ratio candidate) db.message_history ≡ some h

  evaluate_exact :
      (h : HistoryRow) (source : Option Text) (db : Db)
      → is_nil (normalize_text u candidate) ≡ false
      → copied u sha256 ratio candidate source ≡ ok false
      → IsFirst h db
      → evaluate u sha256 ratio candidate source db
        ≡ (ok (refused exact (some h.message_id) (some (real_one * 100))), db)
  unfolding evaluate evaluate_with_connection ◌>>=◌
  evaluate_exact h source db not_empty differs found = rw (not_empty, differs, found) refl

  call-IsFirst : (h : HistoryRow) (c : Call) → Keeps (IsFirst h) (call u sha256 ratio c)
  call-IsFirst h (other, now, source) = Keeps-of_Ends _ (λ db first.
      Ends-weaken _ db (evaluate_and_record_lem u sha256 ratio other db now source)
        (λ d t _ r. elim r [
          | inl (_, a) ↦
              ap (find (has_hash u sha256 ratio candidate)) a.history
              ∙ find-append (has_hash u sha256 ratio candidate) db.message_history _
              ∙ rw first refl
          | inr (_, _, same) ↦ rw same first
        ])
        (λ e t _ same. rw same first))

  abbrev own_row : ℕ → HistoryRow
  own_row id = record { message_id = id; normalized_hash = normalized_hash u sha256 candidate }

  own_hash : (id : ℕ) → has_hash u sha256 ratio candidate (own_row id) ≡ true
  own_hash id = same_text_self (normalized_hash u sha256 candidate)

  added-IsFirst :
      (db t : Db) (id : ℕ) (d : DuplicateDecision)
      → Adds u sha256 ratio candidate db id d t
      → IsFirst (own_row id) t
  added-IsFirst db t id d a =
      ap (find (has_hash u sha256 ratio candidate)) a.history
      ∙ find-append (has_hash u sha256 ratio candidate) db.message_history (own_row id)
      ∙ rw (a.was_new, own_hash id) refl

  -- A candidate that was recorded is an exact duplicate after any further calls of
  -- `evaluate_and_record`, whatever their candidates, times and source texts: evaluating the same
  -- text names the message that was recorded and the score 100, unless it copies a span from the
  -- source text that it is evaluated with.
  pub recorded_is_duplicate :
      (now : Datetime) (source : Option Text) (db t : Db) (d : DuplicateDecision)
      → evaluate_and_record u sha256 ratio candidate now source db ≡ (ok d, t)
      → d.accepted ≡ true
      → (later : List Call) (again : Option Text) → copied u sha256 ratio candidate again ≡ ok false
      → evaluate u sha256 ratio candidate again (run_each (call u sha256 ratio) later t) ≡ (
        ok (refused exact d.recorded_message_id (some (real_one * 100))),
        run_each (call u sha256 ratio) later t,
      )
  recorded_is_duplicate now source db t d e let_in later again differs =
      elim (Ends-returned _ db (evaluate_and_record_lem u sha256 ratio candidate db now source) d t
        e) [
          | inl (_, a) ↦ rw a.recorded (
              evaluate_exact (own_row (new_id u sha256 ratio candidate db)) again
                (run_each (call u sha256 ratio) later t) a.not_empty differs
                (run_each-Keeps (call u sha256 ratio) later t (call-IsFirst _)
                  (added-IsFirst db t _ d a)))
          | inr (_, out, _) ↦ absurd (cc (out, let_in))
        ]

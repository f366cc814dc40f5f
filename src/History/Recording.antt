-- ===== src/History/Recording.antt =====
-- `evaluate_and_record` of src/personal_voice_msg/history.py.
use personal_voice_msg.Prelude.{
  ℕ, ◌≡◌, refl, Bool, true, false, not, Option, none, some, [], ◌∷◌, ◌++◌, arith, ◌⊎◌, inl, inr,
}
use personal_voice_msg.Prelude.Text.{Text}
use personal_voice_msg.Exec.Ends.{
  Ends, Ends-bind, Ends-read, Ends-if, Ends-pure, Ends-raise_if, Ends-lift, Ends-gets, Ends-modify,
  Ends-transaction, Ends-weaken,
}
use personal_voice_msg.Rows.{find, next_id}
use personal_voice_msg.Scheduling.{Datetime}
use personal_voice_msg.Normalization.{Unicode, is_nil, normalize_text, normalized_hash}
use personal_voice_msg.Database.States.{discovered}
use personal_voice_msg.Database.Schema.{Db}
use personal_voice_msg.Database.Messages.{create_message_in_transaction}
use personal_voice_msg.History.{DuplicateDecision, passed, has_hash, evaluate_and_record}
use personal_voice_msg.History.Gate.{
  All-find-none, Allowed, evaluate_lem, decision-Allowed, Allowed-decision,
}

module _ (u : Unicode) (sha256 : Text → Text) (ratio : Text → Text → ℕ) (candidate : Text)
    (db : Db) where
  -- A candidate that is let in: its hash was new, and its row, in `DISCOVERED`, and the row of its
  -- hash are added, with all else as before.
  pub record Adds (now_id : ℕ) (d : DuplicateDecision) (t : Db) : Type 0 where
    pub not_empty : is_nil (normalize_text u candidate) ≡ false
    pub accepted : d.accepted ≡ true
    pub recorded : d.recorded_message_id ≡ some now_id
    pub was_new : find (has_hash u sha256 ratio candidate) db.message_history ≡ none
    pub history :
        t.message_history
        ≡ db.message_history
          ++ record { message_id = now_id; normalized_hash = normalized_hash u sha256 candidate }
            ∷ []
    pub created_at : ℕ
    pub messages :
        t.messages
        ≡ db.messages
          ++ record {
            id = now_id;
            text = candidate;
            state = discovered;
            created_at = created_at;
            updated_at = created_at;
          }
            ∷ []
    pub deliveries : t.deliveries ≡ db.deliveries

  abbrev pub new_id : ℕ
  new_id = next_id (λ m. m.id) db.messages

  create_lem :
      (now : Datetime) (d : DuplicateDecision)
      → is_nil (normalize_text u candidate) ≡ false
      → find (has_hash u sha256 ratio candidate) db.message_history ≡ none
      → Ends
          (create_message_in_transaction (normalized_hash u sha256) candidate now)
          db
          (λ id t. Adds new_id (passed d.score (some id)) t)
          (λ e t. Unit)
  unfolding create_message_in_transaction
  create_lem now d not_empty missing = Ends-bind _ _ db (
      Ends-raise_if _ _ db
        (λ _. Ends-bind _ _ db (
          Ends-lift _ db
            (λ timestamp _. Ends-bind _ _ db (
              Ends-gets _ db (
                Ends-bind _ _ db (
                  Ends-modify _ db (
                    Ends-bind _ _ _ (
                      Ends-gets _ _ (
                        Ends-bind _ _ _ (
                          Ends-raise_if _ _ _
                            (λ _. Ends-bind _ _ _ (
                              Ends-modify _ _ (
                                Ends-pure _ _ (record {
                                  not_empty = not_empty;
                                  accepted = refl;
                                  recorded = refl;
                                  was_new = missing;
                                  history = refl;
                                  created_at = timestamp;
                                  messages = refl;
                                  deliveries = refl;
                                }))))
                            (λ _. tt)))))))))
            (λ e _. tt)))
        (λ _. tt))

  abbrev pub Recorded : Option Text → DuplicateDecision → Db → Type 0
  Recorded source d t =
      (Allowed u sha256 ratio candidate db source × Adds new_id d t)
      ⊎ ((Allowed u sha256 ratio candidate db source → ⊥) × (d.accepted ≡ false) × (t ≡ db))

  -- A candidate is recorded exactly if it has words, no span of six of them comes from the source,
  -- no recorded message has its hash and none scores 79 or more beside it: then its message, in
  -- `DISCOVERED`, and the row of its hash are added. Any other candidate is refused and changes
  -- nothing, and a call that raises changes nothing.
  pub evaluate_and_record_lem :
      (now : Datetime) (source : Option Text)
      → Ends
          (evaluate_and_record u sha256 ratio candidate now source)
          db
          (Recorded source)
          (λ e t. t ≡ db)
  unfolding evaluate_and_record
  evaluate_and_record_lem now source = Ends-transaction _ db (
      Ends-read _ _ db (evaluate_lem u sha256 ratio candidate db source)
        (λ d k.
          Ends-if (not d.accepted) _ _ db
            (λ out. Ends-pure _ db (
              inr (
                (λ h. absurd (
                    ground
                      (arith, out, Allowed-decision u sha256 ratio candidate db source d k h))),
                was_not d.accepted out,
                refl,
              )))
            (λ let_in.
              let h =
                decision-Allowed u sha256 ratio candidate db source d k (was d.accepted let_in) in
              let missing =
                All-find-none (has_hash u sha256 ratio candidate) db.message_history h.new_hash in
              Ends-bind _ _ db (
                Ends-weaken _ db (create_lem now d k.not_empty missing)
                  (λ id t _ a. Ends-pure _ t (inl (h, a))) (λ e t _ _. refl))))
        (λ e. refl))
    where
      was_not : (b : Bool) → not b ≡ true → b ≡ false
      was_not true h = cc
      was_not false h = refl

      was : (b : Bool) → not b ≡ false → b ≡ true
      was true h = refl
      was false h = cc

-- ===== src/Database/Messages/Rejecting.antt =====
-- `reject_message` of src/personal_voice_msg/database.py.
use personal_voice_msg.Prelude.{
  ℕ, ◌≡◌, refl, ap, sym, ◌∙◌, true, false, ◌||◌, some, [], ◌∷◌, ◌++◌, ◌==◌, any, arith,
}
use personal_voice_msg.Prelude.Text.{Text, is_blank}
use personal_voice_msg.Exec.Ends.{
  Ends, Ends-then, Ends-bind, Ends-if, Ends-raise_if, Ends-lift, Ends-gets, Ends-modify,
  Ends-or_raise, Ends-transaction,
}
use personal_voice_msg.Rows.{find, next_id}
use personal_voice_msg.Rows.Keyed.{IsKeyed}
use personal_voice_msg.Scheduling.{aware}
use personal_voice_msg.Database.States.{
  MessageState, discovered, validated, is, is→eq, is_content_step,
}
use personal_voice_msg.Database.Schema.{Message, Rejection, Db, message_has_id}
use personal_voice_msg.Database.RecipientKey.{timestamp_of}
use personal_voice_msg.Database.Messages.{
  fetch_message, walk_to_validated, insert_rejection, reject_message,
}
use personal_voice_msg.Database.Messages.Differs.{Differs, Differs-refl}
use personal_voice_msg.Database.Messages.Approval.{Stands, transition_lem}

-- The message `i` is `VALIDATED` and rejected now, and all other rows are as before.
pub record Rejects (i : ℕ) (reason : Text) (db t : Db) : Type 0 where
  pub keyed : IsKeyed (λ m. m.id) t.messages
  pub differs : Differs i validated db.messages t.messages
  pub row : Rejection
  pub its_message : row.message_id ≡ i
  pub its_reason : row.reason ≡ reason
  pub rejections : t.rejections ≡ db.rejections ++ row ∷ []
  pub deliveries : t.deliveries ≡ db.deliveries

step_to_validated : (s : MessageState) → is s discovered ≡ true → is_content_step s validated ≡ true
unfolding is_content_step is
step_to_validated s h = ground arith

module _ (i timestamp : ℕ) (db : Db) (m : Message) (keyed : IsKeyed (λ m. m.id) db.messages)
    (found : find (message_has_id i) db.messages ≡ some m) where
  Stands-now : Stands i m.state db db
  Stands-now = record {
    keyed = keyed;
    m = m;
    found = found;
    in_state = refl;
    others = λ j _. refl;
    deliveries = refl;
    differs = Differs-refl i db.messages m keyed found;
    rejections = refl;
  }

  walk_lem :
      (is m.state discovered || is m.state validated) ≡ true
      → Ends (walk_to_validated i m.state timestamp) db (λ _ u. Stands i validated db u) (λ e u. ⊥)
  unfolding walk_to_validated
  walk_lem waiting =
      Ends-if (is m.state discovered) _ _ db
        (λ h.
          transition_lem i timestamp db m.state validated db (step_to_validated m.state h)
            Stands-now)
        (λ h.
          Ends-raise_if _ _ db
            (λ there. rw (← is→eq m.state validated (ground (arith, there))) Stands-now)
            (λ bad. absurd (ground (arith, bad, h, waiting))))

  insert_lem :
      (reason : Text) (u : Db)
      → any (λ r. r.message_id == i) db.rejections ≡ false
      → Stands i validated db u
      → Ends (insert_rejection i reason timestamp) u (λ _ t. Rejects i reason db t) (λ e t. ⊥)
  unfolding insert_rejection
  insert_lem reason u unrejected s = Ends-bind _ _ u (
      Ends-gets _ u (
        Ends-bind _ _ u (
          Ends-raise_if _ _ u
            (λ _. Ends-modify _ u (record {
              keyed = s.keyed;
              differs = s.differs;
              row = record {
                id = next_id (λ r. r.id) u.rejections;
                message_id = i;
                reason = reason;
                rejected_at = timestamp;
              };
              its_message = refl;
              its_reason = refl;
              rejections = rw s.rejections refl;
              deliveries = s.deliveries;
            }))
            (λ bad. absurd (
              cc (
                sym (ap (any (λ (r : Rejection). r.message_id == i)) s.rejections) ∙ bad,
                unrejected,
              ))))))

-- On a table whose ids grow, at an aware time and with a reason that is not blank, rejecting a
-- message that waits for a decision and has no rejection yet returns: it is `VALIDATED` and has its
-- rejection, and all other messages and rejections and the deliveries are as before.
pub reject_message_lem :
    (i t : ℕ) (reason : Text) (db : Db) (m : Message)
    → IsKeyed (λ m. m.id) db.messages
    → find (message_has_id i) db.messages ≡ some m
    → (is m.state discovered || is m.state validated) ≡ true
    → any (λ r. r.message_id == i) db.rejections ≡ false
    → is_blank reason ≡ false
    → Ends (reject_message i reason (aware t)) db (λ _ u. Rejects i reason db u) (λ e u. ⊥)
unfolding reject_message fetch_message timestamp_of
reject_message_lem i t reason db m keyed found waiting unrejected told = Ends-bind _ _ db (
    Ends-raise_if _ _ db
      (λ _. Ends-bind _ _ db (
        Ends-lift _ db
          (λ timestamp _. Ends-transaction _ db (
            Ends-bind _ _ db (
              Ends-bind _ _ db (
                Ends-gets _ db (
                  Ends-or_raise _ _ db
                    (λ x e.
                      let same : x ≡ m = cc (found, e) in
                      Ends-then _ _ db (walk_lem i timestamp db x keyed e (rw same waiting))
                        (λ _ u s. insert_lem i timestamp db x keyed e reason u unrejected s)
                        (λ e u never. never))
                    (λ e. absurd (cc (e, found))))))))
          (λ e h. cc)))
      (λ bad. absurd (cc (bad, told))))

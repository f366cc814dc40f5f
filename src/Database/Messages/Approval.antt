-- ===== src/Database/Messages/Approval.antt =====
-- `approve_message` of src/personal_voice_msg/database.py, with its loop.
use personal_voice_msg.Prelude.{
  ℕ, zero, suc, ◌≡◌, refl, ap, ◌∙◌, ◌≢◌, ◌<◌, Bool, true, false, Option, none, some, arith, ◌==◌,
  ==_iff, Bool-cases, inl, inr,
}
use personal_voice_msg.Exec.Ends.{
  Ends, Ends-then, Ends-bind, Ends-if, Ends-pure, Ends-raise_if, Ends-lift, Ends-gets, Ends-modify,
  Ends-or_raise, Ends-transaction,
}
use personal_voice_msg.Rows.{find, count, changed, find-update, find-eq-some}
use personal_voice_msg.Rows.Keyed.{IsKeyed, IsKeyed-update, count-eq-one}
use personal_voice_msg.Scheduling.{aware}
use personal_voice_msg.Database.States.{
  MessageState, discovered, validated, approved, queued, is, is→eq, is_self, content_transition,
  is_content_step,
}
use personal_voice_msg.Database.Schema.{Message, Db, message_has_id}
use personal_voice_msg.Database.Messages.Differs.{Differs, Differs-update, Differs-refl}
use personal_voice_msg.Database.RecipientKey.{timestamp_of}
use personal_voice_msg.Database.Messages.{
  fetch_message, message_in_state, update_message_state, transition_message_in_transaction,
  approve_loop, approve_message,
}

-- The message `i` of a table whose ids grow, and nothing else, is now in the state `s`.
pub record Stands (i : ℕ) (s : MessageState) (db t : Db) : Type 0 where
  pub keyed : IsKeyed (λ m. m.id) t.messages
  pub m : Message
  pub found : find (message_has_id i) t.messages ≡ some m
  pub in_state : m.state ≡ s
  pub others :
      (j : ℕ) → i ≢ j → find (message_has_id j) t.messages ≡ find (message_has_id j) db.messages
  pub deliveries : t.deliveries ≡ db.deliveries
  pub differs : Differs i s db.messages t.messages
  pub rejections : t.rejections ≡ db.rejections

-- How many transitions lead from a state to `QUEUED`.
abbrev steps_left : MessageState → ℕ
steps_left discovered = 3
steps_left validated = 2
steps_left approved = 1
steps_left _ = 0

module _ (i : ℕ) (timestamp : ℕ) (db : Db) where
  abbrev moved_message : MessageState → Message → Message
  moved_message target m = record m { state = target; updated_at = timestamp }

  hit :
      (current : MessageState) (t : Db) (s : Stands i current db t)
      → message_in_state i current s.m ≡ true
  hit current t s =
      rw (find-eq-some (message_has_id i) t.messages s.m s.found, s.in_state, is_self current) refl

  missed :
      (current target : MessageState) (t : Db) (j : ℕ)
      → i ≢ j
      → (o : Option Message) → find (message_has_id j) t.messages ≡ o
      → changed (message_in_state i current) (moved_message target) o ≡ o
  missed current target t j other none e = refl
  missed current target t j other (some m) e =
      let its_id = (==_iff m.id j).0 (find-eq-some (message_has_id j) t.messages m e) in
      elim (Bool-cases (m.id == i)) [
        | inl same ↦ absurd (other (cc (its_id, (==_iff m.id i).0 same)))
        | inr differs ↦ rw differs refl
      ]

  update_lem :
      (current target : MessageState) (t : Db)
      → Stands i current db t
      → Ends
          (update_message_state i current target timestamp)
          t
          (λ n u. (n ≡ 1) × Stands i target db u)
          (λ e u. ⊥)
  unfolding update_message_state
  update_lem current target t s = Ends-bind _ _ t (
      Ends-gets _ t (
        Ends-bind _ _ t (
          Ends-modify _ t (
            Ends-pure _ _ (
              one,
              record {
                keyed =
                    IsKeyed-update (λ m. m.id) (message_in_state i current) (moved_message target)
                      t.messages (λ m. refl) s.keyed;
                m = moved_message target s.m;
                found =
                    find-update (message_has_id i) (message_in_state i current)
                      (moved_message target) t.messages (λ m. refl)
                    ∙ ap (changed (message_in_state i current) (moved_message target)) s.found
                    ∙ ap some (rw (hit current t s) refl);
                in_state = refl;
                others = λ j other.
                    find-update (message_has_id j) (message_in_state i current)
                      (moved_message target) t.messages (λ m. refl)
                    ∙ missed current target t j other (find (message_has_id j) t.messages) refl
                    ∙ s.others j other;
                deliveries = s.deliveries;
                differs =
                    Differs-update i current target timestamp db.messages t.messages s.differs;
                rejections = s.rejections;
              },
            )))))
    where
      one : count (message_in_state i current) t.messages ≡ 1
      one =
          count-eq-one (λ m. m.id) i (λ m. is m.state current) t.messages s.m s.keyed s.found
            (rw s.in_state (is_self current))

  pub transition_lem :
      (current target : MessageState) (t : Db)
      → is_content_step current target ≡ true
      → Stands i current db t
      → Ends
          (transition_message_in_transaction i target timestamp)
          t
          (λ _ u. Stands i target db u)
          (λ e u. ⊥)
  unfolding transition_message_in_transaction fetch_message
  transition_lem current target t step s = Ends-bind _ _ t (
      Ends-bind _ _ t (
        Ends-gets _ t (
          Ends-or_raise _ _ t
            (λ m e.
              let in_current : m.state ≡ current = cc (s.found, e, s.in_state) in
              Ends-bind _ _ t (
                Ends-raise_if _ _ t
                  (λ _. rw in_current (
                    Ends-then _ _ t (update_lem current target t s)
                      (λ n u (one, k).
                        Ends-raise_if _ _ u (λ _. k) (λ bad. absurd (ground (arith, one, bad))))
                      (λ e u never. never)))
                  (λ bad. absurd (cc (bad, step, in_current)))))
            (λ e. absurd (cc (e, s.found))))))

-- The states that a message of the queue's making goes through.
abbrev pub in_content : MessageState → Bool
in_content discovered = true
in_content validated = true
in_content approved = true
in_content queued = true
in_content _ = false

next_step :
    (current target : MessageState)
    → content_transition current ≡ some target
    → (is_content_step current target ≡ true)
      × (in_content target ≡ true)
      × (steps_left current ≡ suc (steps_left target))
unfolding content_transition is_content_step is
next_step current target e = ground arith

few_steps : (s : MessageState) → steps_left s < 4
few_steps s = ground arith

has_step :
    (current : MessageState)
    → in_content current ≡ true
    → is current queued ≡ false
    → content_transition current ≡ none
    → ⊥
unfolding content_transition is
has_step current c q e = ground arith

module _ (i : ℕ) (timestamp : ℕ) (db : Db) where
  loop_lem :
      (fuel : ℕ) (current : MessageState) (t : Db)
      → in_content current ≡ true
      → steps_left current < fuel
      → Stands i current db t
      → Ends (approve_loop fuel i current timestamp) t (λ _ u. Stands i queued db u) (λ e u. ⊥)
  unfolding approve_loop
  loop_lem zero current t c enough s = absurd (omega arith)
  loop_lem (suc fuel) current t c enough s =
      Ends-if (is current queued) _ _ t
        (λ there. Ends-pure _ t (rw (← is→eq current queued there) s))
        (λ away. Ends-bind _ _ t (
          Ends-or_raise _ _ t
            (λ target e.
              let (step, content, shorter) = next_step current target e in
              Ends-then _ _ t (transition_lem i timestamp db current target t step s)
                (λ _ u k. loop_lem fuel target u content (omega arith) k) (λ e u never. never))
            (has_step current c away)))

pub approve_message_lem :
    (i t : ℕ) (db : Db) (m : Message)
    → IsKeyed (λ m. m.id) db.messages
    → find (message_has_id i) db.messages ≡ some m
    → in_content m.state ≡ true
    → is m.state queued ≡ false
    → Ends (approve_message i (aware t)) db (λ _ u. Stands i queued db u) (λ e u. ⊥)
unfolding approve_message fetch_message timestamp_of
approve_message_lem i t db m keyed found content away = Ends-bind _ _ db (
    Ends-lift _ db
      (λ timestamp _. Ends-transaction _ db (
        Ends-bind _ _ db (
          Ends-bind _ _ db (
            Ends-gets _ db (
              Ends-or_raise _ _ db
                (λ x e.
                  let same : x ≡ m = cc (found, e) in
                  Ends-bind _ _ db (
                    Ends-raise_if _ _ db
                      (λ _.
                        loop_lem i timestamp db 4 x.state db (rw same content) (few_steps x.state)
                          (record {
                            keyed = keyed;
                            m = x;
                            found = e;
                            in_state = refl;
                            others = λ j _. refl;
                            deliveries = refl;
                            differs = Differs-refl i db.messages x keyed e;
                            rejections = refl;
                          }))
                      (λ bad. absurd (cc (bad, away, same)))))
                (λ e. absurd (cc (e, found))))))))
      (λ e h. cc))

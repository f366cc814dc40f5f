-- ===== src/QueueRefill/Deciding.antt =====
-- One decision of `refill_queue` (src/personal_voice_msg/queue_refill.py), carried out.
use personal_voice_msg.Prelude.{
  ℕ, ◌≡◌, ◌≢◌, refl, ap, sym, ◌∙◌, inl, inr, ◌<◌, Bool, true, false, not, ◌&&◌, ◌||◌, some, List,
  [], ◌∷◌, ◌++◌, ◌==◌, ==_iff, any, any-append_last, arith, Bool-cases,
}
use personal_voice_msg.Prelude.Text.{Text}
use personal_voice_msg.Exec.Ends.{Ends, Ends-bind, Ends-if, Ends-gets, Ends-or_raise, Ends-weaken}
use personal_voice_msg.Rows.{find, count, find-eq-some}
use personal_voice_msg.Rows.Keyed.{IsKeyed}
use personal_voice_msg.Scheduling.{aware}
use personal_voice_msg.Judging.{SafetyDecision}
use personal_voice_msg.Judging.Approved.{HasReason}
use personal_voice_msg.Database.States.{MessageState, discovered, validated, queued, is}
use personal_voice_msg.Database.Schema.{Message, Rejection, Db}
use personal_voice_msg.Database.Messages.{count_queued_messages, is_unjudged, is_queued}
use personal_voice_msg.Database.Messages.Differs.{find_by_id, count-Differs-lt}
use personal_voice_msg.Database.Messages.Approval.{Stands, in_content, approve_message_lem}
use personal_voice_msg.Database.Messages.Rejecting.{Rejects, reject_message_lem}
use personal_voice_msg.QueueRefill.{apply_decision}

-- How many messages wait for a decision.
abbrev pub unjudged : Db → ℕ
unjudged db = count (is_unjudged db) db.messages

-- A step of the loop: a table whose ids grow, fewer messages to judge, and the same deliveries.
pub record Shrinks (db t : Db) : Type 0 where
  pub keyed : IsKeyed (λ m. m.id) t.messages
  pub fewer : unjudged t < unjudged db
  pub deliveries : t.deliveries ≡ db.deliveries

any-append_other :
    {A : Type 0} (p : A → Bool) (xs : List A) (x : A)
    → p x ≡ false
    → any p (xs ++ x ∷ []) ≡ any p xs
any-append_other p [] x h = ground (arith, h)
any-append_other p (y ∷ xs) x h = ground (arith, any-append_other p xs x)

queued_judged :
    (b : Bool) (s : MessageState) → s ≡ queued → (is s discovered || is s validated) && b ≡ false
unfolding is
queued_judged b s e = rw e refl

waiting-in_content :
    (b : Bool) (s : MessageState)
    → (is s discovered || is s validated) && b ≡ true
    → (in_content s ≡ true)
      × (is s queued ≡ false)
      × ((is s discovered || is s validated) ≡ true)
      × (b ≡ true)
unfolding is
waiting-in_content b s h = ground arith

abbrev rejects : ℕ → Rejection → Bool
rejects i r = r.message_id == i

conjunction_false : (a b : Bool) → b ≡ true → a && not b ≡ false
conjunction_false a b h = ground arith

differ : (i j : ℕ) → i ≢ j → (i == j) ≡ false
differ i j h = elim (Bool-cases (i == j)) [ inl e ↦ absurd (h ((==_iff i j).0 e)) | inr e ↦ e ]

module _ (db : Db) (m : Message) (found : find (is_unjudged db) db.messages ≡ some m) where
  approved-Shrinks : (t : Db) → Stands m.id queued db t → Shrinks db t
  approved-Shrinks t s = record {
    keyed = s.keyed;
    fewer =
        count-Differs-lt (is_unjudged db) (is_unjudged t) m.id queued
          (λ y e f. queued_judged _ y.state f) (λ x other. rw s.rejections refl) db.messages
          t.messages m s.differs found refl;
    deliveries = s.deliveries;
  }

  rejected-Shrinks : (reason : Text) (t : Db) → Rejects m.id reason db t → Shrinks db t
  rejected-Shrinks reason t r = record {
    keyed = r.keyed;
    fewer =
        count-Differs-lt (is_unjudged db) (is_unjudged t) m.id validated
          (λ y e f.
            conjunction_false (is y.state discovered || is y.state validated)
              (any (rejects y.id) t.rejections)
              (ap (any (rejects y.id)) r.rejections
                ∙ any-append_last (rejects y.id) db.rejections r.row
                    ((==_iff r.row.message_id y.id).1 (r.its_message ∙ sym e))))
          (λ x other.
            ap (λ (b : Bool). (is x.state discovered || is x.state validated) && not b)
              (ap (any (rejects x.id)) r.rejections
                ∙ any-append_other (rejects x.id) db.rejections r.row
                    (differ r.row.message_id x.id (λ e. other (sym e ∙ r.its_message)))))
          db.messages t.messages m r.differs found refl;
    deliveries = r.deliveries;
  }

pub count_queued_lem :
    (db : Db)
    → Ends count_queued_messages db (λ n t. (t ≡ db) × (n ≡ count is_queued db.messages)) (λ e t. ⊥)
unfolding count_queued_messages
count_queued_lem db = Ends-gets _ db (refl, refl)

module _ (t : ℕ) (db : Db) (keyed : IsKeyed (λ m. m.id) db.messages) (m : Message)
    (found : find (is_unjudged db) db.messages ≡ some m) where
  abbrev waiting :
      (in_content m.state ≡ true)
      × (is m.state queued ≡ false)
      × ((is m.state discovered || is m.state validated) ≡ true)
      × (not (any (rejects m.id) db.rejections) ≡ true)
  waiting =
      waiting-in_content (not (any (rejects m.id) db.rejections)) m.state
        (find-eq-some (is_unjudged db) db.messages m found)

  was_false : (b : Bool) → not b ≡ true → b ≡ false
  was_false true h = cc
  was_false false h = refl

  -- A decision on the oldest waiting message is carried out, and fewer wait then.
  pub apply_decision_lem :
      (d : SafetyDecision)
      → HasReason d
      → Ends (apply_decision m.id d (aware t)) db (λ _ u. Shrinks db u) (λ e u. ⊥)
  unfolding apply_decision
  apply_decision_lem d why =
      let by_id = find_by_id (is_unjudged db) db.messages m keyed found in
      let (content, away, pending, unrejected) = waiting in
      Ends-if d.approved _ _ db
        (λ _.
          Ends-weaken _ db (approve_message_lem m.id t db m keyed by_id content away)
            (λ _ u _ s. approved-Shrinks db m found u s) (λ e u _ never. never))
        (λ refused.
          let (reason, e, told) = why refused in
          Ends-bind _ _ db (
            Ends-or_raise _ _ db
              (λ r f.
                let same : r ≡ reason = cc (e, f) in
                Ends-weaken _ db
                  (reject_message_lem m.id t r db m keyed by_id pending (was_false _ unrejected)
                    (rw same told))
                  (λ _ u _ k. rejected-Shrinks db m found r u k) (λ e u _ never. never))
              (λ f. absurd (cc (e, f)))))

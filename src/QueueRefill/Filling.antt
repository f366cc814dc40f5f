-- ===== src/QueueRefill/Filling.antt =====
-- The loop of `refill_queue` (src/personal_voice_msg/queue_refill.py) and its fuel.
use personal_voice_msg.Prelude.{
  ℕ, zero, suc, ◌≡◌, refl, ap, ◌∙◌, ◌⊎◌, inl, inr, ◌<◌, Bool, true, false, not, Option, none, some,
  ltb, arith,
}
use personal_voice_msg.Prelude.Text.{Text}
use mathlib.Core.Path.{subst}
use personal_voice_msg.Exec.{Error}
use personal_voice_msg.Generation.Gemini.{Reply, escaped}
use personal_voice_msg.Judging.Judge.{safe_sentence}
use personal_voice_msg.Exec.Ends.{
  Ends, Ends-then, Ends-bind, Ends-if, Ends-pure, Ends-gets, Ends-lift, Ends-weaken,
}
use personal_voice_msg.Rows.{find, count}
use personal_voice_msg.Rows.Keyed.{IsKeyed}
use personal_voice_msg.Scheduling.{aware}
use personal_voice_msg.Normalization.{Unicode}
use personal_voice_msg.Judging.Approved.{Evaluated, evaluate_message_safety-Evaluated}
use personal_voice_msg.Database.Schema.{Message, Db}
use personal_voice_msg.Database.Messages.{
  next_unjudged_message, is_unjudged, is_queued, id_and_text,
}
use personal_voice_msg.QueueRefill.{RefillResult, judge_next, refill_loop, refill_queue}
use personal_voice_msg.QueueRefill.Deciding.{
  unjudged, Shrinks, count_queued_lem, apply_decision_lem,
}

module _ (u : Unicode) (generate : Text → Reply) (t target : ℕ) where
  -- The queue has the target, or no message waits for a decision; the deliveries are as before.
  pub record Filled (db after : Db) : Type 0 where
    pub full_or_dry :
        (ltb (count is_queued after.messages) target ≡ false)
        ⊎ (find (is_unjudged after) after.messages ≡ none)
    pub keyed : IsKeyed (λ m. m.id) after.messages
    pub deliveries : after.deliveries ≡ db.deliveries

  -- The loop stopped at an exception that the provider let through on a message that waits for a
  -- decision; the deliveries are as before.
  pub record Interrupted (db : Db) (e : Error) (after : Db) : Type 0 where
    pub m : Message
    pub waits : find (is_unjudged after) after.messages ≡ some m
    pub cause : generate (safe_sentence m.text) ≡ escaped e
    pub keyed : IsKeyed (λ x. x.id) after.messages
    pub deliveries : after.deliveries ≡ db.deliveries

  Interrupted-later :
      (db mid : Db) (e : Error) (after : Db)
      → Shrinks db mid
      → Interrupted mid e after
      → Interrupted db e after
  Interrupted-later db mid e after s k = record {
    m = k.m;
    waits = k.waits;
    cause = k.cause;
    keyed = k.keyed;
    deliveries = k.deliveries ∙ s.deliveries;
  }

  Filled-later : (db mid after : Db) → Shrinks db mid → Filled mid after → Filled db after
  Filled-later db mid after s f = record {
    full_or_dry = f.full_or_dry;
    keyed = f.keyed;
    deliveries = f.deliveries ∙ s.deliveries;
  }

  loop_lem :
      (fuel approved rejected : ℕ) (db : Db)
      → IsKeyed (λ m. m.id) db.messages
      → unjudged db < fuel
      → Ends
          (refill_loop u generate (aware t) target fuel approved rejected)
          db
          (λ _ v. Filled db v)
          (Interrupted db)
  unfolding refill_loop judge_next next_unjudged_message
  loop_lem zero approved rejected db keyed enough = absurd (omega arith)
  loop_lem (suc fuel) approved rejected db keyed enough =
      Ends-then _ _ db (count_queued_lem db)
        (λ n v (same, counted).
          rw (same, counted)
            (Ends-if (not (ltb (count is_queued db.messages) target)) _ _ db
              (λ full. Ends-pure _ db (done (inl (is_full _ full))))
              (λ _. Ends-bind _ _ db (
                Ends-gets _ db (
                  next
                    (λ a r w s.
                      Ends-weaken _ w (loop_lem fuel a r w s.keyed (omega (arith, s.fewer, enough)))
                        (λ _ x _ k. Filled-later db w x s k)
                        (λ e x _ k. Interrupted-later db w e x s k))
                    (find (is_unjudged db) db.messages) refl)))))
        (λ e v never. absurd never)
    where
      done :
          (ltb (count is_queued db.messages) target ≡ false)
            ⊎ (find (is_unjudged db) db.messages ≡ none)
          → Filled db db
      done h = record { full_or_dry = h; keyed = keyed; deliveries = refl }

      is_full : (b : Bool) → not b ≡ true → b ≡ false
      is_full true h = cc
      is_full false h = refl

      next :
          (rest : (a r : ℕ) (v : Db)
            → Shrinks db v
            → Ends
                (refill_loop u generate (aware t) target fuel a r)
                v
                (λ _ w. Filled db w)
                (Interrupted db))
          → (o : Option Message) → find (is_unjudged db) db.messages ≡ o
          → Ends
              (judge_next u generate
                (aware t)
                target
                (λ a r. refill_loop u generate (aware t) target fuel a r)
                approved
                rejected
                (id_and_text o))
              db
              (λ _ v. Filled db v)
              (Interrupted db)
      next rest none dry = Ends-pure _ db (done (inr dry))
      next rest (some m) found = Ends-bind _ _ db (
          Ends-lift _ db
            (λ d told.
              Ends-then _ _ db
                (apply_decision_lem t db keyed m found d (
                  subst (Evaluated u generate m.text) told
                    (evaluate_message_safety-Evaluated u generate m.text)))
                (λ _ v s.
                  Ends-if d.approved _ _ v (λ _. rest (suc approved) rejected v s)
                    (λ _. rest approved (suc rejected) v s))
                (λ e v never. absurd never))
            (λ e raised. record {
              m = m;
              waits = found;
              cause =
                  subst (Evaluated u generate m.text) raised
                    (evaluate_message_safety-Evaluated u generate m.text);
              keyed = keyed;
              deliveries = refl;
            }))

  -- A result of `refill_queue`, and the database that it leaves.
  abbrev pub Refilled : Db → RefillResult → Db → Type 0
  Refilled db result after =
      (result.health.queued_count ≡ count is_queued after.messages)
      × (result.health.below_minimum ≡ ltb (count is_queued after.messages) target)
      × Filled db after

  -- On a table whose ids grow, at an aware time and with more fuel than messages wait for a
  -- decision, `refill_queue` returns or raises an exception that `generate_structured` let through
  -- on the message that waits next. Where it returns, the queue has the target or nothing is left to
  -- judge, and the reported health is that of the queue it leaves. No delivery changes.
  pub refill_queue_lem :
      (fuel : ℕ) (db : Db)
      → IsKeyed (λ m. m.id) db.messages
      → unjudged db < fuel
      → Ends (refill_queue u generate (aware t) target fuel) db (Refilled db) (Interrupted db)
  unfolding refill_queue
  refill_queue_lem fuel db keyed enough =
      Ends-then _ _ db (loop_lem fuel 0 0 db keyed enough)
        (λ counts v f.
          Ends-then _ _ v (count_queued_lem v)
            (λ n w (same, counted).
              Ends-pure _ w (rw same (counted, ap (λ (k : ℕ). ltb k target) counted, f)))
            (λ e w never. absurd never))
        (λ e v k. k)

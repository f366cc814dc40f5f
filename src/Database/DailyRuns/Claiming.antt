-- ===== src/Database/DailyRuns/Claiming.antt =====
-- `claim_daily_run` of src/personal_voice_msg/database.py.
use personal_voice_msg.Prelude.{
  ℕ, ◌≡◌, refl, ◌∙◌, Bool, true, false, not, Option, none, some, [], ◌∷◌, ◌++◌, arith, is_some,
  is_some-eq-false,
}
use personal_voice_msg.Prelude.Text.{Text, same_text_self}
use personal_voice_msg.Exec.{ok}
use personal_voice_msg.Exec.Ends.{
  Ends, Ends-bind, Ends-if, Ends-pure, Ends-raise_if, Ends-lift, Ends-gets, Ends-modify,
  Ends-or_raise, Ends-transaction, Ends-weaken,
}
use personal_voice_msg.Rows.{find, find-append}
use personal_voice_msg.Scheduling.{
  Datetime, Zone, TriggerStatus, ScheduledTrigger, due, daily_prepare, scheduled_trigger,
  classify_trigger, is_due,
}
use personal_voice_msg.Scheduling.Windows.{first_prepare}
use personal_voice_msg.Database.States.{claimed}
use personal_voice_msg.Database.Schema.{DailyRun, Db, run_is_for}
use personal_voice_msg.Database.RecipientKey.{is_opaque_recipient_key}
use personal_voice_msg.Database.DailyRuns.{insert_daily_run, claim_daily_run}

module _ (z : Zone) (key : Text) (date : ℕ) (now : Datetime) (db : Db) where
  -- A claim that returns a run: it lies in the window, the date had no run, and now has this one.
  pub record Claims (run : DailyRun) (t : Db) : Type 0 where
    pub in_window : classify_trigger (scheduled_trigger z daily_prepare date) now ≡ ok due
    pub opaque : is_opaque_recipient_key key ≡ true
    pub first : find (run_is_for key date) db.daily_runs ≡ none
    pub in_state : run.state ≡ claimed
    pub stored : find (run_is_for key date) t.daily_runs ≡ some run
    pub added : t.daily_runs ≡ db.daily_runs ++ run ∷ []
    pub deliveries : t.deliveries ≡ db.deliveries

  abbrev pub Claimed : Option DailyRun → Db → Type 0
  Claimed none t = (t ≡ db) × (is_some (find (run_is_for key date) db.daily_runs) ≡ true)
  Claimed (some run) t = Claims run t

  own_run :
      (id timestamp : ℕ)
      → run_is_for key date (record {
        id = id;
        recipient_key = key;
        pacific_date = date;
        state = claimed;
        started_at = timestamp;
        finished_at = none;
      })
        ≡ true
  own_run id timestamp = rw (same_text_self key) (ground arith)

  insert_lem :
      (timestamp : ℕ)
      → classify_trigger (scheduled_trigger z daily_prepare date) now ≡ ok due
      → is_opaque_recipient_key key ≡ true
      → find (run_is_for key date) db.daily_runs ≡ none
      → Ends (insert_daily_run key date timestamp) db Claimed (λ e t. ⊥)
  unfolding insert_daily_run
  insert_lem timestamp h q first = Ends-bind _ _ db (
      Ends-gets _ db (
        Ends-bind _ _ db (
          Ends-gets _ db (
            Ends-if (is_some (find (run_is_for key date) db.daily_runs)) _ _ db
              (λ there. absurd (ground (arith, there, first)))
              (λ _. Ends-bind _ _ db (
                Ends-modify _ db (
                  Ends-pure _ _ (record {
                    in_window = h;
                    opaque = q;
                    first = first;
                    in_state = refl;
                    stored =
                        find-append (run_is_for key date) db.daily_runs _
                        ∙ rw (first, own_run _ timestamp) refl;
                    added = refl;
                    deliveries = refl;
                  }))))))))

  status_due : (status : TriggerStatus) → is_due status ≡ true → status ≡ due
  status_due status h = ground arith

  -- A claim returns a run exactly in the prepare window of a date that had none, and stores it; it
  -- returns no run where the date has one, and changes nothing then or where it raises.
  pub claim_daily_run_lem : Ends (claim_daily_run z key date now) db Claimed (λ e t. t ≡ db)
  unfolding claim_daily_run
  claim_daily_run_lem = Ends-bind _ _ db (
      Ends-raise_if _ _ db
        (λ opaque. Ends-bind _ _ db (
          Ends-lift _ db
            (λ timestamp _. Ends-transaction _ db (
              Ends-bind _ _ db (
                Ends-gets _ db (
                  Ends-if (is_some (find (run_is_for key date) db.daily_runs)) _ _ db
                    (λ there. Ends-pure _ db (refl, there))
                    (λ missing. rw (first_prepare z date) (
                      Ends-bind _ _ db (
                        Ends-or_raise _ _ db
                          (λ trigger e. Ends-bind _ _ db (
                            Ends-lift _ db
                              (λ status f. Ends-bind _ _ db (
                                Ends-raise_if _ _ db
                                  (λ opened.
                                    Ends-weaken _ db
                                      (insert_lem timestamp (in_window trigger status e f opened)
                                        (passed _ opaque) (is_some-eq-false _ missing))
                                      (λ o t _ k. k) (λ e t _ never. absurd never))
                                  (λ _. refl)))
                              (λ e _. refl)))
                          (λ e. refl))))))))
            (λ e _. refl)))
        (λ _. refl))
    where
      passed : (b : Bool) → not b ≡ false → b ≡ true
      passed true h = refl
      passed false h = cc

      in_window :
          (trigger : ScheduledTrigger) (status : TriggerStatus)
          → some (scheduled_trigger z daily_prepare date) ≡ some trigger
          → classify_trigger trigger now ≡ ok status
          → not (is_due status) ≡ false
          → classify_trigger (scheduled_trigger z daily_prepare date) now ≡ ok due
      in_window trigger status e f opened =
          let planned : scheduled_trigger z daily_prepare date ≡ trigger = cc in
          let now_due : status ≡ due = status_due status (passed _ opened) in
          cc (planned, f, now_due)

-- ===== src/Database/DailyRuns/Once.antt =====
-- A recipient's date is claimed at most once (src/personal_voice_msg/database.py).
use personal_voice_msg.Prelude.{
  ℕ, ◌≡◌, ◌≢◌, refl, ap, ◌∙◌, Bool, true, Option, none, some, List, is_some,
}
use personal_voice_msg.Prelude.Text.{Text}
use personal_voice_msg.Exec.{Exec, ⊤, ok, pure, ◌>>◌}
use personal_voice_msg.Exec.Ends.{Ends-returned, Ends-weaken}
use personal_voice_msg.Exec.Keeps.{
  Keeps, Keeps-of_Ends, Keeps-modify, Keeps-pure, Keeps-lift, Keeps-gets, Keeps-or_raise,
  Keeps-raise_if, Keeps-transaction, Keeps-bind, run_each, run_each-Keeps,
}
use personal_voice_msg.Rows.{find, changed, find-update, find-append, or_else}
use personal_voice_msg.Scheduling.{Datetime, Zone}
use personal_voice_msg.Database.Schema.{DailyRun, Db, run_is_for}
use personal_voice_msg.Database.DailyRuns.{claim_daily_run, complete_daily_run, is_claimed_run}
use personal_voice_msg.Database.DailyRuns.Claiming.{Claimed, claim_daily_run_lem}

-- A call that writes the table of the daily runs.
pub data DailyCall : Type 0 where
  claiming : Text → ℕ → Datetime → DailyCall
  completing : ℕ → Datetime → DailyCall

abbrev pub daily_call : Zone → DailyCall → Exec Db ⊤
daily_call z (claiming key date now) = claim_daily_run z key date now >> pure tt
daily_call z (completing run_id now) = complete_daily_run z run_id now >> pure tt

module _ (z : Zone) (key : Text) (date : ℕ) where
  abbrev IsTaken : Db → Type 0
  IsTaken db = is_some (find (run_is_for key date) db.daily_runs) ≡ true

  is_some-changed :
      (q : DailyRun → Bool) (change : DailyRun → DailyRun) (o : Option DailyRun)
      → is_some o ≡ true
      → is_some (changed q change o) ≡ true
  is_some-changed q change none h = h
  is_some-changed q change (some r) h = refl

  complete_daily_run-IsTaken :
      (run_id : ℕ) (now : Datetime) → Keeps IsTaken (complete_daily_run z run_id now)
  unfolding complete_daily_run
  complete_daily_run-IsTaken run_id now = Keeps-bind _ _ (Keeps-lift _) λ timestamp.
      Keeps-transaction _ (
        Keeps-bind _ _ (Keeps-gets _) λ row. Keeps-bind _ _ (Keeps-or_raise _ row) λ r.
          Keeps-bind _ _ (Keeps-raise_if _ _) λ _. Keeps-bind _ _ (Keeps-raise_if _ _) λ _.
            Keeps-bind _ _ (Keeps-raise_if _ _) λ _. Keeps-bind _ _ (Keeps-gets _) λ rowcount.
              Keeps-bind _ _
                (Keeps-modify _ (λ db taken.
                  ap is_some (
                    find-update (run_is_for key date) (is_claimed_run z run_id) _ db.daily_runs
                      (λ r. refl))
                  ∙ is_some-changed (is_claimed_run z run_id) _
                      (find (run_is_for key date) db.daily_runs) taken))
                λ _. Keeps-bind _ _ (Keeps-raise_if _ _) λ _. Keeps-pure _)

  is_some-or_else : (a b : Option DailyRun) → is_some a ≡ true → is_some (or_else a b) ≡ true
  is_some-or_else none b h = absurd (cc h)
  is_some-or_else (some r) b h = refl

  claim_daily_run-IsTaken :
      (other : Text) (day : ℕ) (now : Datetime) → Keeps IsTaken (claim_daily_run z other day now)
  claim_daily_run-IsTaken other day now = Keeps-of_Ends _ (λ db taken.
      Ends-weaken _ db (claim_daily_run_lem z other day now db) (claimed db taken)
        (λ e t _ same. rw same taken))
    where
      claimed :
          (db : Db)
          → IsTaken db
          → (o : Option DailyRun) (t : Db) → claim_daily_run z other day now db ≡ (ok o, t)
          → Claimed z other day now db o t
          → IsTaken t
      claimed db taken none t _ (same, _) = rw same taken
      claimed db taken (some run) t _ k = rw k.added (
          ap is_some (find-append (run_is_for key date) db.daily_runs run)
          ∙ is_some-or_else _ _ taken)

  daily_call-IsTaken : (c : DailyCall) → Keeps IsTaken (daily_call z c)
  daily_call-IsTaken (claiming other day now) =
      Keeps-bind _ _ (claim_daily_run-IsTaken other day now) λ _. Keeps-pure _
  daily_call-IsTaken (completing run_id now) =
      Keeps-bind _ _ (complete_daily_run-IsTaken run_id now) λ _. Keeps-pure _

  -- A date is claimed once: after a claim that returned a run, and any further claims and
  -- completions for whatever recipients, dates and runs, no claim for the same recipient and date
  -- returns a run, at whatever time.
  pub claimed_once :
      (now later : Datetime) (db t u : Db) (run other : DailyRun) (calls : List DailyCall)
      → claim_daily_run z key date now db ≡ (ok (some run), t)
      → claim_daily_run z key date later (run_each (daily_call z) calls t) ≢ (ok (some other), u)
  claimed_once now later db t u run other calls e f =
      let first = Ends-returned _ db (claim_daily_run_lem z key date now db) (some run) t e in
      let taken =
        run_each-Keeps (daily_call z) calls t daily_call-IsTaken (ap is_some first.stored) in
      let second =
        Ends-returned _ (run_each (daily_call z) calls t)
          (claim_daily_run_lem z key date later (run_each (daily_call z) calls t)) (some other) u
          f in
      cc (taken, ap is_some second.first)

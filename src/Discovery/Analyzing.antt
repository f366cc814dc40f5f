-- ===== src/Discovery/Analyzing.antt =====
-- The records of `analyze_result` (src/personal_voice_msg/discovery/baseline.py).
use personal_voice_msg.Prelude.{
  ℕ, ◌≤◌, ◌≡◌, refl, arith, true, false, Option, none, some, List, length,
}
use personal_voice_msg.Prelude.Text.{Text}
use personal_voice_msg.Prelude.Checks.{Returns, Returns-bind, Returns-require, Returns-some}
use personal_voice_msg.Exec.{Error, Result, ok, err, lift, ◌>>=◌}
use personal_voice_msg.Exec.Ends.{Ends, Outcome, Ends-then, Ends-outcome, Ends-bind}
use personal_voice_msg.Scheduling.{aware, naive}
use personal_voice_msg.Discovery.Library.{Library}
use personal_voice_msg.Discovery.Policy.{FetchPolicy}
use personal_voice_msg.Discovery.Fetch.{Web}
use personal_voice_msg.Discovery.Redirect.{FetchedPage}
use personal_voice_msg.Discovery.Rules.{SourceRule}
use personal_voice_msg.Discovery.Session.{Session}
use personal_voice_msg.Discovery.Hits.{Matched, matching_rule-Matched}
use personal_voice_msg.Discovery.Pages.{IsSound, fetch_public_page-Returned}
use personal_voice_msg.Discovery.Analysis.{
  DiscoveryRecord, Analyzed, accepted, rejected, exhausted, Analyzer, Extraction, Clock, told,
  broken, no_memory, min_extracted_characters, max_extracted_characters, record_of, extracted,
  conclude_analysis, analyze, analyze_fetched_page, capture_retrieval_time,
}
use personal_voice_msg.Discovery.Baseline.{analyze_result}

module _ (lib : Library) (x : Extraction) (rules : List SourceRule) (analyzer : Analyzer) where
  -- The analyzer has accepted a text of bounded length from a curated source at an instant.
  abbrev pub IsAnalysis : ℕ → DiscoveryRecord → Type 0
  IsAnalysis instant found =
      (text : Text) × (rule : SourceRule) × (analyzer text found ≡ accepted)
      × (min_extracted_characters ≤ length text)
      × (length text ≤ max_extracted_characters)
      × Matched lib rules found.source_url rule
      × (found.rights_evidence ≡ rule.rights_evidence)
      × (found.retrieved_at ≡ instant)

  extracted-Matched :
      (page : FetchedPage)
      → Returns (extracted lib x rules page) (λ found.
        (min_extracted_characters ≤ length (found.0))
        × (length (found.0) ≤ max_extracted_characters)
        × Matched lib rules page.final_url (found.1))
  unfolding extracted
  extracted-Matched page = Returns-bind _ _ (λ rule matched. Returns-require _ _ (λ supported.
      Returns-bind _ _ (λ text _. Returns-require _ _ (λ bounded. Returns-some _ (
        ground (arith, bounded),
        ground (arith, bounded),
        (matching_rule-Matched lib rules page.final_url).at rule matched,
      )))))

  -- A record that is returned is an analysis.
  abbrev Settles : ℕ → Result DiscoveryRecord → Type 0
  Settles instant (ok found) = IsAnalysis instant found
  Settles instant (err e) = Unit

  concluded :
      (instant : ℕ) (made : DiscoveryRecord) (end : Analyzed)
      → (end ≡ accepted → IsAnalysis instant made)
      → Settles instant (conclude_analysis lib x rules end made)
  concluded instant made accepted h = h refl
  concluded instant made rejected h = tt
  concluded instant made exhausted h = tt

  analyzed :
      (page : FetchedPage) (instant : ℕ) (o : Option (Text × SourceRule))
      → extracted lib x rules page ≡ o
      → Settles instant (analyze lib x rules analyzer page instant o)
  analyzed page instant none e = tt
  analyzed page instant (some (text, rule)) e =
      let (long, short, matched) = (extracted-Matched page).at (text, rule) e in
      concluded instant (record_of lib x rules page instant rule) _
        (λ fine. (text, rule, fine, long, short, matched, refl, refl))

  module _ (web : Web) (policy : FetchPolicy) (id : Text) (s : Session) where
    -- The clock told the aware instant of the record, and no fetch goes on.
    abbrev pub Recorded : Clock → DiscoveryRecord → Session → Type 0
    Recorded clock found t =
        (clock ≡ told (aware found.retrieved_at))
        × IsAnalysis found.retrieved_at found
        × IsSound lib t
        × (t.fetch_in_progress ≡ false)

    -- A fetch that goes on was there before.
    abbrev pub Unrecorded : Error → Session → Type 0
    Unrecorded e t = IsSound lib t × (t.fetch_in_progress ≡ true → s.fetch_in_progress ≡ true)

    settled :
        (instant : ℕ) (result : Result DiscoveryRecord) (t : Session)
        → IsSound lib t
        → t.fetch_in_progress ≡ false
        → Settles instant result
        → Outcome (Recorded (told (aware instant))) Unrecorded result t
    settled instant (ok found) t sound free (text, rule, a, long, short, m, r, at) =
        (rw at refl, (text, rule, a, long, short, m, r, refl), sound, free)
    settled instant (err e) t sound free h = (sound, λ busy. cc)

    recorded :
        (clock : Clock) (page : FetchedPage) (t : Session)
        → IsSound lib t
        → t.fetch_in_progress ≡ false
        → Ends
            (lift (capture_retrieval_time clock) >>= λ retrieved_at.
              lift (analyze_fetched_page lib x rules page retrieved_at analyzer))
            t
            (Recorded clock)
            Unrecorded
    unfolding capture_retrieval_time analyze_fetched_page
    recorded (told (aware instant)) page t sound free = Ends-bind _ _ t (
        Ends-outcome _ t
          (Ends-outcome _ t (settled instant _ t sound free (analyzed page instant _ refl))))
    recorded (told (naive instant)) page t sound free =
        Ends-bind _ _ t (Ends-outcome _ t (sound, λ busy. cc))
    recorded broken page t sound free = Ends-bind _ _ t (Ends-outcome _ t (sound, λ busy. cc))
    recorded no_memory page t sound free = Ends-bind _ _ t (Ends-outcome _ t (sound, λ busy. cc))

    -- From a sound session, `analyze_result` returns a record only for a page whose canonical URL
    -- has the hostname of a rule or one below it, at the aware instant that the clock told, after
    -- the analyzer accepted that record with a text of 40 to 100,000 characters. However it ends,
    -- the session is sound and no fetch is left in progress that was not before.
    pub analyze_result-Recorded :
        (clock : Clock)
        → IsSound lib s
        → Ends
            (analyze_result lib web policy x rules id clock analyzer)
            s
            (Recorded clock)
            Unrecorded
    unfolding analyze_result
    analyze_result-Recorded clock sound =
        Ends-then _ _ s (fetch_public_page-Returned lib web policy id s sound)
          (λ page t h. recorded clock page t (h.2) (h.3))
          (λ e t h. (h.1, λ busy. rw (← (h.2)) busy))

-- ===== src/Discovery/Capabilities.antt =====
-- The result ids of a `DiscoveryWebSession` (src/personal_voice_msg/discovery/web.py).
use personal_voice_msg.Prelude.{
  ℕ, suc, ◌+◌, ◌≤◌, ◌≡◌, refl, arith, false, ◌⊎◌, inl, inr, some, List, [], ◌∷◌, map, if◌then◌else◌,
  Bool-cases,
}
use personal_voice_msg.Prelude.Text.{Text, same_text, same_text→eq, count_text}
use personal_voice_msg.Exec.{Error, Result, ok, err, killed}
use personal_voice_msg.Exec.Ends.{
  Ends, Outcome, Ends-bind, Ends-weaken, Ends-then, Ends-or_raise, Ends-raise_if, Ends-gets,
  Ends-modify, Ends-pure,
}
use personal_voice_msg.Discovery.Library.{Library}
use personal_voice_msg.Discovery.Metadata.{SearchResult, Prepared}
use personal_voice_msg.Discovery.Session.{
  StoredResult, Session, stored_url, remove_result, store, issue, record_search_results,
  start_fetch, finish_fetch, close,
}
use personal_voice_msg.Discovery.Calls.{
  Call, record_hits, start, finish, shut, Event, is_killed, after, perform, trace, issues, starts,
  total,
}

-- How often an id stands in the table of results.
unfoldable pub held : Text → List StoredResult → ℕ
held id [] = 0
held id (stored ∷ results) =
    let rest = held id results in if same_text id stored.result_id then suc rest else rest

abbrev pub ids : List SearchResult → List Text
ids results = map (λ result. result.result_id) results

issue-held :
    (id : Text) (hits : List Prepared) (s : Session)
    → Ends
        (issue hits)
        s
        (λ results t. held id t.results ≡ held id s.results + count_text id (ids results))
        (λ e _. e ≡ killed)
unfolding issue held count_text
issue-held id [] s = Ends-pure _ s (omega arith)
issue-held id (hit ∷ more) s = Ends-bind _ _ s (
    Ends-gets _ s (
      Ends-bind _ _ s (
        Ends-or_raise _ _ s
          (λ token drawn. Ends-bind _ _ s (
            Ends-modify _ s (
              Ends-then _ _ _ (issue-held id more (store (token.0) hit (token.1) s))
                (λ results t h. Ends-pure _ t (ground (arith, h))) (λ e t h. h))))
          (λ _. refl))))

module _ (id other : Text) where
  removed-held :
      (results : List StoredResult) (url : Text)
      → stored_url other results ≡ some url
      → held id (remove_result other results) + (if same_text id other then 1 else 0)
        ≡ held id results
  unfolding held stored_url remove_result
  removed-held [] url h = cc
  removed-held (stored ∷ results) url h = elim (Bool-cases (same_text other stored.result_id)) [
    | inl same ↦ rw (same, same_text→eq other stored.result_id same) (ground arith)
    | inr apart ↦ ground (arith, apart, h, removed-held results url)
  ]

  removed-held-le :
      (results : List StoredResult) → held id (remove_result other results) ≤ held id results
  unfolding held remove_result
  removed-held-le [] = omega arith
  removed-held-le (stored ∷ results) = ground (arith, removed-held-le results)

module _ (lib : Library) (id : Text) where
  -- What a call gives away of an id was held or is issued by it; an error but the end of the
  -- process gives nothing away.
  abbrev Pays : Session → Event → Session → Type 0
  Pays s event t = starts id event + held id t.results ≤ issues id event + held id s.results

  abbrev Loses : Session → Error → Session → Type 0
  Loses s e t = (e ≡ killed) ⊎ (held id t.results ≤ held id s.results)

  start-Pays : (other : Text) (s : Session) → Ends (perform lib (start other)) s (Pays s) (Loses s)
  unfolding perform start_fetch
  start-Pays other s = Ends-bind _ _ s (
      Ends-bind _ _ s (
        Ends-gets _ s (
          Ends-bind _ _ s (
            Ends-raise_if _ _ s
              (λ _. Ends-bind _ _ s (
                Ends-gets _ s (
                  Ends-bind _ _ s (
                    Ends-modify _ s (
                      Ends-bind _ _ _ (
                        Ends-or_raise _ _ _
                          (λ url found. Ends-bind _ _ _ (
                            Ends-modify _ _ (
                              Ends-pure _ _ (
                                Ends-pure _ _
                                  (ground (arith, removed-held id other s.results url found))))))
                          (λ _. inr (removed-held-le id other s.results))))))))
              (λ _. inr (omega arith))))))

  perform-Pays : (call : Call) (s : Session) → Ends (perform lib call) s (Pays s) (Loses s)
  unfolding perform record_search_results finish_fetch close held
  perform-Pays (start other) s = start-Pays other s
  perform-Pays (record_hits hits) s = Ends-bind _ _ s (
      Ends-bind _ _ s (
        Ends-gets _ s (
          Ends-bind _ _ s (
            Ends-raise_if _ _ s
              (λ _. Ends-bind _ _ s (
                Ends-or_raise _ _ s
                  (λ prepared _.
                    Ends-weaken _ s (issue-held id prepared s)
                      (λ results t _ h. Ends-pure _ t (omega (arith, h))) (λ e t _ h. inl h))
                  (λ _. inr (omega arith))))
              (λ _. inr (omega arith))))))
  perform-Pays finish s = Ends-bind _ _ s (Ends-modify _ s (Ends-pure _ _ (omega arith)))
  perform-Pays shut s = Ends-bind _ _ s (
      Ends-bind _ _ s (
        Ends-gets _ s (
          Ends-bind _ _ s (
            Ends-raise_if _ _ s (λ _. Ends-modify _ s (Ends-pure _ _ (omega arith)))
              (λ _. inr (omega arith))))))

  lost :
      (s : Session) (e : Error) (t : Session) (events : List Event)
      → is_killed e ≡ false
      → Loses s e t
      → total (starts id) events ≤ total (issues id) events + held id t.results
      → total (starts id) events ≤ total (issues id) events + held id s.results
  lost s e t events alive (inl dead) k = cc
  lost s e t events alive (inr fewer) k = omega arith

  settle :
      (s : Session) (result : Result Event) (t : Session) (events : List Event)
      → Outcome (Pays s) (Loses s) result t
      → total (starts id) events ≤ total (issues id) events + held id t.results
      → total (starts id) (after result events)
        ≤ total (issues id) (after result events) + held id s.results
  unfolding total
  settle s (ok event) t events h k = omega arith
  settle s (err e) t events h k = elim (Bool-cases (is_killed e)) [
    | inl dead ↦ rw dead (omega arith)
    | inr alive ↦ rw alive (lost s e t events alive h k)
  ]

  -- Whatever is called in whatever order, a result id is fetched no more often than it was issued
  -- and is held at the start.
  pub trace-le :
      (calls : List Call) (s : Session)
      → total (starts id) (trace lib calls s)
        ≤ total (issues id) (trace lib calls s) + held id s.results
  unfolding trace total
  trace-le [] s = omega arith
  trace-le (call ∷ calls) s =
      settle s (perform lib call s).0 (perform lib call s).1 _ ((perform-Pays call s).at)
        (trace-le calls _)

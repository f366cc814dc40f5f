-- ===== src/Discovery/Pages.antt =====
-- The table of results of a `DiscoveryWebSession` (src/personal_voice_msg/discovery/web.py), and
-- the pages that are fetched through it.
use mathlib.Core.Path.{subst}
use personal_voice_msg.Prelude.{
  ℕ, ◌+◌, ◌≤◌, ◌≡◌, refl, sym, ◌∙◌, arith, true, false, ◌||◌, List, [], ◌∷◌, ltb, length, All,
  Bool-cases, inl, inr,
}
use personal_voice_msg.Prelude.Text.{Text, same_text}
use personal_voice_msg.Prelude.Checks.{
  each, Returns, Returns-bind, Returns-some, Returns-none, Returns-if,
}
use personal_voice_msg.Exec.{Error, Result, ok, err, boundary_error, lift}
use personal_voice_msg.Exec.Keeps.{
  Keeps, Keeps-of_Ends, Keeps-bind, Keeps-pure, Keeps-gets, Keeps-raise_if, Keeps-modify,
}
use personal_voice_msg.Exec.Ends.{
  Ends, Outcome, Ends-bind, Ends-then, Ends-weaken, Ends-lift, Ends-or_raise, Ends-raise_if,
  Ends-gets, Ends-modify, Ends-pure,
}
use personal_voice_msg.Discovery.Library.{Library}
use personal_voice_msg.Discovery.Policy.{FetchPolicy}
use personal_voice_msg.Discovery.Metadata.{SearchHit, Prepared, prepare}
use personal_voice_msg.Discovery.Redirect.{FetchedPage}
use personal_voice_msg.Discovery.Fetch.{Web}
use personal_voice_msg.Discovery.Fetching.{IsCanonical, IsBounded}
use personal_voice_msg.Discovery.Rounds.{Fetched, Refused, fetch_url-Modest}
use personal_voice_msg.Discovery.Session.{
  StoredResult, Session, max_search_results, stored_url, remove_result, store, issue,
  record_search_results, start_fetch, finish_fetch, fetch_public_page, close,
}
use personal_voice_msg.Discovery.Calls.{Call, record_hits, start, finish, shut, perform}

module _ (lib : Library) where
  abbrev IsReady : Prepared → Type 0
  IsReady prepared = IsCanonical lib prepared.url

  prepare-IsReady : (hit : SearchHit) → Returns (prepare lib hit) IsReady
  unfolding prepare
  prepare-IsReady hit = Returns-bind _ _ (λ url canonical. Returns-bind _ _ (λ parsed _.
      Returns-bind _ _ (λ hostname _.
        Returns-bind _ _
          (λ title _. Returns-bind _ _ (λ snippet _. Returns-some _ (hit.url, canonical))))))

  each-IsReady :
      (hits : List SearchHit)
      → Returns
          (each (prepare lib) hits)
          (λ prepared. All IsReady prepared × (length prepared ≡ length hits))
  each-IsReady [] = Returns-some [] (tt, refl)
  each-IsReady (hit ∷ hits) = Returns-bind _ _ (λ one first. Returns-bind _ _ (λ more rest.
      let known = (each-IsReady hits).at more rest in
      Returns-some _ (((prepare-IsReady hit).at one first, known.0), omega (arith, known.1))))

  -- Every URL in the table is canonical, there are at most twenty, and none after `close`.
  abbrev pub IsSound : Session → Type 0
  IsSound s =
      All (λ stored. IsCanonical lib stored.url) s.results
      × (length s.results ≤ max_search_results)
      × (s.closed ≡ true → s.results ≡ [])

  -- What is stored comes on top.
  abbrev Grows : ℕ → Session → Session → Type 0
  Grows n s t =
      All (λ stored. IsCanonical lib stored.url) t.results
      × (length t.results ≤ length s.results + n)
      × (t.closed ≡ s.closed)

  issue-Grows :
      (prepared : List Prepared) (s : Session)
      → All IsReady prepared
      → All (λ stored. IsCanonical lib stored.url) s.results
      → Ends
          (issue prepared)
          s
          (λ _ t. Grows (length prepared) s t)
          (λ _ t. Grows (length prepared) s t)
  unfolding issue
  issue-Grows [] s ready sound = Ends-pure _ s (sound, omega arith, refl)
  issue-Grows (hit ∷ more) s ready sound = Ends-bind _ _ s (
      Ends-gets _ s (
        Ends-bind _ _ s (
          Ends-or_raise _ _ s
            (λ token drawn. Ends-bind _ _ s (
              Ends-modify _ s (
                Ends-then _ _ _
                  (issue-Grows more (store (token.0) hit (token.1) s) (ready.1) (ready.0, sound))
                  (λ results t h. Ends-pure _ t (h.0, omega (arith, h.1), h.2))
                  (λ e t h. (h.0, omega (arith, h.1), h.2)))))
            (λ _. (sound, omega arith, refl)))))

  -- Removing a result leaves the others.
  remove_result-All :
      (P : StoredResult → Type 0) (id : Text) (results : List StoredResult)
      → All P results
      → All P (remove_result id results)
  unfolding remove_result
  remove_result-All P id [] h = tt
  remove_result-All P id (stored ∷ results) h = elim (Bool-cases (same_text id stored.result_id)) [
    | inl same ↦ rw same (h.1)
    | inr apart ↦ rw apart (h.0, remove_result-All P id results (h.1))
  ]

  remove_result-le :
      (id : Text) (results : List StoredResult) → length (remove_result id results) ≤ length results
  unfolding remove_result
  remove_result-le id [] = omega arith
  remove_result-le id (stored ∷ results) = ground (arith, remove_result-le id results)

  stored_url-IsCanonical :
      (id : Text) (results : List StoredResult)
      → All (λ stored. IsCanonical lib stored.url) results
      → Returns (stored_url id results) (IsCanonical lib)
  unfolding stored_url
  stored_url-IsCanonical id [] h = Returns-none
  stored_url-IsCanonical id (stored ∷ results) h =
      Returns-if _ _ _ (λ _. Returns-some _ (h.0)) (λ _. stored_url-IsCanonical id results (h.1))

  removed-IsSound :
      (id : Text) (s : Session)
      → IsSound s
      → s.closed ≡ false
      → IsSound (record s { results = remove_result id s.results })
  removed-IsSound id s (canonical, few, ended) opened = (
    remove_result-All _ id s.results canonical,
    omega (arith, remove_result-le id s.results),
    λ c. cc,
  )

  start_fetch-Sound :
      (id : Text) (s : Session)
      → IsSound s
      → Ends
          (start_fetch id)
          s
          (λ url t.
            IsCanonical lib url
            × IsSound t
            × (s.fetch_in_progress ≡ false)
            × (t.results ≡ remove_result id s.results))
          (λ e t. (e ≡ boundary_error) × IsSound t × (t.fetch_in_progress ≡ s.fetch_in_progress))
  unfolding start_fetch
  start_fetch-Sound id s sound = Ends-bind _ _ s (
      Ends-gets _ s (
        Ends-bind _ _ s (
          Ends-raise_if _ _ s
            (λ free. Ends-bind _ _ s (
              Ends-gets _ s (
                Ends-bind _ _ s (
                  Ends-modify _ s (
                    Ends-bind _ _ _ (
                      Ends-or_raise _ _ _
                        (λ url found. Ends-bind _ _ _ (
                          Ends-modify _ _ (
                            Ends-pure _ _ (
                              (stored_url-IsCanonical id s.results (sound.0)).at url found,
                              removed-IsSound id s sound (ground arith),
                              ground arith,
                              refl,
                            ))))
                        (λ _. (refl, removed-IsSound id s sound (ground arith), refl))))))))
            (λ _. (refl, sound, refl)))))

  record-Sound :
      (hits : List SearchHit) (s : Session)
      → IsSound s
      → Ends (record_search_results lib hits) s (λ _ t. IsSound t) (λ _ t. IsSound t)
  unfolding record_search_results
  record-Sound hits s sound = Ends-bind _ _ s (
      Ends-gets _ s (
        Ends-bind _ _ s (
          Ends-raise_if _ _ s
            (λ room. Ends-bind _ _ s (
              Ends-or_raise _ _ s
                (λ prepared ready. grown prepared room ((each-IsReady hits).at prepared ready))
                (λ _. sound)))
            (λ _. sound))))
    where
      grown :
          (prepared : List Prepared)
          → s.closed || ltb max_search_results (length s.results + length hits) ≡ false
          → All IsReady prepared × (length prepared ≡ length hits)
          → Ends (issue prepared) s (λ _ t. IsSound t) (λ _ t. IsSound t)
      grown prepared room (ready, same) =
          Ends-weaken _ s (issue-Grows prepared s ready (sound.0))
            (λ results t _ g. (g.0, ground (arith, g.1), λ c. ground (arith, g.2)))
            (λ e t _ g. (g.0, ground (arith, g.1), λ c. ground (arith, g.2)))

  -- Every call keeps the table sound, however it ends: the URLs in it are canonical, there are at
  -- most twenty, and a closed session has none.
  pub perform-IsSound : (call : Call) → Keeps IsSound (perform lib call)
  unfolding perform finish_fetch close
  perform-IsSound (record_hits hits) =
      Keeps-bind _ _ (Keeps-of_Ends _ (record-Sound hits)) (λ results. Keeps-pure _)
  perform-IsSound (start id) =
      Keeps-bind _ _
        (Keeps-of_Ends _ (λ s sound.
          Ends-weaken _ s (start_fetch-Sound id s sound) (λ url t _ h. h.1) (λ e t _ h. h.1)))
        (λ url. Keeps-pure _)
  perform-IsSound finish = Keeps-bind _ _ (Keeps-modify _ (λ s sound. sound)) (λ _. Keeps-pure _)
  perform-IsSound shut =
      Keeps-bind _ _
        (Keeps-bind _ _ (Keeps-gets _) (λ busy.
          Keeps-bind _ _ (Keeps-raise_if busy _)
            (λ _. Keeps-modify _ (λ s sound. (tt, omega arith, λ _. refl)))))
        (λ _. Keeps-pure _)

  module _ (web : Web) (policy : FetchPolicy) (id : Text) where
    -- A page that is returned is bounded and comes from a canonical URL. No fetch goes on after it,
    -- and its id is gone from the table.
    abbrev pub Returned : Session → FetchedPage → Session → Type 0
    Returned s page t =
        IsBounded lib policy page
        × IsCanonical lib page.final_url
        × IsSound t
        × (t.fetch_in_progress ≡ false)
        × (t.results ≡ remove_result id s.results)

    abbrev pub Failed : Session → Error → Session → Type 0
    Failed s e t = (e ≡ boundary_error) × IsSound t × (t.fetch_in_progress ≡ s.fetch_in_progress)

    lift-Returned :
        (s t : Session) (result : Result FetchedPage) (requests : List Text)
        → Outcome (Fetched lib policy) (Refused lib policy) result requests
        → IsSound t
        → s.fetch_in_progress ≡ false
        → t.fetch_in_progress ≡ false
        → t.results ≡ remove_result id s.results
        → Ends (lift result) t (Returned s) (Failed s)
    lift-Returned s t (ok page) [] h sound free done gone = elim (h.1) [ ]
    lift-Returned s t (ok page) (url ∷ requests) h sound free done gone =
        Ends-lift _ t
          (λ other e. ok_page page other e (h.1.1, rw (h.1.0) (h.0.0.0), sound, done, gone))
          (λ e f. cc)
      where
        ok_page :
            (one other : FetchedPage) → ok one ≡ ok other → Returned s one t → Returned s other t
        ok_page one other e r =
            subst (λ (end : Result FetchedPage). Outcome (Returned s) (Failed s) end t) e r
    lift-Returned s t (err e) requests h sound free done gone =
        Ends-lift _ t (λ other f. cc) (λ other f. (cc, sound, done ∙ sym free))

    -- From a sound session, `fetch_public_page` returns a bounded page or raises the boundary error,
    -- whatever the web answers.
    pub fetch_public_page-Returned :
        (s : Session)
        → IsSound s
        → Ends (fetch_public_page lib web policy id) s (Returned s) (Failed s)
    unfolding fetch_public_page finish_fetch
    fetch_public_page-Returned s sound =
        Ends-then _ _ s (start_fetch-Sound id s sound)
          (λ url t h. Ends-bind _ _ t (
            Ends-modify _ t (
              lift-Returned s _ _ _ ((fetch_url-Modest lib policy web id url (h.0)).at) (h.1) (h.2)
                refl (h.3))))
          (λ e t h. h)

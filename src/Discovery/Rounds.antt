-- ===== src/Discovery/Rounds.antt =====
-- The loop of `_fetch_url` (src/personal_voice_msg/discovery/web.py), round by round.
use mathlib.Core.Path.{subst}
use personal_voice_msg.Prelude.{
  ℕ, zero, suc, ◌+◌, ◌≤◌, ◌≡◌, refl, arith, true, false, not, Option, none, some, List, [], ◌∷◌,
  length, any,
}
use personal_voice_msg.Prelude.Text.{Text, same_text}
use personal_voice_msg.Exec.{Error, boundary_error}
use personal_voice_msg.Exec.Ends.{Ends, Ends-bind, Ends-or_raise, Ends-gets, Ends-modify, Ends-if}
use personal_voice_msg.Discovery.Library.{SplitResult, Library}
use personal_voice_msg.Discovery.Policy.{FetchPolicy}
use personal_voice_msg.Discovery.Redirect.{FetchedPage, is_redirect, is_https}
use personal_voice_msg.Discovery.Fetch.{Web, fetch_rounds, fetch_url}
use personal_voice_msg.Discovery.Fetching.{
  IsCanonical, splits_https, IsGuarded, IsBounded, redirect_target-Passed, fetched_page-IsBounded,
}

module _ (lib : Library) (policy : FetchPolicy) where
  was_https :
      {url : Text} {parsed : SplitResult}
      → lib.urlsplit url ≡ some parsed
      → splits_https lib url ≡ true
      → is_https parsed ≡ true
  was_https {url} {parsed} split was =
      subst
        (λ (o : Option SplitResult). elim o [ none ↦ false | some parsed ↦ is_https parsed ] ≡ true)
        split was

  guarded :
      (url : Text) (requests : List Text) (parsed : SplitResult) (redirected : Text)
      → lib.urlsplit url ≡ some parsed
      → IsGuarded lib (url ∷ requests)
      → IsCanonical lib redirected
      → any (same_text redirected) (url ∷ requests) ≡ false
      → (is_https parsed ≡ true → splits_https lib redirected ≡ true)
      → IsGuarded lib (redirected ∷ url ∷ requests)
  guarded url requests parsed redirected split g canonical fresh secure =
      (canonical, fresh, (λ was. secure (was_https split was)), g)

  -- The requests are guarded and no more than the allowed redirects and one.
  abbrev pub IsModest : List Text → Type 0
  IsModest requests = IsGuarded lib requests × (length requests ≤ policy.max_redirects + 1)

  -- The page is that of the latest request.
  abbrev pub IsPageOf : FetchedPage → List Text → Type 0
  IsPageOf page [] = ⊥
  IsPageOf page (url ∷ urls) = (page.final_url ≡ url) × IsBounded lib policy page

  abbrev pub Fetched : FetchedPage → List Text → Type 0
  Fetched page requests = IsModest requests × IsPageOf page requests

  -- The only error of a fetch is the boundary error.
  abbrev pub Refused : Error → List Text → Type 0
  Refused e requests = (e ≡ boundary_error) × IsModest requests

  module _ (web : Web) (result_id : Text) where
    rounds-Modest :
        (fuel : ℕ) (url : Text) (requests : List Text) (redirects : ℕ)
        → redirects ≡ length requests
        → fuel + redirects ≡ policy.max_redirects + 1
        → IsGuarded lib (url ∷ requests)
        → 1 ≤ fuel
        → Ends
            (fetch_rounds lib web policy result_id fuel url (url ∷ requests) redirects)
            requests
            Fetched
            Refused
    unfolding fetch_rounds
    rounds-Modest zero url requests redirects same e g h = elim h [ ]
    rounds-Modest (suc fuel) url requests redirects same e g h = Ends-bind _ _ requests (
        Ends-or_raise _ _ requests
          (λ parsed split. Ends-bind _ _ requests (
            Ends-gets _ requests (
              Ends-bind _ _ requests (
                Ends-modify _ requests (
                  Ends-bind _ _ (url ∷ requests) (
                    Ends-or_raise _ _ (url ∷ requests)
                      (λ response _.
                        Ends-if (not (is_redirect response.status)) _ _ (url ∷ requests)
                          (λ _.
                            Ends-or_raise _ _ (url ∷ requests)
                              (λ page fetched. (
                                (g, omega arith),
                                (fetched_page-IsBounded lib policy result_id url response).at page
                                    fetched,
                              ))
                              (λ _. refused))
                          (λ _. Ends-bind _ _ (url ∷ requests) (
                            Ends-or_raise _ _ (url ∷ requests)
                              (λ redirected passed.
                                let known =
                                  (redirect_target-Passed lib policy parsed url (url ∷ requests)
                                      redirects response).at
                                    redirected passed in
                                rounds-Modest fuel redirected (url ∷ requests) (redirects + 1)
                                  (omega arith) (omega arith)
                                  (guarded url requests parsed redirected split g (known.1)
                                    (known.2) (known.3))
                                  (omega (arith, known.0)))
                              (λ _. refused))))
                      (λ _. refused)))))))
          (λ _. (refl, (g.3, omega arith))))
      where
        refused : Refused boundary_error (url ∷ requests)
        refused = (refl, (g, omega arith))

    -- Whatever the web answers, a fetch of a canonical URL asks only for canonical URLs, no URL twice,
    -- nothing else than `https` after a request that was `https`, and at most one URL more than the
    -- redirects that the policy allows. It ends with a page or with the boundary error, never for
    -- want of rounds; a page is that of the latest URL, has a supported media type, and its body has
    -- at least one byte and at most as many as the policy allows.
    pub fetch_url-Modest :
        (url : Text)
        → IsCanonical lib url
        → Ends (fetch_url lib web policy result_id url) [] Fetched Refused
    unfolding fetch_url
    fetch_url-Modest url canonical =
        rounds-Modest (policy.max_redirects + 1) url [] 0 refl (omega arith)
          (canonical, refl, tt, tt) (omega arith)

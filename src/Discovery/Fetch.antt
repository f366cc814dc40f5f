-- ===== src/Discovery/Fetch.antt =====
-- `_fetch_url` of src/personal_voice_msg/discovery/web.py: the loop over the redirects. The state
-- is the list of the URLs requested so far, the latest first. What the web answers is a parameter.
use personal_voice_msg.Prelude.{ℕ, zero, suc, ◌+◌, not, Option, List, [], ◌∷◌, if◌then◌else◌}
use personal_voice_msg.Prelude.Text.{Text}
use personal_voice_msg.Exec.{
  Exec, boundary_error, other_error, raise, gets, modify, or_raise, ◌>>=◌, ◌>>◌,
}
use personal_voice_msg.Discovery.Library.{Library}
use personal_voice_msg.Discovery.Policy.{FetchPolicy}
use personal_voice_msg.Discovery.Response.{Response}
use personal_voice_msg.Discovery.Redirect.{FetchedPage, is_redirect, redirect_target, fetched_page}

-- What `client.get` does, from the earlier requests and the URL: `none` is a `ClientError`, an
-- `OSError`, a `TimeoutError` or a `ValueError`.
abbrev pub Web : Type 0
Web = List Text → Text → Option Response

module _ (lib : Library) (web : Web) (policy : FetchPolicy) (result_id : Text) where
  -- The rounds of the loop, on fuel. Running out of it is no error of the source.
  unfoldable pub fetch_rounds : ℕ → Text → List Text → ℕ → Exec (List Text) FetchedPage
  fetch_rounds zero current_url visited redirects = raise other_error
  fetch_rounds (suc fuel) current_url visited redirects = do
    parsed ← or_raise boundary_error (lib.urlsplit current_url)
    requests ← gets (λ requests. requests)
    modify (λ requests. current_url ∷ requests)
    response ← or_raise boundary_error (web requests current_url)
    if not (is_redirect response.status)
        then or_raise boundary_error (fetched_page lib policy result_id current_url response)
        else (do
          redirected ←
              or_raise boundary_error
                (redirect_target lib policy parsed current_url visited redirects response)
          fetch_rounds fuel redirected (redirected ∷ visited) (redirects + 1))

  -- `_fetch_url`: one more round than the redirects that are allowed.
  unfoldable pub fetch_url : Text → Exec (List Text) FetchedPage
  fetch_url url = fetch_rounds (policy.max_redirects + 1) url (url ∷ []) 0

-- ===== src/Discovery/Session.antt =====
-- `DiscoveryWebSession` of src/personal_voice_msg/discovery/web.py. The state holds, beside the
-- fields of the object, the values that `secrets.token_urlsafe` goes on to return until the
-- process ends.
use personal_voice_msg.Prelude.{
  ℕ, ◌+◌, Bool, true, false, ◌||◌, Option, none, some, List, [], ◌∷◌, ltb, length, is_some,
  if◌then◌else◌,
}
use personal_voice_msg.Prelude.Text.{Text, same_text}
use personal_voice_msg.Prelude.Checks.{each}
use personal_voice_msg.Exec.{
  Exec, boundary_error, killed, ⊤, gets, modify, or_raise, raise_if, pure, lift, ◌>>=◌, ◌>>◌,
}
use personal_voice_msg.Discovery.Library.{Library}
use personal_voice_msg.Discovery.Policy.{FetchPolicy}
use personal_voice_msg.Discovery.Redirect.{FetchedPage}
use personal_voice_msg.Discovery.Fetch.{Web, fetch_url}
use personal_voice_msg.Discovery.Metadata.{SearchHit, SearchResult, Prepared, prepare}

-- A result id and the URL stored under it.
pub record StoredResult : Type 0 where
  pub result_id : Text
  pub url : Text

pub record Session : Type 0 where
  pub results : List StoredResult
  pub closed : Bool
  pub fetch_in_progress : Bool
  pub tokens : List Text

abbrev pub max_search_results : ℕ
max_search_results = 20

unfoldable pub stored_url : Text → List StoredResult → Option Text
stored_url id [] = none
stored_url id (stored ∷ results) =
    if same_text id stored.result_id then some stored.url else stored_url id results

unfoldable pub remove_result : Text → List StoredResult → List StoredResult
remove_result id [] = []
remove_result id (stored ∷ results) =
    let rest = remove_result id results in
    if same_text id stored.result_id then results else stored ∷ rest

-- The first token that is not the id of a result, and the tokens after it.
unfoldable pub draw : List StoredResult → List Text → Option (Text × List Text)
unfolding stored_url
draw results [] = none
draw results (token ∷ tokens) =
    if is_some (stored_url token results) then draw results tokens else some (token, tokens)

abbrev pub store : Text → Prepared → List Text → Session → Session
store id prepared tokens s = record s {
  results = record { result_id = id; url = prepared.url } ∷ s.results;
  tokens = tokens;
}

-- The loop that stores the prepared hits.
unfoldable pub issue : List Prepared → Exec Session (List SearchResult)
issue [] = pure []
issue (prepared ∷ more) = do
  drawn ← gets (λ s. draw s.results s.tokens)
  token ← or_raise killed drawn
  modify (store (token.0) prepared (token.1))
  issued ← issue more
  pure (
      record {
        result_id = token.0;
        title = prepared.title;
        snippet = prepared.snippet;
        display_hostname = prepared.hostname;
      }
      ∷ issued)

module _ (lib : Library) where
  unfoldable pub record_search_results : List SearchHit → Exec Session (List SearchResult)
  record_search_results hits = do
    refused ← gets (λ s. s.closed || ltb max_search_results (length s.results + length hits))
    raise_if refused boundary_error
    prepared ← or_raise boundary_error (each (prepare lib) hits)
    issue prepared

-- `fetch_public_page` up to the call of `_fetch_url`, with the URL that it is called with.
unfoldable pub start_fetch : Text → Exec Session Text
start_fetch result_id = do
  refused ← gets (λ s. s.closed || s.fetch_in_progress)
  raise_if refused boundary_error
  stored ← gets (λ s. stored_url result_id s.results)
  modify (λ s. record s { results = remove_result result_id s.results })
  url ← or_raise boundary_error stored
  modify (λ s. record s { fetch_in_progress = true })
  pure url

-- Its `finally`
unfoldable pub finish_fetch : Exec Session ⊤
finish_fetch = modify λ s. record s { fetch_in_progress = false }

unfoldable pub fetch_public_page : Library → Web → FetchPolicy → Text → Exec Session FetchedPage
fetch_public_page lib web policy result_id = do
  url ← start_fetch result_id
  let outcome = (fetch_url lib web policy result_id url []).0
  finish_fetch
  lift outcome

unfoldable pub close : Exec Session ⊤
close = do
  busy ← gets (λ s. s.fetch_in_progress)
  raise_if busy boundary_error
  modify (λ s. record s { results = []; closed = true })

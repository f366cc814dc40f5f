-- ===== src/Discovery/Calls.antt =====
-- Calls of a `DiscoveryWebSession` (src/personal_voice_msg/discovery/web.py) in any order. A fetch
-- is two calls, since others may come while it waits for the web.
use personal_voice_msg.Prelude.{ℕ, ◌+◌, Bool, true, false, List, [], ◌∷◌, map, if◌then◌else◌}
use personal_voice_msg.Prelude.Text.{Text, same_text, count_text}
use personal_voice_msg.Exec.{Exec, Error, Result, ok, err, killed, pure, ◌>>=◌, ◌>>◌}
use personal_voice_msg.Discovery.Library.{Library}
use personal_voice_msg.Discovery.Metadata.{SearchHit}
use personal_voice_msg.Discovery.Session.{
  Session, record_search_results, start_fetch, finish_fetch, close,
}

pub data Call : Type 0 where
  record_hits : List SearchHit → Call
  start : Text → Call
  finish shut : Call

-- What a call that returned has given away: result ids, or a URL to fetch.
pub data Event : Type 0 where
  issued : List Text → Event
  started : Text → Text → Event
  nothing : Event

abbrev pub is_killed : Error → Bool
is_killed killed = true
is_killed _ = false

abbrev pub after : Result Event → List Event → List Event
after (ok event) events = event ∷ events
after (err e) events = if is_killed e then [] else events

module _ (lib : Library) where
  unfoldable pub perform : Call → Exec Session Event
  perform (record_hits hits) = do
    results ← record_search_results lib hits
    pure (issued (map (λ result. result.result_id) results))
  perform (start result_id) = do url ← start_fetch result_id; pure (started result_id url)
  perform finish = finish_fetch >> pure nothing
  perform shut = close >> pure nothing

  -- The events of the calls, up to the end of the process.
  unfoldable pub trace : List Call → Session → List Event
  unfolding perform
  trace [] s = []
  trace (call ∷ calls) s =
      let (result, t) = perform call s in let events = trace calls t in after result events

abbrev pub issues : Text → Event → ℕ
issues id (issued ids) = count_text id ids
issues id _ = 0

abbrev pub starts : Text → Event → ℕ
starts id (started other url) = if same_text id other then 1 else 0
starts id _ = 0

-- The total of the events.
unfoldable pub total : (Event → ℕ) → List Event → ℕ
total f [] = 0
total f (event ∷ events) = f event + total f events

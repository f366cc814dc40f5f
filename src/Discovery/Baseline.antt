-- ===== src/Discovery/Baseline.antt =====
-- `DeterministicDiscovery` of src/personal_voice_msg/discovery/baseline.py, and its reading of the
-- search engine's answer.
use personal_voice_msg.Prelude.{
  ℕ, ◌+◌, Bool, true, false, not, ◌||◌, Option, none, some, List, [], ◌∷◌, ◌++◌, ◌==◌, ltb, length,
  any, if◌then◌else◌,
}
use personal_voice_msg.Prelude.Text.{Text, Bytes, codes, same_text, contains, is_space}
use personal_voice_msg.Prelude.Json.{Json}
use personal_voice_msg.Prelude.Strip.{drop_end, split_once}
use personal_voice_msg.Exec.{
  Exec, Result, ok, err, value_error, search_error, or_raise, raise_if, lift, ◌>>=◌, ◌>>◌,
}
use personal_voice_msg.Discovery.Library.{SplitResult, Library}
use personal_voice_msg.Discovery.Metadata.{SearchResult}
use personal_voice_msg.Discovery.Policy.{FetchPolicy}
use personal_voice_msg.Discovery.Fetch.{Web}
use personal_voice_msg.Discovery.Rules.{SourceRule}
use personal_voice_msg.Discovery.Search.{json_structure_is_bounded, parse_searxng_response}
use personal_voice_msg.Discovery.Session.{Session, record_search_results, fetch_public_page}
use personal_voice_msg.Discovery.Analysis.{
  DiscoveryRecord, Analyzer, Extraction, Clock, capture_retrieval_time, analyze_fetched_page,
}

abbrev max_search_response_bytes : ℕ
max_search_response_bytes = 1048576

abbrev pub discovery_queries : List Text
discovery_queries =
    codes "!sp standardebooks.org ebooks love romance"
    ∷ codes "!ws historic love poem song lyrics tenderness"
    ∷ codes "!wq love affection kindness tenderness quotations"
    ∷ []

-- The answer of the search engine: its status, its first `Content-Type`, the chunks of its body,
-- and whether the reading reaches the end.
pub record SearchAnswer : Type 0 where
  pub status : ℕ
  pub content_type : Option Text
  pub chunks : List Bytes
  pub complete : Bool

abbrev is_empty : Text → Bool
is_empty [] = true
is_empty (c ∷ s) = false

abbrev is_slash : ℕ → Bool
is_slash c = c == b'/'

abbrev has_no_port : Option (Option ℕ) → Bool
has_no_port none = true
has_no_port (some port) = false

abbrev has_no_hostname : Option Text → Bool
has_no_hostname none = true
has_no_hostname (some hostname) = false

abbrev is_endpoint_refused : Text → SplitResult → Bool
is_endpoint_refused url parsed =
    is_empty url
    || (ltb 2048 (length url) || (contains (b'\\' ∷ []) url || any is_space url))
    || not (same_text parsed.scheme (codes "http") || same_text parsed.scheme (codes "https"))
    || (is_empty parsed.netloc
        || (has_no_hostname parsed.hostname || (parsed.has_username || parsed.has_password)))
    || (not (is_empty parsed.query) || not (is_empty parsed.fragment))

abbrev has_no_rules : List SourceRule → Bool
has_no_rules [] = true
has_no_rules (rule ∷ rules) = false

module _ (lib : Library) where
  abbrev endpoint_from : Text → List SourceRule → Option SplitResult → Result Text
  endpoint_from url rules none = err value_error
  endpoint_from url rules (some parsed) =
      if has_no_port parsed.port || (is_endpoint_refused url parsed || has_no_rules rules)
      then err value_error
      else ok (drop_end is_slash url ++ codes "/search")

  -- `__init__`: the search endpoint.
  unfoldable pub search_endpoint : Text → List SourceRule → Result Text
  unfolding contains same_text drop_end
  search_endpoint url rules = endpoint_from url rules (lib.urlsplit url)

-- `_read_bounded_response`, from the length and the bytes so far. `none` is an error of it.
unfoldable pub read_search_chunks : Bool → ℕ → Bytes → List Bytes → Option Bytes
read_search_chunks complete size body [] = if complete then some body else none
read_search_chunks complete size body (chunk ∷ chunks) =
    let rest = read_search_chunks complete (size + length chunk) (body ++ chunk) chunks in
    if ltb max_search_response_bytes (size + length chunk) then none else rest

unfoldable pub read_bounded_response : SearchAnswer → Option Bytes
unfolding read_search_chunks
read_bounded_response answer = elim answer.chunks [
  | [] ↦ none
  | ◌∷◌ chunk chunks ↦ read_search_chunks answer.complete 0 [] (chunk ∷ chunks)
]

-- `response.headers.get("Content-Type", "").split(";", maxsplit=1)[0]`
abbrev before_semicolon : Text → Option (Text × Text) → Text
before_semicolon raw none = raw
before_semicolon raw (some parts) = parts.0

abbrev media_type_of : Option Text → Text
media_type_of none = []
media_type_of (some raw) = before_semicolon raw (split_once b';' raw)

-- `json.loads` raises `ValueError` or `RecursionError`: `none`.
pub record SearchLibrary : Type 0 where
  pub decode : Bytes → Option Text
  pub loads : Text → Option Json

-- `_decode_json`
unfoldable pub decode_json : SearchLibrary → Bytes → Option Json
unfolding json_structure_is_bounded
decode_json search body = elim (search.decode body) [
  | none ↦ none
  | some text ↦ if json_structure_is_bounded text then search.loads text else none
]

module _ (lib : Library) (search : SearchLibrary) (rules : List SourceRule) where
  -- `search_web`, with the answer of the search engine. `none` is a `ClientError`, an `OSError` or
  -- a `TimeoutError`.
  unfoldable pub search_web : Text → Option SearchAnswer → Exec Session (List SearchResult)
  search_web query answered = do
    raise_if (not (any (same_text query) discovery_queries)) search_error
    answer ← or_raise search_error answered
    raise_if (not (answer.status == 200)) search_error
    raise_if
        (not (same_text (lib.lower (media_type_of answer.content_type)) (codes "application/json")))
        search_error
    body ← or_raise search_error (read_bounded_response answer)
    payload ← or_raise search_error (decode_json search body)
    hits ← or_raise search_error (parse_searxng_response lib rules payload)
    record_search_results lib hits

module _ (lib : Library) (web : Web) (policy : FetchPolicy) (x : Extraction)
    (rules : List SourceRule) where
  unfoldable pub analyze_result : Text → Clock → Analyzer → Exec Session DiscoveryRecord
  analyze_result result_id clock analyzer = do
    page ← fetch_public_page lib web policy result_id
    retrieved_at ← lift (capture_retrieval_time clock)
    lift (analyze_fetched_page lib x rules page retrieved_at analyzer)

-- ===== src/Tests/Curated.antt =====
-- The baseline discovery on short answers and pages.
use personal_voice_msg.Prelude.{
  ℕ, ◌+◌, ◌≤◌, ◌≡◌, refl, arith, Bool, true, false, Option, none, some, List, [], ◌∷◌, ◌++◌, leb,
  length, all, any, if◌then◌else◌,
}
use personal_voice_msg.Prelude.Text.{Text, codes, same_text}
use personal_voice_msg.Prelude.Json.{Json, object, array, string, field, cons, nil, end}
use personal_voice_msg.Prelude.Checks.{Returns}
use personal_voice_msg.Exec.Ends.{Ends}
use personal_voice_msg.Scheduling.{aware}
use personal_voice_msg.Discovery.Search.{
  max_search_json_depth, json_structure_is_bounded, parse_searxng_response,
}
use personal_voice_msg.Discovery.Structure.{
  end_quote, escape, Structured, end_text, quotation, nested, nesting,
  json_structure_is_bounded_iff,
}
use personal_voice_msg.Discovery.Rules.{curated_sources, is_source_rule}
use personal_voice_msg.Discovery.Hits.{AreHits, parse_searxng_response-AreHits}
use personal_voice_msg.Discovery.Analysis.{Analyzer, accepted, Extraction, told, unix_newlines}
use personal_voice_msg.Discovery.Baseline.{analyze_result, search_endpoint}
use personal_voice_msg.Discovery.Analyzing.{Recorded, Unrecorded, analyze_result-Recorded}
use personal_voice_msg.Exec.{ok}
use personal_voice_msg.Tests.Web.{library, web, policy, session, session-IsSound}

-- {"\""}
abbrev quoted_quote : Text
quoted_quote = b'{' ∷ b'"' ∷ b'\\' ∷ b'"' ∷ b'"' ∷ b'}' ∷ []

quoted_quote-Structured : Structured quoted_quote
quoted_quote-Structured =
    nested b'{' b'}' (b'"' ∷ b'\\' ∷ b'"' ∷ b'"' ∷ []) [] refl refl
      (quotation (b'\\' ∷ b'"' ∷ []) [] (escape b'"' [] end_quote) end_text) end_text

json_structure_is_bounded_iff_example :
    json_structure_is_bounded quoted_quote
    ≡ leb (nesting quoted_quote-Structured) max_search_json_depth
json_structure_is_bounded_iff_example =
    json_structure_is_bounded_iff quoted_quote quoted_quote-Structured

unclosed_runs : json_structure_is_bounded (codes "[1, 2") ≡ false
unfolding json_structure_is_bounded personal_voice_msg.Discovery.Search.scan_all
unclosed_runs = refl

-- One result of a curated source, twice, and one of another source.
abbrev result_at : Text → Json
result_at url =
    object (field (codes "url") (string url) (field (codes "title") (string (codes "Love")) end))

abbrev response : Json
response = object (
    field (codes "results")
      (array (
        cons (result_at (codes "https://en.wikiquote.org/Love")) (
          cons (result_at (codes "https://en.wikiquote.org/Love"))
            (cons (result_at (codes "https://a.org/Love")) nil))))
      end)

response_runs :
    parse_searxng_response library curated_sources response
    ≡ some (
        record { url = codes "https://en.wikiquote.org/Love"; title = codes "Love"; snippet = [] }
        ∷ [])
unfolding parse_searxng_response personal_voice_msg.Prelude.Checks.◌>>=◌
    personal_voice_msg.Prelude.Checks.require personal_voice_msg.Prelude.Text.contains
    personal_voice_msg.Prelude.Strip.split_once personal_voice_msg.Prelude.Strip.split_on
response_runs = refl

parse_searxng_response-AreHits_example :
    Returns
      (parse_searxng_response library curated_sources response)
      (AreHits library curated_sources)
parse_searxng_response-AreHits_example =
    parse_searxng_response-AreHits library curated_sources response

rules_run : all (is_source_rule library) curated_sources ≡ true
unfolding is_source_rule personal_voice_msg.Prelude.Checks.◌>>=◌
    personal_voice_msg.Prelude.Checks.require personal_voice_msg.Prelude.Text.contains same_text
    personal_voice_msg.Prelude.Strip.split_once personal_voice_msg.Prelude.Strip.ends_with
    personal_voice_msg.Prelude.Strip.split_on personal_voice_msg.Prelude.Strip.drop_start
rules_run = refl

newlines_run : unix_newlines (97 ∷ 13 ∷ 10 ∷ 13 ∷ 98 ∷ []) ≡ 97 ∷ 10 ∷ 10 ∷ 98 ∷ []
unfolding unix_newlines
newlines_run = refl

endpoint_runs :
    search_endpoint library (codes "http://search.local//") curated_sources
    ≡ ok (codes "http://search.local/search")
unfolding search_endpoint personal_voice_msg.Prelude.Strip.split_once
endpoint_runs = refl

abbrev extraction : Extraction
extraction = record {
  decode = λ body. some body;
  is_cc = λ c. false;
  extract = λ body url. some (codes "a text of at least forty characters, as asked");
}

abbrev willing : Analyzer
willing text found = accepted

analyze_result-Recorded_example :
    Ends
      (analyze_result library web policy extraction curated_sources
        (codes "id")
        (told (aware 5))
        willing)
      session
      (Recorded library extraction curated_sources willing web policy
        (codes "id")
        session
        (told (aware 5)))
      (Unrecorded library extraction curated_sources willing web policy (codes "id") session)
analyze_result-Recorded_example =
    analyze_result-Recorded library extraction curated_sources willing web policy (codes "id")
      session (told (aware 5)) session-IsSound

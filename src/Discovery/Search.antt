-- ===== src/Discovery/Search.antt =====
-- The search responses of src/personal_voice_msg/discovery/baseline.py:
-- `_json_structure_is_bounded` and `parse_searxng_response`.
use personal_voice_msg.Prelude.{
  ℕ, zero, suc, ◌+◌, ◌*◌, Bool, true, false, not, ◌&&◌, ◌||◌, Option, none, some, List, [], ◌∷◌,
  ◌++◌, ◌==◌, ltb, leb, length, any, if◌then◌else◌,
}
use personal_voice_msg.Prelude.Text.{Text, codes, same_text, is_blank}
use personal_voice_msg.Prelude.Json.{
  as_object, as_string, Json, Items, null, array, nil, cons, get_or_null,
}
use personal_voice_msg.Prelude.Checks.{◌>>=◌, ◌>>◌, require}
use personal_voice_msg.Discovery.Library.{Library}
use personal_voice_msg.Discovery.Url.{canonical_public_url}
use personal_voice_msg.Discovery.Metadata.{
  SearchHit, max_raw_title_characters, max_raw_snippet_characters,
}
use personal_voice_msg.Discovery.Rules.{SourceRule, matching_rule}
use personal_voice_msg.Discovery.Session.{max_search_results}

abbrev pub max_search_json_depth : ℕ
max_search_json_depth = 64

-- The three variables of the loop over the characters.
pub record Scan : Type 0 where
  pub depth : ℕ
  pub in_string : Bool
  pub escaped : Bool

abbrev in_string_step : Scan → ℕ → Scan
in_string_step scan c =
    if scan.escaped
    then record scan { escaped = false }
    else if c == b'\\'
    then record scan { escaped = true }
    else if c == b'"'
    then record scan { in_string = false }
    else scan

abbrev deeper : Scan → Option Scan
deeper scan =
    if ltb max_search_json_depth (scan.depth + 1)
    then none
    else some (record scan { depth = scan.depth + 1 })

-- A depth below zero is not reached: the loop returns before.
abbrev shallower : ℕ → Scan → Option Scan
shallower zero scan = none
shallower (suc depth) scan = some (record scan { depth = depth })

-- One round: the state after it, or that the loop returns `False`.
unfoldable pub scan_step : Scan → ℕ → Option Scan
scan_step scan c =
    if scan.in_string
    then some (in_string_step scan c)
    else if c == b'"'
    then some (record scan { in_string = true })
    else if c == b'{' || c == b'['
    then deeper scan
    else if c == b'}' || c == b']'
    then shallower scan.depth scan
    else some scan

unfoldable pub scan_all : Text → Scan → Option Scan
unfolding scan_step
scan_all [] scan = some scan
scan_all (c ∷ s) scan = elim (scan_step scan c) [ none ↦ none | some next ↦ scan_all s next ]

abbrev pub at_start : Scan
at_start = record { depth = 0; in_string = false; escaped = false }

unfoldable pub json_structure_is_bounded : Text → Bool
unfolding scan_all
json_structure_is_bounded text = elim (scan_all text at_start) [
  | none ↦ false
  | some scan ↦ scan.depth == 0 && not scan.in_string
]

abbrev as_list : Json → Option Items
as_list (array items) = some items
as_list _ = none

-- `raw_result.get("content", "")`, with "" for `None`
abbrev content_of : Json → Option Text
content_of null = some []
content_of value = as_string value

module _ (lib : Library) (rules : List SourceRule) where
  -- The hit that a raw result makes. `none` is a `continue`.
  unfoldable pub hit_of : Json → Option SearchHit
  unfolding as_object as_string get_or_null matching_rule canonical_public_url is_blank
  hit_of raw_result = do
    fields ← as_object raw_result
    url ← as_string (get_or_null (codes "url") fields)
    title ← as_string (get_or_null (codes "title") fields)
    content ← content_of (get_or_null (codes "content") fields)
    require (not (is_blank title) && leb (length title) max_raw_title_characters)
    require (leb (length content) max_raw_snippet_characters)
    rule ← matching_rule lib url rules
    canonical ← canonical_public_url lib url
    some (record { url = canonical; title = title; snippet = content })

  abbrev pub add_hit : List Text → List SearchHit → Option SearchHit → List Text × List SearchHit
  add_hit seen hits none = (seen, hits)
  add_hit seen hits (some hit) =
      if any (same_text hit.url) seen then (seen, hits) else (hit.url ∷ seen, hits ++ hit ∷ [])

  -- The loop over as many raw results as the first number says.
  unfoldable pub collect : ℕ → Items → List Text → List SearchHit → List SearchHit
  unfolding hit_of
  collect zero items seen hits = hits
  collect (suc left) nil seen hits = hits
  collect (suc left) (cons raw items) seen hits =
      let next = add_hit seen hits (hit_of raw) in
      let rest = collect left items (next.0) (next.1) in
      if length (next.1) == max_search_results then next.1 else rest

  -- `none` is a `DiscoverySearchError`.
  unfoldable pub parse_searxng_response : Json → Option (List SearchHit)
  unfolding as_object as_string get_or_null collect
  parse_searxng_response payload = do
    fields ← as_object payload
    raw_results ← as_list (get_or_null (codes "results") fields)
    some (collect (max_search_results * 5) raw_results [] [])

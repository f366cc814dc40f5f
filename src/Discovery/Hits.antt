-- ===== src/Discovery/Hits.antt =====
-- The hits of `parse_searxng_response` (src/personal_voice_msg/discovery/baseline.py).
use mathlib.Core.Path.{subst}
use mathlib.Core.Option.{some-injective}
use personal_voice_msg.Prelude.{
  ℕ, zero, suc, ◌+◌, ◌*◌, ◌≤◌, ◌≡◌, refl, sym, ◌∙◌, arith, true, false, Option, none, some, List,
  [], ◌∷◌, ◌++◌, ◌==◌, length, length-append, any, All, map, Bool-cases, inl, inr, if◌then◌else◌,
}
use personal_voice_msg.Prelude.Text.{Text, same_text, same_text→eq, is_blank, count_text}
use personal_voice_msg.Prelude.Json.{Json, Items, nil, cons}
use personal_voice_msg.Prelude.Checks.{
  Returns, Returns-bind, Returns-require, Returns-some, Returns-none, Returns-if,
}
use personal_voice_msg.Discovery.Library.{SplitResult, Library}
use personal_voice_msg.Discovery.Url.{canonical_public_url}
use personal_voice_msg.Discovery.Metadata.{
  SearchHit, max_raw_title_characters, max_raw_snippet_characters,
}
use personal_voice_msg.Discovery.Rules.{SourceRule, covers, first_rule, hostname_of, matching_rule}
use personal_voice_msg.Discovery.Search.{hit_of, add_hit, collect, parse_searxng_response}
use personal_voice_msg.Discovery.Session.{max_search_results}

abbrev pub urls : List SearchHit → List Text
urls hits = map (λ hit. hit.url) hits

module _ (lib : Library) (rules : List SourceRule) where
  -- A canonical URL whose hostname is that of a rule or below it.
  abbrev pub IsCurated : Text → Type 0
  IsCurated url =
      (raw : Text) × (parsed : SplitResult) × (hostname : Text) × (canonical_public_url lib raw
        ≡ some url)
      × (lib.urlsplit url ≡ some parsed)
      × (parsed.hostname ≡ some hostname)
      × (any (covers hostname) rules ≡ true)

  -- A hit of a curated source with a title, and short enough to be stored.
  abbrev pub IsHit : SearchHit → Type 0
  IsHit hit =
      IsCurated hit.url
      × (is_blank hit.title ≡ false)
      × (length hit.title ≤ max_raw_title_characters)
      × (length hit.snippet ≤ max_raw_snippet_characters)

  first_rule-covers :
      (hostname : Text) (some_rules : List SourceRule)
      → Returns (first_rule hostname some_rules) (λ _. any (covers hostname) some_rules ≡ true)
  unfolding first_rule
  first_rule-covers hostname [] = Returns-none
  first_rule-covers hostname (rule ∷ more) =
      Returns-if (covers hostname rule) (some rule) _
        (λ hit. Returns-some rule (ground (arith, hit)))
        (λ _. record {
          at = λ found e. ground (arith, (first_rule-covers hostname more).at found e);
        })

  -- The canonical form of the URL has the hostname of a rule, or one below it.
  abbrev pub Matched : Text → SourceRule → Type 0
  Matched url rule =
      (canonical : Text) × (parsed : SplitResult) × (hostname : Text) × (canonical_public_url lib
          url
        ≡ some canonical)
      × (lib.urlsplit canonical ≡ some parsed)
      × (parsed.hostname ≡ some hostname)
      × (any (covers hostname) rules ≡ true)

  hostname_of-Named :
      (url : Text)
      → Returns (hostname_of lib url) (λ hostname.
        (parsed : SplitResult) × (lib.urlsplit url ≡ some parsed)
        × (parsed.hostname ≡ some hostname))
  hostname_of-Named url =
      Returns-bind _ _ (λ parsed e. record { at = λ hostname h. (parsed, e, h) })

  pub matching_rule-Matched : (url : Text) → Returns (matching_rule lib url rules) (Matched url)
  unfolding matching_rule
  matching_rule-Matched url = Returns-bind _ _ (λ canonical e.
      Returns-bind (hostname_of lib canonical) _ (λ hostname n.
        let (parsed, split, named) = (hostname_of-Named canonical).at hostname n in
        record {
          at = λ rule h. (
            canonical,
            parsed,
            hostname,
            e,
            split,
            named,
            (first_rule-covers hostname rules).at rule h,
          );
        }))

  Matched-IsCurated :
      (url canonical : Text) (rule : SourceRule)
      → Matched url rule
      → canonical_public_url lib url ≡ some canonical
      → IsCurated canonical
  Matched-IsCurated url canonical rule (known, parsed, hostname, e, split, named, covered) f =
      subst IsCurated (some-injective known canonical (sym e ∙ f))
        (url, parsed, hostname, e, split, named, covered)

  hit_of-IsHit : (raw : Json) → Returns (hit_of lib rules raw) IsHit
  unfolding hit_of
  hit_of-IsHit raw = Returns-bind _ _ (λ fields _. Returns-bind _ _ (λ url _.
      Returns-bind _ _ (λ title _. Returns-bind _ _ (λ content _. Returns-require _ _ (λ named.
        Returns-require _ _ (λ short. Returns-bind _ _ (λ rule matched.
          Returns-bind _ _ (λ canonical e. Returns-some _ (
            Matched-IsCurated url canonical rule ((matching_rule-Matched url).at rule matched) e,
            ground (arith, named),
            ground (arith, named),
            ground (arith, short),
          )))))))))

  -- The hits so far, and the URLs that were seen.
  abbrev Collected : List Text → List SearchHit → Type 0
  Collected seen hits =
      All IsHit hits
      × ((k : Text) → count_text k (urls hits) ≤ 1)
      × ((k : Text) → any (same_text k) seen ≡ false → count_text k (urls hits) ≡ 0)

  All-append_last :
      (P : SearchHit → Type 0) (hits : List SearchHit) (hit : SearchHit)
      → All P hits
      → P hit
      → All P (hits ++ hit ∷ [])
  All-append_last P [] hit h p = (p, tt)
  All-append_last P (other ∷ hits) hit h p = (h.0, All-append_last P hits hit (h.1) p)

  urls-append_last :
      (k : Text) (hits : List SearchHit) (hit : SearchHit)
      → count_text k (urls (hits ++ hit ∷ []))
        ≡ count_text k (urls hits) + (if same_text k hit.url then 1 else 0)
  unfolding count_text
  urls-append_last k [] hit = ground arith
  urls-append_last k (other ∷ hits) hit = ground (arith, urls-append_last k hits hit)

  once :
      (seen : List Text) (hits : List SearchHit) (hit : SearchHit)
      → any (same_text hit.url) seen ≡ false
      → Collected seen hits
      → (k : Text) → count_text k (urls (hits ++ hit ∷ [])) ≤ 1
  once seen hits hit new c k = elim (Bool-cases (same_text k hit.url)) [
    | inl same ↦
        ground (arith, urls-append_last k hits hit, c.2 k (rw (same_text→eq k hit.url same) new))
    | inr apart ↦ ground (arith, apart, urls-append_last k hits hit, c.1 k)
  ]

  add_hit-Collected :
      (seen : List Text) (hits : List SearchHit) (found : Option SearchHit)
      → ((hit : SearchHit) → found ≡ some hit → IsHit hit)
      → Collected seen hits
      → Collected (add_hit lib rules seen hits found).0 (add_hit lib rules seen hits found).1
  add_hit-Collected seen hits none h c = c
  add_hit-Collected seen hits (some hit) h c = elim (Bool-cases (any (same_text hit.url) seen)) [
    | inl old ↦ rw old c
    | inr new ↦ rw new (
      All-append_last IsHit hits hit (c.0) (h hit refl),
      (λ k. once seen hits hit new c k),
      (λ k apart. ground (arith, urls-append_last k hits hit, c.2 k)),
    )
  ]

  add_hit-length :
      (seen : List Text) (hits : List SearchHit) (found : Option SearchHit)
      → length (add_hit lib rules seen hits found).1 ≤ length hits + 1
  add_hit-length seen hits none = omega arith
  add_hit-length seen hits (some hit) = ground (arith, length-append hits (hit ∷ []))

  -- At most twenty hits of curated sources, no URL twice.
  abbrev pub AreHits : List SearchHit → Type 0
  AreHits hits =
      All IsHit hits
      × (length hits ≤ max_search_results)
      × ((k : Text) → count_text k (urls hits) ≤ 1)

  collect-AreHits :
      (left : ℕ) (items : Items) (seen : List Text) (hits : List SearchHit)
      → suc (length hits) ≤ max_search_results
      → Collected seen hits
      → AreHits (collect lib rules left items seen hits)
  unfolding collect
  collect-AreHits zero items seen hits few c = (c.0, omega arith, c.1)
  collect-AreHits (suc left) nil seen hits few c = (c.0, omega arith, c.1)
  collect-AreHits (suc left) (cons raw items) seen hits few c =
      elim (Bool-cases (length (next.1) == max_search_results)) [
        | inl full ↦ rw full (known.0, ground (arith, full), known.1)
        | inr room ↦
            rw room
              (collect-AreHits left items (next.0) (next.1) (ground (arith, room, more)) known)
      ]
    where
      next : List Text × List SearchHit
      next = add_hit lib rules seen hits (hit_of lib rules raw)

      known : Collected (next.0) (next.1)
      known = add_hit-Collected seen hits (hit_of lib rules raw) ((hit_of-IsHit raw).at) c

      more : length (next.1) ≤ length hits + 1
      more = add_hit-length seen hits (hit_of lib rules raw)

  -- Whatever the search engine answers, a response that is accepted gives at most twenty hits; each
  -- is a canonical URL of a curated source with a title, and no URL comes twice.
  pub parse_searxng_response-AreHits :
      (payload : Json) → Returns (parse_searxng_response lib rules payload) AreHits
  unfolding parse_searxng_response count_text
  parse_searxng_response-AreHits payload = Returns-bind _ _ (λ fields _.
      Returns-bind _ _ (λ raw_results _. Returns-some _ (
        collect-AreHits (max_search_results * 5) raw_results [] [] (omega arith)
          (tt, (λ k. omega arith), (λ k h. refl)))))

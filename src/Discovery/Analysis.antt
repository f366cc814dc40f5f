-- ===== src/Discovery/Analysis.antt =====
-- The analysis of a page in src/personal_voice_msg/discovery/baseline.py: `analyze_fetched_page`
-- and the functions it calls.
use personal_voice_msg.Prelude.{
  ℕ, Bool, not, ◌&&◌, ◌||◌, Option, none, some, List, [], ◌∷◌, ◌==◌, leb, length, any,
  if◌then◌else◌,
}
use personal_voice_msg.Prelude.Text.{Text, Bytes, codes, same_text}
use personal_voice_msg.Prelude.Checks.{◌>>=◌, ◌>>◌, require}
use personal_voice_msg.Prelude.Strip.{drop_start, drop_end, strip}
use personal_voice_msg.Exec.{Result, ok, err, value_error, extraction_error, memory_error}
use personal_voice_msg.Scheduling.{Datetime, aware, naive}
use personal_voice_msg.Discovery.Library.{Library}
use personal_voice_msg.Discovery.Redirect.{FetchedPage}
use personal_voice_msg.Discovery.Response.{is_supported}
use personal_voice_msg.Discovery.Rules.{SourceRule, matching_rule}

abbrev pub max_extracted_characters : ℕ
max_extracted_characters = 100000

abbrev pub min_extracted_characters : ℕ
min_extracted_characters = 40

-- `retrieved_at` is an instant in UTC.
pub record DiscoveryRecord : Type 0 where
  pub result_id : Text
  pub source_url : Text
  pub retrieved_at : ℕ
  pub rights_evidence : Text

-- How the analyzer ends: it returns `None`, it returns something else or raises, or it raises
-- `MemoryError`.
pub data Analyzed : Type 0 where
  accepted rejected exhausted : Analyzed

abbrev pub Analyzer : Type 0
Analyzer = Text → DiscoveryRecord → Analyzed

-- What the analysis uses of other libraries: `bytes.decode("utf-8-sig")`, the category "Cc" of
-- `unicodedata`, and the text that `trafilatura.extract` finds in the body of a URL.
pub record Extraction : Type 0 where
  pub decode : Bytes → Option Text
  pub is_cc : ℕ → Bool
  pub extract : Bytes → Text → Option Text

-- `text.replace("\r\n", "\n").replace("\r", "\n")`
unfoldable pub unix_newlines : Text → Text
unix_newlines [] = []
unix_newlines (c ∷ []) = (if c == 13 then 10 else c) ∷ []
unix_newlines (c ∷ d ∷ s) =
    let both = unix_newlines s in
    let rest = unix_newlines (d ∷ s) in
    if c == 13 && d == 10 then 10 ∷ both else (if c == 13 then 10 else c) ∷ rest

abbrev is_stray_control : Extraction → ℕ → Bool
is_stray_control x c = x.is_cc c && not (c == 10 || c == 9)

-- The branch for "text/plain".
unfoldable pub plain_text : Extraction → Bytes → Option Text
unfolding unix_newlines
plain_text x body = do
  decoded ← x.decode body
  require (not (any (is_stray_control x) (unix_newlines decoded)))
  some (unix_newlines decoded)

module _ (lib : Library) (x : Extraction) (rules : List SourceRule) where
  -- The text of a page and the rule that its source matches. `none` is a
  -- `DiscoveryExtractionError`.
  unfoldable pub extracted : FetchedPage → Option (Text × SourceRule)
  unfolding matching_rule plain_text drop_start drop_end same_text
  extracted page = do
    rule ← matching_rule lib page.final_url rules
    require (is_supported page.media_type)
    text ←
        if same_text page.media_type (codes "text/plain")
        then plain_text x page.body
        else x.extract page.body page.final_url
    require (
        leb min_extracted_characters (length (strip text))
        && leb (length (strip text)) max_extracted_characters)
    some (strip text, rule)

  abbrev pub conclude_analysis : Analyzed → DiscoveryRecord → Result DiscoveryRecord
  conclude_analysis accepted found = ok found
  conclude_analysis rejected found = err extraction_error
  conclude_analysis exhausted found = err memory_error

  abbrev pub record_of : FetchedPage → ℕ → SourceRule → DiscoveryRecord
  record_of page instant rule = record {
    result_id = page.result_id;
    source_url = page.final_url;
    retrieved_at = instant;
    rights_evidence = rule.rights_evidence;
  }

  abbrev pub analyze :
      Analyzer → FetchedPage → ℕ → Option (Text × SourceRule) → Result DiscoveryRecord
  analyze analyzer page instant none = err extraction_error
  analyze analyzer page instant (some found) =
      let made = record_of page instant (found.1) in
      conclude_analysis (analyzer (found.0) made) made

  unfoldable pub analyze_fetched_page : FetchedPage → Datetime → Analyzer → Result DiscoveryRecord
  unfolding extracted
  analyze_fetched_page page (naive t) analyzer = err value_error
  analyze_fetched_page page (aware t) analyzer = analyze analyzer page t (extracted page)

-- What the clock does: it returns a `datetime`, it returns something else or raises, or it raises
-- `MemoryError`.
pub data Clock : Type 0 where
  told : Datetime → Clock
  broken no_memory : Clock

-- `_capture_retrieval_time`
unfoldable pub capture_retrieval_time : Clock → Result Datetime
capture_retrieval_time (told (aware t)) = ok (aware t)
capture_retrieval_time (told (naive t)) = err extraction_error
capture_retrieval_time broken = err extraction_error
capture_retrieval_time no_memory = err memory_error

-- ===== src/Tests/Generating.antt =====
-- Cards and sentences on short texts.
use personal_voice_msg.Prelude.{
  ℕ, ◌≡◌, ◌↔◌, refl, arith, Bool, true, false, Option, none, some, List, [], ◌∷◌, ◌++◌,
  if◌then◌else◌,
}
use personal_voice_msg.Prelude.Text.{Text, codes}
use personal_voice_msg.Prelude.Json.{string, field, end, decode_error, unicode_error}
use personal_voice_msg.Prelude.Strip.{strip}
use personal_voice_msg.Exec.{unicode_decode_error}
use personal_voice_msg.Exec.Ends.{Ends}
use personal_voice_msg.Scheduling.{aware}
use personal_voice_msg.Normalization.{copies_source_span}
use personal_voice_msg.Database.Schema.{fresh}
use personal_voice_msg.Discovery.Analysis.{DiscoveryRecord}
use personal_voice_msg.Generation.Cards.{
  InspirationCard, affection, warmth, open_sky, tender, passes_copy, canonical_source,
  is_bounded_single_line, build_inspiration_card,
}
use personal_voice_msg.Generation.Drafts.{
  IsTrusted, draft_of, signals, build_inspiration_card-draft_of,
}
use personal_voice_msg.Generation.Gemini.{
  Reply, replied, failed, escaped, JsonLibrary, generate_structured,
}
use personal_voice_msg.Generation.Sentence.{
  valid, rejected, mid_terminal_punctuation, url, validate_generated_sentence, generate_sentence,
}
use personal_voice_msg.Generation.Sentences.{IsAccepted, validate_generated_sentence_iff}
use personal_voice_msg.Generation.Stored.{Generated, generate_sentence-Generated}
use personal_voice_msg.Tests.Texts.{ascii}
use personal_voice_msg.Tests.Web.{library, home}

abbrev page_text : Text
page_text = codes "a text of at least forty characters, as asked"

abbrev provenance : DiscoveryRecord
provenance = record {
  result_id = codes "id";
  source_url = home;
  retrieved_at = 5;
  rights_evidence = codes "none known";
}

abbrev card : InspirationCard
card = record {
  theme = affection;
  emotion = warmth;
  imagery = open_sky;
  tone = tender;
  source = home;
  evidence = codes "none known";
  discovery_timestamp = 5;
}

trusted : IsTrusted ascii library page_text provenance
unfolding canonical_source is_bounded_single_line personal_voice_msg.Generation.Cards.is_result_id
    personal_voice_msg.Prelude.Checks.◌>>=◌ personal_voice_msg.Prelude.Checks.require
    personal_voice_msg.Prelude.Text.contains personal_voice_msg.Prelude.Strip.split_once
    personal_voice_msg.Prelude.Strip.ends_with personal_voice_msg.Prelude.Strip.split_on
trusted = (omega arith, omega arith, refl, refl, refl, refl)

build_inspiration_card-draft_of_example :
    build_inspiration_card ascii library (draft_of card) page_text provenance ≡ (
      if passes_copy ascii library
        (copies_source_span ascii (signals ascii library card) page_text 6)
      then some card
      else none)
build_inspiration_card-draft_of_example =
    build_inspiration_card-draft_of ascii library page_text provenance card trusted
      (refl, refl, refl)

two_sentences :
    validate_generated_sentence ascii (codes " Hi. Bye. ") none ≡ rejected mid_terminal_punctuation
unfolding validate_generated_sentence
two_sentences = refl

hidden_url : validate_generated_sentence ascii (codes "see WWW.a!") none ≡ rejected url
unfolding validate_generated_sentence
hidden_url = refl

validate_generated_sentence_iff_example :
    (validate_generated_sentence ascii (codes " You shine! ") none ≡ valid (codes "You shine!")) ↔ (
      (strip (codes " You shine! ") ≡ codes "You shine!")
      × IsAccepted ascii none (codes "You shine!"))
validate_generated_sentence_iff_example =
    validate_generated_sentence_iff ascii none (codes " You shine! ") (codes "You shine!")

abbrev reply : Text → Reply
reply prompt = replied (field (codes "sentence") (string (codes "You shine!")) end)

generate_sentence-Generated_example :
    Ends
      (generate_sentence ascii (λ text. text) (λ s t. 0) reply card (aware 5) none)
      fresh
      (Generated ascii (λ text. text) (λ s t. 0) (aware 5) none fresh)
      (λ e t. t ≡ fresh)
generate_sentence-Generated_example =
    generate_sentence-Generated ascii (λ text. text) (λ s t. 0) (aware 5) none fresh reply card

abbrev json_library : JsonLibrary
json_library = record {
  loads = λ body. unicode_error;
  loads_text = λ text. decode_error;
  str = λ value. [];
}

-- A body that is not UTF-8 is no `GeminiClientError`.
undecodable_reply :
    generate_structured json_library
      (some (record { status = 200; chunks = (255 ∷ []) ∷ []; complete = true }))
    ≡ escaped unicode_decode_error
unfolding generate_structured
undecodable_reply = refl

busy_reply :
    generate_structured json_library (some (record { status = 503; chunks = []; complete = true }))
    ≡ failed none
unfolding generate_structured
busy_reply = refl

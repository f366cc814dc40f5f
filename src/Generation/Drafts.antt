-- ===== src/Generation/Drafts.antt =====
-- Drafts and cards of src/personal_voice_msg/discovery/inspiration.py.
use personal_voice_msg.Prelude.{
  ◌≤◌, ◌≡◌, refl, arith, true, ◌&&◌, none, some, leb, length, if◌then◌else◌, Bool-cases, inl, inr,
}
use personal_voice_msg.Prelude.Text.{Text, codes}
use personal_voice_msg.Prelude.Json.{
  Json, string, object, field, end, get_or_null, has_exactly, as_object,
}
use personal_voice_msg.Prelude.Checks.{◌>>=◌, require}
use personal_voice_msg.Normalization.{Unicode, copies_source_span}
use personal_voice_msg.Discovery.Library.{Library}
use personal_voice_msg.Discovery.Analysis.{
  DiscoveryRecord, min_extracted_characters, max_extracted_characters,
}
use personal_voice_msg.Generation.Cards.{
  Theme, appreciation, affection, companionship, encouragement, Emotion, gratitude, joy, warmth,
  calm, Imagery, morning_light, quiet_garden, warm_home, open_sky, Tone, gentle, playful, tender,
  reassuring, theme_value, emotion_value, imagery_value, tone_value, enum_theme, enum_emotion,
  enum_imagery, enum_tone, InspirationCard, max_result_id_characters,
  max_rights_evidence_characters, is_result_id, is_bounded_single_line, canonical_source,
  inspiration_card, semantic_signals, passes_copy, build_inspiration_card,
}

enum_theme-value : (theme : Theme) → enum_theme (string (theme_value theme)) ≡ some theme
unfolding enum_theme ◌>>=◌
enum_theme-value appreciation = refl
enum_theme-value affection = refl
enum_theme-value companionship = refl
enum_theme-value encouragement = refl

enum_emotion-value :
    (emotion : Emotion) → enum_emotion (string (emotion_value emotion)) ≡ some emotion
unfolding enum_emotion ◌>>=◌
enum_emotion-value gratitude = refl
enum_emotion-value joy = refl
enum_emotion-value warmth = refl
enum_emotion-value calm = refl

enum_imagery-value :
    (imagery : Imagery) → enum_imagery (string (imagery_value imagery)) ≡ some imagery
unfolding enum_imagery ◌>>=◌
enum_imagery-value morning_light = refl
enum_imagery-value quiet_garden = refl
enum_imagery-value warm_home = refl
enum_imagery-value open_sky = refl

enum_tone-value : (tone : Tone) → enum_tone (string (tone_value tone)) ≡ some tone
unfolding enum_tone ◌>>=◌
enum_tone-value gentle = refl
enum_tone-value playful = refl
enum_tone-value tender = refl
enum_tone-value reassuring = refl

-- The draft that names the signals of a card.
abbrev pub draft_of : InspirationCard → Json
draft_of card = object (
    field (codes "theme") (string (theme_value card.theme)) (
      field (codes "emotion") (string (emotion_value card.emotion)) (
        field (codes "imagery") (string (imagery_value card.imagery))
          (field (codes "tone") (string (tone_value card.tone)) end))))

module _ (u : Unicode) (lib : Library) where
  -- A page's text and provenance that a card can be made from.
  abbrev pub IsTrusted : Text → DiscoveryRecord → Type 0
  IsTrusted text provenance =
      (min_extracted_characters ≤ length text)
      × (length text ≤ max_extracted_characters)
      × (is_bounded_single_line u lib provenance.result_id max_result_id_characters ≡ true)
      × (is_result_id provenance.result_id ≡ true)
      × (canonical_source u lib provenance.source_url ≡ some provenance.source_url)
      × (is_bounded_single_line u lib provenance.rights_evidence max_rights_evidence_characters
          ≡ true)

  -- The card carries the source, the evidence and the time of its provenance.
  abbrev pub IsOf : DiscoveryRecord → InspirationCard → Type 0
  IsOf provenance card =
      (card.source ≡ provenance.source_url)
      × (card.evidence ≡ provenance.rights_evidence)
      × (card.discovery_timestamp ≡ provenance.retrieved_at)

  abbrev pub signals : InspirationCard → Text
  signals card = semantic_signals u lib card.theme card.emotion card.imagery card.tone

  -- From a trusted page, every card of that page comes back from its own draft, unless its four
  -- signals repeat six words of the page.
  pub build_inspiration_card-draft_of :
      (text : Text) (provenance : DiscoveryRecord) (card : InspirationCard)
      → IsTrusted text provenance
      → IsOf provenance card
      → build_inspiration_card u lib (draft_of card) text provenance ≡ (
          if passes_copy u lib (copies_source_span u (signals card) text 6)
          then some card
          else none)
  unfolding build_inspiration_card inspiration_card ◌>>=◌ require as_object get_or_null has_exactly
  build_inspiration_card-draft_of text provenance card (long, short, line, id, source, evidence)
        (s, e, t) =
      rw
        (
          between,
          line,
          id,
          enum_theme-value card.theme,
          enum_emotion-value card.emotion,
          enum_imagery-value card.imagery,
          enum_tone-value card.tone,
          source,
          evidence,
        )
        (elim (Bool-cases (passes_copy u lib (copies_source_span u (signals card) text 6))) [
          | inl free ↦ rw (free, source, ← s, ← e, ← t) refl
          | inr copied ↦ rw copied refl
        ])
    where
      between :
          leb min_extracted_characters (length text) && leb (length text) max_extracted_characters
          ≡ true
      between = ground arith

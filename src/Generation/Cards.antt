-- ===== src/Generation/Cards.antt =====
-- src/personal_voice_msg/discovery/inspiration.py: the inspiration cards.
use personal_voice_msg.Prelude.{
  ℕ, Bool, true, false, not, ◌&&◌, ◌||◌, Option, none, some, List, [], ◌∷◌, ◌++◌, ◌==◌, leb, length,
  all, any, if◌then◌else◌,
}
use personal_voice_msg.Prelude.Text.{Text, codes, same_text}
use personal_voice_msg.Prelude.Json.{Json, get_or_null, as_object, as_string, has_exactly}
use personal_voice_msg.Prelude.Strip.{strip, drop_start, drop_end}
use personal_voice_msg.Prelude.Checks.{◌>>=◌, ◌>>◌, require}
use personal_voice_msg.Exec.{Result, ok, err}
use personal_voice_msg.Normalization.{Unicode, copies_source_span}
use personal_voice_msg.Discovery.Library.{Library}
use personal_voice_msg.Discovery.Url.{max_url_characters, canonical_public_url}
use personal_voice_msg.Discovery.Analysis.{
  DiscoveryRecord, min_extracted_characters, max_extracted_characters,
}

pub data Theme : Type 0 where
  appreciation affection companionship encouragement : Theme

pub data Emotion : Type 0 where
  gratitude joy warmth calm : Emotion

pub data Imagery : Type 0 where
  morning_light quiet_garden warm_home open_sky : Imagery

pub data Tone : Type 0 where
  gentle playful tender reassuring : Tone

abbrev pub theme_value : Theme → Text
theme_value appreciation = codes "appreciation"
theme_value affection = codes "affection"
theme_value companionship = codes "companionship"
theme_value encouragement = codes "encouragement"

abbrev pub emotion_value : Emotion → Text
emotion_value gratitude = codes "gratitude"
emotion_value joy = codes "joy"
emotion_value warmth = codes "warmth"
emotion_value calm = codes "calm"

abbrev pub imagery_value : Imagery → Text
imagery_value morning_light = codes "morning_light"
imagery_value quiet_garden = codes "quiet_garden"
imagery_value warm_home = codes "warm_home"
imagery_value open_sky = codes "open_sky"

abbrev pub tone_value : Tone → Text
tone_value gentle = codes "gentle"
tone_value playful = codes "playful"
tone_value tender = codes "tender"
tone_value reassuring = codes "reassuring"

-- The member of the list whose value is the text: `enum_type(value)`.
abbrev member_of {ℓ} : {A : Type ℓ} → (A → Text) → List A → Text → Option A
member_of value [] text = none
member_of value (a ∷ members) text =
    if same_text (value a) text then some a else member_of value members text

-- `_enum_member` of each enumeration
unfoldable pub enum_theme : Json → Option Theme
unfolding same_text as_string
enum_theme value = do
  text ← as_string value
  member_of theme_value (appreciation ∷ affection ∷ companionship ∷ encouragement ∷ []) text

unfoldable pub enum_emotion : Json → Option Emotion
unfolding same_text as_string
enum_emotion value = do
  text ← as_string value
  member_of emotion_value (gratitude ∷ joy ∷ warmth ∷ calm ∷ []) text

unfoldable pub enum_imagery : Json → Option Imagery
unfolding same_text as_string
enum_imagery value = do
  text ← as_string value
  member_of imagery_value (morning_light ∷ quiet_garden ∷ warm_home ∷ open_sky ∷ []) text

unfoldable pub enum_tone : Json → Option Tone
unfolding same_text as_string
enum_tone value = do
  text ← as_string value
  member_of tone_value (gentle ∷ playful ∷ tender ∷ reassuring ∷ []) text

-- A card. Its `rights_category` is always `UNKNOWN`; the timestamp is an instant in UTC.
pub record InspirationCard : Type 0 where
  pub theme : Theme
  pub emotion : Emotion
  pub imagery : Imagery
  pub tone : Tone
  pub source : Text
  pub evidence : Text
  pub discovery_timestamp : ℕ

abbrev pub max_result_id_characters : ℕ
max_result_id_characters = 256

abbrev pub max_rights_evidence_characters : ℕ
max_rights_evidence_characters = 1000

abbrev is_id_character : ℕ → Bool
is_id_character c =
    leb b'0' c && leb c b'9'
    || leb b'a' c && leb c b'z'
    || leb b'A' c && leb c b'Z'
    || (c == b'_' || c == b'-')

-- A full match of `RESULT_ID`.
unfoldable pub is_result_id : Text → Bool
is_result_id [] = false
is_result_id (c ∷ s) = all is_id_character (c ∷ s)

abbrev pub draft_keys : List Text
draft_keys = codes "theme" ∷ codes "emotion" ∷ codes "imagery" ∷ codes "tone" ∷ []

module _ (u : Unicode) (lib : Library) where
  unfoldable pub is_bounded_single_line : Text → ℕ → Bool
  unfolding same_text drop_start drop_end
  is_bounded_single_line value maximum =
      same_text value (strip value)
      && (leb 1 (length value) && leb (length value) maximum)
      && not (any (λ c. u.major_category c == b'C') value)

  unfoldable pub canonical_source : Text → Option Text
  unfolding is_bounded_single_line canonical_public_url
  canonical_source value = do
    require (is_bounded_single_line value max_url_characters)
    canonical ← canonical_public_url lib value
    require (same_text canonical value)
    some canonical

  abbrev is_some_text : Option Text → Bool
  is_some_text none = false
  is_some_text (some text) = true

  -- `InspirationCard(...)` with its `__post_init__`
  unfoldable pub inspiration_card : InspirationCard → Option InspirationCard
  inspiration_card card = do
    require (is_some_text (canonical_source card.source))
    require (is_bounded_single_line card.evidence max_rights_evidence_characters)
    some card

  abbrev pub semantic_signals : Theme → Emotion → Imagery → Tone → Text
  semantic_signals theme emotion imagery tone =
      theme_value theme
      ++ b' ' ∷ emotion_value emotion
      ++ b' ' ∷ imagery_value imagery
      ++ b' ' ∷ tone_value tone

  -- Whether the test on copied spans lets the card pass; it raises nothing for spans of six words.
  abbrev pub passes_copy : Result Bool → Bool
  passes_copy (ok is_copy) = not is_copy
  passes_copy (err e) = false

  -- `none` is the `InspirationCardValidationError` that every rejection raises.
  unfoldable pub build_inspiration_card : Json → Text → DiscoveryRecord → Option InspirationCard
  build_inspiration_card draft source_text provenance = do
    fields ← as_object draft
    require (has_exactly draft_keys fields)
    require (
        leb min_extracted_characters (length source_text)
        && leb (length source_text) max_extracted_characters)
    require (is_bounded_single_line provenance.result_id max_result_id_characters)
    require (is_result_id provenance.result_id)
    theme ← enum_theme (get_or_null (codes "theme") fields)
    emotion ← enum_emotion (get_or_null (codes "emotion") fields)
    imagery ← enum_imagery (get_or_null (codes "imagery") fields)
    tone ← enum_tone (get_or_null (codes "tone") fields)
    source ← canonical_source provenance.source_url
    require (is_bounded_single_line provenance.rights_evidence max_rights_evidence_characters)
    require (
        passes_copy
          (copies_source_span u (semantic_signals theme emotion imagery tone) source_text 6))
    inspiration_card (record {
      theme = theme;
      emotion = emotion;
      imagery = imagery;
      tone = tone;
      source = source;
      evidence = provenance.rights_evidence;
      discovery_timestamp = provenance.retrieved_at;
    })

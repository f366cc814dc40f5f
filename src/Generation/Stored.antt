-- ===== src/Generation/Stored.antt =====
-- What `generate_sentence` (src/personal_voice_msg/generation/sentence.py) leaves in the database.
use personal_voice_msg.Prelude.{ℕ, ◌≡◌, refl, Option}
use personal_voice_msg.Prelude.Text.{Text, codes}
use personal_voice_msg.Prelude.Json.{get}
use personal_voice_msg.Exec.Ends.{Ends, Ends-pure, Ends-raise, Ends-then}
use personal_voice_msg.Scheduling.{Datetime}
use personal_voice_msg.Normalization.{Unicode}
use personal_voice_msg.Database.Schema.{Db}
use personal_voice_msg.History.{DuplicateDecision}
use personal_voice_msg.History.Recording.{Recorded, evaluate_and_record_lem}
use personal_voice_msg.Generation.Cards.{InspirationCard}
use personal_voice_msg.Generation.Gemini.{Reply, replied, failed, escaped}
use personal_voice_msg.Generation.Sentence.{
  Checked, valid, rejected, build_prompt, sentence_in, record_valid, then_validate, from_reply,
  generate_sentence,
}
use personal_voice_msg.Generation.Sentences.{IsAccepted, validate_generated_sentence_iff}

module _ (u : Unicode) (sha256 : Text → Text) (ratio : Text → Text → ℕ) (now : Datetime)
    (source : Option Text) (db : Db) where
  -- A rejection changes nothing; a decision is that of the history on an accepted sentence.
  abbrev pub Generated : Checked DuplicateDecision → Db → Type 0
  Generated (rejected rule) t = t ≡ db
  Generated (valid d) t =
      (s : Text) × IsAccepted u source s × Recorded u sha256 ratio s db source d t

  record_valid-Generated :
      (c : Checked Text)
      → ((s : Text) → c ≡ valid s → IsAccepted u source s)
      → Ends (record_valid u sha256 ratio now source c) db Generated (λ e t. t ≡ db)
  record_valid-Generated (rejected rule) h = Ends-pure _ db refl
  record_valid-Generated (valid s) h =
      Ends-then _ _ db (evaluate_and_record_lem u sha256 ratio s db now source)
        (λ d t r. Ends-pure _ t (s, h s refl, r)) (λ e t r. r)

  validated :
      (c : Checked Text) (s : Text)
      → then_validate u sha256 ratio source c ≡ valid s
      → IsAccepted u source s
  validated (rejected rule) s h = cc
  validated (valid raw) s h = ((validate_generated_sentence_iff u source raw s).0 h).1

  reply-Generated :
      (reply : Reply)
      → Ends (from_reply u sha256 ratio now source reply) db Generated (λ e t. t ≡ db)
  reply-Generated (failed reason) = Ends-pure _ db refl
  reply-Generated (escaped e) = Ends-raise e db refl
  reply-Generated (replied fields) =
      record_valid-Generated _ (λ s. validated (sentence_in (get (codes "sentence") fields)) s)

  -- Whatever the language model replies, `generate_sentence` hands the history only a sentence that
  -- is accepted, with the effect that recording it has; a rejection and an exception change
  -- nothing.
  pub generate_sentence-Generated :
      (reply : Text → Reply) (card : InspirationCard)
      → Ends (generate_sentence u sha256 ratio reply card now source) db Generated (λ e t. t ≡ db)
  unfolding generate_sentence
  generate_sentence-Generated reply card = reply-Generated (reply (build_prompt card))

-- ===== src/Sender/Effects.antt =====
-- `send_voice_note` (src/personal_voice_msg/sender.py) and the tables and notes of the world.
use personal_voice_msg.Prelude.{
  ℕ, ◌≡◌, refl, ◌⊎◌, inl, inr, true, List, [], ◌∷◌, ◌++◌, arith, Bool-cases,
}
use personal_voice_msg.Prelude.Text.{Text, Bytes}
use personal_voice_msg.Exec.{Error, Result, ok, err, recast, sender_rejected, sender_blocked}
use personal_voice_msg.Exec.Ends.{
  Ends, Outcome-both, Ends-bind, Ends-raise_if, Ends-recast, Ends-lift, Ends-weaken, Ends-then,
}
use personal_voice_msg.Exec.Keeps.{Ends_of_Keeps}
use personal_voice_msg.Scheduling.{Datetime}
use personal_voice_msg.Database.Control.{record_sender_nonce}
use personal_voice_msg.Database.Control.Effects.{HasTables, record_sender_nonce-HasTables}
use personal_voice_msg.World.{Platform, Settings, Response, answered, Tick, World, on_db}
use personal_voice_msg.World.Quiet.{IsQuiet}
use personal_voice_msg.World.Runs.{Ends-on_db}
use personal_voice_msg.Sender.{judge_response, post, send_voice_note, is_definite_rejection}

-- Only a received answer with a status of the allow-list is a rejection.
pub judge_response-rejects :
    (p : Platform) (r : Response)
    → (judge_response p r ≡ err sender_rejected) ⊎ (judge_response p r ≡ err sender_blocked)
    → (status : ℕ) × (chunks : List Bytes) × (r ≡ answered status chunks)
      × (is_definite_rejection status ≡ true)
unfolding judge_response
judge_response-rejects p Response.no_response h = ground arith
judge_response-rejects p Response.terminated h = ground arith
judge_response-rejects p (answered status chunks) h = (status, chunks, refl, ground arith)

-- The deliveries and messages stay, and at most one note is delivered, by a request whose answer
-- decides the result.
pub record Sends (p : Platform) (key : Text) (tick : Tick) (w : World) (r : Result Text) (t : World)
    : Type 0 where
  pub tables : HasTables w.db.deliveries w.db.messages t.db
  pub outbox :
      (t.outbox ≡ w.outbox)
      ⊎ (tick.delivered ≡ true)
        × (t.outbox ≡ w.outbox ++ key ∷ [])
        × (judge_response p tick.reply ≡ r)

post_lem :
    (p : Platform) (key : Text) (tick : Tick) (w u : World)
    → HasTables w.db.deliveries w.db.messages u.db
    → u.outbox ≡ w.outbox
    → Ends
        (post p key tick)
        u
        (λ a t. Sends p key tick w (ok a) t)
        (λ e t. Sends p key tick w (err e) t)
unfolding post
post_lem p key tick w u h o = record {
  at =
      Outcome-both (Sends p key tick w) (judge_response p tick.reply) (post p key tick u).1
        (record {
          tables = record { deliveries = h.deliveries; messages = h.messages };
          outbox = elim (Bool-cases tick.delivered) [
            | inl out ↦ inr (out, rw (out, o), refl)
            | inr kept ↦ inl (rw (kept, o))
          ];
        });
}

nonce_lem :
    (f : Error → Error) (key : Text) (timestamp : ℕ) (expires_at : Datetime) (w : World)
    → Ends
        (recast f (on_db (record_sender_nonce key timestamp expires_at)))
        w
        (λ _ t. IsQuiet w t)
        (λ _ t. IsQuiet w t)
nonce_lem f key timestamp expires_at w = Ends-recast f _ w (
    Ends-on_db _ w (
      Ends-weaken _ w.db
        (Ends_of_Keeps (HasTables w.db.deliveries w.db.messages) _ w.db
          (record_sender_nonce-HasTables w.db.deliveries w.db.messages key timestamp expires_at)
          (record { deliveries = refl; messages = refl }))
        (λ _ t _ h. record { tables = h; outbox = refl })
        (λ _ t _ h. record { tables = h; outbox = refl })))

module _ (p : Platform) (settings : Settings) (audio_bytes : Bytes) (key : Text) (timestamp : ℕ)
    (signature : Text) (now : ℕ) (tick : Tick) (w : World) where
  unsent : (r : Result Text) (t : World) → IsQuiet w t → Sends p key tick w r t
  unsent r t q = record { tables = q.tables; outbox = inl q.outbox }

  still : IsQuiet w w
  still = record { tables = record { deliveries = refl; messages = refl }; outbox = refl }

  -- A call of the sender delivers its note at most once, and leaves the deliveries alone.
  pub send_voice_note_lem :
      Ends
        (send_voice_note p settings audio_bytes key timestamp signature now tick)
        w
        (λ a t. Sends p key tick w (ok a) t)
        (λ e t. Sends p key tick w (err e) t)
  unfolding send_voice_note
  send_voice_note_lem = Ends-bind _ _ w (
      Ends-raise_if _ _ w
        (λ _. Ends-bind _ _ w (
          Ends-raise_if _ _ w
            (λ _.
              Ends-then _ _ w (nonce_lem _ key timestamp _ w)
                (λ _ t q. Ends-bind _ _ t (
                  Ends-recast _ _ t (
                    Ends-lift _ t (λ _ _. post_lem p key tick w t q.tables q.outbox)
                      (λ e _. unsent _ t q))))
                (λ e t q. unsent _ t q))
            (λ _. unsent _ w still)))
        (λ _. unsent _ w still))

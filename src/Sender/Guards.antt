-- ===== src/Sender/Guards.antt =====
-- The checks of `send_voice_note` (src/personal_voice_msg/sender.py) before the request.
use personal_voice_msg.Prelude.{
  ℕ, ◌≡◌, ◌≢◌, ◌⊎◌, inl, inr, refl, Bool, true, false, not, any, any-append_last, arith,
}
use personal_voice_msg.Prelude.Text.{Text, Bytes, same_text_self}
use personal_voice_msg.Exec.{Error, ok, recast}
use personal_voice_msg.Exec.Ends.{
  Ends, Outcome-both, Ends-bind, Ends-raise_if, Ends-recast, Ends-lift, Ends-gets, Ends-modify,
  Ends-transaction, Ends-weaken, Ends-then,
}
use personal_voice_msg.Exec.Keeps.{either_end}
use personal_voice_msg.Scheduling.{Datetime}
use personal_voice_msg.Database.Schema.{Db}
use personal_voice_msg.Database.Control.{record_sender_nonce, is_nonce}
use personal_voice_msg.World.{Platform, Settings, Tick, World, on_db}
use personal_voice_msg.World.Runs.{Ends-on_db}
use personal_voice_msg.Sender.{verify_signature, is_fresh, post, send_voice_note}

own_nonce :
    (key : Text) (timestamp expiry : ℕ)
    → is_nonce key timestamp
        (record { idempotency_key = key; timestamp = timestamp; expires_at = expiry })
      ≡ true
own_nonce key timestamp expiry = rw (same_text_self key) (ground arith)

-- A request that is new by its key and timestamp leaves its nonce behind.
record_sender_nonce_lem :
    (key : Text) (timestamp : ℕ) (expires_at : Datetime) (db : Db)
    → Ends
        (record_sender_nonce key timestamp expires_at)
        db
        (λ _ t.
          (any (is_nonce key timestamp) db.nonces ≡ false)
          × (any (is_nonce key timestamp) t.nonces ≡ true))
        (λ e t. t ≡ db)
unfolding record_sender_nonce
record_sender_nonce_lem key timestamp expires_at db = Ends-transaction _ db (
    Ends-bind _ _ db (
      Ends-lift _ db
        (λ expiry _. Ends-bind _ _ db (
          Ends-gets _ db (
            Ends-bind _ _ db (
              Ends-raise_if _ _ db
                (λ new. Ends-modify _ db (
                  new,
                  any-append_last (is_nonce key timestamp) db.nonces
                      (record { idempotency_key = key; timestamp = timestamp; expires_at = expiry })
                      (own_nonce key timestamp expiry),
                ))
                (λ _. refl)))))
        (λ e _. refl)))

passed : (b : Bool) → not b ≡ false → b ≡ true
passed true h = refl
passed false h = cc

-- What holds before and after a call that may have delivered a note.
pub record Posted (p : Platform) (settings : Settings) (audio_bytes : Bytes) (key : Text)
    (timestamp : ℕ) (signature : Text) (now : ℕ) (tick : Tick) (w t : World) : Type 0 where
  pub verified : verify_signature p settings.sender_auth_key key timestamp signature ≡ true
  pub fresh : is_fresh timestamp now ≡ true
  pub unused : any (is_nonce key timestamp) w.db.nonces ≡ false
  pub used : any (is_nonce key timestamp) t.db.nonces ≡ true
  pub audio : tick.audio_check audio_bytes ≡ ok tt

module _ (p : Platform) (settings : Settings) (audio_bytes : Bytes) (key : Text) (timestamp : ℕ)
    (signature : Text) (now : ℕ) (tick : Tick) (w : World) where
  abbrev pub Checked : World → Type 0
  Checked t =
      (t.outbox ≡ w.outbox) ⊎ Posted p settings audio_bytes key timestamp signature now tick w t

  nonce-Checked :
      (f : Error → Error) (expires_at : Datetime)
      → Ends
          (recast f (on_db (record_sender_nonce key timestamp expires_at)))
          w
          (λ _ t.
            (t.outbox ≡ w.outbox)
            × (any (is_nonce key timestamp) w.db.nonces ≡ false)
            × (any (is_nonce key timestamp) t.db.nonces ≡ true))
          (λ _ t. Checked t)
  nonce-Checked f expires_at = Ends-recast f _ w (
      Ends-on_db _ w (
        Ends-weaken _ w.db (record_sender_nonce_lem key timestamp expires_at w.db)
          (λ _ t _ (new, used). (refl, new, used)) (λ _ t _ h. inl refl)))

  posted :
      (t : World)
      → Posted p settings audio_bytes key timestamp signature now tick w t
      → Ends (post p key tick) t (λ _ u. Checked u) (λ _ u. Checked u)
  unfolding post
  posted t h = record {
    at =
        Outcome-both (λ _ u. Checked u) (post p key tick t).0 (post p key tick t).1
          (inr (record {
            verified = h.verified;
            fresh = h.fresh;
            unused = h.unused;
            used = h.used;
            audio = h.audio;
          }));
  }

  checked_lem :
      Ends
        (send_voice_note p settings audio_bytes key timestamp signature now tick)
        w
        (λ _ t. Checked t)
        (λ _ t. Checked t)
  unfolding send_voice_note
  checked_lem = Ends-bind _ _ w (
      Ends-raise_if _ _ w
        (λ unverified. Ends-bind _ _ w (
          Ends-raise_if _ _ w
            (λ stale.
              Ends-then _ _ w (nonce-Checked _ _)
                (λ _ t (same, unused, used). Ends-bind _ _ t (
                  Ends-recast _ _ t (
                    Ends-lift _ t
                      (λ _ audio. posted t (record {
                        verified = passed _ unverified;
                        fresh = passed _ stale;
                        unused = unused;
                        used = used;
                        audio = audio;
                      }))
                      (λ e _. inl same))))
                (λ e t h. h))
            (λ _. inl refl)))
        (λ _. inl refl))

  pub checked :
      Checked (send_voice_note p settings audio_bytes key timestamp signature now tick w).1
  checked =
      either_end Checked _
        (send_voice_note p settings audio_bytes key timestamp signature now tick w).1
        (checked_lem.at)

  -- A call that changes what Telegram has delivered was signed under the key, fresh, not a replay
  -- and with audio that passes the check, and it leaves its nonce in the database.
  pub posts_guarded :
      (send_voice_note p settings audio_bytes key timestamp signature now tick w).1.outbox
        ≢ w.outbox
      → Posted p settings audio_bytes key timestamp signature now tick w
          (send_voice_note p settings audio_bytes key timestamp signature now tick w).1
  posts_guarded new = elim checked [ inl same ↦ absurd (new same) | inr h ↦ h ]

-- ===== src/Sender/Replays.antt =====
-- The same request to src/personal_voice_msg/sender.py, again and later.
use personal_voice_msg.Prelude.{ℕ, ◌≡◌, ◌≢◌, Bool, true, List, [], ◌∷◌, ◌++◌, any, arith, inl, inr}
use personal_voice_msg.Prelude.Text.{Text, Bytes}
use personal_voice_msg.Exec.{Exec}
use personal_voice_msg.Exec.Keeps.{
  Keeps, Keeps-lift, Keeps-gets, Keeps-raise_if, Keeps-transaction, Keeps-bind, Keeps-modify,
  Keeps-recast, run_each, run_each-Keeps,
}
use personal_voice_msg.Scheduling.{Datetime}
use personal_voice_msg.Database.Schema.{Db}
use personal_voice_msg.Database.Control.{record_sender_nonce, is_nonce}
use personal_voice_msg.World.{Platform, Settings, Tick, World, on_db}
use personal_voice_msg.Sender.{post, send_voice_note}
use personal_voice_msg.Sender.Guards.{checked, posts_guarded}

-- A call of `send_voice_note`: its arguments, its time and what it meets.
pub record Request : Type 0 where
  pub audio_bytes : Bytes
  pub idempotency_key : Text
  pub timestamp : ℕ
  pub signature : Text
  pub now : ℕ
  pub tick : Tick

abbrev pub send : Platform → Settings → Request → Exec World Text
send p settings r =
    send_voice_note p settings r.audio_bytes r.idempotency_key r.timestamp r.signature r.now r.tick

-- The nonce is in the database.
abbrev IsUsed : Text → ℕ → Db → Type 0
IsUsed key timestamp db = any (is_nonce key timestamp) db.nonces ≡ true

any-append_first :
    {A : Type 0} (p : A → Bool) (xs ys : List A) → any p xs ≡ true → any p (xs ++ ys) ≡ true
any-append_first p [] ys h = absurd (cc h)
any-append_first p (x ∷ xs) ys h = ground (arith, any-append_first p xs ys)

module _ (key : Text) (timestamp : ℕ) where
  record_sender_nonce-IsUsed :
      (other : Text) (stamp : ℕ) (expires_at : Datetime)
      → Keeps (IsUsed key timestamp) (record_sender_nonce other stamp expires_at)
  unfolding record_sender_nonce
  record_sender_nonce-IsUsed other stamp expires_at = Keeps-transaction _ (
      Keeps-bind _ _ (Keeps-lift _) λ expiry. Keeps-bind _ _ (Keeps-gets _) λ nonces.
        Keeps-bind _ _ (Keeps-raise_if _ _) λ _.
          Keeps-modify _ (λ db used. any-append_first (is_nonce key timestamp) db.nonces _ used))

  on_db-IsUsed :
      {A : Type 0} (m : Exec Db A)
      → Keeps (IsUsed key timestamp) m
      → Keeps (λ w. IsUsed key timestamp w.db) (on_db m)
  unfolding on_db
  on_db-IsUsed m k = record { at = λ w used. k.at w.db used }

  post-IsUsed :
      (p : Platform) (other : Text) (tick : Tick)
      → Keeps (λ w. IsUsed key timestamp w.db) (post p other tick)
  unfolding post
  post-IsUsed p other tick = record { at = λ w used. used }

  send-IsUsed :
      (p : Platform) (settings : Settings) (r : Request)
      → Keeps (λ w. IsUsed key timestamp w.db) (send p settings r)
  unfolding send_voice_note
  send-IsUsed p settings r = Keeps-bind _ _ (Keeps-raise_if _ _) λ _.
      Keeps-bind _ _ (Keeps-raise_if _ _) λ _.
        Keeps-bind _ _
          (Keeps-recast _ _ (on_db-IsUsed _ (record_sender_nonce-IsUsed r.idempotency_key _ _)))
          λ _.
            Keeps-bind _ _ (Keeps-recast _ _ (Keeps-lift _))
              λ _. post-IsUsed p r.idempotency_key r.tick

module _ (p : Platform) (settings : Settings) (first : Request) (w : World) where
  abbrev pub after_first : World
  after_first = (send p settings first w).1

  -- Once a request has delivered a note, then after any further requests, whatever they are, the
  -- same key and timestamp deliver nothing, however late and with whatever audio and signature they
  -- come again.
  pub replay_refused :
      (between : List Request) (again : Request)
      → after_first.outbox ≢ w.outbox
      → again.idempotency_key ≡ first.idempotency_key
      → again.timestamp ≡ first.timestamp
      → (send p settings again (run_each (send p settings) between after_first)).1.outbox
        ≡ (run_each (send p settings) between after_first).outbox
  replay_refused between again new same_key same_time =
      let posted =
        posts_guarded p settings first.audio_bytes first.idempotency_key first.timestamp
          first.signature first.now first.tick w new in
      let used : IsUsed again.idempotency_key again.timestamp
          (run_each (send p settings) between after_first).db =
        rw (same_key, same_time)
          (run_each-Keeps (send p settings) between after_first
            (send-IsUsed first.idempotency_key first.timestamp p settings) posted.used) in
      elim (checked p settings again.audio_bytes again.idempotency_key again.timestamp
        again.signature again.now again.tick (run_each (send p settings) between after_first)) [
          | inl same ↦ same
          | inr second ↦ absurd (cc (used, second.unused))
        ]

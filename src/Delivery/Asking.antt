-- ===== src/Delivery/Asking.antt =====
-- The request of `send_ready` (src/personal_voice_msg/delivery.py), and what it leaves.
use mathlib.Core.Path.{subst}
use personal_voice_msg.Prelude.{
  ℕ, ◌≡◌, refl, ◌+◌, false, Option, some, List, [], ◌∷◌, ◌++◌, any, arith, if◌then◌else◌,
}
use personal_voice_msg.Prelude.Text.{Text, Bytes, same_text_self}
use personal_voice_msg.Exec.{Result, ok, err}
use personal_voice_msg.Exec.Ends.{
  Ends, Outcome-both, Ends-bind, Ends-gets, Ends-modify, Ends-raise_if, Ends-outcome, Ends-or_raise,
  Ends-attempt, Ends-recast, Ends-transaction, Ends-weaken,
}
use personal_voice_msg.Scheduling.{aware}
use personal_voice_msg.Database.States.{MessageState, audio_ready, sending, can_deliver}
use personal_voice_msg.Database.Schema.{Nonce, Control, Db}
use personal_voice_msg.Database.RecipientKey.{recipient_key_for_chat_id, timestamp_of}
use personal_voice_msg.Database.Deliveries.{fetch_delivery}
use personal_voice_msg.Database.Deliveries.Paired.{Paired, elsewhere}
use personal_voice_msg.Database.Deliveries.Moving.{transition_delivery-Paired}
use personal_voice_msg.Database.Control.{is_nonce, record_sender_nonce}
use personal_voice_msg.Database.DeliveryReads.{get_audio_data}
use personal_voice_msg.World.{Platform, Settings, Tick, World}
use personal_voice_msg.World.Runs.{with_db, Ends-on_db}
use personal_voice_msg.Sender.{judge_response, post, send_voice_note, sign_request, unix_seconds}
use personal_voice_msg.Sender.Requests.{own_request_passes}
use personal_voice_msg.Delivery.{delivery_key, send_ready}
use personal_voice_msg.Delivery.Concluding.{concluded_state, StandsAs, Finished, conclude_lem}

module _ (p : Platform) (settings : Settings) (tick : Tick) (now : ℕ) (text : Text) (i : ℕ)
    (audio_bytes : Bytes) (nonces : List Nonce) (control : Option Control) where
  -- The outbox after the request to Telegram.
  abbrev pub after_post : World → List Text
  after_post w = if tick.delivered then w.outbox ++ delivery_key i ∷ [] else w.outbox

  abbrev Ready : MessageState → World → Type 0
  Ready s w = Paired text nonces control i s (some audio_bytes) w.db

  -- The request was made, and its answer judged.
  abbrev Asked : List Text → Result Text → World → Type 0
  Asked outbox answer w =
      (judge_response p tick.reply ≡ answer)
      × StandsAs text i sending (some audio_bytes) w.db
      × (w.outbox ≡ outbox)

  post_lem :
      (w : World)
      → StandsAs text i sending (some audio_bytes) w.db
      → Ends
          (post p (delivery_key i) tick)
          w
          (λ a t. Asked (after_post w) (ok a) t)
          (λ e t. Asked (after_post w) (err e) t)
  unfolding post
  post_lem w q = record {
    at =
        Outcome-both (Asked (after_post w)) (post p (delivery_key i) tick w).0
          (post p (delivery_key i) tick w).1 (refl, q, refl);
  }

  send_voice_note_lem :
      (w : World)
      → tick.audio_check audio_bytes ≡ ok tt
      → any (is_nonce (delivery_key i) (unix_seconds now)) nonces ≡ false
      → Ready sending w
      → Ends
          (send_voice_note p settings audio_bytes
            (delivery_key i)
            (unix_seconds now)
            (sign_request p settings.sender_auth_key (delivery_key i) (unix_seconds now))
            now
            tick)
          w
          (λ a t. Asked (after_post w) (ok a) t)
          (λ e t. Asked (after_post w) (err e) t)
  unfolding send_voice_note record_sender_nonce timestamp_of
  send_voice_note_lem w checked unused q =
      let (verified, fresh) = own_request_passes p settings.sender_auth_key (delivery_key i) now in
      Ends-bind _ _ w (
        Ends-raise_if _ _ w
          (λ _. Ends-bind _ _ w (
            Ends-raise_if _ _ w
              (λ _. Ends-bind _ _ w (
                Ends-recast _ _ w (
                  Ends-on_db _ w (
                    Ends-transaction _ w.db (
                      Ends-bind _ _ w.db (
                        Ends-outcome (timestamp_of (aware (now + 300000000))) w.db (
                          Ends-bind _ _ w.db (
                            Ends-gets _ w.db (
                              Ends-bind _ _ w.db (
                                Ends-raise_if _ _ w.db
                                  (λ _. Ends-modify _ w.db (
                                    Ends-bind _ _ _ (
                                      Ends-recast _ _ _ (
                                        Ends-outcome (tick.audio_check audio_bytes) _ (
                                          rw checked (
                                            post_lem _ (
                                              elsewhere text nonces control i sending
                                                (some audio_bytes) w.db q _ refl refl _ refl _
                                                refl)))))))
                                  (λ bad. absurd (cc (bad, unused, q.nonces_are)))))))))))))
              (λ bad. absurd (ground (arith, bad, fresh)))))
          (λ bad. absurd (ground (arith, bad, verified))))

  get_audio_data_lem :
      (s : MessageState) (db : Db)
      → Paired text nonces control i s (some audio_bytes) db
      → Ends (get_audio_data i) db (λ a t. (t ≡ db) × (a ≡ audio_bytes)) (λ e t. ⊥)
  unfolding get_audio_data fetch_delivery
  get_audio_data_lem s db q = Ends-bind _ _ db (
      Ends-bind _ _ db (
        Ends-gets _ db (
          Ends-or_raise _ _ db
            (λ d e.
              Ends-or_raise _ _ db
                (λ a f.
                  let it : d ≡ q.d = cc (e, q.found) in
                  let the_audio : some a ≡ some audio_bytes = rw (← f, it) (q.audio_is) in
                  (refl, cc (the_audio)))
                (λ f. let it : d ≡ q.d = cc (e, q.found) in absurd (cc (f, it, q.audio_is))))
            (λ e. absurd (cc (e, q.found))))))

module _ (p : Platform) (settings : Settings) (tick : Tick) (now : ℕ) (text : Text) (i : ℕ)
    (audio_bytes : Bytes) (nonces : List Nonce) (control : Option Control) where
  -- What `send_ready` needs besides the audio: its clock, the recipient's own key, audio that
  -- passes the check, a new nonce, and an answer that it handles.
  pub record Sendable (key : Text) (s : MessageState) : Type 0 where
    pub on_time : tick.now ≡ aware now
    pub own : key ≡ recipient_key_for_chat_id settings.telegram_chat_id
    pub checked : tick.audio_check audio_bytes ≡ ok tt
    pub unused : any (is_nonce (delivery_key i) (unix_seconds now)) nonces ≡ false
    pub answer : concluded_state (judge_response p tick.reply) ≡ some s

  pub send_ready_lem :
      (key : Text) (s : MessageState) (w : World)
      → Sendable key s
      → Paired text nonces control i audio_ready (some audio_bytes) w.db
      → Ends
          (send_ready p settings key tick i)
          w
          (Finished text i
            (some audio_bytes)
            (if tick.delivered then w.outbox ++ delivery_key i ∷ [] else w.outbox)
            s)
          (λ e t. ⊥)
  unfolding send_ready can_deliver
  send_ready_lem key s w h q =
      rw (h.on_time, h.own)
        (Ends-bind _ _ w (
          Ends-raise_if _ _ w
            (λ _. Ends-bind _ _ w (
              Ends-on_db _ w (
                Ends-weaken _ w.db
                  (get_audio_data_lem p settings tick now text i audio_bytes nonces control
                    audio_ready w.db q)
                  (λ a t _ (same, it).
                    rw (same, it)
                      (Ends-bind _ _ w (
                        Ends-on_db _ w (
                          Ends-weaken _ w.db
                            (transition_delivery-Paired text nonces control i audio_ready
                              (some audio_bytes) w.db q now sending refl)
                            (λ _ u _ r. Ends-bind _ _ (with_db w u) (
                              Ends-attempt _ (with_db w u) (
                                Ends-weaken _ (with_db w u)
                                  (send_voice_note_lem p settings (record tick { now = aware now })
                                    now text i audio_bytes nonces control (with_db w u) h.checked
                                    h.unused r)
                                  (λ a v _ (j, st, ob).
                                    conclude_lem text i (some audio_bytes) _ now (ok a) s v
                                      (subst (λ r. concluded_state r ≡ some s) j h.answer) st ob)
                                  (λ x v _ (j, st, ob).
                                    conclude_lem text i (some audio_bytes) _ now (err x) s v
                                      (subst (λ r. concluded_state r ≡ some s) j h.answer) st ob))))
                            (λ x u _ never. never)))))
                  (λ x t _ never. never))))
            (λ bad. absurd (
              ground (
                arith,
                bad,
                same_text_self (recipient_key_for_chat_id settings.telegram_chat_id),
              )))))

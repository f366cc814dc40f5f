-- ===== src/Database/Deliveries/Moving.antt =====
-- When the methods of src/personal_voice_msg/database.py that move a delivery return.
use personal_voice_msg.Prelude.{ℕ, ◌≡◌, refl, Bool, true, not, Option, some, List, arith}
use personal_voice_msg.Prelude.Text.{Text, Bytes}
use personal_voice_msg.Exec.{Error, Exec, ⊤, lift, transaction, raise_if, ◌>>=◌, ◌>>◌}
use personal_voice_msg.Exec.Ends.{
  Ends, Ends-then, Ends-bind, Ends-modify, Ends-raise_if, Ends-lift, Ends-transaction,
}
use personal_voice_msg.Scheduling.{aware}
use personal_voice_msg.Database.States.{
  MessageState, reserved, audio_ready, is, can_deliver, is_attempt_outcome,
}
use personal_voice_msg.Database.Schema.{Delivery, Nonce, Control, Db}
use personal_voice_msg.Database.RecipientKey.{timestamp_of}
use personal_voice_msg.Database.Deliveries.{
  fetch_joined, moved, with_audio, concluded, transition_delivery, mark_audio_ready, insert_attempt,
  record_delivery_attempt,
}
use personal_voice_msg.Database.Deliveries.Paired.{
  Paired, Changes, move_both-Paired, move_both-attempts, fetch_joined-Paired,
}

concluded-Changes :
    (outcome : MessageState) (id : Option Text) (timestamp : ℕ) (audio : Option Bytes)
    → Changes outcome audio audio (concluded outcome id timestamp)
unfolding concluded
concluded-Changes outcome id timestamp audio = record {
  same_id = λ d. ground arith;
  same_message = λ d. ground arith;
  state = λ d. ground arith;
  audio_data = λ d h. ground (arith, h);
}

module _ (text : Text) (nonces : List Nonce) (control : Option Control) (i : ℕ) (s : MessageState)
    (audio : Option Bytes) (db : Db) (p : Paired text nonces control i s audio db) where
  -- The pair is read, and a test of its state is passed, in a transaction at an instant.
  stepped :
      {Q : ⊤ → Db → Type 0} (test : MessageState → Bool) (refusal : Error)
      (rest : ℕ → Delivery → Exec Db ⊤) (now : ℕ)
      → test s ≡ true
      → ((timestamp : ℕ) → Ends (rest timestamp p.d) db Q (λ e t. ⊥))
      → Ends
          (lift (timestamp_of (aware now)) >>= λ timestamp.
            transaction
              (fetch_joined i >>= λ d. raise_if (not (test d.state)) refusal >> rest timestamp d))
          db
          Q
          (λ e t. ⊥)
  unfolding timestamp_of
  stepped test refusal rest now allowed h = Ends-bind _ _ db (
      Ends-lift _ db
        (λ timestamp _. Ends-transaction _ db (
          Ends-then _ _ db (fetch_joined-Paired text nonces control i s audio db p)
            (λ d t (same, it).
              rw (same, it)
                (Ends-bind _ _ db (
                  Ends-raise_if _ _ db (λ _. h timestamp)
                    (λ bad. absurd (ground (arith, bad, p.in_state, allowed))))))
            (λ e t never. never)))
        (λ e never. absurd (cc never)))

  module _ (now : ℕ) where
    -- Each method returns where the step from the state of the pair is allowed, and moves both.
    pub transition_delivery-Paired :
        (target : MessageState)
        → can_deliver s target ≡ true
        → Ends
            (transition_delivery i target (aware now))
            db
            (λ _ t. Paired text nonces control i target audio t)
            (λ e t. ⊥)
    unfolding transition_delivery
    transition_delivery-Paired target allowed =
        stepped (λ state. can_deliver state target) _ _ now allowed
          λ timestamp.
            move_both-Paired text nonces control i s audio db p target timestamp
              (moved target timestamp) audio
              (record {
                same_id = λ d. refl;
                same_message = λ d. refl;
                state = λ d. refl;
                audio_data = λ d h. h;
              })

    pub record_delivery_attempt-Paired :
        (outcome : MessageState) (provider_message_id : Option Text)
        → can_deliver s outcome ≡ true
        → is_attempt_outcome outcome ≡ true
        → Ends
            (record_delivery_attempt i outcome (aware now) provider_message_id)
            db
            (λ _ t. Paired text nonces control i outcome audio t)
            (λ e t. ⊥)
    unfolding record_delivery_attempt insert_attempt
    record_delivery_attempt-Paired outcome id allowed listed = Ends-bind _ _ db (
        Ends-raise_if _ _ db
          (λ _.
            stepped (λ state. can_deliver state outcome) _ _ now allowed
              λ timestamp. Ends-bind _ _ db (
                Ends-modify _ db (
                  move_both-attempts text nonces control i s audio db p outcome timestamp
                    (concluded outcome id timestamp) audio
                    (concluded-Changes outcome id timestamp audio) _)))
          (λ bad. absurd (ground (arith, bad, listed))))

    pub mark_audio_ready-Paired :
        (audio_bytes : Bytes)
        → is s reserved ≡ true
        → Ends
            (mark_audio_ready i audio_bytes (aware now))
            db
            (λ _ t. Paired text nonces control i audio_ready (some audio_bytes) t)
            (λ e t. ⊥)
    unfolding mark_audio_ready
    mark_audio_ready-Paired audio_bytes at_start =
        stepped (λ state. is state reserved) _ _ now at_start
          λ timestamp.
            move_both-Paired text nonces control i s audio db p audio_ready timestamp
              (with_audio audio_bytes timestamp) (some audio_bytes)
              (record {
                same_id = λ d. refl;
                same_message = λ d. refl;
                state = λ d. refl;
                audio_data = λ d h. refl;
              })

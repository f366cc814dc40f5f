-- ===== src/Database/Deliveries/Effects.antt =====
-- What the methods that move a delivery write, as equations on the tables.
use personal_voice_msg.Prelude.{ℕ, ◌≡◌, refl, Bool, true, false, not, Option, some, arith}
use personal_voice_msg.Prelude.Text.{Text, Bytes}
use personal_voice_msg.Exec.{Error, ⊤}
use personal_voice_msg.Exec.Ends.{
  Ends, Ends-read, Ends-then, Ends-bind, Ends-gets, Ends-or_raise, Ends-modify, Ends-pure,
  Ends-raise_if, Ends-lift, Ends-transaction, Ends-weaken,
}
use personal_voice_msg.Scheduling.{Datetime}
use personal_voice_msg.Rows.{find, update}
use personal_voice_msg.Database.States.{MessageState, audio_ready, reserved, is, is→eq, can_deliver}
use personal_voice_msg.Database.Schema.{Message, Delivery, Db, delivery_has_id, message_has_id}
use personal_voice_msg.Database.Messages.{fetch_message, message_in_state, update_message_state}
use personal_voice_msg.Database.Deliveries.{
  fetch_delivery, fetch_joined, delivery_in_state, update_delivery, move_both, moved, with_audio,
  concluded, transition_delivery, mark_audio_ready, insert_attempt, record_delivery_attempt,
}

abbrev pub message_moved : MessageState → ℕ → Message → Message
message_moved target timestamp m = record m { state = target; updated_at = timestamp }

-- The delivery `i` and its message, both in the state `current`, are moved to `target`: the
-- delivery by `change`, and every other row of the two tables stays.
pub record Moves (i : ℕ) (current target : MessageState) (timestamp : ℕ)
    (change : Delivery → Delivery) (db t : Db) : Type 0 where
  pub d : Delivery
  pub m : Message
  pub found : find (delivery_has_id i) db.deliveries ≡ some d
  pub message_found : find (message_has_id d.message_id) db.messages ≡ some m
  pub in_state : d.state ≡ current
  pub agree : m.state ≡ current
  pub deliveries : t.deliveries ≡ update (delivery_in_state d.id d.state) change db.deliveries
  pub messages :
      t.messages
      ≡ update (message_in_state d.message_id d.state) (message_moved target timestamp) db.messages
  pub control : t.control ≡ db.control

-- Where a method raises, the database is the one before the call.
abbrev pub Unchanged : Db → Error → Db → Type 0
Unchanged db e t = t ≡ db

pub fetch_delivery_lem :
    (i : ℕ) (db : Db)
    → Ends
        (fetch_delivery i)
        db
        (λ d t. (t ≡ db) × (find (delivery_has_id i) db.deliveries ≡ some d))
        (λ e t. t ≡ db)
unfolding fetch_delivery
fetch_delivery_lem i db =
    Ends-bind _ _ db (Ends-gets _ db (Ends-or_raise _ _ db (λ d e. (refl, e)) (λ e. refl)))

pub fetch_message_lem :
    (i : ℕ) (db : Db)
    → Ends
        (fetch_message i)
        db
        (λ m t. (t ≡ db) × (find (message_has_id i) db.messages ≡ some m))
        (λ e t. t ≡ db)
unfolding fetch_message
fetch_message_lem i db =
    Ends-bind _ _ db (Ends-gets _ db (Ends-or_raise _ _ db (λ d e. (refl, e)) (λ e. refl)))

-- A delivery that `fetch_joined` returns, with its message.
pub record Joined (i : ℕ) (db : Db) (d : Delivery) : Type 0 where
  pub m : Message
  pub found : find (delivery_has_id i) db.deliveries ≡ some d
  pub message_found : find (message_has_id d.message_id) db.messages ≡ some m
  pub agree : m.state ≡ d.state

pub fetch_joined_lem :
    (i : ℕ) (db : Db) → Ends (fetch_joined i) db (λ d t. (t ≡ db) × Joined i db d) (λ e t. t ≡ db)
unfolding fetch_joined
fetch_joined_lem i db =
    Ends-read _ _ db (fetch_delivery_lem i db)
      (λ d found.
        Ends-read _ _ db (fetch_message_lem d.message_id db)
          (λ m there. Ends-bind _ _ db (
            Ends-raise_if _ _ db
              (λ same. Ends-pure d db (
                refl,
                record {
                  m = m;
                  found = found;
                  message_found = there;
                  agree = is→eq m.state d.state (ground arith);
                },
              ))
              (λ _. refl)))
          (λ e. refl))
      (λ e. refl)

pub update_delivery_lem :
    (i : ℕ) (current : MessageState) (change : Delivery → Delivery) (db : Db)
    → Ends
        (update_delivery i current change)
        db
        (λ n t.
          t ≡ record db { deliveries = update (delivery_in_state i current) change db.deliveries })
        (λ e t. ⊥)
unfolding update_delivery
update_delivery_lem i current change db =
    Ends-bind _ _ db (Ends-gets _ db (Ends-bind _ _ db (Ends-modify _ db (Ends-pure _ _ refl))))

pub update_message_state_lem :
    (i : ℕ) (current target : MessageState) (timestamp : ℕ) (db : Db)
    → Ends
        (update_message_state i current target timestamp)
        db
        (λ n t. t ≡ record db {
          messages =
              update (message_in_state i current) (message_moved target timestamp) db.messages;
        })
        (λ e t. ⊥)
unfolding update_message_state
update_message_state_lem i current target timestamp db =
    Ends-bind _ _ db (Ends-gets _ db (Ends-bind _ _ db (Ends-modify _ db (Ends-pure _ _ refl))))

abbrev both_moved : Delivery → MessageState → ℕ → (Delivery → Delivery) → Db → Db
both_moved d target timestamp change db = record db {
  deliveries = update (delivery_in_state d.id d.state) change db.deliveries;
  messages =
      update (message_in_state d.message_id d.state) (message_moved target timestamp) db.messages;
}

move_both_lem :
    (d : Delivery) (target : MessageState) (timestamp : ℕ) (change : Delivery → Delivery) (db : Db)
    → Ends
        (move_both d target timestamp change)
        db
        (λ _ t. t ≡ both_moved d target timestamp change db)
        (λ e t. Unit)
unfolding move_both
move_both_lem d target timestamp change db =
    Ends-then _ _ db (update_delivery_lem d.id d.state change db)
      (λ n t e.
        Ends-then _ _ t (update_message_state_lem d.message_id d.state target timestamp t)
          (λ k u f. Ends-raise_if _ _ u (λ _. rw (f, e)) (λ _. tt)) (λ e t x. tt))
      (λ e t x. tt)

-- Moving a joined delivery and its message, whatever an action before has written elsewhere.
pub Joined-move :
    {i : ℕ} {d : Delivery} {db : Db} (u : Db) (target : MessageState) (timestamp : ℕ)
    (change : Delivery → Delivery)
    → Joined i db d
    → u.deliveries ≡ db.deliveries
    → u.messages ≡ db.messages
    → u.control ≡ db.control
    → Ends
        (move_both d target timestamp change)
        u
        (λ _ t. Moves i d.state target timestamp change db t)
        (λ e t. Unit)
Joined-move {i} {d} {db} u target timestamp change j ds ms c =
    Ends-weaken _ u (move_both_lem d target timestamp change u)
      (λ _ t _ e. record {
        d = d;
        m = j.m;
        found = j.found;
        message_found = j.message_found;
        in_state = refl;
        agree = j.agree;
        deliveries = rw (e, ← ds);
        messages = rw (e, ← ms);
        control = rw (e, ← c);
      })
      (λ e t _ _. tt)

-- A call that returns has moved delivery `i` by `change`, from a state that `allowed` admits.
abbrev pub Moved :
    ℕ → (MessageState → Bool) → MessageState → (ℕ → Delivery → Delivery) → Db → ⊤ → Db → Type 0
Moved i allowed target change db _ t =
    (current : MessageState) × (timestamp : ℕ) × (allowed current ≡ true)
    × Moves i current target timestamp (change timestamp) db t

is_false : (b : Bool) → not b ≡ false → b ≡ true
is_false b h = ground arith

module _ (i : ℕ) (now : Datetime) (db : Db) where
  -- A transition that returns was allowed, and moved the delivery and its message, which agreed; one
  -- that raises changes nothing.
  pub transition_delivery_lem :
      (target : MessageState)
      → Ends
          (transition_delivery i target now)
          db
          (Moved i (λ s. can_deliver s target) target (moved target) db)
          (Unchanged db)
  unfolding transition_delivery
  transition_delivery_lem target = Ends-bind _ _ db (
      Ends-lift _ db
        (λ timestamp _. Ends-transaction _ db (
          Ends-read _ _ db (fetch_joined_lem i db)
            (λ d j. Ends-bind _ _ db (
              Ends-raise_if _ _ db
                (λ allowed.
                  Ends-weaken _ db
                    (Joined-move db target timestamp (moved target timestamp) j refl refl refl)
                    (λ _ t _ k. (d.state, timestamp, is_false _ allowed, k)) (λ e t _ _. refl))
                (λ _. refl)))
            (λ e. refl)))
        (λ e _. refl))

  -- Stored audio moves a reserved delivery to `AUDIO_READY`.
  pub mark_audio_ready_lem :
      (audio_bytes : Bytes)
      → Ends
          (mark_audio_ready i audio_bytes now)
          db
          (Moved i (λ s. is s reserved) audio_ready (with_audio audio_bytes) db)
          (Unchanged db)
  unfolding mark_audio_ready
  mark_audio_ready_lem audio_bytes = Ends-bind _ _ db (
      Ends-lift _ db
        (λ timestamp _. Ends-transaction _ db (
          Ends-read _ _ db (fetch_joined_lem i db)
            (λ d j. Ends-bind _ _ db (
              Ends-raise_if _ _ db
                (λ allowed.
                  Ends-weaken _ db
                    (Joined-move db audio_ready timestamp (with_audio audio_bytes timestamp) j refl
                      refl refl)
                    (λ _ t _ k. (d.state, timestamp, is_false _ allowed, k)) (λ e t _ _. refl))
                (λ _. refl)))
            (λ e. refl)))
        (λ e _. refl))

  -- An attempt that is recorded is an allowed move of the delivery and its message, which agreed, to
  -- the outcome, by the columns of that outcome; a call that raises changes nothing.
  pub record_delivery_attempt_lem :
      (outcome : MessageState) (provider_message_id : Option Text)
      → Ends
          (record_delivery_attempt i outcome now provider_message_id)
          db
          (Moved i (λ s. can_deliver s outcome) outcome (concluded outcome provider_message_id) db)
          (Unchanged db)
  unfolding record_delivery_attempt insert_attempt
  record_delivery_attempt_lem outcome provider_message_id = Ends-bind _ _ db (
      Ends-raise_if _ _ db
        (λ _. Ends-bind _ _ db (
          Ends-lift _ db
            (λ timestamp _. Ends-transaction _ db (
              Ends-read _ _ db (fetch_joined_lem i db)
                (λ d j. Ends-bind _ _ db (
                  Ends-raise_if _ _ db
                    (λ allowed. Ends-bind _ _ db (
                      Ends-modify _ db (
                        Ends-weaken _ _
                          (Joined-move _ outcome timestamp
                            (concluded outcome provider_message_id timestamp) j refl refl refl)
                          (λ _ t _ k. (d.state, timestamp, is_false _ allowed, k))
                          (λ e t _ _. refl))))
                    (λ _. refl)))
                (λ e. refl)))
            (λ e _. refl)))
        (λ _. refl))

-- ===== src/Database/Deliveries/Paired.antt =====
-- A delivery and its message in one state: the reads and the two updates that every method of
-- src/personal_voice_msg/database.py that moves the pair begins and ends with.
use personal_voice_msg.Prelude.{ℕ, ◌≡◌, refl, ap, ◌∙◌, true, not, Option, some, List, arith, ==_iff}
use personal_voice_msg.Prelude.Text.{Text, Bytes}
use personal_voice_msg.Exec.Ends.{
  Ends, Ends-bind, Ends-gets, Ends-or_raise, Ends-modify, Ends-pure, Ends-raise_if,
}
use personal_voice_msg.Rows.{find, count, update, changed, find-update, find-eq-some}
use personal_voice_msg.Rows.Keyed.{IsKeyed, IsKeyed-update, count-eq-one}
use personal_voice_msg.Database.States.{MessageState, is, is_self}
use personal_voice_msg.Database.Schema.{
  Message, Delivery, Nonce, Control, Attempt, Db, delivery_has_id, message_has_id,
}
use personal_voice_msg.Database.Messages.{fetch_message, message_in_state, update_message_state}
use personal_voice_msg.Database.Deliveries.{
  fetch_delivery, fetch_joined, delivery_in_state, update_delivery, move_both,
}
use personal_voice_msg.Database.Deliveries.Effects.{message_moved}

-- The delivery `i` and its message are in the state `s`, in tables whose ids grow. Its audio, the
-- text of the message, the nonces and the sending switch are the given ones.
pub record Paired (text : Text) (nonces : List Nonce) (control : Option Control) (i : ℕ)
    (s : MessageState) (audio : Option Bytes) (db : Db) : Type 0 where
  pub messages_keyed : IsKeyed (λ m. m.id) db.messages
  pub deliveries_keyed : IsKeyed (λ d. d.id) db.deliveries
  pub d : Delivery
  pub m : Message
  pub found : find (delivery_has_id i) db.deliveries ≡ some d
  pub message_found : find (message_has_id d.message_id) db.messages ≡ some m
  pub in_state : d.state ≡ s
  pub agree : m.state ≡ s
  pub audio_is : d.audio_data ≡ audio
  pub text_is : m.text ≡ text
  pub nonces_are : db.nonces ≡ nonces
  pub control_is : db.control ≡ control

-- A change of a delivery that keeps its ids and sets its state and its audio.
pub record Changes (target : MessageState) (audio after : Option Bytes)
    (change : Delivery → Delivery) : Type 0 where
  pub same_id : (d : Delivery) → (change d).id ≡ d.id
  pub same_message : (d : Delivery) → (change d).message_id ≡ d.message_id
  pub state : (d : Delivery) → (change d).state ≡ target
  pub audio_data : (d : Delivery) → d.audio_data ≡ audio → (change d).audio_data ≡ after

module _ (text : Text) (nonces : List Nonce) (control : Option Control) (i : ℕ) (s : MessageState)
    (audio : Option Bytes) (db : Db) (p : Paired text nonces control i s audio db) where
  its_id : p.d.id ≡ i
  its_id = (==_iff p.d.id i).0 (find-eq-some (delivery_has_id i) db.deliveries p.d p.found)

  message_id_is : p.m.id ≡ p.d.message_id
  message_id_is =
      (==_iff p.m.id p.d.message_id).0
        (find-eq-some (message_has_id p.d.message_id) db.messages p.m p.message_found)

  one_delivery : count (delivery_in_state p.d.id p.d.state) db.deliveries ≡ 1
  one_delivery = rw its_id (
      count-eq-one (λ d. d.id) i (λ d. is d.state p.d.state) db.deliveries p.d p.deliveries_keyed
        p.found (is_self p.d.state))

  one_message : count (message_in_state p.d.message_id p.d.state) db.messages ≡ 1
  one_message =
      count-eq-one (λ m. m.id) p.d.message_id (λ m. is m.state p.d.state) db.messages p.m
        p.messages_keyed p.message_found (rw (p.agree, p.in_state) (is_self s))

  delivery_hit : delivery_in_state p.d.id p.d.state p.d ≡ true
  delivery_hit = rw ((==_iff p.d.id p.d.id).1 refl, is_self p.d.state) refl

  message_hit : message_in_state p.d.message_id p.d.state p.m ≡ true
  message_hit =
      rw
        (
          message_id_is,
          (==_iff p.d.message_id p.d.message_id).1 refl,
          p.agree,
          p.in_state,
          is_self s,
        )
        refl

  module _ (target : MessageState) (timestamp : ℕ) (change : Delivery → Delivery)
      (after : Option Bytes) (c : Changes target audio after change) where
    -- The pair after both updates.
    paired_after : Paired text nonces control i target after (record db {
      deliveries = update (delivery_in_state p.d.id p.d.state) change db.deliveries;
      messages =
          update
            (message_in_state p.d.message_id p.d.state)
            (message_moved target timestamp)
            db.messages;
    })
    paired_after = record {
      messages_keyed =
          IsKeyed-update (λ m. m.id) _ (message_moved target timestamp) db.messages (λ m. refl)
            p.messages_keyed;
      deliveries_keyed =
          IsKeyed-update (λ d. d.id) _ change db.deliveries c.same_id p.deliveries_keyed;
      d = change p.d;
      m = message_moved target timestamp p.m;
      found =
          find-update (delivery_has_id i) (delivery_in_state p.d.id p.d.state) change db.deliveries
            (λ d. rw (c.same_id d) refl)
          ∙ ap (changed (delivery_in_state p.d.id p.d.state) change) p.found
          ∙ ap some (rw delivery_hit refl);
      message_found = rw (c.same_message p.d) (
          find-update (message_has_id p.d.message_id) (message_in_state p.d.message_id p.d.state)
            (message_moved target timestamp) db.messages (λ m. refl)
          ∙ ap
              (changed (message_in_state p.d.message_id p.d.state) (message_moved target timestamp))
              p.message_found
          ∙ ap some (rw message_hit refl));
      in_state = c.state p.d;
      agree = refl;
      audio_is = c.audio_data p.d p.audio_is;
      text_is = p.text_is;
      nonces_are = p.nonces_are;
      control_is = p.control_is;
    }

    pub move_both-Paired :
        Ends
          (move_both p.d target timestamp change)
          db
          (λ _ t. Paired text nonces control i target after t)
          (λ e t. ⊥)
    unfolding move_both update_delivery update_message_state
    move_both-Paired = Ends-bind _ _ db (
        Ends-bind _ _ db (
          Ends-gets _ db (
            Ends-bind _ _ db (
              Ends-modify _ db (
                Ends-pure _ _ (
                  Ends-bind _ _ _ (
                    Ends-bind _ _ _ (
                      Ends-gets _ _ (
                        Ends-bind _ _ _ (
                          Ends-modify _ _ (
                            Ends-pure _ _ (
                              Ends-raise_if _ _ _ (λ _. paired_after)
                                (λ bad.
                                  absurd
                                    (ground (arith, one_delivery, one_message, bad)))))))))))))))

  pub fetch_joined-Paired : Ends (fetch_joined i) db (λ d t. (t ≡ db) × (d ≡ p.d)) (λ e t. ⊥)
  unfolding fetch_joined fetch_delivery fetch_message
  fetch_joined-Paired = Ends-bind _ _ db (
      Ends-bind _ _ db (
        Ends-gets _ db (
          Ends-or_raise _ _ db
            (λ d e.
              let same : d ≡ p.d = cc (e, p.found) in
              rw same (
                Ends-bind _ _ db (
                  Ends-bind _ _ db (
                    Ends-gets _ db (
                      Ends-or_raise _ _ db
                        (λ m f. Ends-bind _ _ db (
                          Ends-raise_if _ _ db (λ _. Ends-pure _ db (refl, refl))
                            (λ bad. absurd (disagree m f bad))))
                        (λ f. absurd (cc (f, p.message_found))))))))
            (λ e. absurd (cc (e, p.found))))))
    where
      disagree :
          (m : Message)
          → find (message_has_id p.d.message_id) db.messages ≡ some m
          → not (is m.state p.d.state) ≡ true
          → ⊥
      disagree m f bad =
          let it : m ≡ p.m = cc (f, p.message_found) in
          let agreeing : is m.state p.d.state ≡ true = rw (it, p.agree, p.in_state) (is_self s) in
          ground (arith, bad, agreeing)

-- The pair does not depend on the other tables.
pub elsewhere :
    (text : Text) (nonces : List Nonce) (control : Option Control) (i : ℕ) (s : MessageState)
    (audio : Option Bytes) (db : Db) (p : Paired text nonces control i s audio db) (t : Db)
    → t.messages ≡ db.messages
    → t.deliveries ≡ db.deliveries
    → (nonces' : List Nonce) → t.nonces ≡ nonces'
    → (control' : Option Control) → t.control ≡ control'
    → Paired text nonces' control' i s audio t
elsewhere text nonces control i s audio db p t e f nonces' g control' h = record {
  messages_keyed = rw e p.messages_keyed;
  deliveries_keyed = rw f p.deliveries_keyed;
  d = p.d;
  m = p.m;
  found = rw f p.found;
  message_found = rw e p.message_found;
  in_state = p.in_state;
  agree = p.agree;
  audio_is = p.audio_is;
  text_is = p.text_is;
  nonces_are = g;
  control_is = h;
}

-- The two updates in a database that differs from the pair's in the attempts alone.
pub move_both-attempts :
    (text : Text) (nonces : List Nonce) (control : Option Control) (i : ℕ) (s : MessageState)
    (audio : Option Bytes) (db : Db) (p : Paired text nonces control i s audio db)
    (target : MessageState) (timestamp : ℕ) (change : Delivery → Delivery) (after : Option Bytes)
    → Changes target audio after change
    → (attempts : List Attempt)
    → Ends
        (move_both p.d target timestamp change)
        (record db { attempts = attempts })
        (λ _ t. Paired text nonces control i target after t)
        (λ e t. ⊥)
unfolding elsewhere
move_both-attempts text nonces control i s audio db p target timestamp change after c attempts =
    move_both-Paired text nonces control i s audio (record db { attempts = attempts })
      (elsewhere text nonces control i s audio db p _ refl refl _ p.nonces_are _ p.control_is)
      target timestamp change after c

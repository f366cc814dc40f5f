-- ===== src/Database/Deliveries/Reserving.antt =====
-- What `reserve_next_message` writes.
use personal_voice_msg.Prelude.{
  ℕ, ◌≡◌, refl, Option, none, some, [], ◌∷◌, ◌++◌, is_some, is_some-eq-false,
}
use personal_voice_msg.Prelude.Text.{Text}
use personal_voice_msg.Exec.Ends.{
  Ends, Ends-then, Ends-if, Ends-bind, Ends-gets, Ends-modify, Ends-pure, Ends-raise_if, Ends-lift,
  Ends-transaction, Ends-weaken,
}
use personal_voice_msg.Scheduling.{Datetime}
use personal_voice_msg.Rows.{find, update, next_id}
use personal_voice_msg.Database.States.{queued, reserved}
use personal_voice_msg.Database.Schema.{Message, Db, is_for}
use personal_voice_msg.Database.Messages.{message_in_state, is_queued}
use personal_voice_msg.Database.Deliveries.{
  Reservation, new_delivery, insert_delivery, reserve_message, reserve_next_message,
}
use personal_voice_msg.Database.Deliveries.Effects.{
  Unchanged, message_moved, update_message_state_lem,
}

abbrev pub next_delivery_id : Db → ℕ
next_delivery_id db = next_id (λ d. d.id) db.deliveries

-- A reservation takes the oldest queued message for a recipient and a date that have none.
pub record Reserves (recipient_key : Text) (date : ℕ) (r : Reservation) (db t : Db) : Type 0 where
  pub m : Message
  pub timestamp : ℕ
  pub oldest : find is_queued db.messages ≡ some m
  pub first_of_date : find (is_for recipient_key date) db.deliveries ≡ none
  pub delivery_id : r.delivery_id ≡ next_delivery_id db
  pub message_id : r.message_id ≡ m.id
  pub in_state : r.state ≡ reserved
  pub deliveries :
      t.deliveries
      ≡ db.deliveries ++ new_delivery (next_delivery_id db) m.id recipient_key date timestamp ∷ []
  pub messages :
      t.messages
      ≡ update (message_in_state m.id queued) (message_moved reserved timestamp) db.messages
  pub control : t.control ≡ db.control

abbrev pub Reserved : Text → ℕ → Db → Option Reservation → Db → Type 0
Reserved recipient_key date db none t = t ≡ db
Reserved recipient_key date db (some r) t = Reserves recipient_key date r db t

insert_delivery_lem :
    (message_id : ℕ) (recipient_key : Text) (date timestamp : ℕ) (db : Db)
    → Ends
        (insert_delivery message_id recipient_key date timestamp)
        db
        (λ i t.
          (i ≡ next_delivery_id db)
          × (t ≡ record db {
            deliveries =
                db.deliveries
                ++ new_delivery (next_delivery_id db) message_id recipient_key date timestamp ∷ [];
          }))
        (λ e t. Unit)
unfolding insert_delivery
insert_delivery_lem message_id recipient_key date timestamp db = Ends-bind _ _ db (
    Ends-gets _ db (
      Ends-bind _ _ db (
        Ends-raise_if _ _ db
          (λ _.
            Ends-bind _ _ db
              (Ends-gets _ db (Ends-bind _ _ db (Ends-modify _ db (Ends-pure _ _ (refl, refl))))))
          (λ _. tt))))

reserve_message_lem :
    (recipient_key : Text) (date timestamp : ℕ) (o : Option Message) (db : Db)
    → find is_queued db.messages ≡ o
    → find (is_for recipient_key date) db.deliveries ≡ none
    → Ends
        (reserve_message recipient_key date timestamp o)
        db
        (Reserved recipient_key date db)
        (λ e t. Unit)
unfolding reserve_message
reserve_message_lem recipient_key date timestamp none db q n = Ends-pure _ db refl
reserve_message_lem recipient_key date timestamp (some m) db q n =
    Ends-then _ _ db (update_message_state_lem m.id queued reserved timestamp db)
      (λ k t e. Ends-bind _ _ t (
        Ends-raise_if _ _ t
          (λ _.
            Ends-then _ _ t (insert_delivery_lem m.id recipient_key date timestamp t)
              (λ i u f. Ends-pure _ u (record {
                m = m;
                timestamp = timestamp;
                oldest = q;
                first_of_date = n;
                delivery_id = cc (f.0, e);
                message_id = refl;
                in_state = refl;
                deliveries = rw (f.1, e);
                messages = rw (f.1, e);
                control = rw (f.1, e);
              }))
              (λ e u _. tt))
          (λ _. tt)))
      (λ e t _. tt)

-- A reservation takes the oldest queued message, for a recipient and a date that have no delivery,
-- moves it to `RESERVED` and adds one delivery with a new id; a call that returns none or raises
-- changes nothing.
pub reserve_next_message_lem :
    (recipient_key : Text) (date : ℕ) (now : Datetime) (db : Db)
    → Ends
        (reserve_next_message recipient_key date now)
        db
        (Reserved recipient_key date db)
        (Unchanged db)
unfolding reserve_next_message
reserve_next_message_lem recipient_key date now db = Ends-bind _ _ db (
    Ends-raise_if _ _ db
      (λ _. Ends-bind _ _ db (
        Ends-lift _ db
          (λ timestamp _. Ends-transaction _ db (
            Ends-bind _ _ db (
              Ends-gets _ db (
                Ends-if (is_some (find (is_for recipient_key date) db.deliveries)) _ _ db
                  (λ _. Ends-pure _ db refl)
                  (λ missing. Ends-bind _ _ db (
                    Ends-gets _ db (
                      Ends-weaken _ db
                        (reserve_message_lem recipient_key date timestamp _ db refl
                          (is_some-eq-false _ missing))
                        (λ o t _ h. h) (λ e t _ _. refl))))))))
          (λ e _. refl)))
      (λ _. refl))

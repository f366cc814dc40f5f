-- ===== src/Database/Deliveries/Fresh.antt =====
-- When `reserve_next_message` of src/personal_voice_msg/database.py returns a reservation.
use personal_voice_msg.Prelude.{
  ℕ, ◌≡◌, refl, ap, ◌∙◌, true, ◌||◌, none, some, [], ◌∷◌, ◌++◌, arith, ◌==◌, ==_iff,
}
use personal_voice_msg.Prelude.Text.{Text}
use personal_voice_msg.Exec.Ends.{
  Ends, Ends-then, Ends-bind, Ends-gets, Ends-modify, Ends-pure, Ends-raise_if, Ends-outcome,
  Ends-transaction,
}
use personal_voice_msg.Rows.{
  find, count, update, changed, find-update, find-eq-some, find-append, find-past_last,
}
use personal_voice_msg.Rows.Keyed.{
  IsKeyed, IsKeyed-append, IsKeyed-update, count-eq-one, find-id, count-or,
}
use personal_voice_msg.Scheduling.{aware}
use personal_voice_msg.Database.States.{queued, reserved, is}
use personal_voice_msg.Database.Schema.{Message, Db, delivery_has_id, message_has_id, is_for}
use personal_voice_msg.Database.RecipientKey.{timestamp_of, is_opaque_recipient_key}
use personal_voice_msg.Database.Messages.{message_in_state, update_message_state, is_queued}
use personal_voice_msg.Database.Deliveries.{
  Reservation, new_delivery, insert_delivery, reserve_message, reserve_next_message,
}
use personal_voice_msg.Database.Deliveries.Effects.{message_moved}
use personal_voice_msg.Database.Deliveries.Paired.{Paired}
use personal_voice_msg.Database.Deliveries.Reserving.{next_delivery_id}

-- A recipient and a date without a delivery, and `m`, the oldest queued message, which has none
-- either, in tables whose ids grow.
pub record IsReservable (key : Text) (date : ℕ) (m : Message) (db : Db) : Type 0 where
  pub opaque_key : is_opaque_recipient_key key ≡ true
  pub messages_keyed : IsKeyed (λ x. x.id) db.messages
  pub deliveries_keyed : IsKeyed (λ d. d.id) db.deliveries
  pub oldest : find is_queued db.messages ≡ some m
  pub first_of_date : find (is_for key date) db.deliveries ≡ none
  pub first_of_message : find (λ d. d.message_id == m.id) db.deliveries ≡ none

-- The reservation of the message `m`.
abbrev pub reservation_of : Text → ℕ → Message → Db → Reservation
reservation_of key date m db = record {
  delivery_id = next_delivery_id db;
  message_id = m.id;
  recipient_key = key;
  pacific_date = date;
  state = reserved;
}

module _ (key : Text) (date : ℕ) (m : Message) (db : Db) (now : ℕ)
    (ready : IsReservable key date m db) where
  is_in_queue : is m.state queued ≡ true
  unfolding is
  is_in_queue = find-eq-some is_queued db.messages m ready.oldest

  one_queued_row : count (message_in_state m.id queued) db.messages ≡ 1
  one_queued_row =
      count-eq-one (λ x. x.id) m.id (λ x. is x.state queued) db.messages m ready.messages_keyed
        (find-id (λ x. x.id) is_queued db.messages m ready.messages_keyed ready.oldest) is_in_queue

  abbrev pub reserved_db : Db
  reserved_db = record db {
    messages = update (message_in_state m.id queued) (message_moved reserved now) db.messages;
    deliveries = db.deliveries ++ new_delivery (next_delivery_id db) m.id key date now ∷ [];
  }

  pub reserved-Paired :
      Paired m.text db.nonces db.control (next_delivery_id db) reserved none reserved_db
  reserved-Paired = record {
    messages_keyed =
        IsKeyed-update (λ x. x.id) (message_in_state m.id queued) (message_moved reserved now)
          db.messages (λ x. refl) ready.messages_keyed;
    deliveries_keyed =
        IsKeyed-append (λ d. d.id) db.deliveries
          (new_delivery (next_delivery_id db) m.id key date now) ready.deliveries_keyed
          (omega arith);
    d = new_delivery (next_delivery_id db) m.id key date now;
    m = message_moved reserved now m;
    found =
        find-append (delivery_has_id (next_delivery_id db)) db.deliveries
          (new_delivery (next_delivery_id db) m.id key date now)
        ∙ rw
            (
              find-past_last (λ d. d.id) (next_delivery_id db) db.deliveries (omega arith),
              (==_iff (next_delivery_id db) (next_delivery_id db)).1 refl,
            )
            refl;
    message_found =
        find-update (message_has_id m.id) (message_in_state m.id queued)
          (message_moved reserved now) db.messages (λ x. refl)
        ∙ ap (changed (message_in_state m.id queued) (message_moved reserved now))
            (find-id (λ x. x.id) is_queued db.messages m ready.messages_keyed ready.oldest)
        ∙ ap some (rw ((==_iff m.id m.id).1 refl, is_in_queue) refl);
    in_state = refl;
    agree = refl;
    audio_is = refl;
    text_is = refl;
    nonces_are = refl;
    control_is = refl;
  }

  pub message-reserved-Paired : reserved-Paired.d.message_id ≡ m.id
  unfolding reserved-Paired
  message-reserved-Paired = refl

  abbrev taken : Db
  taken = record db {
    messages = update (message_in_state m.id queued) (message_moved reserved now) db.messages;
  }

  none_before : count (λ d. d.message_id == m.id || is_for key date d) db.deliveries ≡ 0
  none_before =
      count-or (λ d. d.message_id == m.id) (is_for key date) db.deliveries ready.first_of_message
        ready.first_of_date

  insert_delivery-returns :
      Ends
        (insert_delivery m.id key date now)
        taken
        (λ i t. (i ≡ next_delivery_id db) × (t ≡ reserved_db))
        (λ e t. ⊥)
  unfolding insert_delivery
  insert_delivery-returns = Ends-bind _ _ taken (
      Ends-gets _ taken (
        Ends-bind _ _ taken (
          Ends-raise_if _ _ taken
            (λ _. Ends-bind _ _ taken (
              Ends-gets _ taken
                (Ends-bind _ _ taken (Ends-modify _ taken (Ends-pure _ _ (refl, refl))))))
            (λ bad. absurd (ground (arith, none_before, bad))))))

  reserve_message-returns :
      Ends
        (reserve_message key date now (some m))
        db
        (λ o t. (o ≡ some (reservation_of key date m db)) × (t ≡ reserved_db))
        (λ e t. ⊥)
  unfolding reserve_message update_message_state
  reserve_message-returns = Ends-bind _ _ db (
      Ends-bind _ _ db (
        Ends-gets _ db (
          Ends-bind _ _ db (
            Ends-modify _ db (
              Ends-pure _ taken (
                Ends-bind _ _ taken (
                  Ends-raise_if _ _ taken
                    (λ _.
                      Ends-then _ _ taken insert_delivery-returns
                        (λ i t (new, after). Ends-pure _ t (rw new refl, after))
                        (λ e t never. never))
                    (λ bad. absurd (ground (arith, one_queued_row, bad))))))))))

  -- The call returns the reservation of the message.
  pub reserve_next_message-returns :
      Ends
        (reserve_next_message key date (aware now))
        db
        (λ o t. (o ≡ some (reservation_of key date m db)) × (t ≡ reserved_db))
        (λ e t. ⊥)
  unfolding reserve_next_message timestamp_of
  reserve_next_message-returns = Ends-bind _ _ db (
      Ends-raise_if _ _ db
        (λ _. Ends-bind _ _ db (
          Ends-outcome (timestamp_of (aware now)) db (
            Ends-transaction _ db (
              Ends-bind _ _ db (
                Ends-gets _ db (
                  rw (ready.first_of_date) (
                    Ends-bind _ _ db
                      (Ends-gets _ db (rw (ready.oldest) reserve_message-returns)))))))))
        (λ bad. absurd (ground (arith, bad, ready.opaque_key))))

-- ===== src/Delivery/OnePerDate.antt =====
-- The deliveries of a recipient and date, and the methods that write the table.
use personal_voice_msg.Prelude.{
  ℕ, ◌≡◌, refl, ◌≤◌, Bool, true, ◌&&◌, Option, none, some, List, [], ◌∷◌, ◌++◌, ◌==◌, arith,
  Bool-cases, inl, inr, ==_iff,
}
use personal_voice_msg.Prelude.Text.{Text, Bytes, same_text, same_text→eq}
use personal_voice_msg.Exec.Ends.{Ends-weaken}
use personal_voice_msg.Exec.Keeps.{Keeps, Keeps-of_Ends}
use personal_voice_msg.Scheduling.{Datetime}
use personal_voice_msg.Rows.{find, count, update, count-eq-zero, count-append}
use personal_voice_msg.Database.States.{MessageState}
use personal_voice_msg.Database.Schema.{Delivery, Db, is_for}
use personal_voice_msg.Database.Deliveries.{
  Reservation, delivery_in_state, concluded, reserve_next_message, transition_delivery,
  mark_audio_ready, record_delivery_attempt,
}
use personal_voice_msg.Database.Deliveries.Effects.{
  Moves, transition_delivery_lem, mark_audio_ready_lem, record_delivery_attempt_lem,
}
use personal_voice_msg.Database.Deliveries.Reserving.{Reserved, reserve_next_message_lem}

-- For every recipient and date there is at most one delivery.
abbrev pub IsOnePerDate : Db → Type 0
IsOnePerDate db = (key : Text) (date : ℕ) → count (is_for key date) db.deliveries ≤ 1

count-update :
    (p q : Delivery → Bool) (change : Delivery → Delivery) (rows : List Delivery)
    → ((d : Delivery) → p (change d) ≡ p d)
    → count p (update q change rows) ≡ count p rows
unfolding count update
count-update p q change [] same = refl
count-update p q change (d ∷ rows) same = ground (arith, same d, count-update p q change rows same)

moved-IsOnePerDate :
    {i : ℕ} {current target : MessageState} {timestamp : ℕ} {change : Delivery → Delivery}
    (db t : Db)
    → Moves i current target timestamp change db t
    → ((key : Text) (date : ℕ) (d : Delivery) → is_for key date (change d) ≡ is_for key date d)
    → IsOnePerDate db
    → IsOnePerDate t
moved-IsOnePerDate {change} db t k same one key date =
    let counted =
      count-update (is_for key date) (delivery_in_state k.d.id k.d.state) change db.deliveries
        (same key date) in
    rw (k.deliveries, counted) (one key date)

concluded-is_for :
    (o : MessageState) (id : Option Text) (timestamp : ℕ) (key : Text) (date : ℕ) (d : Delivery)
    → is_for key date (concluded o id timestamp d) ≡ is_for key date d
unfolding concluded
concluded-is_for o id timestamp key date d = ground arith

module _ (key : Text) (date : ℕ) (db : Db)
    (first : find (is_for key date) db.deliveries ≡ none) where
  none_for :
      (other : Text) (day : ℕ)
      → same_text key other && date == day ≡ true
      → count (is_for other day) db.deliveries ≡ 0
  none_for other day h =
      rw (← same_text→eq key other (ground (arith, h)), ← (==_iff date day).0 (ground (arith, h)))
        (count-eq-zero (is_for key date) db.deliveries first)

  added-IsOnePerDate :
      (d : Delivery)
      → d.recipient_key ≡ key
      → d.pacific_date ≡ date
      → IsOnePerDate db
      → (other : Text) (day : ℕ) → count (is_for other day) (db.deliveries ++ d ∷ []) ≤ 1
  added-IsOnePerDate d e f one other day =
      rw (count-append (is_for other day) db.deliveries d, e, f)
        (elim (Bool-cases (same_text key other && date == day)) [
          | inl h ↦ rw (h, none_for other day h) (omega arith)
          | inr h ↦ rw h (ground (arith, one other day))
        ])

Reserved-IsOnePerDate :
    (key : Text) (date : ℕ) (db t : Db) (o : Option Reservation)
    → Reserved key date db o t
    → IsOnePerDate db
    → IsOnePerDate t
Reserved-IsOnePerDate key date db t none e one = rw e one
Reserved-IsOnePerDate key date db t (some r) k one =
    rw k.deliveries (added-IsOnePerDate key date db k.first_of_date _ refl refl one)

module _ (i : ℕ) (now : Datetime) where
  pub transition_delivery-IsOnePerDate :
      (target : MessageState) → Keeps IsOnePerDate (transition_delivery i target now)
  transition_delivery-IsOnePerDate target = Keeps-of_Ends _ λ db one.
      Ends-weaken _ db (transition_delivery_lem i now db target)
        (λ _ t _ (s, ts, allowed, k). moved-IsOnePerDate db t k (λ key date d. refl) one)
        (λ e t _ same. rw same one)

  pub mark_audio_ready-IsOnePerDate :
      (audio : Bytes) → Keeps IsOnePerDate (mark_audio_ready i audio now)
  mark_audio_ready-IsOnePerDate audio = Keeps-of_Ends _ λ db one.
      Ends-weaken _ db (mark_audio_ready_lem i now db audio)
        (λ _ t _ (s, ts, allowed, k). moved-IsOnePerDate db t k (λ key date d. refl) one)
        (λ e t _ same. rw same one)

  pub record_delivery_attempt-IsOnePerDate :
      (outcome : MessageState) (id : Option Text)
      → Keeps IsOnePerDate (record_delivery_attempt i outcome now id)
  record_delivery_attempt-IsOnePerDate outcome id = Keeps-of_Ends _ λ db one.
      Ends-weaken _ db (record_delivery_attempt_lem i now db outcome id)
        (λ _ t _ (s, ts, allowed, k).
          moved-IsOnePerDate db t k (concluded-is_for outcome id ts) one)
        (λ e t _ same. rw same one)

pub reserve_next_message-IsOnePerDate :
    (key : Text) (date : ℕ) (now : Datetime)
    → Keeps IsOnePerDate (reserve_next_message key date now)
reserve_next_message-IsOnePerDate key date now = Keeps-of_Ends _ λ db one.
    Ends-weaken _ db (reserve_next_message_lem key date now db)
      (λ o t _ k. Reserved-IsOnePerDate key date db t o k one) (λ e t _ same. rw same one)

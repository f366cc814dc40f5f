-- ===== src/Database/DeliveryReads.antt =====
-- The methods of `Database` that read a delivery
-- (src/personal_voice_msg/database.py).
use personal_voice_msg.Prelude.{ℕ, ◌==◌, Bool, Option, none, some, List, [], ◌∷◌}
use personal_voice_msg.Prelude.Text.{Text, Bytes}
use personal_voice_msg.Exec.{Exec, database_invariant, value_error, pure, gets, or_raise, ◌>>=◌}
use personal_voice_msg.Rows.{find, count}
use personal_voice_msg.Database.States.{MessageState}
use personal_voice_msg.Database.Schema.{Delivery, Attempt, Db, is_for}
use personal_voice_msg.Database.Deliveries.{fetch_delivery}

unfoldable pub get_audio_data : ℕ → Exec Db Bytes
get_audio_data delivery_id = do
  d ← fetch_delivery delivery_id
  or_raise database_invariant d.audio_data

abbrev pub delivery_id_of : Option Delivery → Option ℕ
delivery_id_of none = none
delivery_id_of (some d) = some d.id

unfoldable pub get_delivery_for_date : Text → ℕ → Exec Db (Option ℕ)
get_delivery_for_date recipient_key date =
    gets (λ db. delivery_id_of (find (is_for recipient_key date) db.deliveries))

unfoldable pub get_delivery_state : ℕ → Exec Db MessageState
get_delivery_state delivery_id = do d ← fetch_delivery delivery_id; pure d.state

unfoldable pub get_delivery_updated_at : ℕ → Exec Db ℕ
get_delivery_updated_at delivery_id = do d ← fetch_delivery delivery_id; pure d.updated_at

unfoldable pub get_delivery_message_id : ℕ → Exec Db ℕ
get_delivery_message_id delivery_id = do d ← fetch_delivery delivery_id; pure d.message_id

-- `WHERE delivery_id = ? ORDER BY id DESC LIMIT 1`: the last such row of the table
unfoldable pub last_attempt : ℕ → Option Attempt → List Attempt → Option Attempt
last_attempt delivery_id best [] = best
last_attempt delivery_id best (a ∷ rows) =
    last_attempt delivery_id
      (elim (a.delivery_id == delivery_id) [ Bool.true ↦ some a | Bool.false ↦ best ]) rows

unfoldable pub get_latest_attempt_time : ℕ → Exec Db ℕ
get_latest_attempt_time delivery_id = do
  row ← gets (λ db. last_attempt delivery_id none db.attempts)
  a ← or_raise value_error row
  pure a.attempted_at

unfoldable pub count_deliveries : Text → ℕ → Exec Db ℕ
count_deliveries recipient_key date = gets (λ db. count (is_for recipient_key date) db.deliveries)

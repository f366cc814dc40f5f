-- ===== src/Entrypoint/OncePerDay.antt =====
-- The notes that a recipient gets on a date.
use personal_voice_msg.Prelude.{ℕ, ◌+◌, ◌≡◌, ◌≤◌, List, [], ◌∷◌, arith, All, if◌then◌else◌}
use personal_voice_msg.Prelude.Text.{Text}
use personal_voice_msg.Rows.{count}
use personal_voice_msg.Scheduling.{Zone}
use personal_voice_msg.Database.Schema.{Delivery, is_for}
use personal_voice_msg.Database.Views.{state_at}
use personal_voice_msg.World.{Platform, Settings, World}
use personal_voice_msg.Delivery.Budget.{budget_le_one, notes_of}
use personal_voice_msg.Delivery.OnePerDate.{
  IsOnePerDate, transition_delivery-IsOnePerDate, mark_audio_ready-IsOnePerDate,
  record_delivery_attempt-IsOnePerDate, reserve_next_message-IsOnePerDate,
}
use personal_voice_msg.Entrypoint.AtMostOnce.{Event, IsHonestEvent, run_events, at_most_once}
use personal_voice_msg.Entrypoint.Keeping.{KeepsDeliveries, run_events-Kept}

IsOnePerDate-KeepsDeliveries : KeepsDeliveries IsOnePerDate
IsOnePerDate-KeepsDeliveries = record {
  same = λ db t e one key date. rw e (one key date);
  transition = transition_delivery-IsOnePerDate;
  mark = mark_audio_ready-IsOnePerDate;
  attempt = record_delivery_attempt-IsOnePerDate;
  reserve = reserve_next_message-IsOnePerDate;
}

-- Where no recipient has two deliveries on a date, none has after any number of processes and of
-- writes to the other tables.
pub one_delivery_per_date :
    (z : Zone) (p : Platform) (settings : Settings) (es : List Event) (w : World)
    → IsOnePerDate w.db
    → IsOnePerDate (run_events z p settings es w).db
one_delivery_per_date z p settings es w one =
    run_events-Kept IsOnePerDate-KeepsDeliveries z p settings es w one

-- The notes that Telegram has delivered for the deliveries of a recipient and date.
pub notes_on : Text → ℕ → World → List Delivery → ℕ
notes_on key date w [] = 0
notes_on key date w (d ∷ rows) =
    let rest = notes_on key date w rows in
    if is_for key date d then notes_of d.id w + rest else rest

notes_on-le-count :
    (key : Text) (date : ℕ) (w : World) (rows : List Delivery)
    → ((i : ℕ) → notes_of i w ≤ 1)
    → notes_on key date w rows ≤ count (is_for key date) rows
unfolding notes_on count
notes_on-le-count key date w [] h = omega arith
notes_on-le-count key date w (d ∷ rows) h =
    ground (arith, h d.id, notes_on-le-count key date w rows h)

none-IsOnePerDate : (w : World) → w.db.deliveries ≡ [] → IsOnePerDate w.db
unfolding count
none-IsOnePerDate w e key date = rw e (omega arith)

-- From a database with no deliveries, after any number of processes that each run to an end, raise
-- or die in the middle of the request to Telegram, with any writes of the other tables between
-- them, Telegram has delivered at most one note for a recipient and a date, provided that it
-- delivers nothing of a request that it refuses with a status of the allow-list.
pub one_note_per_date :
    (z : Zone) (p : Platform) (settings : Settings) (es : List Event) (w : World)
    → w.db.deliveries ≡ []
    → w.outbox ≡ []
    → All IsHonestEvent es
    → (key : Text) (date : ℕ)
    → notes_on key date (run_events z p settings es w) (run_events z p settings es w).db.deliveries
      ≤ 1
one_note_per_date z p settings es w none_yet empty honest key date =
    let after = run_events z p settings es w in
    let each : (i : ℕ) → notes_of i after ≤ 1 = λ i. omega (
      arith,
      at_most_once z p settings es w none_yet empty honest i,
      budget_le_one (state_at i after.db),
    ) in
    let one = one_delivery_per_date z p settings es w (none-IsOnePerDate w none_yet) key date in
    omega (arith, notes_on-le-count key date after after.db.deliveries each, one)

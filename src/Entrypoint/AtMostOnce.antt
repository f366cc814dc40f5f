-- ===== src/Entrypoint/AtMostOnce.antt =====
-- Processes of scripts/run_daily_entrypoint.py, other writes between them, and the notes of a
-- delivery.
use personal_voice_msg.Prelude.{ℕ, ◌≡◌, refl, ◌≤◌, Bool, not, some, List, [], ◌∷◌, arith, All}
use personal_voice_msg.Prelude.Text.{Text, count_text}
use personal_voice_msg.Exec.{Result, ok, err, poll_error, pure, ◌>>=◌}
use personal_voice_msg.Exec.Ends.{
  Ends, Outcome, Ends-pure, Ends-raise, Ends-bind, Ends-then, Ends-if, Ends-weaken, Ends-attempt,
}
use personal_voice_msg.Exec.Keeps.{Ends_of_Keeps}
use personal_voice_msg.Scheduling.{Zone}
use personal_voice_msg.Database.Schema.{Db}
use personal_voice_msg.Database.RecipientKey.{recipient_key_for_chat_id}
use personal_voice_msg.Database.Views.{state_at}
use personal_voice_msg.World.{Platform, Settings, Tick, World}
use personal_voice_msg.World.Quiet.{IsQuiet, IsQuiet-refl}
use personal_voice_msg.Consent.Effects.{poll_inbound_stop-IsQuiet}
use personal_voice_msg.Delivery.{instant, run_daily_send}
use personal_voice_msg.Delivery.Budget.{budget, notes_of, IsWithinBudget, IsWithinBudget-same}
use personal_voice_msg.Delivery.AtMostOnce.{IsHonest, Safe}
use personal_voice_msg.Delivery.Ticks.{send_window_open_lem, run_daily_send_lem}
use personal_voice_msg.Entrypoint.{pass_poll_error, run_daily_entrypoint, run_process}

pass_poll_error_lem :
    (r : Result Bool) (w : World) → IsWithinBudget w → Ends (pass_poll_error r) w Safe Safe
unfolding pass_poll_error
pass_poll_error_lem (ok stopped) w b = Ends-pure _ w b
pass_poll_error_lem (err poll_error) w b = Ends-pure _ w b
pass_poll_error_lem (err _) w b = Ends-raise _ w b

final : {A : Type 0} (r : Result A) (t : World) → Outcome Safe Safe r t → IsWithinBudget t
final (ok a) t h = h
final (err e) t h = h

module _ (z : Zone) (p : Platform) (settings : Settings) where
  run_daily_entrypoint_lem :
      (key : Text) (date : ℕ) (tick : Tick) (w : World)
      → IsHonest tick
      → IsWithinBudget w
      → Ends (run_daily_entrypoint z p settings key date tick) w Safe Safe
  unfolding run_daily_entrypoint
  run_daily_entrypoint_lem key date tick w honest b =
      Ends-then _ _ w (send_window_open_lem z date tick.now w)
        (λ o t e.
          Ends-if (not o) _ _ t (λ _. Ends-pure _ t (rw e b))
            (λ _. Ends-bind _ _ t (
              Ends-attempt _ t (
                Ends-weaken _ t
                  (Ends_of_Keeps (IsQuiet t) _ t (poll_inbound_stop-IsQuiet p settings tick t)
                    (IsQuiet-refl t))
                  (λ r u _ q. after_poll t u (rw e b) q (ok r))
                  (λ x u _ q. after_poll t u (rw e b) q (err x))))))
        (λ _ t e. rw e b)
    where
      after_poll :
          (t u : World)
          → IsWithinBudget t
          → IsQuiet t u
          → (r : Result Bool)
          → Ends
              (pass_poll_error r >>= λ _.
                run_daily_send z p settings key date tick >>= λ s. pure (some s))
              u
              Safe
              Safe
      after_poll t u b q r =
          Ends-then _ _ u
            (pass_poll_error_lem r u (IsWithinBudget-same b q.tables.deliveries q.outbox))
            (λ _ v h.
              Ends-then _ _ v (run_daily_send_lem z p settings key date tick honest v h)
                (λ s x k. Ends-pure _ x k) (λ _ x k. k))
            (λ _ v h. h)

  run_process-IsWithinBudget :
      (tick : Tick) (w : World)
      → IsHonest tick
      → IsWithinBudget w
      → IsWithinBudget (run_process z p settings tick w).1
  unfolding run_process
  run_process-IsWithinBudget tick w honest b =
      let key = recipient_key_for_chat_id settings.telegram_chat_id in
      let date = z.date_of (instant tick.now) in
      final (run_daily_entrypoint z p settings key date tick w).0
        (run_daily_entrypoint z p settings key date tick w).1
        ((run_daily_entrypoint_lem key date tick w honest b).at)

-- What happens to the database and to Telegram, in order: a process runs, or other parts of the
-- program write to tables other than the deliveries.
pub data Event : Type 0 where
  process : Tick → Event
  others_write : Db → Event

abbrev pub IsHonestEvent : Event → Type 0
IsHonestEvent (process tick) = IsHonest tick
IsHonestEvent (others_write db) = Unit

module _ (z : Zone) (p : Platform) (settings : Settings) where
  unfoldable pub run_event : Event → World → World
  run_event (process tick) w = (run_process z p settings tick w).1
  run_event (others_write db) w = record w { db = record db { deliveries = w.db.deliveries } }

  unfoldable pub run_events : List Event → World → World
  run_events [] w = w
  run_events (e ∷ es) w = run_events es (run_event e w)

  run_event-IsWithinBudget :
      (e : Event) (w : World) → IsHonestEvent e → IsWithinBudget w → IsWithinBudget (run_event e w)
  unfolding run_event
  run_event-IsWithinBudget (process tick) w honest b =
      run_process-IsWithinBudget z p settings tick w honest b
  run_event-IsWithinBudget (others_write db) w honest b = IsWithinBudget-same b refl refl

  run_events-IsWithinBudget :
      (es : List Event) (w : World)
      → All IsHonestEvent es
      → IsWithinBudget w
      → IsWithinBudget (run_events es w)
  unfolding run_events
  run_events-IsWithinBudget [] w honest b = b
  run_events-IsWithinBudget (e ∷ es) w honest b =
      run_events-IsWithinBudget es (run_event e w) (honest.1)
        (run_event-IsWithinBudget e w (honest.0) b)

started-IsWithinBudget : (w : World) → w.db.deliveries ≡ [] → w.outbox ≡ [] → IsWithinBudget w
unfolding count_text
started-IsWithinBudget w d o = record { at = λ i. rw o (omega arith) }

-- From a database with no deliveries, after any number of processes that each run to an end, raise
-- or die in the middle of the request to Telegram, with any writes of the other tables between
-- them, every delivery has had at most one note delivered by Telegram, and none while the database
-- has no such delivery or holds it as reserved, ready to be sent or failed, provided that Telegram
-- delivers nothing of a request that it refuses with a status of the allow-list.
pub at_most_once :
    (z : Zone) (p : Platform) (settings : Settings) (es : List Event) (w : World)
    → w.db.deliveries ≡ []
    → w.outbox ≡ []
    → All IsHonestEvent es
    → (i : ℕ)
    → notes_of i (run_events z p settings es w)
      ≤ budget (state_at i (run_events z p settings es w).db)
at_most_once z p settings es w none_yet empty honest =
    (run_events-IsWithinBudget z p settings es w honest
      (started-IsWithinBudget w none_yet empty)).at

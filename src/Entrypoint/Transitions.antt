-- ===== src/Entrypoint/Transitions.antt =====
-- The states of the deliveries across any number of processes.
use personal_voice_msg.Prelude.{ℕ, ◌≡◌, Option, some, List}
use personal_voice_msg.Scheduling.{Zone}
use personal_voice_msg.Database.States.{MessageState, sent}
use personal_voice_msg.Database.Views.{state_at}
use personal_voice_msg.World.{Platform, Settings, World}
use personal_voice_msg.Delivery.Transitions.{
  Leads, here, Led, Led-same, sent_is_final, transition_delivery-Led, mark_audio_ready-Led,
  record_delivery_attempt-Led, reserve_next_message-Led,
}
use personal_voice_msg.Entrypoint.AtMostOnce.{Event, run_events}
use personal_voice_msg.Entrypoint.Keeping.{KeepsDeliveries, run_events-Kept}

Led-KeepsDeliveries : (a : Option MessageState) (j : ℕ) → KeepsDeliveries (Led a j)
Led-KeepsDeliveries a j = record {
  same = Led-same a j;
  transition = transition_delivery-Led a j;
  mark = mark_audio_ready-Led a j;
  attempt = record_delivery_attempt-Led a j;
  reserve = reserve_next_message-Led a j;
}

module _ (z : Zone) (p : Platform) (settings : Settings) (es : List Event) (w : World) (j : ℕ) where
  -- After any number of processes and of writes to the other tables, the state of every delivery
  -- is one that `DELIVERY_TRANSITIONS` leads to from the state before, step by step.
  pub follows_transitions : Leads (state_at j w.db) (state_at j (run_events z p settings es w).db)
  follows_transitions =
      run_events-Kept (Led-KeepsDeliveries (state_at j w.db) j) z p settings es w here

  -- A delivery that is sent stays sent, after any number of processes and of writes to the other
  -- tables.
  pub stays_sent :
      state_at j w.db ≡ some sent → state_at j (run_events z p settings es w).db ≡ some sent
  stays_sent h =
      sent_is_final (state_at j (run_events z p settings es w).db) (rw (← h) (follows_transitions))

-- ===== src/Tests/Finishing.antt =====
-- A run that sends.
use personal_voice_msg.Prelude.{◌≡◌, refl, arith, true, none, some, [], ◌∷◌, any}
use personal_voice_msg.Prelude.Text.{codes}
use personal_voice_msg.Exec.Ends.{Ends}
use personal_voice_msg.Rows.{find, last_id}
use personal_voice_msg.Database.States.{sent}
use personal_voice_msg.Database.RecipientKey.{recipient_key_for_chat_id, recipient_key-IsOpaque}
use personal_voice_msg.Database.Deliveries.Fresh.{IsReservable}
use personal_voice_msg.Delivery.{delivery_key, run_daily_send}
use personal_voice_msg.Delivery.Concluding.{Finished}
use personal_voice_msg.Delivery.Asking.{Sendable}
use personal_voice_msg.Delivery.Finishing.{run_daily_send-finishes}
use personal_voice_msg.Sender.{judge_response, judge_answer}
use personal_voice_msg.Tests.Fixture.{
  zone, platform, settings, tick_at, send_time, accepted, message, one_queued,
}

reservable : IsReservable (recipient_key_for_chat_id 42) 740000 message one_queued.db
unfolding find personal_voice_msg.Database.States.is
reservable = record {
  opaque_key = recipient_key-IsOpaque 42 (omega arith);
  messages_keyed = (tt, tt);
  deliveries_keyed = tt;
  oldest = refl;
  first_of_date = refl;
  first_of_message = refl;
}

sendable :
    Sendable platform settings
      (tick_at 60 accepted true)
      (send_time 60)
      (codes "Hello.")
      1
      (1 ∷ 2 ∷ 3 ∷ [])
      []
      none
      (recipient_key_for_chat_id 42)
      sent
unfolding judge_response judge_answer personal_voice_msg.Prelude.Text.same_text
sendable = record { on_time = refl; own = refl; checked = refl; unused = refl; answer = refl }

run_daily_send-finishes_example :
    Ends
      (run_daily_send zone platform settings
        (recipient_key_for_chat_id 42)
        740000
        (tick_at 60 accepted true))
      one_queued
      (Finished (codes "Hello.") 1 (some (1 ∷ 2 ∷ 3 ∷ [])) (delivery_key 1 ∷ []) sent)
      (λ e t. ⊥)
unfolding last_id
run_daily_send-finishes_example =
    run_daily_send-finishes zone platform settings (recipient_key_for_chat_id 42) 740000
      (tick_at 60 accepted true) (send_time 60) message (1 ∷ 2 ∷ 3 ∷ []) one_queued sent
      (omega arith) (omega arith) refl reservable refl sendable

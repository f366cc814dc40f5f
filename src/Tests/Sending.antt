-- ===== src/Tests/Sending.antt =====
-- Requests to Telegram and their answers.
use personal_voice_msg.Prelude.{ℕ, ◌+◌, ◌≡◌, ◌≢◌, ◌≤◌, ◌↔◌, refl, true, [], ◌∷◌, ◌++◌}
use personal_voice_msg.Prelude.Text.{Text, codes}
use personal_voice_msg.Prelude.Decimal.{decimal}
use personal_voice_msg.Exec.{ok, err, unicode_decode_error, transaction, recast, ◌>>=◌}
use personal_voice_msg.Database.RecipientKey.{timestamp_of}
use personal_voice_msg.Database.Control.{record_sender_nonce}
use personal_voice_msg.World.{on_db}
use personal_voice_msg.World.Body.{max_response_bytes}
use personal_voice_msg.Sender.{
  verify_signature, is_fresh, is_definite_rejection, describe_rejection, is_blocked_by_user,
  provider_message_id, judge_answer, judge_response, post, send_voice_note,
}
use personal_voice_msg.Sender.Requests.{delivered_iff}
use personal_voice_msg.Sender.Guards.{Posted, posts_guarded}
use personal_voice_msg.Sender.Replays.{Request, send, after_first, replay_refused}
use personal_voice_msg.Exec.Keeps.{run_each}
use personal_voice_msg.Tests.Fixture.{platform, settings, send_time, tick_at, accepted, one_queued}

abbrev now : ℕ
now = send_time 0

abbrev key : Text
key = codes "delivery-1"

abbrev signature : Text
signature = settings.sender_auth_key ++ codes "1:delivery-1"

abbrev status : ℕ
status = 200

delivered_iff_example :
    (judge_answer platform status (1 ∷ []) 1 ≡ ok (codes "77"))
    ↔ (status ≡ 200)
      × ((1 ≤ max_response_bytes)
          × (provider_message_id platform (platform.loads (1 ∷ [])) ≡ ok (codes "77")))
delivered_iff_example = delivered_iff platform status (1 ∷ []) 1 (codes "77")

-- A definite rejection whose body is not UTF-8 does not end as a rejection.
undecodable_rejection : judge_answer platform 400 (0 ∷ []) 1 ≡ err unicode_decode_error
unfolding judge_answer describe_rejection is_blocked_by_user is_definite_rejection
undecodable_rejection = refl

abbrev signed : Text
signed = platform.hmac settings.sender_auth_key (codes "1800370800:delivery-1")

abbrev stamp : ℕ
stamp = 1800370800

one_note :
    (send_voice_note platform settings
      (1 ∷ [])
      key
      stamp
      signed
      now
      (tick_at 0 accepted true)
      one_queued).1.outbox
    ≡ key ∷ []
unfolding send_voice_note verify_signature is_fresh record_sender_nonce timestamp_of post
    judge_response ◌>>=◌ recast on_db transaction decimal
one_note = refl

new_note :
    (send_voice_note platform settings
      (1 ∷ [])
      key
      stamp
      signed
      now
      (tick_at 0 accepted true)
      one_queued).1.outbox
    ≢ []
new_note e = cc (one_note, e)

posts_guarded_example :
    Posted platform settings
      (1 ∷ [])
      key
      stamp
      signed
      now
      (tick_at 0 accepted true)
      one_queued
      (send_voice_note platform settings
        (1 ∷ [])
        key
        stamp
        signed
        now
        (tick_at 0 accepted true)
        one_queued).1
posts_guarded_example =
    posts_guarded platform settings (1 ∷ []) key stamp signed now (tick_at 0 accepted true)
      one_queued new_note

abbrev first_request : Request
first_request = record {
  audio_bytes = 1 ∷ [];
  idempotency_key = key;
  timestamp = stamp;
  signature = signed;
  now = now;
  tick = tick_at 0 accepted true;
}

abbrev other_request : Request
other_request = record first_request { timestamp = stamp + 1 }

abbrev late_request : Request
late_request = record first_request { now = send_time 60; tick = tick_at 60 accepted true }

replay_refused_example :
    (send platform settings late_request (
      run_each
        (send platform settings)
        (other_request ∷ [])
        (after_first platform settings first_request one_queued))).1.outbox
    ≡ (run_each
        (send platform settings)
        (other_request ∷ [])
        (after_first platform settings first_request one_queued)).outbox
replay_refused_example =
    replay_refused platform settings first_request one_queued (other_request ∷ []) late_request
      new_note refl refl

-- ===== src/Sender/Requests.antt =====
-- Signatures, freshness and the judgement of an answer (src/personal_voice_msg/sender.py).
use personal_voice_msg.Prelude.{ℕ, ◌≡◌, ◌≢◌, ◌↔◌, ◌≤◌, true, arith}
use personal_voice_msg.Prelude.Text.{Text, Bytes, same_text_self}
use personal_voice_msg.Exec.{Error, Result, ok, err, sender_blocked, sender_rejected}
use personal_voice_msg.World.{Platform}
use personal_voice_msg.World.Body.{max_response_bytes}
use personal_voice_msg.Sender.{
  sign_request, verify_signature, is_fresh, unix_seconds, is_definite_rejection, describe_rejection,
  Description, provider_message_id, judge_answer, raise_described,
}

-- The signature that the program makes for a request verifies under the same key, and the
-- timestamp that it puts into it is fresh at the instant at which it is taken.
pub own_request_passes :
    (p : Platform) (key idempotency_key : Text) (now : ℕ)
    → (verify_signature p key idempotency_key
          (unix_seconds now)
          (sign_request p key idempotency_key (unix_seconds now))
        ≡ true)
      × (is_fresh (unix_seconds now) now ≡ true)
unfolding verify_signature is_fresh
own_request_passes p key idempotency_key now =
    (same_text_self (sign_request p key idempotency_key (unix_seconds now)), ground arith)

raise_described-ne-ok :
    (e : Error) (r : Result Description) (id : Text) → raise_described e r ≢ ok id
raise_described-ne-ok e (ok d) id h = cc
raise_described-ne-ok e (err x) id h = cc

module _ (p : Platform) (status : ℕ) (body : Bytes) (total : ℕ) where
  -- An answer counts as delivered exactly if its status is 200, its body was read to the end
  -- within the limit, and its payload names the message that Telegram created.
  pub delivered_iff :
      (id : Text)
      → (judge_answer p status body total ≡ ok id)
        ↔ (status ≡ 200)
          × ((total ≤ max_response_bytes) × (provider_message_id p (p.loads body) ≡ ok id))
  unfolding judge_answer is_definite_rejection
  delivered_iff id = ground (
    arith,
    raise_described-ne-ok sender_blocked (describe_rejection (p.loads body)) id,
    raise_described-ne-ok sender_rejected (describe_rejection (p.loads body)) id,
  )

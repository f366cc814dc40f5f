-- ===== src/Tests/Reading.antt =====
-- Windows of a date, bodies of answers and polls.
use personal_voice_msg.Prelude.{
  ℕ, ◌≡◌, ◌≤◌, ◌⊎◌, refl, true, false, Option, none, some, List, [], ◌∷◌, ◌||◌, arith,
}
use personal_voice_msg.Prelude.Text.{Bytes}
use personal_voice_msg.Prelude.Int.{ℤ, pos}
use personal_voice_msg.Prelude.Json.{Items, nil, cons}
use personal_voice_msg.Exec.{ok, err, poll_error, ◌>>=◌}
use personal_voice_msg.Scheduling.{daily_send, wall_time}
use personal_voice_msg.World.{Tick, no_response, on_db}
use personal_voice_msg.World.Body.{max_response_bytes, read_bounded}
use personal_voice_msg.Consent.{scan_updates, received_body, poll_inbound_stop}
use personal_voice_msg.Consent.Reading.{all_readable, any_stop, scan_finds}
use personal_voice_msg.Consent.Failing.{poll_error_harmless}
use personal_voice_msg.Database.Control.{get_telegram_inbound_offset}
use personal_voice_msg.Tests.Fixture.{zone, platform, settings, tick_at, accepted, stop, one_queued}

abbrev send_start : ℕ
send_start = zone.instant_of 740000 (wall_time daily_send)

abbrev chunks : List Bytes
chunks = (1 ∷ 2 ∷ []) ∷ (3 ∷ []) ∷ []

few_bytes : (read_bounded 0 chunks).1 ≤ max_response_bytes
unfolding read_bounded
few_bytes = omega arith

abbrev stops : Items
stops = cons stop nil

scan_finds_example :
    ((scan_updates 42 stops none false ≡ err poll_error) × (all_readable stops ≡ false))
    ⊎ ((last : Option ℤ) × (scan_updates 42 stops none false
          ≡ ok (last, any_stop 42 stops || false))
        × (all_readable stops ≡ true))
scan_finds_example = scan_finds 42 stops none false

scanned : scan_updates 42 stops (some (pos 3)) false ≡ ok (some (pos 9), true)
unfolding scan_updates
scanned = refl

abbrev silent : Tick
silent = record (tick_at 0 accepted true) { updates = λ o. no_response }

poll_fails : poll_inbound_stop platform settings silent one_queued ≡ (err poll_error, one_queued)
unfolding poll_inbound_stop received_body get_telegram_inbound_offset on_db ◌>>=◌
poll_fails = refl

poll_error_harmless_example : one_queued ≡ one_queued
poll_error_harmless_example =
    poll_error_harmless platform settings silent one_queued one_queued poll_fails

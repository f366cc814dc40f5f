-- ===== src/Discovery/Policy.antt =====
-- `FetchPolicy` of src/personal_voice_msg/discovery/web.py.
use personal_voice_msg.Prelude.{
  ℕ, suc, ◌^◌, ◌-◌, Bool, false, Option, none, some, List, [], ◌∷◌, ltb, leb, if◌then◌else◌,
}
use personal_voice_msg.Prelude.Int.{pos, negsuc}
use personal_voice_msg.Prelude.Json.{Json, integer, real}
use personal_voice_msg.Exec.{Result, ok, err, value_error, other_error}

-- What the constructor is given: Python values of any type.
pub record RawPolicy : Type 0 where
  pub max_body_bytes : Json
  pub max_redirects : Json
  pub total_timeout_seconds : Json
  pub dns_timeout_seconds : Json
  pub connect_timeout_seconds : Json
  pub read_timeout_seconds : Json
  pub max_headers : Json
  pub max_line_size : Json
  pub max_field_size : Json

pub record FetchPolicy : Type 0 where
  pub max_body_bytes : ℕ
  pub max_redirects : ℕ
  pub max_headers : ℕ
  pub max_line_size : ℕ
  pub max_field_size : ℕ
  pub total_timeout_seconds : Json
  pub dns_timeout_seconds : Json
  pub connect_timeout_seconds : Json
  pub read_timeout_seconds : Json

-- `type(value) is not int or value <= 0`, with the value where the test is false.
unfoldable pub count_limit : Json → Option ℕ
count_limit (integer (pos (suc n))) = some (suc n)
count_limit _ = none

-- The integers of this size have no float: `math.isfinite` raises `OverflowError`.
unfoldable pub float_limit : ℕ
float_limit = 2 ^ 1024 - 2 ^ 970

abbrev if_float : ℕ → Bool → Result Bool
if_float n answer = if leb float_limit n then err other_error else ok answer

-- The test that a duration must pass. Booleans, infinities and `nan` do not.
unfoldable pub is_duration : Json → Result Bool
unfolding float_limit
is_duration (integer (pos n)) = if_float n (ltb 0 n)
is_duration (integer (negsuc n)) = if_float (suc n) false
is_duration (real (pos n)) = ok (ltb 0 n)
is_duration _ = ok false

abbrev Passed : Type 0
Passed = Unit

-- `any` stops at the first value that fails.
unfoldable pub check_durations : List Json → Result Passed
unfolding is_duration
check_durations [] = ok tt
check_durations (value ∷ values) =
    let rest = check_durations values in
    elim (is_duration value) [
      | err e ↦ err e
      | ok passes ↦ if passes then rest else err value_error
    ]

abbrev with_counts :
    RawPolicy → Option ℕ → Option ℕ → Option ℕ → Option ℕ → Option ℕ → Result FetchPolicy
with_counts raw (some body) (some redirects) (some headers) (some line) (some field) =
    elim (check_durations (
      raw.total_timeout_seconds ∷ raw.dns_timeout_seconds ∷ raw.connect_timeout_seconds
      ∷ raw.read_timeout_seconds ∷ [])) [
        | err e ↦ err e
        | ok _ ↦ ok (record {
          max_body_bytes = body;
          max_redirects = redirects;
          max_headers = headers;
          max_line_size = line;
          max_field_size = field;
          total_timeout_seconds = raw.total_timeout_seconds;
          dns_timeout_seconds = raw.dns_timeout_seconds;
          connect_timeout_seconds = raw.connect_timeout_seconds;
          read_timeout_seconds = raw.read_timeout_seconds;
        })
      ]
with_counts raw _ _ _ _ _ = err value_error

-- `FetchPolicy(...)` with its `__post_init__`
unfoldable pub fetch_policy : RawPolicy → Result FetchPolicy
unfolding count_limit check_durations
fetch_policy raw =
    with_counts raw (count_limit raw.max_body_bytes) (count_limit raw.max_redirects)
      (count_limit raw.max_headers) (count_limit raw.max_line_size) (count_limit raw.max_field_size)

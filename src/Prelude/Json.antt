-- ===== src/Prelude/Json.antt =====
-- The values that `json.loads` returns, and the tests that the program makes on them.
use Prim.Native.Nat.{ℕ, zero, ◌*◌, ◌^◌}
use mathlib.Core.Bool.{Bool, true, false, ◌&&◌}
use mathlib.Core.Option.{Option, none, some}
use mathlib.Core.List.{List, [], ◌∷◌}
use personal_voice_msg.Prelude.Lists.{all, any}
use personal_voice_msg.Prelude.Tests.{◌==◌, if◌then◌else◌}
use personal_voice_msg.Prelude.Text.{Text, same_text}
use personal_voice_msg.Prelude.Int.{ℤ, pos, eqb_ℤ}

-- A finite float stands as the integer multiple of 2 ^ -1074 that it is. The items of an object
-- are those of the Python dictionary, so their keys are distinct.
mutual
  pub data Json : Type 0 where
    null : Json
    boolean : Bool → Json
    integer : ℤ → Json
    real : ℤ → Json
    infinity : Bool → Json
    nan : Json
    string : Text → Json
    array : Items → Json
    object : Fields → Json

  pub data Items : Type 0 where
    nil : Items
    cons : Json → Items → Items

  pub data Fields : Type 0 where
    end : Fields
    field : Text → Json → Fields → Fields

-- What `json.loads` does: it returns a value, or raises `JSONDecodeError`, `UnicodeDecodeError` for
-- bytes that are not UTF-8, another `ValueError` for an integer of too many digits, or
-- `RecursionError`. The first three are `ValueError`s.
pub data Loaded : Type 0 where
  loaded : Json → Loaded
  decode_error : Loaded
  unicode_error : Loaded
  digits_error : Loaded
  recursion_error : Loaded

-- `fields.get(key)`, where a missing key is `none`.
unfoldable pub get : Text → Fields → Option Json
get key end = none
get key (field k v fs) = if same_text k key then some v else get key fs

-- `fields.get(key)` as the value that Python hands on, with `None` for a missing key.
unfoldable pub get_or_null : Text → Fields → Json
unfolding get
get_or_null key fs = elim (get key fs) [ none ↦ null | some v ↦ v ]

-- How many multiples of 2 ^ -1074 make one.
unfoldable pub real_one : ℕ
real_one = 2 ^ 1074

-- `value == n` for a natural number `n`: `True` equals 1, and 5.0 equals 5.
unfoldable pub equals_number : Json → ℕ → Bool
unfolding real_one
equals_number (boolean true) n = n == 1
equals_number (boolean false) n = n == 0
equals_number (integer i) n = eqb_ℤ i (pos n)
equals_number (real r) n = eqb_ℤ r (pos (real_one * n))
equals_number _ n = false

abbrev is_zero : ℤ → Bool
is_zero (pos zero) = true
is_zero _ = false

-- Python's truth value.
unfoldable pub truthy : Json → Bool
truthy null = false
truthy (boolean b) = b
truthy (integer i) = if is_zero i then false else true
truthy (real r) = if is_zero r then false else true
truthy (infinity negative) = true
truthy nan = true
truthy (string []) = false
truthy (string (c ∷ s)) = true
truthy (array nil) = false
truthy (array (cons x xs)) = true
truthy (object end) = false
truthy (object (field k v fs)) = true

abbrev pub keys_of : Fields → List Text
keys_of end = []
keys_of (field k v fs) = k ∷ keys_of fs

abbrev pub among : List Text → Text → Bool
among keys key = any (same_text key) keys

-- `set(document) == keys`
unfoldable pub has_exactly : List Text → Fields → Bool
unfolding same_text
has_exactly keys fs = all (among keys) (keys_of fs) && all (among (keys_of fs)) keys

unfoldable pub as_object : Json → Option Fields
as_object (object fields) = some fields
as_object _ = none

unfoldable pub as_string : Json → Option Text
as_string (string text) = some text
as_string _ = none

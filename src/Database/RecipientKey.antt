-- ===== src/Database/RecipientKey.antt =====
-- `OPAQUE_RECIPIENT_KEY`, `recipient_key_for_chat_id` and `_timestamp` of
-- src/personal_voice_msg/database.py.
use personal_voice_msg.Prelude.{
  ℕ, ◌≡◌, refl, ◌^◌, ◌<◌, Bool, true, false, ◌&&◌, ◌||◌, none, some, [], ◌∷◌, ◌++◌, arith, ◌==◌,
  leb, length, all,
}
use personal_voice_msg.Prelude.Text.{Text, codes, strip_prefix}
use personal_voice_msg.Prelude.Decimal.{
  decimal, is_digit, all-is_digit, length-decimal-le, decimal-ne-nil, decimal-injective,
}
use personal_voice_msg.Exec.{Result, ok, err, value_error}
use personal_voice_msg.Scheduling.{Datetime, aware, naive}

-- `[A-Za-z0-9]`
abbrev pub is_alphanumeric : ℕ → Bool
is_alphanumeric c = leb b'a' c && leb c b'z' || (leb b'A' c && leb c b'Z' || is_digit c)

-- `[A-Za-z0-9_-]`
abbrev pub is_key_character : ℕ → Bool
is_key_character c = is_alphanumeric c || (c == b'_' || c == b'-')

abbrev is_key_body : Text → Bool
is_key_body [] = false
is_key_body (c ∷ s) =
    is_alphanumeric c && (all is_key_character s && (leb 2 (length s) && leb (length s) 119))

-- `OPAQUE_RECIPIENT_KEY.fullmatch(key) is not None`
unfoldable pub is_opaque_recipient_key : Text → Bool
unfolding strip_prefix
is_opaque_recipient_key key = elim (strip_prefix (codes "recipient_") key) [
  | none ↦ false
  | some s ↦ is_key_body s
]

-- `recipient_key_for_chat_id`, for an id that is not negative
unfoldable pub recipient_key_for_chat_id : ℕ → Text
recipient_key_for_chat_id chat_id = codes "recipient_telegram_" ++ decimal chat_id

-- `MAX_TELEGRAM_CHAT_ID` of config.py
abbrev pub max_telegram_chat_id : ℕ
max_telegram_chat_id = 2 ^ 52

-- `_timestamp`
unfoldable pub timestamp_of : Datetime → Result ℕ
timestamp_of (aware t) = ok t
timestamp_of (naive t) = err value_error

digits_are_key_characters : (s : Text) → all is_digit s ≡ true → all is_key_character s ≡ true
digits_are_key_characters [] h = refl
digits_are_key_characters (c ∷ s) h = ground (arith, digits_are_key_characters s)

key_body :
    (s : Text)
    → all is_key_character s ≡ true
    → 0 < length s
    → length s < 17
    → is_key_body (codes "telegram_" ++ s) ≡ true
key_body s h l k = ground arith

-- The key of a chat id that the configuration accepts is an opaque recipient key.
pub recipient_key-IsOpaque :
    (chat_id : ℕ)
    → chat_id < max_telegram_chat_id
    → is_opaque_recipient_key (recipient_key_for_chat_id chat_id) ≡ true
unfolding is_opaque_recipient_key recipient_key_for_chat_id
recipient_key-IsOpaque chat_id h =
    key_body (decimal chat_id) (digits_are_key_characters (decimal chat_id) (all-is_digit chat_id))
      (decimal-ne-nil chat_id) (omega (arith, length-decimal-le chat_id 15 (omega arith)))

append-injective : (p s t : Text) → p ++ s ≡ p ++ t → s ≡ t
append-injective [] s t e = e
append-injective (c ∷ p) s t e = append-injective p s t (cc)

-- Different chat ids have different recipient keys.
pub recipient_key-injective :
    (m n : ℕ) → recipient_key_for_chat_id m ≡ recipient_key_for_chat_id n → m ≡ n
unfolding recipient_key_for_chat_id
recipient_key-injective m n e =
    decimal-injective m n (append-injective (codes "recipient_telegram_") (decimal m) (decimal n) e)

-- ===== src/Enrollment.antt =====
-- src/personal_voice_msg/recipient_enrollment.py: the chat id of the one who wrote to the bot, and
-- the file that keeps it.
pub mod Enrolled
use personal_voice_msg.Prelude.{
  ℕ, suc, ◌*◌, ◌-◌, Bool, true, false, not, ◌&&◌, ◌||◌, Option, none, some, List, [], ◌∷◌, any,
  is_some, if◌then◌else◌,
}
use personal_voice_msg.Prelude.Text.{Text, codes, same_text}
use personal_voice_msg.Prelude.Int.{ℤ, pos, negsuc, eqb_ℤ}
use personal_voice_msg.Prelude.Json.{
  Json, Items, Fields, null, boolean, integer, real, infinity, nan, string, array, object, nil,
  cons, field, end, get_or_null, truthy, real_one, as_object,
}
use personal_voice_msg.Exec.{
  Exec, Result, ok, err, value_error, other_error, gets, modify, or_raise, raise_if, lift, pure,
  ◌>>=◌, ◌>>◌,
}
use personal_voice_msg.Config.{RuntimeProfile, profile_value, chat_id_of}

-- A number as the multiple of 2 ^ -1074 that it is.
abbrev scaled : ℤ → ℤ
scaled (pos n) = pos (real_one * n)
scaled (negsuc n) = negsuc (real_one * suc n - 1)

abbrev bit : Bool → ℕ
bit true = 1
bit false = 0

abbrev as_number : Json → Option ℤ
as_number (boolean b) = some (scaled (pos (bit b)))
as_number (integer n) = some (scaled n)
as_number (real r) = some r
as_number _ = none

abbrev same_number : Option ℤ → Option ℤ → Bool
same_number (some m) (some n) = eqb_ℤ m n
same_number _ _ = false

abbrev same_bit : Bool → Bool → Bool
same_bit true b = b
same_bit false b = not b

-- `==` on values that a set can hold: `True`, 1 and 1.0 are the same.
unfoldable pub same_value : Json → Json → Bool
unfolding real_one same_text
same_value null null = true
same_value (string s) (string t) = same_text s t
same_value (infinity b) (infinity c) = same_bit b c
same_value a b = same_number (as_number a) (as_number b)

abbrev pub unhashable : Json → Bool
unhashable (array items) = true
unhashable (object fields) = true
unhashable _ = false

abbrev add_message : Json → List Fields → List Fields
add_message (object message) messages = message ∷ messages
add_message _ messages = messages

-- The messages of the updates, as far as they are objects.
unfoldable pub messages_of : Items → List Fields
unfolding get_or_null
messages_of nil = []
messages_of (cons (object update) updates) =
    add_message (get_or_null (codes "message") update) (messages_of updates)
messages_of (cons _ updates) = messages_of updates

abbrev id_in : Json → Json
id_in (object chat) = get_or_null (codes "id") chat
id_in _ = null

-- `chat.get("id") if isinstance(chat, dict) else None`
unfoldable pub raw_chat_id : Fields → Json
unfolding get_or_null
raw_chat_id message = id_in (get_or_null (codes "chat") message)

abbrev pub raw_chat_ids : List Fields → List Json
raw_chat_ids [] = []
raw_chat_ids (message ∷ messages) = raw_chat_id message ∷ raw_chat_ids messages

-- From the ids of the messages: an `EnrollmentError`, which is a `ValueError`, unless they are one
-- valid id. A list or an object among them makes the set raise `TypeError`.
unfoldable pub single_chat_id : List Json → Result ℕ
unfolding same_value chat_id_of
single_chat_id [] = err value_error
single_chat_id (first ∷ others) =
    if any unhashable (first ∷ others)
    then err other_error
    else if any (λ id. not (same_value id first)) others
    then err value_error
    else elim (chat_id_of first) [ none ↦ err value_error | some id ↦ ok id ]

abbrev pub chat_id_in : Json → Result ℕ
chat_id_in (array updates) = single_chat_id (raw_chat_ids (messages_of updates))
chat_id_in _ = err value_error

-- `_extract_chat_id`. A payload that is no object has no `get`.
unfoldable pub extract_chat_id : Json → Result ℕ
unfolding single_chat_id messages_of raw_chat_id get_or_null
extract_chat_id (object payload) =
    if not (truthy (get_or_null (codes "ok") payload))
    then err value_error
    else chat_id_in (get_or_null (codes "result") payload)
extract_chat_id _ = err other_error

-- The files, by their paths.
abbrev pub Disk : Type 0
Disk = Text → Option Text

abbrev pub write : Text → Text → Disk → Disk
write path content disk other = if same_text other path then some content else disk other

-- The object that is written.
abbrev pub recipient : RuntimeProfile → ℕ → Fields
recipient profile chat_id =
    field (codes "profile") (string (profile_value profile))
      (field (codes "telegram_chat_id") (integer (pos chat_id)) end)

-- `dumps` is `json.dumps`. The answer is the payload of `getUpdates`, or `none` where the request
-- or the reading of its body raises.
unfoldable pub enroll_recipient :
    (Fields → Text) → Option Json → Text → RuntimeProfile → Exec Disk ℕ
enroll_recipient dumps answer destination profile = do
  existing ← gets (λ disk. disk destination)
  raise_if (is_some existing) value_error
  payload ← or_raise other_error answer
  chat_id ← lift (extract_chat_id payload)
  modify (write destination (dumps (recipient profile chat_id)))
  pure chat_id

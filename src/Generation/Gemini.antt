-- ===== src/Generation/Gemini.antt =====
-- src/personal_voice_msg/generation/gemini_client.py: one call of the language model. What the
-- provider answers is an argument.
use personal_voice_msg.Prelude.{
  ℕ, zero, suc, ◌+◌, Bool, false, not, Option, none, some, List, [], ◌∷◌, ◌++◌, ◌==◌, ltb, length,
  if◌then◌else◌,
}
use personal_voice_msg.Prelude.Text.{Text, Bytes, codes, same_text}
use personal_voice_msg.Prelude.Json.{
  Json, Fields, string, array, object, cons, get, Loaded, loaded, decode_error, unicode_error,
  digits_error, recursion_error, as_object, as_string,
}
use personal_voice_msg.Prelude.Checks.{◌>>=◌}
use personal_voice_msg.Exec.{Error, unicode_decode_error, value_error, other_error}

-- How a call ends: with a JSON object, with a `GeminiClientError` and its finish reason, or with
-- an exception that no handler of the module names.
pub data Reply : Type 0 where
  replied : Fields → Reply
  failed : Option Text → Reply
  escaped : Error → Reply

-- `json.loads` of bytes and of a text, and `str`.
pub record JsonLibrary : Type 0 where
  pub loads : Bytes → Loaded
  pub loads_text : Text → Loaded
  pub str : Json → Text

-- An answer: its status, the chunks of its body, and whether the reading reaches the end.
pub record ModelAnswer : Type 0 where
  pub status : ℕ
  pub chunks : List Bytes
  pub complete : Bool

abbrev max_reply_bytes : ℕ
max_reply_bytes = 65536

abbrev max_finish_reason_characters : ℕ
max_finish_reason_characters = 64

-- `value[0]` of a JSON value, where that is a JSON value.
abbrev first_item : Json → Option Json
first_item (array (cons first rest)) = some first
first_item _ = none

-- `value[key]`
abbrev item : Text → Json → Option Json
item key value = do fields ← as_object value; get key fields

-- `text[:n]`
abbrev cut : ℕ → Text → Text
cut zero s = []
cut (suc n) [] = []
cut (suc n) (c ∷ s) = c ∷ cut n s

abbrev is_stop : Json → Bool
is_stop (string text) = same_text text (codes "STOP")
is_stop _ = false

-- A loaded value, with `f` for what follows. Only `JSONDecodeError` is caught.
abbrev pub then_loaded : Loaded → (Json → Reply) → Reply
then_loaded (loaded value) f = f value
then_loaded decode_error f = failed none
then_loaded unicode_error f = escaped unicode_decode_error
then_loaded digits_error f = escaped value_error
then_loaded recursion_error f = escaped other_error

abbrev object_or_failed : Json → Reply
object_or_failed (object fields) = replied fields
object_or_failed _ = failed none

-- The loop over the chunks, from the total and the bytes so far. `none` is an error of it.
unfoldable pub read_reply : Bool → ℕ → Bytes → List Bytes → Option Bytes
read_reply complete total body [] = if complete then some body else none
read_reply complete total body (chunk ∷ chunks) =
    let rest = read_reply complete (total + length chunk) (body ++ chunk) chunks in
    if ltb max_reply_bytes (total + length chunk) then none else rest

module _ (lib : JsonLibrary) where
  abbrev load_text : Option Text → Reply
  load_text none = failed none
  load_text (some text) = then_loaded (lib.loads_text text) object_or_failed

  abbrev reason_of : Option Json → Option Text → Reply
  reason_of none content = failed none
  reason_of (some reason) content =
      if not (is_stop reason)
      then failed (some (cut max_finish_reason_characters (lib.str reason)))
      else load_text content

  -- `first["content"]["parts"][0]["text"]`; `json.loads` raises `TypeError` for what is no text.
  abbrev structured_text : Json → Option Text
  structured_text first = do
    content ← item (codes "content") first
    parts ← item (codes "parts") content
    part ← first_item parts
    value ← item (codes "text") part
    as_string value

  abbrev from_first : Option Json → Reply
  from_first none = failed none
  from_first (some first) = reason_of (item (codes "finishReason") first) (structured_text first)

  unfoldable pub parse_generate_content_response : Json → Reply
  unfolding get as_object as_string ◌>>=◌ same_text
  parse_generate_content_response payload =
      from_first do candidates ← item (codes "candidates") payload; first_item candidates

  abbrev from_body : Option Bytes → Reply
  from_body none = failed none
  from_body (some body) = then_loaded (lib.loads body) parse_generate_content_response

  -- `none` is a `ClientError` or a `TimeoutError` of the request.
  unfoldable pub generate_structured : Option ModelAnswer → Reply
  unfolding parse_generate_content_response read_reply
  generate_structured none = failed none
  generate_structured (some answer) =
      if not (answer.status == 200)
      then failed none
      else from_body (read_reply answer.complete 0 [] answer.chunks)

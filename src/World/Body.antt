-- ===== src/World/Body.antt =====
-- The loop that reads a response body in chunks and stops past the limit: the same in
-- src/personal_voice_msg/sender.py and src/personal_voice_msg/consent.py.
use personal_voice_msg.Prelude.{
  ℕ, ◌+◌, ◌≤◌, ◌≡◌, List, [], ◌∷◌, ◌++◌, arith, ltb, length, length-append, if◌then◌else◌,
}
use personal_voice_msg.Prelude.Text.{Bytes}

-- `MAX_RESPONSE_BYTES`
abbrev pub max_response_bytes : ℕ
max_response_bytes = 65536

-- `(body, total)`, from a total so far.
unfoldable pub read_bounded : ℕ → List Bytes → Bytes × ℕ
read_bounded total [] = ([], total)
read_bounded total (chunk ∷ chunks) =
    let more = total + length chunk in
    let rest = read_bounded more chunks in
    if ltb max_response_bytes more then ([], more) else (chunk ++ rest.0, rest.1)

abbrev pub concat : List Bytes → Bytes
concat [] = []
concat (chunk ∷ chunks) = chunk ++ concat chunks

-- From a total within the limit, the body that is kept does not pass it.
pub length-read_bounded-le :
    (total : ℕ) (chunks : List Bytes)
    → total ≤ max_response_bytes
    → total + length (read_bounded total chunks).0 ≤ max_response_bytes
unfolding read_bounded
length-read_bounded-le total [] h = omega arith
length-read_bounded-le total (chunk ∷ chunks) h = ground (
  arith,
  length-append chunk (read_bounded (total + length chunk) chunks).0,
  length-read_bounded-le (total + length chunk) chunks,
)

-- Unless the total passes the limit, the body is all that was sent.
pub read_bounded_complete :
    (total : ℕ) (chunks : List Bytes)
    → (read_bounded total chunks).1 ≤ max_response_bytes
    → ((read_bounded total chunks).0 ≡ concat chunks)
      × ((read_bounded total chunks).1 ≡ total + length (concat chunks))
unfolding read_bounded
read_bounded_complete total [] h = ground arith
read_bounded_complete total (chunk ∷ chunks) h = ground (
  arith,
  length-append chunk (concat chunks),
  read_bounded_complete (total + length chunk) chunks,
)

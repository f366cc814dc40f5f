-- ===== src/Enrollment/Enrolled.antt =====
-- The recipient that src/personal_voice_msg/recipient_enrollment.py enrolls, as
-- src/personal_voice_msg/config.py reads it.
use mathlib.Core.Path.{subst}
use personal_voice_msg.Prelude.{
  ℕ, ◌≡◌, refl, arith, Bool, true, false, not, Option, none, some, List, [], ◌∷◌, any, All, is_some,
  is_some-eq-false, if◌then◌else◌, Bool-cases, inl, inr,
}
use personal_voice_msg.Prelude.Text.{Text, codes, same_text, same_text_self}
use personal_voice_msg.Prelude.Int.{pos}
use personal_voice_msg.Prelude.Json.{
  Json, Items, Fields, array, object, integer, get_or_null, as_object, as_string, has_exactly,
  truthy,
}
use personal_voice_msg.Prelude.Checks.{◌>>=◌, require}
use personal_voice_msg.Exec.{Result, ok, err, value_error}
use personal_voice_msg.Exec.Ends.{
  Ends, Ends-bind, Ends-gets, Ends-raise_if, Ends-or_raise, Ends-lift, Ends-modify, Ends-pure,
}
use personal_voice_msg.Config.{
  RuntimeProfile, Host, profile_value, chat_id_of, has_duplicate_keys, telegram_chat_id,
}
use personal_voice_msg.Config.Loading.{IsChatId, chat_id_of-IsChatId}
use personal_voice_msg.Enrollment.{
  same_value, unhashable, single_chat_id, raw_chat_ids, messages_of, chat_id_in, extract_chat_id,
  Disk, write, recipient, enroll_recipient,
}

-- The id is valid, there is a message, and every message comes from a chat with that id.
abbrev IsSingle : List Json → ℕ → Type 0
IsSingle [] id = ⊥
IsSingle (first ∷ others) id =
    (chat_id_of first ≡ some id) × IsChatId id × All (λ other. same_value other first ≡ true) others

every_same :
    (first : Json) (others : List Json)
    → any (λ id. not (same_value id first)) others ≡ false
    → All (λ other. same_value other first ≡ true) others
every_same first [] h = tt
every_same first (other ∷ others) h = (ground arith, every_same first others (ground arith))

-- A property of the value of a result.
abbrev ForOk : (ℕ → Type 0) → Result ℕ → Type 0
ForOk P (ok id) = P id
ForOk P (err e) = Unit

chosen :
    (first : Json) (others : List Json) (o : Option ℕ)
    → chat_id_of first ≡ o
    → any (λ id. not (same_value id first)) others ≡ false
    → ForOk (IsSingle (first ∷ others)) (elim o [ none ↦ err value_error | some id ↦ ok id ])
chosen first others none e same = tt
chosen first others (some id) e same =
    (e, (chat_id_of-IsChatId first).at id e, every_same first others same)

single_chat_id-IsSingle : (ids : List Json) → ForOk (IsSingle ids) (single_chat_id ids)
unfolding single_chat_id
single_chat_id-IsSingle [] = tt
single_chat_id-IsSingle (first ∷ others) = elim (Bool-cases (any unhashable (first ∷ others))) [
  | inl odd ↦ rw odd tt
  | inr plain ↦ elim (Bool-cases (any (λ id. not (same_value id first)) others)) [
    | inl mixed ↦ rw (plain, mixed) tt
    | inr same ↦ rw (plain, same) (chosen first others (chat_id_of first) refl same)
  ]
]

-- The payload lists messages of that one chat.
abbrev pub IsSender : Json → ℕ → Type 0
IsSender (object payload) id =
    (updates : Items) × (get_or_null (codes "result") payload ≡ array updates)
    × IsSingle (raw_chat_ids (messages_of updates)) id
IsSender _ id = ⊥

listed :
    (payload : Fields) (updates : Items)
    → get_or_null (codes "result") payload ≡ array updates
    → (result : Result ℕ) → ForOk (IsSingle (raw_chat_ids (messages_of updates))) result
    → ForOk (IsSender (object payload)) result
listed payload updates e (ok id) single = (updates, e, single)
listed payload updates e (err x) single = tt

in_result :
    (payload : Fields) (result : Json)
    → get_or_null (codes "result") payload ≡ result
    → ForOk (IsSender (object payload)) (chat_id_in result)
in_result payload (array updates) e =
    listed payload updates e (single_chat_id (raw_chat_ids (messages_of updates)))
      (single_chat_id-IsSingle (raw_chat_ids (messages_of updates)))
in_result payload _ e = tt

extract_chat_id-IsSender : (payload : Json) → ForOk (IsSender payload) (extract_chat_id payload)
unfolding extract_chat_id
extract_chat_id-IsSender (object payload) =
    elim (Bool-cases (truthy (get_or_null (codes "ok") payload))) [
      | inl fine ↦ rw fine (in_result payload _ refl)
      | inr bad ↦ rw bad tt
    ]
extract_chat_id-IsSender _ = tt

sender_id : (payload : Json) (id : ℕ) → IsSender payload id → IsChatId id
sender_id (object payload) id (updates, e, single) =
    of_single (raw_chat_ids (messages_of updates)) single
  where
    of_single : (ids : List Json) → IsSingle ids id → IsChatId id
    of_single [] h = elim h [ ]
    of_single (first ∷ others) h = h.1
sender_id _ id h = elim h [ ]

id_back : (n : ℕ) → IsChatId n → chat_id_of (integer (pos n)) ≡ some n
unfolding chat_id_of
id_back n h = ground (arith, h)

module _ (dumps : Fields → Text) (host : Host) (destination : Text) (profile : RuntimeProfile) where
  -- `json.loads` reads back what `json.dumps` has written.
  abbrev pub ReadsBack : Type 0
  ReadsBack =
      (n : ℕ) → host.load_json (dumps (recipient profile n)) ≡ some (object (recipient profile n))

  -- The program as it reads the disk.
  abbrev pub reading : Disk → Host
  reading disk = record host { read_text = disk }

  written_id :
      (n : ℕ) (disk : Disk) (other : RuntimeProfile)
      → ReadsBack
      → IsChatId n
      → telegram_chat_id
          (reading (write destination (dumps (recipient profile n)) disk))
          destination
          other
        ≡ (if same_text (profile_value profile) (profile_value other) then some n else none)
  unfolding telegram_chat_id ◌>>=◌ require has_duplicate_keys as_object has_exactly get_or_null
      as_string
  written_id n disk other law h =
      rw (same_text_self destination, law n, id_back n h)
        (unless (same_text (profile_value profile) (profile_value other)))
    where
      unless : (b : Bool) → (require b >>= λ _. some n) ≡ (if b then some n else none)
      unless true = refl
      unless false = refl

  module _ (payload : Option Json) (disk : Disk) where
    -- The file is new and keeps the id of the one sender. The configuration reads it back for the
    -- same profile and refuses it for any other. The other files are as before.
    abbrev pub Enrolls : ℕ → Disk → Type 0
    Enrolls id after =
        (disk destination ≡ none)
        × ((answer : Json) × (payload ≡ some answer) × IsSender answer id)
        × ((other : RuntimeProfile)
            → telegram_chat_id (reading after) destination other
              ≡ (if same_text (profile_value profile) (profile_value other) then some id else none))
        × ((path : Text) → same_text path destination ≡ false → after path ≡ disk path)

    -- An enrollment that returns has written a recipient to a new file: the one sender of the
    -- messages of the answer, whose id is at least 1 and below 2 ^ 52. The configuration reads that
    -- id back for the same profile, and refuses the file for any other. An enrollment that raises
    -- writes nothing.
    pub enroll_recipient-Enrolls :
        ReadsBack
        → Ends
            (enroll_recipient dumps payload destination profile)
            disk
            Enrolls
            (λ e after. after ≡ disk)
    unfolding enroll_recipient
    enroll_recipient-Enrolls law = Ends-bind _ _ disk (
        Ends-gets _ disk (
          Ends-bind _ _ disk (
            Ends-raise_if _ _ disk
              (λ missing. Ends-bind _ _ disk (
                Ends-or_raise _ _ disk
                  (λ answer e. Ends-bind _ _ disk (
                    Ends-lift _ disk
                      (λ id extracted. Ends-bind _ _ disk (
                        Ends-modify _ disk
                          (Ends-pure id _ (enrolled missing answer e id extracted))))
                      (λ x _. refl)))
                  (λ _. refl)))
              (λ _. refl))))
      where
        enrolled :
            is_some (disk destination) ≡ false
            → (answer : Json) → payload ≡ some answer
            → (id : ℕ) → extract_chat_id answer ≡ ok id
            → Enrolls id (write destination (dumps (recipient profile id)) disk)
        enrolled missing answer e id extracted =
            let sender =
              subst (ForOk (IsSender answer)) extracted (extract_chat_id-IsSender answer) in
            (
              is_some-eq-false (disk destination) missing,
              (answer, e, sender),
              (λ other. written_id id disk other law (sender_id answer id sender)),
              λ path apart. rw apart refl,
            )

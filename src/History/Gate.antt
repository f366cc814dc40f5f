-- ===== src/History/Gate.antt =====
-- The duplicate gate of src/personal_voice_msg/history.py beside a rule of its own.
use personal_voice_msg.Prelude.{
  ℕ, ◌≡◌, refl, ◌*◌, ◌<◌, ◌&&◌, ltb, all, All, Bool, true, false, Option, none, some, List, [], ◌∷◌,
  arith, if◌then◌else◌, inl, inr, Option-cases, Bool-cases,
}
use personal_voice_msg.Prelude.Text.{Text, same_text}
use personal_voice_msg.Prelude.Json.{real_one}
use personal_voice_msg.Exec.{ok}
use personal_voice_msg.Exec.Ends.{Ends, Ends-bind, Ends-pure, Ends-raise_if, Ends-lift, Ends-gets}
use personal_voice_msg.Rows.{find}
use personal_voice_msg.Normalization.{Unicode, is_nil, normalize_text, normalized_hash}
use personal_voice_msg.Database.Schema.{Message, Db}
use personal_voice_msg.History.{
  DuplicateDecision, source_copy, refused, decide_best, best_match, copied, has_hash,
  decide_unless_exact, near_duplicate_threshold, evaluate_with_connection,
}

ok_same : (b c : Bool) → ok b ≡ ok c → b ≡ c
ok_same b c e = cc e

find-none-All :
    {A : Type 0} (p : A → Bool) (rows : List A) → find p rows ≡ none → All (λ r. p r ≡ false) rows
unfolding find
find-none-All p [] h = tt
find-none-All p (r ∷ rows) h = (ground arith, find-none-All p rows (ground arith))

pub All-find-none :
    {A : Type 0} (p : A → Bool) (rows : List A) → All (λ r. p r ≡ false) rows → find p rows ≡ none
unfolding find
All-find-none p [] h = refl
All-find-none p (r ∷ rows) h = rw (h.0) (All-find-none p rows h.1)

module _ (u : Unicode) (sha256 : Text → Text) (ratio : Text → Text → ℕ) (normalized : Text) where
  abbrev is_far : Message → Bool
  is_far m = ltb (ratio normalized (normalize_text u m.text)) near_duplicate_threshold

  -- The best score so far passes, and with it every message, exactly if the best of all passes.
  best_match-is_far :
      (rows : List Message) (best : Option ℕ) (score : ℕ)
      → 0 < near_duplicate_threshold
      → (best ≡ none → score ≡ 0)
      → (decide_best (best_match u sha256 ratio normalized rows best score)).accepted
        ≡ ltb score near_duplicate_threshold && all is_far rows
  unfolding best_match
  best_match-is_far [] none score positive start = ground (arith, start refl, positive)
  best_match-is_far [] (some id) score positive start = ground arith
  best_match-is_far (m ∷ rows) best score positive start = ground (
    arith,
    best_match-is_far rows (some m.id) (ratio normalized (normalize_text u m.text)) positive
        (λ e. absurd (cc e)),
    best_match-is_far rows best score positive start,
  )

  all-All : (rows : List Message) → all is_far rows ≡ true → All (λ m. is_far m ≡ true) rows
  all-All [] h = tt
  all-All (m ∷ rows) h = (ground arith, all-All rows (ground arith))

  All-all : (rows : List Message) → All (λ m. is_far m ≡ true) rows → all is_far rows ≡ true
  All-all [] h = refl
  All-all (m ∷ rows) h = ground (arith, h.0, All-all rows h.1)

  positive_threshold : 0 < near_duplicate_threshold
  unfolding near_duplicate_threshold real_one
  positive_threshold = omega arith

  -- Every message scores less than 79.
  abbrev pub AreFar : List Message → Type 0
  AreFar rows = All (λ m. ratio normalized (normalize_text u m.text) < real_one * 79) rows

  below : (score : ℕ) → ltb score near_duplicate_threshold ≡ true → score < real_one * 79
  unfolding near_duplicate_threshold
  below score h = ground (arith, h)

  below_back : (score : ℕ) → score < real_one * 79 → ltb score near_duplicate_threshold ≡ true
  unfolding near_duplicate_threshold
  below_back score h = ground (arith, h)

  far_from :
      (rows : List Message)
      → (decide_best (best_match u sha256 ratio normalized rows none 0)).accepted ≡ true
      → AreFar rows
  far_from rows h = map_All rows (
      all-All rows
        (ground (arith, h, best_match-is_far rows none 0 positive_threshold (λ e. refl))))
    where
      map_All : (rows : List Message) → All (λ m. is_far m ≡ true) rows → AreFar rows
      map_All [] h = tt
      map_All (m ∷ rows) h = (below _ h.0, map_All rows h.1)

  accepts_far :
      (rows : List Message)
      → AreFar rows
      → (decide_best (best_match u sha256 ratio normalized rows none 0)).accepted ≡ true
  accepts_far rows h =
      let far : all is_far rows ≡ true = All-all rows (map_All rows h) in
      ground (
        arith,
        far,
        positive_threshold,
        best_match-is_far rows none 0 positive_threshold (λ e. refl),
      )
    where
      map_All : (rows : List Message) → AreFar rows → All (λ m. is_far m ≡ true) rows
      map_All [] h = tt
      map_All (m ∷ rows) h = (below_back _ h.0, map_All rows h.1)

module _ (u : Unicode) (sha256 : Text → Text) (ratio : Text → Text → ℕ) (candidate : Text)
    (db : Db) where
  -- A decision of the gate, from the database as it is.
  pub record Decides (source : Option Text) (d : DuplicateDecision) : Type 0 where
    pub not_empty : is_nil (normalize_text u candidate) ≡ false
    pub is_copy : Bool
    pub copy : copied u sha256 ratio candidate source ≡ ok is_copy
    pub decision : d ≡ (
        if is_copy
        then refused source_copy none none
        else decide_unless_exact u sha256 ratio
            (find (has_hash u sha256 ratio candidate) db.message_history)
            (decide_best
              (best_match u sha256 ratio (normalize_text u candidate) db.messages none 0)))

  pub evaluate_lem :
      (source : Option Text)
      → Ends
          (evaluate_with_connection u sha256 ratio candidate source)
          db
          (λ d t. (t ≡ db) × Decides source d)
          (λ e t. t ≡ db)
  unfolding evaluate_with_connection
  evaluate_lem source = Ends-bind _ _ db (
      Ends-raise_if _ _ db
        (λ not_empty. Ends-bind _ _ db (
          Ends-lift _ db
            (λ is_copy e. Ends-bind _ _ db (
              Ends-gets _ db (
                Ends-bind _ _ db (
                  Ends-gets _ db (
                    Ends-pure _ db (
                      refl,
                      record {
                        not_empty = not_empty;
                        is_copy = is_copy;
                        copy = e;
                        decision = refl;
                      },
                    ))))))
            (λ e _. refl)))
        (λ _. refl))

  -- The gate's own rule, apart from its code: the candidate has words, no span of six of them is in
  -- the source, no recorded message has its hash, and no message scores 79 or more beside it.
  pub record Allowed (source : Option Text) : Type 0 where
    pub has_words : is_nil (normalize_text u candidate) ≡ false
    pub not_copied : copied u sha256 ratio candidate source ≡ ok false
    pub new_hash :
        All
          (λ h. same_text h.normalized_hash (normalized_hash u sha256 candidate) ≡ false)
          db.message_history
    pub far : AreFar u sha256 ratio (normalize_text u candidate) db.messages

  pub decision-Allowed :
      (source : Option Text) (d : DuplicateDecision)
      → Decides source d
      → d.accepted ≡ true
      → Allowed source
  decision-Allowed source d k let_in = elim (Bool-cases k.is_copy) [
    | inl same ↦ absurd (ground (arith, k.decision, same, let_in))
    | inr differs ↦
        elim (Option-cases (find (has_hash u sha256 ratio candidate) db.message_history)) [
          | inl missing ↦ record {
            has_words = k.not_empty;
            not_copied = rw (k.copy, differs) refl;
            new_hash = find-none-All (has_hash u sha256 ratio candidate) db.message_history missing;
            far =
                far_from u sha256 ratio (normalize_text u candidate) db.messages
                  (ground (arith, k.decision, missing, differs, let_in));
          }
          | inr (h, there) ↦ absurd (ground (arith, k.decision, there, let_in))
        ]
  ]

  pub Allowed-decision :
      (source : Option Text) (d : DuplicateDecision)
      → Decides source d
      → Allowed source
      → d.accepted ≡ true
  Allowed-decision source d k h =
      let differs : k.is_copy ≡ false = ok_same k.is_copy false (cc (k.copy, h.not_copied)) in
      let missing =
        All-find-none (has_hash u sha256 ratio candidate) db.message_history h.new_hash in
      let low = accepts_far u sha256 ratio (normalize_text u candidate) db.messages h.far in
      ground (arith, k.decision, differs, missing, low)

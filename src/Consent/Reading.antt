-- ===== src/Consent/Reading.antt =====
-- The scan of `_process_updates` (src/personal_voice_msg/consent.py) beside readings of the
-- updates that are independent of it.
use personal_voice_msg.Prelude.{
  ℕ, ◌≡◌, refl, ap, sym, ◌∙◌, ◌⊎◌, Bool, true, false, ◌||◌, Option, some, arith, inl, inr,
}
use personal_voice_msg.Prelude.Int.{ℤ, ◌≤ℤ◌}
use personal_voice_msg.Prelude.Json.{Json, Items, nil, cons, object}
use personal_voice_msg.Exec.{Error, Result, ok, err, poll_error}
use personal_voice_msg.Consent.{read_update, is_stop_message, raise_max, scan_updates}

-- Independent readings of a list of updates: whether all of them have an id, whether one of them
-- is a STOP of the enrolled chat, and whether no id passes a bound.
abbrev pub all_readable : Items → Bool
all_readable nil = true
all_readable (cons u us) = elim (read_update u) [ ok r ↦ all_readable us | err e ↦ false ]

abbrev pub is_stop : ℕ → Json → Bool
is_stop enrolled u = elim (read_update u) [
  | ok (id, message) ↦ is_stop_message enrolled message
  | err e ↦ false
]

abbrev pub any_stop : ℕ → Items → Bool
any_stop enrolled nil = false
any_stop enrolled (cons u us) = is_stop enrolled u || any_stop enrolled us

abbrev pub IdsTo : ℤ → Items → Type 0
IdsTo bound nil = Unit
IdsTo bound (cons u us) = elim (read_update u) [
  | ok (id, message) ↦ (id ≤ℤ bound) × IdsTo bound us
  | err e ↦ ⊥
]

read_error : (u : Json) (x : Error) → read_update u ≡ err x → x ≡ poll_error
read_error (object fields) x h = ground arith
read_error _ x h = cc

read_cases :
    (u : Json)
    → ((id : ℤ) × (message : Json) × (read_update u ≡ ok (id, message)))
      ⊎ (read_update u ≡ err poll_error)
read_cases u = from_result (read_update u) refl
  where
    from_result :
        (r : Result (ℤ × Json))
        → read_update u ≡ r
        → ((id : ℤ) × (message : Json) × (read_update u ≡ ok (id, message)))
          ⊎ (read_update u ≡ err poll_error)
    from_result (ok (id, message)) e = inl (id, message, e)
    from_result (err x) e = inr (e ∙ ap err (read_error u x e))

-- The scan reads all updates or raises the poll's error; when it reads them, it finds a STOP
-- exactly if one of them is a STOP of the enrolled chat.
pub scan_finds :
    (enrolled : ℕ) (us : Items) (best : Option ℤ) (stop_found : Bool)
    → ((scan_updates enrolled us best stop_found ≡ err poll_error) × (all_readable us ≡ false))
      ⊎ (last : Option ℤ) × (scan_updates enrolled us best stop_found
          ≡ ok (last, any_stop enrolled us || stop_found))
        × (all_readable us ≡ true)
unfolding scan_updates
scan_finds enrolled nil best stop_found = inr (best, refl, refl)
scan_finds enrolled (cons u us) best stop_found = elim (read_cases u) [
  | inl (id, message, e) ↦
      elim (scan_finds enrolled us (some (raise_max best id))
        (is_stop_message enrolled message || stop_found)) [
          | inl (f, g) ↦ inl (rw e f, rw (e, all_readable) g)
          | inr (last, f, g) ↦ inr (last, rw e (ground (arith, f)), rw (e, all_readable) g)
        ]
  | inr e ↦ inl (rw e refl, rw (e, all_readable) refl)
]

scan_cons :
    (enrolled : ℕ) (u : Json) (us : Items) (best : Option ℤ) (stop_found : Bool) (id : ℤ)
    (message : Json)
    → read_update u ≡ ok (id, message)
    → scan_updates enrolled (cons u us) best stop_found
      ≡ scan_updates enrolled us
          (some (raise_max best id))
          (is_stop_message enrolled message || stop_found)
unfolding scan_updates
scan_cons enrolled u us best stop_found id message e = rw e refl

scan_error :
    (enrolled : ℕ) (u : Json) (us : Items) (best : Option ℤ) (stop_found : Bool)
    → read_update u ≡ err poll_error
    → scan_updates enrolled (cons u us) best stop_found ≡ err poll_error
unfolding scan_updates
scan_error enrolled u us best stop_found e = rw e refl

-- A scan from a largest id so far ends with an id that is at least that one and the id of every
-- update of the batch.
pub scan_bounds :
    (enrolled : ℕ) (us : Items) (best last : ℤ) (stop_found s : Bool)
    → scan_updates enrolled us (some best) stop_found ≡ ok (some last, s)
    → (best ≤ℤ last) × IdsTo last us
unfolding scan_updates
scan_bounds enrolled nil best last stop_found s h = ground arith
scan_bounds enrolled (cons u us) best last stop_found s h = elim (read_cases u) [
  | inl (id, message, e) ↦
      let rest =
        scan_bounds enrolled us (raise_max (some best) id) last
          (is_stop_message enrolled message || stop_found) s
          (sym (scan_cons enrolled u us (some best) stop_found id message e) ∙ h) in
      rw (e, IdsTo) (ground (arith, rest.0), (ground (arith, rest.0), rest.1))
  | inr e ↦ absurd (cc (sym (scan_error enrolled u us (some best) stop_found e) ∙ h))
]

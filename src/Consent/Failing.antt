-- ===== src/Consent/Failing.antt =====
-- The errors of `poll_inbound_stop` (src/personal_voice_msg/consent.py).
use personal_voice_msg.Prelude.{
  ◌≡◌, refl, ap, ◌⊎◌, inl, inr, Bool, not, Option, none, some, if◌then◌else◌,
}
use personal_voice_msg.Prelude.Int.{ℤ}
use personal_voice_msg.Exec.{Error, Result, ok, err, poll_error, value_error, pure}
use personal_voice_msg.Exec.Ends.{
  Ends, Outcome, Ends-bind, Ends-then, Ends-lift, Ends-gets, Ends-if, Ends-pure, Ends-modify,
  Ends-transaction,
}
use personal_voice_msg.Scheduling.{Datetime, aware, naive}
use personal_voice_msg.Database.States.{DisableReason, stop_command}
use personal_voice_msg.Database.RecipientKey.{timestamp_of}
use personal_voice_msg.Database.Schema.{Db}
use personal_voice_msg.Database.Control.{
  enabled_of, disable_sending, set_telegram_inbound_offset, is_sending_enabled,
  get_telegram_inbound_offset,
}
use personal_voice_msg.World.{Platform, Settings, Tick, World, on_db}
use personal_voice_msg.World.Runs.{Ends-on_db}
use personal_voice_msg.Consent.{store_offset, poll_inbound_stop}

timestamp_error : (now : Datetime) (e : Error) → timestamp_of now ≡ err e → e ≡ value_error
unfolding timestamp_of
timestamp_error (aware t) e h = cc
timestamp_error (naive t) e h = cc

-- An error that is not the poll's own, or the world as it was.
abbrev Harmless : World → Error → World → Type 0
Harmless w e t = (t ≡ w) ⊎ (e ≡ value_error)

disable_errors :
    (reason : DisableReason) (now : Datetime) (db : Db)
    → Ends (disable_sending reason now) db (λ _ _. Unit) (λ e _. e ≡ value_error)
unfolding disable_sending
disable_errors reason now db = Ends-bind _ _ db (
    Ends-lift _ db
      (λ timestamp _. Ends-transaction _ db (
        Ends-bind _ _ db (
          Ends-gets _ db (
            Ends-if (not (enabled_of db.control)) _ _ db (λ _. Ends-pure _ db tt)
              (λ _. Ends-modify _ db tt)))))
      (λ e h. timestamp_error now e h))

offset_errors :
    (offset : ℤ) (now : Datetime) (db : Db)
    → Ends (set_telegram_inbound_offset offset now) db (λ _ _. Unit) (λ e _. e ≡ value_error)
unfolding set_telegram_inbound_offset
offset_errors offset now db = Ends-bind _ _ db (
    Ends-lift _ db (λ timestamp _. Ends-transaction _ db (Ends-modify _ db tt))
      (λ e h. timestamp_error now e h))

store_errors :
    (o : Option ℤ) (now : Datetime) (w : World)
    → Ends (store_offset o now) w (λ _ _. Unit) (λ e _. e ≡ value_error)
unfolding store_offset
store_errors none now w = Ends-pure _ w tt
store_errors (some offset) now w = Ends-on_db _ w (offset_errors offset now w.db)

module _ (p : Platform) (settings : Settings) (tick : Tick) (w : World) where
  stopped_errors :
      (found : Bool) (u : World)
      → Ends
          (if found then on_db (disable_sending stop_command tick.now) else pure tt)
          u
          (λ _ _. Unit)
          (λ e _. e ≡ value_error)
  stopped_errors found u =
      Ends-if found _ _ u (λ _. Ends-on_db _ u (disable_errors stop_command tick.now u.db))
        (λ _. Ends-pure _ u tt)

  poll-Harmless : Ends (poll_inbound_stop p settings tick) w (λ _ _. Unit) (Harmless w)
  unfolding poll_inbound_stop get_telegram_inbound_offset is_sending_enabled
  poll-Harmless = Ends-bind _ _ w (
      Ends-on_db _ w (
        Ends-gets _ w.db (
          Ends-bind _ _ w (
            Ends-lift _ w
              (λ body _. Ends-bind _ _ w (
                Ends-lift _ w
                  (λ payload _. Ends-bind _ _ w (
                    Ends-lift _ w
                      (λ found _.
                        Ends-then _ _ w (stopped_errors found.1 w)
                          (λ _ t _.
                            Ends-then _ _ t (store_errors found.0 tick.now t)
                              (λ _ u _.
                                Ends-bind _ _ u
                                  (Ends-on_db _ u (Ends-gets _ u.db (Ends-pure _ u tt))))
                              (λ e u h. inr h))
                          (λ e t h. inr h))
                      (λ e _. inl refl)))
                  (λ e _. inl refl)))
              (λ e _. inl refl)))))

  Harmless-end :
      (r : Result Bool) (t u : World)
      → Outcome (λ _ _. Unit) (Harmless w) r t
      → r ≡ err poll_error
      → t ≡ u
      → u ≡ w
  Harmless-end (ok a) t u h e s = cc (e)
  Harmless-end (err x) t u (inl same) e s = cc (same, s)
  Harmless-end (err x) t u (inr value) e s = cc (e, value)

  -- A poll that ends with its own error, the one that the entrypoint lets pass, has changed
  -- nothing: no offset is stored, and no STOP is acted on.
  pub poll_error_harmless :
      (t : World) → poll_inbound_stop p settings tick w ≡ (err poll_error, t) → t ≡ w
  poll_error_harmless t h =
      Harmless-end (poll_inbound_stop p settings tick w).0 (poll_inbound_stop p settings tick w).1 t
        poll-Harmless.at (ap (λ (r : Result Bool × World). r.0) h)
        (ap (λ (r : Result Bool × World). r.1) h)

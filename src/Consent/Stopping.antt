-- ===== src/Consent/Stopping.antt =====
-- `poll_inbound_stop` (src/personal_voice_msg/consent.py) and the sending switch.
use personal_voice_msg.Prelude.{ℕ, ◌≡◌, refl, ap, Bool, true, false, not, Option, none, some, arith}
use personal_voice_msg.Prelude.Text.{Bytes}
use personal_voice_msg.Prelude.Int.{ℤ}
use personal_voice_msg.Prelude.Json.{Json}
use personal_voice_msg.Exec.{Error, ok, err, Exec, pure, ◌>>=◌}
use personal_voice_msg.Exec.Ends.{
  Ends, Ends-pure, Ends-bind, Ends-then, Ends-if, Ends-weaken, Ends-lift, Ends-gets, Ends-modify,
  Ends-transaction,
}
use personal_voice_msg.Exec.Keeps.{
  Keeps, Ends_of_Keeps, Keeps-bind, Keeps-lift, Keeps-if, Keeps-pure, Keeps-gets, Keeps-modify,
  Keeps-transaction,
}
use personal_voice_msg.Scheduling.{Datetime, aware}
use personal_voice_msg.Database.States.{DisableReason, stop_command}
use personal_voice_msg.Database.Schema.{Db}
use personal_voice_msg.Database.RecipientKey.{timestamp_of}
use personal_voice_msg.Database.Control.{
  enabled_of, is_sending_enabled, disable_sending, set_telegram_inbound_offset,
  get_telegram_inbound_offset, offset_of,
}
use personal_voice_msg.World.{Platform, Settings, Tick, World, on_db}
use personal_voice_msg.World.Runs.{Ends-on_db}
use personal_voice_msg.Consent.{
  received_body, parse_getupdates_body, process_updates, store_offset, poll_inbound_stop,
}
use personal_voice_msg.Delivery.KillSwitch.{IsStopped, Halted}

abbrev Off : Db → Type 0
Off db = enabled_of db.control ≡ false

disable_sending-Off :
    (reason : DisableReason) (now : Datetime) → Keeps Off (disable_sending reason now)
unfolding disable_sending
disable_sending-Off reason now = Keeps-bind _ _ (Keeps-lift _) λ ts. Keeps-transaction _ (
    Keeps-bind _ _ (Keeps-gets _)
      λ enabled. Keeps-if (not enabled) _ _ (Keeps-pure _) (Keeps-modify _ (λ s h. refl)))

set_offset-Off : (offset : ℤ) (now : Datetime) → Keeps Off (set_telegram_inbound_offset offset now)
unfolding set_telegram_inbound_offset
set_offset-Off offset now =
    Keeps-bind _ _ (Keeps-lift _) λ ts. Keeps-transaction _ (Keeps-modify _ (λ s h. h))

on_db-IsStopped :
    {A : Type 0} (w : World) (m : Exec Db A) → Keeps Off m → Keeps (IsStopped w) (on_db m)
unfolding on_db
on_db-IsStopped w m k = record {
  at = λ t h. record { disabled = k.at t.db h.disabled; outbox = h.outbox };
}

store_offset-IsStopped :
    (w : World) (o : Option ℤ) (now : Datetime) → Keeps (IsStopped w) (store_offset o now)
unfolding store_offset
store_offset-IsStopped w none now = Keeps-pure tt
store_offset-IsStopped w (some offset) now = on_db-IsStopped w _ (set_offset-Off offset now)

pub poll_inbound_stop-IsStopped :
    (p : Platform) (settings : Settings) (tick : Tick) (w : World)
    → Keeps (IsStopped w) (poll_inbound_stop p settings tick)
unfolding poll_inbound_stop is_sending_enabled get_telegram_inbound_offset
poll_inbound_stop-IsStopped p settings tick w =
    Keeps-bind _ _ (on_db-IsStopped w _ (Keeps-gets _)) λ offset.
      Keeps-bind _ _ (Keeps-lift _) λ body. Keeps-bind _ _ (Keeps-lift _) λ payload.
        Keeps-bind _ _ (Keeps-lift _) λ found.
          Keeps-bind _ _
            (Keeps-if found.1 _ _ (on_db-IsStopped w _ (disable_sending-Off stop_command tick.now))
              (Keeps-pure tt))
            λ _.
              Keeps-bind _ _ (store_offset-IsStopped w found.0 tick.now)
                λ _. Keeps-bind _ _ (on_db-IsStopped w _ (Keeps-gets _)) λ enabled. Keeps-pure _

-- `disable_sending` at an aware time returns, and leaves sending disabled.
disables :
    (reason : DisableReason) (t : ℕ) (db : Db)
    → Ends (disable_sending reason (aware t)) db (λ _ u. Off u) (λ _ u. ⊥)
unfolding disable_sending timestamp_of
disables reason t db = Ends-bind _ _ db (
    Ends-lift _ db
      (λ timestamp _. Ends-transaction _ db (
        Ends-bind _ _ db (
          Ends-gets _ db (
            Ends-if (not (enabled_of db.control)) _ _ db (λ off. Ends-pure _ db (ground arith))
              (λ _. Ends-modify _ db refl)))))
      (λ e h. cc))

-- The answer that the poll of this process reads holds a STOP of the enrolled chat.
pub record ReadsStop (p : Platform) (settings : Settings) (tick : Tick) (w : World) : Type 0 where
  pub body : Bytes
  pub payload : Json
  pub offset : Option ℤ
  pub received : received_body (tick.updates (offset_of w.db.inbound_offset)) ≡ ok body
  pub parsed : parse_getupdates_body (p.loads body) ≡ ok payload
  pub stop : process_updates payload settings.telegram_chat_id ≡ ok (offset, true)

module _ (p : Platform) (settings : Settings) (tick : Tick) (w : World) (t : ℕ)
    (on_time : tick.now ≡ aware t) (s : ReadsStop p settings tick w) where
  stopping : Ends (on_db (disable_sending stop_command tick.now)) w (Halted w) (Halted w)
  stopping = rw on_time (
      Ends-on_db _ w (
        Ends-weaken _ w.db (disables stop_command t w.db)
          (λ _ u _ off. record { disabled = off; outbox = refl }) (λ _ u _ never. absurd never)))

  is_parsed :
      (body : Bytes) (e : Error)
      → received_body (tick.updates (offset_of w.db.inbound_offset)) ≡ ok body
      → parse_getupdates_body (p.loads body) ≡ err e
      → ⊥
  is_parsed body e b q = let same : body ≡ s.body = cc (s.received, b) in cc (s.parsed, same, q)

  module _ (body : Bytes) (payload : Json)
      (b : received_body (tick.updates (offset_of w.db.inbound_offset)) ≡ ok body)
      (q : parse_getupdates_body (p.loads body) ≡ ok payload) where
    same_payload : payload ≡ s.payload
    same_payload = let same : body ≡ s.body = cc (s.received, b) in cc (s.parsed, same, q)

    is_read_at : (e : Error) → process_updates payload settings.telegram_chat_id ≡ err e → ⊥
    is_read_at e f = cc (s.stop, same_payload, f)

    is_stop_at :
        (found : Option ℤ × Bool)
        → process_updates payload settings.telegram_chat_id ≡ ok found
        → found.1 ≡ true
    is_stop_at found f =
        let same : found ≡ (s.offset, true) = cc (s.stop, same_payload, f) in
        ap (λ (r : Option ℤ × Bool). r.1) same

  rest-IsStopped :
      (o : Option ℤ)
      → Keeps (IsStopped w) (
          store_offset o tick.now >>= λ _.
          on_db is_sending_enabled >>= λ enabled. pure (not enabled))
  unfolding is_sending_enabled
  rest-IsStopped o =
      Keeps-bind _ _ (store_offset-IsStopped w o tick.now)
        λ _. Keeps-bind _ _ (on_db-IsStopped w _ (Keeps-gets _)) λ enabled. Keeps-pure _

  pub poll_stops : Ends (poll_inbound_stop p settings tick) w (Halted w) (Halted w)
  unfolding poll_inbound_stop get_telegram_inbound_offset
  poll_stops = Ends-bind _ _ w (
      Ends-on_db _ w (
        Ends-gets _ w.db (
          Ends-bind _ _ w (
            Ends-lift _ w
              (λ body b. Ends-bind _ _ w (
                Ends-lift _ w
                  (λ payload q. Ends-bind _ _ w (
                    Ends-lift _ w
                      (λ found f. rw (is_stop_at body payload b q found f) (
                        Ends-then _ _ w stopping
                          (λ _ u h. Ends_of_Keeps (IsStopped w) _ u (rest-IsStopped found.0) h)
                          (λ _ u h. h)))
                      (λ e f. absurd (is_read_at body payload b q e f))))
                  (λ e q. absurd (is_parsed body e b q))))
              (λ e b. absurd (cc (s.received, b)))))))

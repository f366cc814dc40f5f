-- ===== src/Consent/Effects.antt =====
-- The tables that `poll_inbound_stop` (src/personal_voice_msg/consent.py) does not write.
use personal_voice_msg.Prelude.{Option, none, some}
use personal_voice_msg.Prelude.Int.{ℤ}
use personal_voice_msg.Exec.Keeps.{Keeps, Keeps-bind, Keeps-lift, Keeps-if, Keeps-pure}
use personal_voice_msg.Scheduling.{Datetime}
use personal_voice_msg.Database.States.{stop_command}
use personal_voice_msg.Database.Control.Effects.{
  is_sending_enabled-HasTables, disable_sending-HasTables, set_offset-HasTables,
  get_offset-HasTables,
}
use personal_voice_msg.World.{Platform, Settings, Tick, World}
use personal_voice_msg.World.Quiet.{IsQuiet, on_db-IsQuiet}
use personal_voice_msg.Consent.{store_offset, poll_inbound_stop}

store_offset-IsQuiet :
    (w : World) (o : Option ℤ) (now : Datetime) → Keeps (IsQuiet w) (store_offset o now)
unfolding store_offset
store_offset-IsQuiet w none now = Keeps-pure tt
store_offset-IsQuiet w (some offset) now =
    on_db-IsQuiet w _ (set_offset-HasTables w.db.deliveries w.db.messages offset now)

pub poll_inbound_stop-IsQuiet :
    (p : Platform) (settings : Settings) (tick : Tick) (w : World)
    → Keeps (IsQuiet w) (poll_inbound_stop p settings tick)
unfolding poll_inbound_stop
poll_inbound_stop-IsQuiet p settings tick w =
    let ds = w.db.deliveries in
    let ms = w.db.messages in
    Keeps-bind _ _ (on_db-IsQuiet w _ (get_offset-HasTables ds ms)) λ offset.
      Keeps-bind _ _ (Keeps-lift _) λ body. Keeps-bind _ _ (Keeps-lift _) λ payload.
        Keeps-bind _ _ (Keeps-lift _) λ found.
          Keeps-bind _ _
            (Keeps-if found.1 _ _
              (on_db-IsQuiet w _ (disable_sending-HasTables ds ms stop_command tick.now))
              (Keeps-pure tt))
            λ _. Keeps-bind _ _ (store_offset-IsQuiet w found.0 tick.now) λ _.
              Keeps-bind _ _ (on_db-IsQuiet w _ (is_sending_enabled-HasTables ds ms))
                λ enabled. Keeps-pure _

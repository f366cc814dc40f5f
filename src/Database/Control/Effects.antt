-- ===== src/Database/Control/Effects.antt =====
-- The tables that the methods on the switch, the offset and the nonces do not write.
use personal_voice_msg.Prelude.{◌≡◌, ℕ, List, not}
use personal_voice_msg.Prelude.Text.{Text}
use personal_voice_msg.Prelude.Int.{ℤ}
use personal_voice_msg.Exec.Keeps.{
  Keeps, Keeps-if, Keeps-modify, Keeps-gets, Keeps-pure, Keeps-bind, Keeps-lift, Keeps-transaction,
  Keeps-raise_if, keeps_rules,
}
use personal_voice_msg.Scheduling.{Datetime}
use personal_voice_msg.Database.States.{DisableReason}
use personal_voice_msg.Database.Schema.{Message, Delivery, Db}
use personal_voice_msg.Database.Control.{
  disable_sending, enable_sending, set_telegram_inbound_offset, record_sender_nonce,
  is_sending_enabled, get_telegram_inbound_offset,
}

-- The two tables that a delivery stands in.
pub record HasTables (ds : List Delivery) (ms : List Message) (db : Db) : Type 0 where
  pub deliveries : db.deliveries ≡ ds
  pub messages : db.messages ≡ ms

module _ (ds : List Delivery) (ms : List Message) where
  abbrev Same : Db → Type 0
  Same = HasTables ds ms

  pub is_sending_enabled-HasTables : Keeps Same is_sending_enabled
  unfolding is_sending_enabled
  is_sending_enabled-HasTables = search keeps_rules

  pub disable_sending-HasTables :
      (reason : DisableReason) (now : Datetime) → Keeps Same (disable_sending reason now)
  unfolding disable_sending
  disable_sending-HasTables reason now = Keeps-bind _ _ (Keeps-lift _) λ ts. Keeps-transaction _ (
      Keeps-bind _ _ (Keeps-gets _) λ enabled.
        Keeps-if (not enabled) _ _ (Keeps-pure _)
          (Keeps-modify _ (λ s h. record { deliveries = h.deliveries; messages = h.messages })))

  pub enable_sending-HasTables :
      (note : Text) (now : Datetime) → Keeps Same (enable_sending note now)
  unfolding enable_sending
  enable_sending-HasTables note now = Keeps-bind _ _ (Keeps-raise_if _ _) λ _.
      Keeps-bind _ _ (Keeps-lift _) λ ts. Keeps-transaction _ (
        Keeps-bind _ _ (Keeps-gets _) λ enabled.
          Keeps-if enabled _ _ (Keeps-pure _)
            (Keeps-modify _ (λ s h. record { deliveries = h.deliveries; messages = h.messages })))

  pub set_offset-HasTables :
      (offset : ℤ) (now : Datetime) → Keeps Same (set_telegram_inbound_offset offset now)
  unfolding set_telegram_inbound_offset
  set_offset-HasTables offset now = Keeps-bind _ _ (Keeps-lift _) λ ts.
      Keeps-transaction _
        (Keeps-modify _ (λ s h. record { deliveries = h.deliveries; messages = h.messages }))

  pub get_offset-HasTables : Keeps Same get_telegram_inbound_offset
  unfolding get_telegram_inbound_offset
  get_offset-HasTables = search keeps_rules

  pub record_sender_nonce-HasTables :
      (key : Text) (timestamp : ℕ) (expires_at : Datetime)
      → Keeps Same (record_sender_nonce key timestamp expires_at)
  unfolding record_sender_nonce
  record_sender_nonce-HasTables key timestamp expires_at = Keeps-transaction _ (
      Keeps-bind _ _ (Keeps-lift _) λ expiry. Keeps-bind _ _ (Keeps-gets _) λ nonces.
        Keeps-bind _ _ (Keeps-raise_if _ _)
          λ _. Keeps-modify _ (λ s h. record { deliveries = h.deliveries; messages = h.messages }))

-- ===== src/Delivery/KillSwitch.antt =====
-- `run_daily_send` (src/personal_voice_msg/delivery.py) while sending is disabled.
use personal_voice_msg.Prelude.{ℕ, ◌≡◌, false, Option, none, some}
use personal_voice_msg.Prelude.Text.{Text}
use personal_voice_msg.Exec.Ends.{
  Ends, Ends-pure, Ends-read, Ends-bind, Ends-then, Ends-if, Ends-raise_if, Ends-gets, Ends-weaken,
}
use personal_voice_msg.Scheduling.{Zone}
use personal_voice_msg.Database.States.{sending, delivery_unknown, is}
use personal_voice_msg.Database.Control.{enabled_of, is_sending_enabled}
use personal_voice_msg.Database.Deliveries.Effects.{fetch_delivery_lem, record_delivery_attempt_lem}
use personal_voice_msg.Database.DeliveryReads.{get_delivery_updated_at}
use personal_voice_msg.World.{Platform, Settings, Tick, World}
use personal_voice_msg.World.Runs.{Ends-on_db}
use personal_voice_msg.Delivery.{Located, give_up_sending, resume_delivery, run_daily_send}
use personal_voice_msg.Delivery.Ticks.{locate_lem, send_window_open_lem}

-- Sending is disabled, and no note has been delivered since `w`.
pub record IsStopped (w t : World) : Type 0 where
  pub disabled : enabled_of t.db.control ≡ false
  pub outbox : t.outbox ≡ w.outbox

abbrev pub Halted : {A : Type 0} → World → A → World → Type 0
Halted w _ t = IsStopped w t

give_up_sending-IsStopped :
    (i : ℕ) (w t : World) → IsStopped w t → Ends (give_up_sending i) t (Halted w) (Halted w)
unfolding give_up_sending get_delivery_updated_at
give_up_sending-IsStopped i w t s =
    Ends-then _ _ t
      (Ends-on_db _ t
        (Ends-read _ _ t.db (fetch_delivery_lem i t.db) (λ d _. Ends-pure _ t.db s) (λ _. s)))
      (λ started u h.
        Ends-then _ _ u
          (Ends-on_db _ u (
            Ends-weaken _ u.db (record_delivery_attempt_lem i _ u.db delivery_unknown none)
              (λ _ v _ k. record { disabled = rw (k.3.control) h.disabled; outbox = h.outbox })
              (λ _ v _ e. rw e h)))
          (λ _ v k. Ends-pure _ v k) (λ _ v k. k))
      (λ _ u h. h)

module _ (p : Platform) (settings : Settings) (recipient_key : Text) (tick : Tick) where
  resume_delivery-IsStopped :
      (o : Option Located) (w t : World)
      → IsStopped w t
      → Ends (resume_delivery p settings recipient_key tick false o) t (Halted w) (Halted w)
  unfolding resume_delivery
  resume_delivery-IsStopped none w t s = Ends-pure _ t s
  resume_delivery-IsStopped (some f) w t s =
      Ends-if (is f.state sending) _ _ t (λ _. give_up_sending-IsStopped f.delivery_id w t s)
        (λ _. Ends-pure _ t s)

  -- A call of `run_daily_send` while sending is disabled delivers nothing and leaves it disabled.
  pub run_daily_send-IsStopped :
      (z : Zone) (date : ℕ) (w t : World)
      → IsStopped w t
      → Ends (run_daily_send z p settings recipient_key date tick) t (Halted w) (Halted w)
  unfolding run_daily_send is_sending_enabled
  run_daily_send-IsStopped z date w t s =
      Ends-then _ _ t (send_window_open_lem z date tick.now t)
        (λ _ u e.
          let h : IsStopped w u = rw e s in
          Ends-bind _ _ u (
            Ends-raise_if _ _ u
              (λ _. Ends-bind _ _ u (
                Ends-on_db _ u (
                  Ends-gets _ u.db (
                    rw (h.disabled) (
                      Ends-bind _ _ u (
                        Ends-pure _ u (
                          Ends-then _ _ u
                            (Ends-on_db _ u (
                              Ends-weaken _ u.db (locate_lem recipient_key date none u.db tt)
                                (λ f v _ k. rw (k.0) h) (λ _ v _ e. rw e h)))
                            (λ f v k. resume_delivery-IsStopped f w v k) (λ _ v k. k))))))))
              (λ _. h)))
        (λ _ u e. rw e s)

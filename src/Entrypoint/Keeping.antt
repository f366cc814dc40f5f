-- ===== src/Entrypoint/Keeping.antt =====
-- Predicates on the deliveries through `run_daily_entrypoint`
-- (src/personal_voice_msg/daily_send_entrypoint.py) and any number of processes.
use personal_voice_msg.Prelude.{ℕ, ◌≡◌, refl, Bool, not, Option, none, some, List, [], ◌∷◌}
use personal_voice_msg.Prelude.Text.{Text, Bytes}
use personal_voice_msg.Exec.{
  Result, ok, err, Exec, poll_error, sender_rejected, sender_blocked, sender_ambiguous,
}
use personal_voice_msg.Exec.Ends.{Ends-weaken}
use personal_voice_msg.Exec.Keeps.{
  Keeps, Keeps-of_Ends, Keeps-pure, Keeps-raise, Keeps-lift, Keeps-gets, Keeps-if, Keeps-raise_if,
  Keeps-bind, Keeps-attempt, keeps_rules,
}
use personal_voice_msg.Scheduling.{Datetime, aware, Zone}
use personal_voice_msg.Database.States.{
  MessageState, sending, sent, failed, delivery_unknown, reserved, audio_ready, blocked_by_user, is,
}
use personal_voice_msg.Database.Schema.{Message, Delivery, Db}
use personal_voice_msg.Database.RecipientKey.{recipient_key_for_chat_id}
use personal_voice_msg.Database.Messages.{fetch_message, get_message_text}
use personal_voice_msg.Database.Deliveries.{
  Reservation, fetch_delivery, reserve_next_message, transition_delivery, mark_audio_ready,
  record_delivery_attempt,
}
use personal_voice_msg.Database.DeliveryReads.{
  get_audio_data, get_delivery_for_date, get_delivery_state, get_delivery_updated_at,
  get_delivery_message_id,
}
use personal_voice_msg.Database.Control.{is_sending_enabled}
use personal_voice_msg.Database.Control.Effects.{HasTables, disable_sending-HasTables}
use personal_voice_msg.World.{Platform, Settings, Tick, World, on_db}
use personal_voice_msg.World.Quiet.{IsQuiet, IsQuiet-refl}
use personal_voice_msg.Sender.{send_voice_note}
use personal_voice_msg.Sender.Effects.{send_voice_note_lem}
use personal_voice_msg.Consent.Effects.{poll_inbound_stop-IsQuiet}
use personal_voice_msg.Delivery.{
  Located, instant, produce_voice_note, conclude, give_up_sending, send_ready, retry_failed,
  produce_reserved, advance, resume_delivery, existing_delivery, locate, send_window_open,
  run_daily_send,
}
use personal_voice_msg.Entrypoint.{pass_poll_error, run_daily_entrypoint, run_process}
use personal_voice_msg.Entrypoint.AtMostOnce.{Event, process, others_write, run_event, run_events}

-- A predicate on the deliveries that the methods that write them keep.
pub record KeepsDeliveries (P : Db → Type 0) : Type 0 where
  pub same : (db t : Db) → t.deliveries ≡ db.deliveries → P db → P t
  pub transition :
      (i : ℕ) (now : Datetime) (target : MessageState) → Keeps P (transition_delivery i target now)
  pub mark : (i : ℕ) (now : Datetime) (audio : Bytes) → Keeps P (mark_audio_ready i audio now)
  pub attempt :
      (i : ℕ) (now : Datetime) (outcome : MessageState) (id : Option Text)
      → Keeps P (record_delivery_attempt i outcome now id)
  pub reserve :
      (key : Text) (date : ℕ) (now : Datetime) → Keeps P (reserve_next_message key date now)

module _ {P : Db → Type 0} (kd : KeepsDeliveries P) where
  abbrev PIn : World → Type 0
  PIn w = P w.db

  quiet-Kept :
      {A : Type 0} (m : Exec Db A)
      → ((ds : List Delivery) (ms : List Message) → Keeps (HasTables ds ms) m)
      → Keeps P m
  quiet-Kept m k = record {
    at = λ s l.
        kd.same s (m s).1
          ((k s.deliveries s.messages).at s
            (record { deliveries = refl; messages = refl })).deliveries
          l;
  }

  on_db-Kept : {A : Type 0} (m : Exec Db A) → Keeps P m → Keeps PIn (on_db m)
  unfolding on_db
  on_db-Kept m k = record { at = λ w l. k.at w.db l }

  quiet_world-Kept :
      {A : Type 0} (m : Exec World A) → ((w : World) → Keeps (IsQuiet w) m) → Keeps PIn m
  quiet_world-Kept m k = record {
    at = λ w l. kd.same w.db (m w).1.db ((k w).at w (IsQuiet-refl w)).tables.deliveries l;
  }

  fetch_delivery-Kept : (i : ℕ) → Keeps P (fetch_delivery i)
  unfolding fetch_delivery
  fetch_delivery-Kept i = search keeps_rules

  get_audio_data-Kept : (i : ℕ) → Keeps P (get_audio_data i)
  unfolding get_audio_data
  get_audio_data-Kept i = search (keeps_rules, fetch_delivery-Kept)

  get_updated_at-Kept : (i : ℕ) → Keeps P (get_delivery_updated_at i)
  unfolding get_delivery_updated_at
  get_updated_at-Kept i = search (keeps_rules, fetch_delivery-Kept)

  get_message_text-Kept : (i : ℕ) → Keeps P (get_message_text i)
  unfolding get_message_text fetch_message
  get_message_text-Kept i = search keeps_rules

  existing_delivery-Kept : (o : Option ℕ) → Keeps P (existing_delivery o)
  unfolding existing_delivery get_delivery_message_id get_delivery_state
  existing_delivery-Kept none = Keeps-pure _
  existing_delivery-Kept (some i) =
      Keeps-bind _ _ (Keeps-bind _ _ (fetch_delivery-Kept i) λ d. Keeps-pure _) λ m.
        Keeps-bind _ _ (Keeps-bind _ _ (fetch_delivery-Kept i) λ d. Keeps-pure _) λ s. Keeps-pure _

  locate-Kept : (key : Text) (date : ℕ) (o : Option Reservation) → Keeps P (locate key date o)
  unfolding locate get_delivery_for_date
  locate-Kept key date (some r) = Keeps-pure _
  locate-Kept key date none = Keeps-bind _ _ (Keeps-gets _) λ o. existing_delivery-Kept o

  send_voice_note-Kept :
      (p : Platform) (settings : Settings) (audio : Bytes) (key : Text) (timestamp : ℕ)
      (signature : Text) (now : ℕ) (tick : Tick)
      → Keeps PIn (send_voice_note p settings audio key timestamp signature now tick)
  send_voice_note-Kept p settings audio key timestamp signature now tick = Keeps-of_Ends _ λ w l.
      Ends-weaken _ w (send_voice_note_lem p settings audio key timestamp signature now tick w)
        (λ _ t _ k. kd.same w.db t.db k.tables.deliveries l)
        (λ _ t _ k. kd.same w.db t.db k.tables.deliveries l)

  recorded :
      (i : ℕ) (outcome : MessageState) (now : Datetime) (id : Option Text)
      → Keeps PIn (on_db (record_delivery_attempt i outcome now id))
  recorded i outcome now id = on_db-Kept _ (kd.attempt i now outcome id)

  conclude-Kept : (i : ℕ) (now : Datetime) (r : Result Text) → Keeps PIn (conclude i now r)
  unfolding conclude
  conclude-Kept i now (err sender_blocked) =
      Keeps-bind _ _
        (on_db-Kept _ (quiet-Kept _ (λ ds ms. disable_sending-HasTables ds ms blocked_by_user now)))
        λ _. Keeps-bind _ _ (recorded i failed now none) λ _. Keeps-pure _
  conclude-Kept i now (err sender_rejected) =
      Keeps-bind _ _ (recorded i failed now none) λ _. Keeps-pure _
  conclude-Kept i now (err sender_ambiguous) =
      Keeps-bind _ _ (recorded i delivery_unknown now none) λ _. Keeps-pure _
  conclude-Kept i now (err e) = Keeps-raise _
  conclude-Kept i now (ok id) = Keeps-bind _ _ (recorded i sent now (some id)) λ _. Keeps-pure _

  give_up_sending-Kept : (i : ℕ) → Keeps PIn (give_up_sending i)
  unfolding give_up_sending
  give_up_sending-Kept i =
      Keeps-bind _ _ (on_db-Kept _ (get_updated_at-Kept i)) λ started.
        Keeps-bind _ _ (recorded i delivery_unknown (aware started) none) λ _. Keeps-pure _

  module _ (p : Platform) (settings : Settings) (key : Text) (tick : Tick) where
    send_ready-Kept : (i : ℕ) → Keeps PIn (send_ready p settings key tick i)
    unfolding send_ready
    send_ready-Kept i = Keeps-bind _ _ (Keeps-raise_if _ _) λ _.
        Keeps-bind _ _ (on_db-Kept _ (get_audio_data-Kept i)) λ audio.
          Keeps-bind _ _ (on_db-Kept _ (kd.transition i tick.now sending)) λ _.
            Keeps-bind _ _ (Keeps-attempt _ (send_voice_note-Kept p settings audio _ _ _ _ tick))
              λ r. conclude-Kept i tick.now r

    retry_failed-Kept :
        (i : ℕ) (s : MessageState) → Keeps PIn (retry_failed p settings key tick i s)
    unfolding retry_failed
    retry_failed-Kept i s =
        Keeps-if (is s failed) _ _
          (Keeps-bind _ _ (on_db-Kept _ (kd.transition i tick.now audio_ready)) λ _. Keeps-pure _)
          (Keeps-pure _)

    produce_reserved-Kept :
        (i m : ℕ) (s : MessageState) → Keeps PIn (produce_reserved p settings key tick i m s)
    unfolding produce_reserved produce_voice_note
    produce_reserved-Kept i m s =
        Keeps-if (is s reserved) _ _
          (Keeps-bind _ _ (on_db-Kept _ (get_message_text-Kept m)) λ text.
            Keeps-bind _ _
              (Keeps-bind _ _ (Keeps-lift _)
                λ audio. Keeps-bind _ _ (on_db-Kept _ (kd.mark i tick.now audio)) λ _. Keeps-pure _)
              λ _. Keeps-pure _)
          (Keeps-pure _)

    advance-Kept : (found : Located) → Keeps PIn (advance p settings key tick found)
    unfolding advance
    advance-Kept found = Keeps-bind _ _ (retry_failed-Kept found.delivery_id found.state) λ s.
        Keeps-if (is s delivery_unknown) _ _ (Keeps-pure _) (
          Keeps-bind _ _ (produce_reserved-Kept found.delivery_id found.message_id s) λ ready.
            Keeps-if (is ready audio_ready) _ _ (send_ready-Kept found.delivery_id) (Keeps-pure _))

    resume_delivery-Kept :
        (enabled : Bool) (o : Option Located)
        → Keeps PIn (resume_delivery p settings key tick enabled o)
    unfolding resume_delivery
    resume_delivery-Kept enabled none = Keeps-pure _
    resume_delivery-Kept enabled (some found) =
        Keeps-if (is found.state sending) _ _ (give_up_sending-Kept found.delivery_id)
          (Keeps-if (not enabled) _ _ (Keeps-pure _) (advance-Kept found))

  send_window_open-Kept :
      (z : Zone) (date : ℕ) (now : Datetime) → Keeps PIn (send_window_open z date now)
  unfolding send_window_open
  send_window_open-Kept z date now = search keeps_rules

  pass_poll_error-Kept : (r : Result Bool) → Keeps PIn (pass_poll_error r)
  unfolding pass_poll_error
  pass_poll_error-Kept (ok stopped) = Keeps-pure _
  pass_poll_error-Kept (err poll_error) = Keeps-pure _
  pass_poll_error-Kept (err _) = Keeps-raise _

  module _ (z : Zone) (p : Platform) (settings : Settings) where
    run_daily_send-Kept :
        (key : Text) (date : ℕ) (tick : Tick)
        → Keeps PIn (run_daily_send z p settings key date tick)
    unfolding run_daily_send is_sending_enabled
    run_daily_send-Kept key date tick =
        Keeps-bind _ _ (send_window_open-Kept z date tick.now) λ open_now.
          Keeps-bind _ _ (Keeps-raise_if _ _) λ _.
            Keeps-bind _ _ (on_db-Kept _ (Keeps-gets _)) λ enabled.
              Keeps-bind _ _
                (Keeps-if enabled _ _ (on_db-Kept _ (kd.reserve key date tick.now)) (Keeps-pure _))
                λ r.
                  Keeps-bind _ _ (on_db-Kept _ (locate-Kept key date r))
                    λ found. resume_delivery-Kept p settings key tick enabled found

    entrypoint-Kept :
        (key : Text) (date : ℕ) (tick : Tick)
        → Keeps PIn (run_daily_entrypoint z p settings key date tick)
    unfolding run_daily_entrypoint
    entrypoint-Kept key date tick =
        Keeps-bind _ _ (send_window_open-Kept z date tick.now) λ open_now.
          Keeps-if (not open_now) _ _ (Keeps-pure _) (
            Keeps-bind _ _
              (Keeps-attempt _
                (quiet_world-Kept _ (λ w. poll_inbound_stop-IsQuiet p settings tick w)))
              λ polled.
                Keeps-bind _ _ (pass_poll_error-Kept polled)
                  λ _. Keeps-bind _ _ (run_daily_send-Kept key date tick) λ s. Keeps-pure _)

    pub run_events-Kept : (es : List Event) (w : World) → PIn w → PIn (run_events z p settings es w)
    unfolding run_events run_event run_process
    run_events-Kept [] w l = l
    run_events-Kept (process tick ∷ es) w l = run_events-Kept es _ (
        (entrypoint-Kept (recipient_key_for_chat_id settings.telegram_chat_id)
            (z.date_of (instant tick.now)) tick).at
          w l)
    run_events-Kept (others_write db ∷ es) w l = run_events-Kept es _ (kd.same w.db _ refl l)

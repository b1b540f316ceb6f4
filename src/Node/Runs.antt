-- ===== src/Node/Runs.antt =====
-- The node as a whole: turns of the loop of project/main/main.c, and the events of
-- functional_module/lora/ESP32_sx1262_LoRaWAN.c between them, in any order.
use sufficient_io_t_applicat.Base.{
  if◌then◌else◌, not, ◌≡◌, ◌⊎◌, inl, inr, Bool, true, false, not, some, [], arith, if◌then◌else◌,
  Access, Access-cases,
}
use sufficient_io_t_applicat.Node.{Env, Config, App, DeviceState}
use sufficient_io_t_applicat.Node.Uplink.{send, send_frame, restore_class, lwan_dev_params_update}
use sufficient_io_t_applicat.Node.Payload.{prepare_tx_frame}
use sufficient_io_t_applicat.Node.Payload.Keeps.{prepare_tx_frame-Keeps}
use sufficient_io_t_applicat.Node.Session.{init, start_mac, join, personalise, cycle}
use sufficient_io_t_applicat.Node.Events.{
  McpsType, request_join, on_tx_next_packet_timer_event, mcps_confirm, mcps_indication,
  mlme_confirm, mlme_indication, confirm_mlme, McpsIndication, MlmeConfirm, MlmeType,
}
use sufficient_io_t_applicat.Node.Loop.{runs, turn, send_turn, cycle_turn}
use sufficient_io_t_applicat.Node.Starts.{mac_first}

abbrev pub is_init : DeviceState → Bool
is_init DeviceState.init = true
is_init _ = false

-- What calls the application back, once `init` has handed the callbacks to the MAC layer and the timer.
pub data Event (env : Env) (config : Config) : App → App → Type 0 where
  timer_ended : (s : App) → Event env config s (on_tx_next_packet_timer_event env config s)
  mcps_confirmed : (s : App) → Event env config s (mcps_confirm env config s)
  mcps_indicated :
      (m : McpsIndication) (s : App) → Event env config s (mcps_indication env config m s)
  mlme_confirmed : (m : MlmeConfirm) (s : App) → Event env config s (mlme_confirm env config m s)
  mlme_indicated : (m : MlmeType) (s : App) → Event env config s (mlme_indication env config m s)

pub data Step (env : Env) (config : Config) : App → App → Type 0 where
  turned : {s t : App} → turn env config s ≡ runs t → Step env config s t
  called_back :
      {s t : App} → is_init s.device_state ≡ false → Event env config s t → Step env config s t

-- The states that a node gets to.
pub data Reaches (env : Env) (config : Config) (s : App) : App → Type 0 where
  at_start : Reaches env config s s
  and_then : {t u : App} → Reaches env config s t → Step env config t u → Reaches env config s u

-- Before `init` nothing was called; after it, the MAC layer was initialised once, before all else.
pub record IsStarted (s : App) : Type 0 where
  pub left : is_init s.device_state ≡ false
  pub ordered : mac_first s.calls ≡ true

abbrev pub IsSound : App → Type 0
IsSound s = ((s.device_state ≡ DeviceState.init) × (s.calls ≡ [])) ⊎ IsStarted s

module _ (env : Env) (config : Config) where
  init-IsStarted :
      (s : App) {t : App}
      → s.calls ≡ []
      → init env config config.lorawan_region s ≡ some t
      → IsStarted t
  unfolding init start_mac
  init-IsStarted s fresh e = ground (arith, fresh)

  join-IsStarted : (s : App) → IsStarted s → IsStarted (join env config s)
  unfolding join request_join personalise
  join-IsStarted s w = ground (arith, w)

  send_turn-IsStarted :
      (s : App) {t : App} → IsStarted s → send_turn env config s ≡ runs t → IsStarted t
  unfolding send_turn send send_frame restore_class lwan_dev_params_update
  send_turn-IsStarted s {t} w e = elim (Access-cases prepared) [
    | inl bad ↦ ground arith
    | inr (p, good) ↦
        let kept = prepare_tx_frame-Keeps env config s.app_port config.data_selection s good in
        ground (arith, kept, w)
  ]
    where
      prepared : Access App
      prepared = prepare_tx_frame env config s.app_port config.data_selection s

  cycle_turn-IsStarted : (s : App) → IsStarted s → IsStarted (cycle_turn env config s)
  unfolding cycle_turn cycle
  cycle_turn-IsStarted s w = ground (arith, w)

  timer_event-IsStarted :
      (s : App) → IsStarted s → IsStarted (on_tx_next_packet_timer_event env config s)
  unfolding on_tx_next_packet_timer_event request_join
  timer_event-IsStarted s w = ground (arith, w)

  either-IsStarted :
      {s t : App} (b : Bool) → IsStarted s → IsStarted t → IsStarted (if b then s else t)
  either-IsStarted true w w' = w
  either-IsStarted false w w' = w'

  confirmed-IsStarted :
      (kind : McpsType) (s : App)
      → IsStarted s
      → IsStarted
          (elim kind [ McpsType.confirmed ↦ on_tx_next_packet_timer_event env config s | _ ↦ s ])
  confirmed-IsStarted McpsType.unconfirmed s w = w
  confirmed-IsStarted McpsType.confirmed s w = timer_event-IsStarted s w
  confirmed-IsStarted McpsType.proprietary s w = w
  confirmed-IsStarted McpsType.multicast s w = w
  confirmed-IsStarted McpsType.other_mcps s w = w

  mcps_indication-IsStarted :
      (m : McpsIndication) (s : App) → IsStarted s → IsStarted (mcps_indication env config m s)
  unfolding mcps_indication
  mcps_indication-IsStarted m s w =
      let received = confirmed-IsStarted m.kind s w in
      let acked =
        either-IsStarted m.ack_received
          (record { left = received.left; ordered = received.ordered }) received in
      let handled =
        either-IsStarted m.rx_data (record { left = acked.left; ordered = acked.ordered }) acked in
      let flushed = either-IsStarted m.frame_pending (timer_event-IsStarted _ handled) handled in
      either-IsStarted (not m.status_ok) w flushed

  turn-IsSound : (s : App) {t : App} → IsSound s → turn env config s ≡ runs t → IsSound t
  unfolding turn
  turn-IsSound s {t} (inl (at_init, fresh)) e =
      inr (init-IsStarted s fresh (ground (arith, at_init)))
  turn-IsSound s {t} (inr w) e = inr (
      ground
        (arith, w, join-IsStarted s w, send_turn-IsStarted s {t = t} w, cycle_turn-IsStarted s w))

  Event-IsStarted : {s t : App} → IsStarted s → Event env config s t → IsStarted t
  unfolding mcps_confirm mcps_indication mlme_confirm confirm_mlme mlme_indication
  Event-IsStarted w (timer_ended s) = timer_event-IsStarted s w
  Event-IsStarted w (mcps_confirmed s) = ground (arith, w)
  Event-IsStarted w (mcps_indicated m s) = mcps_indication-IsStarted m s w
  Event-IsStarted w (mlme_confirmed m s) = ground (arith, w)
  Event-IsStarted w (mlme_indicated MlmeType.schedule_uplink s) = timer_event-IsStarted s w
  Event-IsStarted w (mlme_indicated MlmeType.join s) = w
  Event-IsStarted w (mlme_indicated MlmeType.link_check s) = w
  Event-IsStarted w (mlme_indicated MlmeType.device_time s) = w
  Event-IsStarted w (mlme_indicated MlmeType.other_mlme s) = w

  Step-IsSound : {s t : App} → IsSound s → Step env config s t → IsSound t
  Step-IsSound {s} w (turned e) = turn-IsSound s w e
  Step-IsSound (inl (at_init, fresh)) (called_back later event) =
      absurd (ground (arith, at_init, later))
  Step-IsSound (inr w) (called_back later event) = inr (Event-IsStarted w event)

  -- Whatever turns of the loop and events of the MAC layer and the timer follow one another from
  -- a node at its start, with events only after init: either the node is still at its start and
  -- has called nothing, or its first call, and no other, initialised the MAC layer.
  pub Reaches-IsSound :
      {s t : App}
      → s.device_state ≡ DeviceState.init
      → s.calls ≡ []
      → Reaches env config s t
      → IsSound t
  Reaches-IsSound at_init fresh at_start = inl (at_init, fresh)
  Reaches-IsSound at_init fresh (and_then before step) =
      Step-IsSound (Reaches-IsSound at_init fresh before) step

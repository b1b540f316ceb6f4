-- ===== src/Node/Events.antt =====
-- What the MAC layer and the timer call back: the event functions of
-- functional_module/lora/ESP32_sx1262_LoRaWAN.c.
use sufficient_io_t_applicat.Base.{Bool, true, false, not, none, some, if◌then◌else◌}
use sufficient_io_t_applicat.Node.{Env, Config, App, JoinReq, DeviceState, Call, call}

-- The join request of `OnTxNextPacketTimerEvent` and `join`.
unfoldable pub join_request : Config → JoinReq
join_request config = record {
  dev_eui = config.dev_eui;
  app_eui = config.app_eui;
  app_key = config.app_key;
  trials = 1;
}

-- `McpsIndication_t`: whether its status is OK, and the fields that are read.
pub data McpsType : Type 0 where
  unconfirmed confirmed proprietary multicast other_mcps : McpsType

pub record McpsIndication : Type 0 where
  pub status_ok : Bool
  pub kind : McpsType
  pub ack_received : Bool
  pub rx_data : Bool
  pub frame_pending : Bool

-- `MlmeConfirm_t` and the type of `MlmeIndication_t`.
pub data MlmeType : Type 0 where
  join link_check device_time schedule_uplink other_mlme : MlmeType

pub record MlmeConfirm : Type 0 where
  pub request : MlmeType
  pub status_ok : Bool

module _ (env : Env) (config : Config) where
  unfoldable pub request_join : App → App
  unfolding join_request
  request_join s =
      let req = join_request config in
      let asked = call (Call.mlme_request req) s in
      if env.join_accepted s.calls req
      then record asked { device_state = DeviceState.sleep }
      else record asked { device_state = DeviceState.cycle }

  unfoldable pub on_tx_next_packet_timer_event : App → App
  unfolding request_join
  on_tx_next_packet_timer_event s =
      let stopped = call Call.timer_stop s in
      let asked = call Call.mib_get_joined stopped in
      elim (env.joined stopped.calls) [
        | none ↦ asked
        | some true ↦ record asked { device_state = DeviceState.send; next_tx = true }
        | some false ↦ request_join asked
      ]

  -- Both branches of the `switch` on the status and the type do nothing.
  unfoldable pub mcps_confirm : App → App
  mcps_confirm s = record s { next_tx = true }

  unfoldable pub mcps_indication : McpsIndication → App → App
  unfolding on_tx_next_packet_timer_event
  mcps_indication m s =
      let received : App = elim m.kind [
        | McpsType.confirmed ↦ on_tx_next_packet_timer_event s
        | _ ↦ s
      ] in
      let acked = if m.ack_received then call Call.ack_handle received else received in
      let handled = if m.rx_data then call Call.data_handle acked else acked in
      let flushed = if m.frame_pending then on_tx_next_packet_timer_event handled else handled in
      if not m.status_ok then s else flushed

  -- What `MlmeConfirm` does before it sets `nextTx`.
  unfoldable pub confirm_mlme : MlmeConfirm → App → App
  confirm_mlme m s = elim m.request [
    | MlmeType.join ↦
        if m.status_ok
        then if not config.passthrough_mode then record s { device_state = DeviceState.send } else s
        else call Call.timer_start (call (Call.timer_set_value 30000) s)
    | MlmeType.device_time ↦ if m.status_ok then call Call.time_updated s else s
    | _ ↦ s
  ]

  unfoldable pub mlme_confirm : MlmeConfirm → App → App
  unfolding confirm_mlme
  mlme_confirm m s = let confirmed = confirm_mlme m s in record confirmed { next_tx = true }

  unfoldable pub mlme_indication : MlmeType → App → App
  unfolding on_tx_next_packet_timer_event
  mlme_indication MlmeType.schedule_uplink s = on_tx_next_packet_timer_event s
  mlme_indication _ s = s

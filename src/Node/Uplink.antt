-- ===== src/Node/Uplink.antt =====
-- Uplinks: `lwan_dev_params_update`, `SendFrame` and `send` of
-- functional_module/lora/ESP32_sx1262_LoRaWAN.c. No REGION_ macro is defined in the build, so that
-- `lwan_dev_params_update` adds no channels.
pub mod Requests
use sufficient_io_t_applicat.Base.{Bool, true, false, not, if◌then◌else◌}
use sufficient_io_t_applicat.Node.{Env, Config, App, DeviceClass, McpsReq, Mib, Call, call}

abbrev pub same_class : DeviceClass → DeviceClass → Bool
same_class DeviceClass.class_a DeviceClass.class_a = true
same_class DeviceClass.class_b DeviceClass.class_b = true
same_class DeviceClass.class_c DeviceClass.class_c = true
same_class _ _ = false

module _ (env : Env) (config : Config) where
  unfoldable pub lwan_dev_params_update : App → App
  lwan_dev_params_update s =
      call (Call.mib_set (Mib.channels_mask config.user_channels_mask))
        (call (Call.mib_set (Mib.channels_default_mask config.user_channels_mask)) s)

  -- The request that `SendFrame` makes up when the MAC layer says whether the payload fits.
  unfoldable pub frame_request : Bool → App → McpsReq
  frame_request fits s =
      let datarate = env.current_dr_for_no_adr s.calls in
      if not fits
      then McpsReq.empty datarate
      else if not config.is_tx_confirmed
      then McpsReq.unconfirmed s.app_port s.app_data s.app_data_size datarate
      else McpsReq.confirmed s.app_port s.app_data s.app_data_size config.confirmed_nb_trials
          datarate

  -- `true` is an error: the request was refused.
  unfoldable pub send_frame : App → Bool × App
  unfolding lwan_dev_params_update frame_request
  send_frame s =
      let updated = lwan_dev_params_update s in
      let asked = call (Call.query_tx_possible s.app_data_size) updated in
      let req = frame_request (env.tx_possible updated.calls s.app_data_size) asked in
      (not (env.mcps_accepted asked.calls req), call (Call.mcps_request req) asked)

  -- The class that the MAC layer has is set again where it differs from the configured one.
  unfoldable pub restore_class : App → App
  restore_class s =
      let asked = call Call.mib_get_class s in
      if not (same_class config.lorawan_class (env.current_class s.calls))
      then call (Call.mib_set (Mib.device_class config.lorawan_class)) asked
      else asked

  unfoldable pub send : App → App
  unfolding send_frame restore_class
  send s =
      let (refused, sent) = send_frame (restore_class s) in
      if s.next_tx then record sent { next_tx = refused } else s

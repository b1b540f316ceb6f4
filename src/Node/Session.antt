-- ===== src/Node/Session.antt =====
-- Starting and joining: `init`, `join` and `cycle` of
-- functional_module/lora/ESP32_sx1262_LoRaWAN.c.
pub mod Joining
use sufficient_io_t_applicat.Base.{
  ℕ, Bool, true, false, ◌||◌, Option, none, some, List, [], ◌∷◌, ◌==◌, if◌then◌else◌,
}
use sufficient_io_t_applicat.Node.Region
use sufficient_io_t_applicat.Node.{Env, Config, App, DeviceState, Mib, Call, call}
use sufficient_io_t_applicat.Node.Uplink.{lwan_dev_params_update, restore_class}
use sufficient_io_t_applicat.Node.Events.{request_join}

-- The `case` labels of the `switch` in `init`: for any other region the program exits.
abbrev pub known_regions : List ℕ
known_regions =
    Region.as923_as1 ∷ Region.as923_as2 ∷ Region.as923 ∷ Region.au915 ∷ Region.cn470 ∷ Region.cn779
    ∷ Region.eu433 ∷ Region.eu868 ∷ Region.kr920 ∷ Region.in865 ∷ Region.us915 ∷ Region.us915_hybrid
    ∷ []

unfoldable pub is_known : ℕ → List ℕ → Bool
is_known region [] = false
is_known region (label ∷ labels) = region == label || is_known region labels

-- Both sub-bands of AS923 are that region for the MAC layer.
unfoldable pub mac_region : ℕ → ℕ
mac_region region =
    if region == Region.as923_as1 || region == Region.as923_as2 then Region.as923 else region

module _ (env : Env) (config : Config) where
  -- `init` behind its `switch`.
  unfoldable pub start_mac : ℕ → App → App
  unfolding mac_region lwan_dev_params_update restore_class
  start_mac region s =
      let started = call (Call.mac_initialization (mac_region region)) s in
      let timed = call Call.timer_init (call Call.timer_stop started) in
      let opened =
        call (Call.mib_set (Mib.public_network true))
          (call (Call.mib_set (Mib.adr config.lorawan_adr)) timed) in
      let classed = restore_class env config (lwan_dev_params_update env config opened) in
      record classed { device_state = DeviceState.join }

  -- `none` is `exit(1)`.
  unfoldable pub init : ℕ → App → Option App
  unfolding is_known start_mac
  init region s = if is_known region known_regions then some (start_mac region s) else none

  -- The settings of a node that is activated by personalisation, in their order.
  unfoldable pub personalise : App → App
  personalise s = call (Call.mib_set (Mib.network_joined true)) (
      call (Call.mib_set (Mib.app_skey config.app_skey)) (
        call (Call.mib_set (Mib.nwk_skey config.nwk_skey)) (
          call (Call.mib_set (Mib.dev_addr config.dev_addr))
            (call (Call.mib_set (Mib.net_id 0)) s))))

  unfoldable pub join : App → App
  unfolding request_join personalise
  join s =
      if config.over_the_air_activation
      then request_join env config s
      else (let set = personalise s in record set { device_state = DeviceState.send })

-- `cycle`
unfoldable pub cycle : ℕ → App → App
cycle duty_cycle s = call Call.timer_start (call (Call.timer_set_value duty_cycle) s)

-- ===== src/Node.antt =====
-- The node's application: the state of functional_module/lora/ESP32_sx1262_LoRaWAN.c and
-- project/main/main.c, and the calls that leave it.
-- The MAC layer, the timers, the fifo and the sensors lie outside: a call of them is put down in
-- `calls`, the newest first, and `Env` says what each of them answers after a given history.
pub mod Region
pub mod Uplink
pub mod Events
pub mod Session
pub mod Payload
pub mod Loop
pub mod Samples
pub mod Starts
pub mod Runs
mod Tests
use sufficient_io_t_applicat.Base.{ℕ, Bool, Option, List, ◌∷◌}

-- `enum eDeviceState_LoraWan`
pub data DeviceState : Type 0 where
  init join send cycle sleep : DeviceState

-- `DeviceClass_t`
pub data DeviceClass : Type 0 where
  class_a class_b class_c : DeviceClass

-- `McpsReq_t` as `SendFrame` fills it. In the frame without a payload the port is left unset.
pub data McpsReq : Type 0 where
  empty : (datarate : ℕ) → McpsReq
  unconfirmed : (port : ℕ) (buffer : List ℕ) (size datarate : ℕ) → McpsReq
  confirmed : (port : ℕ) (buffer : List ℕ) (size trials datarate : ℕ) → McpsReq

-- `MlmeReq_t` of the type MLME_JOIN.
pub record JoinReq : Type 0 where
  pub dev_eui : List ℕ
  pub app_eui : List ℕ
  pub app_key : List ℕ
  pub trials : ℕ

-- `MibRequestConfirm_t` as it is set.
pub data Mib : Type 0 where
  adr : Bool → Mib
  public_network : Bool → Mib
  channels_default_mask : List ℕ → Mib
  channels_mask : List ℕ → Mib
  device_class : DeviceClass → Mib
  net_id : ℕ → Mib
  dev_addr : ℕ → Mib
  nwk_skey : List ℕ → Mib
  app_skey : List ℕ → Mib
  network_joined : Bool → Mib

-- The calls that leave the application.
pub data Call : Type 0 where
  query_tx_possible : ℕ → Call
  mcps_request : McpsReq → Call
  mlme_request : JoinReq → Call
  mib_set : Mib → Call
  mib_get_class : Call
  mib_get_joined : Call
  mac_initialization : ℕ → Call
  timer_init timer_stop timer_start : Call
  timer_set_value : ℕ → Call
  ack_handle data_handle time_updated : Call
  fifo_read sensor_read : Call

abbrev pub History : Type 0
History = List Call

-- The answers of what lies outside. The MAC layer's statuses count as OK or not.
pub record Env : Type 0 where
  -- `LoRaMacQueryTxPossible` is LORAMAC_STATUS_OK.
  pub tx_possible : History → ℕ → Bool
  -- `LoRaMacMcpsRequest` is LORAMAC_STATUS_OK.
  pub mcps_accepted : History → McpsReq → Bool
  -- `LoRaMacMlmeRequest` is LORAMAC_STATUS_OK.
  pub join_accepted : History → JoinReq → Bool
  pub current_class : History → DeviceClass
  -- MIB_NETWORK_JOINED: `none` is a status other than OK, which the code looks for and this library never
  -- gives for this attribute.
  pub joined : History → Option Bool
  -- `currentDrForNoAdr`, which the MAC layer writes
  pub current_dr_for_no_adr : History → ℕ
  -- `read` of the fifo: `none` is -1, else the bytes that it stored.
  pub fifo_bytes : History → Option (List ℕ)
  -- `(uint16_t)(x*100)` for what a sensor measured: `none` where `x*100` has no value in uint16_t,
  -- which C leaves undefined.
  pub hdc1080_temperature : History → Option ℕ
  pub hdc1080_humidity : History → Option ℕ
  pub bmp180_temperature : History → Option ℕ
  pub bmp180_altitude : History → Option ℕ
  -- `(uint32_t)bmp180_pressure`
  pub bmp180_pressure : History → ℕ

-- `data_selection_num`; the configuration may hold another number.
pub data DataSelection : Type 0 where
  fixed_data mkfifo_data hdc1080_data bmp180_data other_data : DataSelection

-- The globals that only `read_config` writes.
pub record Config : Type 0 where
  pub lorawan_class : DeviceClass
  pub lorawan_region : ℕ
  pub over_the_air_activation : Bool
  pub lorawan_adr : Bool
  pub is_tx_confirmed : Bool
  pub confirmed_nb_trials : ℕ
  pub passthrough_mode : Bool
  pub app_tx_duty_cycle : ℕ
  pub dev_eui : List ℕ
  pub app_eui : List ℕ
  pub app_key : List ℕ
  pub nwk_skey : List ℕ
  pub app_skey : List ℕ
  pub dev_addr : ℕ
  pub user_channels_mask : List ℕ
  pub data_selection : DataSelection
  pub fixed_data_arr : List ℕ
  pub fixed_data_len : ℕ

-- The globals that change while the node runs.
pub record App : Type 0 where
  pub device_state : DeviceState
  pub next_tx : Bool
  pub app_data : List ℕ
  pub app_data_size : ℕ
  pub app_port : ℕ
  pub tx_duty_cycle_time : ℕ
  -- `next` of the pseudo-random numbers
  pub seed : ℕ
  pub calls : History

-- A call put down.
abbrev pub call : Call → App → App
call c s = record s { calls = c ∷ s.calls }

-- ===== src/Modem.antt =====
-- The radio driver of functional_module/lora/radio/radio.c: its variables, with the radio below it, and
-- its operations. The calls of the timer library and of the event callbacks are kept as a
-- list; what the callbacks do lies outside.
pub mod Lora
pub mod Operations
pub mod Fsk
pub mod Access
pub mod Airtime
pub mod Requests
pub mod Interrupts
pub mod States
pub mod Waking
mod Tests
use sufficient_io_t_applicat.Base.{ℕ, Bool, List, ◌∷◌, ◌==◌, if◌then◌else◌, done, fault}
use sufficient_io_t_applicat.Radio.{Radio, Chip, Step, Mode, PacketType, gfsk, lora, no_packet}
use sufficient_io_t_applicat.Radio.Packets.{
  PacketParams, gfsk_packet, lora_packet, other_packet, PacketStatus,
}

-- TxTimeoutTimer, RxTimeoutTimer, CadTimeoutTimer
pub data Timer : Type 0 where
  tx_timer rx_timer cad_timer : Timer

-- Calls of the timer library, and of the callbacks in `RadioEvents`, none of which is NULL. The
-- callback of a packet gets what stands in the LoRa fields of the status.
pub data Output : Type 0 where
  set_value : Timer → ℕ → Output
  start stop : Timer → Output
  tx_done tx_timeout rx_timeout rx_error : Output
  rx_done : (payload : List ℕ) (size : ℕ) (status : PacketStatus) → Output
  cad_done : Bool → Output

-- `SX126x.PacketParams.Params.LoRa` and `SX126x.PacketParams.Params.Gfsk`
pub record LoraPacket : Type 0 where
  pub preamble : ℕ
  pub header : ℕ
  pub payload_length : ℕ
  pub crc_mode : ℕ
  pub invert_iq : ℕ

pub record GfskPacket : Type 0 where
  pub preamble : ℕ
  pub detect : ℕ
  pub sync_length : ℕ
  pub addr_comp : ℕ
  pub header : ℕ
  pub payload_length : ℕ
  pub crc_length : ℕ
  pub dc_free : ℕ

-- The variables of radio.c, and of `SX126x` what it uses. `spreading` to `low_rate` are the modulation
-- for LoRa, `bit_rate` and `deviation` that for FSK.
pub record Variables : Type 0 where
  pub current : Bool
  pub previous : Bool
  pub rx_continuous : Bool
  pub max_payload_length : ℕ
  pub tx_timeout : ℕ
  pub rx_timeout : ℕ
  pub irq_fired : Bool
  pub spreading : ℕ
  pub bandwidth : ℕ
  pub coding : ℕ
  pub low_rate : ℕ
  pub bit_rate : ℕ
  pub deviation : ℕ
  pub packet_kind : PacketType
  pub lora : LoraPacket
  pub gfsk : GfskPacket
  pub rx_payload : List ℕ
  pub packet_status : PacketStatus
  -- The newest first.
  pub outputs : List Output

pub record Modem : Type 0 where
  pub radio : Radio
  pub variables : Variables

abbrev pub Drive : Type 0 → Type 0
Drive A = Step Modem A

-- A step of the radio.
abbrev pub on_chip : {A : Type 0} → Chip A → Drive A
on_chip c m = elim (c m.radio) [ fault ↦ fault | done (a, r) ↦ done (a, record m { radio = r }) ]

abbrev pub change : (Variables → Variables) → Drive (Unit {0})
change f m = done (tt, record m { variables = f m.variables })

abbrev pub output : Output → Drive (Unit {0})
output o = change (λ v. record v { outputs = o ∷ v.outputs })

-- `SX126x.PacketParams`
abbrev pub packet_params : Variables → PacketParams
packet_params v = elim v.packet_kind [
  | gfsk ↦
      gfsk_packet v.gfsk.preamble v.gfsk.detect v.gfsk.sync_length v.gfsk.addr_comp v.gfsk.header
        v.gfsk.payload_length v.gfsk.crc_length v.gfsk.dc_free
  | lora ↦
      lora_packet v.lora.preamble v.lora.header v.lora.payload_length v.lora.crc_mode
        v.lora.invert_iq
  | no_packet ↦ other_packet
]

-- RadioState_t
pub data RadioState : Type 0 where
  idle rx_running tx_running cad : RadioState

-- The values of RadioOperatingModes_t.
abbrev pub mode_code : Mode → ℕ
mode_code Mode.sleep = 0
mode_code Mode.stdby_rc = 1
mode_code Mode.stdby_xosc = 2
mode_code Mode.fs = 3
mode_code Mode.tx = 4
mode_code Mode.rx = 5
mode_code Mode.rx_dc = 6
mode_code Mode.cad = 7

-- One case is RF_CAD, 3, which is not a value of the type that is looked at.
unfoldable pub radio_get_status : Mode → RadioState
radio_get_status mode =
    if mode_code mode == 4
    then tx_running
    else if mode_code mode == 5
    then rx_running
    else if mode_code mode == 3
    then cad
    else idle

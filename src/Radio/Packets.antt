-- ===== src/Radio/Packets.antt =====
-- The parameters of functional_module/lora/sx126x.c for frequency, power, modulation and packets, and
-- what it reads back from the radio. `int8_t` and `int16_t` results are integers.
use sufficient_io_t_applicat.Base.{
  ℕ, ◌+◌, ◌-◌, ◌*◌, ◌/◌, ◌%◌, ◌^◌, true, false, Option, none, some, List, [], ◌∷◌, ◌++◌, ltb, ◌==◌,
  if◌then◌else◌, get_or, Access, done, fault, load, ℤ, pos, pos_part, neg_part, sub_ℕ,
}
use sufficient_io_t_applicat.Spi.{System}
use sufficient_io_t_applicat.Gpio.{Sysfs}
use sufficient_io_t_applicat.Radio.{
  PacketType, gfsk, lora, no_packet, Chip, ◌>>=◌, ◌>>◌, pure, lift, write_command, read_command,
  write_register, read_register, read_buffer,
}
use sufficient_io_t_applicat.Radio.Commands.{
  bytes16, bytes24, bytes32, get, set_packet, packet_code, set_pa_config, set_crc_seed,
  set_crc_polynomial,
}

-- `SX126xCalibrateImage`: two bytes for each band; below them the bytes are not set.
unfoldable pub image_bytes : ℕ → Access (List ℕ)
image_bytes freq =
    if ltb 900000000 freq
    then done (0xE1 ∷ 0xE9 ∷ [])
    else if ltb 850000000 freq
    then done (0xD7 ∷ 0xD8 ∷ [])
    else if ltb 770000000 freq
    then done (0xC1 ∷ 0xC5 ∷ [])
    else if ltb 460000000 freq
    then done (0x75 ∷ 0x81 ∷ [])
    else if ltb 425000000 freq
    then done (0x6B ∷ 0x6F ∷ [])
    else fault

-- `(uint32_t)(frequency / FREQ_STEP)`: a step is 15625 / 2^14 Hz, which a double holds, and the
-- quotient is nowhere so near below a whole number that rounding could reach it. What has no value in
-- uint32_t is undefined.
unfoldable pub frequency_steps : ℕ → Access ℕ
frequency_steps frequency =
    let steps : ℕ = frequency * 2 ^ 14 / 15625 in if ltb steps (2 ^ 32) then done steps else fault

-- `-byte >> 1` as an int8_t: an arithmetic shift rounds down.
unfoldable pub half_negative : ℕ → ℤ
half_negative byte = sub_ℕ 0 ((byte + 1) / 2)

-- The signal-to-noise ratio in quarters, rounded down.
unfoldable pub snr : ℕ → ℤ
snr byte = if ltb byte 128 then pos (byte / 4) else sub_ℕ 0 ((256 - byte + 3) / 4)

-- `power` cut to -3 … 22, as the byte that is sent.
unfoldable pub power_byte : ℤ → ℕ
power_byte power =
    if ltb 22 (pos_part power)
    then 22
    else if ltb 3 (neg_part power)
    then 256 - 3
    else (pos_part power + 256 - neg_part power) % 256

-- The fields of `PacketStatus_t` for the packet type LoRa.
pub record LoraStatus : Type 0 where
  pub rssi_pkt : ℤ
  pub snr_pkt : ℤ
  pub signal_rssi_pkt : ℤ

pub record GfskStatus : Type 0 where
  pub rx_status : ℕ
  pub rssi_sync : ℤ
  pub rssi_avg : ℤ

pub data PacketStatus : Type 0 where
  of_gfsk : GfskStatus → PacketStatus
  of_lora : LoraStatus → PacketStatus
  of_none : PacketStatus

-- The modulation by its kind. `bit_rate` and `deviation` stand as the steps that the code computes
-- from them in floating point.
pub data Modulation : Type 0 where
  gfsk_modulation : (bit_rate shaping bandwidth deviation : ℕ) → Modulation
  lora_modulation : (spreading bandwidth coding low_datarate : ℕ) → Modulation
  no_modulation : Modulation

pub data PacketParams : Type 0 where
  gfsk_packet :
      (preamble detect sync_length addr_comp header payload_length crc_length dc_free : ℕ)
      → PacketParams
  lora_packet : (preamble header payload_length crc_mode invert_iq : ℕ) → PacketParams
  other_packet : PacketParams

module _ (system : System) (sysfs : Sysfs) where
  unfoldable pub calibrate_image : ℕ → Chip (Unit {0})
  unfolding image_bytes write_command
  calibrate_image freq = do
    cal_freq ← lift (image_bytes freq)
    write_command system sysfs 0x98 cal_freq 2

  abbrev pub calibrated : Chip (Unit {0})
  calibrated r = done (tt, record r { image_calibrated = true })

  unfoldable pub set_rf_frequency : ℕ → Chip (Unit {0})
  unfolding calibrate_image frequency_steps write_command
  set_rf_frequency frequency = do
    r ← get
    elim r.image_calibrated [ true ↦ pure tt | false ↦ (do calibrate_image frequency; calibrated) ]
    freq ← lift (frequency_steps frequency)
    write_command system sysfs 0x86 (bytes32 freq) 4

  unfoldable pub set_packet_type : PacketType → Chip (Unit {0})
  unfolding write_command
  set_packet_type kind = do
    set_packet kind
    write_command system sysfs 0x8A (packet_code kind ∷ []) 1

  -- The settings of the power amplifier for `gPaOptSetting`. The board has an SX1262.
  unfoldable pub set_pa_for : ℕ → Chip (Unit {0})
  unfolding set_pa_config
  set_pa_for opt = elim (opt == 3) [
    | true ↦ set_pa_config system sysfs 0x02 0x02 0x00 0x01
    | false ↦ elim (opt == 2) [
      | true ↦ set_pa_config system sysfs 0x02 0x03 0x00 0x01
      | false ↦ elim (opt == 1) [
        | true ↦ set_pa_config system sysfs 0x03 0x05 0x00 0x01
        | false ↦ set_pa_config system sysfs 0x04 0x07 0x00 0x01
      ]
    ]
  ]

  unfoldable pub set_tx_params : ℤ → ℕ → Chip (Unit {0})
  unfolding set_pa_for power_byte write_register write_command
  set_tx_params power ramp_time = do
    r ← get
    set_pa_for r.pa_opt
    write_register system sysfs 0x08E7 0x38
    write_command system sysfs 0x8E (power_byte power ∷ ramp_time ∷ []) 2

  -- The packet type is updated where the new parameters are of another.
  unfoldable pub update_packet_type : PacketType → Chip (Unit {0})
  unfolding set_packet_type
  update_packet_type kind = do
    r ← get
    elim (packet_code r.packet_type == packet_code kind) [
      | true ↦ pure tt
      | false ↦ set_packet_type kind
    ]

  unfoldable pub set_modulation_params : Modulation → Chip (Unit {0})
  unfolding update_packet_type write_command
  set_modulation_params (gfsk_modulation bit_rate shaping bandwidth deviation) = do
    update_packet_type gfsk
    write_command system sysfs 0x8B (bytes24 bit_rate ++ (shaping ∷ bandwidth ∷ bytes24 deviation))
        8
  set_modulation_params (lora_modulation spreading bandwidth coding low_datarate) = do
    update_packet_type lora
    write_command system sysfs 0x8B (spreading ∷ bandwidth ∷ coding ∷ low_datarate ∷ []) 4
  set_modulation_params no_modulation = update_packet_type no_packet

  -- The CRC of a packet: RADIO_CRC_2_BYTES_IBM and RADIO_CRC_2_BYTES_CCIT set the seed and the
  -- polynomial too.
  unfoldable pub set_crc : ℕ → Chip ℕ
  unfolding set_crc_seed set_crc_polynomial
  set_crc crc_length = elim (crc_length == 0xF1) [
    | true ↦ (do
      set_crc_seed system sysfs 0xFFFF
      set_crc_polynomial system sysfs 0x8005
      pure 0x02)
    | false ↦ elim (crc_length == 0xF2) [
      | true ↦ (do
        set_crc_seed system sysfs 0x1D0F
        set_crc_polynomial system sysfs 0x1021
        pure 0x06)
      | false ↦ pure crc_length
    ]
  ]

  unfoldable pub set_packet_params : PacketParams → Chip (Unit {0})
  unfolding update_packet_type set_crc write_command
  set_packet_params
        (gfsk_packet preamble detect sync_length addr_comp header payload_length crc_length
          dc_free) =
      do
        update_packet_type gfsk
        crc ← set_crc crc_length
        write_command system sysfs 0x8C
            (bytes16 preamble
              ++ (detect ∷ sync_length ∷ addr_comp ∷ header ∷ payload_length ∷ crc ∷ dc_free ∷ []))
            9
  set_packet_params (lora_packet preamble header payload_length crc_mode invert_iq) = do
    update_packet_type lora
    write_command system sysfs 0x8C
        (bytes16 preamble ++ (header ∷ payload_length ∷ crc_mode ∷ invert_iq ∷ [])) 6
  set_packet_params other_packet = update_packet_type no_packet

  unfoldable pub get_irq_status : Chip ℕ
  unfolding read_command
  get_irq_status = do
    irq_status ← read_command system sysfs 0x12 2
    high ← lift (load irq_status 0)
    low ← lift (load irq_status 1)
    pure (high * 2 ^ 8 + low)

  unfoldable pub get_radio_status : Chip ℕ
  unfolding read_command
  get_radio_status = do stat ← read_command system sysfs 0xC0 1; pure (get_or stat 0 0)

  -- The two bytes of `RadioError_t`.
  unfoldable pub get_device_errors : Chip (List ℕ)
  unfolding read_command
  get_device_errors = read_command system sysfs 0x17 2

  unfoldable pub get_rssi_inst : Chip ℤ
  unfolding read_command half_negative
  get_rssi_inst = do
    buf ← read_command system sysfs 0x15 1
    level ← lift (load buf 0)
    pure (half_negative level)

  -- The payload's length and where it starts. With a fixed header the length stands in a register.
  unfoldable pub get_rx_buffer_status : Chip (ℕ × ℕ)
  unfolding read_command read_register
  get_rx_buffer_status = do
    status ← read_command system sysfs 0x13 2
    r ← get
    fixed ← elim r.packet_type [
      | lora ↦ (do params ← read_register system sysfs 0x0704; pure (params / 2 ^ 7 == 1))
      | _ ↦ pure false
    ]
    size ← elim fixed [ true ↦ read_register system sysfs 0x0702 | false ↦ lift (load status 0) ]
    start ← lift (load status 1)
    pure (size, start)

  -- `none` is the result 1: the payload is larger than allowed. The size is written in both cases.
  unfoldable pub get_payload : ℕ → Chip (ℕ × Option (List ℕ))
  unfolding get_rx_buffer_status read_buffer
  get_payload max_size = do
    (size, offset) ← get_rx_buffer_status
    elim (ltb max_size size) [
      | true ↦ pure (size, none)
      | false ↦ (do buffer ← read_buffer system sysfs offset size; pure (size, some buffer))
    ]

  unfoldable pub get_packet_status : Chip PacketStatus
  unfolding read_command half_negative snr
  get_packet_status = do
    status ← read_command system sysfs 0x14 3
    r ← get
    elim r.packet_type [
      | gfsk ↦ (do
        first ← lift (load status 0)
        second ← lift (load status 1)
        third ← lift (load status 2)
        pure (
            of_gfsk (record {
              rx_status = first;
              rssi_sync = half_negative second;
              rssi_avg = half_negative third;
            })))
      | lora ↦ (do
        first ← lift (load status 0)
        second ← lift (load status 1)
        third ← lift (load status 2)
        pure (
            of_lora (record {
              rssi_pkt = half_negative first;
              snr_pkt = snr second;
              signal_rssi_pkt = half_negative third;
            })))
      | no_packet ↦ pure of_none
    ]

-- ===== src/Modem/Lora.antt =====
-- The configurations of functional_module/lora/radio/radio.c in their case MODEM_LORA.
use sufficient_io_t_applicat.Radio.Commands.{
  set_lora_symb_num_timeout, get, set_stop_rx_timer_on_preamble_detect,
}
use sufficient_io_t_applicat.Base.{
  ℕ, ◌*◌, ◌%◌, ◌^◌, Bool, true, false, ◌&&◌, ◌||◌, List, [], ◌∷◌, ltb, leb, ◌==◌, if◌then◌else◌,
  get_or, load, ℤ,
}
use sufficient_io_t_applicat.Spi.{System}
use sufficient_io_t_applicat.Gpio.{Sysfs}
use sufficient_io_t_applicat.Radio.{lora, lift, ◌>>=◌, ◌>>◌}
use sufficient_io_t_applicat.Radio.Packets.{
  set_packet_params, set_tx_params, set_modulation_params, lora_modulation,
}
use sufficient_io_t_applicat.Modem.{Drive, on_chip, change, packet_params}
use sufficient_io_t_applicat.Modem.Operations.{bool_code, radio_set_modem, radio_standby}

-- The entries of `Bandwidths`.
abbrev pub bandwidth_codes : List ℕ
bandwidth_codes = 4 ∷ 5 ∷ 6 ∷ 3 ∷ 10 ∷ 2 ∷ 9 ∷ 1 ∷ 8 ∷ 0 ∷ []

-- `bw_khz` of `RadioSymbTime`, in tens of hertz.
unfoldable pub bandwidth_of : ℕ → ℕ
bandwidth_of bw =
    get_or (781 ∷ 1563 ∷ 3125 ∷ 6250 ∷ 12500 ∷ 25000 ∷ 50000 ∷ 0 ∷ 1042 ∷ 2083 ∷ 4167 ∷ []) bw 0

-- `RadioSymbTime(bw, sf) >= 16.38`, the time of a symbol in milliseconds. No symbol takes so nearly
-- 16.38 ms that rounding could decide.
unfoldable pub low_datarate : ℕ → ℕ → ℕ
unfolding bandwidth_of
low_datarate bw sf = if leb (1638 * bandwidth_of bw) (2 ^ sf * 10000) then 1 else 0

-- A preamble has twelve symbols at least with the spreading factors 5 and 6.
unfoldable pub preamble_length : ℕ → ℕ → ℕ
preamble_length sf preamble = if (sf == 5 || sf == 6) && ltb preamble 12 then 12 else preamble

module _ (system : System) (sysfs : Sysfs) where
  -- The last steps of both configurations.
  unfoldable pub apply_config : ℕ → ℕ → ℕ → Drive (Unit {0})
  unfolding radio_set_modem set_modulation_params set_packet_params low_datarate
  apply_config bw sf cr = do
    radio_set_modem system sysfs true
    on_chip (set_modulation_params system sysfs (lora_modulation sf bw cr (low_datarate bw sf)))
    m ← get
    on_chip (set_packet_params system sysfs (packet_params m.variables))

  -- The fields that both configurations set alike.
  unfoldable pub set_lora_fields : ℕ → ℕ → ℕ → ℕ → Bool → Bool → Bool → Drive (Unit {0})
  unfolding preamble_length low_datarate
  set_lora_fields bw sf cr preamble fix_len crc_on iq_inverted = change (λ v. record v {
    spreading = sf;
    bandwidth = bw;
    coding = cr;
    low_rate = low_datarate bw sf;
    packet_kind = lora;
    lora = record {
      preamble = preamble_length sf preamble;
      header = bool_code fix_len;
      payload_length = v.max_payload_length;
      crc_mode = bool_code crc_on;
      invert_iq = bool_code iq_inverted;
    };
  })

  -- `RadioSetRxConfig` for MODEM_LORA.
  unfoldable pub radio_set_rx_config :
      (bandwidth sf cr preamble symb_timeout : ℕ) (fix_len : Bool) (payload_len : ℕ)
      (crc_on iq_inverted rx_continuous : Bool)
      → Drive (Unit {0})
  unfolding set_lora_fields apply_config set_stop_rx_timer_on_preamble_detect
      set_lora_symb_num_timeout
  radio_set_rx_config bandwidth sf cr preamble symb_timeout fix_len payload_len crc_on iq_inverted
        rx_continuous =
      do
        change (λ v. record v {
          rx_continuous = rx_continuous;
          max_payload_length = if fix_len then payload_len else 0xFF;
        })
        on_chip (set_stop_rx_timer_on_preamble_detect system sysfs false)
        on_chip (set_lora_symb_num_timeout system sysfs (symb_timeout % 2 ^ 8))
        bw ← lift (load bandwidth_codes bandwidth)
        set_lora_fields bw sf cr preamble fix_len crc_on iq_inverted
        apply_config bw sf cr
        change (λ v. record v { rx_timeout = 0xFFFF })

  -- `RadioSetTxConfig` for MODEM_LORA; `SX126xSetRfTxPower` is RADIO_RAMP_40_US.
  unfoldable pub radio_set_tx_config :
      (power : ℤ) (bandwidth sf cr preamble : ℕ) (fix_len crc_on iq_inverted : Bool) (timeout : ℕ)
      → Drive (Unit {0})
  unfolding set_lora_fields radio_standby apply_config set_tx_params
  radio_set_tx_config power bandwidth sf cr preamble fix_len crc_on iq_inverted timeout = do
    bw ← lift (load bandwidth_codes bandwidth)
    set_lora_fields bw sf cr preamble fix_len crc_on iq_inverted
    radio_standby system sysfs
    apply_config bw sf cr
    on_chip (set_tx_params system sysfs power 0x02)
    change (λ v. record v { tx_timeout = timeout })

-- ===== src/Modem/Fsk.antt =====
-- The operations of functional_module/lora/radio/radio.c for FSK: the search for a bandwidth, and the
-- configurations in their case MODEM_FSK.
pub mod Bandwidths
use sufficient_io_t_applicat.Base.{
  false, ℕ, ◌*◌, ◌/◌, ◌%◌, ◌^◌, Bool, ◌&&◌, List, [], ◌∷◌, ltb, leb, ◌==◌, if◌then◌else◌, Access,
  done, fault, ℤ,
}
use sufficient_io_t_applicat.Spi.{System}
use sufficient_io_t_applicat.Gpio.{Sysfs}
use sufficient_io_t_applicat.Radio.{gfsk, lift, ◌>>=◌, ◌>>◌}
use sufficient_io_t_applicat.Radio.Commands.{
  get, set_stop_rx_timer_on_preamble_detect, set_sync_word, set_whitening_seed,
}
use sufficient_io_t_applicat.Radio.Packets.{
  frequency_steps, gfsk_modulation, set_modulation_params, set_packet_params, set_tx_params,
}
use sufficient_io_t_applicat.Modem.{Drive, on_chip, change, packet_params, Variables}
use sufficient_io_t_applicat.Modem.Operations.{radio_set_modem, radio_standby}

-- The rows of `FskBandwidths`: a bandwidth in hertz and the value of its register. The last row is
-- marked as invalid.
abbrev pub fsk_bandwidths : List (ℕ × ℕ)
fsk_bandwidths =
    (4800, 0x1F)
    ∷ (5800, 0x17)
    ∷ (7300, 0x0F)
    ∷ (9700, 0x1E)
    ∷ (11700, 0x16)
    ∷ (14600, 0x0E)
    ∷ (19500, 0x1D)
    ∷ (23400, 0x15)
    ∷ (29300, 0x0D)
    ∷ (39000, 0x1C)
    ∷ (46900, 0x14)
    ∷ (58600, 0x0C)
    ∷ (78200, 0x1B)
    ∷ (93800, 0x13)
    ∷ (117300, 0x0B)
    ∷ (156200, 0x1A)
    ∷ (187200, 0x12)
    ∷ (234300, 0x0A)
    ∷ (312000, 0x19)
    ∷ (373600, 0x11)
    ∷ (467000, 0x09)
    ∷ (500000, 0x00)
    ∷ []

-- The loop over two neighbouring rows, the first of which has the bandwidth `low`. The fault is the
-- loop without an end that the function runs into when no row is found.
unfoldable pub search_rows : ℕ → ℕ → List (ℕ × ℕ) → Access ℕ
search_rows wanted low [] = fault
search_rows wanted low ((high, value) ∷ rows) =
    let rest = search_rows wanted high rows in
    if leb low wanted && ltb wanted high then done value else rest

-- `RadioGetFskBandwidthRegValue`
unfoldable pub fsk_bandwidth_value : ℕ → Access ℕ
unfolding search_rows
fsk_bandwidth_value wanted = elim fsk_bandwidths [
  | [] ↦ fault
  | (low, value) ∷ rows ↦ if wanted == 0 then done 0x1F else search_rows wanted low rows
]

-- `(uint32_t)(32 * (XTAL_FREQ / BitRate))`. The quotient is nowhere so near below a whole number that
-- rounding could reach it; with no bit rate it is infinite, and the conversion undefined.
unfoldable pub bit_rate_steps : ℕ → Access ℕ
bit_rate_steps bit_rate = if bit_rate == 0 then fault else done (32 * 32000000 / bit_rate)

abbrev pub fsk_sync_word : List ℕ
fsk_sync_word = 0xC1 ∷ 0x94 ∷ 0xC1 ∷ 0 ∷ 0 ∷ 0 ∷ 0 ∷ 0 ∷ []

module _ (system : System) (sysfs : Sysfs) where
  -- The fields of a packet that both configurations set alike.
  unfoldable pub set_fsk_fields : ℕ → ℕ → Bool → Bool → Drive (Unit {0})
  set_fsk_fields bit_rate preamble fix_len crc_on = change (λ v. record v {
    bit_rate = bit_rate;
    packet_kind = gfsk;
    gfsk = record v.gfsk {
      preamble = preamble * 2 ^ 3 % 2 ^ 16;
      detect = 0x04;
      sync_length = 3 * 2 ^ 3;
      addr_comp = 0x00;
      header = if fix_len then 0x00 else 0x01;
      crc_length = if crc_on then 0xF2 else 0x01;
      dc_free = 0x01;
    };
  })

  -- The last steps of both configurations, with `SX126x` as it is before them; the shaping is
  -- MOD_SHAPING_G_BT_1.
  unfoldable pub tune_fsk : ℕ → Variables → Drive (Unit {0})
  unfolding radio_standby radio_set_modem bit_rate_steps frequency_steps set_modulation_params
      set_packet_params set_sync_word set_whitening_seed
  tune_fsk bandwidth v = do
    radio_standby system sysfs
    radio_set_modem system sysfs false
    rate ← lift (bit_rate_steps v.bit_rate)
    deviation ← lift (frequency_steps v.deviation)
    on_chip (set_modulation_params system sysfs (gfsk_modulation rate 0x0B bandwidth deviation))
    on_chip (set_packet_params system sysfs (packet_params v))
    on_chip (set_sync_word system sysfs fsk_sync_word)
    on_chip (set_whitening_seed system sysfs 0x01FF)

  unfoldable pub apply_fsk : ℕ → Drive (Unit {0})
  unfolding tune_fsk
  apply_fsk bandwidth = do m ← get; tune_fsk bandwidth m.variables

  -- `RadioSetRxConfig` for MODEM_FSK. `time` is `symbTimeout * 8 / datarate`, in milliseconds, as it is
  -- computed in floating point. The deviation is that of the configuration before.
  unfoldable pub radio_set_fsk_rx_config :
      (bandwidth datarate preamble time : ℕ) (fix_len : Bool) (payload_len : ℕ)
      (crc_on rx_continuous : Bool)
      → Drive (Unit {0})
  unfolding set_stop_rx_timer_on_preamble_detect fsk_bandwidth_value set_fsk_fields apply_fsk
  radio_set_fsk_rx_config bandwidth datarate preamble time fix_len payload_len crc_on
        rx_continuous =
      do
        change (λ v. record v {
          rx_continuous = rx_continuous;
          max_payload_length = if fix_len then payload_len else 0xFF;
        })
        on_chip (set_stop_rx_timer_on_preamble_detect system sysfs false)
        value ← lift (fsk_bandwidth_value bandwidth)
        set_fsk_fields datarate preamble fix_len crc_on
        change (λ v. record v { gfsk = record v.gfsk { payload_length = v.max_payload_length } })
        apply_fsk value
        change (λ v. record v { rx_timeout = time })

  -- `RadioSetTxConfig` for MODEM_FSK.
  unfoldable pub radio_set_fsk_tx_config :
      (power : ℤ) (fdev bandwidth datarate preamble : ℕ) (fix_len crc_on : Bool) (timeout : ℕ)
      → Drive (Unit {0})
  unfolding fsk_bandwidth_value set_fsk_fields apply_fsk set_tx_params
  radio_set_fsk_tx_config power fdev bandwidth datarate preamble fix_len crc_on timeout = do
    value ← lift (fsk_bandwidth_value bandwidth)
    set_fsk_fields datarate preamble fix_len crc_on
    change (λ v. record v { deviation = fdev })
    apply_fsk value
    on_chip (set_tx_params system sysfs power 0x02)
    change (λ v. record v { tx_timeout = timeout })

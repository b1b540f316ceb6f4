-- ===== src/Modem/Waking/Configurations.antt =====
-- The configurations of functional_module/lora/radio/radio.c in their case MODEM_FSK.
use sufficient_io_t_applicat.Base.{
  ℕ, ◌*◌, ◌/◌, ◌^◌, ◌<◌, ◌≡◌, Bool, false, true, arith, if◌then◌else◌, ℤ, done, refl,
}
use sufficient_io_t_applicat.Spi.{System}
use sufficient_io_t_applicat.Gpio.{Sysfs}
use sufficient_io_t_applicat.Radio.Packets.{gfsk_modulation}
use sufficient_io_t_applicat.Radio.{lift}
use sufficient_io_t_applicat.Radio.Steps.{Takes, bind, by_state-Takes, strengthen}
use sufficient_io_t_applicat.Radio.Waking.{AnswersInFull, IsPolite, to_polite}
use sufficient_io_t_applicat.Radio.Waking.Operations.{set_stop_rx_timer_on_preamble_detect-IsAwake}
use sufficient_io_t_applicat.Radio.Waking.Parameters.{
  lifted, frequency_steps_lem, set_modulation_params-IsPolite, set_packet_params-IsPolite,
  set_tx_params-IsAwake,
}
use sufficient_io_t_applicat.Radio.Waking.Sequences.{
  set_sync_word-IsPolite, set_whitening_seed-IsPolite,
}
use sufficient_io_t_applicat.Modem.{Modem, Variables, packet_params}
use sufficient_io_t_applicat.Modem.Fsk.{
  fsk_bandwidth_value, bit_rate_steps, tune_fsk, fsk_sync_word, set_fsk_fields, apply_fsk,
  radio_set_fsk_rx_config, radio_set_fsk_tx_config,
}
use sufficient_io_t_applicat.Modem.Fsk.Bandwidths.{has_row, fsk_bandwidth_value-Ends}
use sufficient_io_t_applicat.Modem.Waking.{
  Polite, on_chip-Polite, on_chip-Awake, awakened, change-Polite, change-Turns, HasSteps,
}
use sufficient_io_t_applicat.Modem.Waking.Requests.{radio_standby-Awake, radio_set_modem-Awake}

bit_rate_steps_lem :
    (bit_rate : ℕ) → 0 < bit_rate → bit_rate_steps bit_rate ≡ done (32 * 32000000 / bit_rate)
unfolding bit_rate_steps
bit_rate_steps_lem bit_rate some_rate = ground arith

abbrev HasRate : Variables → Type 0
HasRate v = 0 < v.bit_rate

abbrev IsTuned : Variables → Type 0
IsTuned v = HasRate v × HasSteps v

row-Takes :
    {P : Modem → Type 0} (bandwidth : ℕ)
    → has_row bandwidth ≡ true
    → Takes P (lift (fsk_bandwidth_value bandwidth)) (λ _. P)
row-Takes bandwidth row = record {
  ends = λ m p.
      let (value, found) = fsk_bandwidth_value-Ends bandwidth row in
      (value, m, ground (arith, found), p);
}

module _ (system : System) (sysfs : Sysfs) (dev : ℕ) (answers : AnswersInFull system) where
  tune_fsk-Polite :
      (value : ℕ) (v : Variables)
      → IsTuned v
      → Takes (Polite dev) (tune_fsk system sysfs value v) (λ _. Polite dev)
  unfolding tune_fsk
  tune_fsk-Polite value v tuned =
      let rate : ℕ = 32 * 32000000 / v.bit_rate in
      let shift : ℕ = v.deviation * 2 ^ 14 / 15625 in
      bind (awakened dev (radio_standby-Awake system sysfs dev)) λ _.
        bind (awakened dev (radio_set_modem-Awake system sysfs dev false)) λ _.
          lifted _ rate (bit_rate_steps_lem v.bit_rate tuned.0) (
            lifted _ shift (frequency_steps_lem v.deviation tuned.1) (
              bind
                (on_chip-Polite dev (
                  set_modulation_params-IsPolite system sysfs dev
                    (gfsk_modulation rate 0x0B value shift)))
                λ _.
                  bind
                    (on_chip-Polite dev
                      (set_packet_params-IsPolite system sysfs dev (packet_params v)))
                    λ _.
                      bind
                        (on_chip-Polite dev
                          (set_sync_word-IsPolite system sysfs dev fsk_sync_word (omega arith)))
                        λ _.
                          on_chip-Polite dev
                            (set_whitening_seed-IsPolite system sysfs dev answers 0x01FF)))

  apply_fsk-Polite :
      (value : ℕ)
      → Takes
          (λ m. IsPolite dev m.radio × IsTuned m.variables)
          (apply_fsk system sysfs value)
          (λ _. Polite dev)
  unfolding apply_fsk
  apply_fsk-Polite value =
      by_state-Takes {f = λ m. tune_fsk system sysfs value m.variables} λ m known.
        strengthen (λ m' now. (now.0, now.1.1)) (tune_fsk-Polite value m.variables known.1)

  set_fsk_fields-IsTuned :
      (datarate preamble : ℕ) (fix_len crc_on : Bool)
      → 0 < datarate
      → Takes
          (Polite dev)
          (set_fsk_fields system sysfs datarate preamble fix_len crc_on)
          (λ _ m. IsPolite dev m.radio × IsTuned m.variables)
  unfolding set_fsk_fields
  set_fsk_fields-IsTuned datarate preamble fix_len crc_on some_rate =
      change-Turns (IsPolite dev) {R = HasSteps} IsTuned _ (λ v r. (some_rate, r))

  pub radio_set_fsk_tx_config-Polite :
      (power : ℤ) (fdev bandwidth datarate preamble : ℕ) (fix_len crc_on : Bool) (timeout : ℕ)
      → has_row bandwidth ≡ true
      → 0 < datarate
      → fdev < 2 ^ 18 * 15625
      → Takes
          (Polite dev)
          (radio_set_fsk_tx_config system sysfs power fdev bandwidth datarate preamble fix_len
            crc_on timeout)
          (λ _. Polite dev)
  unfolding radio_set_fsk_tx_config
  radio_set_fsk_tx_config-Polite power fdev bandwidth datarate preamble fix_len crc_on timeout row
        some_rate few =
      bind (row-Takes bandwidth row) λ value.
        (bind (set_fsk_fields-IsTuned datarate preamble fix_len crc_on some_rate) λ _.
          bind
            (change-Turns (IsPolite dev) {R = IsTuned} IsTuned (λ v. record v { deviation = fdev })
              (λ v r. (r.0, few)))
            λ _. bind (apply_fsk-Polite value) λ _.
              bind
                (awakened dev
                  (on_chip-Awake dev (set_tx_params-IsAwake system sysfs dev power 0x02)))
                λ _. change-Polite dev (λ v. record v { tx_timeout = timeout }) (λ v. refl))

  pub radio_set_fsk_rx_config-Polite :
      (bandwidth datarate preamble time : ℕ) (fix_len : Bool) (payload_len : ℕ)
      (crc_on rx_continuous : Bool)
      → has_row bandwidth ≡ true
      → 0 < datarate
      → Takes
          (Polite dev)
          (radio_set_fsk_rx_config system sysfs bandwidth datarate preamble time fix_len payload_len
            crc_on rx_continuous)
          (λ _. Polite dev)
  unfolding radio_set_fsk_rx_config
  radio_set_fsk_rx_config-Polite bandwidth datarate preamble time fix_len payload_len crc_on
        rx_continuous row some_rate =
      bind
        (change-Polite dev
          (λ v. record v {
            rx_continuous = rx_continuous;
            max_payload_length = if fix_len then payload_len else 0xFF;
          })
          (λ v. refl))
        λ _.
          bind
            (on_chip-Polite dev
              (to_polite dev (set_stop_rx_timer_on_preamble_detect-IsAwake system sysfs dev false)))
            λ _. bind (row-Takes bandwidth row) λ value.
              (bind (set_fsk_fields-IsTuned datarate preamble fix_len crc_on some_rate) λ _.
                bind
                  (change-Turns (IsPolite dev) {R = IsTuned} IsTuned
                    (λ v. record v {
                      gfsk = record v.gfsk { payload_length = v.max_payload_length };
                    })
                    (λ v r. r))
                  λ _.
                    bind (apply_fsk-Polite value)
                      λ _. change-Polite dev (λ v. record v { rx_timeout = time }) (λ v. refl))

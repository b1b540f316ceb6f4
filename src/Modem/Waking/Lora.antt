-- ===== src/Modem/Waking/Lora.antt =====
-- The configurations of functional_module/lora/radio/radio.c in their case MODEM_LORA.
use sufficient_io_t_applicat.Radio.Steps.{Takes, bind, get-Takes}
use sufficient_io_t_applicat.Radio.Waking.Parameters.{
  set_tx_params-IsAwake, set_packet_params-IsPolite, set_modulation_params-IsPolite,
}
use sufficient_io_t_applicat.Radio.Waking.Operations.{
  set_stop_rx_timer_on_preamble_detect-IsAwake, set_lora_symb_num_timeout-IsAwake,
}
use sufficient_io_t_applicat.Base.{
  ℕ, ◌%◌, ◌^◌, ◌<◌, Bool, true, false, arith, if◌then◌else◌, get_or, get_elem?-eq-get_or, load, ℤ,
  refl,
}
use sufficient_io_t_applicat.Spi.{System}
use sufficient_io_t_applicat.Gpio.{Sysfs}
use sufficient_io_t_applicat.Radio.{lift}
use sufficient_io_t_applicat.Radio.Packets.{lora_modulation}
use sufficient_io_t_applicat.Modem.{Modem, packet_params}
use sufficient_io_t_applicat.Modem.Waking.{
  Polite, on_chip-Polite, on_chip-Awake, awakened, change-Polite,
}
use sufficient_io_t_applicat.Modem.Lora.{
  apply_config, set_lora_fields, radio_set_rx_config, radio_set_tx_config, low_datarate,
  bandwidth_codes,
}
use sufficient_io_t_applicat.Modem.Waking.Requests.{radio_set_modem-Awake, radio_standby-Awake}

module _ (system : System) (sysfs : Sysfs) (dev : ℕ) where
  apply_config-Polite :
      (bw sf cr : ℕ) → Takes (Polite dev) (apply_config system sysfs bw sf cr) (λ _. Polite dev)
  unfolding apply_config
  apply_config-Polite bw sf cr =
      bind (awakened dev (radio_set_modem-Awake system sysfs dev true)) λ _.
        bind
          (on_chip-Polite dev (
            set_modulation_params-IsPolite system sysfs dev
              (lora_modulation sf bw cr (low_datarate bw sf))))
          λ _. bind get-Takes λ m.
            on_chip-Polite dev
              (set_packet_params-IsPolite system sysfs dev (packet_params m.variables))

  band-Takes :
      {P : Modem → Type 0} (bandwidth : ℕ)
      → bandwidth < 10
      → Takes P (lift (load bandwidth_codes bandwidth)) (λ _. P)
  band-Takes bandwidth known_band = record {
    ends = λ m p. (
      get_or bandwidth_codes bandwidth 0,
      m,
      ground (arith, get_elem?-eq-get_or bandwidth_codes bandwidth 0),
      p,
    );
  }

  set_lora_fields-Polite :
      (bw sf cr preamble : ℕ) (fix_len crc_on iq_inverted : Bool)
      → Takes
          (Polite dev)
          (set_lora_fields system sysfs bw sf cr preamble fix_len crc_on iq_inverted)
          (λ _. Polite dev)
  unfolding set_lora_fields
  set_lora_fields-Polite bw sf cr preamble fix_len crc_on iq_inverted =
      change-Polite dev _ (λ v. refl)

  pub radio_set_rx_config-Polite :
      (bandwidth sf cr preamble symb_timeout : ℕ) (fix_len : Bool) (payload_len : ℕ)
      (crc_on iq_inverted rx_continuous : Bool)
      → bandwidth < 10
      → Takes
          (Polite dev)
          (radio_set_rx_config system sysfs bandwidth sf cr preamble symb_timeout fix_len
            payload_len crc_on iq_inverted rx_continuous)
          (λ _. Polite dev)
  unfolding radio_set_rx_config
  radio_set_rx_config-Polite bandwidth sf cr preamble symb_timeout fix_len payload_len crc_on
        iq_inverted rx_continuous known_band =
      bind
        (change-Polite dev
          (λ v. record v {
            rx_continuous = rx_continuous;
            max_payload_length = if fix_len then payload_len else 0xFF;
          })
          (λ v. refl))
        λ _.
          bind
            (awakened dev (
              on_chip-Awake dev
                (set_stop_rx_timer_on_preamble_detect-IsAwake system sysfs dev false)))
            λ _.
              bind
                (awakened dev (
                  on_chip-Awake dev
                    (set_lora_symb_num_timeout-IsAwake system sysfs dev (symb_timeout % 2 ^ 8))))
                λ _. bind (band-Takes bandwidth known_band) λ bw.
                  bind (set_lora_fields-Polite bw sf cr preamble fix_len crc_on iq_inverted) λ _.
                    bind (apply_config-Polite bw sf cr)
                      λ _. change-Polite dev (λ v. record v { rx_timeout = 0xFFFF }) (λ v. refl)

  pub radio_set_tx_config-Polite :
      (power : ℤ) (bandwidth sf cr preamble : ℕ) (fix_len crc_on iq_inverted : Bool) (timeout : ℕ)
      → bandwidth < 10
      → Takes
          (Polite dev)
          (radio_set_tx_config system sysfs power bandwidth sf cr preamble fix_len crc_on
            iq_inverted timeout)
          (λ _. Polite dev)
  unfolding radio_set_tx_config
  radio_set_tx_config-Polite power bandwidth sf cr preamble fix_len crc_on iq_inverted timeout
        known_band =
      bind (band-Takes bandwidth known_band) λ bw.
        bind (set_lora_fields-Polite bw sf cr preamble fix_len crc_on iq_inverted) λ _.
          bind (awakened dev (radio_standby-Awake system sysfs dev)) λ _.
            bind (apply_config-Polite bw sf cr) λ _.
              bind
                (awakened dev
                  (on_chip-Awake dev (set_tx_params-IsAwake system sysfs dev power 0x02)))
                λ _. change-Polite dev (λ v. record v { tx_timeout = timeout }) (λ v. refl)

-- ===== src/Modem/Waking/Sessions.antt =====
-- Sequences of requests to functional_module/lora/radio/radio.c, its interrupts and timeouts among
-- them.
use sufficient_io_t_applicat.Modem.Waking.Lora.{
  radio_set_rx_config-Polite, radio_set_tx_config-Polite,
}
use sufficient_io_t_applicat.Modem.Requests.{
  Request, run, wakes, ready, allowed, run_all, sleep_now, stand_by, set_channel, set_modem,
  set_network, set_rx_config, set_tx_config, send_out, receive, receive_boosted, receive_in_turns,
  start_cad, transmit, emit_wave, limit_payload, draw, set_fsk_tx_config, set_fsk_rx_config,
  measure, write_one, read_one, write_many, read_many, write_fifo, read_fifo, listen, interrupt,
  end_tx_time, end_rx_time, end_cad_time,
}
use sufficient_io_t_applicat.Modem.Waking.Configurations.{
  radio_set_fsk_tx_config-Polite, radio_set_fsk_rx_config-Polite,
}
use sufficient_io_t_applicat.Modem.Waking.Accesses.{
  radio_write-Awake, radio_read-Awake, radio_rssi-Awake, radio_write_buffer-Awake,
  radio_read_buffer-Awake, radio_write_fifo-Awake, radio_read_fifo-Awake,
  radio_is_channel_free-Polite,
}
use sufficient_io_t_applicat.Modem.Waking.{Awake, Polite, relaxed}
use sufficient_io_t_applicat.Modem.Waking.Requests.{
  radio_random-Polite, radio_set_max_payload_length-Polite, radio_set_tx_continuous_wave-Awake,
  radio_tx-Awake, radio_start_cad-Awake, radio_set_rx_duty_cycle-Polite, radio_rx_boosted-Awake,
  radio_rx-Awake, radio_send-Awake, radio_set_public_network-Awake, radio_set_modem-Awake,
  radio_set_channel-Awake, radio_standby-Awake, radio_sleep-Polite,
}
use sufficient_io_t_applicat.Modem.Waking.Events.{
  on_cad_timeout_irq-Polite, on_rx_timeout_irq-Polite, on_tx_timeout_irq-Polite,
  radio_on_dio_irq-Polite,
}
use sufficient_io_t_applicat.Base.{ℕ, ◌≡◌, Bool, true, false, List, [], ◌∷◌, arith}
use sufficient_io_t_applicat.Spi.{System}
use sufficient_io_t_applicat.Gpio.{Sysfs}
use sufficient_io_t_applicat.Radio.Steps.{Takes, bind, pure-Takes, strengthen}
use sufficient_io_t_applicat.Radio.Waking.{AnswersInFull}
use sufficient_io_t_applicat.Modem.{Modem, Drive}

abbrev pub Known : (dev : ℕ) → Bool → Modem → Type 0
Known dev true = Awake dev
Known dev false = Polite dev

module _ (system : System) (sysfs : Sysfs) (dev : ℕ) (answers : AnswersInFull system) where
  from :
      {A : Type 0} {m : Drive A} {Q : A → Modem → Type 0} (awake : Bool)
      → Takes (Polite dev) m Q
      → Takes (Known dev awake) m Q
  from true t = strengthen (relaxed dev) t
  from false t = t

  run-Known :
      (awake : Bool) (request : Request)
      → ready awake request ≡ true
      → Takes (Known dev awake) (run system sysfs request) (λ _. Known dev (wakes request))
  run-Known awake sleep_now fit = from awake (radio_sleep-Polite system sysfs dev)
  run-Known awake stand_by fit = from awake (radio_standby-Awake system sysfs dev)
  run-Known awake (set_channel freq) fit =
      from awake
        (radio_set_channel-Awake system sysfs dev freq (ground (arith, fit)) (ground (arith, fit)))
  run-Known awake (set_modem modem) fit = from awake (radio_set_modem-Awake system sysfs dev modem)
  run-Known awake (set_network enable) fit =
      from awake (radio_set_public_network-Awake system sysfs dev enable)
  run-Known awake
        (set_rx_config bandwidth sf cr preamble symb_timeout fix_len payload_len crc_on iq_inverted
          rx_continuous)
        fit =
      from awake (
        radio_set_rx_config-Polite system sysfs dev bandwidth sf cr preamble symb_timeout fix_len
          payload_len crc_on iq_inverted rx_continuous (ground (arith, fit)))
  run-Known awake (set_tx_config power bandwidth sf cr preamble fix_len crc_on iq_inverted timeout)
        fit =
      from awake (
        radio_set_tx_config-Polite system sysfs dev power bandwidth sf cr preamble fix_len crc_on
          iq_inverted timeout (ground (arith, fit)))
  run-Known awake (send_out payload) fit =
      from awake (radio_send-Awake system sysfs dev payload (ground (arith, fit)))
  run-Known awake (receive timeout) fit = from awake (radio_rx-Awake system sysfs dev timeout)
  run-Known awake (receive_boosted timeout) fit =
      from awake (radio_rx_boosted-Awake system sysfs dev timeout)
  run-Known awake (receive_in_turns rx_time sleep_time) fit =
      from awake (radio_set_rx_duty_cycle-Polite system sysfs dev rx_time sleep_time)
  run-Known awake (start_cad symbols) fit =
      from awake (radio_start_cad-Awake system sysfs dev symbols)
  run-Known true (transmit timeout) fit = radio_tx-Awake system sysfs dev timeout
  run-Known false (transmit timeout) fit = absurd (ground arith)
  run-Known awake (emit_wave freq power time) fit = from awake (
      radio_set_tx_continuous_wave-Awake system sysfs dev freq power time (ground (arith, fit))
        (ground (arith, fit)))
  run-Known awake (limit_payload modem size) fit =
      from awake (radio_set_max_payload_length-Polite system sysfs dev modem size)
  run-Known awake (draw drawn) fit =
      from awake (bind (radio_random-Polite system sysfs dev answers drawn) λ rnd. pure-Takes tt)
  run-Known awake (set_fsk_tx_config power fdev bandwidth datarate preamble fix_len crc_on timeout)
        fit =
      from awake (
        radio_set_fsk_tx_config-Polite system sysfs dev answers power fdev bandwidth datarate
          preamble fix_len crc_on timeout (ground (arith, fit)) (ground (arith, fit))
          (ground (arith, fit)))
  run-Known awake
        (set_fsk_rx_config bandwidth datarate preamble time fix_len payload_len crc_on
          rx_continuous)
        fit =
      from awake (
        radio_set_fsk_rx_config-Polite system sysfs dev answers bandwidth datarate preamble time
          fix_len payload_len crc_on rx_continuous (ground (arith, fit)) (ground (arith, fit)))
  run-Known awake measure fit =
      from awake (bind (radio_rssi-Awake system sysfs dev answers) λ rssi. pure-Takes tt)
  run-Known awake (write_one addr value) fit =
      from awake (radio_write-Awake system sysfs dev addr value)
  run-Known awake (read_one addr) fit =
      from awake (bind (radio_read-Awake system sysfs dev answers addr) λ value. pure-Takes tt)
  run-Known awake (write_many addr buffer) fit =
      from awake (radio_write_buffer-Awake system sysfs dev addr buffer (ground (arith, fit)))
  run-Known awake (read_many addr size) fit = from awake (
      bind
        (radio_read_buffer-Awake system sysfs dev answers addr size (ground (arith, fit))
          (ground (arith, fit)))
        λ buffer. pure-Takes tt)
  run-Known awake (write_fifo buffer) fit =
      from awake (radio_write_fifo-Awake system sysfs dev buffer (ground (arith, fit)))
  run-Known awake (read_fifo size) fit = from awake (
      bind
        (radio_read_fifo-Awake system sysfs dev answers size (ground (arith, fit))
          (ground (arith, fit)))
        λ buffer. pure-Takes tt)
  run-Known awake (listen last elapsed modem freq threshold limit) fit = from awake (
      bind
        (radio_is_channel_free-Polite system sysfs dev answers last elapsed modem freq threshold
          limit (ground (arith, fit)) (ground (arith, fit)) (ground (arith, fit)))
        λ status. pure-Takes tt)
  run-Known awake interrupt fit = from awake (radio_on_dio_irq-Polite system sysfs dev answers)
  run-Known awake end_tx_time fit = from awake (on_tx_timeout_irq-Polite system sysfs dev)
  run-Known awake end_rx_time fit = from awake (on_rx_timeout_irq-Polite system sysfs dev)
  run-Known awake end_cad_time fit = from awake (on_cad_timeout_irq-Polite system sysfs dev)

  pub run_all-Polite :
      (awake : Bool) (requests : List Request)
      → allowed awake requests ≡ true
      → Takes (Known dev awake) (run_all system sysfs requests) (λ _. Polite dev)
  run_all-Polite awake [] ok = from awake (pure-Takes tt)
  run_all-Polite awake (request ∷ requests) ok =
      bind (run-Known awake request (ground (arith, ok)))
        λ _. run_all-Polite (wakes request) requests (ground (arith, ok))

-- ===== src/Modem/Requests.antt =====
-- The requests to functional_module/lora/radio/radio.c and its events as values, and sequences of them.
use sufficient_io_t_applicat.Modem.Lora.{radio_set_rx_config, radio_set_tx_config}
use sufficient_io_t_applicat.Modem.Fsk.{radio_set_fsk_tx_config, radio_set_fsk_rx_config}
use sufficient_io_t_applicat.Modem.Fsk.Bandwidths.{has_row}
use sufficient_io_t_applicat.Modem.Access.{
  radio_write, radio_read, radio_write_buffer, radio_read_buffer, radio_write_fifo, radio_read_fifo,
  radio_is_channel_free,
}
use sufficient_io_t_applicat.Modem.Operations.{
  radio_random, radio_set_max_payload_length, radio_set_tx_continuous_wave, radio_tx,
  radio_start_cad, radio_set_rx_duty_cycle, radio_rx_boosted, radio_rx, radio_send,
  radio_set_public_network, radio_set_modem, radio_set_channel, radio_standby, radio_sleep,
  radio_rssi,
}
use sufficient_io_t_applicat.Base.{
  ◌+◌, ℕ, ◌*◌, ◌^◌, Bool, true, false, ◌&&◌, List, [], ◌∷◌, ltb, leb, length, ℤ,
}
use sufficient_io_t_applicat.Spi.{System}
use sufficient_io_t_applicat.Gpio.{Sysfs}
use sufficient_io_t_applicat.Radio.{pure, ◌>>=◌, ◌>>◌}
use sufficient_io_t_applicat.Modem.{Drive}
use sufficient_io_t_applicat.Modem.Interrupts.{
  radio_on_dio_irq, on_tx_timeout_irq, on_rx_timeout_irq, on_cad_timeout_irq,
}

-- The functions of the radio driver with their arguments, and its events.
pub data Request : Type 0 where
  sleep_now : Request
  stand_by : Request
  set_channel : (freq : ℕ) → Request
  set_modem : (modem : Bool) → Request
  set_network : (enable : Bool) → Request
  set_rx_config :
      (bandwidth : ℕ) (sf : ℕ) (cr : ℕ) (preamble : ℕ) (symb_timeout : ℕ) (fix_len : Bool)
      (payload_len : ℕ) (crc_on : Bool) (iq_inverted : Bool) (rx_continuous : Bool)
      → Request
  set_tx_config :
      (power : ℤ) (bandwidth : ℕ) (sf : ℕ) (cr : ℕ) (preamble : ℕ) (fix_len : Bool) (crc_on : Bool)
      (iq_inverted : Bool) (timeout : ℕ)
      → Request
  send_out : (payload : List ℕ) → Request
  receive : (timeout : ℕ) → Request
  receive_boosted : (timeout : ℕ) → Request
  receive_in_turns : (rx_time : ℕ) (sleep_time : ℕ) → Request
  start_cad : (symbols : ℕ) → Request
  transmit : (timeout : ℕ) → Request
  emit_wave : (freq : ℕ) (power : ℤ) (time : ℕ) → Request
  limit_payload : (modem : Bool) (size : ℕ) → Request
  draw : (drawn : ℕ) → Request
  set_fsk_tx_config :
      (power : ℤ) (fdev : ℕ) (bandwidth : ℕ) (datarate : ℕ) (preamble : ℕ) (fix_len : Bool)
      (crc_on : Bool) (timeout : ℕ)
      → Request
  set_fsk_rx_config :
      (bandwidth : ℕ) (datarate : ℕ) (preamble : ℕ) (time : ℕ) (fix_len : Bool) (payload_len : ℕ)
      (crc_on : Bool) (rx_continuous : Bool)
      → Request
  measure : Request
  write_one : (addr : ℕ) (value : ℕ) → Request
  read_one : (addr : ℕ) → Request
  write_many : (addr : ℕ) (buffer : List ℕ) → Request
  read_many : (addr : ℕ) (size : ℕ) → Request
  write_fifo : (buffer : List ℕ) → Request
  read_fifo : (size : ℕ) → Request
  -- At the round `last` of the loop that listens the time is up.
  listen :
      (last : ℕ) (elapsed : ℕ → ℕ) (modem : Bool) (freq : ℕ) (threshold : ℤ) (limit : ℕ) → Request
  interrupt : Request
  end_tx_time : Request
  end_rx_time : Request
  end_cad_time : Request

abbrev pub run : System → Sysfs → Request → Drive (Unit {0})
run system sysfs sleep_now = radio_sleep system sysfs
run system sysfs stand_by = radio_standby system sysfs
run system sysfs (set_channel freq) = radio_set_channel system sysfs freq
run system sysfs (set_modem modem) = radio_set_modem system sysfs modem
run system sysfs (set_network enable) = radio_set_public_network system sysfs enable
run system sysfs
      (set_rx_config bandwidth sf cr preamble symb_timeout fix_len payload_len crc_on iq_inverted
        rx_continuous) =
    radio_set_rx_config system sysfs bandwidth sf cr preamble symb_timeout fix_len payload_len
      crc_on iq_inverted rx_continuous
run system sysfs (set_tx_config power bandwidth sf cr preamble fix_len crc_on iq_inverted timeout) =
    radio_set_tx_config system sysfs power bandwidth sf cr preamble fix_len crc_on iq_inverted
      timeout
run system sysfs (send_out payload) = radio_send system sysfs payload (length payload)
run system sysfs (receive timeout) = radio_rx system sysfs timeout
run system sysfs (receive_boosted timeout) = radio_rx_boosted system sysfs timeout
run system sysfs (receive_in_turns rx_time sleep_time) =
    radio_set_rx_duty_cycle system sysfs rx_time sleep_time
run system sysfs (start_cad symbols) = radio_start_cad system sysfs symbols
run system sysfs (transmit timeout) = radio_tx system sysfs timeout
run system sysfs (emit_wave freq power time) =
    radio_set_tx_continuous_wave system sysfs freq power time
run system sysfs (limit_payload modem size) = radio_set_max_payload_length system sysfs modem size
run system sysfs (draw drawn) = radio_random system sysfs drawn >>= λ rnd. pure tt
run system sysfs (set_fsk_tx_config power fdev bandwidth datarate preamble fix_len crc_on timeout) =
    radio_set_fsk_tx_config system sysfs power fdev bandwidth datarate preamble fix_len crc_on
      timeout
run system sysfs
      (set_fsk_rx_config bandwidth datarate preamble time fix_len payload_len crc_on
        rx_continuous) =
    radio_set_fsk_rx_config system sysfs bandwidth datarate preamble time fix_len payload_len crc_on
      rx_continuous
run system sysfs measure = radio_rssi system sysfs >>= λ rssi. pure tt
run system sysfs (write_one addr value) = radio_write system sysfs addr value
run system sysfs (read_one addr) = radio_read system sysfs addr >>= λ value. pure tt
run system sysfs (write_many addr buffer) =
    radio_write_buffer system sysfs addr buffer (length buffer)
run system sysfs (read_many addr size) =
    radio_read_buffer system sysfs addr size >>= λ buffer. pure tt
run system sysfs (write_fifo buffer) = radio_write_fifo system sysfs buffer (length buffer)
run system sysfs (read_fifo size) = radio_read_fifo system sysfs size >>= λ buffer. pure tt
run system sysfs (listen last elapsed modem freq threshold limit) =
    radio_is_channel_free system sysfs (last + 1) elapsed modem freq threshold limit >>= λ status.
    pure tt
run system sysfs interrupt = radio_on_dio_irq system sysfs
run system sysfs end_tx_time = on_tx_timeout_irq
run system sysfs end_rx_time = on_rx_timeout_irq
run system sysfs end_cad_time = on_cad_timeout_irq

-- The arguments have a place in the tables, the buffer and the chip's registers.
abbrev pub fits : Request → Bool
fits (set_channel freq) = ltb 425000000 freq && ltb freq (2 ^ 18 * 15625)
fits
      (set_rx_config bandwidth sf cr preamble symb_timeout fix_len payload_len crc_on iq_inverted
        rx_continuous) =
    ltb bandwidth 10
fits (set_tx_config power bandwidth sf cr preamble fix_len crc_on iq_inverted timeout) =
    ltb bandwidth 10
fits (send_out payload) = leb (length payload) 253
fits (emit_wave freq power time) = ltb 425000000 freq && ltb freq (2 ^ 18 * 15625)
fits (set_fsk_tx_config power fdev bandwidth datarate preamble fix_len crc_on timeout) =
    has_row bandwidth && (ltb 0 datarate && ltb fdev (2 ^ 18 * 15625))
fits (set_fsk_rx_config bandwidth datarate preamble time fix_len payload_len crc_on rx_continuous) =
    has_row bandwidth && ltb 0 datarate
fits (write_many addr buffer) = leb (length buffer) 97
fits (read_many addr size) = ltb 0 size && ltb size 256
fits (write_fifo buffer) = leb (length buffer) 253
fits (read_fifo size) = ltb 0 size && ltb size 256
fits (listen last elapsed modem freq threshold limit) =
    leb limit (elapsed last) && (ltb 425000000 freq && ltb freq (2 ^ 18 * 15625))
fits _ = true

-- The chip is awake after the request, whatever it was before.
abbrev pub wakes : Request → Bool
wakes stand_by = true
wakes (set_channel _) = true
wakes (set_modem _) = true
wakes (set_network _) = true
wakes (send_out _) = true
wakes (receive _) = true
wakes (receive_boosted _) = true
wakes (start_cad _) = true
wakes (emit_wave _ _ _) = true
wakes (transmit _) = true
wakes measure = true
wakes (write_one _ _) = true
wakes (read_one _) = true
wakes (write_many _ _) = true
wakes (read_many _ _) = true
wakes (write_fifo _) = true
wakes (read_fifo _) = true
wakes _ = false

-- `RadioTx` only follows a request that wakes the chip, or another `RadioTx`; all else in any order.
abbrev pub ready : Bool → Request → Bool
ready awake (transmit timeout) = awake
ready awake request = fits request

abbrev pub allowed : Bool → List Request → Bool
allowed awake [] = true
allowed awake (request ∷ requests) = ready awake request && allowed (wakes request) requests

abbrev pub run_all : System → Sysfs → List Request → Drive (Unit {0})
run_all system sysfs [] = pure tt
run_all system sysfs (request ∷ requests) = do
  run system sysfs request
  run_all system sysfs requests

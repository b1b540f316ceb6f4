-- ===== src/Modem/Operations.antt =====
-- The operations of functional_module/lora/radio/radio.c, but for the
-- configurations. Delays are left out.
use sufficient_io_t_applicat.Radio.Commands.{
  set_buffer_base_address, set_regulator_mode, sx126x_init, set_cad, set_lora_symb_num_timeout,
  set_rx_boosted, set_cad_params, send_payload, get, set_tx_continuous_wave, set_rx,
  set_rx_duty_cycle, set_sleep, set_tx, set_dio_irq_params, set_standby,
}
use sufficient_io_t_applicat.Base.{
  pos, ℕ, zero, suc, ◌+◌, ◌*◌, ◌%◌, ◌^◌, Bool, true, false, List, leb, ◌==◌, if◌then◌else◌, ℤ,
  pos_part, neg_part,
}
use sufficient_io_t_applicat.Spi.{System}
use sufficient_io_t_applicat.Gpio.{Sysfs}
use sufficient_io_t_applicat.Radio.{
  io_init, reset, spi_init, gfsk, lora, pure, ◌>>=◌, ◌>>◌, write_register,
}
use sufficient_io_t_applicat.Radio.Packets.{
  set_packet_type, set_packet_params, set_rf_frequency, set_tx_params, get_rssi_inst,
}
use sufficient_io_t_applicat.Modem.{
  Timer, tx_timer, rx_timer, cad_timer, set_value, start, Drive, on_chip, change, output,
  packet_params,
}

-- `cadSymbolNum`
unfoldable pub cad_symbol_num : ℕ → ℕ
cad_symbol_num symbols =
    if leb 16 symbols
    then 4
    else if leb 8 symbols
    then 3
    else if leb 4 symbols
    then 2
    else if leb 2 symbols
    then 1
    else 0

abbrev pub bool_code : Bool → ℕ
bool_code b = if b then 1 else 0

-- TimerSetValue and TimerStart.
abbrev pub start_timer : Timer → ℕ → Drive (Unit {0})
start_timer timer value = do output (set_value timer value); output (start timer)

-- A timer is started if the timeout is not 0.
abbrev pub limit : ℕ → Drive (Unit {0})
limit timeout = elim (timeout == 0) [ true ↦ pure tt | false ↦ start_timer rx_timer timeout ]

module _ (system : System) (sysfs : Sysfs) where
  -- `RadioSetPublicNetwork`. It sets the modem with `Current` equal to `Previous`, where
  -- `RadioSetModem` only sets the type of the packets.
  unfoldable pub radio_set_public_network : Bool → Drive (Unit {0})
  unfolding set_packet_type write_register
  radio_set_public_network enable = do
    change (λ v. record v { current = enable; previous = enable })
    on_chip (set_packet_type system sysfs lora)
    on_chip (write_register system sysfs 0x0740 (if enable then 0x34 else 0x14))
    on_chip (write_register system sysfs (0x0740 + 1) (if enable then 0x44 else 0x24))

  -- The two modems: MODEM_LORA is `true`.
  unfoldable pub radio_set_modem : Bool → Drive (Unit {0})
  unfolding radio_set_public_network set_packet_type
  radio_set_modem false = do
    on_chip (set_packet_type system sysfs gfsk)
    change (λ v. record v { current = false })
  radio_set_modem true = do
    on_chip (set_packet_type system sysfs lora)
    m ← get
    elim (bool_code m.variables.current == bool_code m.variables.previous) [
      | true ↦ pure tt
      | false ↦ radio_set_public_network m.variables.previous
    ]

  unfoldable pub radio_sleep : Drive (Unit {0})
  unfolding set_sleep
  radio_sleep = on_chip (set_sleep system sysfs 4)

  unfoldable pub radio_standby : Drive (Unit {0})
  unfolding set_standby
  radio_standby = on_chip (set_standby system sysfs 0)

  unfoldable pub radio_set_channel : ℕ → Drive (Unit {0})
  unfolding set_rf_frequency
  radio_set_channel freq = on_chip (set_rf_frequency system sysfs freq)

  unfoldable pub radio_rssi : Drive ℤ
  unfolding get_rssi_inst
  radio_rssi = on_chip (get_rssi_inst system sysfs)

  -- The lowest bit of each level, with the rounds that are left and the bit that is next.
  unfoldable pub noise_loop : ℕ → ℕ → ℕ → Drive ℕ
  unfolding get_rssi_inst
  noise_loop zero i rnd = pure rnd
  noise_loop (suc left) i rnd = do
    level ← on_chip (get_rssi_inst system sysfs)
    noise_loop left (i + 1) (rnd + (pos_part level + neg_part level) % 2 * 2 ^ i)

  -- `drawn` is the result of `rand1`.
  unfoldable pub radio_random : ℕ → Drive ℕ
  unfolding radio_set_modem set_rx noise_loop radio_sleep
  radio_random drawn = do
    radio_set_modem true
    on_chip (set_rx system sysfs 0)
    rnd ← noise_loop 32 0 0
    radio_sleep
    pure ((rnd + drawn) % 2 ^ 32)

  unfoldable pub radio_send : List ℕ → ℕ → Drive (Unit {0})
  unfolding set_dio_irq_params set_packet_params send_payload
  radio_send buffer size = do
    on_chip (set_dio_irq_params system sysfs 0x0201 0x0201 0 0)
    m ← get
    change (λ v. elim m.radio.packet_type [
      | lora ↦ record v { lora = record v.lora { payload_length = size } }
      | _ ↦ record v { gfsk = record v.gfsk { payload_length = size } }
    ])
    m' ← get
    on_chip (set_packet_params system sysfs (packet_params m'.variables))
    on_chip (send_payload system sysfs buffer size 0)
    start_timer tx_timer m.variables.tx_timeout

  unfoldable pub radio_rx : ℕ → Drive (Unit {0})
  unfolding set_dio_irq_params set_lora_symb_num_timeout set_rx
  radio_rx timeout = do
    on_chip (set_dio_irq_params system sysfs 0x0242 0x0242 0 0)
    limit timeout
    m ← get
    elim m.variables.rx_continuous [
      | true ↦ (do
        on_chip (set_lora_symb_num_timeout system sysfs 0)
        on_chip (set_rx system sysfs 0xFFFFFF))
      | false ↦ on_chip (set_rx system sysfs (m.variables.rx_timeout * 2 ^ 6 % 2 ^ 32))
    ]

  unfoldable pub radio_rx_boosted : ℕ → Drive (Unit {0})
  unfolding set_dio_irq_params set_rx_boosted
  radio_rx_boosted timeout = do
    on_chip (set_dio_irq_params system sysfs 0x0002 0x0002 0 0)
    limit timeout
    m ← get
    on_chip (
        set_rx_boosted system sysfs
          (if m.variables.rx_continuous then 0xFFFFFF else m.variables.rx_timeout * 2 ^ 6 % 2 ^ 32))

  unfoldable pub radio_set_rx_duty_cycle : ℕ → ℕ → Drive (Unit {0})
  unfolding set_rx_duty_cycle
  radio_set_rx_duty_cycle rx_time sleep_time =
      on_chip (set_rx_duty_cycle system sysfs rx_time sleep_time)

  unfoldable pub radio_start_cad : ℕ → Drive (Unit {0})
  unfolding cad_symbol_num set_dio_irq_params set_cad_params set_cad
  radio_start_cad symbols = do
    m ← get
    on_chip (set_dio_irq_params system sysfs 0x0180 0x0180 0 0)
    on_chip (
        set_cad_params system sysfs (cad_symbol_num symbols) ((m.variables.spreading + 18) % 2 ^ 8)
          10 0 0)
    on_chip (set_cad system sysfs)
    start_timer cad_timer 2000

  unfoldable pub radio_tx : ℕ → Drive (Unit {0})
  unfolding set_tx
  radio_tx timeout = on_chip (set_tx system sysfs (timeout * 2 ^ 6 % 2 ^ 32))

  unfoldable pub radio_set_tx_continuous_wave : ℕ → ℤ → ℕ → Drive (Unit {0})
  unfolding set_rf_frequency set_tx_params set_tx_continuous_wave
  radio_set_tx_continuous_wave freq power time = do
    on_chip (set_rf_frequency system sysfs freq)
    on_chip (set_tx_params system sysfs power 0x02)
    on_chip (set_tx_continuous_wave system sysfs)
    start_timer rx_timer (time * 1000)

  unfoldable pub radio_set_max_payload_length : Bool → ℕ → Drive (Unit {0})
  unfolding set_packet_params
  radio_set_max_payload_length true size = do
    change (λ v. record v {
      max_payload_length = size;
      lora = record v.lora { payload_length = size };
    })
    m ← get
    on_chip (set_packet_params system sysfs (packet_params m.variables))
  radio_set_max_payload_length false size = do
    m ← get
    elim (m.variables.gfsk.header == 1) [
      | false ↦ pure tt
      | true ↦ (do
        change (λ v. record v {
          max_payload_length = size;
          gfsk = record v.gfsk { payload_length = size };
        })
        m' ← get
        on_chip (set_packet_params system sysfs (packet_params m'.variables)))
    ]

  -- `RadioInit`, by whether the thread for interrupts can be created. The result of `SX126xSpiInit` is
  -- not looked at. The timers are set up with the functions for their ends.
  unfoldable pub radio_init : Bool → ℕ → Drive (Unit {0})
  unfolding io_init reset spi_init sx126x_init set_standby set_regulator_mode
      set_buffer_base_address set_tx_params set_dio_irq_params
  radio_init created handler = do
    on_chip (io_init system sysfs)
    on_chip (reset system sysfs)
    on_chip (spi_init system sysfs)
    on_chip (sx126x_init system sysfs created handler)
    on_chip (set_standby system sysfs 0)
    on_chip (set_regulator_mode system sysfs 0x01)
    on_chip (set_buffer_base_address system sysfs 0x00 0x00)
    on_chip (set_tx_params system sysfs (pos 0) 0x04)
    on_chip (set_dio_irq_params system sysfs 0 0 0 0)
    change (λ v. record v { irq_fired = false })

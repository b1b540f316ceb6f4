-- ===== src/Modem/Waking/Requests.antt =====
-- The functions of functional_module/lora/radio/radio.c, from a radio whose chip may be asleep to one
-- whose chip is awake, or may be asleep again.
use sufficient_io_t_applicat.Radio.Steps.{
  Takes, bind, by_test-Takes, get-Takes, pure-Takes, strengthen,
}
use sufficient_io_t_applicat.Radio.Waking.Sequences.{set_cad_params-IsAwake, send_payload-IsAwake}
use sufficient_io_t_applicat.Radio.Waking.Parameters.{
  set_tx_params-IsAwake, set_rf_frequency-IsAwake, set_packet_params-IsPolite,
  set_packet_type-IsAwake,
}
use sufficient_io_t_applicat.Radio.Waking.Readings.{get_rssi_inst-IsAwake}
use sufficient_io_t_applicat.Radio.Waking.Operations.{
  set_cad-IsAwake, set_tx_continuous_wave-IsAwake, set_rx_boosted-IsAwake,
  set_lora_symb_num_timeout-IsAwake, set_tx-IsAwake, set_dio_irq_params-IsAwake, set_rx-IsAwake,
  set_rx_duty_cycle-IsPolite, set_standby-IsAwake, set_sleep-IsPolite,
}
use sufficient_io_t_applicat.Modem.Operations.{
  cad_symbol_num, radio_start_cad, radio_set_tx_continuous_wave, radio_set_max_payload_length,
  radio_set_rx_duty_cycle, radio_rx_boosted, radio_tx, radio_set_channel, radio_rx, radio_send,
  radio_random, noise_loop, bool_code, radio_set_public_network, radio_sleep, radio_standby,
  radio_set_modem,
}
use sufficient_io_t_applicat.Base.{
  ℕ, zero, suc, ◌+◌, ◌*◌, ◌%◌, ◌^◌, ◌≤◌, ◌<◌, Bool, true, false, List, arith, ◌==◌, if◌then◌else◌,
  length, ℤ, pos_part, neg_part, refl,
}
use sufficient_io_t_applicat.Spi.{System}
use sufficient_io_t_applicat.Gpio.{Sysfs}
use sufficient_io_t_applicat.Radio.{gfsk, lora, no_packet}
use sufficient_io_t_applicat.Radio.Waking.{AnswersInFull, from_IsAwake, write_register-IsAwake}
use sufficient_io_t_applicat.Modem.{tx_timer, rx_timer, cad_timer, packet_params}
use sufficient_io_t_applicat.Modem.Waking.{
  relaxed, Polite, Awake, on_chip-Polite, on_chip-Awake, stays-Awake, awakened, change-Polite,
  change-Awake, start_timer-Awake, limit-Awake,
}

module _ (system : System) (sysfs : Sysfs) (dev : ℕ) where
  pub radio_set_public_network-Awake :
      (enable : Bool)
      → Takes (Polite dev) (radio_set_public_network system sysfs enable) (λ _. Awake dev)
  unfolding radio_set_public_network
  radio_set_public_network-Awake enable = bind (change-Polite dev _ (λ v. refl)) λ _.
      bind (on_chip-Awake dev (set_packet_type-IsAwake system sysfs dev lora)) λ _.
        bind
          (stays-Awake dev (
            from_IsAwake dev
              (write_register-IsAwake system sysfs dev 0x0740 (if enable then 0x34 else 0x14))))
          λ _. stays-Awake dev (
            from_IsAwake dev (
              write_register-IsAwake system sysfs dev (0x0740 + 1) (if enable then 0x44 else 0x24)))

  pub radio_set_modem-Awake :
      (modem : Bool) → Takes (Polite dev) (radio_set_modem system sysfs modem) (λ _. Awake dev)
  unfolding radio_set_modem
  radio_set_modem-Awake false =
      bind (on_chip-Awake dev (set_packet_type-IsAwake system sysfs dev gfsk))
        λ _. change-Awake dev _ (λ v. refl)
  radio_set_modem-Awake true =
      bind (on_chip-Awake dev (set_packet_type-IsAwake system sysfs dev lora)) λ _.
        bind get-Takes λ m.
          by_test-Takes (bool_code m.variables.current == bool_code m.variables.previous)
            (pure-Takes tt)
            (strengthen (relaxed dev) (radio_set_public_network-Awake m.variables.previous))

  pub radio_sleep-Polite : Takes (Polite dev) (radio_sleep system sysfs) (λ _. Polite dev)
  unfolding radio_sleep
  radio_sleep-Polite = on_chip-Polite dev (set_sleep-IsPolite system sysfs dev 4)

  pub radio_standby-Awake : Takes (Polite dev) (radio_standby system sysfs) (λ _. Awake dev)
  unfolding radio_standby
  radio_standby-Awake = on_chip-Awake dev (set_standby-IsAwake system sysfs dev 0)

  pub radio_send-Awake :
      (payload : List ℕ)
      → length payload ≤ 253
      → Takes (Polite dev) (radio_send system sysfs payload (length payload)) (λ _. Awake dev)
  unfolding radio_send
  radio_send-Awake payload fits =
      bind
        (awakened dev
          (on_chip-Awake dev (set_dio_irq_params-IsAwake system sysfs dev 0x0201 0x0201 0 0)))
        λ _. bind get-Takes λ m.
          bind
            (change-Polite dev
              (λ v. elim m.radio.packet_type [
                | lora ↦ record v { lora = record v.lora { payload_length = length payload } }
                | gfsk ↦ record v { gfsk = record v.gfsk { payload_length = length payload } }
                | no_packet ↦ record v { gfsk = record v.gfsk { payload_length = length payload } }
              ])
              (λ v. ground arith))
            λ _. bind get-Takes λ m'.
              bind
                (on_chip-Polite dev
                  (set_packet_params-IsPolite system sysfs dev (packet_params m'.variables)))
                λ _.
                  bind (on_chip-Awake dev (send_payload-IsAwake system sysfs dev payload 0 fits))
                    λ _. start_timer-Awake dev tx_timer m.variables.tx_timeout

  pub radio_rx-Awake :
      (timeout : ℕ) → Takes (Polite dev) (radio_rx system sysfs timeout) (λ _. Awake dev)
  unfolding radio_rx
  radio_rx-Awake timeout =
      bind (on_chip-Awake dev (set_dio_irq_params-IsAwake system sysfs dev 0x0242 0x0242 0 0)) λ _.
        bind (limit-Awake dev timeout) λ _. bind get-Takes λ m.
          by_test-Takes m.variables.rx_continuous
            (bind
              (stays-Awake dev
                (from_IsAwake dev (set_lora_symb_num_timeout-IsAwake system sysfs dev 0)))
              λ _. stays-Awake dev (set_rx-IsAwake system sysfs dev 0xFFFFFF))
            (stays-Awake dev
              (set_rx-IsAwake system sysfs dev (m.variables.rx_timeout * 2 ^ 6 % 2 ^ 32)))

  pub radio_rx_boosted-Awake :
      (timeout : ℕ) → Takes (Polite dev) (radio_rx_boosted system sysfs timeout) (λ _. Awake dev)
  unfolding radio_rx_boosted
  radio_rx_boosted-Awake timeout =
      bind (on_chip-Awake dev (set_dio_irq_params-IsAwake system sysfs dev 0x0002 0x0002 0 0)) λ _.
        bind (limit-Awake dev timeout) λ _. bind get-Takes λ m. stays-Awake dev (
          set_rx_boosted-IsAwake system sysfs dev (
            if m.variables.rx_continuous
            then 0xFFFFFF
            else m.variables.rx_timeout * 2 ^ 6 % 2 ^ 32))

  pub radio_set_rx_duty_cycle-Polite :
      (rx_time sleep_time : ℕ)
      → Takes
          (Polite dev)
          (radio_set_rx_duty_cycle system sysfs rx_time sleep_time)
          (λ _. Polite dev)
  unfolding radio_set_rx_duty_cycle
  radio_set_rx_duty_cycle-Polite rx_time sleep_time =
      on_chip-Polite dev (set_rx_duty_cycle-IsPolite system sysfs dev rx_time sleep_time)

  pub radio_start_cad-Awake :
      (symbols : ℕ) → Takes (Polite dev) (radio_start_cad system sysfs symbols) (λ _. Awake dev)
  unfolding radio_start_cad
  radio_start_cad-Awake symbols = bind get-Takes λ m.
      bind (on_chip-Awake dev (set_dio_irq_params-IsAwake system sysfs dev 0x0180 0x0180 0 0)) λ _.
        bind
          (stays-Awake dev (
            from_IsAwake dev (
              set_cad_params-IsAwake system sysfs dev (cad_symbol_num symbols)
                ((m.variables.spreading + 18) % 2 ^ 8) 10 0 0)))
          λ _.
            bind (stays-Awake dev (from_IsAwake dev (set_cad-IsAwake system sysfs dev)))
              λ _. start_timer-Awake dev cad_timer 2000

  pub radio_tx-Awake :
      (timeout : ℕ) → Takes (Awake dev) (radio_tx system sysfs timeout) (λ _. Awake dev)
  unfolding radio_tx
  radio_tx-Awake timeout =
      stays-Awake dev (set_tx-IsAwake system sysfs dev (timeout * 2 ^ 6 % 2 ^ 32))

  pub radio_set_channel-Awake :
      (freq : ℕ)
      → 425000000 < freq
      → freq < 2 ^ 18 * 15625
      → Takes (Polite dev) (radio_set_channel system sysfs freq) (λ _. Awake dev)
  unfolding radio_set_channel
  radio_set_channel-Awake freq high low =
      on_chip-Awake dev (set_rf_frequency-IsAwake system sysfs dev freq high low)

  pub radio_set_tx_continuous_wave-Awake :
      (freq : ℕ) (power : ℤ) (time : ℕ)
      → 425000000 < freq
      → freq < 2 ^ 18 * 15625
      → Takes
          (Polite dev)
          (radio_set_tx_continuous_wave system sysfs freq power time)
          (λ _. Awake dev)
  unfolding radio_set_tx_continuous_wave
  radio_set_tx_continuous_wave-Awake freq power time high low =
      bind
        (awakened dev (on_chip-Awake dev (set_rf_frequency-IsAwake system sysfs dev freq high low)))
        λ _.
          bind
            (awakened dev (on_chip-Awake dev (set_tx_params-IsAwake system sysfs dev power 0x02)))
            λ _.
              bind (on_chip-Awake dev (set_tx_continuous_wave-IsAwake system sysfs dev))
                λ _. start_timer-Awake dev rx_timer (time * 1000)

  pub radio_set_max_payload_length-Polite :
      (modem : Bool) (size : ℕ)
      → Takes (Polite dev) (radio_set_max_payload_length system sysfs modem size) (λ _. Polite dev)
  unfolding radio_set_max_payload_length
  radio_set_max_payload_length-Polite true size = bind (change-Polite dev _ (λ v. refl)) λ _.
      bind get-Takes λ m.
        on_chip-Polite dev (set_packet_params-IsPolite system sysfs dev (packet_params m.variables))
  radio_set_max_payload_length-Polite false size = bind get-Takes λ m.
      by_test-Takes (m.variables.gfsk.header == 1)
        (bind (change-Polite dev _ (λ v. refl)) λ _. bind get-Takes λ m'.
          on_chip-Polite dev
            (set_packet_params-IsPolite system sysfs dev (packet_params m'.variables)))
        (pure-Takes tt)

  module _ (answers : AnswersInFull system) where
    noise_loop-Awake :
        (left i rnd : ℕ) → Takes (Awake dev) (noise_loop system sysfs left i rnd) (λ _. Awake dev)
    unfolding noise_loop
    noise_loop-Awake zero i rnd = pure-Takes rnd
    noise_loop-Awake (suc left) i rnd =
        bind (stays-Awake dev (from_IsAwake dev (get_rssi_inst-IsAwake system sysfs dev answers)))
          λ level.
            noise_loop-Awake left (i + 1) (rnd + (pos_part level + neg_part level) % 2 * 2 ^ i)

    pub radio_random-Polite :
        (drawn : ℕ) → Takes (Polite dev) (radio_random system sysfs drawn) (λ _. Polite dev)
    unfolding radio_random
    radio_random-Polite drawn = bind (radio_set_modem-Awake true) λ _.
        bind (stays-Awake dev (set_rx-IsAwake system sysfs dev 0)) λ _.
          bind (noise_loop-Awake 32 0 0) λ rnd.
            bind (strengthen (relaxed dev) radio_sleep-Polite)
              λ _. pure-Takes ((rnd + drawn) % 2 ^ 32)

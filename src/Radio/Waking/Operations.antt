-- ===== src/Radio/Waking/Operations.antt =====
-- Each operation of functional_module/lora/sx126x.c, from a radio whose chip may be asleep, or from
-- one whose chip is awake, to one whose chip is awake.
use sufficient_io_t_applicat.Radio.Steps.{Takes, bind}
use sufficient_io_t_applicat.Radio.Commands.{
  bytes16, bytes24, set_sleep, set_node_address, set_dio3_as_tcxo_ctrl, set_tx_infinite_preamble,
  set_buffer_base_address, set_broadcast_address, set_fs, set_rx_duty_cycle, set_rx, set_tx,
  clear_device_errors, set_stop_rx_timer_on_preamble_detect, set_regulator_mode, set_pa_config,
  set_lora_symb_num_timeout, set_dio_irq_params, calibrate, set_rx_tx_fallback_mode, set_standby,
  set_rx_boosted, set_cad, clear_irq_status, set_tx_continuous_wave, set_dio2_as_rf_switch_ctrl,
}
use sufficient_io_t_applicat.Base.{
  refl, ℕ, ◌%◌, ◌^◌, refl, Bool, [], ◌∷◌, ◌++◌, arith, ◌==◌, if◌then◌else◌,
}
use sufficient_io_t_applicat.Spi.{System}
use sufficient_io_t_applicat.Gpio.{Sysfs}
use sufficient_io_t_applicat.Radio.{Mode}
use sufficient_io_t_applicat.Radio.Waking.{
  IsPolite, IsAwake, set_mode-IsAwake, from_IsAwake, write_command-IsAwake, write_register-IsAwake,
  sleeping-IsPolite,
}

module _ (system : System) (sysfs : Sysfs) (dev : ℕ) where
  pub set_standby-IsAwake :
      (config : ℕ) → Takes (IsPolite dev) (set_standby system sysfs config) (λ _. IsAwake dev)
  unfolding set_standby
  set_standby-IsAwake config =
      bind (write_command-IsAwake system sysfs dev 0x80 (config ∷ []) refl (omega arith))
        (λ _. set_mode-IsAwake dev (if config == 0 then Mode.stdby_rc else Mode.stdby_xosc))

  pub set_fs-IsAwake : Takes (IsPolite dev) (set_fs system sysfs) (λ _. IsAwake dev)
  unfolding set_fs
  set_fs-IsAwake =
      bind (write_command-IsAwake system sysfs dev 0xC1 ([]) refl (omega arith))
        (λ _. set_mode-IsAwake dev Mode.fs)

  pub set_cad-IsAwake : Takes (IsPolite dev) (set_cad system sysfs) (λ _. IsAwake dev)
  unfolding set_cad
  set_cad-IsAwake =
      bind (write_command-IsAwake system sysfs dev 0xC5 ([]) refl (omega arith))
        (λ _. set_mode-IsAwake dev Mode.cad)

  pub set_tx_continuous_wave-IsAwake :
      Takes (IsPolite dev) (set_tx_continuous_wave system sysfs) (λ _. IsAwake dev)
  unfolding set_tx_continuous_wave
  set_tx_continuous_wave-IsAwake =
      write_command-IsAwake system sysfs dev 0xD1 ([]) refl (omega arith)

  pub set_tx_infinite_preamble-IsAwake :
      Takes (IsPolite dev) (set_tx_infinite_preamble system sysfs) (λ _. IsAwake dev)
  unfolding set_tx_infinite_preamble
  set_tx_infinite_preamble-IsAwake =
      write_command-IsAwake system sysfs dev 0xD2 ([]) refl (omega arith)

  pub set_stop_rx_timer_on_preamble_detect-IsAwake :
      (enable : Bool)
      → Takes
          (IsPolite dev)
          (set_stop_rx_timer_on_preamble_detect system sysfs enable)
          (λ _. IsAwake dev)
  unfolding set_stop_rx_timer_on_preamble_detect
  set_stop_rx_timer_on_preamble_detect-IsAwake enable =
      write_command-IsAwake system sysfs dev 0x9F ((if enable then 1 else 0) ∷ []) refl
        (omega arith)

  pub set_lora_symb_num_timeout-IsAwake :
      (symbols : ℕ)
      → Takes (IsPolite dev) (set_lora_symb_num_timeout system sysfs symbols) (λ _. IsAwake dev)
  unfolding set_lora_symb_num_timeout
  set_lora_symb_num_timeout-IsAwake symbols =
      write_command-IsAwake system sysfs dev 0xA0 (symbols ∷ []) refl (omega arith)

  pub set_regulator_mode-IsAwake :
      (regulator : ℕ)
      → Takes (IsPolite dev) (set_regulator_mode system sysfs regulator) (λ _. IsAwake dev)
  unfolding set_regulator_mode
  set_regulator_mode-IsAwake regulator =
      write_command-IsAwake system sysfs dev 0x96 (regulator ∷ []) refl (omega arith)

  pub calibrate-IsAwake :
      (param : ℕ) → Takes (IsPolite dev) (calibrate system sysfs param) (λ _. IsAwake dev)
  unfolding calibrate
  calibrate-IsAwake param =
      write_command-IsAwake system sysfs dev 0x89 (param ∷ []) refl (omega arith)

  pub set_pa_config-IsAwake :
      (duty_cycle hp_max device pa_lut : ℕ)
      → Takes
          (IsPolite dev)
          (set_pa_config system sysfs duty_cycle hp_max device pa_lut)
          (λ _. IsAwake dev)
  unfolding set_pa_config
  set_pa_config-IsAwake duty_cycle hp_max device pa_lut =
      write_command-IsAwake system sysfs dev 0x95 (duty_cycle ∷ hp_max ∷ device ∷ pa_lut ∷ []) refl
        (omega arith)

  pub set_rx_tx_fallback_mode-IsAwake :
      (fallback : ℕ)
      → Takes (IsPolite dev) (set_rx_tx_fallback_mode system sysfs fallback) (λ _. IsAwake dev)
  unfolding set_rx_tx_fallback_mode
  set_rx_tx_fallback_mode-IsAwake fallback =
      write_command-IsAwake system sysfs dev 0x93 (fallback ∷ []) refl (omega arith)

  pub set_dio_irq_params-IsAwake :
      (irq dio1 dio2 dio3 : ℕ)
      → Takes (IsPolite dev) (set_dio_irq_params system sysfs irq dio1 dio2 dio3) (λ _. IsAwake dev)
  unfolding set_dio_irq_params
  set_dio_irq_params-IsAwake irq dio1 dio2 dio3 =
      write_command-IsAwake system sysfs dev 0x08
        (bytes16 irq ++ (bytes16 dio1 ++ (bytes16 dio2 ++ bytes16 dio3))) refl (omega arith)

  pub set_dio2_as_rf_switch_ctrl-IsAwake :
      (enable : ℕ)
      → Takes (IsPolite dev) (set_dio2_as_rf_switch_ctrl system sysfs enable) (λ _. IsAwake dev)
  unfolding set_dio2_as_rf_switch_ctrl
  set_dio2_as_rf_switch_ctrl-IsAwake enable =
      write_command-IsAwake system sysfs dev 0x9D (enable ∷ []) refl (omega arith)

  pub set_dio3_as_tcxo_ctrl-IsAwake :
      (voltage timeout : ℕ)
      → Takes (IsPolite dev) (set_dio3_as_tcxo_ctrl system sysfs voltage timeout) (λ _. IsAwake dev)
  unfolding set_dio3_as_tcxo_ctrl
  set_dio3_as_tcxo_ctrl-IsAwake voltage timeout =
      write_command-IsAwake system sysfs dev 0x97 (voltage % 2 ^ 3 ∷ bytes24 timeout) refl
        (omega arith)

  pub set_buffer_base_address-IsAwake :
      (tx_base rx_base : ℕ)
      → Takes
          (IsPolite dev)
          (set_buffer_base_address system sysfs tx_base rx_base)
          (λ _. IsAwake dev)
  unfolding set_buffer_base_address
  set_buffer_base_address-IsAwake tx_base rx_base =
      write_command-IsAwake system sysfs dev 0x8F (tx_base ∷ rx_base ∷ []) refl (omega arith)

  pub clear_device_errors-IsAwake :
      Takes (IsPolite dev) (clear_device_errors system sysfs) (λ _. IsAwake dev)
  unfolding clear_device_errors
  clear_device_errors-IsAwake =
      write_command-IsAwake system sysfs dev 0x07 (0 ∷ 0 ∷ []) refl (omega arith)

  pub clear_irq_status-IsAwake :
      (irq : ℕ) → Takes (IsPolite dev) (clear_irq_status system sysfs irq) (λ _. IsAwake dev)
  unfolding clear_irq_status
  clear_irq_status-IsAwake irq =
      write_command-IsAwake system sysfs dev 0x02 (bytes16 irq) refl (omega arith)

  pub set_node_address-IsAwake :
      (address : ℕ)
      → Takes (IsPolite dev) (set_node_address system sysfs address) (λ _. IsAwake dev)
  unfolding set_node_address
  set_node_address-IsAwake address = write_register-IsAwake system sysfs dev 0x06CD address

  pub set_broadcast_address-IsAwake :
      (address : ℕ)
      → Takes (IsPolite dev) (set_broadcast_address system sysfs address) (λ _. IsAwake dev)
  unfolding set_broadcast_address
  set_broadcast_address-IsAwake address = write_register-IsAwake system sysfs dev 0x06CE address

  pub set_sleep-IsPolite :
      (config : ℕ) → Takes (IsPolite dev) (set_sleep system sysfs config) (λ _. IsPolite dev)
  unfolding set_sleep
  set_sleep-IsPolite config =
      sleeping-IsPolite system sysfs dev 0x84 (config ∷ []) Mode.sleep refl (omega arith) refl

  pub set_rx_duty_cycle-IsPolite :
      (rx_time sleep_time : ℕ)
      → Takes (IsPolite dev) (set_rx_duty_cycle system sysfs rx_time sleep_time) (λ _. IsPolite dev)
  unfolding set_rx_duty_cycle
  set_rx_duty_cycle-IsPolite rx_time sleep_time =
      sleeping-IsPolite system sysfs dev 0x94 (bytes24 rx_time ++ bytes24 sleep_time) Mode.rx_dc
        refl (omega arith) refl

  pub set_tx-IsAwake :
      (timeout : ℕ) → Takes (IsAwake dev) (set_tx system sysfs timeout) (λ _. IsAwake dev)
  unfolding set_tx
  set_tx-IsAwake timeout = bind (set_mode-IsAwake dev Mode.tx) λ _.
      from_IsAwake dev
        (write_command-IsAwake system sysfs dev 0x83 (bytes24 timeout) refl (omega arith))

  pub set_rx-IsAwake :
      (timeout : ℕ) → Takes (IsAwake dev) (set_rx system sysfs timeout) (λ _. IsAwake dev)
  unfolding set_rx
  set_rx-IsAwake timeout = bind (set_mode-IsAwake dev Mode.rx) λ _.
      from_IsAwake dev
        (write_command-IsAwake system sysfs dev 0x82 (bytes24 timeout) refl (omega arith))

  pub set_rx_boosted-IsAwake :
      (timeout : ℕ) → Takes (IsAwake dev) (set_rx_boosted system sysfs timeout) (λ _. IsAwake dev)
  unfolding set_rx_boosted
  set_rx_boosted-IsAwake timeout = bind (set_mode-IsAwake dev Mode.rx) λ _.
      bind (from_IsAwake dev (write_register-IsAwake system sysfs dev 0x08AC 0x96)) λ _.
        from_IsAwake dev
          (write_command-IsAwake system sysfs dev 0x82 (bytes24 timeout) refl (omega arith))

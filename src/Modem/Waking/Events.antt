-- ===== src/Modem/Waking/Events.antt =====
-- The interrupts and timeouts of functional_module/lora/radio/radio.c.
use sufficient_io_t_applicat.Radio.Steps.{Takes, bind, by_test-Takes, get-Takes}
use sufficient_io_t_applicat.Radio.Waking.Readings.{
  get_irq_status-IsAwake, get_packet_status-IsAwake, get_payload-IsAwake,
}
use sufficient_io_t_applicat.Radio.Waking.Operations.{clear_irq_status-IsAwake}
use sufficient_io_t_applicat.Modem.Interrupts.{
  on_tx_timeout_irq, on_cad_timeout_irq, on_rx_timeout_irq, is_set, end_header, end_time, end_cad,
  end_tx, radio_irq_process, radio_on_dio_irq, end_rx,
}
use sufficient_io_t_applicat.Base.{ℕ, Bool, true, false, not, none, some, arith, ◌==◌, refl}
use sufficient_io_t_applicat.Spi.{System}
use sufficient_io_t_applicat.Gpio.{Sysfs}
use sufficient_io_t_applicat.Radio.Waking.{AnswersInFull}
use sufficient_io_t_applicat.Modem.{
  tx_timer, rx_timer, cad_timer, stop, tx_done, tx_timeout, rx_timeout, rx_error, rx_done, cad_done,
  mode_code,
}
use sufficient_io_t_applicat.Modem.Waking.{
  Polite, on_chip-Awake, awakened, when-Polite, change-Polite, output-Polite, give_up-Polite,
}
use sufficient_io_t_applicat.Modem.Waking.Requests.{radio_sleep-Polite}

module _ (system : System) (sysfs : Sysfs) (dev : ℕ) where
  end_tx-Polite : Takes (Polite dev) end_tx (λ _. Polite dev)
  unfolding end_tx
  end_tx-Polite = bind (output-Polite dev (stop tx_timer)) λ _. give_up-Polite dev tx_done

  end_cad-Polite : (found : Bool) → Takes (Polite dev) (end_cad found) (λ _. Polite dev)
  unfolding end_cad
  end_cad-Polite found =
      bind (output-Polite dev (stop cad_timer)) λ _. output-Polite dev (cad_done found)

  end_header-Polite : Takes (Polite dev) end_header (λ _. Polite dev)
  unfolding end_header
  end_header-Polite = bind (output-Polite dev (stop rx_timer)) λ _. output-Polite dev rx_timeout

  end_time-Polite : Takes (Polite dev) end_time (λ _. Polite dev)
  unfolding end_time
  end_time-Polite = bind get-Takes λ m.
      by_test-Takes (mode_code m.radio.mode == 4)
        (bind (output-Polite dev (stop tx_timer)) λ _. give_up-Polite dev tx_timeout)
        (when-Polite dev (mode_code m.radio.mode == 5)
          (bind (output-Polite dev (stop rx_timer)) λ _. give_up-Polite dev rx_timeout))

  -- A timer that ends: `RadioOnTxTimeoutIrq`, `RadioOnRxTimeoutIrq`, `RadioOnCadTimeoutIrq`.
  pub on_tx_timeout_irq-Polite : Takes (Polite dev) on_tx_timeout_irq (λ _. Polite dev)
  unfolding on_tx_timeout_irq
  on_tx_timeout_irq-Polite = give_up-Polite dev tx_timeout

  pub on_rx_timeout_irq-Polite : Takes (Polite dev) on_rx_timeout_irq (λ _. Polite dev)
  unfolding on_rx_timeout_irq
  on_rx_timeout_irq-Polite = give_up-Polite dev rx_timeout

  pub on_cad_timeout_irq-Polite : Takes (Polite dev) on_cad_timeout_irq (λ _. Polite dev)
  unfolding on_cad_timeout_irq
  on_cad_timeout_irq-Polite = give_up-Polite dev (cad_done false)

  module _ (answers : AnswersInFull system) where
    end_rx-Polite :
        (crc_wrong : Bool) → Takes (Polite dev) (end_rx system sysfs crc_wrong) (λ _. Polite dev)
    unfolding end_rx
    end_rx-Polite crc_wrong = bind (output-Polite dev (stop rx_timer)) λ _.
        bind
          (awakened dev
            (on_chip-Awake dev (get_payload-IsAwake system sysfs dev answers 255 (omega arith))))
          λ (size, payload).
            bind
              (change-Polite dev
                (λ v. record v {
                  rx_payload = elim payload [ none ↦ v.rx_payload | some bytes ↦ bytes ];
                })
                (λ v. refl))
              λ _. bind (radio_sleep-Polite system sysfs dev) λ _.
                bind
                  (awakened dev
                    (on_chip-Awake dev (get_packet_status-IsAwake system sysfs dev answers)))
                  λ status.
                    bind (change-Polite dev (λ v. record v { packet_status = status }) (λ v. refl))
                      λ _. bind get-Takes λ m. when-Polite dev (not crc_wrong) (
                        output-Polite dev
                          (rx_done m.variables.rx_payload size m.variables.packet_status))

    pub radio_on_dio_irq-Polite :
        Takes (Polite dev) (radio_on_dio_irq system sysfs) (λ _. Polite dev)
    unfolding radio_on_dio_irq radio_irq_process
    radio_on_dio_irq-Polite =
        bind (change-Polite dev (λ v. record v { irq_fired = true }) (λ v. refl)) λ _.
          bind get-Takes λ m. when-Polite dev m.variables.irq_fired (
            bind (change-Polite dev (λ v. record v { irq_fired = false }) (λ v. refl)) λ _.
              bind
                (awakened dev (on_chip-Awake dev (get_irq_status-IsAwake system sysfs dev answers)))
                λ regs.
                  bind
                    (awakened dev
                      (on_chip-Awake dev (clear_irq_status-IsAwake system sysfs dev 0xFFFF)))
                    λ _. bind (when-Polite dev (is_set regs 0x0001) end_tx-Polite) λ _.
                      bind
                        (when-Polite dev (is_set regs 0x0002) (end_rx-Polite (is_set regs 0x0040)))
                        λ _.
                          bind (when-Polite dev (is_set regs 0x0040) (output-Polite dev rx_error))
                            λ _.
                              bind
                                (when-Polite dev (is_set regs 0x0080)
                                  (end_cad-Polite (is_set regs 0x0100)))
                                λ _.
                                  bind (when-Polite dev (is_set regs 0x0200) end_time-Polite)
                                    λ _. when-Polite dev (is_set regs 0x0020) end_header-Polite)

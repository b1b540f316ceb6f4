-- ===== src/Modem/Interrupts.antt =====
-- The interrupts and timeouts of functional_module/lora/radio/radio.c: what is stopped, what mode is
-- set, and which callbacks are called.
use Prim.Native.Nat.{bit_and}
use sufficient_io_t_applicat.Base.{ℕ, Bool, true, false, not, none, some, ◌==◌}
use sufficient_io_t_applicat.Spi.{System}
use sufficient_io_t_applicat.Gpio.{Sysfs}
use sufficient_io_t_applicat.Radio.{Mode, pure, set_mode, ◌>>=◌, ◌>>◌}
use sufficient_io_t_applicat.Radio.Commands.{get, clear_irq_status}
use sufficient_io_t_applicat.Radio.Packets.{get_irq_status, get_payload, get_packet_status}
use sufficient_io_t_applicat.Modem.{
  tx_timer, rx_timer, cad_timer, stop, tx_done, tx_timeout, rx_timeout, rx_error, rx_done, cad_done,
  Drive, on_chip, change, output, Output, mode_code,
}
use sufficient_io_t_applicat.Modem.Operations.{radio_sleep}

-- `( irqRegs & irq ) == irq`
abbrev pub is_set : ℕ → ℕ → Bool
is_set regs irq = bit_and regs irq == irq

-- A step that is taken under a condition.
abbrev pub when : Bool → Drive (Unit {0}) → Drive (Unit {0})
when b step = elim b [ true ↦ step | false ↦ pure tt ]

-- The operating mode MODE_SLEEP, and a callback; nothing is sent to the chip.
abbrev pub give_up : Output → Drive (Unit {0})
give_up o = do on_chip (set_mode Mode.sleep); output o

unfoldable pub on_tx_timeout_irq : Drive (Unit {0})
on_tx_timeout_irq = give_up tx_timeout

unfoldable pub on_rx_timeout_irq : Drive (Unit {0})
on_rx_timeout_irq = give_up rx_timeout

unfoldable pub on_cad_timeout_irq : Drive (Unit {0})
on_cad_timeout_irq = give_up (cad_done false)

-- The parts of `RadioIrqProcess`, each for a bit of the status.
unfoldable pub end_tx : Drive (Unit {0})
end_tx = do output (stop tx_timer); give_up tx_done

unfoldable pub end_cad : Bool → Drive (Unit {0})
end_cad found = do output (stop cad_timer); output (cad_done found)

unfoldable pub end_time : Drive (Unit {0})
end_time = do
  m ← get
  elim (mode_code m.radio.mode == 4) [
    | true ↦ (do output (stop tx_timer); give_up tx_timeout)
    | false ↦ when (mode_code m.radio.mode == 5) (do output (stop rx_timer); give_up rx_timeout)
  ]

unfoldable pub end_header : Drive (Unit {0})
end_header = do output (stop rx_timer); output rx_timeout

module _ (system : System) (sysfs : Sysfs) where
  -- A payload that is too large leaves what was there.
  unfoldable pub end_rx : Bool → Drive (Unit {0})
  unfolding get_payload radio_sleep get_packet_status
  end_rx crc_wrong = do
    output (stop rx_timer)
    (size, payload) ← on_chip (get_payload system sysfs 255)
    change
        (λ v. record v { rx_payload = elim payload [ none ↦ v.rx_payload | some bytes ↦ bytes ] })
    radio_sleep system sysfs
    status ← on_chip (get_packet_status system sysfs)
    change (λ v. record v { packet_status = status })
    m ← get
    when (not crc_wrong) (output (rx_done m.variables.rx_payload size m.variables.packet_status))

  -- `RadioIrqProcess`
  unfoldable pub radio_irq_process : Drive (Unit {0})
  unfolding get_irq_status clear_irq_status end_tx end_rx end_cad end_time end_header
  radio_irq_process = do
    m ← get
    when m.variables.irq_fired (do
      change (λ v. record v { irq_fired = false })
      regs ← on_chip (get_irq_status system sysfs)
      on_chip (clear_irq_status system sysfs 0xFFFF)
      when (is_set regs 0x0001) end_tx
      when (is_set regs 0x0002) (end_rx (is_set regs 0x0040))
      when (is_set regs 0x0040) (output rx_error)
      when (is_set regs 0x0080) (end_cad (is_set regs 0x0100))
      when (is_set regs 0x0200) end_time
      when (is_set regs 0x0020) end_header)

  -- `RadioOnDioIrq`
  unfoldable pub radio_on_dio_irq : Drive (Unit {0})
  unfolding radio_irq_process
  radio_on_dio_irq = do change (λ v. record v { irq_fired = true }); radio_irq_process

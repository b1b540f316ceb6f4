-- ===== src/Radio/Waking/Readings.antt =====
-- The operations of functional_module/lora/sx126x.c that read from the radio.
use sufficient_io_t_applicat.Base.{
  zero, suc, some, none, ltb, ℕ, zero, suc, ◌+◌, ◌*◌, ◌/◌, ◌^◌, ◌<◌, refl, false, none, some, [],
  arith, ltb, ◌==◌, get_or,
}
use sufficient_io_t_applicat.Spi.{System, spi_read}
use sufficient_io_t_applicat.Gpio.{Sysfs}
use sufficient_io_t_applicat.Pins.{Board}
use sufficient_io_t_applicat.Radio.Steps.{
  Takes, bind, by_case-Takes, by_packet-Takes, by_test-Takes, get-Takes, pure-Takes, weaken,
}
use sufficient_io_t_applicat.Radio.{read_bytes, busy_loop, read_buffer, wait_on_busy}
use sufficient_io_t_applicat.Radio.Packets.{
  get_device_errors, get_irq_status, get_radio_status, get_rssi_inst, get_rx_buffer_status,
  get_payload, get_packet_status, half_negative,
}
use sufficient_io_t_applicat.Radio.Frames.{after, settled, wake_calls, check_device_ready_lem}
use sufficient_io_t_applicat.Radio.Waking.{
  IsPolite, IsAwake, keeping, Received, AnswersInFull, load-Takes, from_IsAwake,
  read_command-IsAwake, read_register-IsAwake, read_buffer-IsAwake,
}

module _ (system : System) (sysfs : Sysfs) (dev : ℕ) where
  module _ (answers : AnswersInFull system) where
    pub get_irq_status-IsAwake :
        Takes (IsPolite dev) (get_irq_status system sysfs) (λ _. IsAwake dev)
    unfolding get_irq_status
    get_irq_status-IsAwake =
        bind (read_command-IsAwake system sysfs dev answers 0x12 2 refl (omega arith) (omega arith))
          λ bytes. bind (load-Takes bytes 0 (omega arith)) λ high.
            bind (load-Takes bytes 1 (omega arith)) λ low.
              weaken {Q = λ _. Received dev 2 bytes} (λ _ r q. q.waking)
                (pure-Takes (high * 2 ^ 8 + low))

    pub get_radio_status-IsAwake :
        Takes (IsPolite dev) (get_radio_status system sysfs) (λ _. IsAwake dev)
    unfolding get_radio_status
    get_radio_status-IsAwake =
        bind (read_command-IsAwake system sysfs dev answers 0xC0 1 refl (omega arith) (omega arith))
          λ bytes.
            weaken {Q = λ _. Received dev 1 bytes} (λ _ r q. q.waking)
              (pure-Takes (get_or bytes 0 0))

    pub get_device_errors-IsAwake :
        Takes (IsPolite dev) (get_device_errors system sysfs) (Received dev 2)
    unfolding get_device_errors
    get_device_errors-IsAwake =
        read_command-IsAwake system sysfs dev answers 0x17 2 refl (omega arith) (omega arith)

    pub get_rssi_inst-IsAwake : Takes (IsPolite dev) (get_rssi_inst system sysfs) (λ _. IsAwake dev)
    unfolding get_rssi_inst
    get_rssi_inst-IsAwake =
        bind (read_command-IsAwake system sysfs dev answers 0x15 1 refl (omega arith) (omega arith))
          λ bytes. bind (load-Takes bytes 0 (omega arith)) λ level.
            weaken {Q = λ _. Received dev 1 bytes} (λ _ r q. q.waking)
              (pure-Takes (half_negative level))

    -- With a fixed header the length stands in a register.
    pub get_rx_buffer_status-IsAwake :
        Takes (IsPolite dev) (get_rx_buffer_status system sysfs) (λ _. IsAwake dev)
    unfolding get_rx_buffer_status
    get_rx_buffer_status-IsAwake =
        bind (read_command-IsAwake system sysfs dev answers 0x13 2 refl (omega arith) (omega arith))
          λ status. bind get-Takes λ r.
            bind
              (by_packet-Takes r.packet_type (pure-Takes false)
                (bind
                  (keeping dev
                    (from_IsAwake dev (read_register-IsAwake system sysfs dev answers 0x0704)))
                  λ params. pure-Takes (params / 2 ^ 7 == 1))
                (pure-Takes false))
              λ fixed.
                bind
                  (by_test-Takes fixed
                    (keeping dev
                      (from_IsAwake dev (read_register-IsAwake system sysfs dev answers 0x0702)))
                    (load-Takes status 0 (omega arith)))
                  λ size. bind (load-Takes status 1 (omega arith)) λ start.
                    weaken {Q = λ _. Received dev 2 status} (λ _ r q. q.waking)
                      (pure-Takes (size, start))

    -- A read of no bytes wakes the chip, and sends nothing else.
    read_nothing-IsAwake :
        (offset : ℕ) → Takes (IsAwake dev) (read_buffer system sysfs offset 0) (λ _. IsAwake dev)
    unfolding read_buffer read_bytes wait_on_busy spi_read
    read_nothing-IsAwake offset = record {
      ends = λ r p.
          let looked : Board =
            busy_loop system sysfs 1000001 (settled system sysfs r.mode r.board) in
          (
            [],
            after (wake_calls dev r.mode) (busy_loop system sysfs 1000001 looked) r,
            ground (arith, check_device_ready_lem system sysfs dev r p.opened, p.opened),
            record {
              opened = p.opened;
              past = ground (arith, p.past, p.awake);
              awake = ground (arith, p.awake);
            },
          );
    }

    read_any-IsAwake :
        (offset size : ℕ)
        → size < 256
        → Takes (IsAwake dev) (read_buffer system sysfs offset size) (λ _. IsAwake dev)
    read_any-IsAwake offset zero few = read_nothing-IsAwake offset
    read_any-IsAwake offset (suc n) few =
        weaken (λ a r q. q.waking)
          (from_IsAwake dev
            (read_buffer-IsAwake system sysfs dev answers offset (suc n) (omega arith) few))

    pub get_payload-IsAwake :
        (max_size : ℕ)
        → max_size < 256
        → Takes (IsPolite dev) (get_payload system sysfs max_size) (λ _. IsAwake dev)
    unfolding get_payload
    get_payload-IsAwake max_size small = bind get_rx_buffer_status-IsAwake λ found.
        by_case-Takes (ltb max_size found.0) (λ large. pure-Takes (found.0, none))
          λ fits.
            bind (read_any-IsAwake found.1 found.0 (ground (arith, fits)))
              λ buffer. pure-Takes (found.0, some buffer)

    pub get_packet_status-IsAwake :
        Takes (IsPolite dev) (get_packet_status system sysfs) (λ _. IsAwake dev)
    unfolding get_packet_status
    get_packet_status-IsAwake =
        bind (read_command-IsAwake system sysfs dev answers 0x14 3 refl (omega arith) (omega arith))
          λ status. bind get-Takes λ r.
            weaken {Q = λ _. Received dev 3 status} (λ _ r q. q.waking)
              (by_packet-Takes r.packet_type
                (bind (load-Takes status 0 (omega arith)) λ first.
                  bind (load-Takes status 1 (omega arith))
                    λ second. bind (load-Takes status 2 (omega arith)) λ third. pure-Takes _)
                (bind (load-Takes status 0 (omega arith)) λ first.
                  bind (load-Takes status 1 (omega arith))
                    λ second. bind (load-Takes status 2 (omega arith)) λ third. pure-Takes _)
                (pure-Takes _))

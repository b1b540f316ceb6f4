-- ===== src/Radio/Waking/Sequences.antt =====
-- The operations of functional_module/lora/sx126x.c that take several steps.
use sufficient_io_t_applicat.Radio.Steps.{
  Takes, bind, by_packet-Takes, get-Takes, pure-Takes, weaken,
}
use sufficient_io_t_applicat.Radio.Commands.{
  sync_word_base, bytes16, set_payload, get_random, sx126x_init, set_crc_seed, sync_word_loop,
  set_crc_polynomial, set_sync_word, set_cad_params, set_whitening_seed, send_payload,
}
use Prim.Native.Nat.{bit_and, bit_or}
use sufficient_io_t_applicat.Base.{
  ℕ, zero, suc, ◌+◌, ◌*◌, ◌/◌, ◌%◌, ◌^◌, ◌≤◌, refl, Bool, List, [], ◌∷◌, arith, length, done,
}
use sufficient_io_t_applicat.Spi.{send, System}
use sufficient_io_t_applicat.Gpio.{Sysfs}
use sufficient_io_t_applicat.Pins.{Board, gpio_write, gpio_set_interrupt}
use sufficient_io_t_applicat.Radio.{
  Mode, wakeup, reset, io_irq_init, write_command, fill, wait_on_busy, busy_loop, reset_pin,
  dio1_pin, get_status,
}
use sufficient_io_t_applicat.Radio.Frames.{after, send_bytes_lem}
use sufficient_io_t_applicat.Radio.Waking.{
  IsPolite, IsAwake, keeping, Received, AnswersInFull, load-Takes, set_mode-IsAwake, from_IsAwake,
  to_polite, write_command-IsAwake, write_registers-IsAwake, write_register-IsAwake,
  write_buffer-IsAwake, read_register-IsAwake, read_registers-IsAwake,
}
use sufficient_io_t_applicat.Radio.Waking.Operations.{
  set_standby-IsAwake, set_tx-IsAwake, set_rx-IsAwake, calibrate-IsAwake,
  set_dio3_as_tcxo_ctrl-IsAwake, set_dio2_as_rf_switch_ctrl-IsAwake,
}

module _ (system : System) (sysfs : Sysfs) (dev : ℕ) where
  pub set_payload-IsAwake :
      (payload : List ℕ)
      → length payload ≤ 253
      → Takes (IsPolite dev) (set_payload system sysfs payload (length payload)) (λ _. IsAwake dev)
  unfolding set_payload
  set_payload-IsAwake payload fits = write_buffer-IsAwake system sysfs dev 0x00 payload fits

  -- The payload wakes the chip, so it may be sent at once.
  pub send_payload-IsAwake :
      (payload : List ℕ) (timeout : ℕ)
      → length payload ≤ 253
      → Takes
          (IsPolite dev)
          (send_payload system sysfs payload (length payload) timeout)
          (λ _. IsAwake dev)
  unfolding send_payload
  send_payload-IsAwake payload timeout fits =
      bind (set_payload-IsAwake payload fits) λ _. set_tx-IsAwake system sysfs dev timeout

  pub set_cad_params-IsAwake :
      (symbols peak min_peak exit_mode timeout : ℕ)
      → Takes
          (IsPolite dev)
          (set_cad_params system sysfs symbols peak min_peak exit_mode timeout)
          (λ _. IsAwake dev)
  unfolding set_cad_params write_command fill
  set_cad_params-IsAwake symbols peak min_peak exit_mode timeout =
      bind
        (write_command-IsAwake system sysfs dev 0x88
          (symbols ∷ peak ∷ min_peak ∷ exit_mode ∷ timeout / 2 ^ 16 % 2 ^ 8 ∷ []) refl
          (omega arith))
        λ _. set_mode-IsAwake dev Mode.cad

  sync_word_loop-IsPolite :
      (left i : ℕ) (sync_word : List ℕ)
      → left ≤ length sync_word
      → Takes (IsPolite dev) (sync_word_loop system sysfs left i sync_word) (λ _. IsPolite dev)
  unfolding sync_word_loop
  sync_word_loop-IsPolite zero i sync_word fits = pure-Takes tt
  sync_word_loop-IsPolite (suc left) i [] fits = absurd (omega arith)
  sync_word_loop-IsPolite (suc left) i (byte ∷ sync_word) fits =
      bind (to_polite dev (write_register-IsAwake system sysfs dev (sync_word_base + i) byte))
        λ _. sync_word_loop-IsPolite left (i + 1) sync_word (omega arith)

  pub set_sync_word-IsPolite :
      (sync_word : List ℕ)
      → 8 ≤ length sync_word
      → Takes (IsPolite dev) (set_sync_word system sysfs sync_word) (λ _. IsPolite dev)
  unfolding set_sync_word
  set_sync_word-IsPolite [] fits = absurd (omega arith)
  set_sync_word-IsPolite (byte ∷ sync_word) fits = bind get-Takes λ r.
      by_packet-Takes r.packet_type (sync_word_loop-IsPolite 8 0 (byte ∷ sync_word) fits)
        (to_polite dev (write_register-IsAwake system sysfs dev 0x0740 byte)) (pure-Takes tt)

  pub set_crc_seed-IsPolite :
      (seed : ℕ) → Takes (IsPolite dev) (set_crc_seed system sysfs seed) (λ _. IsPolite dev)
  unfolding set_crc_seed
  set_crc_seed-IsPolite seed = bind get-Takes λ r.
      by_packet-Takes r.packet_type
        (to_polite dev
          (write_registers-IsAwake system sysfs dev 0x06BC (bytes16 seed) (omega arith)))
        (pure-Takes tt) (pure-Takes tt)

  pub set_crc_polynomial-IsPolite :
      (polynomial : ℕ)
      → Takes (IsPolite dev) (set_crc_polynomial system sysfs polynomial) (λ _. IsPolite dev)
  unfolding set_crc_polynomial
  set_crc_polynomial-IsPolite polynomial = bind get-Takes λ r.
      by_packet-Takes r.packet_type
        (to_polite dev
          (write_registers-IsAwake system sysfs dev 0x06BE (bytes16 polynomial) (omega arith)))
        (pure-Takes tt) (pure-Takes tt)

  -- The only step that does not look at the mode: it wakes the chip in any case.
  pub wakeup-IsAwake : Takes (IsPolite dev) (wakeup system sysfs) (λ _. IsAwake dev)
  unfolding wakeup wait_on_busy
  wakeup-IsAwake = record {
    ends = λ r p. (
      tt,
      after (send dev (get_status ∷ 0 ∷ []) ∷ []) (busy_loop system sysfs 1000001 r.board) r,
      ground (
        arith,
        send_bytes_lem system sysfs dev (get_status ∷ 0 ∷ []) (0 ∷ []) r p.opened (omega arith),
      ),
      record { opened = p.opened; past = p.past; awake = refl },
    );
  }

  pins-IsPolite :
      (f : Board → Board)
      → Takes (IsPolite dev) (λ r. done (tt, record r { board = f r.board })) (λ _. IsPolite dev)
  pins-IsPolite f = record {
    ends = λ r p. (
      tt,
      record r { board = f r.board },
      refl,
      record { opened = p.opened; past = p.past; known = p.known },
    );
  }

  pub sx126x_init-IsAwake :
      (created : Bool) (handler : ℕ)
      → Takes (IsPolite dev) (sx126x_init system sysfs created handler) (λ _. IsAwake dev)
  unfolding sx126x_init reset io_irq_init
  sx126x_init-IsAwake created handler =
      bind
        (pins-IsPolite (λ b.
          gpio_write sysfs reset_pin 1
            (gpio_write sysfs reset_pin 0 (gpio_write sysfs reset_pin 1 b))))
        λ _. bind (pins-IsPolite (λ b. gpio_set_interrupt sysfs created dio1_pin 1 handler b)) λ _.
          bind wakeup-IsAwake λ _.
            bind (from_IsAwake dev (set_standby-IsAwake system sysfs dev 0)) λ _.
              bind (from_IsAwake dev (set_dio3_as_tcxo_ctrl-IsAwake system sysfs dev 2 (1 * 2 ^ 6)))
                λ _. bind (from_IsAwake dev (calibrate-IsAwake system sysfs dev 0x7F)) λ _.
                  bind (from_IsAwake dev (set_dio2_as_rf_switch_ctrl-IsAwake system sysfs dev 1))
                    λ _. set_mode-IsAwake dev Mode.stdby_rc

  module _ (answers : AnswersInFull system) where
    pub set_whitening_seed-IsPolite :
        (seed : ℕ) → Takes (IsPolite dev) (set_whitening_seed system sysfs seed) (λ _. IsPolite dev)
    unfolding set_whitening_seed
    set_whitening_seed-IsPolite seed = bind get-Takes λ r.
        by_packet-Takes r.packet_type
          (bind (to_polite dev (read_register-IsAwake system sysfs dev answers 0x06B8)) λ value.
            bind
              (to_polite dev (
                write_register-IsAwake system sysfs dev 0x06B8
                  (bit_or (bit_and (seed / 2 ^ 8) 0x01) (bit_and value 0xFE))))
              λ _. to_polite dev (write_register-IsAwake system sysfs dev 0x06B9 (seed % 2 ^ 8)))
          (pure-Takes tt) (pure-Takes tt)

    pub get_random-IsAwake : Takes (IsAwake dev) (get_random system sysfs) (λ _. IsAwake dev)
    unfolding get_random
    get_random-IsAwake = bind (set_rx-IsAwake system sysfs dev 0) λ _.
        bind
          (from_IsAwake dev
            (read_registers-IsAwake system sysfs dev answers 0x0819 4 (omega arith) (omega arith)))
          λ buf. bind (keeping dev (from_IsAwake dev (set_standby-IsAwake system sysfs dev 0))) λ _.
            bind (load-Takes buf 0 (omega arith)) λ a. bind (load-Takes buf 1 (omega arith)) λ b.
              bind (load-Takes buf 2 (omega arith)) λ c. bind (load-Takes buf 3 (omega arith)) λ d.
                weaken {Q = λ _. Received dev 4 buf} (λ _ r q. q.waking)
                  (pure-Takes (a * 2 ^ 24 + b * 2 ^ 16 + c * 2 ^ 8 + d))

-- ===== src/Modem/Waking/Accesses.antt =====
-- The operations of functional_module/lora/radio/radio.c that pass on to the radio, and
-- `RadioIsChannelFree`.
use sufficient_io_t_applicat.Base.{
  ℕ, zero, suc, ◌+◌, ◌*◌, ◌^◌, ◌≤◌, ◌<◌, ◌≡◌, Bool, Bool-cases, inl, inr, ◌==◌, ap, false, true,
  List, arith, ltb, length, ℤ, fault,
}
use sufficient_io_t_applicat.Spi.{System}
use sufficient_io_t_applicat.Gpio.{Sysfs}
use sufficient_io_t_applicat.Radio.{gfsk}
use sufficient_io_t_applicat.Radio.Commands.{set_sync_word, sync_word_loop}
use sufficient_io_t_applicat.Radio.Steps.{
  Takes, bind, by_case-Takes, by_test-Takes, pure-Takes, strengthen, weaken,
}
use sufficient_io_t_applicat.Radio.Waking.{
  AnswersInFull, write_register-IsAwake, write_registers-IsAwake, write_buffer-IsAwake,
  read_register-IsAwake, read_registers-IsAwake, read_buffer-IsAwake,
}
use sufficient_io_t_applicat.Radio.Waking.Readings.{get_rssi_inst-IsAwake}
use sufficient_io_t_applicat.Modem.{Modem}
use sufficient_io_t_applicat.Modem.Operations.{radio_rssi}
use sufficient_io_t_applicat.Modem.Access.{
  is_loud, radio_write, radio_read, radio_write_buffer, radio_read_buffer, radio_sync_word,
  radio_write_fifo, radio_read_fifo, sense_loop, radio_is_channel_free,
}
use sufficient_io_t_applicat.Modem.Waking.{
  IsPolite, relaxed, awakened, Polite, Awake, on_chip-Awake,
}
use sufficient_io_t_applicat.Modem.Waking.Requests.{
  radio_set_modem-Awake, radio_set_channel-Awake, radio_rx-Awake, radio_sleep-Polite,
}

goes_on :
    (elapsed : ℕ → ℕ) (i last limit : ℕ)
    → i ≤ last
    → limit ≤ elapsed last
    → ltb (elapsed i) limit ≡ true
    → i + 1 ≤ last
goes_on elapsed i last limit from_i up early = elim (Bool-cases (i == last)) [
  | inl same ↦ absurd (ground (arith, same, ap elapsed {x = i} {y = last} (ground (arith, same))))
  | inr other ↦ ground (arith, other)
]

module _ (system : System) (sysfs : Sysfs) (dev : ℕ) where
  pub radio_write-Awake :
      (addr value : ℕ) → Takes (Polite dev) (radio_write system sysfs addr value) (λ _. Awake dev)
  unfolding radio_write
  radio_write-Awake addr value =
      on_chip-Awake dev (write_register-IsAwake system sysfs dev addr value)

  pub radio_write_buffer-Awake :
      (addr : ℕ) (buffer : List ℕ)
      → length buffer ≤ 97
      → Takes
          (Polite dev)
          (radio_write_buffer system sysfs addr buffer (length buffer))
          (λ _. Awake dev)
  unfolding radio_write_buffer
  radio_write_buffer-Awake addr buffer small =
      on_chip-Awake dev (write_registers-IsAwake system sysfs dev addr buffer small)

  pub radio_write_fifo-Awake :
      (buffer : List ℕ)
      → length buffer ≤ 253
      → Takes (Polite dev) (radio_write_fifo system sysfs buffer (length buffer)) (λ _. Awake dev)
  unfolding radio_write_fifo
  radio_write_fifo-Awake buffer small =
      on_chip-Awake dev (write_buffer-IsAwake system sysfs dev 0 buffer small)

  -- With an open device whose chip is known to be awake or asleep, and packets of FSK,
  -- RadioSyncWord reads past the byte that it was given.
  pub radio_sync_word-gfsk :
      (value : ℕ) (m : Modem)
      → IsPolite dev m.radio
      → m.radio.packet_type ≡ gfsk
      → radio_sync_word system sysfs value m ≡ fault
  unfolding radio_sync_word set_sync_word sync_word_loop
  radio_sync_word-gfsk value m p kind =
      let (a, r, runs, w) = (write_register-IsAwake system sysfs dev 0x06C0 value).ends m.radio p in
      ground (arith, kind, runs)

  module _ (answers : AnswersInFull system) where
    pub radio_read-Awake :
        (addr : ℕ) → Takes (Polite dev) (radio_read system sysfs addr) (λ _. Awake dev)
    unfolding radio_read
    radio_read-Awake addr = on_chip-Awake dev (read_register-IsAwake system sysfs dev answers addr)

    pub radio_read_buffer-Awake :
        (addr size : ℕ)
        → 0 < size
        → size < 256
        → Takes (Polite dev) (radio_read_buffer system sysfs addr size) (λ _. Awake dev)
    unfolding radio_read_buffer
    radio_read_buffer-Awake addr size some_byte few = on_chip-Awake dev (
        weaken (λ a r q. q.waking)
          (read_registers-IsAwake system sysfs dev answers addr size some_byte few))

    pub radio_read_fifo-Awake :
        (size : ℕ)
        → 0 < size
        → size < 256
        → Takes (Polite dev) (radio_read_fifo system sysfs size) (λ _. Awake dev)
    unfolding radio_read_fifo
    radio_read_fifo-Awake size some_byte few = on_chip-Awake dev (
        weaken (λ a r q. q.waking)
          (read_buffer-IsAwake system sysfs dev answers 0 size some_byte few))

    pub radio_rssi-Awake : Takes (Polite dev) (radio_rssi system sysfs) (λ _. Awake dev)
    unfolding radio_rssi
    radio_rssi-Awake = on_chip-Awake dev (get_rssi_inst-IsAwake system sysfs dev answers)

    -- The time is up at the round `last`.
    sense_loop-Awake :
        (left i : ℕ) (elapsed : ℕ → ℕ) (threshold : ℤ) (limit last : ℕ)
        → i ≤ last
        → last < i + left
        → limit ≤ elapsed last
        → Takes
            (Awake dev)
            (sense_loop system sysfs left i elapsed threshold limit)
            (λ _. Awake dev)
    unfolding sense_loop
    sense_loop-Awake zero i elapsed threshold limit last from_i fits up = absurd (omega arith)
    sense_loop-Awake (suc left) i elapsed threshold limit last from_i fits up =
        by_case-Takes (ltb (elapsed i) limit)
          (λ early. bind (strengthen (relaxed dev) radio_rssi-Awake) λ rssi.
            by_test-Takes (is_loud rssi threshold) (pure-Takes false) (
              sense_loop-Awake left (i + 1) elapsed threshold limit last
                (goes_on elapsed i last limit from_i up early) (omega arith) up))
          (λ over. pure-Takes true)

    -- If the time is up at the round `last`, RadioIsChannelFree needs no further round.
    pub radio_is_channel_free-Polite :
        (last : ℕ) (elapsed : ℕ → ℕ) (modem : Bool) (freq : ℕ) (threshold : ℤ) (limit : ℕ)
        → limit ≤ elapsed last
        → 425000000 < freq
        → freq < 2 ^ 18 * 15625
        → Takes
            (Polite dev)
            (radio_is_channel_free system sysfs (last + 1) elapsed modem freq threshold limit)
            (λ _. Polite dev)
    unfolding radio_is_channel_free
    radio_is_channel_free-Polite last elapsed modem freq threshold limit up high low =
        bind (awakened dev (radio_set_modem-Awake system sysfs dev modem)) λ _.
          bind (awakened dev (radio_set_channel-Awake system sysfs dev freq high low)) λ _.
            bind (radio_rx-Awake system sysfs dev 0) λ _.
              bind
                (sense_loop-Awake (last + 1) 0 elapsed threshold limit last (omega arith)
                  (omega arith) up)
                λ status.
                  bind (strengthen (relaxed dev) (radio_sleep-Polite system sysfs dev))
                    λ _. pure-Takes status

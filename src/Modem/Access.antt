-- ===== src/Modem/Access.antt =====
-- The operations of functional_module/lora/radio/radio.c that pass on to the radio, and
-- `RadioIsChannelFree`.
use sufficient_io_t_applicat.Base.{
  ℕ, zero, suc, ◌+◌, Bool, true, false, ◌&&◌, not, List, [], ◌∷◌, ltb, ◌==◌, fault, ℤ, pos_part,
  neg_part,
}
use sufficient_io_t_applicat.Spi.{System}
use sufficient_io_t_applicat.Gpio.{Sysfs}
use sufficient_io_t_applicat.Radio.{
  pure, lift, ◌>>=◌, ◌>>◌, write_register, write_registers, write_buffer, read_register,
  read_registers, read_buffer,
}
use sufficient_io_t_applicat.Radio.Commands.{set_sync_word}
use sufficient_io_t_applicat.Modem.{Drive, on_chip}
use sufficient_io_t_applicat.Modem.Operations.{
  radio_set_modem, radio_set_channel, radio_rx, radio_rssi, radio_sleep,
}

-- `RadioCheckRfFrequency`: every frequency is taken.
abbrev pub radio_check_rf_frequency : ℕ → Bool
radio_check_rf_frequency frequency = true

-- BOARD_TCXO_WAKEUP_TIME, RADIO_WAKEUP_TIME
abbrev pub radio_get_wakeup_time : ℕ
radio_get_wakeup_time = 1 + 3

abbrev pub ltb_ℤ : ℤ → ℤ → Bool
ltb_ℤ a b = ltb (pos_part a + neg_part b) (pos_part b + neg_part a)

-- `rssi > rssiThresh && rssi != 0`
abbrev pub is_loud : ℤ → ℤ → Bool
is_loud rssi threshold = ltb_ℤ threshold rssi && not (pos_part rssi + neg_part rssi == 0)

module _ (system : System) (sysfs : Sysfs) where
  unfoldable pub radio_write : ℕ → ℕ → Drive (Unit {0})
  unfolding write_register
  radio_write addr value = on_chip (write_register system sysfs addr value)

  unfoldable pub radio_read : ℕ → Drive ℕ
  unfolding read_register
  radio_read addr = on_chip (read_register system sysfs addr)

  unfoldable pub radio_write_buffer : ℕ → List ℕ → ℕ → Drive (Unit {0})
  unfolding write_registers
  radio_write_buffer addr buffer size = on_chip (write_registers system sysfs addr buffer size)

  unfoldable pub radio_read_buffer : ℕ → ℕ → Drive (List ℕ)
  unfolding read_registers
  radio_read_buffer addr size = on_chip (read_registers system sysfs addr size)

  -- The address of one byte is passed on.
  unfoldable pub radio_sync_word : ℕ → Drive (Unit {0})
  unfolding set_sync_word
  radio_sync_word value = on_chip (set_sync_word system sysfs (value ∷ []))

  unfoldable pub radio_write_fifo : List ℕ → ℕ → Drive (Unit {0})
  unfolding write_buffer
  radio_write_fifo buffer size = on_chip (write_buffer system sysfs 0 buffer size)

  unfoldable pub radio_read_fifo : ℕ → Drive (List ℕ)
  unfolding read_buffer
  radio_read_fifo size = on_chip (read_buffer system sysfs 0 size)

  -- The loop that listens, with the time that has elapsed at each of its rounds. A fault is a loop
  -- that has used up its rounds.
  unfoldable pub sense_loop : ℕ → ℕ → (ℕ → ℕ) → ℤ → ℕ → Drive Bool
  unfolding radio_rssi
  sense_loop zero i elapsed threshold limit = lift fault
  sense_loop (suc left) i elapsed threshold limit = elim (ltb (elapsed i) limit) [
    | false ↦ pure true
    | true ↦ (do
      rssi ← radio_rssi system sysfs
      elim (is_loud rssi threshold) [
        | true ↦ pure false
        | false ↦ sense_loop left (i + 1) elapsed threshold limit
      ])
  ]

  -- `RadioIsChannelFree`, with the rounds that its loop may take.
  unfoldable pub radio_is_channel_free :
      (rounds : ℕ) (elapsed : ℕ → ℕ) (modem : Bool) (freq : ℕ) (threshold : ℤ) (limit : ℕ)
      → Drive Bool
  unfolding radio_set_modem radio_set_channel radio_rx sense_loop radio_sleep
  radio_is_channel_free rounds elapsed modem freq threshold limit = do
    radio_set_modem system sysfs modem
    radio_set_channel system sysfs freq
    radio_rx system sysfs 0
    status ← sense_loop rounds 0 elapsed threshold limit
    radio_sleep system sysfs
    pure status

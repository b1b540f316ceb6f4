-- ===== src/Modem/Waking/Exceptions.antt =====
-- Where functional_module/lora/radio/radio.c and the chip's sleep part.
use sufficient_io_t_applicat.Base.{ℕ, ◌*◌, ◌%◌, ◌^◌, ◌≡◌, false, some, [], ◌∷◌, arith, done}
use sufficient_io_t_applicat.Spi.{System, send}
use sufficient_io_t_applicat.Gpio.{Sysfs}
use sufficient_io_t_applicat.Radio.{◌>>=◌, Mode, Radio}
use sufficient_io_t_applicat.Radio.Frames.{write_command_lem, after, wake_calls}
use sufficient_io_t_applicat.Radio.Commands.{set_tx, set_sleep, bytes24}
use sufficient_io_t_applicat.Radio.Waking.{polite}
use sufficient_io_t_applicat.Modem.{Modem}
use sufficient_io_t_applicat.Modem.Operations.{radio_sleep, radio_tx}

-- RadioTx right after RadioSleep, with an open device, ends, and has sent a command to a chip
-- that may be asleep.
pub radio_tx-radio_sleep :
    (system : System) (sysfs : Sysfs) (dev timeout : ℕ) (m : Modem)
    → m.radio.target ≡ some dev
    → (m' : Modem) × ((radio_sleep system sysfs >>= λ _. radio_tx system sysfs timeout) m
        ≡ done (tt, m'))
      × (polite m'.radio.world.calls ≡ false)
unfolding radio_sleep radio_tx set_sleep set_tx
radio_tx-radio_sleep system sysfs dev timeout m open' =
    let time : ℕ = timeout * 2 ^ 6 % 2 ^ 32 in
    let (b, rests) = write_command_lem system sysfs dev 0x84 (4 ∷ []) m.radio open' (omega arith) in
    let resting : Radio =
      record (after (send dev (0x84 ∷ 4 ∷ []) ∷ wake_calls dev m.radio.mode) b m.radio) {
        mode = Mode.tx;
      } in
    let (b', sends) =
      write_command_lem system sysfs dev 0x83 (bytes24 time) resting open' (omega arith) in
    (
      record m { radio = after (send dev (0x83 ∷ bytes24 time) ∷ []) b' resting },
      ground (arith, rests, sends),
      ground arith,
    )

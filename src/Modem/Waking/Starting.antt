-- ===== src/Modem/Waking/Starting.antt =====
-- `RadioInit` of functional_module/lora/radio/radio.c, and what may be asked of the radio after it.
use sufficient_io_t_applicat.Base.{
  ℕ, ◌*◌, ◌^◌, ◌<◌, ◌≡◌, refl, inl, inr, Bool, true, false, some, List, [], arith, done, pos,
}
use sufficient_io_t_applicat.Spi.{System, World, spi_open, success}
use sufficient_io_t_applicat.Spi.Opening.{spi_open_lem}
use sufficient_io_t_applicat.Gpio.{Sysfs}
use sufficient_io_t_applicat.Radio.Steps.{Takes, bind}
use sufficient_io_t_applicat.Radio.{Radio, io_init, reset, spi_init, ◌>>=◌}
use sufficient_io_t_applicat.Radio.Waking.{AnswersInFull, polite}
use sufficient_io_t_applicat.Radio.Waking.Operations.{
  set_standby-IsAwake, set_regulator_mode-IsAwake, set_buffer_base_address-IsAwake,
  set_dio_irq_params-IsAwake,
}
use sufficient_io_t_applicat.Radio.Waking.Sequences.{sx126x_init-IsAwake}
use sufficient_io_t_applicat.Radio.Waking.Parameters.{set_tx_params-IsAwake}
use sufficient_io_t_applicat.Modem.{Modem, on_chip}
use sufficient_io_t_applicat.Modem.Operations.{radio_init}
use sufficient_io_t_applicat.Modem.Waking.{Polite, on_chip-Awake, awakened, change-Polite, HasSteps}
use sufficient_io_t_applicat.Modem.Requests.{Request, allowed, run_all}
use sufficient_io_t_applicat.Modem.Waking.Sessions.{run_all-Polite}

module _ (system : System) (sysfs : Sysfs) (dev : ℕ) (w : World) where
  -- The devices are as given, and the deviation is one that can be set.
  abbrev Untouched : Modem → Type 0
  Untouched m = (m.radio.world ≡ w) × HasSteps m.variables

  io_init-Untouched : Takes Untouched (on_chip (io_init system sysfs)) (λ _. Untouched)
  unfolding io_init
  io_init-Untouched = record { ends = λ m p. (tt, _, refl, p) }

  reset-Untouched : Takes Untouched (on_chip (reset system sysfs)) (λ _. Untouched)
  unfolding reset
  reset-Untouched = record { ends = λ m p. (tt, _, refl, p) }

  opened_radio :
      (m : Modem)
      → w.calls ≡ []
      → system.opens [] ≡ some dev
      → (spi_open system w).status ≡ success
      → Untouched m
      → (m' : Modem) × (on_chip (spi_init system sysfs) m ≡ done (success, m')) × Polite dev m'
  unfolding spi_init
  opened_radio m fresh opens works (same, few) = elim (spi_open_lem system w) [
    | inl (good, _, target, _, world) ↦
        let r : Radio = record m.radio { world = (spi_open system w).world; target = some dev } in
        (
          record m { radio = r },
          ground (arith, same, works, target, fresh, opens),
          (
            record {
              opened = refl;
              past = ground (arith, world, fresh);
              known = λ e. absurd (ground (arith, e, world, fresh));
            },
            few,
          ),
        )
    | inr (bad, _, _, _, _) ↦ absurd (ground (arith, works, bad))
  ]

  radio_init-Polite :
      (created : Bool) (handler : ℕ)
      → w.calls ≡ []
      → system.opens [] ≡ some dev
      → (spi_open system w).status ≡ success
      → Takes Untouched (radio_init system sysfs created handler) (λ _. Polite dev)
  unfolding radio_init
  radio_init-Polite created handler fresh opens works = bind io_init-Untouched λ _.
      bind reset-Untouched λ _.
        bind
          (record {
            ends = λ m p.
                let (m', runs, q) = opened_radio m fresh opens works p in (success, m', runs, q);
          })
          λ _.
            bind
              (awakened dev
                (on_chip-Awake dev (sx126x_init-IsAwake system sysfs dev created handler)))
              λ _.
                bind (awakened dev (on_chip-Awake dev (set_standby-IsAwake system sysfs dev 0)))
                  λ _.
                    bind
                      (awakened dev
                        (on_chip-Awake dev (set_regulator_mode-IsAwake system sysfs dev 0x01)))
                      λ _.
                        bind
                          (awakened dev (
                            on_chip-Awake dev
                              (set_buffer_base_address-IsAwake system sysfs dev 0x00 0x00)))
                          λ _.
                            bind
                              (awakened dev (
                                on_chip-Awake dev
                                  (set_tx_params-IsAwake system sysfs dev (pos 0) 0x04)))
                              λ _.
                                bind
                                  (awakened dev (
                                    on_chip-Awake dev
                                      (set_dio_irq_params-IsAwake system sysfs dev 0 0 0 0)))
                                  λ _.
                                    change-Polite dev (λ v. record v { irq_fired = false })
                                      (λ v. refl)

  -- From a fresh SPI device that can be opened, with transfers that give as many bytes as are
  -- asked for and a deviation that has a number of steps in 32 bits, RadioInit and then any
  -- requests to the radio driver but RadioSyncWord, its interrupts and timeouts among them and
  -- with arguments in their ranges, run to their end, and no command but the waking one was sent
  -- to a chip that may be asleep; RadioTx only follows a request that wakes the chip, or another
  -- RadioTx.
  pub session_lem :
      (created : Bool) (handler : ℕ) (requests : List Request) (m : Modem)
      → AnswersInFull system
      → m.radio.world ≡ w
      → m.variables.deviation < 2 ^ 18 * 15625
      → w.calls ≡ []
      → system.opens [] ≡ some dev
      → (spi_open system w).status ≡ success
      → allowed false requests ≡ true
      → (m' : Modem) × ((radio_init system sysfs created handler >>= λ _.
              run_all system sysfs requests)
            m
          ≡ done (tt, m'))
        × (polite m'.radio.world.calls ≡ true)
  session_lem created handler requests m answers same few fresh opens works ok =
      let (a, m', runs, q) =
        (bind (radio_init-Polite created handler fresh opens works)
            λ _. run_all-Polite system sysfs dev answers false requests ok).ends
          m (same, few) in
      (m', runs, q.0.past)

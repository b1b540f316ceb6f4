-- ===== src/Modem/Waking.antt =====
-- The operations of functional_module/lora/radio/radio.c and the chip's sleep.
pub mod Lora
pub mod Exceptions
pub mod Sessions
pub mod Configurations
pub mod Accesses
pub mod Starting
pub mod Requests
pub mod Events
use sufficient_io_t_applicat.Modem.Interrupts.{when, give_up}
use sufficient_io_t_applicat.Modem.Operations.{start_timer, limit}
use sufficient_io_t_applicat.Base.{ℕ, ◌-◌, ◌*◌, ◌^◌, ◌<◌, ◌≡◌, refl, Bool, ◌∷◌, arith, ◌==◌}
use sufficient_io_t_applicat.Radio.Steps.{Takes, bind, by_test-Takes, pure-Takes, weaken}
use sufficient_io_t_applicat.Radio.{Radio, Chip, Mode}
use sufficient_io_t_applicat.Radio.Commands
use sufficient_io_t_applicat.Radio.Waking.{IsPolite, IsAwake, IsPolite-of_awake}
use sufficient_io_t_applicat.Radio.Waking.Operations
use sufficient_io_t_applicat.Radio.Waking.Sequences
use sufficient_io_t_applicat.Radio.Waking.Parameters
use sufficient_io_t_applicat.Modem.{
  Timer, rx_timer, set_value, start, Variables, Modem, Drive, on_chip, change, output, Output,
}
use sufficient_io_t_applicat.Modem.Operations as Driving
use sufficient_io_t_applicat.Modem.Interrupts

-- A step of the radio keeps what is known of the variables.
pub on_chip-Keeps :
    {A : Type 0} {c : Chip A} {P : Radio → Type 0} {Q : A → Radio → Type 0} (R : Variables → Type 0)
    → Takes P c Q
    → Takes (λ m. P m.radio × R m.variables) (on_chip c) (λ a m. Q a m.radio × R m.variables)
on_chip-Keeps R t = record {
  ends = λ m (p, known).
      let (a, r, runs, q) = t.ends m.radio p in
      (a, record m { radio = r }, ground (arith, runs), (q, known));
}

pub change-Turns :
    (P : Radio → Type 0) {R : Variables → Type 0} (S : Variables → Type 0)
    (f : Variables → Variables)
    → ((v : Variables) → R v → S (f v))
    → Takes (λ m. P m.radio × R m.variables) (change f) (λ _ m. P m.radio × S m.variables)
change-Turns P S f turns = record {
  ends = λ m (p, known).
      (tt, record m { variables = f m.variables }, refl, (p, turns m.variables known));
}

-- The deviation has a number of steps in 32 bits.
abbrev pub HasSteps : Variables → Type 0
HasSteps v = v.deviation < 2 ^ 18 * 15625

module _ (dev : ℕ) where
  -- The radio below is polite, and awake, and the deviation is one that can be set.
  abbrev pub Polite : Modem → Type 0
  Polite m = IsPolite dev m.radio × HasSteps m.variables

  abbrev pub Awake : Modem → Type 0
  Awake m = IsAwake dev m.radio × HasSteps m.variables

  relaxed : (m : Modem) → Awake m → Polite m
  relaxed m w = (IsPolite-of_awake w.0, w.1)

  -- The step of the radio, by where the chip may be asleep before and after.
  on_chip-Polite :
      {A : Type 0} {c : Chip A}
      → Takes (IsPolite dev) c (λ _. IsPolite dev)
      → Takes Polite (on_chip c) (λ _. Polite)
  on_chip-Polite t = on_chip-Keeps HasSteps t

  on_chip-Awake :
      {A : Type 0} {c : Chip A}
      → Takes (IsPolite dev) c (λ _. IsAwake dev)
      → Takes Polite (on_chip c) (λ _. Awake)
  on_chip-Awake t = on_chip-Keeps HasSteps t

  stays-Awake :
      {A : Type 0} {c : Chip A}
      → Takes (IsAwake dev) c (λ _. IsAwake dev)
      → Takes Awake (on_chip c) (λ _. Awake)
  stays-Awake t = on_chip-Keeps HasSteps t

  awakened : {A : Type 0} {m : Drive A} → Takes Polite m (λ _. Awake) → Takes Polite m (λ _. Polite)
  awakened t = weaken (λ a. relaxed) t

  when-Polite :
      {m : Drive (Unit {0})} (b : Bool)
      → Takes Polite m (λ _. Polite)
      → Takes Polite (when b m) (λ _. Polite)
  when-Polite b t = by_test-Takes b t (pure-Takes tt)

  change-Polite :
      (f : Variables → Variables)
      → ((v : Variables) → (f v).deviation ≡ v.deviation)
      → Takes Polite (change f) (λ _. Polite)
  change-Polite f same =
      change-Turns (IsPolite dev) {R = HasSteps} HasSteps f (λ v r. omega (arith, same v, r))

  change-Awake :
      (f : Variables → Variables)
      → ((v : Variables) → (f v).deviation ≡ v.deviation)
      → Takes Awake (change f) (λ _. Awake)
  change-Awake f same =
      change-Turns (IsAwake dev) {R = HasSteps} HasSteps f (λ v r. omega (arith, same v, r))

  output-Polite : (o : Output) → Takes Polite (output o) (λ _. Polite)
  output-Polite o = change-Polite (λ v. record v { outputs = o ∷ v.outputs }) (λ v. refl)

  output-Awake : (o : Output) → Takes Awake (output o) (λ _. Awake)
  output-Awake o = change-Awake (λ v. record v { outputs = o ∷ v.outputs }) (λ v. refl)

  start_timer-Awake :
      (timer : Timer) (value : ℕ) → Takes Awake (start_timer timer value) (λ _. Awake)
  start_timer-Awake timer value =
      bind (output-Awake (set_value timer value)) λ _. output-Awake (start timer)

  limit-Awake : (timeout : ℕ) → Takes Awake (limit timeout) (λ _. Awake)
  limit-Awake timeout =
      by_test-Takes (timeout == 0) (pure-Takes tt) (start_timer-Awake rx_timer timeout)

  give_up-Polite : (o : Output) → Takes Polite (give_up o) (λ _. Polite)
  give_up-Polite o =
      bind
        (record {
          ends = λ m p. (
            tt,
            record m { radio = record m.radio { mode = Mode.sleep } },
            refl,
            (record { opened = p.0.opened; past = p.0.past; known = λ e. refl }, p.1),
          );
        })
        λ _. change-Polite (λ v. record v { outputs = o ∷ v.outputs }) (λ v. refl)

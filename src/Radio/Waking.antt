-- ===== src/Radio/Waking.antt =====
-- Whether the chip may be asleep, from what was sent to it, and the accesses that keep commands away
-- from a sleeping chip.
pub mod Operations
pub mod Parameters
pub mod Readings
pub mod Sequences
use sufficient_io_t_applicat.Base.{
  ℕ, ◌+◌, ◌-◌, ◌/◌, ◌%◌, ◌^◌, ◌≤◌, ◌<◌, ◌≡◌, refl, Bool, true, false, ◌&&◌, ◌||◌, not, Option, none,
  some, List, [], ◌∷◌, ◌++◌, arith, ◌==◌, if◌then◌else◌, length, get_or, get_elem?-eq-get_or, load,
}
use sufficient_io_t_applicat.Spi.{Call, send, burst, System}
use sufficient_io_t_applicat.Gpio.{Sysfs}
use sufficient_io_t_applicat.Pins.{Board}
use sufficient_io_t_applicat.Radio.Steps.{Takes, bind, strengthen, weaken}
use sufficient_io_t_applicat.Radio.{
  write_register_command, read_register_command, write_buffer_command, read_buffer_command, Mode,
  sleep, rx_dc, Radio, Chip, ◌>>=◌, lift, set_mode, get_status, set_sleep_command, write_command,
  read_command, write_registers, write_register, read_registers, read_register, write_buffer,
  read_buffer,
}
use sufficient_io_t_applicat.Radio.Frames.{
  after, wake_calls, write_command_lem, read_command_lem, write_registers_lem, read_registers_lem,
  write_buffer_lem, read_buffer_lem,
}

-- The command that a call gives to the chip.
abbrev pub command_of : Call → Option ℕ
command_of (send dev (command ∷ frame)) = some command
command_of (burst dev (command ∷ frame) size) = some command
command_of _ = none

abbrev pub rx_duty_cycle_command : ℕ
rx_duty_cycle_command = 0x94

abbrev pub puts_to_sleep : ℕ → Bool
puts_to_sleep command = command == set_sleep_command || command == rx_duty_cycle_command

-- The chip may be asleep: it was told to sleep, or to receive now and then, and was not woken since.
abbrev pub asleep : List Call → Bool
asleep [] = false
asleep (c ∷ calls) = elim (command_of c) [
  | none ↦ asleep calls
  | some command ↦
      if puts_to_sleep command then true else if command == get_status then false else asleep calls
]

-- Every command but the waking one was given to a chip that was awake.
abbrev pub polite : List Call → Bool
polite [] = true
polite (c ∷ calls) =
    elim (command_of c) [ none ↦ true | some command ↦ command == get_status || not (asleep calls) ]
    && polite calls

abbrev pub may_sleep : Mode → Bool
may_sleep sleep = true
may_sleep rx_dc = true
may_sleep _ = false

-- The device is open, no command went to a sleeping chip, and the driver knows where the chip may be
-- asleep.
pub record IsPolite (dev : ℕ) (r : Radio) : Type 0 where
  pub opened : r.target ≡ some dev
  pub past : polite r.world.calls ≡ true
  pub known : asleep r.world.calls ≡ true → may_sleep r.mode ≡ true

pub record IsAwake (dev : ℕ) (r : Radio) : Type 0 where
  pub opened : r.target ≡ some dev
  pub past : polite r.world.calls ≡ true
  pub awake : asleep r.world.calls ≡ false

pub IsPolite-of_awake : {dev : ℕ} {r : Radio} → IsAwake dev r → IsPolite dev r
IsPolite-of_awake w = record {
  opened = w.opened;
  past = w.past;
  known = λ e. ground (arith, w.awake);
}

-- The bytes read from a chip that is awake.
pub record Received (dev size : ℕ) (bytes : List ℕ) (r : Radio) : Type 0 where
  pub full : length bytes ≡ size
  pub waking : IsAwake dev r

-- A transfer that receives gives the bytes asked for.
abbrev pub AnswersInFull : System → Type 0
AnswersInFull system =
    (calls : List Call) (dev : ℕ) (bytes : List ℕ) (size : ℕ)
    → length (system.transfers calls (burst dev bytes size)).1 ≡ size

pub load-Takes :
    {dev size : ℕ} (bytes : List ℕ) (i : ℕ)
    → i < size
    → Takes (Received dev size bytes) (lift (load bytes i)) (λ byte. Received dev size bytes)
load-Takes bytes i inside = record {
  ends = λ r q. (get_or bytes i 0, r, ground (arith, get_elem?-eq-get_or bytes i 0, q.full), q);
}

module _ (dev : ℕ) where
  pub set_mode-IsAwake : (mode : Mode) → Takes (IsAwake dev) (set_mode mode) (λ _. IsAwake dev)
  set_mode-IsAwake mode = record {
    ends = λ r p. (
      tt,
      record r { mode = mode },
      refl,
      record { opened = p.opened; past = p.past; awake = p.awake },
    );
  }

  sent-IsAwake :
      (c : Call) (command : ℕ) (b : Board) (r : Radio)
      → command_of c ≡ some command
      → puts_to_sleep command ≡ false
      → IsPolite dev r
      → IsAwake dev (after (c ∷ wake_calls dev r.mode) b r)
  sent-IsAwake c command b r is stays p = record {
    opened = p.opened;
    past = ground (arith, p.past, p.known);
    awake = ground (arith, p.known);
  }

  -- Bytes that were read stay read.
  pub keeping :
      {A : Type 0} {m : Chip A} {size : ℕ} {bytes : List ℕ}
      → Takes (IsAwake dev) m (λ _. IsAwake dev)
      → Takes (Received dev size bytes) m (λ _. Received dev size bytes)
  keeping t = record {
    ends = λ r q.
        let (a, s, runs, w) = t.ends r q.waking in
        (a, s, runs, record { full = q.full; waking = w });
  }

  pub to_polite :
      {A : Type 0} {m : Chip A}
      → Takes (IsPolite dev) m (λ _. IsAwake dev)
      → Takes (IsPolite dev) m (λ _. IsPolite dev)
  to_polite t = weaken (λ a r w. IsPolite-of_awake w) t

  pub from_IsAwake :
      {A : Type 0} {m : Chip A} {Q : A → Radio → Type 0}
      → Takes (IsPolite dev) m Q
      → Takes (IsAwake dev) m Q
  from_IsAwake t = strengthen (λ r w. IsPolite-of_awake w) t

module _ (system : System) (sysfs : Sysfs) (dev : ℕ) where
  pub write_command-IsAwake :
      (command : ℕ) (bytes : List ℕ)
      → puts_to_sleep command ≡ false
      → length bytes ≤ 11
      → Takes
          (IsPolite dev)
          (write_command system sysfs command bytes (length bytes))
          (λ _. IsAwake dev)
  write_command-IsAwake command bytes stays small = record {
    ends = λ r p.
        let c = send dev (command ∷ bytes) in
        let (b, runs) = write_command_lem system sysfs dev command bytes r p.opened small in
        (
          tt,
          after (c ∷ wake_calls dev r.mode) b r,
          runs,
          sent-IsAwake dev c command b r refl stays p,
        );
  }

  pub write_registers-IsAwake :
      (address : ℕ) (bytes : List ℕ)
      → length bytes ≤ 97
      → Takes
          (IsPolite dev)
          (write_registers system sysfs address bytes (length bytes))
          (λ _. IsAwake dev)
  write_registers-IsAwake address bytes small = record {
    ends = λ r p.
        let c =
          send dev (write_register_command ∷ address / 2 ^ 8 % 2 ^ 8 ∷ address % 2 ^ 8 ∷ bytes) in
        let (b, runs) = write_registers_lem system sysfs dev address bytes r p.opened small in
        (
          tt,
          after (c ∷ wake_calls dev r.mode) b r,
          runs,
          sent-IsAwake dev c write_register_command b r refl refl p,
        );
  }

  pub write_register-IsAwake :
      (address value : ℕ)
      → Takes (IsPolite dev) (write_register system sysfs address value) (λ _. IsAwake dev)
  unfolding write_register
  write_register-IsAwake address value = write_registers-IsAwake address (value ∷ []) (omega arith)

  pub write_buffer-IsAwake :
      (offset : ℕ) (bytes : List ℕ)
      → length bytes ≤ 253
      → Takes
          (IsPolite dev)
          (write_buffer system sysfs offset bytes (length bytes))
          (λ _. IsAwake dev)
  write_buffer-IsAwake offset bytes small = record {
    ends = λ r p.
        let c = send dev (write_buffer_command ∷ offset ∷ bytes) in
        let (b, runs) = write_buffer_lem system sysfs dev offset bytes r p.opened small in
        (
          tt,
          after (c ∷ wake_calls dev r.mode) b r,
          runs,
          sent-IsAwake dev c write_buffer_command b r refl refl p,
        );
  }

  -- A command that puts the chip to sleep, and the mode that says so.
  pub sleeping-IsPolite :
      (command : ℕ) (bytes : List ℕ) (mode : Mode)
      → puts_to_sleep command ≡ true
      → length bytes ≤ 11
      → may_sleep mode ≡ true
      → Takes
          (IsPolite dev)
          (write_command system sysfs command bytes (length bytes) >>= λ _. set_mode mode)
          (λ _. IsPolite dev)
  sleeping-IsPolite command bytes mode sleeps small right = record {
    ends = λ r p.
        let (b, runs) = write_command_lem system sysfs dev command bytes r p.opened small in
        let sent : Radio = after (send dev (command ∷ bytes) ∷ wake_calls dev r.mode) b r in
        (
          tt,
          record sent { mode = mode },
          ground (arith, runs),
          record { opened = p.opened; past = ground (arith, p.past, p.known); known = λ e. right },
        );
  }

  module _ (answers : AnswersInFull system) where
    pub read_command-IsAwake :
        (command size : ℕ)
        → puts_to_sleep command ≡ false
        → 0 < size
        → size < 256
        → Takes (IsPolite dev) (read_command system sysfs command size) (Received dev size)
    read_command-IsAwake command size stays some_byte few = record {
      ends = λ r p.
          let c = burst dev (command ∷ 0 ∷ []) size in
          let (b, runs) = read_command_lem system sysfs dev command size r p.opened some_byte few in
          (
            (system.transfers (wake_calls dev r.mode ++ r.world.calls) c).1,
            after (c ∷ wake_calls dev r.mode) b r,
            runs,
            record {
              full = answers (wake_calls dev r.mode ++ r.world.calls) _ _ _;
              waking = sent-IsAwake dev c command b r refl stays p;
            },
          );
    }

    pub read_registers-IsAwake :
        (address size : ℕ)
        → 0 < size
        → size < 256
        → Takes (IsPolite dev) (read_registers system sysfs address size) (Received dev size)
    read_registers-IsAwake address size some_byte few = record {
      ends = λ r p.
          let c =
            burst dev (read_register_command ∷ address / 2 ^ 8 % 2 ^ 8 ∷ address % 2 ^ 8 ∷ 0 ∷ [])
              size in
          let (b, runs) =
            read_registers_lem system sysfs dev address size r p.opened some_byte few in
          (
            (system.transfers (wake_calls dev r.mode ++ r.world.calls) c).1,
            after (c ∷ wake_calls dev r.mode) b r,
            runs,
            record {
              full = answers (wake_calls dev r.mode ++ r.world.calls) _ _ _;
              waking = sent-IsAwake dev c read_register_command b r refl refl p;
            },
          );
    }

    pub read_register-IsAwake :
        (address : ℕ) → Takes (IsPolite dev) (read_register system sysfs address) (λ _. IsAwake dev)
    unfolding read_register
    read_register-IsAwake address =
        bind (read_registers-IsAwake address 1 (omega arith) (omega arith))
          λ bytes. weaken (λ a r q. q.waking) (load-Takes bytes 0 (omega arith))

    pub read_buffer-IsAwake :
        (offset size : ℕ)
        → 0 < size
        → size < 256
        → Takes (IsPolite dev) (read_buffer system sysfs offset size) (Received dev size)
    read_buffer-IsAwake offset size some_byte few = record {
      ends = λ r p.
          let c = burst dev (read_buffer_command ∷ offset ∷ 0 ∷ []) size in
          let (b, runs) = read_buffer_lem system sysfs dev offset size r p.opened some_byte few in
          (
            (system.transfers (wake_calls dev r.mode ++ r.world.calls) c).1,
            after (c ∷ wake_calls dev r.mode) b r,
            runs,
            record {
              full = answers (wake_calls dev r.mode ++ r.world.calls) _ _ _;
              waking = sent-IsAwake dev c read_buffer_command b r refl refl p;
            },
          );
    }

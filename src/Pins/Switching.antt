-- ===== src/Pins/Switching.antt =====
-- Setting, reading and toggling the pins of the radio.
use sufficient_io_t_applicat.Base.{
  to_int32, ℕ, ◌^◌, ◌<◌, ◌≡◌, inl, inr, Bool, Bool-cases, not, true, false, some, List, arith,
  if◌then◌else◌, ℤ, pos,
}
use sufficient_io_t_applicat.Gpio.{
  Sysfs, Accesses, value, field, print_int, set_gpio_value, get_gpio_value,
}
use sufficient_io_t_applicat.Gpio.Attributes.{
  Line, line_after, Proper, IsPin, to_level, change_lem, get_lem,
}
use sufficient_io_t_applicat.Pins.{
  Interrupts, Board, register_interupt_handle, gpio_write, gpio_toggle, gpio_read,
}

to_int32-small : (n : ℕ) → n < 2 ^ 31 → to_int32 n ≡ pos n
unfolding to_int32
to_int32-small n small = ground arith

-- A level by its number.
abbrev bit : Bool → ℕ
bit high = if high then 1 else 0

module _ (sysfs : Sysfs) (pin : ℕ) (l : Line) (is_pin : IsPin sysfs pin l) (b : Board)
    (proper : Proper pin l b.past) (outward : (line_after pin l b.past).out ≡ true) where
  -- A level that is written to an output is read from it, and no failure is reported.
  pub gpio_read-gpio_write :
      (high : Bool)
      → let written = gpio_write sysfs pin (bit high) b in
        ((gpio_read sysfs pin written).0 ≡ bit high) × (written.reports ≡ b.reports)
  unfolding gpio_read gpio_write
  gpio_read-gpio_write true =
      let (ret, now, kept, _) =
        change_lem sysfs pin l is_pin b.past proper (to_level true) outward in
      let after = (set_gpio_value sysfs pin (pos 1) b.past).1 in
      let (read, _, _) =
        get_lem sysfs pin l is_pin after kept value (ground (arith, now, outward)) in
      ground (arith, ret, read, now)
  gpio_read-gpio_write false =
      let (ret, now, kept, _) =
        change_lem sysfs pin l is_pin b.past proper (to_level false) outward in
      let after = (set_gpio_value sysfs pin (pos 0) b.past).1 in
      let (read, _, _) =
        get_lem sysfs pin l is_pin after kept value (ground (arith, now, outward)) in
      ground (arith, ret, read, now)

  -- An output has the other level after GpioToggle, and no failure is reported.
  pub gpio_toggle_lem :
      let toggled = gpio_toggle sysfs pin b in
      let before = line_after pin l b.past in
      (line_after pin l toggled.past ≡ record before { high = not before.high })
      × (toggled.reports ≡ b.reports)
  unfolding gpio_toggle
  gpio_toggle_lem =
      let (read, kept, same) = get_lem sysfs pin l is_pin b.past proper value outward in
      let after = (get_gpio_value sysfs pin b.past).1 in
      let still = same pin l in
      let up =
        change_lem sysfs pin l is_pin after kept (to_level true) (ground (arith, still, outward)) in
      let down =
        change_lem sysfs pin l is_pin after kept (to_level false)
          (ground (arith, still, outward)) in
      elim (Bool-cases (line_after pin l b.past).high) [
        | inl high ↦
            (ground (arith, read, high, down.0, down.1, still), ground (arith, read, high, down.0))
        | inr low ↦ (ground (arith, read, low, up.0, up.1, still), ground (arith, read, low, up.0))
      ]

failed_write :
    (sysfs : Sysfs) (pin : ℕ) (z : ℤ) (past : Accesses)
    → ((text : List ℕ) → sysfs.writes past (field pin value) text ≡ some false)
    → (set_gpio_value sysfs pin z past).0 ≡ pos 0
unfolding set_gpio_value
failed_write sysfs pin z past fails = ground (arith, fails (print_int z))

-- A write that opens its file and fails leaves no report: the driver's 0 is not the -1 looked for.
pub gpio_write_silent :
    (sysfs : Sysfs) (pin n : ℕ) (b : Board)
    → ((text : List ℕ) → sysfs.writes b.past (field pin value) text ≡ some false)
    → (gpio_write sysfs pin n b).reports ≡ b.reports
unfolding gpio_write
gpio_write_silent sysfs pin n b fails =
    ground (arith, failed_write sysfs pin (to_int32 n) b.past fails)

-- From the start, registering interrupts twice makes the later handler the one that is called,
-- and creates a thread exactly if the first attempt could.
pub register_interupt_handle_once :
    (first second : Bool) (pin pin' handler handler' : ℕ) (s : Interrupts)
    → s.status ≡ 0
    → s.threads ≡ 0
    → let twice =
        register_interupt_handle second pin' handler'
          (register_interupt_handle first pin handler s) in
      (twice.handler ≡ handler') × (twice.threads ≡ (if first then 1 else 0)) × (twice.status ≡ 1)
unfolding register_interupt_handle
register_interupt_handle_once first second pin pin' handler handler' s fresh none' = ground arith

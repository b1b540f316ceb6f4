-- ===== src/Pins.antt =====
-- functional_module/lora/sx1262_gpio.c over hardware_driver/gpio/gpio.c: the pins of the radio, with
-- the messages that report a failure, and the thread that waits for interrupts.
pub mod Switching
mod Tests
use sufficient_io_t_applicat.Base.{
  to_uint32, to_int32, ℕ, zero, ◌+◌, ◌%◌, ◌^◌, Bool, true, false, Option, none, some, ◌==◌,
  if◌then◌else◌, ℤ, pos, negsuc, List, [], ◌∷◌, ◌&&◌,
}
use sufficient_io_t_applicat.Gpio.{
  Sysfs, Accesses, export_gpio_pin, unexport_gpio_pin, get_gpio_value, set_gpio_value,
  set_gpio_direction, set_gpio_edge,
}

-- `interput_pin`, `lora_dio_Irq` (by a number) and `status`, with the threads created.
pub record Interrupts : Type 0 where
  pub pin : ℕ
  pub handler : ℕ
  pub status : ℕ
  pub threads : ℕ

pub record Board : Type 0 where
  pub past : Accesses
  -- The failures reported on the terminal.
  pub reports : ℕ
  pub interrupts : Interrupts

-- `register_interupt_handle`, by whether a thread can be created.
unfoldable pub register_interupt_handle : Bool → ℕ → ℕ → Interrupts → Interrupts
register_interupt_handle created pin handler s =
    let known = record s { pin = pin; handler = handler } in
    if s.status == 0
    then record known {
      status = (s.status + 1) % 2 ^ 8;
      threads = (if created then s.threads + 1 else s.threads);
    }
    else known

-- One round of `Call_interrupt_handler`: whether the handler is called for the byte that is read;
-- `none` is a failed read, which leaves the 66 of the buffer.
unfoldable pub calls_handler : Option ℕ → Bool
calls_handler none = 66 == b'1'
calls_handler (some byte) = byte == b'1'

-- What the thread finds in a round: whether the event that `epoll_wait` has left is one of the pin's
-- file, and what `read` gives.
pub record Wake : Type 0 where
  pub watched : Bool
  pub byte : Option ℕ

-- `Call_interrupt_handler`: the handlers that are called in the rounds that it has turned, each with
-- `lora_dio_Irq` as it then is. Failures are only reported, and the loop has no end.
unfoldable pub call_interrupt_handler : List (Wake × Interrupts) → List ℕ
unfolding calls_handler
call_interrupt_handler [] = []
call_interrupt_handler ((wake, s) ∷ rounds) =
    let later = call_interrupt_handler rounds in
    if wake.watched && calls_handler wake.byte then s.handler ∷ later else later

unfoldable pub is_error : ℤ → Bool
is_error (negsuc zero) = true
is_error _ = false

-- A call of the driver whose result of -1 is reported.
unfoldable pub reported : ℤ × Accesses → Board → Board
unfolding is_error
reported (ret, after) b = record b {
  past = after;
  reports = (if is_error ret then b.reports + 1 else b.reports);
}

module _ (sysfs : Sysfs) where
  -- The pin's other settings are not used.
  unfoldable pub gpio_init : ℕ → ℕ → ℕ → Board → Board
  unfolding reported to_int32
  gpio_init pin mode value b =
      let freed = reported (unexport_gpio_pin sysfs pin b.past) b in
      let exported = reported (export_gpio_pin sysfs pin freed.past) freed in
      let directed = reported (set_gpio_direction sysfs pin mode exported.past) exported in
      reported (set_gpio_value sysfs pin (to_int32 value) directed.past) directed

  unfoldable pub gpio_set_interrupt : Bool → ℕ → ℕ → ℕ → Board → Board
  unfolding reported register_interupt_handle
  gpio_set_interrupt created pin irq_mode handler b =
      let edged = reported (set_gpio_edge sysfs pin irq_mode b.past) b in
      record edged { interrupts = register_interupt_handle created pin handler edged.interrupts }

  unfoldable pub gpio_remove_interrupt : ℕ → Board → Board
  unfolding reported
  gpio_remove_interrupt pin b = reported (set_gpio_edge sysfs pin 0 b.past) b

  unfoldable pub gpio_write : ℕ → ℕ → Board → Board
  unfolding reported to_int32
  gpio_write pin value b = reported (set_gpio_value sysfs pin (to_int32 value) b.past) b

  -- The value is cut to a uint8_t.
  unfoldable pub gpio_toggle : ℕ → Board → Board
  unfolding reported to_uint32
  gpio_toggle pin b =
      let (value, after) = get_gpio_value sysfs pin b.past in
      let read = record b { past = after } in
      if to_uint32 value % 2 ^ 8 == 1
      then reported (set_gpio_value sysfs pin (pos 0) read.past) read
      else reported (set_gpio_value sysfs pin (pos 1) read.past) read

  unfoldable pub gpio_read : ℕ → Board → ℕ × Board
  unfolding to_uint32
  gpio_read pin b =
      let (value, after) = get_gpio_value sysfs pin b.past in
      (to_uint32 value, record b { past = after })

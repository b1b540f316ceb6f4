-- ===== src/Radio/Frames.antt =====
-- What goes over the SPI device for each access of the radio.
use mathlib.Core.List.{append_assoc}
use sufficient_io_t_applicat.Base.{
  ℕ, ◌/◌, ◌%◌, ◌^◌, ◌≤◌, ◌<◌, ◌≡◌, refl, some, List, [], ◌∷◌, ◌++◌, arith, ◌==◌, if◌then◌else◌,
  length, drop, replicate, length-append, done, store-append,
}
use sufficient_io_t_applicat.Spi.{burst, Call, send, System, called}
use sufficient_io_t_applicat.Spi.Transfers.{take-append, spi_read-received, spi_write_lem}
use sufficient_io_t_applicat.Gpio.{Sysfs}
use sufficient_io_t_applicat.Pins.{Board}
use sufficient_io_t_applicat.Radio.{
  read_buffer_command, read_register_command, write_buffer_command, write_register_command,
  write_registers, write_buffer, read_buffer, read_command, read_bytes, read_registers, Mode, sleep,
  rx_dc, Radio, fill, busy_loop, wait_on_busy, send_bytes, wakeup, check_device_ready,
  write_command, get_status, set_sleep_command,
}

fill-append :
    (pre rest bytes : List ℕ)
    → length bytes ≤ length rest
    → fill (length bytes) bytes (length pre) (pre ++ rest)
      ≡ done (pre ++ (bytes ++ drop (length bytes) rest))
unfolding fill
fill-append pre rest [] fits = refl
fill-append pre [] (b ∷ bytes) fits = absurd (omega arith)
fill-append pre (x ∷ rest) (b ∷ bytes) fits = ground (
  arith,
  fill-append (pre ++ (b ∷ [])) rest bytes (omega arith),
  store-append pre rest x b,
  length-append pre (b ∷ []),
  append_assoc pre (b ∷ []) rest,
  append_assoc pre (b ∷ []) (bytes ++ drop (length bytes) rest),
)

-- The radio after calls on the SPI device and looks at the pins.
abbrev pub after : List Call → Board → Radio → Radio
after calls b r = record r { board = b; world = record r.world { calls = calls ++ r.world.calls } }

-- The call that wakes a chip which may be asleep.
abbrev pub wake_calls : ℕ → Mode → List Call
wake_calls dev sleep = send dev (get_status ∷ 0 ∷ []) ∷ []
wake_calls dev rx_dc = send dev (get_status ∷ 0 ∷ []) ∷ []
wake_calls dev _ = []

module _ (system : System) (sysfs : Sysfs) where
  pub send_bytes_lem :
      (dev : ℕ) (bytes rest : List ℕ) (r : Radio)
      → r.target ≡ some dev
      → length bytes < 256
      → send_bytes system sysfs (bytes ++ rest) (length bytes) r
        ≡ done (tt, record r { world = called (send dev bytes) r.world })
  unfolding send_bytes
  send_bytes_lem dev bytes rest r open' small = ground (
    arith,
    open',
    spi_write_lem system dev r.world (bytes ++ rest) (length bytes)
        (omega (arith, length-append bytes rest)),
    take-append bytes rest,
  )

  -- The pins after the looks of `SX126xCheckDeviceReady`.
  abbrev pub settled : Mode → Board → Board
  settled sleep b = busy_loop system sysfs 1000001 (busy_loop system sysfs 1000001 b)
  settled rx_dc b = busy_loop system sysfs 1000001 (busy_loop system sysfs 1000001 b)
  settled _ b = busy_loop system sysfs 1000001 b

  pub check_device_ready_lem :
      (dev : ℕ) (r : Radio)
      → r.target ≡ some dev
      → check_device_ready system sysfs r
        ≡ done (tt, after (wake_calls dev r.mode) (settled r.mode r.board) r)
  unfolding check_device_ready wakeup wait_on_busy
  check_device_ready_lem dev r open' =
      ground (arith, send_bytes_lem dev (get_status ∷ 0 ∷ []) (0 ∷ []) r open' (omega arith))

  pub write_command_lem :
      (dev command : ℕ) (bytes : List ℕ) (r : Radio)
      → r.target ≡ some dev
      → length bytes ≤ 11
      → (b : Board) × (write_command system sysfs command bytes (length bytes) r
          ≡ done (tt, after (send dev (command ∷ bytes) ∷ wake_calls dev r.mode) b r))
  unfolding write_command wait_on_busy
  write_command_lem dev command bytes r open' small =
      let ready : Board = settled r.mode r.board in
      let looked : Board = busy_loop system sysfs 1000001 ready in
      let woken : Radio = after (wake_calls dev r.mode) looked r in
      (
        if command == set_sleep_command then looked else busy_loop system sysfs 1000001 looked,
        ground (
          arith,
          check_device_ready_lem dev r open',
          fill-append (command ∷ []) (replicate 11 0) bytes (omega arith),
          send_bytes_lem dev (command ∷ bytes) (drop (length bytes) (replicate 11 0)) woken open'
              (omega arith),
        ),
      )

  pub write_registers_lem :
      (dev address : ℕ) (bytes : List ℕ) (r : Radio)
      → r.target ≡ some dev
      → length bytes ≤ 97
      → let frame = write_register_command ∷ address / 2 ^ 8 % 2 ^ 8 ∷ address % 2 ^ 8 ∷ bytes in
        (b : Board) × (write_registers system sysfs address bytes (length bytes) r
          ≡ done (tt, after (send dev frame ∷ wake_calls dev r.mode) b r))
  unfolding write_registers wait_on_busy
  write_registers_lem dev address bytes r open' small =
      let front : List ℕ =
        write_register_command ∷ address / 2 ^ 8 % 2 ^ 8 ∷ address % 2 ^ 8 ∷ [] in
      let looked : Board = busy_loop system sysfs 1000001 (settled r.mode r.board) in
      let woken : Radio = after (wake_calls dev r.mode) looked r in
      (
        busy_loop system sysfs 1000001 looked,
        ground (
          arith,
          check_device_ready_lem dev r open',
          fill-append front (replicate 97 0) bytes small,
          send_bytes_lem dev (front ++ bytes) (drop (length bytes) (replicate 97 0)) woken open'
              (omega arith),
        ),
      )

  -- With an open device and at most 253 bytes, SX126xWriteBuffer ends and sends one frame: the
  -- command, the offset and the bytes; before it goes one that wakes the chip, exactly if the
  -- mode says that it may be asleep, and nothing but the pins changes besides.
  pub write_buffer_lem :
      (dev offset : ℕ) (bytes : List ℕ) (r : Radio)
      → r.target ≡ some dev
      → length bytes ≤ 253
      → let frame = write_buffer_command ∷ offset ∷ bytes in
        (b : Board) × (write_buffer system sysfs offset bytes (length bytes) r
          ≡ done (tt, after (send dev frame ∷ wake_calls dev r.mode) b r))
  unfolding write_buffer wait_on_busy
  write_buffer_lem dev offset bytes r open' small =
      let front : List ℕ = write_buffer_command ∷ offset ∷ [] in
      let looked : Board = busy_loop system sysfs 1000001 (settled r.mode r.board) in
      let woken : Radio = after (wake_calls dev r.mode) looked r in
      (
        busy_loop system sysfs 1000001 looked,
        ground (
          arith,
          check_device_ready_lem dev r open',
          fill-append front (replicate 254 0) bytes (omega arith),
          send_bytes_lem dev (front ++ bytes) (drop (length bytes) (replicate 254 0)) woken open'
              (omega arith),
        ),
      )

  -- A size that is a multiple of 256 is none for `spi_write`.
  send_bytes-256 :
      (dev : ℕ) (frame : List ℕ) (r : Radio)
      → r.target ≡ some dev
      → send_bytes system sysfs frame 256 r
        ≡ done (tt, record r { world = called (send dev []) r.world })
  unfolding send_bytes
  send_bytes-256 dev frame r open' =
      ground (arith, open', spi_write_lem system dev r.world frame 0 (omega arith))

  -- Of 254 bytes with an open device SX126xWriteBuffer sends none: the frame that goes out is
  -- empty, and the function ends as if nothing had happened.
  pub write_buffer_dropped :
      (dev offset : ℕ) (bytes : List ℕ) (r : Radio)
      → r.target ≡ some dev
      → length bytes ≡ 254
      → (b : Board) × (write_buffer system sysfs offset bytes (length bytes) r
          ≡ done (tt, after (send dev [] ∷ wake_calls dev r.mode) b r))
  unfolding write_buffer wait_on_busy
  write_buffer_dropped dev offset bytes r open' full =
      let front : List ℕ = write_buffer_command ∷ offset ∷ [] in
      let looked : Board = busy_loop system sysfs 1000001 (settled r.mode r.board) in
      let woken : Radio = after (wake_calls dev r.mode) looked r in
      (
        busy_loop system sysfs 1000001 looked,
        ground (
          arith,
          full,
          check_device_ready_lem dev r open',
          fill-append front (replicate 254 0) bytes (omega arith),
          send_bytes-256 dev (front ++ (bytes ++ drop (length bytes) (replicate 254 0))) woken
              open',
        ),
      )

  read_bytes_lem :
      (dev : ℕ) (bytes rest : List ℕ) (count : ℕ) (r : Radio)
      → r.target ≡ some dev
      → length bytes < 256
      → 0 < count
      → count < 256
      → let c = burst dev bytes count in
        read_bytes system sysfs (bytes ++ rest) (length bytes) count r
        ≡ done ((system.transfers r.world.calls c).1, record r { world = called c r.world })
  unfolding read_bytes
  read_bytes_lem dev bytes rest count r open' small some_byte few =
      let (status, read) =
        spi_read-received system dev r.world bytes count small some_byte few rest in
      ground (arith, open', read)

  pub read_command_lem :
      (dev command size : ℕ) (r : Radio)
      → r.target ≡ some dev
      → 0 < size
      → size < 256
      → let c = burst dev (command ∷ 0 ∷ []) size in
        let woken = wake_calls dev r.mode in
        (b : Board) × (read_command system sysfs command size r
          ≡ done ((system.transfers (woken ++ r.world.calls) c).1, after (c ∷ woken) b r))
  unfolding read_command wait_on_busy
  read_command_lem dev command size r open' some_byte few =
      let looked : Board = busy_loop system sysfs 1000001 (settled r.mode r.board) in
      let woken : Radio = after (wake_calls dev r.mode) looked r in
      (
        busy_loop system sysfs 1000001 looked,
        ground (
          arith,
          check_device_ready_lem dev r open',
          read_bytes_lem dev (command ∷ 0 ∷ []) (0 ∷ []) size woken open' (omega arith) some_byte
              few,
        ),
      )

  pub read_registers_lem :
      (dev address size : ℕ) (r : Radio)
      → r.target ≡ some dev
      → 0 < size
      → size < 256
      → let c =
          burst dev
            (read_register_command ∷ address / 2 ^ 8 % 2 ^ 8 ∷ address % 2 ^ 8 ∷ 0 ∷ [])
            size in
        let woken = wake_calls dev r.mode in
        (b : Board) × (read_registers system sysfs address size r
          ≡ done ((system.transfers (woken ++ r.world.calls) c).1, after (c ∷ woken) b r))
  unfolding read_registers wait_on_busy
  read_registers_lem dev address size r open' some_byte few =
      let front : List ℕ =
        read_register_command ∷ address / 2 ^ 8 % 2 ^ 8 ∷ address % 2 ^ 8 ∷ 0 ∷ [] in
      let looked : Board = busy_loop system sysfs 1000001 (settled r.mode r.board) in
      let woken : Radio = after (wake_calls dev r.mode) looked r in
      (
        busy_loop system sysfs 1000001 looked,
        ground (
          arith,
          check_device_ready_lem dev r open',
          read_bytes_lem dev front (0 ∷ []) size woken open' (omega arith) some_byte few,
        ),
      )

  pub read_buffer_lem :
      (dev offset size : ℕ) (r : Radio)
      → r.target ≡ some dev
      → 0 < size
      → size < 256
      → let c = burst dev (read_buffer_command ∷ offset ∷ 0 ∷ []) size in
        let woken = wake_calls dev r.mode in
        (b : Board) × (read_buffer system sysfs offset size r
          ≡ done ((system.transfers (woken ++ r.world.calls) c).1, after (c ∷ woken) b r))
  unfolding read_buffer wait_on_busy
  read_buffer_lem dev offset size r open' some_byte few =
      let looked : Board = busy_loop system sysfs 1000001 (settled r.mode r.board) in
      let woken : Radio = after (wake_calls dev r.mode) looked r in
      (
        busy_loop system sysfs 1000001 looked,
        ground (
          arith,
          check_device_ready_lem dev r open',
          read_bytes_lem dev (read_buffer_command ∷ offset ∷ 0 ∷ []) (0 ∷ []) size woken open'
              (omega arith) some_byte few,
        ),
      )

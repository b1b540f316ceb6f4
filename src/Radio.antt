-- ===== src/Radio.antt =====
-- The radio chip SX126x behind its SPI device and three pins: functional_module/lora/sx1262-board.c,
-- with `SX126xCheckDeviceReady` of functional_module/lora/sx126x.c. Delays are left out, and so are
-- the switches of the antenna, which are empty functions.
pub mod Commands
pub mod Packets
pub mod Frames
pub mod Steps
pub mod Waking
mod Tests
use sufficient_io_t_applicat.Base.{
  ℕ, zero, suc, ◌+◌, ◌/◌, ◌%◌, ◌^◌, Bool, true, false, Option, List, [], ◌∷◌, ltb, ◌==◌,
  if◌then◌else◌, replicate, Access, done, fault, load, store,
}
use sufficient_io_t_applicat.Spi.{Status, System, World, spi_open, spi_write, spi_read}
use sufficient_io_t_applicat.Gpio.{Sysfs}
use sufficient_io_t_applicat.Pins.{Board, gpio_init, gpio_read, gpio_write, gpio_set_interrupt}

-- RadioOperatingModes_t
pub data Mode : Type 0 where
  sleep stdby_rc stdby_xosc fs tx rx rx_dc cad : Mode

-- RadioPacketTypes_t
pub data PacketType : Type 0 where
  gfsk lora no_packet : PacketType

-- `spi_target`, `gPaOptSetting`, `OperatingMode`, `PacketType` and `ImageCalibrated`, with what lies
-- behind the devices.
pub record Radio : Type 0 where
  pub world : World
  pub board : Board
  pub target : Option ℕ
  pub pa_opt : ℕ
  pub mode : Mode
  pub packet_type : PacketType
  pub image_calibrated : Bool

-- A step on a state; a fault is an access outside an array, or the use of a byte that was not
-- received.
abbrev pub Step : Type 0 → Type 0 → Type 0
Step S A = S → Access (A × S)

abbrev pub Chip : Type 0 → Type 0
Chip A = Step Radio A

infixl 5 ◌>>=◌ ◌>>◌
abbrev pub ◌>>=◌ : {S A B : Type 0} → Step S A → (A → Step S B) → Step S B
◌>>=◌ m f r = elim (m r) [ fault ↦ fault | done (a, r') ↦ f a r' ]

abbrev pub ◌>>◌ : {S A B : Type 0} → Step S A → Step S B → Step S B
m >> k = m >>= λ _. k

abbrev pub pure : {S A : Type 0} → A → Step S A
pure a r = done (a, r)

abbrev pub lift : {S A : Type 0} → Access A → Step S A
lift m r = elim m [ fault ↦ fault | done a ↦ done (a, r) ]

abbrev pub set_mode : Mode → Chip (Unit {0})
set_mode mode r = done (tt, record r { mode = mode })

-- LORA_RESET, LORA_BUSY and LORA_DIO_1
abbrev pub reset_pin : ℕ
reset_pin = 70

abbrev pub busy_pin : ℕ
busy_pin = 71

abbrev pub dio1_pin : ℕ
dio1_pin = 112

-- RADIO_GET_STATUS, RADIO_SET_SLEEP, and the commands of the registers and the buffer.
abbrev pub get_status : ℕ
get_status = 0xC0

abbrev pub set_sleep_command : ℕ
set_sleep_command = 0x84

abbrev pub write_register_command : ℕ
write_register_command = 0x0D

abbrev pub read_register_command : ℕ
read_register_command = 0x1D

abbrev pub write_buffer_command : ℕ
write_buffer_command = 0x0E

abbrev pub read_buffer_command : ℕ
read_buffer_command = 0x1E

-- The loops `data[at + i] = buffer[i]`, with the rounds that are left.
unfoldable pub fill : ℕ → List ℕ → ℕ → List ℕ → Access (List ℕ)
fill zero buffer at arr = done arr
fill (suc left) [] at arr = fault
fill (suc left) (b ∷ buffer) at arr = elim (store arr at b) [
  | fault ↦ fault
  | done stored ↦ fill left buffer (at + 1) stored
]

module _ (system : System) (sysfs : Sysfs) where
  -- `left` more looks at the pin at most.
  unfoldable pub busy_loop : ℕ → Board → Board
  busy_loop zero b = b
  busy_loop (suc left) b =
      let (level, after) = gpio_read sysfs busy_pin b in
      elim (level == 1) [ true ↦ busy_loop left after | false ↦ after ]

  -- After a million rounds and one the loop breaks off.
  unfoldable pub wait_on_busy : Chip (Unit {0})
  wait_on_busy r = done (tt, record r { board = busy_loop 1000001 r.board })

  -- The calls of `spi_write` and `spi_read`, whose status is not looked at.
  unfoldable pub send_bytes : List ℕ → ℕ → Chip (Unit {0})
  send_bytes bytes size r = elim (spi_write system r.target bytes (size % 2 ^ 8) r.world) [
    | fault ↦ fault
    | done (status, after) ↦ done (tt, record r { world = after })
  ]

  unfoldable pub read_bytes : List ℕ → ℕ → ℕ → Chip (List ℕ)
  read_bytes bytes size count r =
      elim (spi_read system r.target bytes size (count % 2 ^ 8) r.world) [
        | fault ↦ fault
        | done (status, (received, after)) ↦ done (received, record r { world = after })
      ]

  unfoldable pub io_init : Chip (Unit {0})
  io_init r =
      let reset = gpio_init sysfs reset_pin 2 1 r.board in
      let busy = gpio_init sysfs busy_pin 1 0 reset in
      done (tt, record r { board = gpio_init sysfs dio1_pin 1 0 busy })

  -- By whether a thread can be created; the edge is IRQ_RISING_EDGE.
  unfoldable pub io_irq_init : Bool → ℕ → Chip (Unit {0})
  io_irq_init created handler r =
      done (tt, record r { board = gpio_set_interrupt sysfs created dio1_pin 1 handler r.board })

  unfoldable pub reset : Chip (Unit {0})
  reset r =
      let high = gpio_write sysfs reset_pin 1 r.board in
      let low = gpio_write sysfs reset_pin 0 high in
      done (tt, record r { board = gpio_write sysfs reset_pin 1 low })

  unfoldable pub spi_init : Chip Status
  spi_init r =
      let opened = spi_open system r.world in
      done (
        opened.status,
        record r {
          world = opened.world;
          target = elim opened.status [ Status.success ↦ opened.target | Status.error ↦ r.target ];
        },
      )

  unfoldable pub wakeup : Chip (Unit {0})
  unfolding send_bytes wait_on_busy
  wakeup = do send_bytes (get_status ∷ 0 ∷ 0 ∷ []) 2; wait_on_busy

  -- A chip that may be asleep is woken first.
  unfoldable pub check_device_ready : Chip (Unit {0})
  unfolding wakeup wait_on_busy
  check_device_ready r = elim r.mode [
    | Mode.sleep ↦ (do wakeup; wait_on_busy) r
    | Mode.rx_dc ↦ (do wakeup; wait_on_busy) r
    | _ ↦ wait_on_busy r
  ]

  unfoldable pub write_command : ℕ → List ℕ → ℕ → Chip (Unit {0})
  unfolding check_device_ready fill wait_on_busy send_bytes
  write_command command buffer size = do
    check_device_ready
    frame ← lift (fill size buffer 1 (command ∷ replicate 11 0))
    wait_on_busy
    send_bytes frame (size + 1)
    elim (command == set_sleep_command) [ true ↦ pure tt | false ↦ wait_on_busy ]

  unfoldable pub read_command : ℕ → ℕ → Chip (List ℕ)
  unfolding check_device_ready wait_on_busy read_bytes
  read_command command size = do
    check_device_ready
    wait_on_busy
    received ← read_bytes (command ∷ 0 ∷ 0 ∷ []) 2 size
    wait_on_busy
    pure received

  -- A size above 90 is reported only.
  unfoldable pub write_registers : ℕ → List ℕ → ℕ → Chip (Unit {0})
  unfolding check_device_ready fill wait_on_busy send_bytes
  write_registers address buffer size = do
    check_device_ready
    frame ← lift (
        fill size buffer 3
          (write_register_command ∷ address / 2 ^ 8 % 2 ^ 8 ∷ address % 2 ^ 8 ∷ replicate 97 0))
    wait_on_busy
    send_bytes frame (size + 3)
    wait_on_busy

  unfoldable pub write_register : ℕ → ℕ → Chip (Unit {0})
  unfolding write_registers
  write_register address value = write_registers address (value ∷ []) 1

  unfoldable pub read_registers : ℕ → ℕ → Chip (List ℕ)
  unfolding check_device_ready wait_on_busy read_bytes
  read_registers address size = do
    check_device_ready
    wait_on_busy
    received ←
        read_bytes (read_register_command ∷ address / 2 ^ 8 % 2 ^ 8 ∷ address % 2 ^ 8 ∷ 0 ∷ 0 ∷ [])
          4 size
    wait_on_busy
    pure received

  unfoldable pub read_register : ℕ → Chip ℕ
  unfolding read_registers
  read_register address = do received ← read_registers address 1; lift (load received 0)

  unfoldable pub write_buffer : ℕ → List ℕ → ℕ → Chip (Unit {0})
  unfolding check_device_ready fill wait_on_busy send_bytes
  write_buffer offset buffer size = do
    check_device_ready
    frame ← lift (fill size buffer 2 (write_buffer_command ∷ offset ∷ replicate 254 0))
    wait_on_busy
    send_bytes frame (size + 2)
    wait_on_busy

  unfoldable pub read_buffer : ℕ → ℕ → Chip (List ℕ)
  unfolding check_device_ready wait_on_busy read_bytes
  read_buffer offset size = do
    check_device_ready
    wait_on_busy
    received ← read_bytes (read_buffer_command ∷ offset ∷ 0 ∷ 0 ∷ []) 3 size
    wait_on_busy
    pure received

-- SX126xSetPaOpt
unfoldable pub set_pa_opt : ℕ → Radio → Radio
set_pa_opt opt r = if ltb 3 opt then r else record r { pa_opt = opt }

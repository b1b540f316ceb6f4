-- ===== src/Start.antt =====
-- The start of the program in project/main/main.c: `main` up to `loop`, with `sensor_init`, and
-- `mkfifo_init` of functional_module/fifo/mkfifo.c. What the system answers is a parameter.
pub mod Begins
mod Tests
use sufficient_io_t_applicat.Base.{
  ℕ, Bool, true, false, Option, none, some, List, [], ◌∷◌, ◌==◌, if◌then◌else◌, replicate, ℤ, pos,
}
use sufficient_io_t_applicat.I2c.{Bus, Kernel, i2c_open, returns, blocks, exits}
use sufficient_io_t_applicat.Hdc1080.{bit14, hdc1080_init}
use sufficient_io_t_applicat.Bmp180.{Calibration, read_calibration}
use sufficient_io_t_applicat.Settings.{Outcome, Ini, Settings, reads, unfinished, read_config}
use sufficient_io_t_applicat.Settings as Reading
use sufficient_io_t_applicat.Node.Region
use sufficient_io_t_applicat.Node.{Config, App, DeviceClass, DeviceState, DataSelection}

-- What the system answers about the file of the fifo: whether it exists, can be made and can be read,
-- and what `open` returns.
pub record FifoFile : Type 0 where
  pub exists : Bool
  pub makes : Bool
  pub readable : Bool
  pub descriptor : ℤ

-- `mkfifo_init`: the status 0 is `true`, -1 `false`; then `mkfifo_fd`.
unfoldable pub mkfifo_init : FifoFile → ℤ → Bool × ℤ
mkfifo_init file mkfifo_fd =
    if file.exists
    then (if file.readable then (true, file.descriptor) else (false, mkfifo_fd))
    else if file.makes
    then (if file.readable then (true, file.descriptor) else (false, mkfifo_fd))
    else (false, mkfifo_fd)

-- The system below: the fifo, and the bus, by whether it can be opened and its mutex made.
pub record Devices : Type 0 where
  pub fifo : FifoFile
  pub opened : Bool
  pub has_mutex : Bool
  pub kernel : Kernel

-- What was made ready: nothing, `mkfifo_fd`, or a bus with its sensor.
pub data Sensor : Type 0 where
  no_sensor : Sensor
  fifo_sensor : (mkfifo_fd : ℤ) → Sensor
  humidity_sensor : Bus → Sensor
  pressure_sensor : Bus → Calibration → Sensor

-- Why the program does not get to `loop`: it exits, does what C leaves undefined, waits for ever, or the
-- fuel of `read_config` is used up. A class that is none of the type is left out.
pub data Stop : Type 0 where
  by_exit by_fault by_wait out_of_fuel other_class : Stop

pub data Sensors : Type 0 where
  prepared : Sensor → Sensors
  stopped : Stop → Sensors

-- `bmp180_init`: a bus that is NULL is used.
unfoldable pub bmp180_init : Option Bus → Kernel → Sensors
unfolding read_calibration
bmp180_init none kernel = stopped by_fault
bmp180_init (some bus) kernel = elim (read_calibration kernel bus) [
  | returns words bus' ↦ prepared (pressure_sensor bus' words)
  | blocks ↦ stopped by_wait
  | exits ↦ stopped by_exit
]

-- `sensor_init`. The status of `mkfifo_init` is not looked at; `mkfifo_fd` is 0 before.
unfoldable pub sensor_init : Devices → DataSelection → Sensors
unfolding mkfifo_init i2c_open hdc1080_init bmp180_init
sensor_init d DataSelection.fixed_data = prepared no_sensor
sensor_init d DataSelection.mkfifo_data = prepared (fifo_sensor (mkfifo_init d.fifo (pos 0)).1)
sensor_init d DataSelection.hdc1080_data =
    elim (hdc1080_init d.kernel (i2c_open d.opened d.has_mutex) bit14 bit14) [
      | returns _ bus ↦ prepared (humidity_sensor bus)
      | blocks ↦ stopped by_wait
      | exits ↦ stopped by_exit
    ]
sensor_init d DataSelection.bmp180_data = bmp180_init (i2c_open d.opened d.has_mutex) d.kernel
sensor_init d DataSelection.other_data = prepared no_sensor

-- `data_selection_num`, DeviceClass_t; `none` is a number that is none of a class.
abbrev pub selection_of : ℕ → DataSelection
selection_of n =
    if n == 0
    then DataSelection.fixed_data
    else if n == 1
    then DataSelection.mkfifo_data
    else if n == 2
    then DataSelection.hdc1080_data
    else if n == 3
    then DataSelection.bmp180_data
    else DataSelection.other_data

abbrev pub class_of : ℕ → Option DeviceClass
class_of n =
    if n == 0
    then some DeviceClass.class_a
    else if n == 1
    then some DeviceClass.class_b
    else if n == 2
    then some DeviceClass.class_c
    else none

-- The globals as main.c declares them, with `config_licen` of the timer library.
abbrev pub declared : List ℕ → Settings
declared config_licen = record {
  lorawan_region = Region.eu868;
  over_the_air_activation = true;
  dev_eui = 0x22 ∷ 0x32 ∷ 0x33 ∷ 0x00 ∷ replicate 4 0xaa;
  app_eui = replicate 8 0x00;
  app_key = replicate 16 0x88;
  nwk_skey =
      0x15 ∷ 0xb1 ∷ 0xd0 ∷ 0xef ∷ 0xa4 ∷ 0x63 ∷ 0xdf ∷ 0xbe ∷ 0x3d ∷ 0x11 ∷ 0x18 ∷ 0x1e ∷ 0x1e
      ∷ 0xc7 ∷ 0xda ∷ 0x85 ∷ [];
  app_skey =
      0xd7 ∷ 0x2c ∷ 0x78 ∷ 0x75 ∷ 0x8c ∷ 0xdc ∷ 0xca ∷ 0xbf ∷ 0x55 ∷ 0xee ∷ 0x4a ∷ 0x77 ∷ 0x8d
      ∷ 0x16 ∷ 0xef ∷ 0x67 ∷ [];
  dev_addr = 0x007e6ae1;
  lorawan_class = 2;
  preamble_len = 8;
  debug_level = 0;
  user_channels_mask = 0x00FF ∷ 0x0000 ∷ 0x0000 ∷ 0x0000 ∷ 0x0000 ∷ 0x0000 ∷ [];
  app_tx_duty_cycle = 15000;
  data_selection = 0;
  fixed_data_arr = replicate 128 0;
  fixed_data_len = 0;
  app_port = 2;
  lorawan_adr = false;
  is_tx_confirmed = true;
  config_licen = config_licen;
}

-- The globals that only `read_config` writes, and those that it leaves as they are declared.
abbrev pub config_of : Settings → DeviceClass → Config
config_of s lorawan_class = record {
  lorawan_class = lorawan_class;
  lorawan_region = s.lorawan_region;
  over_the_air_activation = s.over_the_air_activation;
  lorawan_adr = s.lorawan_adr;
  is_tx_confirmed = s.is_tx_confirmed;
  confirmed_nb_trials = 1;
  passthrough_mode = false;
  app_tx_duty_cycle = s.app_tx_duty_cycle;
  dev_eui = s.dev_eui;
  app_eui = s.app_eui;
  app_key = s.app_key;
  nwk_skey = s.nwk_skey;
  app_skey = s.app_skey;
  dev_addr = s.dev_addr;
  user_channels_mask = s.user_channels_mask;
  data_selection = selection_of s.data_selection;
  fixed_data_arr = s.fixed_data_arr;
  fixed_data_len = s.fixed_data_len;
}

-- The node before the first turn of `loop`.
abbrev pub app_of : Settings → App
app_of s = record {
  device_state = DeviceState.init;
  next_tx = true;
  app_data = replicate 256 0;
  app_data_size = 4;
  app_port = s.app_port;
  tx_duty_cycle_time = 0;
  seed = 1;
  calls = [];
}

-- How the program gets to `loop`, or does not.
pub data Start : Type 0 where
  begins : Config → App → Sensor → Start
  ends : Stop → Start

abbrev pub loop_from : Settings → Option DeviceClass → Sensors → Start
loop_from s (some lorawan_class) (prepared device) =
    begins (config_of s lorawan_class) (app_of s) device
loop_from s none (prepared device) = ends other_class
loop_from s lorawan_class (stopped reason) = ends reason

-- What follows `read_config`.
unfoldable pub start_from : Devices → Outcome Settings → Start
unfolding sensor_init
start_from devices (reads s) =
    loop_from s (class_of s.lorawan_class) (sensor_init devices (selection_of s.data_selection))
start_from devices Reading.exits = ends by_exit
start_from devices Reading.faults = ends by_fault
start_from devices unfinished = ends out_of_fuel

-- `main` up to `loop`, with the fuel of `read_config`.
unfoldable pub main : ℕ → Option Ini → Devices → List ℕ → Start
unfolding start_from read_config
main fuel ini devices config_licen =
    start_from devices (read_config fuel ini (declared config_licen))

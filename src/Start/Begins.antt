-- ===== src/Start/Begins.antt =====
-- From the start of project/main/main.c into `loop`.
use mathlib.Core.Path.{subst}
use sufficient_io_t_applicat.Base.{
  ℕ, ◌%◌, ◌^◌, ◌≤◌, ◌<◌, ◌≡◌, refl, ap, ◌∙◌, Bool, true, false, ◌||◌, ◌&&◌, Option, none, some,
  List, [], ◌++◌, arith, Bool-cases, inl, inr, ◌==◌, length-append, length, drop, replicate, done,
  pos,
}
use sufficient_io_t_applicat.Hex.Spelling.{Spells}
use sufficient_io_t_applicat.License.Texts.{IsLicense}
use sufficient_io_t_applicat.Settings.Files.{configured, read_config_otaa}
use sufficient_io_t_applicat.Node.Payload.{prepare_tx_frame}
use sufficient_io_t_applicat.Node.Payload.Contents.{fixed_frame_lem}
use sufficient_io_t_applicat.Spi.Transfers.{take-append}
use sufficient_io_t_applicat.I2c.{i2c_open}
use sufficient_io_t_applicat.Hdc1080.{hdc1080_init}
use sufficient_io_t_applicat.Settings.{
  Ini, Key, Settings, Outcome, reads, exits, faults, unfinished, read_config,
}
use sufficient_io_t_applicat.Node.{Env, Config, App, DeviceState, DeviceClass, DataSelection}
use sufficient_io_t_applicat.Node.Runs.{Reaches, IsSound, Reaches-IsSound}
use sufficient_io_t_applicat.Start.{
  FifoFile, Devices, Sensor, no_sensor, fifo_sensor, Sensors, prepared, stopped, by_exit, by_fault,
  mkfifo_init, bmp180_init, sensor_init, Start, begins, ends, loop_from, start_from, main, class_of,
  app_of, config_of, declared, selection_of,
}

-- What is seen of a start: a node that has not yet done anything.
abbrev IsFresh : Start → Type 0
IsFresh (begins config s device) = (s.device_state ≡ DeviceState.init) × (s.calls ≡ [])
IsFresh (ends reason) = Unit {0}

loop_from-IsFresh :
    (s : Settings) (lorawan_class : Option DeviceClass) (r : Sensors)
    → IsFresh (loop_from s lorawan_class r)
loop_from-IsFresh s none (prepared device) = tt
loop_from-IsFresh s (some lorawan_class) (prepared device) = (refl, refl)
loop_from-IsFresh s none (stopped reason) = tt
loop_from-IsFresh s (some lorawan_class) (stopped reason) = tt

start_from-IsFresh : (devices : Devices) (r : Outcome Settings) → IsFresh (start_from devices r)
unfolding start_from
start_from-IsFresh devices (reads s) =
    loop_from-IsFresh s (class_of s.lorawan_class)
      (sensor_init devices (selection_of s.data_selection))
start_from-IsFresh devices exits = tt
start_from-IsFresh devices faults = tt
start_from-IsFresh devices unfinished = tt

main-IsFresh :
    (fuel : ℕ) (ini : Option Ini) (devices : Devices) (config_licen : List ℕ)
    → IsFresh (main fuel ini devices config_licen)
unfolding main
main-IsFresh fuel ini devices config_licen =
    start_from-IsFresh devices (read_config fuel ini (declared config_licen))

-- Whatever the configuration file, the sensors and the system answer: if main gets to loop, then
-- in every state that turns of the loop and later events lead to, either the node is still at its
-- start and has called nothing, or its first call, and no other, initialised the MAC layer.
pub main-IsSound :
    (env : Env) (fuel : ℕ) (ini : Option Ini) (devices : Devices) (config_licen : List ℕ)
    {config : Config} {s t : App} {sensor : Sensor}
    → main fuel ini devices config_licen ≡ begins config s sensor
    → Reaches env config s t
    → IsSound t
main-IsSound env fuel ini devices config_licen {config} {s} begun reached =
    let fresh = subst IsFresh begun (main-IsFresh fuel ini devices config_licen) in
    Reaches-IsSound env config fresh.0 fresh.1 reached

-- The fifo is there, or made, and can be read.
abbrev pub usable : FifoFile → Bool
usable file = (file.exists || file.makes) && file.readable

-- Where the fifo is neither there nor made, or cannot be read, and the bus cannot be opened,
-- mkfifo_init fails, but sensor_init goes on with descriptor 0 for the fifo; for the HDC1080 it
-- exits, and for the BMP180 it uses a null pointer.
pub sensor_init-Fails :
    (d : Devices)
    → usable d.fifo ≡ false
    → d.opened && d.has_mutex ≡ false
    → ((mkfifo_init d.fifo (pos 0)).0 ≡ false)
      × (sensor_init d DataSelection.mkfifo_data ≡ prepared (fifo_sensor (pos 0)))
      × (sensor_init d DataSelection.hdc1080_data ≡ stopped by_exit)
      × (sensor_init d DataSelection.bmp180_data ≡ stopped by_fault)
unfolding sensor_init mkfifo_init i2c_open hdc1080_init bmp180_init
sensor_init-Fails d no_fifo no_bus = (
  ground (arith, no_fifo),
  ground (arith, no_fifo),
  ground (arith, no_bus),
  ground (arith, no_bus),
)

class_of_lem : (n : ℕ) → n < 3 → (c : DeviceClass) × (class_of n ≡ some c)
class_of_lem n few = elim (Bool-cases (n == 0)) [
  | inl e ↦ (DeviceClass.class_a, ground (arith, e))
  | inr e ↦ elim (Bool-cases (n == 1)) [
    | inl e' ↦ (DeviceClass.class_b, ground (arith, e'))
    | inr e' ↦ (DeviceClass.class_c, ground (arith, e, e'))
  ]
]

module _ (ini : Ini) (fuel first last : ℕ) (frame words tail : List ℕ) (devices : Devices) where
  -- If mode is 0 and the file has identifiers of eight bytes and a key of 16 in digits, a first
  -- channel at or below a last one below 96, fixed data of at most 128 bytes in digits, a licence
  -- of words with commas between them with as many zeros in its array, a class below 3 and the
  -- fixed data as its source, then main, with fuel for six rounds, gets to loop without a sensor,
  -- and the frame prepared from its first state holds the bytes that the file spells, their
  -- number as its size, and the file's port.
  pub prepare_tx_frame-main :
      (env : Env) (dev app key : List ℕ)
      → ini.get_int Key.mode ≡ 0
      → Spells (ini.get_string Key.dev_eui) dev
      → Spells (ini.get_string Key.app_eui) app
      → Spells (ini.get_string Key.app_key) key
      → length dev ≡ 8
      → length app ≡ 8
      → length key ≡ 16
      → ini.get_int Key.channel_start ≡ first
      → ini.get_int Key.channel_end ≡ last
      → 6 ≤ fuel
      → first ≤ last
      → last < 96
      → Spells (ini.get_string Key.tx_frame) frame
      → length frame ≤ 128
      → IsLicense (ini.get_string Key.license) words
      → ini.get_int Key.class < 3
      → ini.get_int Key.data_selection ≡ 0
      → (config : Config) × (s : App) × (t : App) × (main fuel
            (some ini)
            devices
            (replicate (length words) 0 ++ tail)
          ≡ begins config s no_sensor)
        × (prepare_tx_frame env config s.app_port config.data_selection s ≡ done t)
        × (t.app_data ≡ frame ++ drop (length frame) (replicate 256 0))
        × (t.app_data_size ≡ length frame)
        × (t.app_port ≡ ini.get_int Key.app_port % 2 ^ 8)
  unfolding main start_from sensor_init
  prepare_tx_frame-main env dev app key mode d a k dl al kl start end fuelled order small t room l
        few source =
      let licence : List ℕ = replicate (length words) 0 ++ tail in
      let (mask, read, selects) =
        read_config_otaa ini (declared licence) fuel first last frame words tail dev app key mode d
          a k (dl, refl) (al, refl) (kl, refl) start end fuelled order small t room refl l refl in
      let s : Settings = configured ini mask frame (words ++ tail) (record (declared licence) {
        lorawan_region = ini.get_int Key.region;
        over_the_air_activation = true;
        dev_eui = dev;
        app_eui = app;
        app_key = key;
      }) in
      let (lorawan_class, known) = class_of_lem (ini.get_int Key.class) few in
      let config : Config = config_of s lorawan_class in
      let (made, prepares, contents, size, port) =
        fixed_frame_lem env config (app_of s).app_port (app_of s)
          (omega (arith, length-append frame (drop (length frame) (replicate 128 0))))
          (omega arith) in
      (
        config,
        app_of s,
        made,
        ground (arith, read, known, source),
        ground (arith, prepares, source),
        contents
            ∙ ap (λ xs. xs ++ drop (length frame) (replicate 256 0))
                (take-append frame (drop (length frame) (replicate 128 0))),
        size,
        port,
      )

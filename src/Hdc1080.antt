-- ===== src/Hdc1080.antt =====
-- functional_module/hdc1080/hdc1080.c, the driver of the humidity and temperature sensor, and the
-- conversions of main.c on its measurements. A failed call of the bus ends the program (`errlog`).
-- The delays are left out.
pub mod Measurements
mod Tests
use sufficient_io_t_applicat.Base.{
  ℕ, ◌+◌, ◌-◌, ◌*◌, ◌/◌, ◌^◌, Option, none, some, List, [], ◌∷◌, leb, if◌then◌else◌,
}
use Prim.Native.Nat.{bit_or, bit_and}
use sufficient_io_t_applicat.I2c.{
  ok, failed, Kernel, Bus, Io, exits, Driver, ◌>>=◌, ◌>>◌, pure, exit, i2c_write, i2c_read,
}

-- HDC1080_MeasurementResolution
pub data Resolution : Type 0 where
  bit8 bit11 bit14 : Resolution

-- HDC1080_I2C_ADDRESS
abbrev pub address : ℕ
address = 0x40

-- HDC1080_Pointers, those that are used.
abbrev pub temperature_register : ℕ
temperature_register = 0x00

abbrev pub humidity_register : ℕ
humidity_register = 0x01

abbrev pub configuration_register : ℕ
configuration_register = 0x02

abbrev pub manufacturer_id_register : ℕ
manufacturer_id_register = 0xFE

-- `config_reg_value`
unfoldable pub config_reg_value : Resolution → Resolution → ℕ
config_reg_value humidity temperature =
    let base : ℕ = elim temperature [ bit11 ↦ bit_or 0 (2 ^ 10) | _ ↦ 0 ] in
    elim humidity [ bit8 ↦ bit_or base (2 ^ 9) | bit11 ↦ bit_or base (2 ^ 8) | bit14 ↦ base ]

-- `config_arr`
unfoldable pub config_arr : Resolution → Resolution → List ℕ
unfolding config_reg_value
config_arr humidity temperature =
    configuration_register ∷ 0 ∷ bit_and (config_reg_value humidity temperature) 0x00ff ∷ []

-- The word of two bytes, `data[0] << 8 | data[1]`.
unfoldable pub word : List ℕ → ℕ
word (high ∷ low ∷ rest) = high * 2 ^ 8 + low
word rest = 0

module _ (kernel : Kernel) where
  -- A bus that cannot be opened, or a failed write, ends the program.
  unfoldable pub hdc1080_init : Option Bus → Resolution → Resolution → Io (Unit {0})
  unfolding config_arr
  hdc1080_init none humidity temperature = exits
  hdc1080_init (some bus) humidity temperature =
      (i2c_write kernel address (config_arr humidity temperature) >>= λ status. elim status [
        | ok ↦ pure tt
        | failed ↦ exit
      ])
        bus

  -- A register is written, and two bytes are read.
  unfoldable pub read_register : ℕ → Driver ℕ
  unfolding word
  read_register reg = i2c_write kernel address (reg ∷ []) >>= λ status. elim status [
    | failed ↦ exit
    | ok ↦ i2c_read kernel address 2 >>= λ bytes. elim bytes [
      | none ↦ exit
      | some read ↦ pure (word read)
    ]
  ]

  unfoldable pub hdc1080_read_manufacturer_id : Driver ℕ
  hdc1080_read_manufacturer_id = read_register manufacturer_id_register

  -- `temp` of `hdc1080_read_temperature` and of `hdc1080_read_humidity`, the raw words.
  unfoldable pub hdc1080_read_temperature : Driver ℕ
  hdc1080_read_temperature = read_register temperature_register

  unfoldable pub hdc1080_read_humidity : Driver ℕ
  hdc1080_read_humidity = read_register humidity_register

-- `(uint16_t)(hdc1080_temperature*100)` for the raw word: the temperature is
-- `raw / 2^16 * 165 - 40`, and a double holds this and its hundredfold exactly. From -1 down the
-- conversion is undefined, and above it cuts towards zero.
unfoldable pub temperature_hundredths : ℕ → Option ℕ
temperature_hundredths raw =
    if leb (raw * 16500 + 2 ^ 16) (4000 * 2 ^ 16)
    then none
    else some ((raw * 16500 - 4000 * 2 ^ 16) / 2 ^ 16)

-- `(uint16_t)(hdc1080_humidity*100)`: the humidity is `raw / 2^16 * 100`.
unfoldable pub humidity_hundredths : ℕ → ℕ
humidity_hundredths raw = raw * 10000 / 2 ^ 16

-- ===== src/Hdc1080/Measurements.antt =====
-- What the HDC1080 is told and what is made of its measurements.
use sufficient_io_t_applicat.Base.{
  ℕ, ◌+◌, ◌-◌, ◌*◌, ◌^◌, ◌≤◌, ◌<◌, ◌≡◌, refl, ◌↔◌, false, Option, none, some, [], ◌∷◌, arith,
  if◌then◌else◌,
}
use sufficient_io_t_applicat.I2c.{Op, Kernel, Bus, returns, exits}
use sufficient_io_t_applicat.I2c.Locking.{delivers, received, i2c_write_lem, i2c_read_lem}
use sufficient_io_t_applicat.Hdc1080.{
  Resolution, bit8, bit11, bit14, address, config_arr, word, hdc1080_init, read_register,
  temperature_hundredths, humidity_hundredths,
}

config_arr-eq :
    (humidity temperature : Resolution) → config_arr humidity temperature ≡ 2 ∷ 0 ∷ 0 ∷ []
unfolding config_arr
config_arr-eq bit8 bit8 = refl
config_arr-eq bit8 bit11 = refl
config_arr-eq bit8 bit14 = refl
config_arr-eq bit11 bit8 = refl
config_arr-eq bit11 bit11 = refl
config_arr-eq bit11 bit14 = refl
config_arr-eq bit14 bit8 = refl
config_arr-eq bit14 bit11 = refl
config_arr-eq bit14 bit14 = refl

-- The resolutions asked for have no effect: whichever they are, `hdc1080_init` does what it does for
-- 14 bits of both, on any bus and device.
pub hdc1080_init_ignores :
    (kernel : Kernel) (bus : Option Bus) (humidity temperature : Resolution)
    → hdc1080_init kernel bus humidity temperature ≡ hdc1080_init kernel bus bit14 bit14
unfolding hdc1080_init
hdc1080_init_ignores kernel none humidity temperature = refl
hdc1080_init_ignores kernel (some bus) humidity temperature =
    rw (config_arr-eq humidity temperature, config_arr-eq bit14 bit14)

-- A register is read on a free bus if its number is delivered and two bytes come back: the value has
-- the first of them as its high byte, and the bus is free again. If not, the program ends.
pub read_register_lem :
    (kernel : Kernel) (reg : ℕ) (bus : Bus)
    → bus.locked ≡ false
    → let asked : Bus = record {
      locked = false;
      ops = Op.write (reg ∷ []) ∷ Op.select address ∷ bus.ops;
    } in
      read_register kernel reg bus ≡ (
        if delivers kernel address (reg ∷ []) bus
        then elim (received kernel address 2 asked) [
          | none ↦ exits
          | some bytes ↦
              returns
                (word bytes)
                (record { locked = false; ops = Op.read 2 ∷ Op.select address ∷ asked.ops })
        ]
        else exits)
unfolding read_register
read_register_lem kernel reg bus free =
    let asked : Bus = record {
      locked = false;
      ops = Op.write (reg ∷ []) ∷ Op.select address ∷ bus.ops;
    } in
    ground (
      arith,
      i2c_write_lem kernel address (reg ∷ []) bus free,
      i2c_read_lem kernel address 2 asked refl,
    )

-- Every measured temperature above -0.01 degrees is sent in hundredths of a degree, cut towards
-- zero, and fits the two bytes; the conversion of any other is undefined.
pub temperature_hundredths_lem :
    (raw : ℕ)
    → raw < 2 ^ 16
    → ((temperature_hundredths raw ≡ none) ↔ (raw * 16500 + 2 ^ 16 ≤ 4000 * 2 ^ 16))
      × ((value : ℕ)
          → temperature_hundredths raw ≡ some value
          → (value ≤ 12500)
            × (value * 2 ^ 16 ≤ raw * 16500 - 4000 * 2 ^ 16)
            × (raw * 16500 < (value + 4001) * 2 ^ 16))
unfolding temperature_hundredths
temperature_hundredths_lem raw small =
    (ground arith, λ value e. (ground arith, ground arith, ground arith))

-- Every measured humidity is sent in hundredths of a percent, cut, and stays below 100 percent.
pub humidity_hundredths_lem :
    (raw : ℕ)
    → raw < 2 ^ 16
    → (humidity_hundredths raw < 10000)
      × (humidity_hundredths raw * 2 ^ 16 ≤ raw * 10000)
      × (raw * 10000 < (humidity_hundredths raw + 1) * 2 ^ 16)
unfolding humidity_hundredths
humidity_hundredths_lem raw small = omega arith

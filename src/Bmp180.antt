-- ===== src/Bmp180.antt =====
-- functional_module/bmp180/bmp180.c, the driver of the pressure sensor: its registers and raw
-- measurements. A failed call of the bus ends the program (`errlog`). The delays are left out.
pub mod Registers
pub mod Compensation
pub mod Conversion
pub mod Measured
mod Tests
use sufficient_io_t_applicat.Base.{ℕ, ◌+◌, ◌-◌, ◌*◌, ◌/◌, ◌^◌, Option, none, some, List, [], ◌∷◌}
use sufficient_io_t_applicat.I2c.{
  Status, ok, failed, Kernel, Driver, ◌>>=◌, ◌>>◌, pure, exit, i2c_write, i2c_read, i2c_reg_write,
}

-- BMP180_I2C_ADDRESS
abbrev pub address : ℕ
address = 0x77

-- BMP_OUT_MSB
abbrev pub out_msb : ℕ
out_msb = 0xF6

-- CONTROL_REG_ADDR, and the commands BMP_COVERT_TEMP and BMP_COVERT_PRES.
abbrev pub control_reg_addr : ℕ
control_reg_addr = 0xF4

abbrev pub convert_temp : ℕ
convert_temp = 0x2E

abbrev pub convert_pres : ℕ
convert_pres = 0xF4

-- OSS
abbrev pub oss : ℕ
oss = 3

-- The calibration words, as they stand in the registers. `ac1` to `ac3` and `b1` to `md` are read as
-- int16_t afterwards.
pub record Calibration : Type 0 where
  pub ac1 : ℕ
  pub ac2 : ℕ
  pub ac3 : ℕ
  pub ac4 : ℕ
  pub ac5 : ℕ
  pub ac6 : ℕ
  pub b1 : ℕ
  pub b2 : ℕ
  pub mb : ℕ
  pub mc : ℕ
  pub md : ℕ

-- The bytes of a word, the high one first.
unfoldable pub word : List ℕ → ℕ
word (high ∷ low ∷ rest) = high * 2 ^ 8 + low
word rest = 0

-- The 24 bits of three bytes, shifted right by `8 - OSS`.
unfoldable pub raw_pressure : List ℕ → ℕ
raw_pressure (first ∷ second ∷ third ∷ rest) =
    (first * 2 ^ 16 + second * 2 ^ 8 + third) / 2 ^ (8 - oss)
raw_pressure rest = 0

module _ (kernel : Kernel) where
  -- The check that follows each write on the bus.
  abbrev check : Status → Driver (Unit {0})
  check ok = pure tt
  check failed = exit

  -- The check that follows each read.
  abbrev expect : Option (List ℕ) → Driver (List ℕ)
  expect none = exit
  expect (some bytes) = pure bytes

  unfoldable pub multiple_read : ℕ → Driver ℕ
  unfolding word
  multiple_read reg_address = do
    written ← i2c_write kernel address (reg_address ∷ [])
    check written
    read ← i2c_read kernel address 2
    bytes ← expect read
    pure (word bytes)

  unfoldable pub read_temperature : Driver ℕ
  read_temperature = do
    started ← i2c_reg_write kernel address control_reg_addr convert_temp
    check started
    multiple_read out_msb

  unfoldable pub read_pressure : Driver ℕ
  unfolding raw_pressure
  read_pressure = do
    started ← i2c_reg_write kernel address control_reg_addr convert_pres
    check started
    written ← i2c_write kernel address (out_msb ∷ [])
    check written
    read ← i2c_read kernel address 3
    bytes ← expect read
    pure (raw_pressure bytes)

  unfoldable pub read_calibration : Driver Calibration
  read_calibration = do
    ac1 ← multiple_read 0xAA
    ac2 ← multiple_read 0xAC
    ac3 ← multiple_read 0xAE
    ac4 ← multiple_read 0xB0
    ac5 ← multiple_read 0xB2
    ac6 ← multiple_read 0xB4
    b1 ← multiple_read 0xB6
    b2 ← multiple_read 0xB8
    mb ← multiple_read 0xBA
    mc ← multiple_read 0xBC
    md ← multiple_read 0xBE
    pure (record {
      ac1 = ac1;
      ac2 = ac2;
      ac3 = ac3;
      ac4 = ac4;
      ac5 = ac5;
      ac6 = ac6;
      b1 = b1;
      b2 = b2;
      mb = mb;
      mc = mc;
      md = md;
    })

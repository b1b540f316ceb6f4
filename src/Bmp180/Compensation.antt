-- ===== src/Bmp180/Compensation.antt =====
-- `bmp180_convert` of functional_module/bmp180/bmp180.c: temperature and pressure from the raw
-- measurements and the calibration. Arithmetic on `int` that leaves its range and a division by
-- zero are faults. OSS is 3. The shift of a negative `mc` to the left multiplies it, as compilers have
-- it.
pub mod Ranges
pub mod Pressure
pub mod Exact
use sufficient_io_t_applicat.Base.{
  ℕ, ◌+◌, ◌*◌, ◌/◌, ◌%◌, ◌^◌, ltb, ◌==◌, if◌then◌else◌, Access, done, fault, ◌>>=◌, ℤ, pos,
  pos_part, neg_part, ◌+ℤ◌, ◌-ℤ◌, ◌*ℤ◌, shift_right, quotient, int32, to_int16, to_uint32, to_int32,
  sub_ℕ,
}
use sufficient_io_t_applicat.Bmp180.{Calibration}

-- Sums, differences and products of `int`.
abbrev pub plus : ℤ → ℤ → Access ℤ
plus x y = int32 (x +ℤ y)

abbrev pub minus : ℤ → ℤ → Access ℤ
minus x y = int32 (x -ℤ y)

abbrev pub times : ℤ → ℤ → Access ℤ
times x y = int32 (x *ℤ y)

abbrev pub over : ℤ → ℤ → Access ℤ
over x y = if pos_part y + neg_part y == 0 then fault else int32 (quotient x y)

-- `b5`
unfoldable pub temperature_term : Calibration → ℕ → Access ℤ
temperature_term c ut = do
  lifted ← minus (pos ut) (pos c.ac6)
  scaled ← times lifted (pos c.ac5)
  let x1 = shift_right scaled 15
  numerator ← times (to_int16 c.mc) (pos (2 ^ 11))
  denominator ← plus x1 (to_int16 c.md)
  x2 ← over numerator denominator
  plus x1 x2

-- `(b5 + 8) >> 4`, the temperature in tenths of a degree.
unfoldable pub tenths : ℤ → Access ℤ
tenths b5 = do sum ← plus b5 (pos 8); done (shift_right sum 4)

-- `b3`, from `b6`.
unfoldable pub offset_term : Calibration → ℤ → Access ℤ
offset_term c b6 = do
  square ← times b6 b6
  first ← times (to_int16 c.b2) (shift_right square 12)
  second ← times (to_int16 c.ac2) b6
  x3 ← plus (shift_right first 11) (shift_right second 11)
  four ← times (to_int16 c.ac1) (pos 4)
  sum ← plus four x3
  raised ← times sum (pos (2 ^ 3))
  rounded ← plus raised (pos 2)
  done (shift_right rounded 2)

-- The second `x3`.
unfoldable pub slope_term : Calibration → ℤ → Access ℤ
slope_term c b6 = do
  first ← times (to_int16 c.ac3) b6
  square ← times b6 b6
  second ← times (to_int16 c.b1) (shift_right square 12)
  sum ← plus (shift_right first 13) (shift_right second 16)
  rounded ← plus sum (pos 2)
  done (shift_right rounded 2)

-- `b4`, a uint32_t.
unfoldable pub slope_of : Calibration → ℤ → Access ℕ
slope_of c x3 = do sum ← plus x3 (pos 32768); done (c.ac4 * to_uint32 sum % 2 ^ 32 / 2 ^ 15)

-- `b7`, a uint32_t.
unfoldable pub rise_of : ℕ → ℤ → ℕ
rise_of up b3 = to_uint32 (pos up -ℤ b3) * (50000 / 2 ^ 3) % 2 ^ 32

-- `p` before its correction, a uint32_t.
unfoldable pub pressure_quotient : ℕ → ℕ → Access ℕ
pressure_quotient b7 b4 =
    if b4 == 0
    then fault
    else if ltb b7 0x80000000
    then done (b7 * 2 % 2 ^ 32 / b4)
    else done (b7 / b4 * 2 % 2 ^ 32)

-- What the last lines add to `p`.
unfoldable pub correction : ℤ → Access ℤ
correction p = do
  square ← times (shift_right p 8) (shift_right p 8)
  first ← times square (pos 3038)
  second ← times (sub_ℕ 0 7357) p
  sum ← plus (shift_right first 16) (shift_right second 16)
  rounded ← plus sum (pos 3791)
  done (shift_right rounded 4)

unfoldable pub corrected : ℤ → Access ℤ
unfolding correction
corrected p = do added ← correction p; plus p added

-- The pressure from `b6`.
unfoldable pub pressure_term : Calibration → ℕ → ℤ → Access ℤ
unfolding offset_term slope_term slope_of rise_of pressure_quotient corrected
pressure_term c up b6 = do
  b3 ← offset_term c b6
  x3 ← slope_term c b6
  b4 ← slope_of c x3
  p ← pressure_quotient (rise_of up b3) b4
  corrected (to_int32 p)

-- The temperature in tenths of a degree, and the pressure.
unfoldable pub compensate : Calibration → ℕ → ℕ → Access (ℤ × ℤ)
unfolding temperature_term tenths pressure_term
compensate c ut up = do
  b5 ← temperature_term c ut
  temperature ← tenths b5
  b6 ← minus b5 (pos 4000)
  pressure ← pressure_term c up b6
  done (temperature, pressure)

-- ===== src/Bmp180/Tests.antt =====
-- A BMP180, and the calibration of its data sheet.
use sufficient_io_t_applicat.Base.{
  int32, ◌-ℤ◌, ◌*ℤ◌, to_int16, shift_right, quotient, ◌-◌, ◌<◌, ◌≤◌, pos_part, neg_part, pos, done,
  ◌>>=◌, ◌+ℤ◌, IsWithin, ℕ, ◌+◌, ◌/◌, ◌^◌, ◌≡◌, refl, true, Option, none, some, List, [], ◌∷◌,
  arith, length, ◌==◌, if◌then◌else◌,
}
use sufficient_io_t_applicat.Bmp180.{Calibration}
use sufficient_io_t_applicat.Bmp180.Compensation.{temperature_term, tenths, compensate}
use sufficient_io_t_applicat.Bmp180.Compensation.Ranges.{
  raised_heat, divisor, AreWords, Bounded, temperature_term-Bounded,
}
use sufficient_io_t_applicat.Bmp180.Compensation.Exact.{
  exact_b5, exact_b3, exact_x3, exact_correction, compensate_lem,
}
use sufficient_io_t_applicat.Bmp180.Conversion.{bmp180_convert}
use sufficient_io_t_applicat.Bmp180.Measured.{bmp180_convert_lem}
use sufficient_io_t_applicat.I2c.{Op, Kernel, returns}
use sufficient_io_t_applicat.Bmp180.Registers.{measured, free, IsDevice}

-- What the output registers hold by the conversion that was started last: the temperature, the
-- pressure, or nothing yet.
abbrev held : List Op → ℕ → ℕ
held (Op.write (to ∷ command ∷ []) ∷ ops) reg =
    if command == 0x2E
    then (if reg == 0xF6 then 0x6C else 0xFA)
    else if reg == 0xF6
    then 0x5D
    else if reg == 0xF7
    then 0x23
    else 0x00
held (_ ∷ ops) reg = held ops reg
held [] reg = 0

-- What is read after the write of a register's number.
abbrev answer : List Op → ℕ → Option (List ℕ)
answer (Op.select addr ∷ Op.write (reg ∷ []) ∷ ops) size =
    if size == 2
    then some (held ops reg ∷ held ops (reg + 1) ∷ [])
    else if size == 3
    then some (held ops reg ∷ held ops (reg + 1) ∷ held ops (reg + 2) ∷ [])
    else none
answer ops size = none

abbrev sensor : Kernel
sensor = record {
  selects = λ ops addr. true;
  writes = λ ops bytes. some (length bytes);
  reads = answer;
}

sensor-IsDevice : IsDevice held sensor
sensor-IsDevice = record {
  selects = λ ops. refl;
  takes = λ ops bytes. refl;
  gives_two = λ ops reg. refl;
  gives_three = λ ops reg. refl;
}

-- The example of the data sheet, whose calibration words these are.
abbrev words_of_sheet : Calibration
words_of_sheet = record {
  ac1 = 408;
  ac2 = 65464;
  ac3 = 51153;
  ac4 = 32741;
  ac5 = 32757;
  ac6 = 23153;
  b1 = 6190;
  b2 = 4;
  mb = 32768;
  mc = 56825;
  md = 2868;
}

words_of_sheet-AreWords : AreWords words_of_sheet
words_of_sheet-AreWords = record {
  ac1_word = omega arith;
  ac2_word = omega arith;
  ac3_word = omega arith;
  ac4_word = omega arith;
  ac5_word = omega arith;
  ac6_word = omega arith;
  b1_word = omega arith;
  b2_word = omega arith;
  mc_word = omega arith;
  md_word = omega arith;
}

-- 15.0 degrees, from the raw temperature of the data sheet.
sheet-temperature : (temperature_term words_of_sheet 27898 >>= tenths) ≡ done (pos 150)
unfolding temperature_term tenths int32 ◌-ℤ◌ ◌*ℤ◌ to_int16 ◌+ℤ◌ shift_right quotient
sheet-temperature = refl

sheet-heat : IsWithin (2 ^ 31 - 1) (raised_heat words_of_sheet 27898)
unfolding ◌-ℤ◌ ◌*ℤ◌
sheet-heat = record { above = omega arith; below = omega arith }

sheet-divisor :
    0 < pos_part (divisor words_of_sheet 27898) + neg_part (divisor words_of_sheet 27898)
unfolding ◌-ℤ◌ ◌*ℤ◌ ◌+ℤ◌ shift_right to_int16
sheet-divisor = omega arith

temperature_term-Bounded_example : Bounded (2 ^ 27) (temperature_term words_of_sheet 27898)
temperature_term-Bounded_example =
    temperature_term-Bounded words_of_sheet 27898 words_of_sheet-AreWords (omega arith) sheet-heat
      sheet-divisor

-- The pressure of the data sheet, 69965 Pa, with three times as many bits.
sheet-cold : IsWithin 10400 (exact_b5 words_of_sheet 27898 -ℤ pos 4000)
unfolding ◌-ℤ◌ ◌*ℤ◌ ◌+ℤ◌ to_int16 shift_right quotient
sheet-cold = record { above = omega arith; below = omega arith }

sheet-rise :
    pos 190744 -ℤ exact_b3 words_of_sheet (exact_b5 words_of_sheet 27898 -ℤ pos 4000) ≡ pos 187366
unfolding ◌-ℤ◌ ◌*ℤ◌ ◌+ℤ◌ to_int16 shift_right quotient
sheet-rise = refl

sheet-slope :
    exact_x3 words_of_sheet (exact_b5 words_of_sheet 27898 -ℤ pos 4000) +ℤ pos 32768 ≡ pos 33485
unfolding ◌-ℤ◌ ◌*ℤ◌ ◌+ℤ◌ to_int16 shift_right quotient
sheet-slope = refl

compensate_lem_example :
    (p : ℕ) × (compensate words_of_sheet 27898 190744
      ≡ done (shift_right (exact_b5 words_of_sheet 27898 +ℤ pos 8) 4, pos p +ℤ exact_correction p))
    × (p ≤ 70002)
    × (70002 ≤ p + 1)
    × IsWithin 3791 (exact_correction p)
compensate_lem_example =
    compensate_lem words_of_sheet 27898 190744 187366 33485 words_of_sheet-AreWords (omega arith)
      (omega arith) sheet-heat sheet-divisor sheet-cold sheet-rise (omega arith) sheet-slope
      (omega arith)

bmp180_convert_lem_example :
    bmp180_convert sensor words_of_sheet (free [])
    ≡ returns
        (compensate words_of_sheet 0x6CFA (0x5D2300 / 32))
        (free (measured 0xF4 3 (measured 0x2E 2 [])))
bmp180_convert_lem_example = bmp180_convert_lem held sensor words_of_sheet [] sensor-IsDevice

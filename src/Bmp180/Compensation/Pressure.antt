-- ===== src/Bmp180/Compensation/Pressure.antt =====
-- The pressure of `bmp180_convert` of functional_module/bmp180/bmp180.c: its unsigned parts do not wrap
-- around, and what the two ways of dividing give.
use native.Mathlib.Nat.{
  suc-mul, mul_comm, mul_assoc, mul-le-mul, div-mul-le_self, lt-div-mul-add, le-div_iff_mul-le,
  div-lt_iff_lt-mul,
}
use sufficient_io_t_applicat.Base.{
  ◌-ℤ◌, ap, ◌∙◌, suc, ℕ, ◌+◌, ◌-◌, ◌*◌, ◌/◌, ◌^◌, ◌≤◌, ◌<◌, ◌≡◌, arith, ltb, done, ℤ, pos, negsuc,
  ◌+ℤ◌, to_uint32, to_int32, shift_right, IsWithin, add-IsWithin, int32_lem, Bool-cases, inl, inr,
}
use sufficient_io_t_applicat.Bmp180.{Calibration}
use sufficient_io_t_applicat.Bmp180.Compensation.{
  temperature_term, tenths, compensate, offset_term, slope_term, slope_of, rise_of,
  pressure_quotient, corrected, pressure_term,
}
use sufficient_io_t_applicat.Bmp180.Compensation.Ranges.{
  AreWords, pos-IsWithin, offset_term-Bounded, slope_term-Bounded,
}

two : (q b : ℕ) → q * 2 * b ≡ 2 * (q * b)
two q b = ap (λ n. n * b) (mul_comm q 2) ∙ mul_assoc 2 q b

-- Both ways of dividing give twice the quotient, less one at most.
pressure_quotient_lem :
    (b7 b4 : ℕ)
    → b7 < 2 ^ 32
    → 2 ≤ b4
    → (p : ℕ) × (pressure_quotient b7 b4 ≡ done p) × (p ≤ b7 * 2 / b4) × (b7 * 2 / b4 ≤ p + 1)
unfolding pressure_quotient
pressure_quotient_lem b7 b4 few some_slope = elim (Bool-cases (ltb b7 0x80000000)) [
  | inl low ↦ (b7 * 2 / b4, ground (arith, low), omega arith, omega arith)
  | inr high ↦
      let q : ℕ = b7 / b4 in
      let half : q < 2 ^ 31 =
        (div-lt_iff_lt-mul {k = b4} {x = b7} {y = 2 ^ 31} (omega arith)).1 (omega arith) in
      let less : b7 * 2 / b4 < suc q * 2 =
        (div-lt_iff_lt-mul {k = b4} {x = b7 * 2} {y = suc q * 2} (omega arith)).1 (
          omega (
            arith,
            two (suc q) b4,
            suc-mul q b4,
            lt-div-mul-add {a = b7} {b = b4} (omega arith),
          )) in
      (
        q * 2,
        ground (arith, high, half),
        (le-div_iff_mul-le {k = b4} {x = q * 2} {y = b7 * 2} (omega arith)).1
            (omega (arith, two q b4, div-mul-le_self b7 b4)),
        omega (arith, less),
      )
]

sum_of : (x : ℤ) → IsWithin 13704 x → (s : ℕ) × (x +ℤ pos 32768 ≡ pos s) × (19064 ≤ s) × (s ≤ 46472)
unfolding ◌+ℤ◌
sum_of (pos k) w = (k + 32768, ground arith, omega arith, omega (arith, w.below))
sum_of (negsuc k) w =
    (32768 - (k + 1), ground (arith, w.above), omega (arith, w.above), omega arith)

slope_of_lem :
    (c : Calibration) (x : ℤ)
    → c.ac4 < 2 ^ 16
    → 4 ≤ c.ac4
    → IsWithin 13704 x
    → (s : ℕ) × (slope_of c x ≡ done (c.ac4 * s / 2 ^ 15))
      × (x +ℤ pos 32768 ≡ pos s)
      × (2 ≤ c.ac4 * s / 2 ^ 15)
      × (19064 ≤ s)
      × (s ≤ 46472)
unfolding slope_of to_uint32
slope_of_lem c x word some_slope w =
    let (s, sum, low, high) = sum_of x w in
    let least : 4 * 19064 ≤ c.ac4 * s = mul-le-mul some_slope low in
    let most : c.ac4 * s ≤ 65535 * 46472 =
      mul-le-mul {n₁ = c.ac4} {m₁ = s} {n₂ = 65535} {m₂ = 46472} (omega arith) high in
    (
      s,
      ground (arith, int32_lem (add-IsWithin w (pos-IsWithin 32768)) (omega arith), sum, most),
      sum,
      omega (arith, least),
      low,
      high,
    )

-- How the pressure comes about.
pub record Comes (c : Calibration) (up : ℕ) (b6 : ℤ) : Type 0 where
  pub b3 : ℤ
  pub x3 : ℤ
  pub slope : ℕ
  pub p : ℕ
  pub offset : offset_term c b6 ≡ done b3
  pub tilt : slope_term c b6 ≡ done x3
  pub sum : x3 +ℤ pos 32768 ≡ pos slope
  pub low_slope : 19064 ≤ slope
  pub high_slope : slope ≤ 46472
  pub least : p ≤ rise_of up b3 * 2 / (c.ac4 * slope / 2 ^ 15)
  pub most : rise_of up b3 * 2 / (c.ac4 * slope / 2 ^ 15) ≤ p + 1
  pub result : pressure_term c up b6 ≡ corrected (to_int32 p)

-- The pressure up to its correction, with calibration words of 16 bits, ac4 at least 4 and b6 between
-- -10400 and 10400.
pub pressure_term-Comes :
    (c : Calibration) (up : ℕ) (b6 : ℤ) → AreWords c → 4 ≤ c.ac4 → IsWithin 10400 b6 → Comes c up b6
unfolding pressure_term rise_of
pressure_term-Comes c up b6 words some_slope cold =
    let offset = offset_term-Bounded c b6 words cold in
    let x3 = slope_term-Bounded c b6 words cold in
    let (s, slope, sum, wide, low, high) =
      slope_of_lem c x3.value words.ac4_word some_slope x3.within in
    let (p, divided, least, most) =
      pressure_quotient_lem (rise_of up offset.value) (c.ac4 * s / 2 ^ 15) (omega arith) wide in
    record {
      b3 = offset.value;
      x3 = x3.value;
      slope = s;
      p = p;
      offset = offset.runs;
      tilt = x3.runs;
      sum = sum;
      low_slope = low;
      high_slope = high;
      least = least;
      most = most;
      result = ground (arith, offset.runs, x3.runs, slope, divided);
    }

back : (b5 : ℤ) → IsWithin 10400 (b5 -ℤ pos 4000) → IsWithin 14400 b5
unfolding ◌-ℤ◌
back (pos k) w = record { above = omega arith; below = ground (arith, w.below) }
back (negsuc k) w = record { above = ground (arith, w.above); below = omega arith }

-- The results, from those of the parts.
pub compensate-done :
    (c : Calibration) (ut up : ℕ) (b5 added : ℤ)
    → temperature_term c ut ≡ done b5
    → IsWithin 10400 (b5 -ℤ pos 4000)
    → (comes : Comes c up (b5 -ℤ pos 4000)) → comes.p < 215040
    → corrected (pos comes.p) ≡ done (pos comes.p +ℤ added)
    → compensate c ut up ≡ done (shift_right (b5 +ℤ pos 8) 4, pos comes.p +ℤ added)
unfolding compensate tenths to_int32
compensate-done c ut up b5 added heat cold comes low ends = ground (
  arith,
  heat,
  int32_lem (add-IsWithin (back b5 cold) (pos-IsWithin 8)) (omega arith),
  int32_lem cold (omega arith),
  comes.result,
  ends,
)

-- ===== src/Bmp180/Compensation/Ranges.antt =====
-- That the arithmetic of `bmp180_convert` of functional_module/bmp180/bmp180.c stays in the range of
-- its types, where the sensor is used.
use sufficient_io_t_applicat.Base.{
  ℕ, ◌+◌, ◌-◌, ◌*◌, ◌^◌, ◌≤◌, ◌<◌, ◌≡◌, arith, Access, done, ◌>>=◌, ℤ, pos, pos_part, neg_part,
  ◌+ℤ◌, ◌-ℤ◌, ◌*ℤ◌, shift_right, quotient, quotient-IsWithin, to_int16, sub_ℕ, IsWithin,
  add-IsWithin, sub-IsWithin, mul-IsWithin, shift_right-IsWithin, int32_lem, to_int16-IsWithin,
}
use sufficient_io_t_applicat.Bmp180.{Calibration}
use sufficient_io_t_applicat.Bmp180.Compensation.{
  plus, minus, times, over, temperature_term, offset_term, slope_term, correction,
}

-- The words have 16 bits.
pub record AreWords (c : Calibration) : Type 0 where
  pub ac1_word : c.ac1 < 2 ^ 16
  pub ac2_word : c.ac2 < 2 ^ 16
  pub ac3_word : c.ac3 < 2 ^ 16
  pub ac4_word : c.ac4 < 2 ^ 16
  pub ac5_word : c.ac5 < 2 ^ 16
  pub ac6_word : c.ac6 < 2 ^ 16
  pub b1_word : c.b1 < 2 ^ 16
  pub b2_word : c.b2 < 2 ^ 16
  pub mc_word : c.mc < 2 ^ 16
  pub md_word : c.md < 2 ^ 16

-- A computation that ends with a value from -n to n.
pub record Bounded (n : ℕ) (m : Access ℤ) : Type 0 where
  pub value : ℤ
  pub runs : m ≡ done value
  pub within : IsWithin n value

module _ {a b : ℕ} {x y : ℤ} where
  times-Bounded : IsWithin a x → IsWithin b y → a * b < 2 ^ 31 → Bounded (a * b) (times x y)
  times-Bounded p q few = record {
    value = x *ℤ y;
    runs = int32_lem (mul-IsWithin p q) few;
    within = mul-IsWithin p q;
  }

  plus-Bounded : IsWithin a x → IsWithin b y → a + b < 2 ^ 31 → Bounded (a + b) (plus x y)
  plus-Bounded p q few = record {
    value = x +ℤ y;
    runs = int32_lem (add-IsWithin p q) few;
    within = add-IsWithin p q;
  }

  minus-Bounded : IsWithin a x → IsWithin b y → a + b < 2 ^ 31 → Bounded (a + b) (minus x y)
  minus-Bounded p q few = record {
    value = x -ℤ y;
    runs = int32_lem (sub-IsWithin p q) few;
    within = sub-IsWithin p q;
  }

pub pos-IsWithin : (n : ℕ) → IsWithin n (pos n)
pos-IsWithin n = record { above = omega arith; below = omega arith }

wider : {a b : ℕ} {x : ℤ} → IsWithin a x → a ≤ b → IsWithin b x
wider p more = record { above = omega (arith, p.above, more); below = omega (arith, p.below, more) }

by_done :
    {n : ℕ} {m : Access ℤ} (f : ℤ → Access ℤ) (x : ℤ)
    → m ≡ done x
    → Bounded n (f x)
    → Bounded n (m >>= f)
by_done f x given next = record {
  value = next.value;
  runs = ground (arith, given, next.runs);
  within = next.within;
}

and_then :
    {n k : ℕ} {m : Access ℤ} {f : ℤ → Access ℤ}
    → Bounded n m
    → ((x : ℤ) → IsWithin n x → Bounded k (f x))
    → Bounded k (m >>= f)
and_then {f = f} first next =
    let then = next first.value first.within in
    record {
      value = then.value;
      runs = ground (arith, first.runs, then.runs);
      within = then.within;
    }

finally :
    {n k : ℕ} {m : Access ℤ} {f : ℤ → ℤ}
    → Bounded n m
    → ((x : ℤ) → IsWithin n x → IsWithin k (f x))
    → Bounded k (m >>= λ x. done (f x))
finally {f = f} first next = record {
  value = f first.value;
  runs = ground (arith, first.runs);
  within = next first.value first.within;
}

wide : {a b : ℕ} {m : Access ℤ} → Bounded a m → a ≤ b → Bounded b m
wide p more = record { value = p.value; runs = p.runs; within = wider p.within more }

over-Ends :
    (x y : ℤ) → 0 < pos_part y + neg_part y → IsWithin (2 ^ 26) x → over x y ≡ done (quotient x y)
over-Ends x y some_parts w = ground (arith, int32_lem (quotient-IsWithin y w) (omega arith))

pub offset_term-Bounded :
    (c : Calibration) (b6 : ℤ) → AreWords c → IsWithin 10400 b6 → Bounded 1440000 (offset_term c b6)
unfolding offset_term
offset_term-Bounded c b6 words cold =
    let w2 = to_int16-IsWithin c.b2 words.b2_word in
    let w' = to_int16-IsWithin c.ac2 words.ac2_word in
    let w1 = to_int16-IsWithin c.ac1 words.ac1_word in
    and_then (times-Bounded cold cold (omega arith)) λ square s.
      and_then (times-Bounded w2 (shift_right-IsWithin 12 s) (omega arith)) λ first f.
        and_then (times-Bounded w' cold (omega arith)) λ second g.
          and_then
            (plus-Bounded (shift_right-IsWithin 11 f) (shift_right-IsWithin 11 g) (omega arith))
            λ x3 h. and_then (times-Bounded w1 (pos-IsWithin 4) (omega arith)) λ four k.
              and_then (plus-Bounded k h (omega arith)) λ sum l.
                and_then (times-Bounded l (pos-IsWithin (2 ^ 3)) (omega arith)) λ raised r.
                  finally (plus-Bounded r (pos-IsWithin 2) (omega arith))
                    λ rounded q. wider (shift_right-IsWithin 2 q) (omega arith)

pub slope_term-Bounded :
    (c : Calibration) (b6 : ℤ) → AreWords c → IsWithin 10400 b6 → Bounded 13704 (slope_term c b6)
unfolding slope_term
slope_term-Bounded c b6 words cold =
    let w3 = to_int16-IsWithin c.ac3 words.ac3_word in
    let w1 = to_int16-IsWithin c.b1 words.b1_word in
    and_then (times-Bounded w3 cold (omega arith)) λ first f.
      and_then (times-Bounded cold cold (omega arith)) λ square s.
        and_then (times-Bounded w1 (shift_right-IsWithin 12 s) (omega arith)) λ second g.
          and_then
            (plus-Bounded (shift_right-IsWithin 13 f) (shift_right-IsWithin 16 g) (omega arith))
            λ sum h.
              finally (plus-Bounded h (pos-IsWithin 2) (omega arith))
                λ rounded q. wider (shift_right-IsWithin 2 q) (omega arith)

-- For a pressure below 215040 Pa the correction is of 3791 Pa at most.
pub correction-Bounded : (p : ℕ) → p < 215040 → Bounded 3791 (correction (pos p))
unfolding correction
correction-Bounded p low =
    let w : IsWithin 215039 (pos p) = wider (pos-IsWithin p) (omega arith) in
    let high : IsWithin 840 (shift_right (pos p) 8) =
      wider (shift_right-IsWithin 8 w) (omega arith) in
    let factor : IsWithin 7357 (sub_ℕ 0 7357) = record {
      above = omega arith;
      below = omega arith;
    } in
    and_then (times-Bounded high high (omega arith)) λ square s.
      and_then (times-Bounded s (pos-IsWithin 3038) (omega arith)) λ first f.
        and_then (times-Bounded factor w (omega arith)) λ second g.
          and_then
            (plus-Bounded (shift_right-IsWithin 16 f) (shift_right-IsWithin 16 g) (omega arith))
            λ sum h.
              finally (plus-Bounded h (pos-IsWithin 3791) (omega arith))
                λ rounded q. wider (shift_right-IsWithin 4 q) (omega arith)

-- The product that the temperature starts from, and what it is divided by.
abbrev pub raised_heat : Calibration → ℕ → ℤ
raised_heat c ut = (pos ut -ℤ pos c.ac6) *ℤ pos c.ac5

abbrev pub divisor : Calibration → ℕ → ℤ
divisor c ut = shift_right (raised_heat c ut) 15 +ℤ to_int16 c.md

-- With calibration words and a raw temperature of 16 bits, where the product of the raw
-- temperature less ac6 with ac5 fits an int and the divisor is not 0, no other step of the
-- temperature leaves the range of an int, and b5 lies between -2^27 and 2^27.
pub temperature_term-Bounded :
    (c : Calibration) (ut : ℕ)
    → AreWords c
    → ut < 2 ^ 16
    → IsWithin (2 ^ 31 - 1) (raised_heat c ut)
    → 0 < pos_part (divisor c ut) + neg_part (divisor c ut)
    → Bounded (2 ^ 27) (temperature_term c ut)
unfolding temperature_term
temperature_term-Bounded c ut words raw heat some_divisor =
    let wu : IsWithin 65535 (pos ut) = wider (pos-IsWithin ut) (omega arith) in
    let w6 : IsWithin 65535 (pos c.ac6) =
      wider (pos-IsWithin c.ac6) (omega (arith, words.ac6_word)) in
    let wc = to_int16-IsWithin c.mc words.mc_word in
    let wd = to_int16-IsWithin c.md words.md_word in
    let w1 = shift_right-IsWithin 15 heat in
    by_done _ (pos ut -ℤ pos c.ac6) (int32_lem (sub-IsWithin wu w6) (omega arith)) (
      by_done _ (raised_heat c ut) (int32_lem heat (omega arith)) (
        and_then (times-Bounded wc (pos-IsWithin (2 ^ 11)) (omega arith)) λ numerator n.
          by_done _ (divisor c ut) (int32_lem (add-IsWithin w1 wd) (omega arith)) (
            by_done _ (quotient numerator (divisor c ut))
              (over-Ends numerator (divisor c ut) some_divisor n)
              (wide (plus-Bounded w1 (quotient-IsWithin (divisor c ut) n) (omega arith))
                (omega arith)))))

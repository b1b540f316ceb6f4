-- ===== src/Bmp180/Compensation/Exact.antt =====
-- `bmp180_convert` of functional_module/bmp180/bmp180.c against the same formulas over all integers:
-- where they stay in range, the machine's arithmetic is exact.
use mathlib.Core.Path.{subst}
use sufficient_io_t_applicat.Base.{
  ap, sym, ◌∙◌, ℕ, ◌+◌, ◌-◌, ◌*◌, ◌/◌, ◌^◌, ◌≤◌, ◌<◌, ◌≡◌, arith, done, ℤ, pos, pos_part, neg_part,
  ◌+ℤ◌, ◌-ℤ◌, ◌*ℤ◌, shift_right, quotient, int32, to_int16, to_uint32, sub_ℕ, IsWithin,
  add-IsWithin, int32_lem,
}
use sufficient_io_t_applicat.Bmp180.{Calibration}
use sufficient_io_t_applicat.Bmp180.Compensation.{
  temperature_term, offset_term, slope_term, rise_of, correction, corrected, compensate,
}
use sufficient_io_t_applicat.Bmp180.Compensation.Ranges.{
  AreWords, raised_heat, divisor, temperature_term-Bounded, correction-Bounded, pos-IsWithin,
}
use sufficient_io_t_applicat.Bmp180.Compensation.Pressure.{pressure_term-Comes, compensate-done}

-- `b5`, `b3` and the second `x3` of the data sheet, and what is added to the pressure at last.
abbrev pub exact_b5 : Calibration → ℕ → ℤ
exact_b5 c ut =
    let x1 : ℤ = shift_right ((pos ut -ℤ pos c.ac6) *ℤ pos c.ac5) 15 in
    x1 +ℤ quotient (to_int16 c.mc *ℤ pos 2048) (x1 +ℤ to_int16 c.md)

abbrev pub exact_b3 : Calibration → ℤ → ℤ
exact_b3 c b6 =
    let x1 : ℤ = shift_right (to_int16 c.b2 *ℤ shift_right (b6 *ℤ b6) 12) 11 in
    let x2 : ℤ = shift_right (to_int16 c.ac2 *ℤ b6) 11 in
    shift_right ((to_int16 c.ac1 *ℤ pos 4 +ℤ (x1 +ℤ x2)) *ℤ pos 8 +ℤ pos 2) 2

abbrev pub exact_x3 : Calibration → ℤ → ℤ
exact_x3 c b6 =
    let x1 : ℤ = shift_right (to_int16 c.ac3 *ℤ b6) 13 in
    let x2 : ℤ = shift_right (to_int16 c.b1 *ℤ shift_right (b6 *ℤ b6) 12) 16 in
    shift_right (x1 +ℤ x2 +ℤ pos 2) 2

abbrev pub exact_correction : ℕ → ℤ
exact_correction p =
    let high : ℤ = shift_right (pos p) 8 in
    let x1 : ℤ = shift_right (high *ℤ high *ℤ pos 3038) 16 in
    let x2 : ℤ = shift_right (sub_ℕ 0 7357 *ℤ pos p) 16 in shift_right (x1 +ℤ x2 +ℤ pos 3791) 4

offset_term-exact : (c : Calibration) (b6 v : ℤ) → offset_term c b6 ≡ done v → exact_b3 c b6 ≡ v
unfolding offset_term int32
offset_term-exact c b6 v e = ground (arith, e)

slope_term-exact : (c : Calibration) (b6 v : ℤ) → slope_term c b6 ≡ done v → exact_x3 c b6 ≡ v
unfolding slope_term int32
slope_term-exact c b6 v e = ground (arith, e)

correction-exact : (p : ℕ) (v : ℤ) → correction (pos p) ≡ done v → exact_correction p ≡ v
unfolding correction int32
correction-exact p v e = ground (arith, e)

temperature_term-exact :
    (c : Calibration) (ut : ℕ) (v : ℤ) → temperature_term c ut ≡ done v → exact_b5 c ut ≡ v
unfolding temperature_term int32
temperature_term-exact c ut v e = ground (arith, e)

corrected-eq :
    (p : ℕ)
    → p < 215040
    → (corrected (pos p) ≡ done (pos p +ℤ exact_correction p)) × IsWithin 3791 (exact_correction p)
unfolding corrected
corrected-eq p low =
    let bounded = correction-Bounded p low in
    let is_exact = correction-exact p bounded.value bounded.runs in
    let ends = int32_lem (add-IsWithin (pos-IsWithin p) bounded.within) (omega arith) in
    (
      ground (arith, bounded.runs, is_exact, ends),
      subst (IsWithin 3791) (sym is_exact) bounded.within,
    )

rise_of-eq :
    (up n : ℕ) (b3 : ℤ) → pos up -ℤ b3 ≡ pos n → n * 6250 < 2 ^ 32 → rise_of up b3 ≡ n * 6250
unfolding rise_of to_uint32
rise_of-eq up n b3 e few = ground (arith, e, few)

module _ (c : Calibration) (ut up n s : ℕ) where
  -- With calibration words and a raw temperature of 16 bits, ac4 at least 4, a product (ut - ac6)
  -- * ac5 that fits an int and a divisor other than 0, where b5 - 4000 lies between -10400 and
  -- 10400, up - b3 is n with 6250 n below 2^32, the second x3 and 32768 make s, and 12500 n over
  -- ac4 s / 2^15 is below 215040, each over all integers: bmp180_convert computes both results
  -- without a fault. The temperature is (b5 + 8) >> 4, and the pressure is a p that is that
  -- quotient or one less, with the data sheet's correction of p, from -3791 to 3791 Pa, added.
  pub compensate_lem :
      AreWords c
      → 4 ≤ c.ac4
      → ut < 2 ^ 16
      → IsWithin (2 ^ 31 - 1) (raised_heat c ut)
      → 0 < pos_part (divisor c ut) + neg_part (divisor c ut)
      → let b6 = exact_b5 c ut -ℤ pos 4000 in
        let quotient_of = n * 6250 * 2 / (c.ac4 * s / 2 ^ 15) in
        IsWithin 10400 b6
        → pos up -ℤ exact_b3 c b6 ≡ pos n
        → n * 6250 < 2 ^ 32
        → exact_x3 c b6 +ℤ pos 32768 ≡ pos s
        → quotient_of < 215040
        → (p : ℕ) × (compensate c ut up
            ≡ done (shift_right (exact_b5 c ut +ℤ pos 8) 4, pos p +ℤ exact_correction p))
          × (p ≤ quotient_of)
          × (quotient_of ≤ p + 1)
          × IsWithin 3791 (exact_correction p)
  unfolding compensate
  compensate_lem words some_slope raw heat parts cold risen few sum low =
      let warm = temperature_term-Bounded c ut words raw heat parts in
      let b5 : exact_b5 c ut ≡ warm.value = temperature_term-exact c ut warm.value warm.runs in
      let comes = pressure_term-Comes c up (exact_b5 c ut -ℤ pos 4000) words some_slope cold in
      let b3 = offset_term-exact c (exact_b5 c ut -ℤ pos 4000) comes.b3 comes.offset in
      let x3 = slope_term-exact c (exact_b5 c ut -ℤ pos 4000) comes.x3 comes.tilt in
      let rise = rise_of-eq up n comes.b3 (rw b3 at risen) few in
      let same_slope : comes.slope ≡ s = ground (arith, comes.sum, sum, x3) in
      let below : comes.p ≤ n * 6250 * 2 / (c.ac4 * s / 2 ^ 15) =
        rw (rise, same_slope) at comes.least in
      let above : n * 6250 * 2 / (c.ac4 * s / 2 ^ 15) ≤ comes.p + 1 =
        rw (rise, same_slope) at comes.most in
      let (ends, within) = corrected-eq comes.p (omega arith) in
      let heated = warm.runs ∙ ap done (sym b5) in
      (
        comes.p,
        compensate-done c ut up (exact_b5 c ut) (exact_correction comes.p) heated cold comes
            (omega arith) ends,
        below,
        above,
        within,
      )

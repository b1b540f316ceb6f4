-- ===== src/Base/Signed.antt =====
-- Arithmetic on signed integers, the conversions of C between the widths, and bounds on what it gives.
use Prim.Native.Nat.{ℕ, suc, ◌+◌, ◌-◌, ◌*◌, ◌/◌, ◌%◌, ◌^◌, ◌≤◌, ◌<◌}
use native.Mathlib.Nat.{mul-le-mul, le-div_iff_mul-le, div-mul-le_self, one-le-pow, div-le_self}
use mathlib.Core.Path.{◌≡◌}
use mathlib.Core.Bool.{◌&&◌}
use native.Mathlib.Omega.{arith}
use sufficient_io_t_applicat.Base.Tests.{ltb, leb, if◌then◌else◌}
use sufficient_io_t_applicat.Base.Memory.{Access, done, fault}
use sufficient_io_t_applicat.Base.Int.{ℤ, pos, negsuc, pos_part, neg_part, sub_ℕ}

infixl 60 ◌+ℤ◌ ◌-ℤ◌
infixl 70 ◌*ℤ◌
unfoldable pub ◌+ℤ◌ : ℤ → ℤ → ℤ
x +ℤ y = sub_ℕ (pos_part x + pos_part y) (neg_part x + neg_part y)

unfoldable pub ◌-ℤ◌ : ℤ → ℤ → ℤ
x -ℤ y = sub_ℕ (pos_part x + neg_part y) (neg_part x + pos_part y)

unfoldable pub ◌*ℤ◌ : ℤ → ℤ → ℤ
x *ℤ y =
    sub_ℕ (pos_part x * pos_part y + neg_part x * neg_part y)
      (pos_part x * neg_part y + neg_part x * pos_part y)

-- `x >> k`, which rounds down.
unfoldable pub shift_right : ℤ → ℕ → ℤ
shift_right (pos n) k = pos (n / 2 ^ k)
shift_right (negsuc n) k = negsuc (n / 2 ^ k)

-- `x / y`, which cuts towards zero.
unfoldable pub quotient : ℤ → ℤ → ℤ
quotient (pos n) (pos m) = pos (n / m)
quotient (pos n) (negsuc m) = sub_ℕ 0 (n / (m + 1))
quotient (negsuc n) (pos m) = sub_ℕ 0 ((n + 1) / m)
quotient (negsuc n) (negsuc m) = pos ((n + 1) / (m + 1))

-- The value of an `int`; arithmetic that leaves its range is undefined.
unfoldable pub int32 : ℤ → Access ℤ
int32 x = if ltb (pos_part x) (2 ^ 31) && leb (neg_part x) (2 ^ 31) then done x else fault

-- A uint16_t read as an int16_t.
unfoldable pub to_int16 : ℕ → ℤ
to_int16 n = if ltb n (2 ^ 15) then pos n else sub_ℕ 0 (2 ^ 16 - n)

-- An integer as a uint32_t, and back.
unfoldable pub to_uint32 : ℤ → ℕ
to_uint32 (pos n) = n % 2 ^ 32
to_uint32 (negsuc n) = 2 ^ 32 - 1 - n % 2 ^ 32

unfoldable pub to_int32 : ℕ → ℤ
to_int32 n = if ltb n (2 ^ 31) then pos n else sub_ℕ n (2 ^ 32)

-- From -n to n.
pub record IsWithin (n : ℕ) (x : ℤ) : Type 0 where
  pub above : neg_part x ≤ n
  pub below : pos_part x ≤ n

pub sub_ℕ-IsWithin : (a b n : ℕ) → a ≤ b + n → b ≤ a + n → IsWithin n (sub_ℕ a b)
sub_ℕ-IsWithin a b n few many = record { above = ground arith; below = ground arith }

pub add-IsWithin : {a b : ℕ} {x y : ℤ} → IsWithin a x → IsWithin b y → IsWithin (a + b) (x +ℤ y)
unfolding ◌+ℤ◌
add-IsWithin {a = a} {b = b} {x = x} {y = y} p q =
    sub_ℕ-IsWithin (pos_part x + pos_part y) (neg_part x + neg_part y) (a + b)
      (omega (arith, p.below, q.below)) (omega (arith, p.above, q.above))

pub sub-IsWithin : {a b : ℕ} {x y : ℤ} → IsWithin a x → IsWithin b y → IsWithin (a + b) (x -ℤ y)
unfolding ◌-ℤ◌
sub-IsWithin {a = a} {b = b} {x = x} {y = y} p q =
    sub_ℕ-IsWithin (pos_part x + neg_part y) (neg_part x + pos_part y) (a + b)
      (omega (arith, p.below, q.above)) (omega (arith, p.above, q.below))

pub mul-IsWithin : {a b : ℕ} {x y : ℤ} → IsWithin a x → IsWithin b y → IsWithin (a * b) (x *ℤ y)
unfolding ◌*ℤ◌
mul-IsWithin {a = a} {b = b} {x = pos m} {y = pos k} p q =
    let small : m * k ≤ a * b = mul-le-mul p.below q.below in
    sub_ℕ-IsWithin (m * k + 0 * 0) (m * 0 + 0 * k) (a * b) (omega (arith, small)) (omega arith)
mul-IsWithin {a = a} {b = b} {x = pos m} {y = negsuc k} p q =
    let small : m * suc k ≤ a * b = mul-le-mul p.below q.above in
    sub_ℕ-IsWithin (m * 0 + 0 * suc k) (m * suc k + 0 * 0) (a * b) (omega arith)
      (omega (arith, small))
mul-IsWithin {a = a} {b = b} {x = negsuc m} {y = pos k} p q =
    let small : suc m * k ≤ a * b = mul-le-mul p.above q.below in
    sub_ℕ-IsWithin (0 * k + suc m * 0) (0 * 0 + suc m * k) (a * b) (omega arith)
      (omega (arith, small))
mul-IsWithin {a = a} {b = b} {x = negsuc m} {y = negsuc k} p q =
    let small : suc m * suc k ≤ a * b = mul-le-mul p.above q.above in
    sub_ℕ-IsWithin (0 * 0 + suc m * suc k) (0 * suc k + suc m * 0) (a * b) (omega (arith, small))
      (omega arith)

div-le-div : (m n d : ℕ) → m ≤ n → 0 < d → m / d ≤ n / d
div-le-div m n d few some_parts =
    (le-div_iff_mul-le {k = d} {x = m / d} {y = n} some_parts).1
      (omega (arith, div-mul-le_self m d))

pub shift_right-IsWithin :
    {n : ℕ} {x : ℤ} (k : ℕ) → IsWithin n x → IsWithin (n / 2 ^ k + 1) (shift_right x k)
unfolding shift_right
shift_right-IsWithin {n = n} {x = pos m} k p =
    let less = div-le-div m n (2 ^ k) p.below (one-le-pow k 2 (omega arith)) in
    record { above = omega arith; below = omega (arith, less) }
shift_right-IsWithin {n = n} {x = negsuc m} k p =
    let less = div-le-div m n (2 ^ k) (omega (arith, p.above)) (one-le-pow k 2 (omega arith)) in
    record { above = omega (arith, less); below = omega arith }

pub int32_lem : {n : ℕ} {x : ℤ} → IsWithin n x → n < 2 ^ 31 → int32 x ≡ done x
unfolding int32
int32_lem p few = ground (arith, p.above, p.below)

pub to_int16-IsWithin : (n : ℕ) → n < 2 ^ 16 → IsWithin (2 ^ 15) (to_int16 n)
unfolding to_int16
to_int16-IsWithin n few = record { above = ground arith; below = ground arith }

pub quotient-IsWithin : {n : ℕ} {x : ℤ} (y : ℤ) → IsWithin n x → IsWithin n (quotient x y)
unfolding quotient
quotient-IsWithin {n = n} {x = pos k} (pos m) p = record {
  above = omega arith;
  below = omega (arith, div-le_self k m, p.below);
}
quotient-IsWithin {n = n} {x = pos k} (negsuc m) p =
    sub_ℕ-IsWithin 0 (k / (m + 1)) n (omega arith) (omega (arith, div-le_self k (m + 1), p.below))
quotient-IsWithin {n = n} {x = negsuc k} (pos m) p =
    sub_ℕ-IsWithin 0 ((k + 1) / m) n (omega arith) (omega (arith, div-le_self (k + 1) m, p.above))
quotient-IsWithin {n = n} {x = negsuc k} (negsuc m) p = record {
  above = omega arith;
  below = omega (arith, div-le_self (k + 1) (m + 1), p.above);
}

-- ===== src/Base/Hexadecimal.antt =====
-- The hexadecimal digits by the ranges of their ASCII codes, apart from any code that reads them.
use Prim.Native.Nat.{ℕ, ◌+◌, ◌-◌, ◌≤◌, ◌<◌}
use mathlib.Core.Path.{◌≡◌}
use mathlib.Core.Logic.{◌⊎◌}

-- The character `c` is a digit of the value `d`: 0 to 9, or A to F in either case.
pub data IsHex (c d : ℕ) : Type 0 where
  decimal : c ≡ 48 + d → d < 10 → IsHex c d
  capital : c ≡ 65 + (d - 10) → 10 ≤ d → d < 16 → IsHex c d
  lowercase : c ≡ 97 + (d - 10) → 10 ≤ d → d < 16 → IsHex c d

-- The character is no digit, by the gap that it lies in.
abbrev pub IsNoHex : ℕ → Type 0
IsNoHex c = (c < 48) ⊎ (((57 < c) × (c < 65)) ⊎ (((70 < c) × (c < 97)) ⊎ (102 < c)))

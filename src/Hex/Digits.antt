-- ===== src/Hex/Digits.antt =====
-- What the `switch` of both loops gives for each character.
use sufficient_io_t_applicat.Base.{
  ℕ, ◌+◌, ◌-◌, ◌<◌, ◌≡◌, refl, inl, inr, Bool, true, false, ◌&&◌, ◌||◌, List, [], ◌∷◌, Option, none,
  some, All, arith, ltb, leb, ◌==◌, if◌then◌else◌, holds_under, holds_under→, Bool-cases, IsHex,
  decimal, capital, lowercase, IsNoHex,
}
use sufficient_io_t_applicat.Hex.{nibble, switch_on, digit_cases}

same_digit : ℕ → ℕ → Bool
same_digit c d = elim (nibble c) [ none ↦ false | some v ↦ v == d ]

is_none : Option ℕ → Bool
is_none none = true
is_none (some v) = false

decimals : holds_under 10 (λ d. same_digit (48 + d) d) ≡ true
unfolding holds_under nibble same_digit
decimals = refl

letters :
    holds_under 16 (λ d. ltb d 10 || (same_digit (65 + (d - 10)) d && same_digit (97 + (d - 10)) d))
    ≡ true
unfolding holds_under nibble same_digit
letters = refl

gaps :
    holds_under 103 (λ c.
      is_none (nibble c)
      || ((leb 48 c && leb c 57) || ((leb 65 c && leb c 70) || (leb 97 c && leb c 102))))
    ≡ true
unfolding holds_under nibble is_none
gaps = refl

same_digit-eq : (c d : ℕ) → same_digit c d ≡ true → nibble c ≡ some d
unfolding same_digit
same_digit-eq c d h = ground (arith, h)

pub nibble-IsHex : {c d : ℕ} → IsHex c d → nibble c ≡ some d
nibble-IsHex {c} {d} (decimal e small) =
    same_digit-eq c d (rw e (holds_under→ 10 (λ d. same_digit (48 + d) d) small decimals))
nibble-IsHex {c} {d} (capital e large small) =
    same_digit-eq c d (rw e (ground (arith, holds_under→ 16 letter small letters)))
  where
    letter : ℕ → Bool
    letter d = ltb d 10 || (same_digit (65 + (d - 10)) d && same_digit (97 + (d - 10)) d)
nibble-IsHex {c} {d} (lowercase e large small) =
    same_digit-eq c d (rw e (ground (arith, holds_under→ 16 letter small letters)))
  where
    letter : ℕ → Bool
    letter d = ltb d 10 || (same_digit (65 + (d - 10)) d && same_digit (97 + (d - 10)) d)

switch_on-above :
    (c : ℕ) (cases : List (ℕ × ℕ))
    → All (λ entry. entry.0 < 103) cases
    → 102 < c
    → switch_on c cases ≡ none
unfolding switch_on
switch_on-above c [] labels above = refl
switch_on-above c ((label, value) ∷ cases) labels above =
    ground (arith, switch_on-above c cases labels.1 above)

labels-low : All (λ entry. entry.0 < 103) digit_cases
labels-low = omega arith

gap-none :
    (c : ℕ)
    → c < 103
    → (leb 48 c && leb c 57) || ((leb 65 c && leb c 70) || (leb 97 c && leb c 102)) ≡ false
    → nibble c ≡ none
unfolding is_none
gap-none c low out = ground (
  arith,
  holds_under→ 103
      (λ c.
        is_none (nibble c)
        || ((leb 48 c && leb c 57) || ((leb 65 c && leb c 70) || (leb 97 c && leb c 102))))
      low gaps,
)

pub nibble-IsNoHex : {c : ℕ} → IsNoHex c → nibble c ≡ none
unfolding nibble
nibble-IsNoHex {c} (inl low) = gap-none c (omega arith) (ground arith)
nibble-IsNoHex {c} (inr (inl (low, high))) = gap-none c (omega arith) (ground arith)
nibble-IsNoHex {c} (inr (inr (inl (low, high)))) = gap-none c (omega arith) (ground arith)
nibble-IsNoHex {c} (inr (inr (inr above))) = switch_on-above c digit_cases labels-low above

pub lt-IsHex : {c d : ℕ} → IsHex c d → d < 16
lt-IsHex (decimal e small) = omega arith
lt-IsHex (capital e large small) = small
lt-IsHex (lowercase e large small) = small

-- The digits as `printf` writes them, by `%x` or by `%X`.
abbrev pub hex_char : Bool → ℕ → ℕ
hex_char upper d = if ltb d 10 then b'0' + d else if upper then 55 + d else 87 + d

pub hex_char-IsHex : (upper : Bool) (d : ℕ) → d < 16 → IsHex (hex_char upper d) d
hex_char-IsHex upper d small = elim (Bool-cases (ltb d 10)) [
  | inl few ↦ decimal (ground (arith, few)) (ground (arith, few))
  | inr many ↦ elim (Bool-cases upper) [
    | inl big ↦ capital (ground (arith, many, big)) (ground (arith, many)) small
    | inr low ↦ lowercase (ground (arith, many, low)) (ground (arith, many)) small
  ]
]

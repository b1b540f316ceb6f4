-- ===== src/Hex.antt =====
-- functional_module/data_conversion/data_conversion.c: texts of hexadecimal digits into bytes
-- (`str_to_array`) and into a 32-bit number (`str_to_int`).
-- A text is the list of the character codes that stand at `str`; a read behind it is a fault.
pub mod Digits
pub mod Spelling
pub mod Numbers
pub mod Printing
mod Tests
use sufficient_io_t_applicat.Base.{
  ℕ, zero, suc, ◌+◌, ◌-◌, ◌*◌, ◌/◌, ◌%◌, ◌^◌, true, false, List, [], ◌∷◌, Option, none, some, ◌==◌,
  if◌then◌else◌, Access, done, fault, store, ◌>>=◌,
}

-- The two return values, 0 and -1.
pub data Status : Type 0 where
  ok failed : Status

-- The cases of the `switch`, in the order of the source.
abbrev pub digit_cases : List (ℕ × ℕ)
digit_cases =
    (b'0', 0)
    ∷ (b'1', 1)
    ∷ (b'2', 2)
    ∷ (b'3', 3)
    ∷ (b'4', 4)
    ∷ (b'5', 5)
    ∷ (b'6', 6)
    ∷ (b'7', 7)
    ∷ (b'8', 8)
    ∷ (b'9', 9)
    ∷ (b'a', 10)
    ∷ (b'A', 10)
    ∷ (b'b', 11)
    ∷ (b'B', 11)
    ∷ (b'c', 12)
    ∷ (b'C', 12)
    ∷ (b'd', 13)
    ∷ (b'D', 13)
    ∷ (b'e', 14)
    ∷ (b'E', 14)
    ∷ (b'f', 15)
    ∷ (b'F', 15)
    ∷ []

unfoldable pub switch_on : ℕ → List (ℕ × ℕ) → Option ℕ
switch_on c [] = none
switch_on c ((label, temp) ∷ cases) = if c == label then some temp else switch_on c cases

-- `none` is the `default:` case, which returns -1.
unfoldable pub nibble : ℕ → Option ℕ
unfolding switch_on
nibble c = switch_on c digit_cases

-- The loop of `str_to_array` with `left` rounds to go. `count` stays at most `size`, a uint16_t,
-- so its increment does not wrap.
unfoldable pub array_loop : ℕ → ℕ → List ℕ → ℕ → List ℕ → Access (Status × List ℕ)
array_loop zero count str byte arr = done (ok, arr)
array_loop (suc left) count [] byte arr = fault
array_loop (suc left) count (c ∷ str) byte arr = elim (nibble c) [
  | none ↦ done (failed, arr)
  | some temp ↦ elim ((count + 1) % 2 == 0) [
    | true ↦
        store arr ((count + 1) / 2 - 1) ((byte + temp) % 2 ^ 8)
        >>= array_loop left (count + 1) str byte
    | false ↦ array_loop left (count + 1) str (temp * 2 ^ 4 % 2 ^ 8) arr
  ]
]

-- `size` is a uint16_t.
unfoldable pub str_to_array : List ℕ → List ℕ → ℕ → Access (Status × List ℕ)
unfolding array_loop
str_to_array str arr size =
    let size' : ℕ = size % 2 ^ 16 in
    if size' % 2 == 0 then array_loop size' 0 str 0 arr else done (failed, arr)

-- The loop of `str_to_int`; `integer` is the caller's variable, written after the loop only.
unfoldable pub int_loop : ℕ → List ℕ → ℕ → ℕ → Access (Status × ℕ)
int_loop zero str number integer = done (ok, number)
int_loop (suc left) [] number integer = fault
int_loop (suc left) (c ∷ str) number integer = elim (nibble c) [
  | none ↦ done (failed, integer)
  | some temp ↦ int_loop left str ((number * 2 ^ 4 + temp) % 2 ^ 32) integer
]

-- `size` is a uint8_t.
unfoldable pub str_to_int : List ℕ → ℕ → ℕ → Access (Status × ℕ)
unfolding int_loop
str_to_int str integer size =
    let size' : ℕ = size % 2 ^ 8 in
    if size' % 2 == 0 then int_loop size' str 0 integer else done (failed, integer)

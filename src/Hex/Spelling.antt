-- ===== src/Hex/Spelling.antt =====
-- `str_to_array` against the relation "this text spells these bytes".
use sufficient_io_t_applicat.Base.{
  set-append, ℕ, suc, ◌+◌, ◌-◌, ◌*◌, ◌/◌, ◌%◌, ◌≤◌, ◌<◌, ◌≡◌, refl, Bool, List, [], ◌∷◌, ◌++◌,
  arith, length, drop, length-append, All, IsHex, IsNoHex, ◌^◌, Access, done,
}
use mathlib.Core.List.{append_assoc, append-nil}
use sufficient_io_t_applicat.Hex.{Status, ok, failed, array_loop, str_to_array}
use sufficient_io_t_applicat.Hex.Digits.{
  nibble-IsHex, nibble-IsNoHex, lt-IsHex, hex_char, hex_char-IsHex,
}

-- Two digits for each byte, the high one first.
pub data Spells : List ℕ → List ℕ → Type 0 where
  end : Spells [] []
  pair :
      {c d h l b : ℕ} {str bytes : List ℕ}
      → IsHex c h
      → IsHex d l
      → b ≡ h * 16 + l
      → Spells str bytes
      → Spells (c ∷ d ∷ str) (b ∷ bytes)

-- A text whose first pair of characters is no byte.
pub data Malformed : List ℕ → Type 0 where
  high : {c : ℕ} {str : List ℕ} → IsNoHex c → Malformed (c ∷ str)
  low : {c d h : ℕ} {str : List ℕ} → IsHex c h → IsNoHex d → Malformed (c ∷ d ∷ str)

pub length-Spells : {str bytes : List ℕ} → Spells str bytes → length str ≡ 2 * length bytes
length-Spells end = refl
length-Spells (pair hc hd e s) = omega (arith, length-Spells s)

-- Two rounds of the loop store one byte.
array_loop_pair :
    (left : ℕ) (pre rest str : List ℕ) (c d h l x byte : ℕ)
    → IsHex c h
    → IsHex d l
    → array_loop (suc (suc left)) (2 * length pre) (c ∷ d ∷ str) byte (pre ++ (x ∷ rest))
      ≡ array_loop left (2 * length pre + 2) str (h * 16) (pre ++ ((h * 16 + l) ∷ rest))
unfolding array_loop
array_loop_pair left pre rest str c d h l x byte hc hd = ground (
  arith,
  nibble-IsHex hc,
  nibble-IsHex hd,
  lt-IsHex hc,
  lt-IsHex hd,
  set-append pre rest x (h * 16 + l),
  length-append pre (x ∷ rest),
)

-- The rounds of the loop over a spelt text store its bytes from index `length pre` on, over `rest`.
pub array_loop-Spells :
    {str bytes : List ℕ} (pre rest tail : List ℕ) (left byte : ℕ) {r : Access (Status × List ℕ)}
    → Spells str bytes
    → length bytes ≤ length rest
    → ((byte' : ℕ)
        → array_loop left
            (2 * length pre + 2 * length bytes)
            tail
            byte'
            (pre ++ (bytes ++ drop (length bytes) rest))
          ≡ r)
    → array_loop (2 * length bytes + left) (2 * length pre) (str ++ tail) byte (pre ++ rest) ≡ r
array_loop-Spells pre rest tail left byte end fits after = ground (arith, after byte)
array_loop-Spells pre [] tail left byte (pair hc hd e s) fits after = absurd (omega arith)
array_loop-Spells {str = c ∷ d ∷ str} {bytes = b ∷ bytes} pre (x ∷ rest) tail left byte {r}
      (pair {h = h} {l = l} hc hd e s) fits after =
    let step =
      array_loop_pair (2 * length bytes + left) pre rest (str ++ tail) c d h l x byte hc hd in
    let pre' : List ℕ = pre ++ (b ∷ []) in
    let longer : length pre' ≡ length pre + 1 = length-append pre (b ∷ []) in
    let split : pre' ++ (bytes ++ drop (length bytes) rest)
        ≡ pre ++ (b ∷ (bytes ++ drop (length bytes) rest)) =
      append_assoc pre (b ∷ []) _ in
    let ih : array_loop (2 * length bytes + left) (2 * length pre') (str ++ tail) (h * 16)
          (pre' ++ rest)
        ≡ r =
      array_loop-Spells pre' rest tail left (h * 16) s (omega arith)
        (λ byte'. ground (arith, after byte', split, longer)) in
    ground (arith, step, ih, longer, append_assoc pre (b ∷ []) rest)

-- Two rounds over a malformed pair end the loop, and store nothing.
array_loop-Malformed :
    {tail : List ℕ} (left k byte : ℕ) (arr : List ℕ)
    → Malformed tail
    → array_loop (suc (suc left)) (2 * k) tail byte arr ≡ done (failed, arr)
unfolding array_loop
array_loop-Malformed left k byte arr (high hc) = ground (arith, nibble-IsNoHex hc)
array_loop-Malformed left k byte arr (low hc hd) =
    ground (arith, nibble-IsHex hc, nibble-IsNoHex hd)

-- The conversion of a text of hexadecimal digits, two for each byte, shorter than 2^16 characters
-- and with an array that has room for the bytes, succeeds whatever stands behind the text: the
-- array starts with the bytes, and the rest of it is as it was. A digit is 0 to 9, or A to F in
-- either case.
pub str_to_array-Spells :
    {str bytes : List ℕ} (arr tail : List ℕ)
    → Spells str bytes
    → length bytes ≤ length arr
    → length str < 2 ^ 16
    → str_to_array (str ++ tail) arr (length str) ≡ done (ok, bytes ++ drop (length bytes) arr)
unfolding str_to_array
str_to_array-Spells {str} {bytes} arr tail s fits short =
    let r : Access (Status × List ℕ) = done (ok, bytes ++ drop (length bytes) arr) in
    let looped =
      array_loop-Spells [] arr tail 0 0 {r = r} s fits (λ byte. unfold array_loop in refl) in
    ground (arith, looped, length-Spells s)

-- After a text of hexadecimal digits, two for each byte, with room for the bytes in the array, a
-- pair of which one character is outside 0 to 9, A to F and a to f, within an even size below
-- 2^16, stops the conversion with -1. The bytes before the pair have been stored already, and the
-- rest of the array is as it was.
pub str_to_array-Malformed :
    {str bytes : List ℕ} (arr tail : List ℕ) (size : ℕ)
    → Spells str bytes
    → length bytes ≤ length arr
    → Malformed tail
    → length str < size
    → size < 2 ^ 16
    → size % 2 ≡ 0
    → str_to_array (str ++ tail) arr size ≡ done (failed, bytes ++ drop (length bytes) arr)
unfolding str_to_array
str_to_array-Malformed {str} {bytes} arr tail size s fits bad within short even =
    let r : Access (Status × List ℕ) = done (failed, bytes ++ drop (length bytes) arr) in
    let left : ℕ = size - 2 * length bytes - 2 in
    let looped = array_loop-Spells [] arr tail (suc (suc left)) 0 {r = r} s fits (λ byte. ground (
      arith,
      array_loop-Malformed left (length bytes) byte (bytes ++ drop (length bytes) arr) bad,
    )) in
    ground (arith, looped, length-Spells s)

-- Bytes as a text of two digits each, in the letters that `upper` says.
abbrev pub hex_text : Bool → List ℕ → List ℕ
hex_text upper [] = []
hex_text upper (b ∷ bytes) =
    hex_char upper (b / 16) ∷ hex_char upper (b % 16) ∷ hex_text upper bytes

pub hex_text-Spells :
    (upper : Bool) (bytes : List ℕ) → All (λ b. b < 256) bytes → Spells (hex_text upper bytes) bytes
hex_text-Spells upper [] small = end
hex_text-Spells upper (b ∷ bytes) small =
    pair (hex_char-IsHex upper (b / 16) (omega arith)) (hex_char-IsHex upper (b % 16) (omega arith))
      (omega arith) (hex_text-Spells upper bytes small.1)

-- Bytes that are printed as hexadecimal digits, capitals or not, are read back into the array.
pub str_to_array-hex_text :
    (upper : Bool) (bytes arr : List ℕ)
    → All (λ b. b < 256) bytes
    → length bytes ≤ length arr
    → 2 * length bytes < 2 ^ 16
    → str_to_array (hex_text upper bytes) arr (2 * length bytes)
      ≡ done (ok, bytes ++ drop (length bytes) arr)
str_to_array-hex_text upper bytes arr small fits short =
    let s = hex_text-Spells upper bytes small in
    ground (
      arith,
      length-Spells s,
      str_to_array-Spells arr [] s fits (omega (arith, length-Spells s)),
      append-nil (hex_text upper bytes),
    )

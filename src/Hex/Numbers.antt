-- ===== src/Hex/Numbers.antt =====
-- `str_to_int` against the bytes that a text spells, the most significant first.
use sufficient_io_t_applicat.Base.{
  ℕ, suc, ◌+◌, ◌-◌, ◌*◌, ◌%◌, ◌^◌, ◌<◌, ◌≡◌, List, [], ◌∷◌, ◌++◌, arith, length, done, IsHex,
}
use mathlib.Core.List.{append-nil}
use sufficient_io_t_applicat.Hex.{ok, failed, int_loop, str_to_int}
use sufficient_io_t_applicat.Hex.Digits.{nibble-IsHex, nibble-IsNoHex}
use sufficient_io_t_applicat.Hex.Spelling.{Spells, end, pair, Malformed, high, low, length-Spells}

-- `acc` followed by the bytes, in base 256.
abbrev pub big_endian : ℕ → List ℕ → ℕ
big_endian acc [] = acc
big_endian acc (b ∷ bytes) = big_endian (acc * 256 + b) bytes

int_loop_pair :
    (left acc integer c d h l : ℕ) (str : List ℕ)
    → IsHex c h
    → IsHex d l
    → int_loop (suc (suc left)) (c ∷ d ∷ str) (acc % 2 ^ 32) integer
      ≡ int_loop left str ((acc * 256 + (h * 16 + l)) % 2 ^ 32) integer
unfolding int_loop
int_loop_pair left acc integer c d h l str hc hd =
    let value : ((acc % 2 ^ 32 * 2 ^ 4 + h) % 2 ^ 32 * 2 ^ 4 + l) % 2 ^ 32
        ≡ (acc * 256 + (h * 16 + l)) % 2 ^ 32 =
      omega arith in
    ground (arith, value, nibble-IsHex hc, nibble-IsHex hd)

int_loop-Spells :
    {str bytes : List ℕ} (tail : List ℕ) (left acc integer : ℕ)
    → Spells str bytes
    → int_loop (2 * length bytes + left) (str ++ tail) (acc % 2 ^ 32) integer
      ≡ int_loop left tail (big_endian acc bytes % 2 ^ 32) integer
int_loop-Spells tail left acc integer end = ground arith
int_loop-Spells {str = c ∷ d ∷ str} {bytes = b ∷ bytes} tail left acc integer
      (pair {h = h} {l = l} hc hd e s) =
    ground (
      arith,
      int_loop_pair (2 * length bytes + left) acc integer c d h l (str ++ tail) hc hd,
      int_loop-Spells tail left (acc * 256 + b) integer s,
    )

-- A text of hexadecimal digits, two for each byte and fewer than 2^8, is read as the number of
-- these digits in base 16, most significant first, cut to 32 bits: the exact number for at most
-- eight digits.
pub str_to_int-Spells :
    {str bytes : List ℕ} (integer : ℕ)
    → Spells str bytes
    → length str < 2 ^ 8
    → str_to_int str integer (length str) ≡ done (ok, big_endian 0 bytes % 2 ^ 32)
unfolding str_to_int int_loop
str_to_int-Spells {str} {bytes} integer s short =
    ground (arith, int_loop-Spells [] 0 0 integer s, length-Spells s, append-nil str)

int_loop-Malformed :
    {tail : List ℕ} (left number integer : ℕ)
    → Malformed tail
    → int_loop (suc (suc left)) tail number integer ≡ done (failed, integer)
unfolding int_loop
int_loop-Malformed left number integer (high hc) = ground (arith, nibble-IsNoHex hc)
int_loop-Malformed left number integer (low hc hd) =
    ground (arith, nibble-IsHex hc, nibble-IsNoHex hd)

-- A pair of characters that is no byte, within the size, gives -1 and leaves the caller's number
-- as it was, whatever the digits before the pair are.
pub str_to_int-Malformed :
    {str bytes : List ℕ} (tail : List ℕ) (integer size : ℕ)
    → Spells str bytes
    → Malformed tail
    → length str < size
    → size < 2 ^ 8
    → size % 2 ≡ 0
    → str_to_int (str ++ tail) integer size ≡ done (failed, integer)
unfolding str_to_int
str_to_int-Malformed {str} {bytes} tail integer size s bad within short even =
    let left : ℕ = size - 2 * length bytes - 2 in
    ground (
      arith,
      int_loop-Spells tail (suc (suc left)) 0 integer s,
      int_loop-Malformed left (big_endian 0 bytes % 2 ^ 32) integer bad,
      length-Spells s,
    )

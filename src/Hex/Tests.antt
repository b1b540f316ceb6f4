-- ===== src/Hex/Tests.antt =====
-- The conversions on concrete texts.
use sufficient_io_t_applicat.Base.{
  some, ◌*◌, ℕ, ◌≡◌, refl, List, [], ◌∷◌, ◌++◌, arith, done, fault, inr, decimal, capital,
  lowercase,
}
use sufficient_io_t_applicat.Hex.{ok, failed, nibble, str_to_int, str_to_array}
use sufficient_io_t_applicat.Hex.Spelling.{
  Spells, end, pair, Malformed, high, str_to_array-Spells, str_to_array-Malformed,
}
use sufficient_io_t_applicat.Hex.Printing.{hex_to_string, str_to_array-hex_to_string}
use sufficient_io_t_applicat.Hex.Numbers.{str_to_int-Spells}

-- "2a0F"
abbrev mixed : List ℕ
mixed = b'2' ∷ b'a' ∷ b'0' ∷ b'F' ∷ []

abbrev room : List ℕ
room = 9 ∷ 9 ∷ 9 ∷ []

mixed-Spells : Spells mixed (42 ∷ 15 ∷ [])
mixed-Spells =
    pair {h = 2} {l = 10} (decimal refl (omega arith)) (lowercase refl (omega arith) (omega arith))
      refl
      (pair {h = 0} {l = 15} (decimal refl (omega arith)) (capital refl (omega arith) (omega arith))
        refl end)

-- "g1"
abbrev bad : List ℕ
bad = b'g' ∷ b'1' ∷ []

bad-Malformed : Malformed bad
bad-Malformed = high (inr (inr (inr (omega arith))))

three_outcomes :
    (str_to_array mixed room 3 ≡ done (failed, room))
    × (str_to_array mixed room 6 ≡ fault)
    × (str_to_array mixed (7 ∷ []) 4 ≡ fault)
unfolding str_to_array nibble
three_outcomes = (refl, refl, refl)

str_to_array-Spells_example : str_to_array mixed room 4 ≡ done (ok, 42 ∷ 15 ∷ 9 ∷ [])
str_to_array-Spells_example = str_to_array-Spells room [] mixed-Spells (omega arith) (omega arith)

str_to_array-Malformed_example :
    str_to_array (mixed ++ bad) room 6 ≡ done (failed, 42 ∷ 15 ∷ 9 ∷ [])
str_to_array-Malformed_example =
    str_to_array-Malformed room bad 6 mixed-Spells (omega arith) bad-Malformed (omega arith)
      (omega arith) refl

str_to_array-hex_to_string_example :
    (printed : List ℕ) × (hex_to_string (some (0x2A ∷ 0x0F ∷ [])) 2 (0 ∷ 0 ∷ 0 ∷ 0 ∷ 9 ∷ [])
      ≡ done (0, printed))
    × (str_to_array printed (7 ∷ 7 ∷ 7 ∷ []) (2 * 2) ≡ done (ok, 0x2A ∷ 0x0F ∷ 7 ∷ []))
str_to_array-hex_to_string_example =
    str_to_array-hex_to_string (0x2A ∷ 0x0F ∷ []) (0 ∷ 0 ∷ 0 ∷ 0 ∷ 9 ∷ []) (7 ∷ 7 ∷ 7 ∷ [])
      (omega arith, (omega arith, tt)) (omega arith) (omega arith) (omega arith) (omega arith)

str_to_int-Spells_example : str_to_int mixed 7 4 ≡ done (ok, 10767)
str_to_int-Spells_example = str_to_int-Spells 7 mixed-Spells (omega arith)

-- ===== src/Hex/Printing.antt =====
-- `HexToString` of functional_module/lora/board.c: bytes as a text of hexadecimal digits.
use sufficient_io_t_applicat.Base.{
  ◌∙◌, ap, sym, ◌+◌, store-append, length-append, ℕ, zero, suc, ◌+◌, ◌*◌, ◌/◌, ◌%◌, ◌^◌, ◌≤◌, ◌<◌,
  ◌≡◌, refl, sym, ap, ◌∙◌, true, Option, none, some, List, [], ◌∷◌, ◌++◌, arith, leb, ◌==◌,
  if◌then◌else◌, length, drop, length-append, All, Access, done, fault, store, store-append,
}
use mathlib.Core.List.{append_assoc}
use sufficient_io_t_applicat.Hex.{ok, str_to_array}
use sufficient_io_t_applicat.Hex.Digits.{hex_char}
use sufficient_io_t_applicat.Hex.Spelling.{
  hex_text, hex_text-Spells, length-Spells, str_to_array-Spells,
}

-- The digit for half a byte.
unfoldable pub string_digit : ℕ → ℕ
string_digit n = if leb n 9 then n + 0x30 else n + 0x37

-- The loop, with the rounds that are left.
unfoldable pub string_loop : ℕ → List ℕ → ℕ → List ℕ → Access (List ℕ)
unfolding string_digit
string_loop zero hex i text = done text
string_loop (suc left) [] i text = fault
string_loop (suc left) (b ∷ hex) i text = elim (store text (2 * i) (string_digit (b / 16))) [
  | fault ↦ fault
  | done half ↦ elim (store half (2 * i + 1) (string_digit (b % 16))) [
    | fault ↦ fault
    | done stored ↦ string_loop left hex (i + 1) stored
  ]
]

-- The result and the text; `none` is NULL.
unfoldable pub hex_to_string : Option (List ℕ) → ℕ → List ℕ → Access (ℕ × List ℕ)
unfolding string_loop
hex_to_string none hex_len text = done (1, text)
hex_to_string (some hex) hex_len text =
    if hex_len == 0
    then done (2, text)
    else elim (string_loop hex_len hex 0 text) [ fault ↦ fault | done stored ↦ done (0, stored) ]

string_digit-hex_char : (n : ℕ) → n < 16 → string_digit n ≡ hex_char true n
unfolding string_digit
string_digit-hex_char n small = ground arith

store_at :
    (pre rest : List ℕ) (x v i : ℕ)
    → length pre ≡ i
    → store (pre ++ (x ∷ rest)) i v ≡ done (pre ++ (v ∷ rest))
store_at pre rest x v i here = rw here at (store-append pre rest x v)

store_next :
    (pre rest : List ℕ) (w x v i : ℕ)
    → length pre + 1 ≡ i
    → store (pre ++ (w ∷ x ∷ rest)) i v ≡ done (pre ++ (w ∷ v ∷ rest))
store_next pre rest w x v i here =
    rw (append_assoc pre (w ∷ []) (x ∷ rest), append_assoc pre (w ∷ []) (v ∷ rest)) at
      (store_at (pre ++ (w ∷ [])) rest x v i (ground (arith, here, length-append pre (w ∷ []))))

-- One round of the loop.
round_eq :
    (b left i x y : ℕ) (bytes pre rest : List ℕ)
    → length pre ≡ 2 * i
    → let h = string_digit (b / 16) in
      let l = string_digit (b % 16) in
      string_loop (suc left) (b ∷ bytes) i (pre ++ (x ∷ y ∷ rest))
      ≡ string_loop left bytes (i + 1) (pre ++ (h ∷ l ∷ rest))
unfolding string_loop
round_eq b left i x y bytes pre rest here =
    let h : ℕ = string_digit (b / 16) in
    let l : ℕ = string_digit (b % 16) in
    ap
      (λ (m : Access (List ℕ)). elim m [
        | fault ↦ fault
        | done half ↦ elim (store half (2 * i + 1) l) [
          | fault ↦ fault
          | done stored ↦ string_loop left bytes (i + 1) stored
        ]
      ])
      (store_at pre (y ∷ rest) x h (2 * i) here)
    ∙ ap
        (λ (m : Access (List ℕ)). elim m [
          | fault ↦ fault
          | done stored ↦ string_loop left bytes (i + 1) stored
        ])
        (store_next pre rest h y l (2 * i + 1) (ground (arith, here)))

drop-two : (n x y : ℕ) (rest : List ℕ) → drop (2 * suc n) (x ∷ y ∷ rest) ≡ drop (2 * n) rest
drop-two n x y rest =
    let twice : 2 * suc n ≡ suc (suc (2 * n)) = omega arith in
    ap (λ (k : ℕ). drop k (x ∷ y ∷ rest)) twice

digits_eq :
    (b : ℕ) (rest : List ℕ)
    → b < 256
    → string_digit (b / 16) ∷ string_digit (b % 16) ∷ rest
      ≡ hex_char true (b / 16) ∷ hex_char true (b % 16) ∷ rest
digits_eq b rest small = ground (
  arith,
  string_digit-hex_char (b / 16) (omega arith),
  string_digit-hex_char (b % 16) (omega arith),
)

string_loop-hex_text :
    (bytes pre rest : List ℕ) (i : ℕ)
    → All (λ b. b < 256) bytes
    → length pre ≡ 2 * i
    → 2 * length bytes ≤ length rest
    → string_loop (length bytes) bytes i (pre ++ rest)
      ≡ done (pre ++ (hex_text true bytes ++ drop (2 * length bytes) rest))
unfolding string_loop
string_loop-hex_text [] pre rest i small here fits = refl
string_loop-hex_text (b ∷ bytes) pre [] i small here fits = absurd (omega arith)
string_loop-hex_text (b ∷ bytes) pre (x ∷ []) i small here fits = absurd (omega arith)
string_loop-hex_text (b ∷ bytes) pre (x ∷ y ∷ rest) i small here fits =
    let two : List ℕ = hex_char true (b / 16) ∷ hex_char true (b % 16) ∷ [] in
    let printed : List ℕ = hex_text true bytes ++ drop (2 * length bytes) rest in
    round_eq b (length bytes) i x y bytes pre rest here
    ∙ ap (λ (l : List ℕ). string_loop (length bytes) bytes (i + 1) (pre ++ l))
        (digits_eq b rest (omega arith))
    ∙ ap (λ (l : List ℕ). string_loop (length bytes) bytes (i + 1) l)
        (sym (append_assoc pre two rest))
    ∙ string_loop-hex_text bytes (pre ++ two) rest (i + 1) small.1
        (ground (arith, here, length-append pre two)) (omega arith)
    ∙ ap done (append_assoc pre two printed)
    ∙ ap (λ (l : List ℕ). done (pre ++ (two ++ (hex_text true bytes ++ l))))
        (sym (drop-two (length bytes) x y rest))

-- Some bytes, fewer than 2^15, that HexToString prints into a text with room for two digits each
-- are read back by str_to_array into an array with room for them, whose rest is unchanged.
pub str_to_array-hex_to_string :
    (bytes text arr : List ℕ)
    → All (λ b. b < 256) bytes
    → 0 < length bytes
    → 2 * length bytes ≤ length text
    → length bytes ≤ length arr
    → 2 * length bytes < 2 ^ 16
    → (printed : List ℕ) × (hex_to_string (some bytes) (length bytes) text ≡ done (0, printed))
      × (str_to_array printed arr (2 * length bytes) ≡ done (ok, bytes ++ drop (length bytes) arr))
unfolding hex_to_string
str_to_array-hex_to_string bytes text arr small some_byte room fits short =
    let s = hex_text-Spells true bytes small in
    let rest : List ℕ = drop (2 * length bytes) text in
    (
      hex_text true bytes ++ rest,
      ground (arith, string_loop-hex_text bytes [] text 0 small refl room),
      ground (
        arith,
        length-Spells s,
        str_to_array-Spells arr rest s fits (omega (arith, length-Spells s)),
      ),
    )

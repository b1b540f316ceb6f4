-- ===== src/License/Words.antt =====
-- What a licence's text is read as.
use sufficient_io_t_applicat.Base.{
  ℕ, zero, suc, ◌+◌, ◌-◌, ◌*◌, ◌^◌, ◌≤◌, ◌<◌, ◌≡◌, ◌≢◌, inl, inr, some, List, [], ◌∷◌, ◌++◌, arith,
  ◌==◌, Bool-cases, Option-cases, length, done, ◌>>=◌, load, store, Access-cases, IsHex, decimal,
  capital, lowercase,
}
use sufficient_io_t_applicat.License.{digit, add_digit, Word, word_loop, align, read_word}

pub word_loop-length :
    (str : List ℕ) (count licen : ℕ) (word : Word)
    → word_loop str count licen ≡ done word
    → length word.rest ≤ length str
unfolding word_loop
word_loop-length [] count licen word e = ground arith
word_loop-length (c ∷ str) count licen word e = elim (Bool-cases (c == b',')) [
  | inl comma ↦ ground arith
  | inr other ↦ elim (Option-cases (digit c)) [
    | inl bad ↦ ground (arith, word_loop-length str (suc count) licen word)
    | inr (d, good) ↦ elim (Access-cases (add_digit count licen d)) [
      | inl lost ↦ ground arith
      | inr (added, kept) ↦ ground (arith, word_loop-length str (suc count) added word)
    ]
  ]
]

-- The text spells these digits.
pub data Digits : List ℕ → List ℕ → Type 0 where
  empty : Digits [] []
  next : {c d : ℕ} {str ds : List ℕ} → IsHex c d → Digits str ds → Digits (c ∷ str) (d ∷ ds)

abbrev pub number : ℕ → List ℕ → ℕ
number num [] = num
number num (d ∷ ds) = number (num * 16 + d) ds

digit-IsHex : {c d : ℕ} → IsHex c d → (digit c ≡ some d) × (d < 16) × (c ≢ b',')
unfolding digit
digit-IsHex (decimal e small) = (ground arith, omega arith, ground arith)
digit-IsHex (capital e large small) = (ground arith, small, ground arith)
digit-IsHex (lowercase e large small) = (ground arith, small, ground arith)

add_digit_lem :
    (count num d : ℕ)
    → num < 2 ^ (4 * count)
    → d < 16
    → count < 8
    → (add_digit count (num * 2 ^ (32 - 4 * count)) d
        ≡ done ((num * 16 + d) * 2 ^ (32 - 4 * suc count)))
      × (num * 16 + d < 2 ^ (4 * suc count))
unfolding add_digit
add_digit_lem zero num d below small room = (ground arith, ground arith)
add_digit_lem (suc zero) num d below small room = (ground arith, ground arith)
add_digit_lem (suc (suc zero)) num d below small room = (ground arith, ground arith)
add_digit_lem (suc (suc (suc zero))) num d below small room = (ground arith, ground arith)
add_digit_lem (suc (suc (suc (suc zero)))) num d below small room = (ground arith, ground arith)
add_digit_lem (suc (suc (suc (suc (suc zero))))) num d below small room =
    (ground arith, ground arith)
add_digit_lem (suc (suc (suc (suc (suc (suc zero)))))) num d below small room =
    (ground arith, ground arith)
add_digit_lem (suc (suc (suc (suc (suc (suc (suc zero))))))) num d below small room =
    (ground arith, ground arith)
add_digit_lem (suc (suc (suc (suc (suc (suc (suc (suc count)))))))) num d below small room =
    ground arith

-- What may stand behind a word: nothing, or a comma.
pub data Ends : List ℕ → Type 0 where
  at_end : Ends []
  at_comma : {str : List ℕ} → Ends (b',' ∷ str)

word_loop-Digits :
    {str ds rest : List ℕ} (count num : ℕ)
    → Digits str ds
    → Ends rest
    → num < 2 ^ (4 * count)
    → count + length ds ≤ 8
    → word_loop (str ++ rest) count (num * 2 ^ (32 - 4 * count))
      ≡ done (record {
        count = count + length ds;
        licen = number num ds * 2 ^ (32 - 4 * (count + length ds));
        rest = rest;
      })
unfolding word_loop
word_loop-Digits count num empty at_end below room = ground arith
word_loop-Digits count num empty at_comma below room = ground arith
word_loop-Digits {rest = rest} count num (next {c} {d} {str} {ds} e s) ends below room =
    let (known, small, other) = digit-IsHex e in
    let (added, below') = add_digit_lem count num d below small (omega arith) in
    ground
      (arith, known, added, word_loop-Digits (suc count) (num * 16 + d) s ends below' (omega arith))

align_lem :
    (count num : ℕ) (rest : List ℕ)
    → 0 < count
    → count ≤ 8
    → align (record { count = count; licen = num * 2 ^ (32 - 4 * count); rest = rest }) ≡ done num
unfolding align
align_lem zero num rest some_digit few = ground arith
align_lem (suc zero) num rest some_digit few = ground arith
align_lem (suc (suc zero)) num rest some_digit few = ground arith
align_lem (suc (suc (suc zero))) num rest some_digit few = ground arith
align_lem (suc (suc (suc (suc zero)))) num rest some_digit few = ground arith
align_lem (suc (suc (suc (suc (suc zero))))) num rest some_digit few = ground arith
align_lem (suc (suc (suc (suc (suc (suc zero)))))) num rest some_digit few = ground arith
align_lem (suc (suc (suc (suc (suc (suc (suc zero))))))) num rest some_digit few = ground arith
align_lem (suc (suc (suc (suc (suc (suc (suc (suc zero)))))))) num rest some_digit few =
    ground arith
align_lem (suc (suc (suc (suc (suc (suc (suc (suc (suc count))))))))) num rest some_digit few =
    ground arith

-- A word of one to eight digits, with nothing or a comma behind it, becomes their number in the
-- array's place, if that place holds zero.
pub read_word_lem :
    {str ds rest : List ℕ} (j : ℕ) (config_licen : List ℕ)
    → Digits str ds
    → Ends rest
    → 0 < length ds
    → length ds ≤ 8
    → load config_licen j ≡ done 0
    → read_word (str ++ rest) j config_licen
      ≡ (store config_licen j (number 0 ds) >>= λ written. done (written, rest))
unfolding read_word align
read_word_lem {str} {ds} {rest} j config_licen s ends some_digit few zero_there = rw (
  zero_there,
  word_loop-Digits 0 0 s ends (omega arith) (omega arith),
  align_lem (0 + length ds) (number 0 ds) rest (omega arith) (omega arith),
)

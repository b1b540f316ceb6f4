-- ===== src/License/Texts.antt =====
-- What a whole licence is read as, and that the loop ends.
use sufficient_io_t_applicat.Base.{
  ℕ, zero, suc, ◌+◌, ◌≤◌, ◌<◌, ◌≡◌, refl, ◌∙◌, ◌≢◌, inl, inr, ◌&&◌, none, some, List, [], ◌∷◌, ◌++◌,
  arith, ◌==◌, Bool-cases, length, replicate, length-append, done, load, store-append, Access-cases,
}
use mathlib.Core.List.{append_assoc}
use sufficient_io_t_applicat.License.{word_loop, align, read_word, license_loop, read_license}
use sufficient_io_t_applicat.License.Words.{
  word_loop-length, read_word_lem, Digits, number, Ends, at_end, at_comma,
}

-- Words with commas between them, and their numbers.
pub data IsLicense : List ℕ → List ℕ → Type 0 where
  last :
      {str ds : List ℕ}
      → Digits str ds
      → 0 < length ds
      → length ds ≤ 8
      → IsLicense (b'0' ∷ b'x' ∷ (str ++ [])) (number 0 ds ∷ [])
  more :
      {str ds text ns : List ℕ}
      → Digits str ds
      → 0 < length ds
      → length ds ≤ 8
      → IsLicense text ns
      → IsLicense (b'0' ∷ b'x' ∷ (str ++ (b',' ∷ text))) (number 0 ds ∷ ns)

load-append : (pre rest : List ℕ) (x : ℕ) → load (pre ++ (x ∷ rest)) (length pre) ≡ done x
load-append [] rest x = refl
load-append (y ∷ pre) rest x = ground (arith, load-append pre rest x)

skip_comma :
    (fuel j : ℕ) (text config_licen : List ℕ)
    → license_loop (suc (suc fuel)) (b',' ∷ text) j config_licen
      ≡ license_loop (suc fuel) text j config_licen
unfolding license_loop
skip_comma fuel j [] config_licen = refl
skip_comma fuel j (c ∷ text) config_licen = refl

word_step :
    {str ds rest : List ℕ} (fuel : ℕ) (pre tail : List ℕ)
    → Digits str ds
    → Ends rest
    → 0 < length ds
    → length ds ≤ 8
    → license_loop (suc fuel) (b'0' ∷ b'x' ∷ (str ++ rest)) (length pre) (pre ++ (0 ∷ tail))
      ≡ license_loop fuel rest (length pre + 1) (pre ++ (number 0 ds ∷ tail))
unfolding license_loop
word_step {str} {ds} {rest} fuel pre tail s ends some_digit few = ground (
  arith,
  read_word_lem (length pre) (pre ++ (0 ∷ tail)) s ends some_digit few (load-append pre tail 0),
  store-append pre tail 0 (number 0 ds),
)

-- Words of one to eight digits with commas between them are read into the array's zeros in order.
license_loop-IsLicense :
    (fuel : ℕ) {text ns : List ℕ} (pre tail : List ℕ)
    → IsLicense text ns
    → length text < fuel
    → license_loop fuel text (length pre) (pre ++ (replicate (length ns) 0 ++ tail))
      ≡ some (done (pre ++ (ns ++ tail)))
unfolding license_loop
license_loop-IsLicense zero pre tail s fuelled = ground arith
license_loop-IsLicense (suc zero) pre tail (last s some_digit few) fuelled = ground arith
license_loop-IsLicense (suc (suc fuel)) pre tail (last s some_digit few) fuelled =
    word_step (suc fuel) pre tail s at_end some_digit few
license_loop-IsLicense (suc zero) pre tail (more s some_digit few words) fuelled = ground arith
license_loop-IsLicense (suc (suc zero)) pre tail (more s some_digit few words) fuelled =
    ground arith
license_loop-IsLicense (suc (suc (suc fuel))) pre tail
      (more {str} {ds} {text} {ns} s some_digit few words) fuelled =
    let n : ℕ = number 0 ds in
    let later : List ℕ = replicate (length ns) 0 ++ tail in
    word_step (suc (suc fuel)) pre later s at_comma some_digit few
    ∙ skip_comma fuel (length pre + 1) text (pre ++ (n ∷ later))
    ∙ ground (
      arith,
      license_loop-IsLicense (suc fuel) {text = text} {ns = ns} (pre ++ (n ∷ [])) tail words
          (ground (arith, length-append str (b',' ∷ text))),
      length-append pre (n ∷ []),
      append_assoc pre (n ∷ []) later,
      append_assoc pre (n ∷ []) (ns ++ tail),
    )

-- A licence of words with commas between them, each 0x and one to eight characters 0 to 9, A to F
-- or a to f, is read into an array that has zeros in as many first places: it holds the words'
-- numbers in base 16 in order, and the rest of it is unchanged.
pub read_license_lem :
    {text ns : List ℕ} (tail : List ℕ)
    → IsLicense text ns
    → read_license text (replicate (length ns) 0 ++ tail) ≡ some (done (ns ++ tail))
unfolding read_license
read_license_lem {text} {ns} tail s =
    license_loop-IsLicense (suc (length text)) {text = text} {ns = ns} [] tail s (omega arith)

read_word-rest :
    (str : List ℕ) (j : ℕ) (config_licen written rest : List ℕ)
    → read_word str j config_licen ≡ done (written, rest)
    → length rest ≤ length str
unfolding read_word
read_word-rest str j config_licen written rest e = elim (Access-cases (load config_licen j)) [
  | inl lost ↦ ground arith
  | inr (licen, loaded) ↦ elim (Access-cases (word_loop str 0 licen)) [
    | inl lost ↦ ground arith
    | inr (word, read) ↦ elim (Access-cases (align word)) [
      | inl lost ↦ ground arith
      | inr (aligned, shifted) ↦ ground (arith, word_loop-length str 0 licen word read)
    ]
  ]
]

-- The loop ends on every text and array, with as many rounds as the text has characters, and one.
license_loop-ends :
    (fuel : ℕ) (str : List ℕ) (j : ℕ) (config_licen : List ℕ)
    → length str < fuel
    → license_loop fuel str j config_licen ≢ none
unfolding license_loop
license_loop-ends zero str j config_licen fuelled = ground arith
license_loop-ends (suc fuel) [] j config_licen fuelled = ground arith
license_loop-ends (suc fuel) (c ∷ []) j config_licen fuelled =
    license_loop-ends fuel [] j config_licen (omega arith)
license_loop-ends (suc fuel) (c ∷ x ∷ str) j config_licen fuelled =
    elim (Bool-cases (c == b'0' && x == b'x')) [
      | inl word ↦ elim (Access-cases (read_word str j config_licen)) [
        | inl lost ↦ ground arith
        | inr ((written, rest), good) ↦
            let shorter = read_word-rest str j config_licen written rest good in
            let ends = license_loop-ends fuel rest (j + 1) written (omega arith) in
            ground (arith, ends)
      ]
      | inr other ↦ ground (arith, license_loop-ends fuel (x ∷ str) j config_licen (omega arith))
    ]

-- `read_license` always has rounds enough.
pub read_license-ends : (str config_licen : List ℕ) → read_license str config_licen ≢ none
unfolding read_license
read_license-ends str config_licen =
    license_loop-ends (suc (length str)) str 0 config_licen (omega arith)

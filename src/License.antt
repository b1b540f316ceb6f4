-- ===== src/License.antt =====
-- The licence in `read_config` of project/main/main.c: words `0x…` of up to eight digits, with
-- commas between them, become the words of `config_licen`. A shift by less than 0 or more than 31,
-- and a store outside the array, is a fault.
pub mod Texts
pub mod Words
mod Tests
use sufficient_io_t_applicat.Base.{
  ℕ, zero, suc, ◌+◌, ◌-◌, ◌*◌, ◌/◌, ◌%◌, ◌^◌, true, false, ◌&&◌, Option, none, some, List, [], ◌∷◌,
  ltb, leb, ◌==◌, if◌then◌else◌, length, Access, done, fault, ◌>>=◌, load, store,
}

-- The value of a digit: its code minus that of 0, minus 55 or minus 87.
unfoldable pub digit : ℕ → Option ℕ
digit c =
    if leb b'0' c && leb c b'9'
    then some (c - b'0')
    else if leb b'A' c && leb c b'F'
    then some (c - 55)
    else if leb b'a' c && leb c b'f'
    then some (c - 87)
    else none

-- `count` characters of a word are read: `k` is `28 - 4 * count`.
unfoldable pub add_digit : ℕ → ℕ → ℕ → Access ℕ
add_digit count licen d =
    if ltb count 8 then done ((licen + d * 2 ^ (28 - 4 * count)) % 2 ^ 32) else fault

-- What is left of a word: its count of characters, `config_licen[j]`, and the text behind it.
pub record Word : Type 0 where
  pub count : ℕ
  pub licen : ℕ
  pub rest : List ℕ

-- The inner `while`. A character that is no digit is reported only.
unfoldable pub word_loop : List ℕ → ℕ → ℕ → Access Word
unfolding digit add_digit
word_loop [] count licen = done (record { count = count; licen = licen; rest = [] })
word_loop (c ∷ str) count licen = elim (c == b',') [
  | true ↦ done (record { count = count; licen = licen; rest = c ∷ str })
  | false ↦ elim (digit c) [
    | none ↦ word_loop str (suc count) licen
    | some d ↦ elim (add_digit count licen d) [
      | fault ↦ fault
      | done added ↦ word_loop str (suc count) added
    ]
  ]
]

-- `config_licen[j] >> (k + 4)`
unfoldable pub align : Word → Access ℕ
align word =
    if ltb 0 word.count && leb word.count 8
    then done (word.licen / 2 ^ (32 - 4 * word.count))
    else fault

-- One word, from behind its `0x`: the array with it, and the text behind it.
unfoldable pub read_word : List ℕ → ℕ → List ℕ → Access (List ℕ × List ℕ)
unfolding word_loop align
read_word str j config_licen = do
  licen ← load config_licen j
  word ← word_loop str 0 licen
  aligned ← align word
  config_licen' ← store config_licen j aligned
  done (config_licen', word.rest)

-- The `for` loop on fuel; `none` says that it ran out.
unfoldable pub license_loop : ℕ → List ℕ → ℕ → List ℕ → Option (Access (List ℕ))
unfolding read_word
license_loop zero str j config_licen = none
license_loop (suc fuel) [] j config_licen = some (done config_licen)
license_loop (suc fuel) (c ∷ []) j config_licen = license_loop fuel [] j config_licen
license_loop (suc fuel) (c ∷ x ∷ str) j config_licen = elim (c == b'0' && x == b'x') [
  | true ↦ elim (read_word str j config_licen) [
    | fault ↦ some fault
    | done (config_licen', rest) ↦ license_loop fuel rest (j + 1) config_licen'
  ]
  | false ↦ license_loop fuel (x ∷ str) j config_licen
]

-- As many rounds as the text has characters, and one, are enough.
unfoldable pub read_license : List ℕ → List ℕ → Option (Access (List ℕ))
unfolding license_loop
read_license str config_licen = license_loop (suc (length str)) str 0 config_licen

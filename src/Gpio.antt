-- ===== src/Gpio.antt =====
-- hardware_driver/gpio/gpio.c: pins behind the files of /sys/class/gpio. What the files answer after
-- the accesses so far is a parameter. Messages on the terminal are left out.
pub mod Numbers
pub mod Attributes
pub mod Tests
use sufficient_io_t_applicat.Base.{
  ℕ, zero, suc, ◌+◌, ◌-◌, ◌*◌, ◌/◌, ◌%◌, Bool, true, false, ◌&&◌, ◌||◌, Option, none, some, List,
  [], ◌∷◌, ltb, leb, ◌==◌, if◌then◌else◌, take, ℤ, pos, negsuc, sub_ℕ,
}

-- The files below /sys/class/gpio.
pub data Field : Type 0 where
  value direction edge : Field

pub data FilePath : Type 0 where
  export unexport : FilePath
  field : (pin : ℕ) → Field → FilePath

pub data FileAccess : Type 0 where
  put : FilePath → List ℕ → FileAccess
  got : FilePath → FileAccess

-- The accesses so far, the newest first.
abbrev pub Accesses : Type 0
Accesses = List FileAccess

pub record Sysfs : Type 0 where
  -- `none` if the file cannot be opened; else whether `fwrite` wrote the text.
  pub writes : Accesses → FilePath → List ℕ → Option Bool
  -- `none` if the file cannot be opened; else what can be read.
  pub reads : Accesses → FilePath → Option (List ℕ)

-- The decimal digits of a number before `acc`, with `fuel` digits at most.
unfoldable pub digits : ℕ → ℕ → List ℕ → List ℕ
digits zero n acc = acc
digits (suc fuel) n acc =
    let rest = digits fuel (n / 10) ((b'0' + n % 10) ∷ acc) in
    if ltb n 10 then (b'0' + n) ∷ acc else rest

-- `sprintf(buff, "%d", value)`; an int has ten digits at most.
unfoldable pub print_int : ℤ → List ℕ
unfolding digits
print_int (pos n) = digits 10 n []
print_int (negsuc n) = b'-' ∷ digits 10 (suc n) []

unfoldable pub is_digit : ℕ → Bool
is_digit c = leb b'0' c && leb c b'9'

-- The digits at the front of a text.
unfoldable pub scan_digits : List ℕ → ℕ → ℕ
unfolding is_digit
scan_digits [] num = num
scan_digits (c ∷ text) num = elim (is_digit c) [
  | true ↦ scan_digits text (num * 10 + (c - b'0'))
  | false ↦ num
]

unfoldable pub is_space : ℕ → Bool
is_space c = c == b' ' || (leb 9 c && leb c 13)

-- `atoi`
unfoldable pub atoi : List ℕ → ℤ
unfolding scan_digits is_space
atoi [] = pos 0
atoi (c ∷ text) = elim (is_space c) [
  | true ↦ atoi text
  | false ↦ elim (c == b'-') [
    | true ↦ sub_ℕ 0 (scan_digits text 0)
    | false ↦ elim (c == b'+') [
      | true ↦ pos (scan_digits text 0)
      | false ↦ pos (scan_digits (c ∷ text) 0)
    ]
  ]
]

unfoldable pub lower : ℕ → ℕ
lower c = if leb b'A' c && leb c b'Z' then c + 32 else c

-- `strncasecmp(buff, word, strlen(word)) == 0` for a word of small letters.
unfoldable pub starts_with : List ℕ → List ℕ → Bool
unfolding lower
starts_with buff [] = true
starts_with [] (w ∷ word) = false
starts_with (c ∷ buff) (w ∷ word) = lower c == w && starts_with buff word

abbrev pub text_in : List ℕ
text_in = b'i' ∷ b'n' ∷ []

abbrev pub text_out : List ℕ
text_out = b'o' ∷ b'u' ∷ b't' ∷ []

abbrev pub text_none : List ℕ
text_none = b'n' ∷ b'o' ∷ b'n' ∷ b'e' ∷ []

abbrev pub text_rising : List ℕ
text_rising = b'r' ∷ b'i' ∷ b's' ∷ b'i' ∷ b'n' ∷ b'g' ∷ []

abbrev pub text_falling : List ℕ
text_falling = b'f' ∷ b'a' ∷ b'l' ∷ b'l' ∷ b'i' ∷ b'n' ∷ b'g' ∷ []

abbrev pub text_both : List ℕ
text_both = b'b' ∷ b'o' ∷ b't' ∷ b'h' ∷ []

-- GPIO_IN and GPIO_OUT; EDGE_NONE to EDGE_BOTH.
abbrev pub gpio_in : ℕ
gpio_in = 1

abbrev pub gpio_out : ℕ
gpio_out = 2

abbrev pub edge_none : ℕ
edge_none = 0

abbrev pub edge_rising : ℕ
edge_rising = 1

abbrev pub edge_falling : ℕ
edge_falling = 2

abbrev pub edge_both : ℕ
edge_both = 3

abbrev pub error : ℤ
error = negsuc 0

module _ (sysfs : Sysfs) where
  -- The count of items that `fwrite` wrote, or -1.
  unfoldable pub write_value_to_file : FilePath → List ℕ → Accesses → ℤ × Accesses
  write_value_to_file file buff past = elim (sysfs.writes past file buff) [
    | none ↦ (error, past)
    | some written ↦ (if written then pos 1 else pos 0, put file buff ∷ past)
  ]

  unfoldable pub write_int_value_to_file : FilePath → ℤ → Accesses → ℤ × Accesses
  unfolding write_value_to_file print_int
  write_int_value_to_file file number past = write_value_to_file file (print_int number) past

  -- The bytes that are read, at most `len`, and at least one; `none` is -1.
  unfoldable pub read_value_from_file : FilePath → ℕ → Accesses → Option (List ℕ) × Accesses
  read_value_from_file file len past = elim (sysfs.reads past file) [
    | none ↦ (none, past)
    | some [] ↦ (none, got file ∷ past)
    | some (c ∷ text) ↦ (some (take len (c ∷ text)), got file ∷ past)
  ]

  unfoldable pub read_int_value_from_file : FilePath → Accesses → ℤ × Accesses
  unfolding read_value_from_file atoi
  read_int_value_from_file file past =
      let (buff, after) = read_value_from_file file 254 past in
      (elim buff [ none ↦ error | some text ↦ atoi text ], after)

  unfoldable pub export_gpio_pin : ℕ → Accesses → ℤ × Accesses
  unfolding write_int_value_to_file
  export_gpio_pin pin past =
      let (ret, after) = write_int_value_to_file export (pos pin) past in
      (elim ret [ pos (suc n) ↦ pos 0 | _ ↦ error ], after)

  unfoldable pub unexport_gpio_pin : ℕ → Accesses → ℤ × Accesses
  unfolding write_int_value_to_file
  unexport_gpio_pin pin past = write_int_value_to_file unexport (pos pin) past

  unfoldable pub get_gpio_value : ℕ → Accesses → ℤ × Accesses
  unfolding read_int_value_from_file
  get_gpio_value pin past = read_int_value_from_file (field pin value) past

  unfoldable pub set_gpio_value : ℕ → ℤ → Accesses → ℤ × Accesses
  unfolding write_int_value_to_file
  set_gpio_value pin number past = write_int_value_to_file (field pin value) number past

  unfoldable pub set_gpio_direction : ℕ → ℕ → Accesses → ℤ × Accesses
  unfolding write_value_to_file
  set_gpio_direction pin wanted past =
      if wanted == gpio_in
      then write_value_to_file (field pin direction) text_in past
      else if wanted == gpio_out
      then write_value_to_file (field pin direction) text_out past
      else (error, past)

  unfoldable pub get_gpio_direction : ℕ → Accesses → ℤ × Accesses
  unfolding read_value_from_file starts_with
  get_gpio_direction pin past =
      let (buff, after) = read_value_from_file (field pin direction) 254 past in
      (
        elim buff [
          | none ↦ error
          | some text ↦
              if starts_with text text_out
              then pos gpio_out
              else if starts_with text text_in
              then pos gpio_in
              else error
        ],
        after,
      )

  unfoldable pub set_gpio_edge : ℕ → ℕ → Accesses → ℤ × Accesses
  unfolding write_value_to_file
  set_gpio_edge pin wanted past =
      if wanted == edge_none
      then write_value_to_file (field pin edge) text_none past
      else if wanted == edge_rising
      then write_value_to_file (field pin edge) text_rising past
      else if wanted == edge_falling
      then write_value_to_file (field pin edge) text_falling past
      else if wanted == edge_both
      then write_value_to_file (field pin edge) text_both past
      else (error, past)

  unfoldable pub get_gpio_edge : ℕ → Accesses → ℤ × Accesses
  unfolding read_value_from_file starts_with
  get_gpio_edge pin past =
      let (buff, after) = read_value_from_file (field pin edge) 254 past in
      (
        elim buff [
          | none ↦ error
          | some text ↦
              if starts_with text text_none
              then pos edge_none
              else if starts_with text text_rising
              then pos edge_rising
              else if starts_with text text_falling
              then pos edge_falling
              else if starts_with text text_both
              then pos edge_both
              else error
        ],
        after,
      )

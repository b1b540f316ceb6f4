-- ===== src/Gpio/Attributes.antt =====
-- The three files of a pin, as the kernel's documentation describes them (Documentation/admin-guide/
-- gpio/sysfs): a pin is an input or an output, an output has a level, and an input may have an edge.
use sufficient_io_t_applicat.Base.{
  ℕ, zero, suc, ◌<◌, ◌≡◌, refl, ◌⊎◌, inl, inr, Bool, Bool-cases, true, false, ◌&&◌, some, List, [],
  ◌∷◌, ◌++◌, arith, ◌==◌, if◌then◌else◌, ℤ, pos,
}
use sufficient_io_t_applicat.Gpio.{
  Field, value, direction, edge, FilePath, field, put, got, Accesses, Sysfs, print_int, atoi,
  get_gpio_value, set_gpio_value, get_gpio_direction, set_gpio_direction, get_gpio_edge,
  set_gpio_edge,
}

-- The line of a pin. The edge is 0 for none, 1 for rising, 2 for falling and 3 for both.
pub record Line : Type 0 where
  pub out : Bool
  pub high : Bool
  pub edge : ℕ

-- The words of the files, as the kernel spells them.
abbrev pub way_word : Bool → List ℕ
way_word true = b'o' ∷ b'u' ∷ b't' ∷ []
way_word false = b'i' ∷ b'n' ∷ []

abbrev pub level_word : Bool → List ℕ
level_word true = b'1' ∷ []
level_word false = b'0' ∷ []

abbrev pub edge_word : ℕ → List ℕ
edge_word zero = b'n' ∷ b'o' ∷ b'n' ∷ b'e' ∷ []
edge_word (suc zero) = b'r' ∷ b'i' ∷ b's' ∷ b'i' ∷ b'n' ∷ b'g' ∷ []
edge_word (suc (suc zero)) = b'f' ∷ b'a' ∷ b'l' ∷ b'l' ∷ b'i' ∷ b'n' ∷ b'g' ∷ []
edge_word (suc (suc (suc n))) = b'b' ∷ b'o' ∷ b't' ∷ b'h' ∷ []

abbrev pub same_word : List ℕ → List ℕ → Bool
same_word [] [] = true
same_word (a ∷ xs) (b ∷ ys) = a == b && same_word xs ys
same_word _ _ = false

abbrev edge_of : List ℕ → ℕ
edge_of text =
    if same_word text (edge_word 0)
    then 0
    else if same_word text (edge_word 1)
    then 1
    else if same_word text (edge_word 2)
    then 2
    else 3

-- What a word does that is written to a file of the pin. An output begins with the level 0.
abbrev pub written : Field → List ℕ → Line → Line
written direction text l =
    if same_word text (way_word true)
    then record l { out = true; high = false }
    else record l { out = false }
written value text l = record l { high = same_word text (level_word true) }
written edge text l = record l { edge = edge_of text }

-- The line of a pin after so many accesses, from one before all of them.
abbrev pub line_after : ℕ → Line → Accesses → Line
line_after pin l [] = l
line_after pin l (put (field pin' f) text ∷ past) =
    if pin' == pin then written f text (line_after pin l past) else line_after pin l past
line_after pin l (_ ∷ past) = line_after pin l past

-- The words that a file takes: a level only for an output, an edge only for an input, and a pin
-- with an edge does not become an output.
pub data Takes (l : Line) : Field → List ℕ → Type 0 where
  inwards : Takes l direction (way_word false)
  outwards : l.edge ≡ 0 → Takes l direction (way_word true)
  level : (high : Bool) → l.out ≡ true → Takes l value (level_word high)
  no_edge : Takes l edge (edge_word 0)
  on_edge : (n : ℕ) → n < 4 → l.out ≡ false → Takes l edge (edge_word n)

-- A history in which the pin stays exported and its files were written only words that they take.
pub data Proper (pin : ℕ) (l : Line) : Accesses → Type 0 where
  at_first : Proper pin l []
  wrote :
      {past : Accesses} {f : Field} {text : List ℕ}
      → Takes (line_after pin l past) f text
      → Proper pin l past
      → Proper pin l (put (field pin f) text ∷ past)
  elsewhere :
      {past : Accesses} {pin' : ℕ} {f : Field} {text : List ℕ}
      → pin' == pin ≡ false
      → Proper pin l past
      → Proper pin l (put (field pin' f) text ∷ past)
  asked : {past : Accesses} {file : FilePath} → Proper pin l past → Proper pin l (got file ∷ past)

-- The kernel's files of a pin, whose line was `l` at first. After such a history, the documented words
-- are taken, and a file gives the word that stands for the line, with a line feed. What level an
-- input has is left open.
pub record IsPin (sysfs : Sysfs) (pin : ℕ) (l : Line) : Type 0 where
  pub takes :
      (past : Accesses) (f : Field) (text : List ℕ)
      → Proper pin l past
      → Takes (line_after pin l past) f text
      → sysfs.writes past (field pin f) text ≡ some true
  pub shows_way :
      (past : Accesses)
      → Proper pin l past
      → sysfs.reads past (field pin direction)
        ≡ some (way_word (line_after pin l past).out ++ (10 ∷ []))
  pub shows_level :
      (past : Accesses)
      → Proper pin l past
      → (line_after pin l past).out ≡ true
      → sysfs.reads past (field pin value)
        ≡ some (level_word (line_after pin l past).high ++ (10 ∷ []))
  pub shows_edge :
      (past : Accesses)
      → Proper pin l past
      → sysfs.reads past (field pin edge)
        ≡ some (edge_word (line_after pin l past).edge ++ (10 ∷ []))

-- A change that the driver can be asked for: an input; an output; a level; an edge.
pub data Change : Type 0 where
  to_input to_output : Change
  to_level : Bool → Change
  to_edge : ℕ → Change

-- The call with the number that gpio.h has for the change: 1 for an input, 2 for an output.
abbrev pub change : Sysfs → Change → ℕ → Accesses → ℤ × Accesses
change sysfs to_input pin = set_gpio_direction sysfs pin 1
change sysfs to_output pin = set_gpio_direction sysfs pin 2
change sysfs (to_level true) pin = set_gpio_value sysfs pin (pos 1)
change sysfs (to_level false) pin = set_gpio_value sysfs pin (pos 0)
change sysfs (to_edge n) pin = set_gpio_edge sysfs pin n

-- When the kernel makes the change, and what it makes of the line.
abbrev pub Allows : Change → Line → Type 0
Allows to_input l = Unit {0}
Allows to_output l = l.edge ≡ 0
Allows (to_level high) l = l.out ≡ true
Allows (to_edge n) l = (n < 4) × ((n ≡ 0) ⊎ (l.out ≡ false))

abbrev pub changed : Change → Line → Line
changed to_input l = record l { out = false }
changed to_output l = record l { out = true; high = false }
changed (to_level high) l = record l { high = high }
changed (to_edge n) l = record l { edge = n }

file_of : Change → Field
file_of to_input = direction
file_of to_output = direction
file_of (to_level high) = value
file_of (to_edge n) = edge

word_of : Change → List ℕ
word_of to_input = way_word false
word_of to_output = way_word true
word_of (to_level high) = level_word high
word_of (to_edge n) = edge_word n

allowed-Takes : (c : Change) (l : Line) → Allows c l → Takes l (file_of c) (word_of c)
unfolding file_of word_of
allowed-Takes to_input l ok = inwards
allowed-Takes to_output l ok = outwards ok
allowed-Takes (to_level high) l ok = level high ok
allowed-Takes (to_edge zero) l ok = no_edge
allowed-Takes (to_edge (suc n)) l (few, inl e) = absurd (omega arith)
allowed-Takes (to_edge (suc n)) l (few, inr input) = on_edge (suc n) few input

print_bit : (high : Bool) → print_int (pos (if high then 1 else 0)) ≡ level_word high
unfolding print_int
print_bit true = refl
print_bit false = refl

written-eq : (c : Change) (l : Line) → Allows c l → written (file_of c) (word_of c) l ≡ changed c l
unfolding file_of word_of
written-eq to_input l ok = refl
written-eq to_output l ok = refl
written-eq (to_level true) l ok = refl
written-eq (to_level false) l ok = refl
written-eq (to_edge zero) l ok = refl
written-eq (to_edge (suc zero)) l ok = refl
written-eq (to_edge (suc (suc zero))) l ok = refl
written-eq (to_edge (suc (suc (suc zero)))) l ok = refl
written-eq (to_edge (suc (suc (suc (suc n))))) l (few, which) = absurd (omega arith)

read_one : atoi (b'1' ∷ 10 ∷ []) ≡ pos 1
unfolding atoi
read_one = refl

read_zero : atoi (b'0' ∷ 10 ∷ []) ≡ pos 0
unfolding atoi
read_zero = refl

abbrev pub getter : Sysfs → Field → ℕ → Accesses → ℤ × Accesses
getter sysfs value pin = get_gpio_value sysfs pin
getter sysfs direction pin = get_gpio_direction sysfs pin
getter sysfs edge pin = get_gpio_edge sysfs pin

-- The numbers that gpio.h has for what a line is, and when a file tells it.
abbrev pub setting : Field → Line → ℤ
setting value l = pos (if l.high then 1 else 0)
setting direction l = pos (if l.out then 2 else 1)
setting edge l = pos l.edge

abbrev pub Tells : Field → Line → Type 0
Tells value l = l.out ≡ true
Tells direction l = Unit {0}
Tells edge l = l.edge < 4

module _ (sysfs : Sysfs) (pin : ℕ) (past : Accesses) where
  edge_read :
      (n : ℕ)
      → n < 4
      → sysfs.reads past (field pin edge) ≡ some (edge_word n ++ (10 ∷ []))
      → get_gpio_edge sysfs pin past ≡ (pos n, got (field pin edge) ∷ past)
  unfolding get_gpio_edge
  edge_read zero small h = ground arith
  edge_read (suc zero) small h = ground arith
  edge_read (suc (suc zero)) small h = ground arith
  edge_read (suc (suc (suc zero))) small h = ground arith
  edge_read (suc (suc (suc (suc n)))) small h = absurd (omega arith)

module _ (sysfs : Sysfs) (pin : ℕ) (l : Line) (is_pin : IsPin sysfs pin l) (past : Accesses)
    (proper : Proper pin l past) where
  taken :
      (c : Change)
      → Allows c (line_after pin l past)
      → sysfs.writes past (field pin (file_of c)) (word_of c) ≡ some true
  taken c ok =
      is_pin.takes past (file_of c) (word_of c) proper (allowed-Takes c (line_after pin l past) ok)

  change-eq :
      (c : Change)
      → Allows c (line_after pin l past)
      → change sysfs c pin past ≡ (pos 1, put (field pin (file_of c)) (word_of c) ∷ past)
  unfolding set_gpio_direction set_gpio_value set_gpio_edge file_of word_of
  change-eq to_input ok = ground (arith, taken to_input ok)
  change-eq to_output ok = ground (arith, taken to_output ok)
  change-eq (to_level true) ok = ground (arith, print_bit true, taken (to_level true) ok)
  change-eq (to_level false) ok = ground (arith, print_bit false, taken (to_level false) ok)
  change-eq (to_edge zero) ok = ground (arith, taken (to_edge 0) ok)
  change-eq (to_edge (suc zero)) ok = ground (arith, taken (to_edge 1) ok)
  change-eq (to_edge (suc (suc zero))) ok = ground (arith, taken (to_edge 2) ok)
  change-eq (to_edge (suc (suc (suc zero)))) ok = ground (arith, taken (to_edge 3) ok)
  change-eq (to_edge (suc (suc (suc (suc n))))) ok = absurd (omega arith)

  -- Over the files of a pin as the kernel documents them, after a history in which it stays
  -- exported and its files were written only words that they take: set_gpio_direction,
  -- set_gpio_value and set_gpio_edge with the number of a change that the kernel allows (a level
  -- for an output, an edge for an input, an output for a pin without an edge) succeed and make
  -- that change of the line, an output beginning with the level 0; the history is again such a
  -- one, and the line of no other pin changes.
  pub change_lem :
      (c : Change)
      → Allows c (line_after pin l past)
      → let (ret, after) = change sysfs c pin past in
        (ret ≡ pos 1)
        × (line_after pin l after ≡ changed c (line_after pin l past))
        × Proper pin l after
        × ((pin' : ℕ) (l' : Line)
            → pin == pin' ≡ false
            → line_after pin' l' after ≡ line_after pin' l' past)
  change_lem c ok = rw (change-eq c ok) (
    refl,
    ground (arith, written-eq c (line_after pin l past) ok),
    wrote (allowed-Takes c (line_after pin l past) ok) proper,
    λ pin' l' other. ground (arith, other),
  )

  get-eq :
      (f : Field)
      → Tells f (line_after pin l past)
      → getter sysfs f pin past ≡ (setting f (line_after pin l past), got (field pin f) ∷ past)
  unfolding get_gpio_direction get_gpio_value get_gpio_edge
  get-eq direction ok = elim (Bool-cases (line_after pin l past).out) [
    | inl outward ↦ ground (arith, outward, is_pin.shows_way past proper)
    | inr inward ↦ ground (arith, inward, is_pin.shows_way past proper)
  ]
  get-eq value ok = elim (Bool-cases (line_after pin l past).high) [
    | inl up ↦ ground (arith, up, is_pin.shows_level past proper ok, read_one)
    | inr down ↦ ground (arith, down, is_pin.shows_level past proper ok, read_zero)
  ]
  get-eq edge ok =
      edge_read sysfs pin past (line_after pin l past).edge ok (is_pin.shows_edge past proper)

  -- Over the same files and histories, get_gpio_direction, get_gpio_edge and, for an output,
  -- get_gpio_value give the number of what the line is, the history is again such a one, and the
  -- line of no pin changes.
  pub get_lem :
      (f : Field)
      → Tells f (line_after pin l past)
      → let (ret, after) = getter sysfs f pin past in
        (ret ≡ setting f (line_after pin l past))
        × Proper pin l after
        × ((pin' : ℕ) (l' : Line) → line_after pin' l' after ≡ line_after pin' l' past)
  get_lem f ok = rw (get-eq f ok) (refl, asked proper, λ pin' l'. refl)

-- ===== src/Gpio/Tests.antt =====
-- Files that keep a line for each pin.
use sufficient_io_t_applicat.Base.{
  ℕ, ◌≡◌, refl, true, false, Option, none, some, List, [], ◌∷◌, ◌++◌, ◌==◌, pos,
}
use sufficient_io_t_applicat.Gpio.{
  value, direction, edge, FilePath, field, put, Accesses, Sysfs, is_digit,
}
use sufficient_io_t_applicat.Gpio.Attributes.{
  Line, way_word, level_word, edge_word, line_after, Proper, at_first, wrote, outwards, IsPin,
  change, to_level, getter, change_lem, get_lem,
}

-- An input at first, without an edge.
abbrev pub idle : Line
idle = record { out = false; high = false; edge = 0 }

-- The files of a kernel that keeps a line for each pin.
abbrev pub shown : Accesses → FilePath → Option (List ℕ)
shown past (field pin direction) = some (way_word (line_after pin idle past).out ++ (10 ∷ []))
shown past (field pin value) = some (level_word (line_after pin idle past).high ++ (10 ∷ []))
shown past (field pin edge) = some (edge_word (line_after pin idle past).edge ++ (10 ∷ []))
shown past _ = none

abbrev pub files : Sysfs
files = record { writes = λ past file text. some true; reads = shown }

pub files-IsPin : IsPin files 70 idle
files-IsPin = record {
  takes = λ past f text proper good. refl;
  shows_way = λ past proper. refl;
  shows_level = λ past proper outward. refl;
  shows_edge = λ past proper. refl;
}

-- Pin 70 as an output.
abbrev pub driven : Accesses
driven = put (field 70 direction) (b'o' ∷ b'u' ∷ b't' ∷ []) ∷ []

pub driven-Proper : Proper 70 idle driven
driven-Proper = wrote (outwards refl) at_first

change_lem_example :
    let (ret, after) = change files (to_level true) 70 driven in
    (ret ≡ pos 1)
    × (line_after 70 idle after ≡ record { out = true; high = true; edge = 0 })
    × Proper 70 idle after
    × ((pin' : ℕ) (l' : Line)
        → 70 == pin' ≡ false
        → line_after pin' l' after ≡ line_after pin' l' driven)
change_lem_example = change_lem files 70 idle files-IsPin driven driven-Proper (to_level true) refl

get_lem_example :
    let (ret, after) = getter files direction 70 driven in
    (ret ≡ pos 2)
    × Proper 70 idle after
    × ((pin' : ℕ) (l' : Line) → line_after pin' l' after ≡ line_after pin' l' driven)
get_lem_example = get_lem files 70 idle files-IsPin driven driven-Proper direction tt

not_digit : is_digit 10 ≡ false
unfolding is_digit
not_digit = refl

-- ===== src/Channels/Tests.antt =====
-- `read_hannel` on concrete channels.
use sufficient_io_t_applicat.Base.{ℕ, ◌≡◌, refl, none, some, List, [], ◌∷◌, arith, done, fault}
use sufficient_io_t_applicat.Channels.{read_hannel}
use sufficient_io_t_applicat.Channels.Mask.{
  Selects, read_hannel-Selects, read_hannel-fault, read_hannel-diverges,
}

-- The mask that main.c starts with.
abbrev initial : List ℕ
initial = 0x00FF ∷ 0 ∷ 0 ∷ 0 ∷ 0 ∷ 0 ∷ []

across_words :
    read_hannel 6 initial 12 66 ≡ some (done (0xF000 ∷ 0xFFFF ∷ 0xFFFF ∷ 0xFFFF ∷ 0x0007 ∷ 0 ∷ []))
unfolding read_hannel
across_words = refl

read_hannel-Selects_example :
    (mask' : List ℕ) × (read_hannel 6 initial 12 66 ≡ some (done mask')) × Selects 12 66 mask'
read_hannel-Selects_example =
    read_hannel-Selects 6 initial 12 66 (omega arith) (omega arith) (omega arith)

-- The bound that config.ini gives, 96, is one too many.
read_hannel-fault_example : read_hannel 256 initial 0 96 ≡ some fault
read_hannel-fault_example =
    read_hannel-fault 256 initial 0 96 (omega arith) (omega arith) (omega arith) (omega arith)

-- Both numbers are missing in the file: `(uint16_t)-1`.
read_hannel-diverges_example : read_hannel 1000 initial 65535 65535 ≡ none
read_hannel-diverges_example =
    read_hannel-diverges 1000 initial 65535 65535 (omega arith) (omega arith)

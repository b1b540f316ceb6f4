-- ===== src/Spi/Tests.antt =====
-- A device that takes everything, and one that refuses its last setting.
use sufficient_io_t_applicat.Base.{
  ◌&&◌, ℕ, ◌+◌, ◌≡◌, refl, ◌≢◌, ◌⊎◌, Bool, true, false, none, some, List, [], length, replicate,
}
use sufficient_io_t_applicat.Spi.{
  success, error, bits_per_word, Call, wr, send, burst, System, World, spi_open,
}
use sufficient_io_t_applicat.Spi.Opening.{accepts_three, accepts_last, set_up, spi_open_lem}

-- Descriptor 3; what is received is zeros.
abbrev answer : Call → ℕ × List ℕ
answer (burst dev tx size) = (length tx + size, replicate size 0)
answer (send dev tx) = (length tx, [])
answer _ = (0, [])

abbrev refuses_bits : Call → Bool
refuses_bits (wr bits_per_word value) = false
refuses_bits _ = true

abbrev willing : System
willing = record {
  has_memory = λ calls. true;
  opens = λ calls. some 3;
  accepts = λ calls c. true;
  transfers = λ calls c. answer c;
}

abbrev stubborn : System
stubborn = record {
  has_memory = λ calls. true;
  opens = λ calls. some 3;
  accepts = λ calls c. refuses_bits c;
  transfers = λ calls c. answer c;
}

abbrev start : World
start = record { open_files = 0; blocks = 0; calls = [] }

-- The block stays allocated.
bits_refused :
    let r = spi_open stubborn start in
    (r.status ≡ error) × (r.world.open_files ≡ 0) × (r.world.blocks ≡ 1)
unfolding spi_open
bits_refused = (refl, refl, refl)

spi_open_lem_example :
    let r = spi_open willing start in
    ((r.status ≡ success)
      × (accepts_three willing [] && accepts_last willing [] ≡ true)
      × (r.target ≡ some 3)
      × (r.target ≢ none)
      × (r.world ≡ record { open_files = 1; blocks = 1; calls = set_up }))
    ⊎ ((r.status ≡ error)
        × (accepts_three willing [] && accepts_last willing [] ≡ false)
        × (r.target ≡ none)
        × (r.world.open_files ≡ 0)
        × (r.world.blocks ≡ 1))
spi_open_lem_example = spi_open_lem willing start

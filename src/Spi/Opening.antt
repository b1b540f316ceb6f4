-- ===== src/Spi/Opening.antt =====
-- Which files stay open after `spi_open`.
use sufficient_io_t_applicat.Base.{
  ℕ, ◌+◌, ◌≡◌, ◌≢◌, ◌⊎◌, Bool, true, false, ◌&&◌, ◌||◌, not, Option, none, some, List, [], ◌∷◌,
  ◌++◌, arith, if◌then◌else◌,
}
use sufficient_io_t_applicat.Spi.{
  configure, success, error, mode, max_speed_hz, lsb_first, bits_per_word, Call, Setting, wr, rd,
  System, World, spi_speed, configure_all, spi_open,
}

abbrev pub is_none : Option ℕ → Bool
is_none none = true
is_none (some dev) = false

-- The requests that set an open device up, the newest first.
abbrev pub set_up : List Call
set_up =
    rd bits_per_word 0
    ∷ wr bits_per_word 0
    ∷ rd lsb_first 0
    ∷ wr lsb_first 0
    ∷ rd max_speed_hz spi_speed
    ∷ wr max_speed_hz spi_speed
    ∷ rd mode 0
    ∷ wr mode 0
    ∷ []

-- Whether both requests of a setting are accepted, after the calls so far.
abbrev pub accepts_pair : System → Setting → ℕ → List Call → Bool
accepts_pair system setting value calls =
    system.accepts calls (wr setting value)
    && system.accepts (wr setting value ∷ calls) (rd setting value)

-- The calls with both requests of a setting.
abbrev pub paired : Setting → ℕ → List Call → List Call
paired setting value calls = rd setting value ∷ wr setting value ∷ calls

-- The mode, the speed and the bit order are accepted; the bits per word, which come last, are.
abbrev pub accepts_three : System → List Call → Bool
accepts_three system calls =
    accepts_pair system mode 0 calls
    && (accepts_pair system max_speed_hz 5000000 (paired mode 0 calls)
        && accepts_pair system lsb_first 0 (paired max_speed_hz 5000000 (paired mode 0 calls)))

abbrev pub accepts_last : System → List Call → Bool
accepts_last system calls =
    accepts_pair system bits_per_word 0
      (paired lsb_first 0 (paired max_speed_hz 5000000 (paired mode 0 calls)))

-- spi_open succeeds exactly if there is memory, the device can be opened and all four pairs of
-- requests to set it up are accepted. Then the target leads to the descriptor, which is open,
-- with all eight requests made. After an error the target is not written and no more files are
-- open than before; a block of memory stays allocated exactly if there was memory and either the
-- device could not be opened or only the last pair was refused.
pub spi_open_lem :
    (system : System) (w : World)
    → let r = spi_open system w in
      ((r.status ≡ success)
        × (system.has_memory w.calls
              && (accepts_three system w.calls && accepts_last system w.calls)
            ≡ true)
        × (r.target ≡ system.opens w.calls)
        × (r.target ≢ none)
        × (r.world ≡ record {
          open_files = w.open_files + 1;
          blocks = w.blocks + 1;
          calls = set_up ++ w.calls;
        }))
      ⊎ ((r.status ≡ error)
          × (system.has_memory w.calls
                && (not (is_none (system.opens w.calls))
                    && (accepts_three system w.calls && accepts_last system w.calls))
              ≡ false)
          × (r.target ≡ none)
          × (r.world.open_files ≡ w.open_files)
          × (r.world.blocks ≡ (
              if system.has_memory w.calls
                && (is_none (system.opens w.calls) || accepts_three system w.calls)
              then w.blocks + 1
              else w.blocks)))
unfolding spi_open configure_all configure
spi_open_lem system w = ground arith

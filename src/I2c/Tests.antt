-- ===== src/I2c/Tests.antt =====
-- The bus with a device that is missing, and with one that answers.
use sufficient_io_t_applicat.Base.{
  ℕ, ◌≡◌, refl, true, false, none, some, List, [], ◌∷◌, length, replicate,
}
use sufficient_io_t_applicat.I2c.Locking.{i2c_write_lem, i2c_write_failure_blocks}
use sufficient_io_t_applicat.I2c.{
  failed, Op, blocks, ok, returns, i2c_write, Kernel, i2c_read, Bus, i2c_open,
}

-- Nobody answers the address.
abbrev silent : Kernel
silent = record { selects = λ ops addr. true; writes = λ ops bytes. none; reads = λ ops size. none }

-- Every write is taken whole, every read gives zeros.
abbrev obliging : Kernel
obliging = record {
  selects = λ ops addr. true;
  writes = λ ops bytes. some (length bytes);
  reads = λ ops size. some (replicate size 0);
}

abbrev idle : Bus
idle = record { locked = false; ops = [] }

opened : i2c_open true true ≡ some idle
unfolding i2c_open
opened = refl

i2c_write_lem_example :
    i2c_write obliging 0x40 (1 ∷ 2 ∷ []) idle
    ≡ returns ok (record { locked = false; ops = Op.write (1 ∷ 2 ∷ []) ∷ Op.select 0x40 ∷ [] })
i2c_write_lem_example = i2c_write_lem obliging 0x40 (1 ∷ 2 ∷ []) idle refl

i2c_write_failure_blocks_example :
    (after : Bus) × (i2c_write silent 0x77 (0xF6 ∷ []) idle ≡ returns failed after)
    × ((addr' size : ℕ) (buffer' : List ℕ)
        → (i2c_write silent addr' buffer' after ≡ blocks)
          × (i2c_read silent addr' size after ≡ blocks))
i2c_write_failure_blocks_example = i2c_write_failure_blocks silent 0x77 (0xF6 ∷ []) idle refl refl

-- ===== src/I2c/Locking.antt =====
-- When the bus is free after a call, and what follows when it is not.
use sufficient_io_t_applicat.Base.{
  ℕ, ◌≡◌, refl, ◌∙◌, Bool, true, false, not, Option, none, some, List, [], ◌∷◌, ◌++◌, arith, ◌==◌,
  if◌then◌else◌, length,
}
use sufficient_io_t_applicat.I2c.{
  ok, failed, select, write, read, Kernel, Bus, returns, blocks, i2c_write, i2c_read,
}

module _ (kernel : Kernel) (addr : ℕ) where
  -- Whether the address can be selected and the whole buffer be written.
  abbrev pub delivers : List ℕ → Bus → Bool
  delivers buffer bus =
      if kernel.selects bus.ops addr
      then elim (kernel.writes (select addr ∷ bus.ops) buffer) [
        | none ↦ false
        | some count ↦ count == length buffer
      ]
      else false

  -- On a free bus `i2c_write` returns. It selects the address, writes the buffer only then, succeeds
  -- exactly if both went well, and frees the bus exactly if it succeeds.
  pub i2c_write_lem :
      (buffer : List ℕ) (bus : Bus)
      → bus.locked ≡ false
      → let good = delivers buffer bus in
        let attempted = if kernel.selects bus.ops addr then write buffer ∷ [] else [] in
        i2c_write kernel addr buffer bus
        ≡ returns
            (if good then ok else failed)
            (record { locked = not good; ops = attempted ++ (select addr ∷ bus.ops) })
  unfolding i2c_write
  i2c_write_lem buffer bus free = ground arith

  -- What `read` gives, if the address can be selected and all bytes arrive.
  abbrev pub received : ℕ → Bus → Option (List ℕ)
  received size bus =
      if kernel.selects bus.ops addr
      then elim (kernel.reads (select addr ∷ bus.ops) size) [
        | none ↦ none
        | some bytes ↦ if length bytes == size then some bytes else none
      ]
      else none

  abbrev is_none : Option (List ℕ) → Bool
  is_none none = true
  is_none (some bytes) = false

  -- On a free bus `i2c_read` returns the bytes that the device sends, all of them or none, and frees
  -- the bus exactly if it succeeds.
  pub i2c_read_lem :
      (size : ℕ) (bus : Bus)
      → bus.locked ≡ false
      → let attempted = if kernel.selects bus.ops addr then read size ∷ [] else [] in
        i2c_read kernel addr size bus
        ≡ returns (received size bus) (record {
          locked = is_none (received size bus);
          ops = attempted ++ (select addr ∷ bus.ops);
        })
  unfolding i2c_read
  i2c_read_lem size bus free = ground arith

  -- A bus that is not free blocks both operations.
  pub locked_blocks :
      (buffer : List ℕ) (size : ℕ) (bus : Bus)
      → bus.locked ≡ true
      → (i2c_write kernel addr buffer bus ≡ blocks) × (i2c_read kernel addr size bus ≡ blocks)
  unfolding i2c_write i2c_read
  locked_blocks buffer size bus held = (ground arith, ground arith)

-- A write that fails leaves the bus locked: whatever is written or read on it next blocks for ever.
pub i2c_write_failure_blocks :
    (kernel : Kernel) (addr : ℕ) (buffer : List ℕ) (bus : Bus)
    → bus.locked ≡ false
    → delivers kernel addr buffer bus ≡ false
    → (after : Bus) × (i2c_write kernel addr buffer bus ≡ returns failed after)
      × ((addr' size : ℕ) (buffer' : List ℕ)
          → (i2c_write kernel addr' buffer' after ≡ blocks)
            × (i2c_read kernel addr' size after ≡ blocks))
i2c_write_failure_blocks kernel addr buffer bus free lost =
    let after : Bus = record {
      locked = true;
      ops =
          (if kernel.selects bus.ops addr then write buffer ∷ [] else [])
          ++ (select addr ∷ bus.ops);
    } in
    (
      after,
      i2c_write_lem kernel addr buffer bus free ∙ ground (arith, lost),
      λ addr' size buffer'. locked_blocks kernel addr' buffer' size after refl,
    )

-- The same for a read that fails.
pub i2c_read_failure_blocks :
    (kernel : Kernel) (addr size : ℕ) (bus : Bus)
    → bus.locked ≡ false
    → received kernel addr size bus ≡ none
    → (after : Bus) × (i2c_read kernel addr size bus ≡ returns none after)
      × ((addr' size' : ℕ) (buffer' : List ℕ)
          → (i2c_write kernel addr' buffer' after ≡ blocks)
            × (i2c_read kernel addr' size' after ≡ blocks))
i2c_read_failure_blocks kernel addr size bus free lost =
    let after : Bus = record {
      locked = true;
      ops = (if kernel.selects bus.ops addr then read size ∷ [] else []) ++ (select addr ∷ bus.ops);
    } in
    (
      after,
      i2c_read_lem kernel addr size bus free ∙ ground (arith, lost),
      λ addr' size' buffer'. locked_blocks kernel addr' buffer' size' after refl,
    )

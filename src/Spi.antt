-- ===== src/Spi.antt =====
-- hardware_driver/spi/spi.c: opening the device, and transfers on it. What the system answers after
-- the calls so far is a parameter. What open files and allocated blocks remain is counted.
pub mod Opening
pub mod Transfers
mod Tests
use sufficient_io_t_applicat.Base.{
  ℕ, zero, suc, ◌+◌, ◌-◌, ◌%◌, ◌^◌, Bool, true, false, ◌&&◌, not, Option, none, some, List, [], ◌∷◌,
  ◌++◌, ltb, ◌==◌, if◌then◌else◌, length, Access, done, fault,
}

-- SPI_SUCCESS, SPI_ERROR
pub data Status : Type 0 where
  success error : Status

-- The settings, each with a request that writes it and one that reads it back.
pub data Setting : Type 0 where
  mode max_speed_hz lsb_first bits_per_word : Setting

pub data Call : Type 0 where
  wr rd : Setting → ℕ → Call
  -- One transfer that only sends.
  send : (dev : ℕ) (tx : List ℕ) → Call
  -- A transfer that sends and one that receives, in one message.
  burst : (dev : ℕ) (tx : List ℕ) (size : ℕ) → Call
  close : (dev : ℕ) → Call

pub record System : Type 0 where
  pub has_memory : List Call → Bool
  -- The descriptor of /dev/spidev0.0, `none` for a negative number.
  pub opens : List Call → Option ℕ
  -- The `ioctl` on a setting is not negative, and `close` is not.
  pub accepts : List Call → Call → Bool
  -- What the `ioctl` of a message returns, as 32 bits, and what it receives.
  pub transfers : List Call → Call → ℕ × List ℕ

pub record World : Type 0 where
  pub open_files : ℕ
  pub blocks : ℕ
  -- The newest first.
  pub calls : List Call

-- A status with `*spi_target_ptr`: the descriptor that it leads to.
pub record Opened : Type 0 where
  pub status : Status
  pub target : Option ℕ
  pub world : World

abbrev pub called : Call → World → World
called c w = record w { calls = c ∷ w.calls }

abbrev pub closed : ℕ → World → World
closed dev w = record w { open_files = w.open_files - 1; calls = close dev ∷ w.calls }

abbrev pub freed : World → World
freed w = record w { blocks = w.blocks - 1 }

-- SPI_SPEED
abbrev pub spi_speed : ℕ
spi_speed = 5000000

-- BURST_CHUNK
abbrev pub burst_chunk : ℕ
burst_chunk = 256

-- The first bytes of an array; a load outside it is a fault.
unfoldable pub copy_loop : ℕ → List ℕ → Access (List ℕ)
copy_loop zero data' = done []
copy_loop (suc left) [] = fault
copy_loop (suc left) (x ∷ data') = elim (copy_loop left data') [
  | fault ↦ fault
  | done copied ↦ done (x ∷ copied)
]

module _ (system : System) where
  -- Both requests of a setting are made, whatever the first one answers.
  unfoldable pub configure : Setting → ℕ → World → Bool × World
  configure setting value w =
      let written = called (wr setting value) w in
      (
        system.accepts w.calls (wr setting value)
            && system.accepts written.calls (rd setting value),
        called (rd setting value) written,
      )

  -- The settings of an open device, in order. The last refusal does not free the block.
  unfoldable pub configure_all : ℕ → World → Opened
  unfolding configure
  configure_all dev w =
      let (mode_set, w1) = configure mode 0 w in
      let (speed_set, w2) = configure max_speed_hz spi_speed w1 in
      let (order_set, w3) = configure lsb_first 0 w2 in
      let (bits_set, w4) = configure bits_per_word 0 w3 in
      if not mode_set
      then record { status = error; target = none; world = freed (closed dev w1) }
      else if not speed_set
      then record { status = error; target = none; world = freed (closed dev w2) }
      else if not order_set
      then record { status = error; target = none; world = freed (closed dev w3) }
      else if not bits_set
      then record { status = error; target = none; world = closed dev w4 }
      else record { status = success; target = some dev; world = w4 }

  -- `spi_open` on a pointer that is not NULL. A failed `open` does not free the block.
  unfoldable pub spi_open : World → Opened
  unfolding configure_all
  spi_open w =
      if not (system.has_memory w.calls)
      then record { status = error; target = none; world = w }
      else let held = record w { blocks = w.blocks + 1 } in
        elim (system.opens held.calls) [
          | none ↦ record { status = error; target = none; world = held }
          | some dev ↦ configure_all dev (record held { open_files = held.open_files + 1 })
        ]

  unfoldable pub spi_close : Option ℕ → World → Status × World
  spi_close none w = (error, w)
  spi_close (some dev) w =
      (if system.accepts w.calls (close dev) then success else error, freed (closed dev w))

  unfoldable pub spi_write : Option ℕ → List ℕ → ℕ → World → Access (Status × World)
  unfolding copy_loop
  spi_write none data' size w = done (error, w)
  spi_write (some dev) data' size w = elim (copy_loop size data') [
    | fault ↦ fault
    | done out_buf ↦
        let (count, received) = system.transfers w.calls (send dev out_buf) in
        done (if count == size then success else error, called (send dev out_buf) w)
  ]

  -- The `for` loop with the rounds that it may still take: `byte_transfered` as 32 bits, and the
  -- bytes received.
  unfoldable pub burst_loop : ℕ → ℕ → List ℕ → ℕ → ℕ → List ℕ → World → ℕ × (List ℕ × World)
  burst_loop zero dev command size_to_do byte_transfered read_data w =
      (byte_transfered, (read_data, w))
  burst_loop (suc left) dev command size_to_do byte_transfered read_data w =
      let chunk_size : ℕ = if ltb size_to_do burst_chunk then size_to_do else burst_chunk in
      let c : Call = burst dev command chunk_size in
      let (count, received) = system.transfers w.calls c in
      elim (ltb 0 size_to_do) [
        | true ↦
            burst_loop left dev command (size_to_do - chunk_size)
              ((byte_transfered + (count + 2 ^ 32 - length command)) % 2 ^ 32)
              (read_data ++ received) (called c w)
        | false ↦ (byte_transfered, (read_data, w))
      ]

  -- `spi_read` with the bytes received; both arrays are there. The size of what is written is cut to
  -- a uint8_t. Each round takes at least a byte, so `read_data_size` rounds are enough.
  unfoldable pub spi_read : Option ℕ → List ℕ → ℕ → ℕ → World → Access (Status × (List ℕ × World))
  unfolding copy_loop burst_loop
  spi_read none write_data write_data_size read_data_size w = done (error, ([], w))
  spi_read (some dev) write_data write_data_size read_data_size w = elim (read_data_size == 0) [
    | true ↦ done (error, ([], w))
    | false ↦ elim (copy_loop (write_data_size % 2 ^ 8) write_data) [
      | fault ↦ fault
      | done command ↦
          let (byte_transfered, (read_data, after)) =
            burst_loop read_data_size dev command read_data_size 0 [] w in
          done (if byte_transfered == read_data_size then success else error, (read_data, after))
    ]
  ]

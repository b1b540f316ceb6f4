-- ===== src/Spi/Transfers.antt =====
-- When a transfer succeeds.
use sufficient_io_t_applicat.Base.{
  ◌++◌, length-append, ℕ, zero, suc, ◌+◌, ◌-◌, ◌%◌, ◌^◌, ◌≤◌, ◌<◌, ◌≡◌, refl, some, List, [], ◌∷◌,
  arith, ◌==◌, if◌then◌else◌, length, take, done,
}
use sufficient_io_t_applicat.Spi.{
  Status, success, error, send, burst, System, World, called, copy_loop, spi_write, burst_loop,
  spi_read,
}

copy_loop-take :
    (size : ℕ) (xs : List ℕ) → size ≤ length xs → copy_loop size xs ≡ done (take size xs)
unfolding copy_loop
copy_loop-take zero xs room = ground arith
copy_loop-take (suc size) [] room = ground arith
copy_loop-take (suc size) (x ∷ xs) room = ground (arith, copy_loop-take size xs (omega arith))

pub take-append : (xs ys : List ℕ) → take (length xs) (xs ++ ys) ≡ xs
take-append [] ys = refl
take-append (x ∷ xs) ys = ground (arith, take-append xs ys)

pub length-take : (size : ℕ) (xs : List ℕ) → size ≤ length xs → length (take size xs) ≡ size
length-take zero xs room = ground arith
length-take (suc size) [] room = ground arith
length-take (suc size) (x ∷ xs) room = ground (arith, length-take size xs (omega arith))

burst_loop-end :
    (system : System) (left dev : ℕ) (command : List ℕ) (total : ℕ) (read_data : List ℕ) (w : World)
    → burst_loop system left dev command 0 total read_data w ≡ (total, (read_data, w))
unfolding burst_loop
burst_loop-end system zero dev command total read_data w = refl
burst_loop-end system (suc left) dev command total read_data w = refl

burst_loop-once :
    (system : System) (left dev : ℕ) (command : List ℕ) (size : ℕ) (w : World)
    → 0 < size
    → size < 256
    → let c = burst dev command size in
      let (count, received) = system.transfers w.calls c in
      burst_loop system (suc left) dev command size 0 [] w
      ≡ ((0 + (count + 2 ^ 32 - length command)) % 2 ^ 32, (received, called c w))
unfolding burst_loop
burst_loop-once system left dev command size w some_byte few =
    let c = burst dev command size in
    let (count, received) = system.transfers w.calls c in
    let total : ℕ = (0 + (count + 2 ^ 32 - length command)) % 2 ^ 32 in
    ground (arith, burst_loop-end system left dev command total received (called c w))

module _ (system : System) (dev : ℕ) (w : World) where
  -- If the data is there, it is sent in one transfer, and the write succeeds exactly if the count
  -- that comes back is the size.
  pub spi_write_lem :
      (data' : List ℕ) (size : ℕ)
      → size ≤ length data'
      → let c = send dev (take size data') in
        spi_write system (some dev) data' size w
        ≡ done (if (system.transfers w.calls c).0 == size then success else error, called c w)
  unfolding spi_write
  spi_write_lem data' size room = ground (arith, copy_loop-take size data' room)

  -- With a command of less than 256 bytes that is there, one to 255 bytes to read and an answer of
  -- 32 bits, one message goes out; the bytes received are passed on, and the read succeeds exactly if
  -- the count that comes back is the size of both.
  pub spi_read_lem :
      (write_data : List ℕ) (write_data_size read_data_size : ℕ)
      → write_data_size ≤ length write_data
      → write_data_size < 256
      → 0 < read_data_size
      → read_data_size < 256
      → let c = burst dev (take write_data_size write_data) read_data_size in
        (system.transfers w.calls c).0 < 2 ^ 32
        → spi_read system (some dev) write_data write_data_size read_data_size w
          ≡ done (
            if (system.transfers w.calls c).0 == write_data_size + read_data_size
                then success
                else error,
            ((system.transfers w.calls c).1, called c w),
          )
  unfolding spi_read burst_loop
  spi_read_lem write_data write_data_size zero room small some_byte few bounded = ground arith
  spi_read_lem write_data write_data_size (suc n) room small some_byte few bounded =
      let command : List ℕ = take write_data_size write_data in
      ground (
        arith,
        copy_loop-take write_data_size write_data room,
        length-take write_data_size write_data room,
        burst_loop-once system n dev command (suc n) w some_byte few,
      )

-- The bytes that come back are passed on whether the read counts as a success or not.
pub spi_read-received :
    (system : System) (dev : ℕ) (w : World) (write_data : List ℕ) (read_data_size : ℕ)
    → length write_data < 256
    → 0 < read_data_size
    → read_data_size < 256
    → (rest : List ℕ)
    → let c = burst dev write_data read_data_size in
      (status : Status) × (spi_read system
          (some dev)
          (write_data ++ rest)
          (length write_data)
          read_data_size
          w
        ≡ done (status, ((system.transfers w.calls c).1, called c w)))
unfolding spi_read
spi_read-received system dev w write_data zero small some_byte few rest = absurd (omega arith)
spi_read-received system dev w write_data (suc n) small some_byte few rest =
    let c = burst dev write_data (suc n) in
    let (count, received) = system.transfers w.calls c in
    let total : ℕ = (0 + (count + 2 ^ 32 - length write_data)) % 2 ^ 32 in
    (
      if total == suc n then success else error,
      ground (
        arith,
        copy_loop-take (length write_data) (write_data ++ rest)
            (omega (arith, length-append write_data rest)),
        take-append write_data rest,
        burst_loop-once system n dev write_data (suc n) w some_byte few,
      ),
    )

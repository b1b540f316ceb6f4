-- ===== src/Bmp180/Registers.antt =====
-- What the driver reads from a device that answers with its registers.
use sufficient_io_t_applicat.Base.{
  ℕ, ◌+◌, ◌*◌, ◌/◌, ◌^◌, ◌≡◌, refl, true, false, some, List, [], ◌∷◌, arith, length,
}
use sufficient_io_t_applicat.I2c.{ok, Op, Kernel, Bus, returns, i2c_write, i2c_read, i2c_reg_write}
use sufficient_io_t_applicat.I2c.Locking.{i2c_write_lem, i2c_read_lem}
use sufficient_io_t_applicat.Bmp180.{
  convert_pres, convert_temp, control_reg_addr, out_msb, read_temperature, multiple_read,
  read_pressure, address,
}

-- A device on a bus without failures, whose registers change with what is asked of it: every write is
-- taken whole, and a read that follows the write of a register's number gives the bytes that the
-- registers from that one on hold after the calls before.
pub record IsDevice (registers : List Op → ℕ → ℕ) (kernel : Kernel) : Type 0 where
  pub selects : (ops : List Op) → kernel.selects ops address ≡ true
  pub takes : (ops : List Op) (bytes : List ℕ) → kernel.writes ops bytes ≡ some (length bytes)
  pub gives_two :
      (ops : List Op) (reg : ℕ)
      → kernel.reads (Op.select address ∷ Op.write (reg ∷ []) ∷ ops) 2
        ≡ some (registers ops reg ∷ registers ops (reg + 1) ∷ [])
  pub gives_three :
      (ops : List Op) (reg : ℕ)
      → kernel.reads (Op.select address ∷ Op.write (reg ∷ []) ∷ ops) 3
        ≡ some (registers ops reg ∷ registers ops (reg + 1) ∷ registers ops (reg + 2) ∷ [])

abbrev pub free : List Op → Bus
free ops = record { locked = false; ops = ops }

-- The word at a register, the high byte first.
abbrev pub word_at : (ℕ → ℕ) → ℕ → ℕ
word_at registers reg = registers reg * 2 ^ 8 + registers (reg + 1)

-- The calls of one word's reading, the newest first.
abbrev pub word_ops : ℕ → List Op → List Op
word_ops reg ops = Op.read 2 ∷ Op.select address ∷ Op.write (reg ∷ []) ∷ Op.select address ∷ ops

-- The history once a conversion has been started and the device been selected again.
abbrev pub started : ℕ → List Op → List Op
started command ops =
    Op.select address ∷ Op.write (control_reg_addr ∷ command ∷ []) ∷ Op.select address ∷ ops

-- The history of a measurement that reads `size` bytes.
abbrev pub measured : ℕ → ℕ → List Op → List Op
measured command size ops =
    Op.read size ∷ Op.select address ∷ Op.write (out_msb ∷ []) ∷ started command ops

module _ (registers : List Op → ℕ → ℕ) (kernel : Kernel) (device : IsDevice registers kernel) where
  write-free :
      (ops : List Op) (bytes : List ℕ)
      → i2c_write kernel address bytes (free ops)
        ≡ returns ok (free (Op.write bytes ∷ Op.select address ∷ ops))
  write-free ops bytes = ground (
    arith,
    i2c_write_lem kernel address bytes (free ops) refl,
    device.selects ops,
    device.takes (Op.select address ∷ ops) bytes,
  )

  read-free :
      (ops : List Op) (size reg : ℕ) (bytes : List ℕ)
      → kernel.reads (Op.select address ∷ Op.write (reg ∷ []) ∷ ops) size ≡ some bytes
      → length bytes ≡ size
      → i2c_read kernel address size (free (Op.write (reg ∷ []) ∷ ops))
        ≡ returns (some bytes) (free (Op.read size ∷ Op.select address ∷ Op.write (reg ∷ []) ∷ ops))
  read-free ops size reg bytes given whole = ground (
    arith,
    i2c_read_lem kernel address size (free (Op.write (reg ∷ []) ∷ ops)) refl,
    device.selects (Op.write (reg ∷ []) ∷ ops),
  )

  multiple_read-free :
      (ops : List Op) (reg : ℕ)
      → multiple_read kernel reg (free ops)
        ≡ returns (word_at (registers (Op.select address ∷ ops)) reg) (free (word_ops reg ops))
  unfolding multiple_read
  multiple_read-free ops reg =
      let later : List Op = Op.select address ∷ ops in
      let bytes : List ℕ = registers later reg ∷ registers later (reg + 1) ∷ [] in
      ground (
        arith,
        write-free ops (reg ∷ []),
        read-free later 2 reg bytes (device.gives_two later reg) refl,
      )

  -- On a free bus `bmp180_read_temperature` starts a temperature conversion, gives the word that the
  -- output register then holds, and leaves the bus free.
  pub read_temperature_lem :
      (ops : List Op)
      → read_temperature kernel (free ops)
        ≡ returns
            (word_at (registers (started convert_temp ops)) out_msb)
            (free (measured convert_temp 2 ops))
  unfolding read_temperature i2c_reg_write
  read_temperature_lem ops =
      let asked : List Op =
        Op.write (control_reg_addr ∷ convert_temp ∷ []) ∷ Op.select address ∷ ops in
      ground (
        arith,
        write-free ops (control_reg_addr ∷ convert_temp ∷ []),
        multiple_read-free asked out_msb,
      )

  -- On a free bus `bmp180_read_pressure` starts a pressure conversion, gives the upper 19 bits of the
  -- 24 that the output registers then hold, and leaves the bus free.
  pub read_pressure_lem :
      (ops : List Op)
      → let held = registers (started convert_pres ops) in
        read_pressure kernel (free ops)
        ≡ returns
            ((held out_msb * 2 ^ 16 + held (out_msb + 1) * 2 ^ 8 + held (out_msb + 2)) / 32)
            (free (measured convert_pres 3 ops))
  unfolding read_pressure i2c_reg_write
  read_pressure_lem ops =
      let asked : List Op =
        Op.write (control_reg_addr ∷ convert_pres ∷ []) ∷ Op.select address ∷ ops in
      let later : List Op = Op.select address ∷ asked in
      let bytes : List ℕ =
        registers later out_msb
        ∷ registers later (out_msb + 1)
        ∷ registers later (out_msb + 2)
        ∷ [] in
      ground (
        arith,
        write-free ops (control_reg_addr ∷ convert_pres ∷ []),
        write-free asked (out_msb ∷ []),
        read-free later 3 out_msb bytes (device.gives_three later out_msb) refl,
      )

-- ===== src/I2c.antt =====
-- hardware_driver/i2c/i2c.c: a bus behind a mutex. `Kernel` says what the system calls answer after
-- a given history of them. The mutex is a default one, which its holder cannot lock again: such a
-- call blocks for ever. The error macro of the drivers above ends the program.
pub mod Locking
mod Tests
use sufficient_io_t_applicat.Base.{
  ℕ, ◌%◌, ◌^◌, Bool, true, false, not, Option, none, some, List, [], ◌∷◌, ◌==◌, if◌then◌else◌,
  length,
}

-- 0 and -1.
pub data Status : Type 0 where
  ok failed : Status

-- The system calls on the bus.
pub data Op : Type 0 where
  select : (addr : ℕ) → Op
  write : (bytes : List ℕ) → Op
  read : (size : ℕ) → Op

pub record Kernel : Type 0 where
  -- `ioctl(fd, I2C_SLAVE, addr)` is not negative.
  pub selects : List Op → ℕ → Bool
  -- The count that `write` returns, `none` for -1.
  pub writes : List Op → List ℕ → Option ℕ
  -- The bytes that `read` stores, `none` for -1.
  pub reads : List Op → ℕ → Option (List ℕ)

-- `struct i2c_t`, with the system calls made on it, the newest first.
pub record Bus : Type 0 where
  pub locked : Bool
  pub ops : List Op

-- How a call on a bus ends.
pub data Io {ℓ} (A : Type ℓ) : Type ℓ where
  returns : A → Bus → Io A
  blocks exits : Io A

abbrev pub Driver : Type 0 → Type 0
Driver A = Bus → Io A

infixl 5 ◌>>=◌ ◌>>◌
abbrev pub ◌>>=◌ : {A B : Type 0} → Driver A → (A → Driver B) → Driver B
◌>>=◌ m f bus = elim (m bus) [ returns a bus' ↦ f a bus' | blocks ↦ blocks | exits ↦ exits ]

abbrev pub ◌>>◌ : {B : Type 0} → Driver (Unit {0}) → Driver B → Driver B
m >> k = m >>= λ _. k

abbrev pub pure : {A : Type 0} → A → Driver A
pure a bus = returns a bus

abbrev pub exit : {A : Type 0} → Driver A
exit bus = exits

-- `pthread_mutex_lock`, `pthread_mutex_unlock`
lock : Driver (Unit {0})
lock bus = elim bus.locked [ true ↦ blocks | false ↦ returns tt (record bus { locked = true }) ]

unlock : Driver (Unit {0})
unlock bus = returns tt (record bus { locked = false })

-- `i2c_open`, by whether the file can be opened and the mutex be made; `none` is NULL.
unfoldable pub i2c_open : Bool → Bool → Option Bus
i2c_open opened has_mutex =
    if not opened
    then none
    else if not has_mutex
    then none
    else some (record { locked = false; ops = [] })

module _ (kernel : Kernel) where
  system_select : ℕ → Driver Bool
  system_select addr bus =
      returns (kernel.selects bus.ops addr) (record bus { ops = select addr ∷ bus.ops })

  system_write : List ℕ → Driver (Option ℕ)
  system_write bytes bus =
      returns (kernel.writes bus.ops bytes) (record bus { ops = write bytes ∷ bus.ops })

  system_read : ℕ → Driver (Option (List ℕ))
  system_read size bus =
      returns (kernel.reads bus.ops size) (record bus { ops = read size ∷ bus.ops })

  -- The end of `i2c_write`, once the count is known.
  unfoldable pub finish_write : ℕ → Option ℕ → Driver Status
  unfolding unlock
  finish_write size none = pure failed
  finish_write size (some count) = if count == size then (do unlock; pure ok) else pure failed

  -- The buffer is the `buffersize` bytes.
  unfoldable pub i2c_write : ℕ → List ℕ → Driver Status
  unfolding lock system_select system_write finish_write
  i2c_write addr buffer = do
    lock
    selected ← system_select addr
    if not selected
        then pure failed
        else (do count ← system_write buffer; finish_write (length buffer) count)

  unfoldable pub i2c_reg_write : ℕ → ℕ → ℕ → Driver Status
  i2c_reg_write addr reg value = i2c_write addr (reg % 2 ^ 8 ∷ value % 2 ^ 8 ∷ [])

  -- The end of `i2c_read`, with the bytes read on success.
  unfoldable pub finish_read : ℕ → Option (List ℕ) → Driver (Option (List ℕ))
  unfolding unlock
  finish_read size none = pure none
  finish_read size (some bytes) =
      if length bytes == size then (do unlock; pure (some bytes)) else pure none

  -- `some` is 0 with the buffer's new contents, `none` is -1.
  unfoldable pub i2c_read : ℕ → ℕ → Driver (Option (List ℕ))
  unfolding lock system_select system_read finish_read
  i2c_read addr size = do
    lock
    selected ← system_select addr
    if not selected then pure none else (do bytes ← system_read size; finish_read size bytes)

-- ===== src/Node/Payload.antt =====
-- The payload of a frame: `prepareTxFrame` of project/main/main.c and `read_mkfifo` of
-- functional_module/fifo/mkfifo.c. A store outside `appData`, an unterminated text and an undefined
-- conversion of a measurement are faults.
pub mod Keeps
pub mod Contents
pub mod Fifo
pub mod Measured
mod Tests
use sufficient_io_t_applicat.Base.{
  ℕ, zero, suc, ◌+◌, ◌/◌, ◌%◌, ◌^◌, Option, none, some, List, [], ◌∷◌, ◌++◌, ◌==◌, if◌then◌else◌,
  length, drop, replicate, Access, done, fault, ◌>>=◌, of_option, load, store,
}
use sufficient_io_t_applicat.Hex.{str_to_array}
use sufficient_io_t_applicat.Node.{Env, Config, App, DataSelection, Call, call}

-- `arr[i] = v` for the values in their order, from index `i` on.
unfoldable pub store_from : List ℕ → ℕ → List ℕ → Access (List ℕ)
store_from arr i [] = done arr
store_from arr i (v ∷ vs) = store arr i v >>= λ arr'. store_from arr' (i + 1) vs

-- `strlen` of the text in an array.
unfoldable pub strlen : List ℕ → Access ℕ
strlen [] = fault
strlen (c ∷ cs) = if c == 0 then done 0 else (strlen cs >>= λ n. done (n + 1))

-- `for (i = 0; i < n; i++) dst[i] = src[i]` from index `i` on, with the rounds that are left.
unfoldable pub copy_loop : ℕ → ℕ → List ℕ → List ℕ → Access (List ℕ)
copy_loop zero i src dst = done dst
copy_loop (suc left) i src dst = load src i >>= λ v. store dst i v >>= copy_loop left (i + 1) src

-- The buffer and the length after `read_mkfifo`. The length is a uint8_t, so that the -1 of a
-- failed read becomes 255, and the test for -1 never holds.
unfoldable pub read_mkfifo : Option (List ℕ) → List ℕ → List ℕ × ℕ
read_mkfifo none buf = (buf, 255)
read_mkfifo (some bytes) buf = (bytes ++ drop (length bytes) buf, length bytes % 2 ^ 8)

-- The high and the low byte of a uint16_t.
unfoldable pub high_byte : ℕ → ℕ
high_byte x = x / 2 ^ 8 % 2 ^ 8

unfoldable pub low_byte : ℕ → ℕ
low_byte x = x % 2 ^ 8

-- `appPort`, `appDataSize` and the first bytes of `appData` set.
unfoldable pub fill_frame : ℕ → List ℕ → App → Access App
fill_frame size bytes s = store_from s.app_data 0 bytes >>= λ app_data.
    done (record s { app_data = app_data; app_data_size = size })

-- The frame "error data".
unfoldable pub error_frame : App → Access App
unfolding fill_frame
error_frame s = fill_frame 4 (0 ∷ 1 ∷ 2 ∷ 3 ∷ []) (record s { app_port = 2 })

module _ (env : Env) (config : Config) where
  -- The case `fixed_data`.
  unfoldable pub fixed_frame : App → Access App
  unfolding copy_loop
  fixed_frame s = copy_loop config.fixed_data_len 0 config.fixed_data_arr s.app_data >>= λ app_data.
      done (record s { app_data = app_data; app_data_size = config.fixed_data_len })

  -- The case `mkfifo_data`: hexadecimal digits. What `str_to_array` returns is not read.
  unfoldable pub mkfifo_frame : App → Access App
  unfolding read_mkfifo error_frame strlen
  mkfifo_frame s =
      let (buf, len) = read_mkfifo (env.fifo_bytes s.calls) (replicate 128 0) in
      let asked = call Call.fifo_read s in
      if len == 0
      then error_frame asked
      else (strlen buf >>= λ size. str_to_array buf s.app_data size >>= λ converted.
          done (record asked { app_data = converted.1; app_data_size = len / 2 }))

  -- The case `hdc1080_data`.
  unfoldable pub hdc1080_frame : App → Access App
  unfolding fill_frame high_byte low_byte
  hdc1080_frame s = of_option (env.hdc1080_temperature s.calls) >>= λ t.
      of_option (env.hdc1080_humidity s.calls) >>= λ h.
      fill_frame 4 (high_byte t ∷ low_byte t ∷ high_byte h ∷ low_byte h ∷ [])
        (call Call.sensor_read s)

  -- The case `bmp180_data`.
  unfoldable pub bmp180_frame : App → Access App
  unfolding fill_frame high_byte low_byte
  bmp180_frame s =
      let p = env.bmp180_pressure s.calls in
      of_option (env.bmp180_temperature s.calls) >>= λ t.
      of_option (env.bmp180_altitude s.calls) >>= λ a.
      fill_frame 8
        (high_byte t
          ∷ low_byte t
          ∷ high_byte a
          ∷ low_byte a
          ∷ p % 2 ^ 8
          ∷ p / 2 ^ 8 % 2 ^ 8
          ∷ p / 2 ^ 16 % 2 ^ 8
          ∷ p / 2 ^ 24 % 2 ^ 8
          ∷ [])
        (call Call.sensor_read s)

  unfoldable pub prepare_tx_frame : ℕ → DataSelection → App → Access App
  unfolding fixed_frame mkfifo_frame hdc1080_frame bmp180_frame error_frame
  prepare_tx_frame port selection s =
      let addressed = record s { app_port = port } in
      elim selection [
        | DataSelection.fixed_data ↦ fixed_frame addressed
        | DataSelection.mkfifo_data ↦ mkfifo_frame addressed
        | DataSelection.hdc1080_data ↦ hdc1080_frame addressed
        | DataSelection.bmp180_data ↦ bmp180_frame addressed
        | DataSelection.other_data ↦ error_frame addressed
      ]

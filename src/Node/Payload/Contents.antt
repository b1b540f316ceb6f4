-- ===== src/Node/Payload/Contents.antt =====
-- What stands in `appData` after each case of `prepareTxFrame`.
use sufficient_io_t_applicat.Base.{
  ℕ, zero, suc, ◌+◌, ◌*◌, ◌/◌, ◌%◌, ◌^◌, ◌≤◌, ◌<◌, ◌≡◌, refl, some, List, [], ◌∷◌, ◌++◌, arith,
  length, take, drop, length-append, All, Access, done, get_elem?-append, store-append,
}
use mathlib.Core.List.{append_assoc}
use sufficient_io_t_applicat.Node.{Env, Config, App, DataSelection, Call, call}
use sufficient_io_t_applicat.Node.Payload.{
  store_from, copy_loop, high_byte, low_byte, fill_frame, prepare_tx_frame,
}

-- Values stored behind a prefix take the places of as many elements.
store_from-append :
    (pre rest bytes : List ℕ)
    → length bytes ≤ length rest
    → store_from (pre ++ rest) (length pre) bytes
      ≡ done (pre ++ (bytes ++ drop (length bytes) rest))
unfolding store_from
store_from-append pre rest [] fits = refl
store_from-append pre [] (b ∷ bytes) fits = absurd (omega arith)
store_from-append pre (x ∷ rest) (b ∷ bytes) fits =
    let next = store_from-append (pre ++ (b ∷ [])) rest bytes (omega arith) in
    ground (
      arith,
      next,
      store-append pre rest x b,
      length-append pre (b ∷ []),
      append_assoc pre (b ∷ []) rest,
      append_assoc pre (b ∷ []) (bytes ++ drop (length bytes) rest),
    )

copy_loop-append :
    (left : ℕ) (spre srest pre rest : List ℕ)
    → length spre ≡ length pre
    → left ≤ length srest
    → left ≤ length rest
    → copy_loop left (length pre) (spre ++ srest) (pre ++ rest)
      ≡ done (pre ++ (take left srest ++ drop left rest))
unfolding copy_loop
copy_loop-append zero spre srest pre rest same sfits fits = refl
copy_loop-append (suc left) spre [] pre rest same sfits fits = absurd (omega arith)
copy_loop-append (suc left) spre (v ∷ srest) pre [] same sfits fits = absurd (omega arith)
copy_loop-append (suc left) spre (v ∷ srest) pre (x ∷ rest) same sfits fits =
    let next =
      copy_loop-append left (spre ++ (v ∷ [])) srest (pre ++ (v ∷ [])) rest
        (omega (arith, length-append spre (v ∷ []), length-append pre (v ∷ []))) (omega arith)
        (omega arith) in
    ground (
      arith,
      next,
      get_elem?-append spre srest v,
      store-append pre rest x v,
      length-append pre (v ∷ []),
      append_assoc pre (v ∷ []) rest,
      append_assoc spre (v ∷ []) srest,
      append_assoc pre (v ∷ []) (take left srest ++ drop left rest),
    )

-- `t` holds the frame `bytes` on `port`: these are the first bytes of `appData`, whose rest is as
-- `before`, and `appDataSize` is their number.
pub record Frame (before : List ℕ) (port : ℕ) (bytes : List ℕ) (t : App) : Type 0 where
  pub on_port : t.app_port ≡ port
  pub size : t.app_data_size ≡ length bytes
  pub contents : t.app_data ≡ bytes ++ drop (length bytes) before

-- A preparation that ends with a frame.
abbrev pub Prepares : Access App → List ℕ → ℕ → List ℕ → Type 0
Prepares result before port bytes = (t : App) × (result ≡ done t) × Frame before port bytes t

pub fill_frame-Prepares :
    (s : App) (bytes : List ℕ)
    → length bytes ≤ length s.app_data
    → Prepares (fill_frame (length bytes) bytes s) s.app_data s.app_port bytes
unfolding fill_frame
fill_frame-Prepares s bytes fits =
    let stored = store_from-append [] s.app_data bytes fits in
    (
      record s { app_data = bytes ++ drop (length bytes) s.app_data; app_data_size = length bytes },
      ground (arith, stored),
      record { on_port = refl; size = refl; contents = refl },
    )

module _ (env : Env) (config : Config) (port : ℕ) (s : App) where
  -- The fixed data of the configuration is the frame, if it fits the two arrays.
  pub fixed_frame_lem :
      config.fixed_data_len ≤ length config.fixed_data_arr
      → config.fixed_data_len ≤ length s.app_data
      → (t : App) × (prepare_tx_frame env config port DataSelection.fixed_data s ≡ done t)
        × (t.app_data
            ≡ take config.fixed_data_len config.fixed_data_arr
              ++ drop config.fixed_data_len s.app_data)
        × (t.app_data_size ≡ config.fixed_data_len)
        × (t.app_port ≡ port)
  unfolding prepare_tx_frame
  fixed_frame_lem fits_source fits =
      let n = config.fixed_data_len in
      let copied =
        copy_loop-append n [] config.fixed_data_arr [] s.app_data refl fits_source fits in
      (
        record s {
          app_data = take n config.fixed_data_arr ++ drop n s.app_data;
          app_data_size = n;
          app_port = port;
        },
        ground (arith, copied),
        refl,
        refl,
        refl,
      )

  -- Both measurements of the HDC1080 go into four bytes, the high byte of each first.
  pub hdc1080_frame_lem :
      (temperature humidity : ℕ)
      → env.hdc1080_temperature s.calls ≡ some temperature
      → env.hdc1080_humidity s.calls ≡ some humidity
      → temperature < 2 ^ 16
      → humidity < 2 ^ 16
      → 4 ≤ length s.app_data
      → (a b c d : ℕ) × Prepares
          (prepare_tx_frame env config port DataSelection.hdc1080_data s)
          s.app_data
          port
          (a ∷ b ∷ c ∷ d ∷ [])
        × (a * 256 + b ≡ temperature)
        × (c * 256 + d ≡ humidity)
        × All (λ byte. byte < 256) (a ∷ b ∷ c ∷ d ∷ [])
  unfolding prepare_tx_frame
  hdc1080_frame_lem temperature humidity et eh ht hh fits =
      let bytes : List ℕ =
        high_byte temperature
        ∷ low_byte temperature
        ∷ high_byte humidity
        ∷ low_byte humidity
        ∷ [] in
      let filled =
        fill_frame-Prepares (call Call.sensor_read (record s { app_port = port })) bytes fits in
      (
        high_byte temperature,
        low_byte temperature,
        high_byte humidity,
        low_byte humidity,
        (filled.0, ground (arith, filled.1), filled.2),
        omega arith,
        omega arith,
        omega arith,
      )

  -- The BMP180's temperature and altitude go high byte first, and its pressure low byte first.
  pub bmp180_frame_lem :
      (temperature altitude : ℕ)
      → env.bmp180_temperature s.calls ≡ some temperature
      → env.bmp180_altitude s.calls ≡ some altitude
      → temperature < 2 ^ 16
      → altitude < 2 ^ 16
      → env.bmp180_pressure s.calls < 2 ^ 32
      → 8 ≤ length s.app_data
      → (a b c d e f g h : ℕ) × Prepares
          (prepare_tx_frame env config port DataSelection.bmp180_data s)
          s.app_data
          port
          (a ∷ b ∷ c ∷ d ∷ e ∷ f ∷ g ∷ h ∷ [])
        × (a * 256 + b ≡ temperature)
        × (c * 256 + d ≡ altitude)
        × (e + f * 2 ^ 8 + g * 2 ^ 16 + h * 2 ^ 24 ≡ env.bmp180_pressure s.calls)
        × All (λ byte. byte < 256) (a ∷ b ∷ c ∷ d ∷ e ∷ f ∷ g ∷ h ∷ [])
  unfolding prepare_tx_frame
  bmp180_frame_lem temperature altitude et ea ht ha hp fits =
      let p = env.bmp180_pressure s.calls in
      let bytes : List ℕ =
        high_byte temperature
        ∷ low_byte temperature
        ∷ high_byte altitude
        ∷ low_byte altitude
        ∷ p % 2 ^ 8
        ∷ p / 2 ^ 8 % 2 ^ 8
        ∷ p / 2 ^ 16 % 2 ^ 8
        ∷ p / 2 ^ 24 % 2 ^ 8
        ∷ [] in
      let filled =
        fill_frame-Prepares (call Call.sensor_read (record s { app_port = port })) bytes fits in
      (
        high_byte temperature,
        low_byte temperature,
        high_byte altitude,
        low_byte altitude,
        p % 2 ^ 8,
        p / 2 ^ 8 % 2 ^ 8,
        p / 2 ^ 16 % 2 ^ 8,
        p / 2 ^ 24 % 2 ^ 8,
        (filled.0, ground (arith, filled.1), filled.2),
        omega arith,
        omega arith,
        omega arith,
        omega arith,
      )

-- ===== src/Settings/Reading.antt =====
-- What the globals are after a valid file, and after a wrong identifier.
use sufficient_io_t_applicat.Base.{
  ℕ, ◌%◌, ◌^◌, ◌≤◌, ◌<◌, ◌≡◌, refl, true, false, List, [], ◌∷◌, ◌++◌, arith, length, drop,
}
use mathlib.Core.List.{append-nil}
use sufficient_io_t_applicat.Hex.Spelling.{
  Spells, Malformed, str_to_array-Spells, str_to_array-Malformed, length-Spells,
}
use sufficient_io_t_applicat.Hex.Numbers.{big_endian, str_to_int-Spells}
use sufficient_io_t_applicat.Channels.Mask.{Selects, read_hannel-Selects}
use sufficient_io_t_applicat.Settings.{
  Key, Ini, Settings, reads, key_array, key_int, read_otaa, read_abp, read_radio, read_frame,
}

drop-length : (xs : List ℕ) → drop (length xs) xs ≡ []
drop-length [] = refl
drop-length (x ∷ xs) = ground (arith, drop-length xs)

key_array-Spells :
    {text bytes : List ℕ} (size : ℕ) (arr : List ℕ)
    → Spells text bytes
    → length text ≡ size
    → size < 2 ^ 16
    → length arr ≡ length bytes
    → key_array size text arr ≡ reads bytes
unfolding key_array
key_array-Spells {text} {bytes} size arr s whole few room = ground (
  arith,
  str_to_array-Spells arr [] s (omega arith) (omega arith),
  append-nil text,
  append-nil bytes,
  drop-length arr,
)

key_int-Spells :
    {text bytes : List ℕ} (integer : ℕ)
    → Spells text bytes
    → length text ≡ 8
    → key_int text integer ≡ reads (big_endian 0 bytes % 2 ^ 32)
unfolding key_int
key_int-Spells integer s whole = ground (arith, str_to_int-Spells integer s (omega arith))

-- A key of the right length with a pair of characters that is no byte is taken without a complaint:
-- the bytes before the pair are the text's, and those behind it are what the array held before.
pub key_array-Malformed :
    {str tail bytes : List ℕ} (size : ℕ) (arr : List ℕ)
    → Spells str bytes
    → Malformed tail
    → length str < size
    → length (str ++ tail) ≡ size
    → size < 2 ^ 16
    → size % 2 ≡ 0
    → length bytes ≤ length arr
    → key_array size (str ++ tail) arr ≡ reads (bytes ++ drop (length bytes) arr)
unfolding key_array
key_array-Malformed {str} {tail} size arr s bad within whole few even room =
    ground (arith, str_to_array-Malformed arr tail size s room bad within few even)

module _ (ini : Ini) (s : Settings) where
  pub read_otaa_lem :
      {dev app key : List ℕ}
      → Spells (ini.get_string Key.dev_eui) dev
      → Spells (ini.get_string Key.app_eui) app
      → Spells (ini.get_string Key.app_key) key
      → (length dev ≡ 8) × (length s.dev_eui ≡ 8)
      → (length app ≡ 8) × (length s.app_eui ≡ 8)
      → (length key ≡ 16) × (length s.app_key ≡ 16)
      → read_otaa ini s
        ≡ reads (record s {
          over_the_air_activation = true;
          dev_eui = dev;
          app_eui = app;
          app_key = key;
        })
  unfolding read_otaa
  read_otaa_lem d a k (dl, dl') (al, al') (kl, kl') = rw (
    key_array-Spells 16 s.dev_eui d (ground (arith, length-Spells d)) (omega arith) (omega arith),
    key_array-Spells 16 s.app_eui a (ground (arith, length-Spells a)) (omega arith) (omega arith),
    key_array-Spells 32 s.app_key k (ground (arith, length-Spells k)) (omega arith) (omega arith),
  )

  pub read_abp_lem :
      {network session address : List ℕ}
      → Spells (ini.get_string Key.nwk_skey) network
      → Spells (ini.get_string Key.app_skey) session
      → Spells (ini.get_string Key.dev_addr) address
      → (length network ≡ 16) × (length s.nwk_skey ≡ 16)
      → (length session ≡ 16) × (length s.app_skey ≡ 16)
      → length address ≡ 4
      → read_abp ini s
        ≡ reads (record s {
          over_the_air_activation = false;
          nwk_skey = network;
          app_skey = session;
          dev_addr = big_endian 0 address % 2 ^ 32;
        })
  unfolding read_abp
  read_abp_lem n k a (nl, nl') (kl, kl') al = rw (
    key_array-Spells 32 s.nwk_skey n (ground (arith, length-Spells n)) (omega arith) (omega arith),
    key_array-Spells 32 s.app_skey k (ground (arith, length-Spells k)) (omega arith) (omega arith),
    key_int-Spells s.dev_addr a (ground (arith, length-Spells a)),
  )

  pub read_radio_lem :
      (fuel first last : ℕ)
      → ini.get_int Key.channel_start ≡ first
      → ini.get_int Key.channel_end ≡ last
      → 6 ≤ fuel
      → first ≤ last
      → last < 96
      → (mask : List ℕ) × (read_radio ini fuel s
          ≡ reads (record s {
            lorawan_class = ini.get_int Key.class;
            preamble_len = ini.get_int Key.preamble_len % 2 ^ 16;
            debug_level = ini.get_int Key.debug % 2 ^ 8;
            user_channels_mask = mask;
            app_tx_duty_cycle = ini.get_int Key.duty_cycle;
          }))
        × Selects first last mask
  unfolding read_radio
  read_radio_lem fuel first last start end fuelled order small =
      let (mask, written, selects) =
        read_hannel-Selects fuel s.user_channels_mask first last fuelled order small in
      (mask, ground (arith, written), selects)

  pub read_frame_lem :
      {bytes : List ℕ}
      → Spells (ini.get_string Key.tx_frame) bytes
      → length bytes ≤ length s.fixed_data_arr
      → length s.fixed_data_arr ≡ 128
      → read_frame ini s
        ≡ reads (record s {
          data_selection = ini.get_int Key.data_selection;
          fixed_data_arr = bytes ++ drop (length bytes) s.fixed_data_arr;
          fixed_data_len = length bytes;
        })
  unfolding read_frame
  read_frame_lem {bytes} t room whole = ground (
    arith,
    length-Spells t,
    str_to_array-Spells s.fixed_data_arr [] t room (omega (arith, length-Spells t)),
    append-nil (ini.get_string Key.tx_frame),
  )

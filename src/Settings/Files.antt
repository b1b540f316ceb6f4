-- ===== src/Settings/Files.antt =====
-- What `read_config` makes of a whole valid file.
use sufficient_io_t_applicat.Base.{
  ℕ, ◌%◌, ◌^◌, ◌≤◌, ◌<◌, ◌≡◌, ◌≢◌, true, false, some, List, ◌++◌, arith, ◌==◌, length, drop,
  replicate,
}
use sufficient_io_t_applicat.Hex.Spelling.{Spells}
use sufficient_io_t_applicat.Hex.Numbers.{big_endian}
use sufficient_io_t_applicat.Channels.Mask.{Selects}
use sufficient_io_t_applicat.License.Texts.{IsLicense, read_license_lem}
use sufficient_io_t_applicat.Settings.{
  Key, Ini, Settings, reads, same_text, enable, read_radio, read_frame, read_rest, read_keys,
  read_config, ◌>>=◌,
}
use sufficient_io_t_applicat.Settings.Reading.{
  read_otaa_lem, read_abp_lem, read_radio_lem, read_frame_lem,
}

-- The settings after the part of a valid file that follows the activation.
abbrev pub configured : Ini → List ℕ → List ℕ → List ℕ → Settings → Settings
configured ini mask frame licence s = record s {
  lorawan_class = ini.get_int Key.class;
  preamble_len = ini.get_int Key.preamble_len % 2 ^ 16;
  debug_level = ini.get_int Key.debug % 2 ^ 8;
  user_channels_mask = mask;
  app_tx_duty_cycle = ini.get_int Key.duty_cycle;
  data_selection = ini.get_int Key.data_selection;
  fixed_data_arr = frame ++ drop (length frame) s.fixed_data_arr;
  fixed_data_len = length frame;
  app_port = ini.get_int Key.app_port % 2 ^ 8;
  lorawan_adr = same_text enable (ini.get_string Key.adr);
  is_tx_confirmed = same_text enable (ini.get_string Key.tx_confirmed);
  config_licen = licence;
}

module _ (ini : Ini) (s : Settings) (fuel first last : ℕ) (frame words tail : List ℕ) where
  read_after :
      ini.get_int Key.channel_start ≡ first
      → ini.get_int Key.channel_end ≡ last
      → 6 ≤ fuel
      → first ≤ last
      → last < 96
      → Spells (ini.get_string Key.tx_frame) frame
      → length frame ≤ 128
      → length s.fixed_data_arr ≡ 128
      → IsLicense (ini.get_string Key.license) words
      → s.config_licen ≡ replicate (length words) 0 ++ tail
      → (mask : List ℕ) × ((read_radio ini fuel s >>= λ tuned.
            (read_frame ini tuned >>= λ framed. read_rest ini framed))
          ≡ reads (configured ini mask frame (words ++ tail) s))
        × Selects first last mask
  unfolding read_rest
  read_after start end fuelled order small t room whole l zeros =
      let (mask, tuned, selects) =
        read_radio_lem ini s fuel first last start end fuelled order small in
      let after : Settings = record s {
        lorawan_class = ini.get_int Key.class;
        preamble_len = ini.get_int Key.preamble_len % 2 ^ 16;
        debug_level = ini.get_int Key.debug % 2 ^ 8;
        user_channels_mask = mask;
        app_tx_duty_cycle = ini.get_int Key.duty_cycle;
      } in
      (
        mask,
        rw (tuned, read_frame_lem ini after t (ground arith) whole, zeros, read_license_lem tail l),
        selects,
      )

module _ (ini : Ini) (s : Settings) (fuel first last : ℕ) (frame words tail : List ℕ) where
  -- If mode is 0 and the file has identifiers of eight bytes and a key of 16 in digits, a first
  -- channel at or below a last one below 96, fixed data of at most 128 bytes in digits, and a
  -- licence of words with commas between them, then read_config, with fuel for six rounds, arrays
  -- of the declared sizes and zeros where the licence goes, reads them: the identifiers and the
  -- key are the bytes spelt, the mask selects the channels from the first to the last, the fixed
  -- data stands at the front of its array, and the licence holds its words.
  pub read_config_otaa :
      (dev app key : List ℕ)
      → ini.get_int Key.mode ≡ 0
      → Spells (ini.get_string Key.dev_eui) dev
      → Spells (ini.get_string Key.app_eui) app
      → Spells (ini.get_string Key.app_key) key
      → (length dev ≡ 8) × (length s.dev_eui ≡ 8)
      → (length app ≡ 8) × (length s.app_eui ≡ 8)
      → (length key ≡ 16) × (length s.app_key ≡ 16)
      → ini.get_int Key.channel_start ≡ first
      → ini.get_int Key.channel_end ≡ last
      → 6 ≤ fuel
      → first ≤ last
      → last < 96
      → Spells (ini.get_string Key.tx_frame) frame
      → length frame ≤ 128
      → length s.fixed_data_arr ≡ 128
      → IsLicense (ini.get_string Key.license) words
      → s.config_licen ≡ replicate (length words) 0 ++ tail
      → (mask : List ℕ) × (read_config fuel (some ini) s
          ≡ reads (
              configured ini mask frame (words ++ tail) (record s {
                lorawan_region = ini.get_int Key.region;
                over_the_air_activation = true;
                dev_eui = dev;
                app_eui = app;
                app_key = key;
              })))
        × Selects first last mask
  unfolding read_config read_keys
  read_config_otaa dev app key mode d a k dl al kl start end fuelled order small t room whole l
        zeros =
      let begun : Settings = record s { lorawan_region = ini.get_int Key.region } in
      let activated : Settings = record begun {
        over_the_air_activation = true;
        dev_eui = dev;
        app_eui = app;
        app_key = key;
      } in
      let (mask, rest, selects) =
        read_after ini activated fuel first last frame words tail start end fuelled order small t
          room whole l zeros in
      (mask, rw (mode, read_otaa_lem ini begun d a k dl al kl) rest, selects)

  -- If mode is not 0 and the file has keys of 16 bytes and an address of four in digits, a first
  -- channel at or below a last one below 96, fixed data of at most 128 bytes in digits, and a
  -- licence of words with commas between them, then read_config, with fuel for six rounds, arrays
  -- of the declared sizes and zeros where the licence goes, reads them: the keys are the bytes
  -- spelt, the address is the big-endian number, and the rest is as with activation over the air.
  pub read_config_abp :
      (network session address : List ℕ)
      → ini.get_int Key.mode ≢ 0
      → Spells (ini.get_string Key.nwk_skey) network
      → Spells (ini.get_string Key.app_skey) session
      → Spells (ini.get_string Key.dev_addr) address
      → (length network ≡ 16) × (length s.nwk_skey ≡ 16)
      → (length session ≡ 16) × (length s.app_skey ≡ 16)
      → length address ≡ 4
      → ini.get_int Key.channel_start ≡ first
      → ini.get_int Key.channel_end ≡ last
      → 6 ≤ fuel
      → first ≤ last
      → last < 96
      → Spells (ini.get_string Key.tx_frame) frame
      → length frame ≤ 128
      → length s.fixed_data_arr ≡ 128
      → IsLicense (ini.get_string Key.license) words
      → s.config_licen ≡ replicate (length words) 0 ++ tail
      → (mask : List ℕ) × (read_config fuel (some ini) s
          ≡ reads (
              configured ini mask frame (words ++ tail) (record s {
                lorawan_region = ini.get_int Key.region;
                over_the_air_activation = false;
                nwk_skey = network;
                app_skey = session;
                dev_addr = big_endian 0 address % 2 ^ 32;
              })))
        × Selects first last mask
  unfolding read_config read_keys
  read_config_abp network session address mode n k a nl kl al start end fuelled order small t room
        whole l zeros =
      let begun : Settings = record s { lorawan_region = ini.get_int Key.region } in
      let activated : Settings = record begun {
        over_the_air_activation = false;
        nwk_skey = network;
        app_skey = session;
        dev_addr = big_endian 0 address % 2 ^ 32;
      } in
      let (mask, rest, selects) =
        read_after ini activated fuel first last frame words tail start end fuelled order small t
          room whole l zeros in
      let personalised : (ini.get_int Key.mode == 0) ≡ false = ground arith in
      (mask, rw (personalised, read_abp_lem ini begun n k a nl kl al) rest, selects)

-- ===== src/Settings/Tests.antt =====
-- Two configuration files, and a wrong identifier.
use sufficient_io_t_applicat.Base.{
  ℕ, zero, suc, ◌<◌, ◌≡◌, refl, true, false, some, List, [], ◌∷◌, arith, replicate, All, decimal,
  inr,
}
use sufficient_io_t_applicat.Hex.Spelling.{
  Spells, end, pair, Malformed, high, hex_text, hex_text-Spells,
}
use sufficient_io_t_applicat.Channels.Mask.{Selects}
use sufficient_io_t_applicat.License.Words.{empty, next}
use sufficient_io_t_applicat.License.Texts.{IsLicense, last}
use sufficient_io_t_applicat.Settings.{Key, Ini, Settings, reads, read_config, enable}
use sufficient_io_t_applicat.Settings.Files.{configured, read_config_otaa, read_config_abp}

abbrev pub copies : ℕ → List ℕ
copies n = replicate n 0x22

copies-small : (n : ℕ) → All (λ b. b < 256) (copies n)
copies-small zero = tt
copies-small (suc n) = (omega arith, copies-small n)

pub copies-Spells : (n : ℕ) → Spells (hex_text false (copies n)) (copies n)
copies-Spells n = hex_text-Spells false (copies n) (copies-small n)

-- The file with the given mode; all digits are 2.
abbrev pub file : ℕ → Ini
file mode_number = record {
  get_int = λ key. elim key [
    | Key.mode ↦ mode_number
    | Key.channel_start ↦ 0
    | Key.channel_end ↦ 7
    | Key.duty_cycle ↦ 8000
    | _ ↦ 3
  ];
  get_string = λ key. elim key [
    | Key.dev_eui ↦ hex_text false (copies 8)
    | Key.app_eui ↦ hex_text false (copies 8)
    | Key.app_key ↦ hex_text false (copies 16)
    | Key.nwk_skey ↦ hex_text false (copies 16)
    | Key.app_skey ↦ hex_text false (copies 16)
    | Key.dev_addr ↦ hex_text false (copies 4)
    | Key.tx_frame ↦ hex_text false (copies 3)
    | Key.license ↦ b'0' ∷ b'x' ∷ b'2' ∷ []
    | _ ↦ enable
  ];
}

abbrev before : Settings
before = record {
  lorawan_region = 5;
  over_the_air_activation = true;
  dev_eui = replicate 8 0;
  app_eui = replicate 8 0;
  app_key = replicate 16 0;
  nwk_skey = replicate 16 0;
  app_skey = replicate 16 0;
  dev_addr = 0x007e6ae1;
  lorawan_class = 2;
  preamble_len = 8;
  debug_level = 0;
  user_channels_mask = 0x00FF ∷ 0 ∷ 0 ∷ 0 ∷ 0 ∷ 0 ∷ [];
  app_tx_duty_cycle = 15000;
  data_selection = 0;
  fixed_data_arr = replicate 128 0;
  fixed_data_len = 0;
  app_port = 2;
  lorawan_adr = false;
  is_tx_confirmed = true;
  config_licen = 0 ∷ 0 ∷ 0 ∷ 0 ∷ [];
}

pub word-IsLicense : IsLicense (b'0' ∷ b'x' ∷ b'2' ∷ []) (2 ∷ [])
word-IsLicense = last (next {d = 2} (decimal refl (omega arith)) empty) (omega arith) (omega arith)

read_config_otaa_example :
    (mask : List ℕ) × (read_config 6 (some (file 0)) before
      ≡ reads (
          configured (file 0) mask (copies 3) (2 ∷ 0 ∷ 0 ∷ 0 ∷ []) (record before {
            lorawan_region = 3;
            over_the_air_activation = true;
            dev_eui = copies 8;
            app_eui = copies 8;
            app_key = copies 16;
          })))
    × Selects 0 7 mask
read_config_otaa_example =
    read_config_otaa (file 0) before 6 0 7 (copies 3) (2 ∷ []) (0 ∷ 0 ∷ 0 ∷ []) (copies 8)
      (copies 8) (copies 16) refl (copies-Spells 8) (copies-Spells 8) (copies-Spells 16)
      (refl, refl) (refl, refl) (refl, refl) refl refl (omega arith) (omega arith) (omega arith)
      (copies-Spells 3) (omega arith) refl word-IsLicense refl

read_config_abp_example :
    (mask : List ℕ) × (read_config 6 (some (file 1)) before
      ≡ reads (
          configured (file 1) mask (copies 3) (2 ∷ 0 ∷ 0 ∷ 0 ∷ []) (record before {
            lorawan_region = 3;
            over_the_air_activation = false;
            nwk_skey = copies 16;
            app_skey = copies 16;
            dev_addr = 0x22222222;
          })))
    × Selects 0 7 mask
read_config_abp_example =
    read_config_abp (file 1) before 6 0 7 (copies 3) (2 ∷ []) (0 ∷ 0 ∷ 0 ∷ []) (copies 16)
      (copies 16) (copies 4) (omega arith) (copies-Spells 16) (copies-Spells 16) (copies-Spells 4)
      (refl, refl) (refl, refl) refl refl refl (omega arith) (omega arith) (omega arith)
      (copies-Spells 3) (omega arith) refl word-IsLicense refl

two-Spells : Spells (b'2' ∷ b'2' ∷ []) (0x22 ∷ [])
two-Spells = pair {h = 2} {l = 2} (decimal refl (omega arith)) (decimal refl (omega arith)) refl end

rest-Malformed : Malformed (b'g' ∷ b'0' ∷ [])
rest-Malformed = high (inr (inr (inr (omega arith))))

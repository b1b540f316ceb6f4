-- ===== src/Settings.antt =====
-- `read_config` of project/main/main.c: the globals from the configuration file. What the library
-- iniparser finds in the file is a parameter. An `int` stands as its 32 bits; a text as its
-- characters, without the zero behind them.
pub mod Files
pub mod Reading
pub mod Tests
use sufficient_io_t_applicat.Base.{
  ℕ, ◌/◌, ◌%◌, ◌^◌, Bool, true, false, ◌&&◌, Option, none, some, List, [], ◌∷◌, ◌==◌, if◌then◌else◌,
  length, Access, done, fault,
}
use sufficient_io_t_applicat.Hex.{str_to_array, str_to_int}
use sufficient_io_t_applicat.Channels.{read_hannel}
use sufficient_io_t_applicat.License.{read_license}

-- The keys that are asked for.
pub data Key : Type 0 where
  region mode dev_eui app_eui app_key nwk_skey app_skey dev_addr class preamble_len debug : Key
  channel_start channel_end duty_cycle tx_frame data_selection app_port adr tx_confirmed : Key
  license : Key

-- The file, as `iniparser_getint` and `iniparser_getstring` answer with the defaults of main.c:
-- -1 and `null`.
pub record Ini : Type 0 where
  pub get_int : Key → ℕ
  pub get_string : Key → List ℕ

-- The globals that are written.
pub record Settings : Type 0 where
  pub lorawan_region : ℕ
  pub over_the_air_activation : Bool
  pub dev_eui : List ℕ
  pub app_eui : List ℕ
  pub app_key : List ℕ
  pub nwk_skey : List ℕ
  pub app_skey : List ℕ
  pub dev_addr : ℕ
  pub lorawan_class : ℕ
  pub preamble_len : ℕ
  pub debug_level : ℕ
  pub user_channels_mask : List ℕ
  pub app_tx_duty_cycle : ℕ
  pub data_selection : ℕ
  pub fixed_data_arr : List ℕ
  pub fixed_data_len : ℕ
  pub app_port : ℕ
  pub lorawan_adr : Bool
  pub is_tx_confirmed : Bool
  pub config_licen : List ℕ

-- How a part of `read_config` ends; `unfinished` says that the fuel of a loop ran out.
pub data Outcome {ℓ} (A : Type ℓ) : Type ℓ where
  reads : A → Outcome A
  exits faults unfinished : Outcome A

infixl 5 ◌>>=◌
abbrev pub ◌>>=◌ : {A B : Type 0} → Outcome A → (A → Outcome B) → Outcome B
reads a >>= f = f a
exits >>= f = exits
faults >>= f = faults
unfinished >>= f = unfinished

abbrev pub accessed : {A : Type 0} → Access A → Outcome A
accessed (done a) = reads a
accessed fault = faults

abbrev pub finished : {A : Type 0} → Option (Access A) → Outcome A
finished none = unfinished
finished (some m) = accessed m

-- A key or an identifier: `size` digits, or the program ends. What `str_to_array` returns is not
-- looked at.
unfoldable pub key_array : ℕ → List ℕ → List ℕ → Outcome (List ℕ)
key_array size text arr = elim (length text == size) [
  | true ↦ elim (str_to_array text arr size) [
    | fault ↦ faults
    | done (status, written) ↦ reads written
  ]
  | false ↦ exits
]

-- The address: eight digits, or the program ends.
unfoldable pub key_int : List ℕ → ℕ → Outcome ℕ
key_int text integer = elim (length text == 8) [
  | true ↦ elim (str_to_int text integer 8) [
    | fault ↦ faults
    | done (status, written) ↦ reads written
  ]
  | false ↦ exits
]

-- `strcmp(a, b) == 0`
unfoldable pub same_text : List ℕ → List ℕ → Bool
same_text [] [] = true
same_text (a ∷ xs) (b ∷ ys) = a == b && same_text xs ys
same_text _ _ = false

abbrev pub enable : List ℕ
enable = b'e' ∷ b'n' ∷ b'a' ∷ b'b' ∷ b'l' ∷ b'e' ∷ []

module _ (ini : Ini) where
  -- The branch of activation over the air.
  unfoldable pub read_otaa : Settings → Outcome Settings
  unfolding key_array
  read_otaa s = do
    device ← key_array 16 (ini.get_string Key.dev_eui) s.dev_eui
    application ← key_array 16 (ini.get_string Key.app_eui) s.app_eui
    key ← key_array 32 (ini.get_string Key.app_key) s.app_key
    reads (record s {
      over_the_air_activation = true;
      dev_eui = device;
      app_eui = application;
      app_key = key;
    })

  -- The branch of activation by personalisation.
  unfoldable pub read_abp : Settings → Outcome Settings
  unfolding key_array key_int
  read_abp s = do
    network_key ← key_array 32 (ini.get_string Key.nwk_skey) s.nwk_skey
    session_key ← key_array 32 (ini.get_string Key.app_skey) s.app_skey
    address ← key_int (ini.get_string Key.dev_addr) s.dev_addr
    reads (record s {
      over_the_air_activation = false;
      nwk_skey = network_key;
      app_skey = session_key;
      dev_addr = address;
    })

  -- Class, preamble, debug level, channels and duty cycle.
  unfoldable pub read_radio : ℕ → Settings → Outcome Settings
  read_radio fuel s = do
    mask ← finished (
        read_hannel fuel s.user_channels_mask (ini.get_int Key.channel_start % 2 ^ 16)
          (ini.get_int Key.channel_end % 2 ^ 16))
    reads (record s {
      lorawan_class = ini.get_int Key.class;
      preamble_len = ini.get_int Key.preamble_len % 2 ^ 16;
      debug_level = ini.get_int Key.debug % 2 ^ 8;
      user_channels_mask = mask;
      app_tx_duty_cycle = ini.get_int Key.duty_cycle;
    })

  -- The fixed data: an even number of digits, or the program ends. The size that is passed to
  -- `str_to_array` is a uint16_t, and the length that is kept a uint8_t.
  unfoldable pub read_frame : Settings → Outcome Settings
  read_frame s =
      let text = ini.get_string Key.tx_frame in
      elim (length text % 2 == 0) [
        | true ↦ elim (str_to_array text s.fixed_data_arr (length text % 2 ^ 16)) [
          | fault ↦ faults
          | done (status, written) ↦ reads (record s {
            data_selection = ini.get_int Key.data_selection;
            fixed_data_arr = written;
            fixed_data_len = length text / 2 % 2 ^ 8;
          })
        ]
        | false ↦ exits
      ]

  -- Port, data rate, confirmation and licence.
  unfoldable pub read_rest : Settings → Outcome Settings
  unfolding same_text
  read_rest s = do
    config_licen ← finished (read_license (ini.get_string Key.license) s.config_licen)
    reads (record s {
      app_port = ini.get_int Key.app_port % 2 ^ 8;
      lorawan_adr = same_text enable (ini.get_string Key.adr);
      is_tx_confirmed = same_text enable (ini.get_string Key.tx_confirmed);
      config_licen = config_licen;
    })

  -- What follows the loading of the file.
  unfoldable pub read_keys : ℕ → Settings → Outcome Settings
  unfolding read_otaa read_abp read_radio read_frame read_rest
  read_keys fuel s = do
    let begun = record s { lorawan_region = ini.get_int Key.region }
    activated ← if ini.get_int Key.mode == 0 then read_otaa begun else read_abp begun
    tuned ← read_radio fuel activated
    framed ← read_frame tuned
    read_rest framed

-- A file that cannot be loaded ends the program.
unfoldable pub read_config : ℕ → Option Ini → Settings → Outcome Settings
unfolding read_keys
read_config fuel none s = exits
read_config fuel (some ini) s = read_keys ini fuel s

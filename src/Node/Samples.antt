-- ===== src/Node/Samples.antt =====
-- States and configurations of the application, and answers of what lies outside.
use sufficient_io_t_applicat.Base.{
  ℕ, ◌≡◌, refl, Bool, true, false, Option, some, List, [], ◌∷◌, ◌++◌, ltb, done, decimal, lowercase,
  arith,
}
use sufficient_io_t_applicat.Hex.Spelling.{Spells, pair, end}
use sufficient_io_t_applicat.Node.{Env, Config, App, DeviceState, DeviceClass, DataSelection}
use sufficient_io_t_applicat.Node.Payload.{prepare_tx_frame}

-- "c0de", as it comes through the fifo.
abbrev pub digits : List ℕ
digits = b'c' ∷ b'0' ∷ b'd' ∷ b'e' ∷ []

pub digits-Spells : Spells digits (0xc0 ∷ 0xde ∷ [])
digits-Spells =
    pair {h = 12} {l = 0} (lowercase refl (omega arith) (omega arith)) (decimal refl (omega arith))
      refl
      (pair {h = 13} {l = 14} (lowercase refl (omega arith) (omega arith))
        (lowercase refl (omega arith) (omega arith)) refl end)

module _ (joined : Option Bool) (fifo : Option (List ℕ)) where
  abbrev pub answers : Env
  answers = record {
    tx_possible = λ calls size. ltb size 52;
    mcps_accepted = λ calls req. true;
    join_accepted = λ calls req. true;
    current_class = λ calls. DeviceClass.class_a;
    joined = λ calls. joined;
    current_dr_for_no_adr = λ calls. 5;
    fifo_bytes = λ calls. fifo;
    hdc1080_temperature = λ calls. some 2150;
    hdc1080_humidity = λ calls. some 4003;
    bmp180_temperature = λ calls. some 2150;
    bmp180_altitude = λ calls. some 512;
    bmp180_pressure = λ calls. 101325;
  }

module _ (over_the_air : Bool) where
  abbrev pub settings : Config
  settings = record {
    lorawan_class = DeviceClass.class_c;
    lorawan_region = 2;
    over_the_air_activation = over_the_air;
    lorawan_adr = false;
    is_tx_confirmed = true;
    confirmed_nb_trials = 1;
    passthrough_mode = false;
    app_tx_duty_cycle = 8000;
    dev_eui = 1 ∷ [];
    app_eui = 2 ∷ [];
    app_key = 3 ∷ [];
    nwk_skey = 4 ∷ [];
    app_skey = 5 ∷ [];
    dev_addr = 6;
    user_channels_mask = 0xFF ∷ 0 ∷ 0 ∷ 0 ∷ 0 ∷ 0 ∷ [];
    data_selection = DataSelection.fixed_data;
    fixed_data_arr = 7 ∷ 8 ∷ 9 ∷ 0 ∷ [];
    fixed_data_len = 3;
  }

module _ (state : DeviceState) (ready : Bool) where
  abbrev pub app : App
  app = record {
    device_state = state;
    next_tx = ready;
    app_data = 50 ∷ 51 ∷ 52 ∷ 53 ∷ 54 ∷ 55 ∷ 56 ∷ 57 ∷ 58 ∷ [];
    app_data_size = 4;
    app_port = 3;
    tx_duty_cycle_time = 0;
    seed = 1;
    calls = [];
  }

abbrev pub env : Env
env = answers (some true) (some (digits ++ (0 ∷ [])))

abbrev pub config : Config
config = settings true

abbrev pub sending : App
sending = app DeviceState.send true

abbrev pub waiting : App
waiting = app DeviceState.send false

abbrev pub sleeping : App
sleeping = app DeviceState.sleep false

-- Preparing the fixed data, with the state that it leads to.
abbrev pub prepared : App
prepared = record sending {
  app_data = 7 ∷ 8 ∷ 9 ∷ 53 ∷ 54 ∷ 55 ∷ 56 ∷ 57 ∷ 58 ∷ [];
  app_data_size = 3;
}

pub prepares : prepare_tx_frame env config 3 DataSelection.fixed_data sending ≡ done prepared
unfolding prepare_tx_frame
prepares = refl

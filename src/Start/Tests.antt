-- ===== src/Start/Tests.antt =====
-- A start with fixed data, and a system without a fifo and a bus.
use sufficient_io_t_applicat.Base.{
  ◌≡◌, refl, arith, true, false, none, some, [], ◌∷◌, ◌++◌, length, drop, replicate, done, pos,
}
use sufficient_io_t_applicat.Settings.Tests.{copies, copies-Spells, file, word-IsLicense}
use sufficient_io_t_applicat.Settings.{Ini, Key}
use sufficient_io_t_applicat.Node.{Config, App}
use sufficient_io_t_applicat.Node.Payload.{prepare_tx_frame}
use sufficient_io_t_applicat.Node.Samples.{env}
use sufficient_io_t_applicat.Start.{Devices, no_sensor, begins, main}
use sufficient_io_t_applicat.Start.Begins.{prepare_tx_frame-main}

abbrev bare : Devices
bare = record {
  fifo = record { exists = false; makes = false; readable = true; descriptor = pos 3 };
  opened = false;
  has_mutex = true;
  kernel = record {
    selects = λ ops addr. true;
    writes = λ ops bytes. some (length bytes);
    reads = λ ops size. none;
  };
}

-- The file with fixed data.
abbrev fixed : Ini
fixed = record {
  get_int =
      λ key. elim key [ Key.data_selection ↦ 0 | Key.class ↦ 2 | other ↦ (file 0).get_int other ];
  get_string = (file 0).get_string;
}

prepare_tx_frame-main_example :
    (config : Config) × (s : App) × (t : App) × (main 6 (some fixed) bare (0 ∷ 0 ∷ 0 ∷ 0 ∷ [])
      ≡ begins config s no_sensor)
    × (prepare_tx_frame env config s.app_port config.data_selection s ≡ done t)
    × (t.app_data ≡ copies 3 ++ drop 3 (replicate 256 0))
    × (t.app_data_size ≡ 3)
    × (t.app_port ≡ 3)
prepare_tx_frame-main_example =
    prepare_tx_frame-main fixed 6 0 7 (copies 3) (2 ∷ []) (0 ∷ 0 ∷ 0 ∷ []) bare env (copies 8)
      (copies 8) (copies 16) refl (copies-Spells 8) (copies-Spells 8) (copies-Spells 16) refl refl
      refl refl refl (omega arith) (omega arith) (omega arith) (copies-Spells 3) (omega arith)
      word-IsLicense (omega arith) refl

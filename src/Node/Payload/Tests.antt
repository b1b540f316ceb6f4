-- ===== src/Node/Payload/Tests.antt =====
-- Frames from concrete data.
use sufficient_io_t_applicat.Base.{some, ◌-◌, ◌≤◌, ℕ, ◌+◌, ◌*◌, ◌^◌, ◌<◌, refl, [], ◌∷◌, arith}
use sufficient_io_t_applicat.Node.{Env, DataSelection}
use sufficient_io_t_applicat.Node.Payload.{prepare_tx_frame}
use sufficient_io_t_applicat.Node.Payload.Contents.{Prepares}
use sufficient_io_t_applicat.Hdc1080.{temperature_hundredths, humidity_hundredths}
use sufficient_io_t_applicat.Node.Payload.Measured.{prepare_tx_frame-measured}
use sufficient_io_t_applicat.Node.Payload.Fifo.{mkfifo_frame_lem}
use sufficient_io_t_applicat.Node.Samples.{env, config, sending, digits-Spells}

mkfifo_frame_lem_example :
    Prepares
      (prepare_tx_frame env config 3 DataSelection.mkfifo_data sending)
      sending.app_data
      3
      (0xc0 ∷ 0xde ∷ [])
mkfifo_frame_lem_example =
    mkfifo_frame_lem env config 3 sending digits-Spells refl (omega arith) (omega arith)

-- About 21.9 degrees, and half of the humidity.
abbrev measuring : Env
measuring = record env {
  hdc1080_temperature = λ calls. temperature_hundredths 0x6000;
  hdc1080_humidity = λ calls. some (humidity_hundredths 0x8000);
}

prepare_tx_frame-measured_example :
    (a b c d : ℕ) × Prepares
      (prepare_tx_frame measuring config 3 DataSelection.hdc1080_data sending)
      sending.app_data
      3
      (a ∷ b ∷ c ∷ d ∷ [])
    × ((a * 256 + b) * 2 ^ 16 ≤ 0x6000 * 16500 - 4000 * 2 ^ 16)
    × (0x6000 * 16500 < (a * 256 + b + 4001) * 2 ^ 16)
    × ((c * 256 + d) * 2 ^ 16 ≤ 0x8000 * 10000)
    × (0x8000 * 10000 < (c * 256 + d + 1) * 2 ^ 16)
prepare_tx_frame-measured_example =
    prepare_tx_frame-measured measuring config 3 sending 0x6000 0x8000 (omega arith) (omega arith)
      (omega arith) refl refl (omega arith)

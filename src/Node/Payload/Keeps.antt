-- ===== src/Node/Payload/Keeps.antt =====
-- The payload of each source of data, and what a prepared frame leaves alone.
use sufficient_io_t_applicat.Base.{ℕ, ◌≡◌, List, arith, done}
use sufficient_io_t_applicat.Node.{Env, Config, App, DataSelection}
use sufficient_io_t_applicat.Node.Starts.{mac_first}
use sufficient_io_t_applicat.Node.Uplink.Requests.{uplinks}
use sufficient_io_t_applicat.Node.Payload.{
  fill_frame, error_frame, fixed_frame, mkfifo_frame, hdc1080_frame, bmp180_frame, prepare_tx_frame,
}

-- What no preparation of a frame changes.
pub record Keeps (s t : App) : Type 0 where
  pub state : t.device_state ≡ s.device_state
  pub ready : t.next_tx ≡ s.next_tx
  pub seed : t.seed ≡ s.seed
  pub sent : uplinks t.calls ≡ uplinks s.calls
  pub starts : mac_first t.calls ≡ mac_first s.calls

module _ (env : Env) (config : Config) (s : App) {t : App} where
  fill_frame-Keeps : (size : ℕ) (bytes : List ℕ) → fill_frame size bytes s ≡ done t → Keeps s t
  unfolding fill_frame
  fill_frame-Keeps size bytes e = ground arith

  fixed_frame-Keeps : fixed_frame env config s ≡ done t → Keeps s t
  unfolding fixed_frame
  fixed_frame-Keeps e = ground arith

  mkfifo_frame-Keeps : mkfifo_frame env config s ≡ done t → Keeps s t
  unfolding mkfifo_frame error_frame fill_frame
  mkfifo_frame-Keeps e = ground arith

  hdc1080_frame-Keeps : hdc1080_frame env config s ≡ done t → Keeps s t
  unfolding hdc1080_frame fill_frame
  hdc1080_frame-Keeps e = ground arith

  bmp180_frame-Keeps : bmp180_frame env config s ≡ done t → Keeps s t
  unfolding bmp180_frame fill_frame
  bmp180_frame-Keeps e = ground arith

  error_frame-Keeps : error_frame s ≡ done t → Keeps s t
  unfolding error_frame fill_frame
  error_frame-Keeps e = ground arith

-- Preparing a frame from any source asks for no uplink, does not initialise the MAC layer, and
-- leaves the loop's state, the readiness to send and the random seed unchanged.
pub prepare_tx_frame-Keeps :
    (env : Env) (config : Config) (port : ℕ) (selection : DataSelection) (s : App) {t : App}
    → prepare_tx_frame env config port selection s ≡ done t
    → Keeps s t
unfolding prepare_tx_frame
prepare_tx_frame-Keeps env config port DataSelection.fixed_data s e =
    ground (arith, fixed_frame-Keeps env config (record s { app_port = port }) e)
prepare_tx_frame-Keeps env config port DataSelection.mkfifo_data s e =
    ground (arith, mkfifo_frame-Keeps env config (record s { app_port = port }) e)
prepare_tx_frame-Keeps env config port DataSelection.hdc1080_data s e =
    ground (arith, hdc1080_frame-Keeps env config (record s { app_port = port }) e)
prepare_tx_frame-Keeps env config port DataSelection.bmp180_data s e =
    ground (arith, bmp180_frame-Keeps env config (record s { app_port = port }) e)
prepare_tx_frame-Keeps env config port DataSelection.other_data s e =
    ground (arith, error_frame-Keeps env config (record s { app_port = port }) e)

-- ===== src/Node/Payload/Measured.antt =====
-- The frame of project/main/main.c from what the registers of the HDC1080 hold.
use sufficient_io_t_applicat.Base.{
  ℕ, ◌+◌, ◌-◌, ◌*◌, ◌/◌, ◌^◌, ◌≤◌, ◌<◌, ◌≡◌, ◌∙◌, some, [], ◌∷◌, arith, length,
}
use sufficient_io_t_applicat.Hdc1080.{temperature_hundredths, humidity_hundredths}
use sufficient_io_t_applicat.Hdc1080.Measurements.{
  temperature_hundredths_lem, humidity_hundredths_lem,
}
use sufficient_io_t_applicat.Node.{Env, Config, App, DataSelection}
use sufficient_io_t_applicat.Node.Payload.{prepare_tx_frame}
use sufficient_io_t_applicat.Node.Payload.Contents.{Prepares, hdc1080_frame_lem}

some_hundredths :
    (raw : ℕ)
    → raw < 2 ^ 16
    → 4000 * 2 ^ 16 < raw * 16500 + 2 ^ 16
    → (value : ℕ) × (temperature_hundredths raw ≡ some value)
unfolding temperature_hundredths
some_hundredths raw small warm = ((raw * 16500 - 4000 * 2 ^ 16) / 2 ^ 16, ground arith)

-- From the raw words of the HDC1080, the temperature above -0.01 degrees, and with room for four
-- bytes, the frame's bytes give back, high byte first, the temperature and the humidity in
-- hundredths, each cut by less than one hundredth.
pub prepare_tx_frame-measured :
    (env : Env) (config : Config) (port : ℕ) (s : App) (heat damp : ℕ)
    → heat < 2 ^ 16
    → damp < 2 ^ 16
    → 4000 * 2 ^ 16 < heat * 16500 + 2 ^ 16
    → env.hdc1080_temperature s.calls ≡ temperature_hundredths heat
    → env.hdc1080_humidity s.calls ≡ some (humidity_hundredths damp)
    → 4 ≤ length s.app_data
    → (a b c d : ℕ) × Prepares
        (prepare_tx_frame env config port DataSelection.hdc1080_data s)
        s.app_data
        port
        (a ∷ b ∷ c ∷ d ∷ [])
      × ((a * 256 + b) * 2 ^ 16 ≤ heat * 16500 - 4000 * 2 ^ 16)
      × (heat * 16500 < (a * 256 + b + 4001) * 2 ^ 16)
      × ((c * 256 + d) * 2 ^ 16 ≤ damp * 10000)
      × (damp * 10000 < (c * 256 + d + 1) * 2 ^ 16)
prepare_tx_frame-measured env config port s heat damp few few' warm hot wet room =
    let (value, sent) = some_hundredths heat few warm in
    let (small, above, below) = (temperature_hundredths_lem heat few).1 value sent in
    let (dry, over, under) = humidity_hundredths_lem damp few' in
    let (a, b, c, d, prepares, temperature, humidity, bytes) =
      hdc1080_frame_lem env config port s value (humidity_hundredths damp) (hot ∙ sent) wet
        (omega (arith, small)) (omega (arith, dry)) room in
    (
      a,
      b,
      c,
      d,
      prepares,
      omega (arith, temperature, above),
      omega (arith, temperature, below),
      omega (arith, humidity, over),
      omega (arith, humidity, under),
    )

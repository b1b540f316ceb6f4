-- ===== src/Bmp180/Conversion.antt =====
-- `bmp180_convert` of functional_module/bmp180/bmp180.c on the bus: both measurements, and what is
-- computed from them.
use sufficient_io_t_applicat.Base.{ℤ, Access, done, fault}
use sufficient_io_t_applicat.I2c.{Kernel, Driver, ◌>>=◌, pure}
use sufficient_io_t_applicat.Bmp180.{Calibration, read_temperature, read_pressure}
use sufficient_io_t_applicat.Bmp180.Compensation.{compensate}

-- The states of both measurements are 0 wherever the program has not ended.
unfoldable pub bmp180_convert : Kernel → Calibration → Driver (Access (ℤ × ℤ))
unfolding read_temperature read_pressure compensate
bmp180_convert kernel c = do
  ut ← read_temperature kernel
  up ← read_pressure kernel
  pure (compensate c ut up)

-- `bmp180_altitude`, which measures again; `formula` is the height at a pressure, as the library's `pow`
-- gives it.
unfoldable pub bmp180_altitude : {A : Type 0} → (ℤ → A) → Kernel → Calibration → Driver (Access A)
unfolding bmp180_convert
bmp180_altitude formula kernel c = do
  result ← bmp180_convert kernel c
  pure (elim result [ done (temperature, pressure) ↦ done (formula pressure) | fault ↦ fault ])

-- ===== src/Bmp180/Measured.antt =====
-- `bmp180_convert` of functional_module/bmp180/bmp180.c with the device on the bus.
use sufficient_io_t_applicat.Base.{ℕ, ◌+◌, ◌*◌, ◌/◌, ◌^◌, ◌≡◌, List, arith}
use sufficient_io_t_applicat.I2c.{Op, Kernel, returns}
use sufficient_io_t_applicat.Bmp180.{Calibration, convert_temp, convert_pres}
use sufficient_io_t_applicat.Bmp180.Compensation.{compensate}
use sufficient_io_t_applicat.Bmp180.Conversion.{bmp180_convert}
use sufficient_io_t_applicat.Bmp180.Registers.{
  IsDevice, free, started, measured, read_temperature_lem, read_pressure_lem,
}

-- With a device whose registers depend on all calls before, and a free bus, bmp180_convert starts
-- a temperature conversion, takes the word that the output register then holds, starts a pressure
-- conversion, takes the upper 19 bits of the 24 that are then held there, and computes its
-- results from both. It makes no other calls, and leaves the bus free.
pub bmp180_convert_lem :
    (registers : List Op → ℕ → ℕ) (kernel : Kernel) (c : Calibration) (ops : List Op)
    → IsDevice registers kernel
    → let heated = measured convert_temp 2 ops in
      let heat = registers (started convert_temp ops) in
      let held = registers (started convert_pres heated) in
      bmp180_convert kernel c (free ops)
      ≡ returns
          (compensate c
            (heat 0xF6 * 2 ^ 8 + heat 0xF7)
            ((held 0xF6 * 2 ^ 16 + held 0xF7 * 2 ^ 8 + held 0xF8) / 32))
          (free (measured convert_pres 3 heated))
unfolding bmp180_convert
bmp180_convert_lem registers kernel c ops device = ground (
  arith,
  read_temperature_lem registers kernel device ops,
  read_pressure_lem registers kernel device (measured convert_temp 2 ops),
)

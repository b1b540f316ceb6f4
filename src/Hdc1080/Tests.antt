-- ===== src/Hdc1080/Tests.antt =====
-- The HDC1080 at room temperature.
use sufficient_io_t_applicat.Base.{◌≡◌, refl, true, false, some, [], ◌∷◌, length}
use sufficient_io_t_applicat.I2c.{Kernel, Bus}
use sufficient_io_t_applicat.Hdc1080.{bit8, bit11, bit14, hdc1080_init, temperature_hundredths}
use sufficient_io_t_applicat.Hdc1080.Measurements.{hdc1080_init_ignores}

-- The temperature register holds 0x6650, 26.0 degrees.
abbrev sensor : Kernel
sensor = record {
  selects = λ ops addr. true;
  writes = λ ops bytes. some (length bytes);
  reads = λ ops size. some (0x66 ∷ 0x50 ∷ []);
}

abbrev idle : Bus
idle = record { locked = false; ops = [] }

hdc1080_init_ignores_example :
    hdc1080_init sensor (some idle) bit8 bit11 ≡ hdc1080_init sensor (some idle) bit14 bit14
hdc1080_init_ignores_example = hdc1080_init_ignores sensor (some idle) bit8 bit11

room_temperature : temperature_hundredths 0x6650 ≡ some 2594
unfolding temperature_hundredths
room_temperature = refl

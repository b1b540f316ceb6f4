-- ===== src/Radio/Tests.antt =====
-- Conversions of what the chip reports, and payloads on their way to it.
use sufficient_io_t_applicat.Base.{
  ℕ, ◌≡◌, refl, true, false, some, List, [], ◌∷◌, arith, length, replicate, done, pos, negsuc,
}
use sufficient_io_t_applicat.Spi.{send, System}
use sufficient_io_t_applicat.Gpio.{Sysfs}
use sufficient_io_t_applicat.Pins.{Board}
use sufficient_io_t_applicat.Radio.{Mode, Radio, no_packet, write_buffer}
use sufficient_io_t_applicat.Radio.Packets.{snr, half_negative, power_byte}
use sufficient_io_t_applicat.Radio.Frames.{
  after, wake_calls, write_buffer_lem, write_buffer_dropped,
}

abbrev willing : System
willing = record {
  has_memory = λ calls. true;
  opens = λ calls. some 3;
  accepts = λ calls c. true;
  transfers = λ calls c. (0, []);
}

-- All pins are low.
abbrev low : Sysfs
low = record { writes = λ past file text. some true; reads = λ past file. some (b'0' ∷ 10 ∷ []) }

-- The chip is asleep as far as the driver knows.
abbrev resting : Radio
resting = record {
  world = record { open_files = 1; blocks = 1; calls = [] };
  board = record {
    past = [];
    reports = 0;
    interrupts = record { pin = 0; handler = 0; status = 0; threads = 0 };
  };
  target = some 3;
  pa_opt = 0;
  mode = Mode.sleep;
  packet_type = no_packet;
  image_calibrated = false;
}

write_buffer_lem_example :
    (b : Board) × (write_buffer willing low 0 (7 ∷ 8 ∷ []) 2 resting
      ≡ done (tt, after (send 3 (0x0E ∷ 0 ∷ 7 ∷ 8 ∷ []) ∷ send 3 (0xC0 ∷ 0 ∷ []) ∷ []) b resting))
write_buffer_lem_example = write_buffer_lem willing low 3 0 (7 ∷ 8 ∷ []) resting refl (omega arith)

abbrev large : List ℕ
large = replicate 254 9

write_buffer_dropped_example :
    (b : Board) × (write_buffer willing low 0 large (length large) resting
      ≡ done (tt, after (send 3 [] ∷ wake_calls 3 Mode.sleep) b resting))
write_buffer_dropped_example = write_buffer_dropped willing low 3 0 large resting refl refl

-- -5 quarters are rounded down, and the power is cut.
conversions :
    (snr 251 ≡ negsuc 1)
    × (half_negative 161 ≡ negsuc 80)
    × (power_byte (pos 30) ≡ 22)
    × (power_byte (negsuc 8) ≡ 253)
unfolding snr half_negative power_byte
conversions = (refl, refl, refl, refl)

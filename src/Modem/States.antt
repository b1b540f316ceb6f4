-- ===== src/Modem/States.antt =====
-- What functional_module/lora/radio/radio.c reports of the radio's state and the number of symbols of a
-- channel scan.
use sufficient_io_t_applicat.Base.{ℕ, ◌+◌, ◌^◌, ◌≤◌, ◌<◌, ◌≡◌, refl, arith}
use sufficient_io_t_applicat.Radio.{Mode, sleep, stdby_rc, stdby_xosc, fs, tx, rx, rx_dc}
use sufficient_io_t_applicat.Modem.{RadioState, idle, rx_running, tx_running, cad, radio_get_status}
use sufficient_io_t_applicat.Modem.Operations.{cad_symbol_num}

abbrev reported : Mode → RadioState
reported tx = tx_running
reported rx = rx_running
reported fs = cad
reported _ = idle

-- RadioGetStatus tells transmission and reception as they are; it tells a channel scan exactly
-- while the chip synthesizes its frequency, and idle in every other mode, during a channel scan
-- too.
pub radio_get_status_lem : (mode : Mode) → radio_get_status mode ≡ reported mode
unfolding radio_get_status
radio_get_status_lem sleep = refl
radio_get_status_lem stdby_rc = refl
radio_get_status_lem stdby_xosc = refl
radio_get_status_lem fs = refl
radio_get_status_lem tx = refl
radio_get_status_lem rx = refl
radio_get_status_lem rx_dc = refl
radio_get_status_lem Mode.cad = refl

pub cad_symbol_num_lem :
    (symbols : ℕ)
    → 0 < symbols
    → symbols < 32
    → (2 ^ cad_symbol_num symbols ≤ symbols) × (symbols < 2 ^ (cad_symbol_num symbols + 1))
unfolding cad_symbol_num
cad_symbol_num_lem symbols some_symbol few = ground arith

-- ===== src/Modem/Tests.antt =====
-- A radio behind a device that answers zeros.
use sufficient_io_t_applicat.Modem.Requests.{
  listen, set_fsk_tx_config, read_one, transmit, receive, sleep_now, interrupt, send_out,
  set_tx_config, set_fsk_rx_config, measure, set_channel, set_network, Request, run_all,
}
use sufficient_io_t_applicat.Base.{
  fault, ◌⊎◌, ◌*◌, none, ℕ, zero, suc, ◌+◌, ◌≤◌, ◌<◌, ◌≡◌, refl, true, false, some, List, [], ◌∷◌,
  arith, length, replicate, done, pos,
}
use sufficient_io_t_applicat.Spi.{World, spi_open, success, Call, burst, System}
use sufficient_io_t_applicat.Gpio.{Sysfs}
use sufficient_io_t_applicat.Radio.{Mode, no_packet, lora, ◌>>=◌}
use sufficient_io_t_applicat.Radio.Packets.{of_none}
use sufficient_io_t_applicat.Radio.Waking.{AnswersInFull, polite}
use sufficient_io_t_applicat.Modem.{radio_get_status, idle, Modem}
use sufficient_io_t_applicat.Modem.Operations.{radio_init, radio_sleep, radio_tx}
use sufficient_io_t_applicat.Radio.{gfsk}
use sufficient_io_t_applicat.Radio.Waking.{IsPolite}
use sufficient_io_t_applicat.Modem.{Variables}
use sufficient_io_t_applicat.Modem.Fsk.{fsk_bandwidths, search_rows, fsk_bandwidth_value}
use sufficient_io_t_applicat.Modem.Fsk.Bandwidths.{IsLeast, fsk_bandwidth_value_lem}
use sufficient_io_t_applicat.Modem.Access.{radio_sync_word}
use sufficient_io_t_applicat.Modem.Waking.Accesses.{radio_sync_word-gfsk}
use sufficient_io_t_applicat.Modem.Waking.Starting.{session_lem}
use sufficient_io_t_applicat.Modem.States.{radio_get_status_lem}
use sufficient_io_t_applicat.Modem.Waking.Exceptions.{radio_tx-radio_sleep}

abbrev answer : Call → ℕ × List ℕ
answer (burst dev tx size) = (length tx + size, replicate size 0)
answer _ = (0, [])

abbrev willing : System
willing = record {
  has_memory = λ calls. true;
  opens = λ calls. some 3;
  accepts = λ calls c. true;
  transfers = λ calls c. answer c;
}

length-zeros : (n : ℕ) → length {A = ℕ} (replicate n 0) ≡ n
length-zeros zero = refl
length-zeros (suc n) = ground (arith, length-zeros n)

willing-AnswersInFull : AnswersInFull willing
willing-AnswersInFull calls dev bytes size = length-zeros size

-- All pins are low.
abbrev low : Sysfs
low = record { writes = λ past file text. some true; reads = λ past file. some (b'0' ∷ 10 ∷ []) }

abbrev fresh : World
fresh = record { open_files = 0; blocks = 0; calls = [] }

abbrev started : Modem
started = record {
  radio = record {
    world = fresh;
    board = record {
      past = [];
      reports = 0;
      interrupts = record { pin = 0; handler = 0; status = 0; threads = 0 };
    };
    target = none;
    pa_opt = 0;
    mode = Mode.stdby_rc;
    packet_type = no_packet;
    image_calibrated = false;
  };
  variables = record {
    current = false;
    previous = false;
    rx_continuous = false;
    max_payload_length = 255;
    tx_timeout = 0;
    rx_timeout = 0;
    irq_fired = false;
    spreading = 7;
    bandwidth = 4;
    coding = 1;
    low_rate = 0;
    bit_rate = 0;
    deviation = 0;
    packet_kind = lora;
    lora = record { preamble = 8; header = 0; payload_length = 255; crc_mode = 1; invert_iq = 0 };
    gfsk = record {
      preamble = 0;
      detect = 0;
      sync_length = 0;
      addr_comp = 0;
      header = 0;
      payload_length = 0;
      crc_length = 0;
      dc_free = 0;
    };
    rx_payload = [];
    packet_status = of_none;
    outputs = [];
  };
}

abbrev opened : Modem
opened = record started { radio = record started.radio { target = some 3 } }

-- An uplink, the radio at rest, a window to receive in, and sending again.
abbrev uplink : List Request
uplink =
    set_network true
    ∷ set_channel 470300000
    ∷ set_tx_config (pos 22) 0 12 1 8 false true false 4000
    ∷ send_out (1 ∷ 2 ∷ 3 ∷ [])
    ∷ listen 2 (λ i. 60 * i) true 470300000 (pos 5) 100
    ∷ set_fsk_tx_config (pos 14) 25000 50000 50000 5 false true 3000
    ∷ set_fsk_rx_config 50000 50000 5 8 false 0 true false
    ∷ measure
    ∷ read_one 0x0740
    ∷ interrupt
    ∷ sleep_now
    ∷ receive 3000
    ∷ transmit 5
    ∷ []

opens_well : (spi_open willing fresh).status ≡ success
unfolding spi_open
opens_well = refl

session_lem_example :
    (m' : Modem) × ((radio_init willing low true 1 >>= λ _. run_all willing low uplink) started
      ≡ done (tt, m'))
    × (polite m'.radio.world.calls ≡ true)
session_lem_example =
    session_lem willing low 3 fresh true 1 uplink started willing-AnswersInFull refl (omega arith)
      refl refl opens_well refl

radio_tx-radio_sleep_example :
    (m' : Modem) × ((radio_sleep willing low >>= λ _. radio_tx willing low 5) opened
      ≡ done (tt, m'))
    × (polite m'.radio.world.calls ≡ false)
radio_tx-radio_sleep_example = radio_tx-radio_sleep willing low 3 5 opened refl

-- While a channel is scanned the state is told as idle.
radio_get_status_lem_example : radio_get_status Mode.cad ≡ idle
radio_get_status_lem_example = radio_get_status_lem Mode.cad

abbrev with_gfsk : Modem
with_gfsk = record opened { radio = record opened.radio { packet_type = gfsk } }

with_gfsk-IsPolite : IsPolite 3 with_gfsk.radio
with_gfsk-IsPolite = record { opened = refl; past = refl; known = λ e. absurd (ground (arith, e)) }

abbrev slow : Variables
slow = record opened.variables { spreading = 12; low_rate = 1 }

-- With packets of FSK, after `RadioSetModem`.
radio_sync_word-gfsk_example : radio_sync_word willing low 0x34 with_gfsk ≡ fault
radio_sync_word-gfsk_example =
    radio_sync_word-gfsk willing low 3 0x34 with_gfsk with_gfsk-IsPolite refl

fsk_bandwidth_value_lem_example :
    ((found : ℕ × ℕ) × (fsk_bandwidth_value 50000 ≡ done found.1)
      × IsLeast 50000 fsk_bandwidths found
      × (4800 ≤ 50000)
      × (50000 < 500000))
    ⊎ ((fsk_bandwidth_value 50000 ≡ fault) × ((50000 < 4800) ⊎ (500000 ≤ 50000)))
fsk_bandwidth_value_lem_example = fsk_bandwidth_value_lem 50000 (omega arith)

-- From the widest bandwidth of the table on, the search finds the row that is marked as invalid.
fsk_bandwidth_value-widest : fsk_bandwidth_value 467000 ≡ done 0x00
unfolding fsk_bandwidth_value search_rows
fsk_bandwidth_value-widest = refl

-- ===== src/Radio/Commands.antt =====
-- The commands of functional_module/lora/sx126x.c that set the radio's mode and its registers.
-- Arguments are in the range of their C types.
use Prim.Native.Nat.{bit_and, bit_or}
use sufficient_io_t_applicat.Base.{
  ℕ, zero, suc, ◌+◌, ◌*◌, ◌/◌, ◌%◌, ◌^◌, Bool, List, [], ◌∷◌, ◌++◌, ◌==◌, if◌then◌else◌, done,
  fault, load,
}
use sufficient_io_t_applicat.Spi.{System}
use sufficient_io_t_applicat.Gpio.{Sysfs}
use sufficient_io_t_applicat.Radio.{
  sleep, stdby_rc, stdby_xosc, fs, tx, rx, rx_dc, cad, PacketType, gfsk, lora, no_packet, Chip,
  Step, ◌>>=◌, ◌>>◌, pure, lift, set_mode, set_sleep_command, io_irq_init, reset, wakeup,
  write_command, write_registers, write_register, read_registers, read_register, write_buffer,
}

-- Bytes of a number, the high one first.
abbrev pub bytes16 : ℕ → List ℕ
bytes16 n = n / 2 ^ 8 % 2 ^ 8 ∷ n % 2 ^ 8 ∷ []

abbrev pub bytes24 : ℕ → List ℕ
bytes24 n = n / 2 ^ 16 % 2 ^ 8 ∷ n / 2 ^ 8 % 2 ^ 8 ∷ n % 2 ^ 8 ∷ []

abbrev pub bytes32 : ℕ → List ℕ
bytes32 n = n / 2 ^ 24 % 2 ^ 8 ∷ n / 2 ^ 16 % 2 ^ 8 ∷ n / 2 ^ 8 % 2 ^ 8 ∷ n % 2 ^ 8 ∷ []

-- The state as a value.
abbrev pub get : {S : Type 0} → Step S S
get r = done (r, r)

abbrev pub set_packet : PacketType → Chip (Unit {0})
set_packet kind r = done (tt, record r { packet_type = kind })

abbrev pub packet_code : PacketType → ℕ
packet_code gfsk = 0x00
packet_code lora = 0x01
packet_code no_packet = 0x0F

-- The registers of the synchronisation word.
abbrev pub sync_word_base : ℕ
sync_word_base = 0x06C0

module _ (system : System) (sysfs : Sysfs) where
  unfoldable pub set_payload : List ℕ → ℕ → Chip (Unit {0})
  unfolding write_buffer
  set_payload payload size = write_buffer system sysfs 0x00 payload size

  unfoldable pub set_standby : ℕ → Chip (Unit {0})
  unfolding write_command
  set_standby config = do
    write_command system sysfs 0x80 (config ∷ []) 1
    set_mode (if config == 0 then stdby_rc else stdby_xosc)

  unfoldable pub set_sleep : ℕ → Chip (Unit {0})
  unfolding write_command
  set_sleep config = do write_command system sysfs set_sleep_command (config ∷ []) 1; set_mode sleep

  -- `sx126xSleep`: a warm start, the third bit.
  unfoldable pub sx126x_sleep : Chip (Unit {0})
  unfolding set_sleep
  sx126x_sleep = set_sleep 4

  unfoldable pub set_fs : Chip (Unit {0})
  unfolding write_command
  set_fs = do write_command system sysfs 0xC1 [] 0; set_mode fs

  -- The mode is changed before the command is sent.
  unfoldable pub set_tx : ℕ → Chip (Unit {0})
  unfolding write_command
  set_tx timeout = do set_mode tx; write_command system sysfs 0x83 (bytes24 timeout) 3

  unfoldable pub set_rx : ℕ → Chip (Unit {0})
  unfolding write_command
  set_rx timeout = do set_mode rx; write_command system sysfs 0x82 (bytes24 timeout) 3

  unfoldable pub set_rx_boosted : ℕ → Chip (Unit {0})
  unfolding write_command write_register
  set_rx_boosted timeout = do
    set_mode rx
    write_register system sysfs 0x08AC 0x96
    write_command system sysfs 0x82 (bytes24 timeout) 3

  unfoldable pub set_rx_duty_cycle : ℕ → ℕ → Chip (Unit {0})
  unfolding write_command
  set_rx_duty_cycle rx_time sleep_time = do
    write_command system sysfs 0x94 (bytes24 rx_time ++ bytes24 sleep_time) 6
    set_mode rx_dc

  unfoldable pub set_cad : Chip (Unit {0})
  unfolding write_command
  set_cad = do write_command system sysfs 0xC5 [] 0; set_mode cad

  unfoldable pub send_payload : List ℕ → ℕ → ℕ → Chip (Unit {0})
  unfolding set_payload set_tx
  send_payload payload size timeout = do set_payload payload size; set_tx timeout

  unfoldable pub set_tx_continuous_wave : Chip (Unit {0})
  unfolding write_command
  set_tx_continuous_wave = write_command system sysfs 0xD1 [] 0

  unfoldable pub set_tx_infinite_preamble : Chip (Unit {0})
  unfolding write_command
  set_tx_infinite_preamble = write_command system sysfs 0xD2 [] 0

  unfoldable pub set_stop_rx_timer_on_preamble_detect : Bool → Chip (Unit {0})
  unfolding write_command
  set_stop_rx_timer_on_preamble_detect enable =
      write_command system sysfs 0x9F ((if enable then 1 else 0) ∷ []) 1

  unfoldable pub set_lora_symb_num_timeout : ℕ → Chip (Unit {0})
  unfolding write_command
  set_lora_symb_num_timeout symb_num = write_command system sysfs 0xA0 (symb_num ∷ []) 1

  unfoldable pub set_regulator_mode : ℕ → Chip (Unit {0})
  unfolding write_command
  set_regulator_mode regulator = write_command system sysfs 0x96 (regulator ∷ []) 1

  unfoldable pub calibrate : ℕ → Chip (Unit {0})
  unfolding write_command
  calibrate param = write_command system sysfs 0x89 (param ∷ []) 1

  unfoldable pub set_pa_config : ℕ → ℕ → ℕ → ℕ → Chip (Unit {0})
  unfolding write_command
  set_pa_config duty_cycle hp_max device pa_lut =
      write_command system sysfs 0x95 (duty_cycle ∷ hp_max ∷ device ∷ pa_lut ∷ []) 4

  unfoldable pub set_rx_tx_fallback_mode : ℕ → Chip (Unit {0})
  unfolding write_command
  set_rx_tx_fallback_mode fallback = write_command system sysfs 0x93 (fallback ∷ []) 1

  unfoldable pub set_dio_irq_params : ℕ → ℕ → ℕ → ℕ → Chip (Unit {0})
  unfolding write_command
  set_dio_irq_params irq dio1 dio2 dio3 =
      write_command system sysfs 0x08
        (bytes16 irq ++ (bytes16 dio1 ++ (bytes16 dio2 ++ bytes16 dio3))) 8

  unfoldable pub set_dio2_as_rf_switch_ctrl : ℕ → Chip (Unit {0})
  unfolding write_command
  set_dio2_as_rf_switch_ctrl enable = write_command system sysfs 0x9D (enable ∷ []) 1

  unfoldable pub set_dio3_as_tcxo_ctrl : ℕ → ℕ → Chip (Unit {0})
  unfolding write_command
  set_dio3_as_tcxo_ctrl voltage timeout =
      write_command system sysfs 0x97 (voltage % 2 ^ 3 ∷ bytes24 timeout) 4

  unfoldable pub set_buffer_base_address : ℕ → ℕ → Chip (Unit {0})
  unfolding write_command
  set_buffer_base_address tx_base rx_base =
      write_command system sysfs 0x8F (tx_base ∷ rx_base ∷ []) 2

  unfoldable pub clear_device_errors : Chip (Unit {0})
  unfolding write_command
  clear_device_errors = write_command system sysfs 0x07 (0 ∷ 0 ∷ []) 2

  unfoldable pub clear_irq_status : ℕ → Chip (Unit {0})
  unfolding write_command
  clear_irq_status irq = write_command system sysfs 0x02 (bytes16 irq) 2

  -- Seven bytes are made up, and five are sent.
  unfoldable pub set_cad_params : ℕ → ℕ → ℕ → ℕ → ℕ → Chip (Unit {0})
  unfolding write_command
  set_cad_params symbols peak min_peak exit_mode timeout = do
    write_command system sysfs 0x88 (symbols ∷ peak ∷ min_peak ∷ exit_mode ∷ bytes24 timeout) 5
    set_mode cad

  unfoldable pub set_node_address : ℕ → Chip (Unit {0})
  unfolding write_register
  set_node_address address = write_register system sysfs 0x06CD address

  unfoldable pub set_broadcast_address : ℕ → Chip (Unit {0})
  unfolding write_register
  set_broadcast_address address = write_register system sysfs 0x06CE address

  -- The loop over the eight registers, with the rounds that are left.
  unfoldable pub sync_word_loop : ℕ → ℕ → List ℕ → Chip (Unit {0})
  unfolding write_register
  sync_word_loop zero i sync_word = pure tt
  sync_word_loop (suc left) i [] = lift fault
  sync_word_loop (suc left) i (byte ∷ sync_word) = do
    write_register system sysfs (sync_word_base + i) byte
    sync_word_loop left (i + 1) sync_word

  unfoldable pub set_sync_word : List ℕ → Chip (Unit {0})
  unfolding sync_word_loop write_register
  set_sync_word sync_word = do
    r ← get
    elim r.packet_type [
      | gfsk ↦ sync_word_loop 8 0 sync_word
      | lora ↦ (do byte ← lift (load sync_word 0); write_register system sysfs 0x0740 byte)
      | no_packet ↦ pure tt
    ]

  unfoldable pub set_crc_seed : ℕ → Chip (Unit {0})
  unfolding write_registers
  set_crc_seed seed = do
    r ← get
    elim r.packet_type [ gfsk ↦ write_registers system sysfs 0x06BC (bytes16 seed) 2 | _ ↦ pure tt ]

  unfoldable pub set_crc_polynomial : ℕ → Chip (Unit {0})
  unfolding write_registers
  set_crc_polynomial polynomial = do
    r ← get
    elim r.packet_type [
      | gfsk ↦ write_registers system sysfs 0x06BE (bytes16 polynomial) 2
      | _ ↦ pure tt
    ]

  -- The high bit goes into the lowest of a register, whose other bits are kept.
  unfoldable pub set_whitening_seed : ℕ → Chip (Unit {0})
  unfolding write_register read_register
  set_whitening_seed seed = do
    r ← get
    elim r.packet_type [
      | gfsk ↦ (do
        value ← read_register system sysfs 0x06B8
        write_register system sysfs 0x06B8
            (bit_or (bit_and (seed / 2 ^ 8) 0x01) (bit_and value 0xFE))
        write_register system sysfs 0x06B9 (seed % 2 ^ 8))
      | _ ↦ pure tt
    ]

  unfoldable pub get_random : Chip ℕ
  unfolding set_rx read_registers set_standby
  get_random = do
    set_rx 0
    buf ← read_registers system sysfs 0x0819 4
    set_standby 0
    a ← lift (load buf 0)
    b ← lift (load buf 1)
    c ← lift (load buf 2)
    d ← lift (load buf 3)
    pure (a * 2 ^ 24 + b * 2 ^ 16 + c * 2 ^ 8 + d)

  -- `SX126xInit`, with UseTCXO and a wake-up time of 1 ms.
  unfoldable pub sx126x_init : Bool → ℕ → Chip (Unit {0})
  unfolding reset io_irq_init wakeup set_standby set_dio3_as_tcxo_ctrl calibrate
      set_dio2_as_rf_switch_ctrl
  sx126x_init created handler = do
    reset system sysfs
    io_irq_init system sysfs created handler
    wakeup system sysfs
    set_standby 0
    set_dio3_as_tcxo_ctrl 2 (1 * 2 ^ 6)
    calibrate 0x7F
    set_dio2_as_rf_switch_ctrl 1
    set_mode stdby_rc

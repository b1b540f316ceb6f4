-- ===== src/Lib.antt =====
-- A verification library for the LoRaWAN node application of this repository.
--
-- The program is one process. project/main/main.c reads config.ini (read_config), opens a sensor and
-- turns round in loop(): it joins a network, prepares a frame, hands it to the MAC layer, starts a
-- timer and sleeps until the timer's event. functional_module/lora/ESP32_sx1262_LoRaWAN.c is the
-- application's side of the MAC layer; the sensors stand on a bus behind a mutex.
--
-- Base      Lists with their library's names over the native numbers (Base.Lists), Boolean tests
--           (Base.Tests), and accesses of C arrays, where one outside the array is a fault that ends
--           the computation (Base.Memory), signed numbers (Base.Int), and the arithmetic of an int
--           with the bounds of its results (Base.Signed). Base.Hexadecimal has the hexadecimal digits
--           by their character codes, apart from the code that reads them.
-- Hex       functional_module/data_conversion/data_conversion.c: `str_to_array`, `str_to_int`, with
--           every label of the switch. Hex.Digits, Hex.Spelling and Hex.Numbers say what a text
--           spells and what is stored. Hex.Printing is `HexToString` of functional_module/lora/board.c.
-- Channels  `read_hannel` of main.c: the mask of six 16-bit words, with the wrap of its counters.
-- License   the loops of `read_config` over the licence; Settings the rest of it. What iniparser
--           finds under a key is a parameter.
-- Start     `main` of main.c up to the first turn of the loop: `sensor_init`, with `mkfifo_init` of
--           functional_module/fifo/mkfifo.c, and what a configuration makes of the first state of
--           the node. Start.Begins puts this together with the turns and with the frame.
-- Node      the state of main.c and ESP32_sx1262_LoRaWAN.c: `App` what changes while the node runs,
--           `Config` what the configuration sets. Each call of the MAC layer, the timer or a file
--           is put down in a history, and `Env` says what is answered after a given history.
--           Node.Uplink is `send` with `SendFrame` and `lwan_dev_params_update`; Node.Events the
--           callbacks (`OnTxNextPacketTimerEvent`, `McpsConfirm`, `McpsIndication`, `MlmeConfirm`,
--           `MlmeIndication`); Node.Session `init`, `join` and `cycle`; Node.Payload
--           `prepareTxFrame` of main.c with `read_mkfifo` of functional_module/fifo/mkfifo.c;
--           Node.Loop the turns of `loop` and the random part of the duty cycle
--           (functional_module/lora/utilities.c); Node.Runs the turns and the events in any order.
--           Node.Payload.Measured follows the raw words of a sensor into the frame.
-- I2c       hardware_driver/i2c/i2c.c: the bus with its mutex. A call on a locked bus blocks.
-- Hdc1080   functional_module/hdc1080/hdc1080.c, and Bmp180 functional_module/bmp180/bmp180.c: the
--           registers of both sensors over that bus. Bmp180.Compensation is the 32-bit arithmetic of
--           `bmp180_convert`, with its ranges in Bmp180.Compensation.Ranges and
--           Bmp180.Compensation.Pressure; Bmp180.Compensation.Exact compares it with the same
--           formulas over all integers. Bmp180.Conversion is the function with its measurements.
-- Spi       hardware_driver/spi/spi.c: the device of the radio, with what is left open or allocated.
-- Gpio      hardware_driver/gpio/gpio.c over the files of /sys/class/gpio, with `sprintf` and `atoi` of
--           an int; Gpio.Attributes sees the files of a pin as the line that the kernel documents. Pins: the pins of the radio
--           in functional_module/lora/sx1262_gpio.c, and the thread for interrupts.
-- Radio     the SX126x chip behind that device and three pins: functional_module/lora/sx1262-board.c,
--           with the commands of functional_module/lora/sx126x.c in Radio.Commands and Radio.Packets.
--           `Radio` holds their variables. Radio.Frames says what goes over the device; Radio.Steps is
--           a logic of steps on a state, and Radio.Waking uses it for the steps that keep commands
--           away from a sleeping chip.
-- Modem     functional_module/lora/radio/radio.c: `Modem` holds its variables over a `Radio`. The calls
--           of the timers and of the callbacks in `RadioEvents` are put down in a list.
--           Modem.Operations are the functions that the MAC layer calls, Modem.Interrupts the
--           interrupts and timeouts, Modem.Lora and Modem.Fsk the configurations, Modem.Access the
--           accesses to registers and the sensing of a channel, and Modem.Airtime the time on air
--           for LoRa.
--           Modem.Requests lists them all as the requests that `Radio_s` offers, and Modem.Waking
--           is about any sequences of these.
--
-- Numbers are natural numbers; where C's types wrap, the remainder is written out. An `int` that is
-- only passed on stands as its 32 bits. What C leaves undefined (an access outside an array, a shift
-- by a negative number, a conversion that does not fit, an int that overflows) is a fault, and so is
-- the loop that `RadioGetFskBandwidthRegValue` never leaves.
--
-- Fuel: the two `while` loops of `read_hannel` take fuel and answer `none` when it runs out. Six
-- rounds are enough for each channel below 96, and 256 for each below 4096; from there on no fuel is.
-- The loop over the licence takes as many rounds as the text has characters, and one; that of
-- `spi_read` as many as there are bytes to read, of which each round takes at least one. The wait for
-- the radio's pin takes 1000001 looks, after which the code itself breaks off. The sensing of a channel
-- takes as many rounds as the clock is looked at. A number is printed in ten digits at most, which are
-- enough for an int. All other loops are recursions on a count or a list that the code itself counts
-- down.
--
-- Not modelled: the MAC layer, its regions and its cryptography (functional_module/lora/loramac),
-- iniparser and the timer, which are other projects' libraries or binary archives, so that what the
-- callbacks of the radio do lies outside; the time on air for FSK in radio.c and the formula for
-- the altitude in bmp180.c, which are floating point (the formula is an argument, as is the time that a
-- reception for FSK may take, and `Env` answers with the altitude); and delays. The order of the
-- timer's thread and the main loop is that of whole turns and events.
pub mod Base
pub mod Hex
pub mod Channels
pub mod Node
pub mod I2c
pub mod Gpio
pub mod Pins
pub mod Spi
pub mod Radio
pub mod Hdc1080
pub mod Bmp180
pub mod License
pub mod Modem
pub mod Settings
pub mod Start

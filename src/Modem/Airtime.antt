-- ===== src/Modem/Airtime.antt =====
-- `RadioTimeOnAir` of functional_module/lora/radio/radio.c for LoRa.
pub mod Ceiling
use sufficient_io_t_applicat.Modem.Lora.{bandwidth_of}
use sufficient_io_t_applicat.Base.{
  ℕ, ◌+◌, ◌-◌, ◌*◌, ◌/◌, ◌%◌, ◌^◌, ltb, ◌==◌, if◌then◌else◌, Access, done, fault,
}
use sufficient_io_t_applicat.Modem.{Variables}

-- The bits of a packet of `size` bytes for which symbols beyond the first eight are counted, and what
-- is taken off them.
abbrev pub bits_of : ℕ → Variables → ℕ
bits_of size v = 8 * size + 28 + 16 * v.lora.crc_mode

abbrev pub bits_off : Variables → ℕ
bits_off v = 4 * v.spreading + (if v.lora.header == 1 then 20 else 0)

-- The bits of the symbols that the coding makes up together.
abbrev pub bits_per_block : Variables → ℕ
bits_per_block v = 4 * (v.spreading - (if ltb 0 v.low_rate then 2 else 0))

-- `ceil` of a quotient.
abbrev pub ceil_div : ℕ → ℕ → ℕ
ceil_div a b = (a + b - 1) / b

-- `nPayload`. Where more is taken off the bits than there are, the result depends on the type that the
-- compiler gives to an enumeration; a quotient by nothing is infinite. Both are faults.
unfoldable pub payload_symbols : ℕ → Variables → Access ℕ
payload_symbols size v =
    if ltb (bits_of size v) (bits_off v)
    then fault
    else if bits_per_block v == 0
    then fault
    else done (8 + ceil_div (bits_of size v - bits_off v) (bits_per_block v) * (v.coding % 4 + 4))

-- `RadioTimeOnAir` for MODEM_LORA: `floor(tOnAir + 0.999)` in milliseconds, with all over the one
-- denominator. No packet's time is so near to a whole number of milliseconds less 0.999 that rounding
-- could decide. A result that has no value in uint32_t is undefined.
unfoldable pub radio_time_on_air : ℕ → Variables → Access ℕ
unfolding payload_symbols bandwidth_of
radio_time_on_air size v =
    let hundredths : ℕ = bandwidth_of v.bandwidth in
    elim (payload_symbols size v) [
      | fault ↦ fault
      | done symbols ↦
          let quarters : ℕ = 4 * v.lora.preamble + 17 + 4 * symbols in
          let time : ℕ =
            (quarters * (2 ^ v.spreading) * 25000 + 999 * hundredths) / (1000 * hundredths) in
          if hundredths == 0 then fault else if ltb time (2 ^ 32) then done time else fault
    ]

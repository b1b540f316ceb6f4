-- ===== src/Modem/Airtime/Ceiling.antt =====
-- What the rounding in `RadioTimeOnAir` of functional_module/lora/radio/radio.c comes to.
use sufficient_io_t_applicat.Base.{if◌then◌else◌, ℕ, ◌+◌, ◌-◌, ◌*◌, ◌≤◌, ◌<◌, ◌≡◌, ◌==◌, ◌⊎◌}
use sufficient_io_t_applicat.Modem.{Variables}

-- `k` is the quotient of `a` and `b` rounded up.
abbrev pub IsCeil : ℕ → ℕ → ℕ → Type 0
IsCeil a b k = (a ≤ k * b) × (k * b < a + b)

-- The bandwidths of 125, 250 and 500 kHz.
IsWide : ℕ → Type 0
IsWide hundredths = (hundredths ≡ 12500) ⊎ ((hundredths ≡ 25000) ⊎ (hundredths ≡ 50000))

-- The data sheet's formula for a LoRa packet: the bits that go into blocks, with 16 for a CRC and 20
-- for an explicit header, and the bits of a block, which the low data rate lessens by 8.
abbrev pub packet_bits : ℕ → Variables → ℕ
packet_bits size v =
    8 * size
    + (if v.lora.crc_mode == 0 then 0 else 16)
    + 8
    + (if v.lora.header == 1 then 0 else 20)
    - 4 * v.spreading

abbrev pub block_bits : Variables → ℕ
block_bits v = if v.low_rate == 0 then 4 * v.spreading else 4 * v.spreading - 8

-- The bandwidth in tens of hertz, by the chip's codes 4 to 6.
abbrev pub tens_of_hertz : ℕ → ℕ
tens_of_hertz code = if code == 4 then 12500 else if code == 5 then 25000 else 50000

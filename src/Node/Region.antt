-- ===== src/Node/Region.antt =====
-- `LoRaMacRegion_t` of functional_module/lora/loramac/LoRaMac.h, which numbers its regions from 0.
use sufficient_io_t_applicat.Base.{ℕ}

abbrev pub as923 : ℕ
as923 = 0

abbrev pub au915 : ℕ
au915 = 1

abbrev pub cn470 : ℕ
cn470 = 2

abbrev pub cn779 : ℕ
cn779 = 3

abbrev pub eu433 : ℕ
eu433 = 4

abbrev pub eu868 : ℕ
eu868 = 5

abbrev pub kr920 : ℕ
kr920 = 6

abbrev pub in865 : ℕ
in865 = 7

abbrev pub us915 : ℕ
us915 = 8

abbrev pub us915_hybrid : ℕ
us915_hybrid = 9

abbrev pub as923_as1 : ℕ
as923_as1 = 11

abbrev pub as923_as2 : ℕ
as923_as2 = 12

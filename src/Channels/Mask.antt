-- ===== src/Channels/Mask.antt =====
-- What `read_hannel` makes of the two channel numbers of the configuration.
use sufficient_io_t_applicat.Base.{
  sym, inr, ==_iff, inl, Option-cases, Bool-cases, some, none, store, fault, ℕ, zero, suc, ◌+◌, ◌-◌,
  ◌/◌, ◌%◌, ◌≤◌, ◌<◌, ◌≡◌, refl, ◌∙◌, false, ◌&&◌, List, arith, ltb, leb, ◌==◌, if◌then◌else◌,
  length, get_or, set, replicate, length-set, get_or-set_self, get_or-set_ne, done,
}
use sufficient_io_t_applicat.Channels.{interval_loop, read_hannel, bits_between, write_mask}
use sufficient_io_t_applicat.Channels.Words.{
  interval_loop-eq, interval_loop-diverges, bit, bit-bits_between, bit-full, fill_loop-eq,
}

-- `mask` has six words, and its bits are exactly the channels from `first` to `last`.
pub record Selects (first last : ℕ) (mask : List ℕ) : Type 0 where
  pub six : length mask ≡ 6
  pub exact :
      (channel : ℕ)
      → channel < 96
      → bit (get_or mask (channel / 16) 0) (channel % 16) ≡ (leb first channel && leb channel last)

get_or-replicate : (n j : ℕ) → get_or {A = ℕ} (replicate n 0) j 0 ≡ 0
get_or-replicate zero j = refl
get_or-replicate (suc n) zero = refl
get_or-replicate (suc n) (suc j) = get_or-replicate n j

bit-zero : (i : ℕ) → bit 0 i ≡ false
bit-zero i = ground arith

-- The words of the mask, by their place between the first word `s` and the last one `e`.
word : (s e first last j : ℕ) → ℕ
word s e first last j =
    if j == s
    then bits_between (first % 16) (if j == e then last % 16 else 15)
    else if j == e
    then bits_between 0 (last % 16)
    else if ltb s j && ltb j e
    then 0xFFFF
    else 0

abbrev Written : (s e first last : ℕ) → List ℕ → Type 0
Written s e first last mask =
    (length mask ≡ 6) × ((j : ℕ) → get_or mask j 0 ≡ word s e first last j)

write_mask-one :
    (s first last : ℕ)
    → s < 6
    → (mask : List ℕ) × (write_mask s s first last (replicate 6 0) ≡ done mask)
      × Written s s first last mask
unfolding write_mask word
write_mask-one s first last in_range =
    let zeros : List ℕ = replicate 6 0 in
    let bits = bits_between (first % 16) (last % 16) in
    (
      set zeros s bits,
      ground arith,
      (
        length-set zeros s bits,
        λ j. ground (
          arith,
          get_or-replicate 6 j,
          get_or-set_self zeros s bits 0,
          get_or-set_ne zeros s j bits 0,
        ),
      ),
    )

write_mask-more :
    (s e first last : ℕ)
    → s < e
    → e < 6
    → (mask : List ℕ) × (write_mask s e first last (replicate 6 0) ≡ done mask)
      × Written s e first last mask
unfolding write_mask word
write_mask-more s e first last below in_range =
    let zeros : List ℕ = replicate 6 0 in
    let low = bits_between (first % 16) 15 in
    let high = bits_between 0 (last % 16) in
    let ends : List ℕ = set (set zeros s low) e high in
    let six : length ends ≡ 6 = length-set (set zeros s low) e high ∙ length-set zeros s low in
    let filled = fill_loop-eq (e - (s + 1)) (s + 1) ends (omega arith) in
    (
      filled.0,
      ground (arith, filled.1, length-set zeros s low),
      (
        filled.2 ∙ six,
        λ j. ground (
          arith,
          filled.3 j,
          get_or-replicate 6 j,
          length-set zeros s low,
          get_or-set_self zeros s low 0,
          get_or-set_ne zeros s j low 0,
          get_or-set_self (set zeros s low) e high 0,
          get_or-set_ne (set zeros s low) e j high 0,
        ),
      ),
    )

Written-Selects :
    {mask : List ℕ} (s e first last : ℕ)
    → s ≡ first / 16
    → e ≡ last / 16
    → first ≤ last
    → Written s e first last mask
    → Selects first last mask
unfolding word
Written-Selects {mask} s e first last hs he order written = record {
  six = written.0;
  exact = λ channel in_range. ground (
    arith,
    written.1 (channel / 16),
    bit-bits_between (first % 16) (last % 16) (channel % 16),
    bit-bits_between (first % 16) 15 (channel % 16),
    bit-bits_between 0 (last % 16) (channel % 16),
    bit-full (channel % 16),
    bit-zero (channel % 16),
  );
}

-- With six rounds of fuel the mask of the channels `first` to `last` is written, if these are in
-- order and the last is below 96: all other channels are off, whatever the mask was.
pub read_hannel-Selects :
    (fuel : ℕ) (mask : List ℕ) (first last : ℕ)
    → 6 ≤ fuel
    → first ≤ last
    → last < 96
    → (mask' : List ℕ) × (read_hannel fuel mask first last ≡ some (done mask'))
      × Selects first last mask'
unfolding read_hannel
read_hannel-Selects fuel mask first last fuelled order small =
    elim (Bool-cases (first / 16 == last / 16)) [
      | inl one ↦
          let same : first / 16 ≡ last / 16 = (==_iff (first / 16) (last / 16)).0 one in
          let w = write_mask-one (last / 16) first last (omega arith) in
          (
            w.0,
            ground (arith, w.1, same, starts, ends),
            Written-Selects (last / 16) (last / 16) first last (sym same) refl order w.2,
          )
      | inr more ↦
          let w =
            write_mask-more (first / 16) (last / 16) first last (ground arith) (omega arith) in
          (
            w.0,
            ground (arith, w.1, starts, ends),
            Written-Selects (first / 16) (last / 16) first last refl refl order w.2,
          )
    ]
  where
    starts : interval_loop fuel first 16 0 ≡ some (first / 16)
    starts = interval_loop-eq fuel first 0 (omega arith) (omega arith) (omega arith)

    ends : interval_loop fuel last 16 0 ≡ some (last / 16)
    ends = interval_loop-eq fuel last 0 (omega arith) (omega arith) (omega arith)

store-fault : (mask : List ℕ) (i v : ℕ) → length mask ≤ i → store mask i v ≡ fault
store-fault mask i v h = ground arith

write_mask-fault :
    (s e first last : ℕ) → s ≤ e → 6 ≤ e → write_mask s e first last (replicate 6 0) ≡ fault
unfolding write_mask
write_mask-fault s e first last order high =
    let zeros : List ℕ = replicate 6 0 in
    let low = bits_between (first % 16) 15 in ground (arith, length-set zeros s low)

-- A last channel from 96 to 4095 stores outside the six words, with a first channel at or below it
-- and fuel for the search of the word.
pub read_hannel-fault :
    (fuel : ℕ) (mask : List ℕ) (first last : ℕ)
    → 256 ≤ fuel
    → first ≤ last
    → 96 ≤ last
    → last < 4096
    → read_hannel fuel mask first last ≡ some fault
unfolding read_hannel
read_hannel-fault fuel mask first last fuelled order high small = ground (
  arith,
  interval_loop-eq fuel first 0 (omega arith) (omega arith) (omega arith),
  interval_loop-eq fuel last 0 (omega arith) (omega arith) (omega arith),
  write_mask-fault (first / 16) (last / 16) first last (omega arith) (omega arith),
)

-- From a last channel of 4096 on no fuel is enough: the function does not return.
pub read_hannel-diverges :
    (fuel : ℕ) (mask : List ℕ) (first last : ℕ)
    → first ≤ last
    → 4096 ≤ last
    → read_hannel fuel mask first last ≡ none
unfolding read_hannel
read_hannel-diverges fuel mask first last order high =
    let stuck = interval_loop-diverges fuel last 0 high (omega arith) in
    elim (Option-cases (interval_loop fuel first 16 0)) [
      | inl out ↦ ground arith
      | inr found ↦ ground arith
    ]

-- Channels in the wrong order leave the mask as it was.
pub read_hannel_disorder :
    (fuel : ℕ) (mask : List ℕ) (first last : ℕ)
    → last < first
    → read_hannel fuel mask first last ≡ some (done mask)
unfolding read_hannel
read_hannel_disorder fuel mask first last h = ground arith

-- ===== src/Channels.antt =====
-- `read_hannel` of project/main/main.c: the mask of the channels from `start_ch_num` to
-- `end_ch_num`, 16 channels to a word of `userChannelsMask`.
-- The two `while` loops take fuel: `none` says that it ran out. A store outside the six words is a
-- fault. Both arguments are uint16_t.
pub mod Words
pub mod Mask
mod Tests
use sufficient_io_t_applicat.Base.{
  ℕ, zero, suc, ◌+◌, ◌-◌, ◌*◌, ◌%◌, ◌^◌, Option, none, some, List, ltb, leb, ◌==◌, if◌then◌else◌,
  replicate, Access, done, ◌>>=◌, store,
}

-- `while (temp <= channel)`: `index` is a uint8_t, and `temp` a uint16_t.
unfoldable pub interval_loop : ℕ → ℕ → ℕ → ℕ → Option ℕ
interval_loop zero channel temp index = none
interval_loop (suc fuel) channel temp index =
    let next : ℕ = (index + 1) % 2 ^ 8 in
    let rest = interval_loop fuel channel (16 * (next + 1) % 2 ^ 16) next in
    if leb temp channel then rest else some index

-- `for (i = …; …; i++) temp += (1 << i)`, with the rounds that are left; `temp` is a uint16_t.
unfoldable pub sum_loop : ℕ → ℕ → ℕ → ℕ
sum_loop zero i temp = temp
sum_loop (suc left) i temp = sum_loop left (i + 1) ((temp + 2 ^ i) % 2 ^ 16)

-- The bits `first` to `last`.
unfoldable pub bits_between : ℕ → ℕ → ℕ
unfolding sum_loop
bits_between first last = sum_loop (last + 1 - first) first 0

-- `while (count < end_interval)`, with the rounds that are left. `count` stays at most
-- `end_interval`, a uint8_t, so its increment does not wrap.
unfoldable pub fill_loop : ℕ → ℕ → List ℕ → Access (List ℕ)
fill_loop zero count mask = done mask
fill_loop (suc left) count mask = store mask count 0xFFFF >>= fill_loop left (count + 1)

-- What follows the two `while` loops, on the cleared mask.
unfoldable pub write_mask : ℕ → ℕ → ℕ → ℕ → List ℕ → Access (List ℕ)
unfolding bits_between fill_loop
write_mask start_interval end_interval start_ch_num end_ch_num mask =
    if start_interval == end_interval
    then store mask start_interval (bits_between (start_ch_num % 16) (end_ch_num % 16))
    else (do
      mask' ← store mask start_interval (bits_between (start_ch_num % 16) 15)
      mask'' ← store mask' end_interval (bits_between 0 (end_ch_num % 16))
      fill_loop (end_interval - (start_interval + 1)) (start_interval + 1) mask'')

-- A start above the end is reported, and leaves the mask alone.
unfoldable pub read_hannel : ℕ → List ℕ → ℕ → ℕ → Option (Access (List ℕ))
unfolding interval_loop write_mask
read_hannel fuel mask start_ch_num end_ch_num =
    if ltb end_ch_num start_ch_num
    then some (done mask)
    else elim (interval_loop fuel start_ch_num 16 0) [
      | none ↦ none
      | some start_interval ↦ elim (interval_loop fuel end_ch_num 16 0) [
        | none ↦ none
        | some end_interval ↦
            some (write_mask start_interval end_interval start_ch_num end_ch_num (replicate 6 0))
      ]
    ]

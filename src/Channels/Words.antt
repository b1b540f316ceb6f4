-- ===== src/Channels/Words.antt =====
-- The loops of `read_hannel`: the interval of a channel, and the bits of a word.
use sufficient_io_t_applicat.Base.{
  ℕ, zero, suc, ◌+◌, ◌*◌, ◌/◌, ◌%◌, ◌^◌, ◌≤◌, ◌<◌, ◌≡◌, refl, sym, ◌∙◌, inl, inr, Bool, true, false,
  ◌&&◌, not, none, some, List, arith, ltb, leb, ◌==◌, if◌then◌else◌, Bool-cases, holds_under,
  holds_under→, length, get_or, set, length-set, get_or-set_self, get_or-set_ne, done,
}
use sufficient_io_t_applicat.Channels.{interval_loop, bits_between, fill_loop}

-- Up to channel 4095 the loop ends with the word of the channel.
pub interval_loop-eq :
    (fuel channel index : ℕ)
    → channel < 4096
    → index ≤ channel / 16
    → channel / 16 < index + fuel
    → interval_loop fuel channel (16 * (index + 1)) index ≡ some (channel / 16)
unfolding interval_loop
interval_loop-eq zero channel index small below fuelled = absurd (omega arith)
interval_loop-eq (suc fuel) channel index small below fuelled =
    elim (Bool-cases (leb (16 * (index + 1)) channel)) [
      | inl more ↦ ground (arith, interval_loop-eq fuel channel (index + 1))
      | inr last ↦ ground arith
    ]

-- From channel 4096 on the uint8_t counter wraps, and the loop does not end.
pub interval_loop-diverges :
    (fuel channel index : ℕ)
    → 4096 ≤ channel
    → index < 256
    → interval_loop fuel channel (16 * (index + 1)) index ≡ none
unfolding interval_loop
interval_loop-diverges zero channel index big byte = refl
interval_loop-diverges (suc fuel) channel index big byte =
    ground (arith, interval_loop-diverges fuel channel ((index + 1) % 2 ^ 8))

abbrev pub bit : ℕ → ℕ → Bool
bit word i = word / 2 ^ i % 2 == 1

abbrev same : Bool → Bool → Bool
same true b = b
same false b = not b

bits_between_table :
    holds_under 16 (λ first. holds_under 16 (λ last.
      holds_under 16 (λ i. same (bit (bits_between first last) i) (leb first i && leb i last))))
    ≡ true
unfolding holds_under bits_between
bits_between_table = refl

same→≡ : (a b : Bool) → same a b ≡ true → a ≡ b
same→≡ true b h = sym h
same→≡ false true h = h
same→≡ false false h = refl

-- The sum of powers has exactly the bits from `first` to `last`.
pub bit-bits_between :
    (first last i : ℕ)
    → first < 16
    → last < 16
    → i < 16
    → bit (bits_between first last) i ≡ (leb first i && leb i last)
bit-bits_between first last i hf hl hi =
    same→≡ _ _
      (holds_under→ 16 _ hi (holds_under→ 16 _ hl (holds_under→ 16 _ hf bits_between_table)))

full_table : holds_under 16 (bit 0xFFFF) ≡ true
unfolding holds_under
full_table = refl

pub bit-full : (i : ℕ) → i < 16 → bit 0xFFFF i ≡ true
bit-full i h = holds_under→ 16 (bit 0xFFFF) h full_table

-- The words from `count` on are filled, and the others stay.
pub fill_loop-eq :
    (left count : ℕ) (mask : List ℕ)
    → count + left ≤ length mask
    → (filled : List ℕ) × (fill_loop left count mask ≡ done filled)
      × (length filled ≡ length mask)
      × ((j : ℕ)
          → get_or filled j 0
            ≡ (if leb count j && ltb j (count + left) then 0xFFFF else get_or mask j 0))
unfolding fill_loop
fill_loop-eq zero count mask room = (mask, refl, refl, λ j. ground arith)
fill_loop-eq (suc left) count mask room =
    let rest =
      fill_loop-eq left (count + 1) (set mask count 0xFFFF) (rw length-set (omega arith)) in
    (
      rest.0,
      ground (arith, rest.1, length-set mask count 0xFFFF),
      rest.2 ∙ length-set mask count 0xFFFF,
      λ j. ground (
        arith,
        rest.3 j,
        get_or-set_self mask count 0xFFFF 0,
        get_or-set_ne mask count j 0xFFFF 0,
      ),
    )

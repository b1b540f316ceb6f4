-- ===== src/Modem/Fsk/Bandwidths.antt =====
-- Which bandwidths the search of functional_module/lora/radio/radio.c finds.
use mathlib.Core.List.{Memᴰ}
use mathlib.Core.List.Memᴰ.{head, tail, not-nil}
use sufficient_io_t_applicat.Base.{
  ℕ, ◌≤◌, ◌<◌, ◌≡◌, refl, true, Bool, Bool-cases, inl, inr, ◌⊎◌, ◌&&◌, List, [], ◌==◌, ◌||◌, leb,
  ap, ◌∷◌, arith, ltb, done, fault,
}
use sufficient_io_t_applicat.Modem.Fsk.{fsk_bandwidths, search_rows, fsk_bandwidth_value}

-- The bandwidths rise from `low` on.
abbrev rising : ℕ → List (ℕ × ℕ) → Bool
rising low [] = true
rising low ((high, value) ∷ rows) = ltb low high && rising high rows

abbrev last_of : ℕ → List (ℕ × ℕ) → ℕ
last_of low [] = low
last_of low ((high, value) ∷ rows) = last_of high rows

above :
    (rows : List (ℕ × ℕ)) (low : ℕ) {row : ℕ × ℕ}
    → rising low rows ≡ true
    → Memᴰ row rows
    → low < row.0
above [] low up within = absurd (not-nil within)
above ((high, value) ∷ rows) low up (head same) = ground (arith, up, ap (λ r. r.0) same)
above ((high, value) ∷ rows) low up (tail further) =
    ground (arith, up, above rows high (ground (arith, up)) further)

-- The row of the least bandwidth above `wanted`.
pub record IsLeast (wanted : ℕ) (rows : List (ℕ × ℕ)) (found : ℕ × ℕ) : Type 0 where
  pub member : Memᴰ found rows
  pub wider : wanted < found.0
  pub least : (row : ℕ × ℕ) → Memᴰ row rows → wanted < row.0 → found.0 ≤ row.0

-- A row of a table that rises has no less than its first bandwidth.
first-least :
    (rows : List (ℕ × ℕ)) (high value : ℕ) {row : ℕ × ℕ}
    → rising high rows ≡ true
    → Memᴰ row ((high, value) ∷ rows)
    → high ≤ row.0
first-least rows high value up (head same) = omega (arith, ap (λ r. r.0) same)
first-least rows high value up (tail further) = omega (arith, above rows high up further)

-- A row above `wanted` stands behind a first row that is not.
later :
    {rows : List (ℕ × ℕ)} {high value wanted : ℕ} {row : ℕ × ℕ}
    → high ≤ wanted
    → wanted < row.0
    → Memᴰ row ((high, value) ∷ rows)
    → Memᴰ row rows
later low over (head same) = absurd (omega (arith, ap (λ r. r.0) same))
later low over (tail further) = further

further-IsLeast :
    {rows : List (ℕ × ℕ)} {high value wanted : ℕ} {found : ℕ × ℕ}
    → high ≤ wanted
    → IsLeast wanted rows found
    → IsLeast wanted ((high, value) ∷ rows) found
further-IsLeast low right = record {
  member = tail right.member;
  wider = right.wider;
  least = λ row m over. right.least row (later low over m) over;
}

search_rows-IsLeast :
    (rows : List (ℕ × ℕ)) (low wanted : ℕ)
    → rising low rows ≡ true
    → low ≤ wanted
    → wanted < last_of low rows
    → (found : ℕ × ℕ) × (search_rows wanted low rows ≡ done found.1) × IsLeast wanted rows found
unfolding search_rows
search_rows-IsLeast [] low wanted up from_low below = absurd (omega arith)
search_rows-IsLeast ((high, value) ∷ rows) low wanted up from_low below =
    elim (Bool-cases (ltb wanted high)) [
      | inl e ↦ (
        (high, value),
        ground (arith, e),
        record {
          member = head refl;
          wider = ground (arith, e);
          least = λ row m over. first-least rows high value (ground (arith, up)) m;
        },
      )
      | inr e ↦
          let (found, runs, right) =
            search_rows-IsLeast rows high wanted (ground (arith, up)) (ground (arith, e)) below in
          (found, ground (arith, e, runs), further-IsLeast (ground (arith, e)) right)
    ]

last_of-above : (rows : List (ℕ × ℕ)) (low : ℕ) → rising low rows ≡ true → low ≤ last_of low rows
last_of-above [] low up = omega arith
last_of-above ((high, value) ∷ rows) low up =
    ground (arith, up, last_of-above rows high (ground (arith, up)))

search_rows-stuck :
    (rows : List (ℕ × ℕ)) (low wanted : ℕ)
    → rising low rows ≡ true
    → (wanted < low) ⊎ (last_of low rows ≤ wanted)
    → search_rows wanted low rows ≡ fault
unfolding search_rows
search_rows-stuck [] low wanted up out = refl
search_rows-stuck ((high, value) ∷ rows) low wanted up (inl below) =
    ground (
      arith,
      up,
      search_rows-stuck rows high wanted (ground (arith, up)) (inl (ground (arith, up))),
    )
search_rows-stuck ((high, value) ∷ rows) low wanted up (inr past) = ground (
  arith,
  up,
  past,
  search_rows-stuck rows high wanted (ground (arith, up)) (inr past),
  last_of-above rows high (ground (arith, up)),
)

abbrev other_rows : List (ℕ × ℕ)
other_rows = elim fsk_bandwidths [ [] ↦ [] | row ∷ rows ↦ rows ]

fsk_bandwidth_value-IsLeast :
    (wanted : ℕ)
    → 4800 ≤ wanted
    → wanted < 500000
    → (found : ℕ × ℕ) × (fsk_bandwidth_value wanted ≡ done found.1)
      × IsLeast wanted fsk_bandwidths found
unfolding fsk_bandwidth_value
fsk_bandwidth_value-IsLeast wanted some_width few =
    let (found, runs, right) = search_rows-IsLeast other_rows 4800 wanted refl some_width few in
    (found, ground (arith, runs), further-IsLeast some_width right)

-- What the search takes: no bandwidth, or one within the table.
abbrev pub has_row : ℕ → Bool
has_row wanted = wanted == 0 || (leb 4800 wanted && ltb wanted 500000)

pub fsk_bandwidth_value-Ends :
    (wanted : ℕ) → has_row wanted ≡ true → (value : ℕ) × (fsk_bandwidth_value wanted ≡ done value)
unfolding fsk_bandwidth_value
fsk_bandwidth_value-Ends wanted fit = elim (Bool-cases (wanted == 0)) [
  | inl none_asked ↦ (0x1F, ground (arith, none_asked))
  | inr asked ↦
      let (found, runs, right) =
        fsk_bandwidth_value-IsLeast wanted (ground (arith, asked, fit))
          (ground (arith, asked, fit)) in
      (found.1, runs)
]

fsk_bandwidth_value-stuck :
    (wanted : ℕ)
    → 0 < wanted
    → (wanted < 4800) ⊎ (500000 ≤ wanted)
    → fsk_bandwidth_value wanted ≡ fault
unfolding fsk_bandwidth_value
fsk_bandwidth_value-stuck wanted some_width out =
    ground (arith, search_rows-stuck other_rows 4800 wanted refl out)

-- Asked for a bandwidth other than 0, RadioGetFskBandwidthRegValue gives the value of the row of
-- the least bandwidth above it, from 4800 Hz to below 500000 Hz, and never returns outside that
-- range.
pub fsk_bandwidth_value_lem :
    (wanted : ℕ)
    → 0 < wanted
    → ((found : ℕ × ℕ) × (fsk_bandwidth_value wanted ≡ done found.1)
        × IsLeast wanted fsk_bandwidths found
        × (4800 ≤ wanted)
        × (wanted < 500000))
      ⊎ ((fsk_bandwidth_value wanted ≡ fault) × ((wanted < 4800) ⊎ (500000 ≤ wanted)))
fsk_bandwidth_value_lem wanted some_width = elim (Bool-cases (ltb wanted 4800)) [
  | inl e ↦
      let low : wanted < 4800 = ground (arith, e) in
      inr (fsk_bandwidth_value-stuck wanted some_width (inl low), inl low)
  | inr e ↦ elim (Bool-cases (ltb wanted 500000)) [
    | inl e' ↦
        let (found, runs, right) =
          fsk_bandwidth_value-IsLeast wanted (ground (arith, e)) (ground (arith, e')) in
        inl (found, runs, right, ground (arith, e), ground (arith, e'))
    | inr e' ↦
        let high : 500000 ≤ wanted = ground (arith, e') in
        inr (fsk_bandwidth_value-stuck wanted some_width (inr high), inr high)
  ]
]

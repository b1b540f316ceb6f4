-- ===== src/Gpio/Numbers.antt =====
-- An int that is printed is read back.
use sufficient_io_t_applicat.Base.{
  length, ◌≤◌, ℕ, zero, suc, ◌+◌, ◌*◌, ◌/◌, ◌%◌, ◌^◌, ◌<◌, ◌≡◌, refl, sym, ap, ◌∙◌, inl, inr, true,
  false, List, [], ◌∷◌, ◌++◌, arith, ltb, ltb→lt, Bool-cases, ℤ, pos, negsuc, pos_part, neg_part,
  sub_ℕ,
}
use sufficient_io_t_applicat.Gpio.{digits, print_int, is_digit, scan_digits, is_space, atoi}

-- The numbers of so many digits lie below it.
limit : ℕ → ℕ
limit zero = 1
limit (suc fuel) = 10 * limit fuel

digits-append :
    (fuel n : ℕ) (acc rest : List ℕ) → digits fuel n acc ++ rest ≡ digits fuel n (acc ++ rest)
unfolding digits
digits-append zero n acc rest = refl
digits-append (suc fuel) n acc rest =
    ground (arith, digits-append fuel (n / 10) ((b'0' + n % 10) ∷ acc) rest)

is_digit_of_small : (d : ℕ) → d < 10 → is_digit (b'0' + d) ≡ true
unfolding is_digit
is_digit_of_small d small = ground arith

scan_digits-digits :
    (fuel n : ℕ) (acc : List ℕ)
    → n < limit fuel
    → scan_digits (digits fuel n acc) 0 ≡ scan_digits acc n
unfolding digits scan_digits limit
scan_digits-digits zero n acc small = ground arith
scan_digits-digits (suc fuel) n acc small = elim (Bool-cases (ltb n 10)) [
  | inl last ↦ ground (arith, is_digit_of_small n (ltb→lt n 10 last))
  | inr more ↦ ground (
    arith,
    scan_digits-digits fuel (n / 10) ((b'0' + n % 10) ∷ acc) (omega arith),
    is_digit_of_small (n % 10) (omega arith),
  )
]

-- A digit stands in front.
digits-head :
    (fuel n : ℕ) (acc : List ℕ)
    → (c : ℕ) × (text : List ℕ) × (digits (suc fuel) n acc ≡ c ∷ text) × (is_digit c ≡ true)
unfolding digits
digits-head zero n acc = elim (Bool-cases (ltb n 10)) [
  | inl last ↦ (b'0' + n, acc, ground arith, is_digit_of_small n (ltb→lt n 10 last))
  | inr more ↦ (b'0' + n % 10, acc, ground arith, is_digit_of_small (n % 10) (omega arith))
]
digits-head (suc fuel) n acc = elim (Bool-cases (ltb n 10)) [
  | inl last ↦ (b'0' + n, acc, ground arith, is_digit_of_small n (ltb→lt n 10 last))
  | inr more ↦
      let (c, text, e, good) = digits-head fuel (n / 10) ((b'0' + n % 10) ∷ acc) in
      (c, text, rw more e, good)
]

atoi-unsigned :
    (c : ℕ) (text : List ℕ) → is_digit c ≡ true → atoi (c ∷ text) ≡ pos (scan_digits (c ∷ text) 0)
unfolding atoi is_digit is_space
atoi-unsigned c text good = ground arith

scan_digits-stop :
    (c : ℕ) (rest : List ℕ) (n : ℕ) → is_digit c ≡ false → scan_digits (c ∷ rest) n ≡ n
unfolding scan_digits
scan_digits-stop c rest n stop = ground arith

scan-printed :
    (n c : ℕ) (rest : List ℕ)
    → n < 10 ^ 10
    → is_digit c ≡ false
    → scan_digits (digits 10 n (c ∷ rest)) 0 ≡ n
unfolding limit
scan-printed n c rest small stop =
    scan_digits-digits 10 n (c ∷ rest) (omega arith) ∙ scan_digits-stop c rest n stop

atoi-negative : (text : List ℕ) → atoi (b'-' ∷ text) ≡ sub_ℕ 0 (scan_digits text 0)
unfolding atoi is_space
atoi-negative text = refl

-- A number of at most ten digits, with its sign, that is printed is read back by atoi if no digit
-- follows it.
pub atoi-print_int :
    (z : ℤ) (c : ℕ) (rest : List ℕ)
    → pos_part z < 10 ^ 10
    → neg_part z < 10 ^ 10
    → is_digit c ≡ false
    → atoi (print_int z ++ (c ∷ rest)) ≡ z
unfolding print_int
atoi-print_int (pos n) c rest small _ stop =
    let (h, text, e, good) = digits-head 9 n (c ∷ rest) in
    ap atoi (digits-append 10 n [] (c ∷ rest) ∙ e)
    ∙ atoi-unsigned h text good
    ∙ ap pos (ap (λ (t : List ℕ). scan_digits t 0) (sym e) ∙ scan-printed n c rest small stop)
atoi-print_int (negsuc n) c rest _ small stop =
    ap atoi (ap (◌∷◌ b'-') (digits-append 10 (suc n) [] (c ∷ rest)))
    ∙ atoi-negative (digits 10 (suc n) (c ∷ rest))
    ∙ ap (sub_ℕ 0) (scan-printed (suc n) c rest small stop)
    ∙ ground arith

digits-length : (fuel n : ℕ) (acc : List ℕ) → length (digits fuel n acc) ≤ fuel + length acc
unfolding digits
digits-length zero n acc = omega arith
digits-length (suc fuel) n acc = ground (arith, digits-length fuel (n / 10) ((b'0' + n % 10) ∷ acc))

pub print_int-length : (z : ℤ) → length (print_int z) ≤ 11
unfolding print_int
print_int-length (pos n) = omega (arith, digits-length 10 n [])
print_int-length (negsuc n) = omega (arith, digits-length 10 (suc n) [])

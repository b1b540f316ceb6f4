-- ===== src/License/Tests.antt =====
-- The licence of config.ini, and a shorter one.
use sufficient_io_t_applicat.Base.{
  ℕ, ◌≡◌, refl, some, List, [], ◌∷◌, arith, replicate, done, fault, decimal, capital, lowercase,
}
use sufficient_io_t_applicat.License.{read_license}
use sufficient_io_t_applicat.License.Words.{empty, next}
use sufficient_io_t_applicat.License.Texts.{IsLicense, last, more, read_license_lem}

-- 0x1F,0xa
abbrev short : List ℕ
short = b'0' ∷ b'x' ∷ b'1' ∷ b'F' ∷ b',' ∷ b'0' ∷ b'x' ∷ b'a' ∷ []

read_short : read_license short (0 ∷ 0 ∷ 0 ∷ 0 ∷ []) ≡ some (done (0x1F ∷ 0xA ∷ 0 ∷ 0 ∷ []))
unfolding read_license
read_short = refl

-- Nine digits shift by a negative number.
too_long : read_license (b'0' ∷ b'x' ∷ replicate 9 b'1') (0 ∷ 0 ∷ 0 ∷ 0 ∷ []) ≡ some fault
unfolding read_license
too_long = refl

short-IsLicense : IsLicense short (0x1F ∷ 0xA ∷ [])
short-IsLicense =
    more
      (next {d = 1} (decimal refl (omega arith))
        (next {d = 15} (capital refl (omega arith) (omega arith)) empty))
      (omega arith) (omega arith)
      (last (next {d = 10} (lowercase refl (omega arith) (omega arith)) empty) (omega arith)
        (omega arith))

read_license_lem_example :
    read_license short (0 ∷ 0 ∷ 0 ∷ 0 ∷ []) ≡ some (done (0x1F ∷ 0xA ∷ 0 ∷ 0 ∷ []))
read_license_lem_example = read_license_lem (0 ∷ 0 ∷ []) short-IsLicense

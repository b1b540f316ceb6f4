-- ===== src/Base/Memory.antt =====
-- Memory accesses of C code: a value, or a fault where an access leaves its array. C leaves what
-- follows such an access undefined, so a fault ends the computation.
use Prim.Native.Nat.{ℕ, ◌<◌}
use mathlib.Core.Path.{◌≡◌, refl}
use mathlib.Core.Logic.{◌⊎◌, inl, inr}
use mathlib.Core.List.{List, ◌∷◌, ◌++◌}
use mathlib.Core.Option.{Option, none, some}
use native.Mathlib.Omega.{arith}
use sufficient_io_t_applicat.Base.Tests.{ltb, if◌then◌else◌}
use sufficient_io_t_applicat.Base.Lists.{length, get_elem?, set, length-append, set-append}

pub data Access {ℓ} (A : Type ℓ) : Type ℓ where
  done : A → Access A
  fault : Access A

infixl 5 ◌>>=◌
abbrev pub ◌>>=◌ {ℓ κ} : {A : Type ℓ} {B : Type κ} → Access A → (A → Access B) → Access B
done a >>= f = f a
fault >>= f = fault

abbrev pub of_option {ℓ} : {A : Type ℓ} → Option A → Access A
of_option none = fault
of_option (some a) = done a

-- `xs[i]`
abbrev pub load {ℓ} : {A : Type ℓ} → List A → ℕ → Access A
load xs i = of_option (get_elem? xs i)

-- `xs[i] = v`
abbrev pub store {ℓ} : {A : Type ℓ} → List A → ℕ → A → Access (List A)
store xs i v = if ltb i (length xs) then done (set xs i v) else fault

pub store-eq-set : (xs : List ℕ) (i v : ℕ) → i < length xs → store xs i v ≡ done (set xs i v)
store-eq-set xs i v h = ground arith

pub store-append :
    (pre rest : List ℕ) (x v : ℕ)
    → store (pre ++ (x ∷ rest)) (length pre) v ≡ done (pre ++ (v ∷ rest))
store-append pre rest x v = ground (arith, length-append pre (x ∷ rest), set-append pre rest x v)

pub Access-cases {ℓ} : {A : Type ℓ} (m : Access A) → (m ≡ fault) ⊎ ((a : A) × (m ≡ done a))
Access-cases fault = inl refl
Access-cases (done a) = inr (a, refl)

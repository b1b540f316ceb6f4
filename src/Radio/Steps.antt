-- ===== src/Radio/Steps.antt =====
-- A logic for steps on a state: from which states a step ends, and in which.
use sufficient_io_t_applicat.Base.{◌≡◌, refl, Bool, true, false, arith, done}
use sufficient_io_t_applicat.Radio.{Step, ◌>>=◌, pure, PacketType, gfsk, lora, no_packet}
use sufficient_io_t_applicat.Radio.Commands.{get}

-- From each state of `P` the step ends, with a result and a state of `Q`.
pub record Takes {S A : Type 0} (P : S → Type 0) (m : Step S A) (Q : A → S → Type 0) : Type 0 where
  pub ends : (r : S) → P r → (a : A) × (next : S) × (m r ≡ done (a, next)) × Q a next

module _ {S A : Type 0} {P : S → Type 0} {Q : A → S → Type 0} where
  pub bind :
      {B : Type 0} {R : B → S → Type 0} {m : Step S A} {f : A → Step S B}
      → Takes P m Q
      → ((a : A) → Takes (Q a) (f a) R)
      → Takes P (m >>= f) R
  bind first next = record {
    ends = λ r p.
        let (a, s, runs, q) = first.ends r p in
        let (b, t, goes_on, good) = (next a).ends s q in
        (b, t, ground (arith, runs, goes_on), good);
  }

  pub weaken :
      {R : A → S → Type 0} {m : Step S A}
      → ((a : A) (r : S) → Q a r → R a r)
      → Takes P m Q
      → Takes P m R
  weaken weaker t = record {
    ends = λ r p. let (a, s, runs, q) = t.ends r p in (a, s, runs, weaker a s q);
  }

  pub strengthen :
      {R : S → Type 0} {m : Step S A} → ((r : S) → R r → P r) → Takes P m Q → Takes R m Q
  strengthen stronger t = record { ends = λ r p. t.ends r (stronger r p) }

pub pure-Takes : {S A : Type 0} {Q : A → S → Type 0} (a : A) → Takes (Q a) (pure a) Q
pure-Takes a = record { ends = λ r q. (a, r, refl, q) }

pub by_packet-Takes :
    {S A : Type 0} {P : S → Type 0} {Q : A → S → Type 0} {g l n : Step S A} (kind : PacketType)
    → Takes P g Q
    → Takes P l Q
    → Takes P n Q
    → Takes P (elim kind [ gfsk ↦ g | lora ↦ l | no_packet ↦ n ]) Q
by_packet-Takes gfsk of_gfsk of_lora of_none = of_gfsk
by_packet-Takes lora of_gfsk of_lora of_none = of_lora
by_packet-Takes no_packet of_gfsk of_lora of_none = of_none

pub by_test-Takes :
    {S A : Type 0} {P : S → Type 0} {Q : A → S → Type 0} {m n : Step S A} (b : Bool)
    → Takes P m Q
    → Takes P n Q
    → Takes P (elim b [ true ↦ m | false ↦ n ]) Q
by_test-Takes true of_true of_false = of_true
by_test-Takes false of_true of_false = of_false

pub by_case-Takes :
    {S A : Type 0} {P : S → Type 0} {Q : A → S → Type 0} {m n : Step S A} (b : Bool)
    → (b ≡ true → Takes P m Q)
    → (b ≡ false → Takes P n Q)
    → Takes P (elim b [ true ↦ m | false ↦ n ]) Q
by_case-Takes true of_true of_false = of_true refl
by_case-Takes false of_true of_false = of_false refl

pub get-Takes : {S : Type 0} {P : S → Type 0} → Takes P get (λ _. P)
get-Takes = record { ends = λ r p. (r, r, refl, p) }

-- A step that looks at the state first.
pub by_state-Takes :
    {S A : Type 0} {P : S → Type 0} {Q : A → S → Type 0} {f : S → Step S A}
    → ((r : S) → P r → Takes P (f r) Q)
    → Takes P (get >>= f) Q
by_state-Takes t = record { ends = λ r p. (t r p).ends r p }

-- ===== src/Rtu/Client/Connect/Users.antt =====
-- How many contexts use a bus.
use modbus_protocol.Prelude.{
  ℕ, zero, suc, ◌+◌, ◌≤◌, ◌≡◌, refl, arith, Option, none, some, List, [], ◌∷◌, length, All,
  get_elem?, set, ◌==◌, if◌then◌else◌,
}
use modbus_protocol.Rtu.Client.{RtuClientCtx}

abbrev pub points : ℕ → Option ℕ → ℕ
points a none = 0
points a (some b) = if b == a then 1 else 0

abbrev pub uses : ℕ → RtuClientCtx → ℕ
uses a c = points a c.shared_bus

pub users : List RtuClientCtx → ℕ → ℕ
users [] a = 0
users (c ∷ cs) a = uses a c + users cs a

points-le : (a : ℕ) (o : Option ℕ) → points a o ≤ 1
points-le a none = omega arith
points-le a (some b) = ground arith

pub users-set :
    (cs : List RtuClientCtx) (i a : ℕ) (c c' : RtuClientCtx)
    → get_elem? cs i ≡ some c
    → users (set cs i c') a + uses a c ≡ users cs a + uses a c'
unfolding users
users-set [] i a c c' e = absurd (cc)
users-set (d ∷ cs) zero a c c' e = let is : uses a d ≡ uses a c = cc e in omega (arith, is)
users-set (d ∷ cs) (suc i) a c c' e = omega (arith, users-set cs i a c c' e)

pub users-le : (cs : List RtuClientCtx) (a : ℕ) → users cs a ≤ length cs
unfolding users
users-le [] a = omega arith
users-le (c ∷ cs) a = omega (arith, points-le a c.shared_bus, users-le cs a)

pub users-zero : (cs : List RtuClientCtx) (a : ℕ) → users cs a ≡ 0 → All (λ c. uses a c ≡ 0) cs
unfolding users
users-zero [] a e = tt
users-zero (c ∷ cs) a e = (omega arith, users-zero cs a (omega arith))

pub users-none : (cs : List RtuClientCtx) (a : ℕ) → All (λ c. uses a c ≡ 0) cs → users cs a ≡ 0
unfolding users
users-none [] a none_uses = refl
users-none (c ∷ cs) a (this, others) = omega (arith, users-none cs a others)

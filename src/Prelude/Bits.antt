-- ===== src/Prelude/Bits.antt =====
-- Digit equations of the bit operations at variables, and the laws of `|` that the framing uses.
use Prim.Native.Nat.{
  ℕ, zero, suc, ◌+◌, ◌*◌, ◌/◌, ◌%◌, ◌^◌, ◌≤◌, ◌<◌, max, bit_or, bit_xor, digits, differ,
  bit_or-bitwise, bit_xor-bitwise,
}
use mathlib.Core.Path.{◌≡◌, refl, sym, ap, ◌∙◌}
use native.Mathlib.Nat.{le_refl, pow-suc, pow-succ', div-div-eq-div-mul}
use native.Mathlib.Omega.{arith}
use modbus_protocol.Prelude.Tests.{◌==◌, if◌then◌else◌}

-- The fuel of the library's digit recursion is irrelevant once it covers the first argument.
module _ (f : ℕ → ℕ → ℕ) where
  abbrev run : ℕ → ℕ → ℕ → ℕ
  run n a b = digits (λ y. y) f n a b

  enough : (k a b : ℕ) → a ≤ k → run k a b ≡ run a a b
  enough k a b h = meet k a a b h (le_refl a)
    where
      meet : (n m a b : ℕ) → a ≤ n → a ≤ m → run n a b ≡ run m a b
      meet zero zero a b p q = refl
      meet zero (suc m) zero b p q = refl
      meet zero (suc m) (suc a) b p q = absurd (omega arith)
      meet (suc n) zero zero b p q = refl
      meet (suc n) zero (suc a) b p q = absurd (omega arith)
      meet (suc n) (suc m) zero b p q = refl
      meet (suc n) (suc m) (suc a) b p q =
          ap (λ (t : ℕ). t * 2 + f (suc a % 2) (b % 2))
            (meet n m (suc a / 2) (b / 2) (omega arith) (omega arith))

pub bit_or_digit : (a b : ℕ) → bit_or a b ≡ bit_or (a / 2) (b / 2) * 2 + max (a % 2) (b % 2)
bit_or_digit zero b = omega (arith, bit_or-bitwise 0 b, bit_or-bitwise 0 (b / 2))
bit_or_digit (suc a) b = omega (
  arith,
  bit_or-bitwise (suc a) b,
  bit_or-bitwise (suc a / 2) (b / 2),
  enough max a (suc a / 2) (b / 2) (omega arith),
)

differ_lem : (x y : ℕ) → x < 2 → y < 2 → differ x y ≡ (x + y) % 2
differ_lem zero y hx hy = omega arith
differ_lem (suc zero) zero hx hy = refl
differ_lem (suc zero) (suc zero) hx hy = refl
differ_lem (suc zero) (suc (suc y)) hx hy = absurd (omega arith)
differ_lem (suc (suc x)) y hx hy = absurd (omega arith)

pub bit_xor_digit : (a b : ℕ) → bit_xor a b ≡ bit_xor (a / 2) (b / 2) * 2 + (a % 2 + b % 2) % 2
bit_xor_digit zero b = omega (arith, bit_xor-bitwise 0 b, bit_xor-bitwise 0 (b / 2))
bit_xor_digit (suc a) b = omega (
  arith,
  bit_xor-bitwise (suc a) b,
  bit_xor-bitwise (suc a / 2) (b / 2),
  enough differ a (suc a / 2) (b / 2) (omega arith),
  differ_lem (suc a % 2) (b % 2) (omega arith) (omega arith),
)

-- `x * 2 ^ suc k` is twice `x * 2 ^ k`.
pub mul-pow-suc : (q k : ℕ) → q * 2 ^ suc k ≡ 2 * (q * 2 ^ k)
mul-pow-suc q k = omega (arith, ap (λ (t : ℕ). q * t) (pow-suc 2 k))

zero-bit_or : (b : ℕ) → bit_or 0 b ≡ b
zero-bit_or b = bit_or-bitwise 0 b

bit_or-zero_below : (n a : ℕ) → a ≤ n → bit_or a 0 ≡ a
bit_or-zero_below n zero h = zero-bit_or 0
bit_or-zero_below zero (suc a) h = absurd (omega arith)
bit_or-zero_below (suc n) (suc a) h =
    omega (arith, bit_or_digit (suc a) 0, bit_or-zero_below n (suc a / 2) (omega arith))

pub bit_or-zero : (a : ℕ) → bit_or a 0 ≡ a
bit_or-zero a = bit_or-zero_below a a (le_refl a)

-- `|` of a shifted field and a field below it is a sum.
pub bit_or_high : (k q r : ℕ) → r < 2 ^ k → bit_or (q * 2 ^ k) r ≡ q * 2 ^ k + r
bit_or_high zero q r h = ground (arith, bit_or-zero q)
bit_or_high (suc k) q r h = omega (
  arith,
  bit_or_digit (q * 2 ^ suc k) r,
  mul-pow-suc q k,
  pow-suc 2 k,
  ap (λ (t : ℕ). bit_or t (r / 2)) halved,
  bit_or_high k q (r / 2) (omega (arith, pow-suc 2 k)),
)
  where
    halved : q * 2 ^ suc k / 2 ≡ q * 2 ^ k
    halved = omega (arith, mul-pow-suc q k)

pub bit_or_low : (k q r : ℕ) → r < 2 ^ k → bit_or r (q * 2 ^ k) ≡ q * 2 ^ k + r
bit_or_low zero q r h = ground (arith, zero-bit_or q)
bit_or_low (suc k) q r h = omega (
  arith,
  bit_or_digit r (q * 2 ^ suc k),
  mul-pow-suc q k,
  ap (λ (t : ℕ). bit_or (r / 2) t) halved,
  bit_or_low k q (r / 2) (omega (arith, pow-suc 2 k)),
)
  where
    halved : q * 2 ^ suc k / 2 ≡ q * 2 ^ k
    halved = omega (arith, mul-pow-suc q k)

-- `(x >> m) & 1`
unfoldable pub bit_at : ℕ → ℕ → ℕ
bit_at x zero = x % 2
bit_at x (suc m) = bit_at (x / 2) m

pub bit_at_lem : (m x : ℕ) → bit_at x m ≡ x / 2 ^ m % 2
unfolding bit_at
bit_at_lem zero x = omega arith
bit_at_lem (suc m) x =
    bit_at_lem m (x / 2)
    ∙ ap (λ (t : ℕ). t % 2)
        (div-div-eq-div-mul x 2 (2 ^ m) ∙ ap (λ (d : ℕ). x / d) (sym (pow-succ' 2 m)))

pub bit_at-lt : (m x : ℕ) → bit_at x m < 2
unfolding bit_at
bit_at-lt zero x = omega arith
bit_at-lt (suc m) x = bit_at-lt m (x / 2)

pub bit_at-bit_or : (m a b : ℕ) → bit_at (bit_or a b) m ≡ max (bit_at a m) (bit_at b m)
unfolding bit_at
bit_at-bit_or zero a b = omega (arith, bit_or_digit a b)
bit_at-bit_or (suc m) a b = ap (λ (t : ℕ). bit_at t m) halved ∙ bit_at-bit_or m (a / 2) (b / 2)
  where
    halved : bit_or a b / 2 ≡ bit_or (a / 2) (b / 2)
    halved = omega (arith, bit_or_digit a b)

pub bit_at-zero : (m : ℕ) → bit_at 0 m ≡ 0
unfolding bit_at
bit_at-zero zero = refl
bit_at-zero (suc m) = bit_at-zero m

pub bit_at-pow : (k m : ℕ) → bit_at (2 ^ k) m ≡ (if k == m then 1 else 0)
unfolding bit_at
bit_at-pow zero zero = refl
bit_at-pow zero (suc m) = ground (arith, bit_at-zero m)
bit_at-pow (suc k) zero = ground (arith, pow-suc 2 k)
bit_at-pow (suc k) (suc m) = ap (λ (t : ℕ). bit_at t m) halved ∙ ground (arith, bit_at-pow k m)
  where
    halved : 2 ^ suc k / 2 ≡ 2 ^ k
    halved = omega (arith, pow-suc 2 k)

pub bit_or-lt : (k a b : ℕ) → a < 2 ^ k → b < 2 ^ k → bit_or a b < 2 ^ k
bit_or-lt zero a b ha hb = ground (arith, bit_or_digit a b, bit_or-zero 0)
bit_or-lt (suc k) a b ha hb = omega (
  arith,
  pow-suc 2 k,
  bit_or_digit a b,
  bit_or-lt k (a / 2) (b / 2) (omega (arith, pow-suc 2 k)) (omega (arith, pow-suc 2 k)),
)

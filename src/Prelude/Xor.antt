-- ===== src/Prelude/Xor.antt =====
-- Laws of `^` on words: it is its own inverse, and it acts on fields separately.
use Prim.Native.Nat.{ℕ, zero, suc, ◌+◌, ◌*◌, ◌/◌, ◌%◌, ◌^◌, ◌≤◌, ◌<◌, bit_xor}
use mathlib.Core.Path.{◌≡◌, refl, sym, ap, ◌∙◌}
use native.Mathlib.Nat.{le_refl, pow-suc}
use native.Mathlib.Omega.{arith}
use modbus_protocol.Prelude.Bits.{bit_xor_digit, mul-pow-suc}

half-bit_xor : (a b : ℕ) → bit_xor a b / 2 ≡ bit_xor (a / 2) (b / 2)
half-bit_xor a b = omega (arith, bit_xor_digit a b)

undo_below : (n a b : ℕ) → a + b ≤ n → bit_xor (bit_xor a b) b ≡ a
undo_below zero zero zero h = refl
undo_below zero zero (suc b) h = absurd (omega arith)
undo_below zero (suc a) b h = absurd (omega arith)
undo_below (suc n) zero zero h = refl
undo_below (suc n) a b h = omega (
  arith,
  bit_xor_digit (bit_xor a b) b,
  bit_xor_digit a b,
  ap (λ (t : ℕ). bit_xor t (b / 2)) (half-bit_xor a b),
  undo_below n (a / 2) (b / 2) (omega arith),
)

-- `^` with the same word twice gives the first back.
pub bit_xor_undo : (a b : ℕ) → bit_xor (bit_xor a b) b ≡ a
bit_xor_undo a b = undo_below (a + b) a b (le_refl _)

comm_below : (n a b : ℕ) → a + b ≤ n → bit_xor a b ≡ bit_xor b a
comm_below zero zero zero h = refl
comm_below zero zero (suc b) h = absurd (omega arith)
comm_below zero (suc a) b h = absurd (omega arith)
comm_below (suc n) zero zero h = refl
comm_below (suc n) a b h =
    omega (arith, bit_xor_digit a b, bit_xor_digit b a, comm_below n (a / 2) (b / 2) (omega arith))

pub bit_xor_comm : (a b : ℕ) → bit_xor a b ≡ bit_xor b a
bit_xor_comm a b = comm_below (a + b) a b (le_refl _)

pub zero-bit_xor : (b : ℕ) → bit_xor 0 b ≡ b
zero-bit_xor b = Prim.Native.Nat.bit_xor-bitwise 0 b

pub bit_xor-zero : (a : ℕ) → bit_xor a 0 ≡ a
bit_xor-zero a = bit_xor_comm a 0 ∙ zero-bit_xor a

pub bit_xor_self : (a : ℕ) → bit_xor a a ≡ 0
bit_xor_self a = ap (λ (t : ℕ). bit_xor t a) (sym (zero-bit_xor a)) ∙ bit_xor_undo 0 a

pub bit_xor-lt : (k a b : ℕ) → a < 2 ^ k → b < 2 ^ k → bit_xor a b < 2 ^ k
bit_xor-lt zero a b ha hb =
    let ea : a ≡ 0 = omega arith in let eb : b ≡ 0 = omega arith in rw (ea, eb) (omega arith)
bit_xor-lt (suc k) a b ha hb = omega (
  arith,
  pow-suc 2 k,
  bit_xor_digit a b,
  bit_xor-lt k (a / 2) (b / 2) (omega (arith, pow-suc 2 k)) (omega (arith, pow-suc 2 k)),
)

-- A word below `2 ^ k` changes only the low `k` bits.
pub bit_xor_low :
    (k q r s : ℕ) → r < 2 ^ k → s < 2 ^ k → bit_xor (q * 2 ^ k + r) s ≡ q * 2 ^ k + bit_xor r s
bit_xor_low zero q r s hr hs =
    let er : r ≡ 0 = omega arith in
    let es : s ≡ 0 = omega arith in
    rw (er, es) (bit_xor-zero (q * 2 ^ 0 + 0) ∙ omega (arith, bit_xor-zero 0))
bit_xor_low (suc k) q r s hr hs = omega (
  arith,
  mul-pow-suc q k,
  bit_xor_digit (q * 2 ^ suc k + r) s,
  bit_xor_digit r s,
  ap (λ (t : ℕ). bit_xor t (s / 2)) halved,
  bit_xor_low k q (r / 2) (s / 2) (omega (arith, pow-suc 2 k)) (omega (arith, pow-suc 2 k)),
)
  where
    halved : (q * 2 ^ suc k + r) / 2 ≡ q * 2 ^ k + r / 2
    halved = omega (arith, mul-pow-suc q k)

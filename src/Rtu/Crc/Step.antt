-- ===== src/Rtu/Crc/Step.antt =====
-- Each step of the CRC is a bijection on 16-bit words, and shifts a zero low byte out.
use modbus_protocol.Prelude.{
  ℕ, zero, suc, ◌+◌, ◌*◌, ◌/◌, ◌%◌, ◌^◌, ◌≤◌, ◌<◌, ◌≡◌, sym, ap, ◌∙◌, arith, IsByte, IsU16, bit_xor,
  Buf,
}
use modbus_protocol.Prelude.Bits.{mul-pow-suc}
use modbus_protocol.Prelude.Xor.{bit_xor_undo, bit_xor_comm, bit_xor-lt, bit_xor_low, bit_xor_self}
use modbus_protocol.Rtu.Crc.{crc_bit, crc_bits, crc_byte, crc_loop}

-- The polynomial sets the top bit, which a shifted word does not have.
polynomial_high : (x : ℕ) → x < 2 ^ 15 → (32768 ≤ bit_xor x 0xa001) × (bit_xor x 0xa001 < 65536)
polynomial_high x h = (
  omega (arith, bit_xor_comm x 0xa001, bit_xor_low 15 1 0x2001 x (omega arith) h),
  bit_xor-lt 16 x 0xa001 (omega arith) (omega arith),
)

pub crc_bit-IsU16 : (x : ℕ) → IsU16 x → IsU16 (crc_bit x)
unfolding crc_bit
crc_bit-IsU16 x h = ground arith

crc_bit_injective : (x y : ℕ) → IsU16 x → IsU16 y → crc_bit x ≡ crc_bit y → x ≡ y
unfolding crc_bit
crc_bit_injective x y hx hy e = ground (
  arith,
  polynomial_high (x / 2),
  polynomial_high (y / 2),
  bit_xor_undo (x / 2) 0xa001,
  bit_xor_undo (y / 2) 0xa001,
)

pub crc_bits-IsU16 : (n x : ℕ) → IsU16 x → IsU16 (crc_bits n x)
unfolding crc_bits
crc_bits-IsU16 zero x h = h
crc_bits-IsU16 (suc n) x h = crc_bits-IsU16 n (crc_bit x) (crc_bit-IsU16 x h)

crc_bits_injective : (n x y : ℕ) → IsU16 x → IsU16 y → crc_bits n x ≡ crc_bits n y → x ≡ y
unfolding crc_bits
crc_bits_injective zero x y hx hy e = e
crc_bits_injective (suc n) x y hx hy e =
    crc_bit_injective x y hx hy
      (crc_bits_injective n (crc_bit x) (crc_bit y) (crc_bit-IsU16 x hx) (crc_bit-IsU16 y hy) e)

bit_xor-IsU16 : (x b : ℕ) → IsU16 x → IsByte b → IsU16 (bit_xor x b)
bit_xor-IsU16 x b hx hb = bit_xor-lt 16 x b hx (omega arith)

pub crc_byte-IsU16 : (x b : ℕ) → IsU16 x → IsByte b → IsU16 (crc_byte x b)
unfolding crc_byte
crc_byte-IsU16 x b hx hb = crc_bits-IsU16 8 (bit_xor x b) (bit_xor-IsU16 x b hx hb)

-- Two words that take the same byte to the same word are the same.
pub crc_byte_injective :
    (x y b : ℕ) → IsU16 x → IsU16 y → IsByte b → crc_byte x b ≡ crc_byte y b → x ≡ y
unfolding crc_byte
crc_byte_injective x y b hx hy hb e =
    sym (bit_xor_undo x b)
    ∙ ap (λ (t : ℕ). bit_xor t b)
        (crc_bits_injective 8 (bit_xor x b) (bit_xor y b) (bit_xor-IsU16 x b hx hb)
          (bit_xor-IsU16 y b hy hb) e)
    ∙ bit_xor_undo y b

-- Two bytes that take the same word to the same word are the same.
pub crc_byte_separates :
    (x a b : ℕ) → IsU16 x → IsByte a → IsByte b → crc_byte x a ≡ crc_byte x b → a ≡ b
unfolding crc_byte
crc_byte_separates x a b hx ha hb e =
    sym (bit_xor_undo a x)
    ∙ ap (λ (t : ℕ). bit_xor t x)
        (bit_xor_comm a x
          ∙ crc_bits_injective 8 (bit_xor x a) (bit_xor x b) (bit_xor-IsU16 x a hx ha)
              (bit_xor-IsU16 x b hx hb) e
          ∙ bit_xor_comm x b)
    ∙ bit_xor_undo b x

crc_bits_shift : (n q : ℕ) → crc_bits n (q * 2 ^ n) ≡ q
unfolding crc_bits crc_bit
crc_bits_shift zero q = omega arith
crc_bits_shift (suc n) q = ap (crc_bits n) shifted ∙ crc_bits_shift n q
  where
    shifted : crc_bit (q * 2 ^ suc n) ≡ q * 2 ^ n
    shifted = ground (arith, mul-pow-suc q n)

-- A word takes its own low byte to its high byte.
pub crc_byte_low : (x : ℕ) → crc_byte x (x % 256) ≡ x / 256
unfolding crc_byte
crc_byte_low x = ap (crc_bits 8) cleared ∙ crc_bits_shift 8 (x / 256)
  where
    cleared : bit_xor x (x % 256) ≡ x / 256 * 2 ^ 8
    cleared =
        ap (λ (t : ℕ). bit_xor t (x % 256)) (omega arith)
        ∙ bit_xor_low 8 (x / 256) (x % 256) (x % 256) (omega arith) (omega arith)
        ∙ omega (arith, bit_xor_self (x % 256))

pub crc_loop-IsU16 :
    (left i : ℕ) (p : Buf) (x : ℕ)
    → IsU16 x
    → ((j : ℕ) → i ≤ j → j < i + left → IsByte (p j))
    → IsU16 (crc_loop left i p x)
unfolding crc_loop
crc_loop-IsU16 zero i p x h bytes = h
crc_loop-IsU16 (suc left) i p x h bytes =
    crc_loop-IsU16 left (i + 1) p (crc_byte x (p i))
      (crc_byte-IsU16 x (p i) h (bytes i (omega arith) (omega arith)))
      (λ j lo hi. bytes j (omega arith) (omega arith))

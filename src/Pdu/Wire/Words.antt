-- ===== src/Pdu/Wire/Words.antt =====
-- 16-bit words and register arrays in a byte buffer.
use modbus_protocol.Prelude.{
  ℕ, zero, suc, ◌+◌, ◌*◌, ◌/◌, ◌%◌, ◌≤◌, ◌<◌, ◌≡◌, refl, ◌⊎◌, inl, inr, arith, ltb, ◌==◌,
  if◌then◌else◌, IsByte, IsU16, Buf, store, Agree, ◌∙◌, Bool-cases,
}
use modbus_protocol.Prelude.Bits.{bit_or_high}
use modbus_protocol.Pdu.Wire.{get_u16, put_u16, put_registers, take_registers, range_overflows}

pub get_u16_lem :
    (p : Buf) (i : ℕ) → IsByte (p i) → IsByte (p (i + 1)) → get_u16 p i ≡ p i * 256 + p (i + 1)
unfolding get_u16
get_u16_lem p i h l = omega (arith, bit_or_high 8 (p i) (p (i + 1)) l)

pub get_u16-IsU16 : (p : Buf) (i : ℕ) → IsU16 (get_u16 p i)
unfolding get_u16
get_u16-IsU16 p i = omega arith

-- The word that lies in the buffer after a write of it.
pub put_u16_at :
    (p : Buf) (i v j : ℕ)
    → IsU16 v
    → put_u16 p i v j ≡ (if j == i + 1 then v % 256 else if j == i then v / 256 else p j)
unfolding put_u16
put_u16_at p i v j h = ground arith

pub get_u16-of_bytes :
    (p : Buf) (i v : ℕ) → IsU16 v → p i ≡ v / 256 → p (i + 1) ≡ v % 256 → get_u16 p i ≡ v
get_u16-of_bytes p i v h eh el = get_u16_lem p i (omega arith) (omega arith) ∙ omega arith

pub get_u16-put_u16 : (p : Buf) (i v : ℕ) → IsU16 v → get_u16 (put_u16 p i v) i ≡ v
get_u16-put_u16 p i v h =
    get_u16-of_bytes (put_u16 p i v) i v h (ground (arith, put_u16_at p i v i))
      (ground (arith, put_u16_at p i v (i + 1)))

-- A word is read from two bytes and nothing else.
pub get_u16-Agree : (n i : ℕ) (a b : Buf) → Agree n a b → i + 1 < n → get_u16 a i ≡ get_u16 b i
unfolding get_u16
get_u16-Agree n i a b h lt = ground (arith, h i, h (i + 1))

pub range_overflows_lem :
    (addr qty : ℕ) → IsU16 addr → IsU16 qty → range_overflows addr qty ≡ ltb 65536 (addr + qty)
unfolding range_overflows
range_overflows_lem addr qty ha hq = ground arith

-- `put_registers` writes the bytes from `at + 2 * i` on, two for each round left, and no other.
pub put_registers_outside :
    (left i : ℕ) (values p : Buf) (at j : ℕ)
    → (j < at + i * 2) ⊎ (at + (i + left) * 2 ≤ j)
    → put_registers left i values p at j ≡ p j
unfolding put_registers put_u16
put_registers_outside zero i values p at j h = refl
put_registers_outside (suc left) i values p at j h =
    put_registers_outside left (i + 1) values (put_u16 p (at + i * 2) (values i)) at j (omega arith)
    ∙ ground arith

pub put_registers_inside :
    (left i : ℕ) (values p : Buf) (at k : ℕ)
    → i ≤ k
    → k < i + left
    → IsU16 (values k)
    → (put_registers left i values p at (at + k * 2) ≡ values k / 256)
      × (put_registers left i values p at (at + k * 2 + 1) ≡ values k % 256)
unfolding put_registers
put_registers_inside zero i values p at k lo hi h = absurd (omega arith)
put_registers_inside (suc left) i values p at k lo hi h =
    let p' = put_u16 p (at + i * 2) (values i) in
    elim (Bool-cases (i == k)) [
      | inl here ↦ ground (
        arith,
        put_registers_outside left (i + 1) values p' at (at + k * 2) (inl (ground arith)),
        put_registers_outside left (i + 1) values p' at (at + k * 2 + 1) (inl (ground arith)),
        put_u16_at p (at + i * 2) (values i) (at + k * 2),
        put_u16_at p (at + i * 2) (values i) (at + k * 2 + 1),
      )
      | inr later ↦ put_registers_inside left (i + 1) values p' at k (ground arith) (ground arith) h
    ]

pub take_registers_outside :
    (left i : ℕ) (p : Buf) (at : ℕ) (out : Buf) (j : ℕ)
    → (j < i) ⊎ (i + left ≤ j)
    → take_registers left i p at out j ≡ out j
unfolding take_registers
take_registers_outside zero i p at out j h = refl
take_registers_outside (suc left) i p at out j h =
    take_registers_outside left (i + 1) p at (store out i (get_u16 p (at + i * 2))) j (omega arith)
    ∙ ground arith

pub take_registers_inside :
    (left i : ℕ) (p : Buf) (at : ℕ) (out : Buf) (k : ℕ)
    → i ≤ k
    → k < i + left
    → take_registers left i p at out k ≡ get_u16 p (at + k * 2)
unfolding take_registers
take_registers_inside zero i p at out k lo hi = absurd (omega arith)
take_registers_inside (suc left) i p at out k lo hi =
    let out' = store out i (get_u16 p (at + i * 2)) in
    elim (Bool-cases (i == k)) [
      | inl here ↦
          ground (arith, take_registers_outside left (i + 1) p at out' k (inl (ground arith)))
      | inr later ↦ take_registers_inside left (i + 1) p at out' k (ground arith) (ground arith)
    ]

-- Registers written to a buffer are read back.
pub take_registers-put_registers :
    (qty : ℕ) (values p : Buf) (at : ℕ) (out : Buf) (k : ℕ)
    → k < qty
    → IsU16 (values k)
    → take_registers qty 0 (put_registers qty 0 values p at) at out k ≡ values k
take_registers-put_registers qty values p at out k lt h =
    let (hi, lo) = put_registers_inside qty 0 values p at k (omega arith) (omega arith) h in
    take_registers_inside qty 0 (put_registers qty 0 values p at) at out k (omega arith)
      (omega arith)
    ∙ get_u16-of_bytes _ (at + k * 2) (values k) h hi lo

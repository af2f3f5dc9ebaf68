-- ===== src/Pdu/Wire/Packing.antt =====
-- One bit per coil: what `pack_bits` writes, and that `unpack_bits` reads it back.
use modbus_protocol.Prelude.{
  ℕ, zero, suc, ◌+◌, ◌*◌, ◌/◌, ◌%◌, ◌^◌, ◌≤◌, ◌<◌, ◌≡◌, refl, ap, ◌∙◌, ◌⊎◌, inl, inr, max, arith,
  not, ◌&&◌, leb, ltb, ◌==◌, if◌then◌else◌, Bool-cases, bit_or, u8, Buf, store, fill,
}
use modbus_protocol.Prelude.Bits.{
  bit_at, bit_at_lem, bit_at-lt, bit_at-bit_or, bit_at-pow, bit_at-zero,
}
use modbus_protocol.Pdu.Wire.{pack_loop, pack_bits, unpack_loop, unpack_bits, bit_byte_count}

-- The low eight bits of a word survive the cast to a byte.
bit_at-u8 : (m x : ℕ) → m < 8 → bit_at (u8 x) m ≡ bit_at x m
unfolding bit_at
bit_at-u8 zero x h = omega arith
bit_at-u8 (suc zero) x h = omega arith
bit_at-u8 (suc (suc zero)) x h = omega arith
bit_at-u8 (suc (suc (suc zero))) x h = omega arith
bit_at-u8 (suc (suc (suc (suc zero)))) x h = omega arith
bit_at-u8 (suc (suc (suc (suc (suc zero))))) x h = omega arith
bit_at-u8 (suc (suc (suc (suc (suc (suc zero)))))) x h = omega arith
bit_at-u8 (suc (suc (suc (suc (suc (suc (suc zero))))))) x h = omega arith
bit_at-u8 (suc (suc (suc (suc (suc (suc (suc (suc m)))))))) x h = absurd (omega arith)

-- Bit `m` of the packed array that begins at `at`.
abbrev pub packed_bit : Buf → ℕ → ℕ → ℕ
packed_bit p at m = bit_at (p (at + m / 8)) (m % 8)

-- `out[i / 8] |= 1 << (i % 8)`
abbrev set_bit : Buf → ℕ → ℕ → Buf
set_bit out at i = store out (at + i / 8) (u8 (bit_or (out (at + i / 8)) (u8 (1 * 2 ^ (i % 8)))))

set_byte-bit :
    (x k m : ℕ)
    → m < 8
    → bit_at (u8 (bit_or x (u8 (1 * 2 ^ k)))) m ≡ max (bit_at x m) (if k == m then 1 else 0)
set_byte-bit x k m h =
    let e : 1 * 2 ^ k ≡ 2 ^ k = omega arith in
    bit_at-u8 m (bit_or x (u8 (1 * 2 ^ k))) h
    ∙ bit_at-bit_or m x (u8 (1 * 2 ^ k))
    ∙ ap (λ (t : ℕ). max (bit_at x m) t)
        (bit_at-u8 m (1 * 2 ^ k) h ∙ ap (λ (t : ℕ). bit_at t m) e ∙ bit_at-pow k m)

set_bit-packed_bit :
    (out : Buf) (at i m : ℕ)
    → packed_bit (set_bit out at i) at m ≡ (if i == m then 1 else packed_bit out at m)
set_bit-packed_bit out at i m = ground (
  arith,
  set_byte-bit (out (at + i / 8)) (i % 8) (m % 8) (omega arith),
  bit_at-lt (m % 8) (out (at + m / 8)),
)

pack_loop-packed_bit :
    (left i : ℕ) (values out : Buf) (at m : ℕ)
    → packed_bit (pack_loop left i values out at) at m
      ≡ (if (leb i m && ltb m (i + left)) && not (values m == 0) then 1 else packed_bit out at m)
unfolding pack_loop
pack_loop-packed_bit zero i values out at m = ground arith
pack_loop-packed_bit (suc left) i values out at m = elim (Bool-cases (values i == 0)) [
  | inl off ↦ rw off (ground (arith, pack_loop-packed_bit left (i + 1) values out at m))
  | inr on ↦ rw on (
      ground (
        arith,
        pack_loop-packed_bit left (i + 1) values (set_bit out at i) at m,
        set_bit-packed_bit out at i m,
      ))
]

-- Bytes before the array and behind its last byte are left alone.
pack_loop_outside :
    (left i : ℕ) (values out : Buf) (at j : ℕ)
    → (j < at) ⊎ (at + (i + left + 7) / 8 ≤ j)
    → pack_loop left i values out at j ≡ out j
unfolding pack_loop
pack_loop_outside zero i values out at j h = refl
pack_loop_outside (suc left) i values out at j h =
    pack_loop_outside left (i + 1) values _ at j (omega arith) ∙ ground arith

pub pack_bits-packed_bit :
    (values : Buf) (qty : ℕ) (out : Buf) (at m : ℕ)
    → m < qty
    → packed_bit (pack_bits values qty out at) at m ≡ (if values m == 0 then 0 else 1)
unfolding pack_bits bit_byte_count
pack_bits-packed_bit values qty out at m h = ground (
  arith,
  pack_loop-packed_bit qty 0 values (fill out at ((qty + 7) / 8) 0) at m,
  bit_at-zero (m % 8),
)

pub pack_bits_outside :
    (values : Buf) (qty : ℕ) (out : Buf) (at j : ℕ)
    → (j < at) ⊎ (at + bit_byte_count qty ≤ j)
    → pack_bits values qty out at j ≡ out j
unfolding pack_bits bit_byte_count
pack_bits_outside values qty out at j h =
    pack_loop_outside qty 0 values (fill out at ((qty + 7) / 8) 0) at j (ground arith)
    ∙ ground arith

unpack_loop_outside :
    (left i : ℕ) (packed : Buf) (at : ℕ) (out : Buf) (k : ℕ)
    → (k < i) ⊎ (i + left ≤ k)
    → unpack_loop left i packed at out k ≡ out k
unfolding unpack_loop
unpack_loop_outside zero i packed at out k h = refl
unpack_loop_outside (suc left) i packed at out k h =
    unpack_loop_outside left (i + 1) packed at _ k (omega arith) ∙ ground arith

unpack_loop_inside :
    (left i : ℕ) (packed : Buf) (at : ℕ) (out : Buf) (k : ℕ)
    → i ≤ k
    → k < i + left
    → unpack_loop left i packed at out k ≡ packed_bit packed at k
unfolding unpack_loop
unpack_loop_inside zero i packed at out k lo hi = absurd (omega arith)
unpack_loop_inside (suc left) i packed at out k lo hi = elim (Bool-cases (i == k)) [
  | inl here ↦ ground (
    arith,
    unpack_loop_outside left (i + 1) packed at
        (store out i (u8 (packed (at + i / 8) / 2 ^ (i % 8) % 2))) k (inl (ground arith)),
    bit_at_lem (k % 8) (packed (at + k / 8)),
  )
  | inr later ↦ unpack_loop_inside left (i + 1) packed at _ k (ground arith) (ground arith)
]

pub unpack_bits-packed_bit :
    (packed : Buf) (at qty : ℕ) (out : Buf) (k : ℕ)
    → k < qty
    → unpack_bits packed at qty out k ≡ packed_bit packed at k
unfolding unpack_bits
unpack_bits-packed_bit packed at qty out k h =
    unpack_loop_inside qty 0 packed at out k (omega arith) (omega arith)

pub unpack_bits_outside :
    (packed : Buf) (at qty : ℕ) (out : Buf) (k : ℕ)
    → qty ≤ k
    → unpack_bits packed at qty out k ≡ out k
unfolding unpack_bits
unpack_bits_outside packed at qty out k h =
    unpack_loop_outside qty 0 packed at out k (inr (omega arith))

-- Unpacking what was packed gives 0 for a zero byte and 1 for any other.
pub unpack_bits-pack_bits :
    (values : Buf) (qty : ℕ) (p : Buf) (at : ℕ) (out : Buf) (k : ℕ)
    → k < qty
    → unpack_bits (pack_bits values qty p at) at qty out k ≡ (if values k == 0 then 0 else 1)
unpack_bits-pack_bits values qty p at out k h =
    unpack_bits-packed_bit (pack_bits values qty p at) at qty out k h
    ∙ pack_bits-packed_bit values qty p at k h

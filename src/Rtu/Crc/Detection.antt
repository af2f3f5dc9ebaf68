-- ===== src/Rtu/Crc/Detection.antt =====
-- What the CRC detects: every corruption of a single byte of a frame.
use modbus_protocol.Prelude.{
  ℕ, pos, negsuc, zero, suc, ◌+◌, ◌-◌, ◌*◌, ◌≤◌, ◌<◌, ◌≡◌, ◌≢◌, refl, sym, ap, ◌∙◌, arith, some,
  IsByte, IsU16, Bool-cases, inl, inr, ◌⊎◌, ◌==◌, ltb, if◌then◌else◌, Buf,
}
use modbus_protocol.Prelude.Bits.{bit_or_low}
use modbus_protocol.Rtu.Crc.{crc_byte, crc_loop, crc16, validate_crc}
use modbus_protocol.Rtu.Crc.Step.{crc_byte-IsU16, crc_byte_injective, crc_byte_separates}

-- The elements from index `i` to `i + left` are bytes.
abbrev pub AreBytes : ℕ → ℕ → Buf → Type 0
AreBytes left i p = (j : ℕ) → i ≤ j → j < i + left → IsByte (p j)

pub crc_loop_agree :
    (left i : ℕ) (a b : Buf) (x : ℕ)
    → ((j : ℕ) → i ≤ j → j < i + left → a j ≡ b j)
    → crc_loop left i a x ≡ crc_loop left i b x
unfolding crc_loop
crc_loop_agree zero i a b x same = refl
crc_loop_agree (suc left) i a b x same =
    ap (λ (v : ℕ). crc_loop left (i + 1) a (crc_byte x v)) (same i (omega arith) (omega arith))
    ∙ crc_loop_agree left (i + 1) a b (crc_byte x (b i))
        (λ j lo hi. same j (omega arith) (omega arith))

crc_loop_injective :
    (left i : ℕ) (p : Buf) (x y : ℕ)
    → AreBytes left i p
    → IsU16 x
    → IsU16 y
    → crc_loop left i p x ≡ crc_loop left i p y
    → x ≡ y
unfolding crc_loop
crc_loop_injective zero i p x y bytes hx hy e = e
crc_loop_injective (suc left) i p x y bytes hx hy e =
    let here : IsByte (p i) = bytes i (omega arith) (omega arith) in
    crc_byte_injective x y (p i) hx hy here (
      crc_loop_injective left (i + 1) p (crc_byte x (p i)) (crc_byte y (p i))
        (λ j lo hi. bytes j (omega arith) (omega arith)) (crc_byte-IsU16 x (p i) hx here)
        (crc_byte-IsU16 y (p i) hy here) e)

crc_loop_separates :
    (left i : ℕ) (a b : Buf) (x k : ℕ)
    → AreBytes left i a
    → AreBytes left i b
    → IsU16 x
    → i ≤ k
    → k < i + left
    → ((j : ℕ) → i ≤ j → j < i + left → j ≢ k → a j ≡ b j)
    → crc_loop left i a x ≡ crc_loop left i b x
    → a k ≡ b k
unfolding crc_loop
crc_loop_separates zero i a b x k ha hb hx lo hi same e = absurd (omega arith)
crc_loop_separates (suc left) i a b x k ha hb hx lo hi same e = elim (Bool-cases (i == k)) [
  | inl here ↦
      let ik : i ≡ k = ground arith in
      let ba : IsByte (a i) = ha i (omega arith) (omega arith) in
      let bb : IsByte (b i) = hb i (omega arith) (omega arith) in
      rw (← ik) (
        crc_byte_separates x (a i) (b i) hx ba bb (
          crc_loop_injective left (i + 1) b (crc_byte x (a i)) (crc_byte x (b i))
            (λ j jlo jhi. hb j (omega arith) (omega arith)) (crc_byte-IsU16 x (a i) hx ba)
            (crc_byte-IsU16 x (b i) hx bb)
            (sym (
                crc_loop_agree left (i + 1) a b (crc_byte x (a i))
                  (λ j jlo jhi. same j (omega arith) (omega arith) (omega arith)))
              ∙ e)))
  | inr later ↦
      let first : a i ≡ b i = same i (omega arith) (omega arith) (ground arith) in
      crc_loop_separates left (i + 1) a b (crc_byte x (b i)) k
        (λ j jlo jhi. ha j (omega arith) (omega arith))
        (λ j jlo jhi. hb j (omega arith) (omega arith))
        (crc_byte-IsU16 x (b i) hx (hb i (omega arith) (omega arith))) (ground arith) (omega arith)
        (λ j jlo jhi ne. same j (omega arith) (omega arith) ne)
        (ap (λ (v : ℕ). crc_loop left (i + 1) a (crc_byte x v)) (sym first) ∙ e)
]

-- `mb_rtu_validate_crc` compares the CRC of the payload with the last two bytes, low byte first.
pub validate_crc_lem :
    (frame : Buf) (n : ℕ)
    → IsByte (frame n)
    → IsByte (frame (n + 1))
    → validate_crc (some frame) (n + 2)
      ≡ (if crc_loop n 0 frame 0xffff == frame (n + 1) * 256 + frame n then pos 0 else negsuc 0)
unfolding validate_crc crc16
validate_crc_lem frame n hl hh =
    let cut : n + 2 - 2 ≡ n = omega arith in
    rw cut (ground (arith, bit_or_low 8 (frame (n + 1)) (frame n) hl))

-- If a frame is valid, then no frame that differs from it in exactly one byte, be it in the
-- payload or in the CRC, is valid.
pub validate_crc_detects :
    (a b : Buf) (n k : ℕ)
    → AreBytes (n + 2) 0 a
    → AreBytes (n + 2) 0 b
    → k < n + 2
    → ((j : ℕ) → j < n + 2 → j ≢ k → a j ≡ b j)
    → a k ≢ b k
    → validate_crc (some a) (n + 2) ≡ pos 0
    → validate_crc (some b) (n + 2) ≡ negsuc 0
validate_crc_detects a b n k ha hb hk same differ valid =
    let of_a =
      validate_crc_lem a n (ha n (omega arith) (omega arith))
        (ha (n + 1) (omega arith) (omega arith)) in
    let of_b =
      validate_crc_lem b n (hb n (omega arith) (omega arith))
        (hb (n + 1) (omega arith) (omega arith)) in
    elim (Bool-cases (ltb k n)) [
      | inl payload ↦
          let below : k < n = ground arith in
          let low : a n ≡ b n = same n (omega arith) (omega arith) in
          let high : a (n + 1) ≡ b (n + 1) = same (n + 1) (omega arith) (omega arith) in
          let apart : crc_loop n 0 a 0xffff ≢ crc_loop n 0 b 0xffff = λ e. differ (
            crc_loop_separates n 0 a b 0xffff k (λ j lo hi. ha j lo (omega arith))
              (λ j lo hi. hb j lo (omega arith)) (omega arith) (omega arith) (omega arith)
              (λ j lo hi ne. same j (omega arith) ne) e) in
          ground (arith, of_a, of_b, low, high, apart, valid)
      | inr tail ↦
          let agree : crc_loop n 0 a 0xffff ≡ crc_loop n 0 b 0xffff =
            crc_loop_agree n 0 a b 0xffff (λ j lo hi. same j (omega arith) (ground arith)) in
          let first : n ≢ k → a n ≡ b n = same n (omega arith) in
          let second : n + 1 ≢ k → a (n + 1) ≡ b (n + 1) = same (n + 1) (omega arith) in
          let off : k ≡ n ⊎ k ≡ n + 1 = ground arith in
          elim off [
            | inl at_low ↦
                let high : a (n + 1) ≡ b (n + 1) = second (omega arith) in
                let low : a n ≢ b n = rw (← at_low) differ in
                ground (arith, of_a, of_b, agree, high, low, valid)
            | inr at_high ↦
                let low : a n ≡ b n = first (omega arith) in
                let high : a (n + 1) ≢ b (n + 1) = rw (← at_high) differ in
                let bytes : IsByte (a n) = ha n (omega arith) (omega arith) in
                ground (arith, of_a, of_b, agree, high, low, valid)
          ]
    ]

-- The validation reads the frame and nothing behind it.
pub validate_crc_agree :
    (n : ℕ) (a b : Buf)
    → ((j : ℕ) → j < n → a j ≡ b j)
    → validate_crc (some a) n ≡ validate_crc (some b) n
unfolding validate_crc crc16
validate_crc_agree n a b same = elim (Bool-cases (ltb n 2)) [
  | inl short ↦ rw short refl
  | inr long ↦
      let crc : crc_loop (n - 2) 0 a 0xffff ≡ crc_loop (n - 2) 0 b 0xffff =
        crc_loop_agree (n - 2) 0 a b 0xffff (λ j lo hi. same j (ground arith)) in
      ground (arith, crc, same (n - 2), same (n - 2 + 1))
]

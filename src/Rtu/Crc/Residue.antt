-- ===== src/Rtu/Crc/Residue.antt =====
-- The residue of the CRC: a frame is valid exactly if the CRC over the whole of it, its own CRC
-- included, is zero.
use modbus_protocol.Prelude.{
  ℕ, pos, zero, suc, ◌+◌, ◌*◌, ◌/◌, ◌%◌, ◌≡◌, ◌↔◌, sym, ap, ◌∙◌, arith, some, IsByte, IsU16, Buf,
}
use modbus_protocol.Rtu.Crc.{crc_byte, crc_loop, crc16, validate_crc}
use modbus_protocol.Rtu.Crc.Step.{crc_byte-IsU16, crc_byte_injective, crc_byte_low, crc_loop-IsU16}
use modbus_protocol.Rtu.Crc.Detection.{AreBytes, validate_crc_lem}

crc_loop_two_more :
    (n i k : ℕ) (p : Buf) (x : ℕ)
    → k ≡ i + n
    → crc_loop (suc (suc n)) i p x ≡ crc_byte (crc_byte (crc_loop n i p x) (p k)) (p (k + 1))
unfolding crc_loop
crc_loop_two_more zero i k p x here =
    let same : i ≡ k = omega arith in ap (λ (t : ℕ). crc_byte (crc_byte x (p t)) (p (t + 1))) same
crc_loop_two_more (suc n) i k p x here =
    crc_loop_two_more n (i + 1) k p (crc_byte x (p i)) (omega arith)

-- A word is taken to zero by its own two bytes, low byte first.
crc_byte_cleared :
    (lo hi : ℕ) → IsByte lo → IsByte hi → crc_byte (crc_byte (hi * 256 + lo) lo) hi ≡ 0
crc_byte_cleared lo hi hlo hhi =
    let y : ℕ = hi * 256 + lo in
    let low : y % 256 ≡ lo = omega arith in
    let high : y / 256 ≡ hi = omega arith in
    let top : hi % 256 ≡ hi = omega arith in
    let gone : hi / 256 ≡ 0 = omega arith in
    let first : crc_byte y lo ≡ hi = ap (crc_byte y) (sym low) ∙ crc_byte_low y ∙ high in
    ap (λ (t : ℕ). crc_byte t hi) first ∙ ap (crc_byte hi) (sym top) ∙ crc_byte_low hi ∙ gone

-- It is taken to zero by no other two bytes.
crc_byte_clears :
    (x lo hi : ℕ)
    → IsU16 x
    → IsByte lo
    → IsByte hi
    → crc_byte (crc_byte x lo) hi ≡ 0
    → x ≡ hi * 256 + lo
crc_byte_clears x lo hi hx hlo hhi e =
    let y : ℕ = hi * 256 + lo in
    crc_byte_injective x y lo hx (omega arith) hlo (
      crc_byte_injective (crc_byte x lo) (crc_byte y lo) hi (crc_byte-IsU16 x lo hx hlo)
        (crc_byte-IsU16 y lo (omega arith) hlo) hhi (e ∙ sym (crc_byte_cleared lo hi hlo hhi)))

-- `mb_rtu_validate_crc` accepts a frame of at least two bytes exactly if the CRC over all of its
-- bytes, the CRC field included, is zero.
pub validate_crc-residue :
    (frame : Buf) (n : ℕ)
    → AreBytes (n + 2) 0 frame
    → validate_crc (some frame) (n + 2) ≡ pos 0 ↔ crc16 (some frame) (n + 2) ≡ 0
unfolding crc16
validate_crc-residue frame n bytes =
    let x : ℕ = crc_loop n 0 frame 0xffff in
    let lo : IsByte (frame n) = bytes n (omega arith) (omega arith) in
    let hi : IsByte (frame (n + 1)) = bytes (n + 1) (omega arith) (omega arith) in
    let word : IsU16 x =
      crc_loop-IsU16 n 0 frame 0xffff (omega arith) (λ j l h. bytes j l (omega arith)) in
    let count : suc (suc n) ≡ n + 2 = omega arith in
    let whole : crc_loop (n + 2) 0 frame 0xffff ≡ crc_byte (crc_byte x (frame n)) (frame (n + 1)) =
      ap (λ (t : ℕ). crc_loop t 0 frame 0xffff) (sym count)
      ∙ crc_loop_two_more n 0 n frame 0xffff (omega arith) in
    let clears = crc_byte_clears x (frame n) (frame (n + 1)) word lo hi in
    let cleared = crc_byte_cleared (frame n) (frame (n + 1)) lo hi in
    let shape = validate_crc_lem frame n lo hi in
    (
      λ valid.
          whole
          ∙ ap (λ (t : ℕ). crc_byte (crc_byte t (frame n)) (frame (n + 1)))
              (ground (arith, shape, valid))
          ∙ cleared,
      λ zero_crc.
          let same : x ≡ frame (n + 1) * 256 + frame n = clears (sym whole ∙ zero_crc) in
          ground (arith, shape, same),
    )

-- ===== src/Rtu/Crc/Append.antt =====
-- The CRC that `mb_rtu_append_crc` writes is the one that `mb_rtu_validate_crc` expects.
use modbus_protocol.Prelude.{
  ℕ, pos, ◌+◌, ◌*◌, ◌/◌, ◌%◌, ◌^◌, ◌≤◌, ◌<◌, ◌≡◌, refl, ◌∙◌, arith, some, IsU16, Buf, u8, low_bits,
  ◌>>>◌, ltb, false, store, Agree,
}
use modbus_protocol.Rtu.Crc.{crc_loop, crc16, append_crc, validate_crc}
use modbus_protocol.Rtu.Crc.Step.{crc_loop-IsU16}
use modbus_protocol.Rtu.Crc.Detection.{AreBytes, validate_crc_lem, crc_loop_agree}

-- The frame of `len` bytes, followed by its CRC, low byte first.
abbrev pub with_crc : Buf → ℕ → Buf
with_crc frame len =
    let crc = crc_loop len 0 frame 0xffff in
    store (store frame len (crc % 256)) (len + 1) (crc / 256)

-- The CRC is a word, so that its two bytes need no cast.
pub append_crc_lem :
    (frame : Buf) (len cap : ℕ)
    → AreBytes len 0 frame
    → len + 2 ≤ cap
    → len + 2 < 2 ^ 64
    → append_crc (some frame) len cap ≡ (pos 0, some (with_crc frame len))
unfolding append_crc crc16
append_crc_lem frame len cap bytes fits small =
    let word : IsU16 (crc_loop len 0 frame 0xffff) =
      crc_loop-IsU16 len 0 frame 0xffff (omega arith) (λ j lo hi. bytes j lo (omega arith)) in
    let low : u8 (low_bits (crc_loop len 0 frame 0xffff) 8) ≡ crc_loop len 0 frame 0xffff % 256 =
      omega arith in
    let high : u8 (crc_loop len 0 frame 0xffff >>> 8) ≡ crc_loop len 0 frame 0xffff / 256 =
      omega arith in
    let roomy : ltb cap ((len + 2) % 2 ^ 64) ≡ false = ground arith in rw (roomy, low, high) refl

pub with_crc_kept : (frame : Buf) (len : ℕ) → Agree len (with_crc frame len) frame
with_crc_kept frame len j lt = ground arith

pub validate_crc-with_crc :
    (frame : Buf) (len : ℕ)
    → AreBytes len 0 frame
    → validate_crc (some (with_crc frame len)) (len + 2) ≡ pos 0
validate_crc-with_crc frame len bytes =
    let word : IsU16 (crc_loop len 0 frame 0xffff) =
      crc_loop-IsU16 len 0 frame 0xffff (omega arith) (λ j lo hi. bytes j lo (omega arith)) in
    let out = with_crc frame len in
    let low : out len ≡ crc_loop len 0 frame 0xffff % 256 = ground arith in
    let high : out (len + 1) ≡ crc_loop len 0 frame 0xffff / 256 = ground arith in
    let same : crc_loop len 0 out 0xffff ≡ crc_loop len 0 frame 0xffff =
      crc_loop_agree len 0 out frame 0xffff (λ j lo hi. with_crc_kept frame len j (omega arith)) in
    let word_of : out (len + 1) * 256 + out len ≡ crc_loop len 0 frame 0xffff =
      rw (low, high) (omega arith) in
    validate_crc_lem out len (rw low (omega arith)) (rw high (omega arith))
    ∙ rw (same, word_of) (ground arith)

-- If a buffer has room for the CRC, then `mb_rtu_append_crc` succeeds, leaves the frame as it
-- is, and what it leaves passes `mb_rtu_validate_crc`.
pub append_crc-validate_crc :
    (frame : Buf) (len cap : ℕ)
    → AreBytes len 0 frame
    → len + 2 ≤ cap
    → len + 2 < 2 ^ 64
    → (out : Buf) × (append_crc (some frame) len cap ≡ (pos 0, some out))
      × Agree len out frame
      × (validate_crc (some out) (len + 2) ≡ pos 0)
append_crc-validate_crc frame len cap bytes fits small = (
  with_crc frame len,
  append_crc_lem frame len cap bytes fits small,
  with_crc_kept frame len,
  validate_crc-with_crc frame len bytes,
)

-- ===== src/Rtu/Request/Frames.antt =====
-- What the builders of src/modbus_rtu.c have in common: bytes stay bytes, and a frame is made of
-- a unit id, a PDU and the CRC.
use modbus_protocol.Pdu.Dispatch.Bytes.{put_u16-HasBytes, store-HasBytes}
use modbus_protocol.Prelude.{
  HasBytes, ℕ, ℤ, pos, zero, suc, ◌+◌, ◌*◌, ◌≤◌, ◌≡◌, refl, ◌∙◌, arith, Option, some, IsByte, Buf,
  offset, Agree, u8,
}
use modbus_protocol.Pdu.Wire.{put_u16, put_registers}
use modbus_protocol.Pdu.Build.{build_read}
use modbus_protocol.Rtu.Crc.{append_crc, validate_crc}
use modbus_protocol.Rtu.Crc.Append.{with_crc, with_crc_kept, append_crc_lem, validate_crc-with_crc}
use modbus_protocol.Rtu.Request.{put_head, finish}

-- A frame around the first `n` bytes of a PDU: the unit id before them, a valid CRC behind them.
pub record Carries (frame : Buf) (unit_id : ℕ) (pdu : Buf) (n : ℕ) : Type 0 where
  pub unit : frame 0 ≡ unit_id
  pub pdu_bytes : Agree n (offset frame 1) pdu
  pub valid : validate_crc (some frame) (n + 3) ≡ pos 0

-- What a builder is to do: return the length, with a frame around that PDU in the buffer.
pub record Sends (result : ℤ × Option Buf) (unit_id : ℕ) (pdu : Buf) (n : ℕ) : Type 0 where
  pub frame : Buf
  pub returned : result ≡ (pos (n + 3), some frame)
  pub carried : Carries frame unit_id pdu n

pub put_head-HasBytes :
    (req : Buf) (unit_id fc addr nb : ℕ)
    → HasBytes req
    → IsByte unit_id
    → HasBytes (put_head req unit_id fc addr nb)
unfolding put_head
put_head-HasBytes req unit_id fc addr nb h hu = put_u16-HasBytes _ 4 nb (
    put_u16-HasBytes _ 2 addr
      (store-HasBytes _ 1 (u8 fc) (omega arith) (store-HasBytes req 0 unit_id hu h)))

-- Registers that are written one byte further on leave the same bytes one byte further on.
pub put_registers_shift :
    (left i : ℕ) (values p q : Buf) (at : ℕ)
    → Agree (at + i * 2) (offset p 1) q
    → Agree
        (at + (i + left) * 2)
        (offset (put_registers left i values p (1 + at)) 1)
        (put_registers left i values q at)
unfolding put_registers
put_registers_shift zero i values p q at same j lt = same j (omega arith)
put_registers_shift (suc left) i values p q at same j lt =
    put_registers_shift left (i + 1) values (put_u16 p (1 + at + i * 2) (values i))
      (put_u16 q (at + i * 2) (values i)) at
      (λ k below. let old = same k in unfold put_u16 in ground arith) j (omega arith)

-- The common end of the builders.
pub Sends-frame :
    (body : Buf) (unit_id : ℕ) (pdu : Buf) (n cap total : ℕ)
    → HasBytes body
    → total ≡ n + 3
    → total ≤ cap
    → n ≤ 300
    → body 0 ≡ unit_id
    → Agree n (offset body 1) pdu
    → Sends (finish total (append_crc (some body) (n + 1) cap)) unit_id pdu n
Sends-frame body unit_id pdu n cap total h whole fits small first same =
    let kept = with_crc_kept body (n + 1) in
    let size : n + 1 + 2 ≡ n + 3 = omega arith in
    record {
      frame = with_crc body (n + 1);
      returned =
          rw (append_crc_lem body (n + 1) cap (λ j _ _. h j) (omega arith) (omega arith), whole)
            refl;
      carried = record {
        unit = kept 0 (omega arith) ∙ first;
        pdu_bytes = λ j lt. kept (1 + j) (omega arith) ∙ same j lt;
        valid = rw (← size) (validate_crc-with_crc body (n + 1) (λ j _ _. h j));
      };
    }

pub put_head_carries :
    (req pdu : Buf) (unit_id fc addr nb : ℕ)
    → IsByte fc
    → Agree 5 (offset (put_head req unit_id fc addr nb) 1) (build_read pdu fc addr nb).bytes
unfolding put_head build_read put_u16
put_head_carries req pdu unit_id fc addr nb hf j lt = ground arith

-- ===== src/Rtu/Request/Carries.antt =====
-- The builders of src/modbus_rtu.c frame the same PDUs as those of src/modbus_pdu.c, and
-- `mb_rtu_parse_request` reads the requests back.
use modbus_protocol.Pdu.Dispatch.Bytes.{store-HasBytes, put_registers-HasBytes}
use modbus_protocol.Prelude.{
  HasBytes, ℕ, pos, inl, ◌+◌, ◌-◌, ◌*◌, ◌≤◌, ◌≡◌, refl, ◌∙◌, arith, some, IsByte, IsU16, Buf, store,
  u8, unsigned, false, ◌||◌, if◌then◌else◌, ◌==◌, ltb,
}
use modbus_protocol.Pdu.Wire.{get_u16, put_u16, put_registers}
use modbus_protocol.Pdu.Wire.Words.{put_registers_outside}
use modbus_protocol.Pdu.Build.{build_read, build_write_registers}
use modbus_protocol.Pdu.Build.Layout.{
  HasHead, HasHead-kept, build_read-HasHead, build_write_registers-HasHead,
}
use modbus_protocol.Pdu.Serve.{registers_response}
use modbus_protocol.Rtu.Request.{
  put_head, outside, build_request_basis, build_fc16_request, build_read_registers_response,
  parse_request,
}
use modbus_protocol.Rtu.Request.Frames.{
  Carries, Sends, put_head-HasBytes, put_registers_shift, Sends-frame, put_head_carries,
}

-- With valid arguments and room for eight bytes, `mb_rtu_build_request_basis` returns 8 and leaves
-- a frame with this unit id and a valid CRC around the very PDU that `mb_pdu_build_read` builds.
pub build_request_basis_carries :
    (unit_id fc addr nb : ℕ) (req pdu : Buf) (cap : ℕ)
    → HasBytes req
    → IsByte unit_id
    → IsByte fc
    → IsU16 addr
    → 8 ≤ cap
    → Sends
        (build_request_basis unit_id (pos fc) (pos addr) nb (some req) cap)
        unit_id
        (build_read pdu fc addr nb).bytes
        5
unfolding build_request_basis
build_request_basis_carries unit_id fc addr nb req pdu cap h hu hf ha fits =
    let roomy : ltb cap 8 ≡ false = ground arith in
    let inside : (outside 255 (pos fc) || outside 65535 (pos addr)) ≡ false = ground arith in
    let same_fc : unsigned (pos fc) ≡ fc = omega arith in
    let same_addr : unsigned (pos addr) ≡ addr = omega arith in
    rw (roomy, inside, same_fc, same_addr)
      (Sends-frame (put_head req unit_id fc addr nb) unit_id (build_read pdu fc addr nb).bytes 5 cap
        8 (put_head-HasBytes req unit_id fc addr nb h hu) (omega arith) fits (omega arith)
        (unfold put_head put_u16 in ground arith) (put_head_carries req pdu unit_id fc addr nb hf))

-- With 1 to 123 registers and room for the frame, `mb_rtu_build_fc16_request` returns its length
-- and leaves a frame with this unit id and a valid CRC around the very PDU that
-- `mb_pdu_build_write_registers` builds.
pub build_fc16_request_carries :
    (unit_id addr qty : ℕ) (values req pdu : Buf) (cap : ℕ)
    → HasBytes req
    → IsByte unit_id
    → 1 ≤ qty
    → qty ≤ 123
    → 9 + qty * 2 ≤ cap
    → Sends
        (build_fc16_request unit_id addr qty (some values) (some req) cap)
        unit_id
        (build_write_registers pdu addr qty values).bytes
        (6 + qty * 2)
unfolding build_fc16_request build_write_registers
build_fc16_request_carries unit_id addr qty values req pdu cap h hu some_item most fits =
    let counted : u8 (qty * 2) ≡ qty * 2 = omega arith in
    let in_range : (qty == 0 || ltb 123 qty) ≡ false = ground arith in
    let roomy : (ltb cap (9 + qty * 2) || ltb 256 (9 + qty * 2)) ≡ false = ground arith in
    let head = store (put_head req unit_id 16 addr qty) 6 (qty * 2) in
    let pdu_head = store (build_read pdu 16 addr qty).bytes 5 (qty * 2) in
    let count : 9 + qty * 2 ≡ 6 + qty * 2 + 3 = omega arith in
    let body_len : 9 + qty * 2 - 2 ≡ 6 + qty * 2 + 1 = omega arith in
    let front = put_head_carries req pdu unit_id 16 addr qty (omega arith) in
    rw (in_range, counted, roomy, body_len)
      (Sends-frame (put_registers qty 0 values head 7) unit_id
        (put_registers qty 0 values pdu_head 6) (6 + qty * 2) cap (9 + qty * 2)
        (put_registers-HasBytes qty 0 values head 7 (
          store-HasBytes _ 6 (qty * 2) (omega arith)
            (put_head-HasBytes req unit_id 16 addr qty h hu)))
        count fits (omega arith)
        (put_registers_outside qty 0 values head 7 0 (inl (omega arith))
          ∙ unfold put_head put_u16 in ground arith)
        (λ j lt.
          put_registers_shift qty 0 values head pdu_head 6
            (λ k below. let old = front k in ground arith) j (omega arith)))

-- With at most 125 registers and room for the frame, `mb_rtu_build_read_registers_response`
-- returns its length and leaves a frame with this unit id and a valid CRC around the very PDU that
-- `mb_pdu_handle_request` answers with.
pub build_read_registers_response_carries :
    (fc unit_id qty : ℕ) (values resp pdu : Buf) (cap : ℕ)
    → HasBytes resp
    → IsByte unit_id
    → IsByte fc
    → qty ≤ 125
    → 5 + qty * 2 ≤ cap
    → Sends
        (build_read_registers_response fc unit_id (some values) qty (some resp) cap)
        unit_id
        (registers_response pdu fc qty values).bytes
        (2 + qty * 2)
unfolding build_read_registers_response registers_response
build_read_registers_response_carries fc unit_id qty values resp pdu cap h hu hf most fits =
    let in_range : ltb 125 qty ≡ false = ground arith in
    let roomy : (ltb cap (5 + qty * 2) || ltb 256 (5 + qty * 2)) ≡ false = ground arith in
    let head = store (store (store resp 0 unit_id) 1 fc) 2 (u8 (qty * 2)) in
    let pdu_head = store (store pdu 0 fc) 1 (u8 (qty * 2)) in
    let body_len : 5 + qty * 2 - 2 ≡ 2 + qty * 2 + 1 = omega arith in
    rw (in_range, roomy, body_len)
      (Sends-frame (put_registers qty 0 values head 3) unit_id
        (put_registers qty 0 values pdu_head 2) (2 + qty * 2) cap (5 + qty * 2)
        (put_registers-HasBytes qty 0 values head 3 (
          store-HasBytes _ 2 _ (omega arith)
            (store-HasBytes _ 1 fc hf (store-HasBytes resp 0 unit_id hu h))))
        (omega arith) fits (omega arith)
        (put_registers_outside qty 0 values head 3 0 (inl (omega arith)) ∙ ground arith)
        (λ j lt.
          put_registers_shift qty 0 values head pdu_head 2 (λ k below. ground arith) j
            (omega arith)))

-- What `mb_rtu_parse_request` yields for the frame of such a PDU.
parse_request_carried :
    (frame : Buf) (unit_id : ℕ) (pdu : Buf) (n fc addr nb f a q : ℕ)
    → Carries frame unit_id pdu n
    → 5 ≤ n
    → HasHead pdu fc addr nb
    → parse_request
        (some frame)
        (n + 3)
        record { function_code = some f; address = some a; quantity = some q }
      ≡ (
        pos 0,
        record {
          function_code = some fc;
          address = some addr;
          quantity = some (if fc == 6 then 1 else nb);
        },
      )
unfolding parse_request
parse_request_carried frame unit_id pdu n fc addr nb f a q c long head =
    let framed = HasHead-kept head (λ j lt. c.pdu_bytes j (omega arith)) in
    let long_enough : ltb (n + 3) 8 ≡ false = ground arith in
    let address : get_u16 frame 2 ≡ addr = unfold get_u16 in framed.address in
    let quantity : get_u16 frame 4 ≡ nb = unfold get_u16 in framed.quantity in
    let function : frame 1 ≡ fc = framed.function in
    rw (long_enough, c.valid, address, quantity, function) refl

-- A request that `mb_rtu_build_request_basis` builds from valid arguments is parsed to its function
-- code, its address and its last word, except that the quantity of an FC06 request is 1.
pub parse_request-build_request_basis :
    (unit_id fc addr nb : ℕ) (req : Buf) (cap f a q : ℕ)
    → HasBytes req
    → IsByte unit_id
    → IsByte fc
    → IsU16 addr
    → IsU16 nb
    → 8 ≤ cap
    → (frame : Buf) × (build_request_basis unit_id (pos fc) (pos addr) nb (some req) cap
        ≡ (pos 8, some frame))
      × (parse_request
            (some frame)
            8
            record { function_code = some f; address = some a; quantity = some q }
          ≡ (
            pos 0,
            record {
              function_code = some fc;
              address = some addr;
              quantity = some (if fc == 6 then 1 else nb);
            },
          ))
parse_request-build_request_basis unit_id fc addr nb req cap f a q h hu hf ha hn fits =
    let sent = build_request_basis_carries unit_id fc addr nb req req cap h hu hf ha fits in
    (
      sent.frame,
      sent.returned,
      parse_request_carried sent.frame unit_id _ 5 fc addr nb f a q sent.carried (omega arith)
          (build_read-HasHead req fc addr nb ha hn),
    )

-- An FC16 request that `mb_rtu_build_fc16_request` builds for 1 to 123 registers is parsed to
-- function code 16, its address and its number of registers.
pub parse_request-build_fc16_request :
    (unit_id addr qty : ℕ) (values req : Buf) (cap f a q : ℕ)
    → HasBytes req
    → IsByte unit_id
    → IsU16 addr
    → 1 ≤ qty
    → qty ≤ 123
    → 9 + qty * 2 ≤ cap
    → (frame : Buf) × (build_fc16_request unit_id addr qty (some values) (some req) cap
        ≡ (pos (6 + qty * 2 + 3), some frame))
      × (parse_request
            (some frame)
            (6 + qty * 2 + 3)
            record { function_code = some f; address = some a; quantity = some q }
          ≡ (pos 0, record { function_code = some 16; address = some addr; quantity = some qty }))
parse_request-build_fc16_request unit_id addr qty values req cap f a q h hu ha some_item most fits =
    let sent =
      build_fc16_request_carries unit_id addr qty values req req cap h hu some_item most fits in
    (
      sent.frame,
      sent.returned,
      parse_request_carried sent.frame unit_id _ (6 + qty * 2) 16 addr qty f a q sent.carried
          (omega arith) (build_write_registers-HasHead req addr qty values ha (omega arith)),
    )

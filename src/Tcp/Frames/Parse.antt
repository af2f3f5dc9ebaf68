-- ===== src/Tcp/Frames/Parse.antt =====
-- `mb_tcp_parse_request` reads back what the builders of src/modbus_tcp.c write, and the server
-- answers the PDU inside: it is the one of src/modbus_pdu.c.
use modbus_protocol.Prelude.{
  ℕ, pos, negsuc, ◌+◌, ◌≤◌, ◌<◌, ◌≡◌, refl, ◌⊎◌, arith, some, IsByte, IsU16, unsigned, Buf, offset,
  Agree, ltb, false, ◌||◌, ◌==◌, if◌then◌else◌,
}
use modbus_protocol.Pdu.Wire.{get_u16, put_u16}
use modbus_protocol.Pdu.Wire.Words.{get_u16-of_bytes}
use modbus_protocol.Pdu.Build.{build_read}
use modbus_protocol.Pdu.Build.Layout.{HasHead, HasHead-kept, build_read-HasHead}
use modbus_protocol.Rtu.Request.{outside}
use modbus_protocol.Tcp.Client.{next_tid}
use modbus_protocol.Tcp.Frames.{put_mbap_head, tcp_build_request_basis, tcp_parse_request, Sending}

-- A frame around the first `n` bytes of a PDU, under this transaction id and unit id.
pub record Wraps (frame : Buf) (tid unit_id : ℕ) (pdu : Buf) (n : ℕ) : Type 0 where
  pub transaction : get_u16 frame 0 ≡ tid
  pub protocol : (frame 2 ≡ 0) × (frame 3 ≡ 0)
  pub remaining : get_u16 frame 4 ≡ n + 1
  pub unit : frame 6 ≡ unit_id
  pub pdu_bytes : Agree n (offset frame 7) pdu

put_mbap_head-Wraps :
    (req pdu : Buf) (tid unit_id fc addr nb : ℕ)
    → IsU16 tid
    → IsByte fc
    → Wraps
        (put_mbap_head req tid 6 unit_id fc addr nb)
        tid
        unit_id
        (build_read pdu fc addr nb).bytes
        5
unfolding put_mbap_head build_read put_u16
put_mbap_head-Wraps req pdu tid unit_id fc addr nb ht hf = record {
  transaction = get_u16-of_bytes _ 0 tid ht (omega arith) (omega arith);
  protocol = (refl, refl);
  remaining = get_u16-of_bytes _ 4 6 (omega arith) refl refl;
  unit = refl;
  pdu_bytes = λ j lt. ground arith;
}

parse_wrapped :
    (frame : Buf) (tid unit_id : ℕ) (pdu : Buf) (n fc addr nb f a q : ℕ)
    → Wraps frame tid unit_id pdu n
    → 5 ≤ n
    → n ≤ 253
    → HasHead pdu fc addr nb
    → tcp_parse_request
        (some frame)
        (7 + n)
        record { function_code = some f; address = some a; quantity = some q }
      ≡ (
        pos 0,
        record {
          function_code = some fc;
          address = some addr;
          quantity = some (if fc == 6 then 1 else nb);
        },
      )
unfolding tcp_parse_request
parse_wrapped frame tid unit_id pdu n fc addr nb f a q w long short head =
    let framed = HasHead-kept head (λ j lt. w.pdu_bytes j (omega arith)) in
    let header : ltb (7 + n) 6 ≡ false = ground arith in
    let least : ltb (n + 1) 6 ≡ false = ground arith in
    let most : ltb 254 (n + 1) ≡ false = ground arith in
    let whole : ltb (7 + n) (6 + (n + 1)) ≡ false = ground arith in
    let address : get_u16 frame 8 ≡ addr = unfold get_u16 in framed.address in
    let quantity : get_u16 frame 10 ≡ nb = unfold get_u16 in framed.quantity in
    let function : frame 7 ≡ fc = framed.function in
    rw (w.remaining, header, least, most, whole, address, quantity, function) refl

-- With a context, valid arguments and room for twelve bytes, `mb_tcp_build_request_basis` returns
-- 0, takes the next transaction id, and leaves a frame under that id around the very PDU that
-- `mb_pdu_build_read` builds; `mb_tcp_parse_request` reads the function code, the address and the
-- last word back, except that the quantity of an FC06 request is 1.
pub tcp_parse_request-tcp_build_request_basis :
    (last unit_id fc addr nb : ℕ) (req pdu : Buf) (req_cap f a q : ℕ)
    → last ≤ 65535
    → IsByte fc
    → IsU16 addr
    → IsU16 nb
    → 12 ≤ req_cap
    → (frame : Buf) × (tcp_build_request_basis
          (some last)
          unit_id
          (pos fc)
          (pos addr)
          nb
          (some req)
          req_cap
        ≡ record { rc = pos 0; tid = some (next_tid last); req = some frame })
      × Wraps frame (next_tid last) unit_id (build_read pdu fc addr nb).bytes 5
      × (tcp_parse_request
            (some frame)
            12
            record { function_code = some f; address = some a; quantity = some q }
          ≡ (
            pos 0,
            record {
              function_code = some fc;
              address = some addr;
              quantity = some (if fc == 6 then 1 else nb);
            },
          ))
unfolding tcp_build_request_basis
tcp_parse_request-tcp_build_request_basis last unit_id fc addr nb req pdu req_cap f a q hl hf ha hn
      fits =
    let roomy : ltb req_cap 12 ≡ false = ground arith in
    let inside : (outside 255 (pos fc) || outside 65535 (pos addr)) ≡ false = ground arith in
    let same_fc : unsigned (pos fc) ≡ fc = omega arith in
    let same_addr : unsigned (pos addr) ≡ addr = omega arith in
    let word : IsU16 (next_tid last) = unfold next_tid in ground arith in
    let wraps = put_mbap_head-Wraps req pdu (next_tid last) unit_id fc addr nb word hf in
    (
      put_mbap_head req (next_tid last) 6 unit_id fc addr nb,
      rw (roomy, inside, same_fc, same_addr) refl,
      wraps,
      parse_wrapped _ _ _ _ 5 fc addr nb f a q wraps (omega arith) (omega arith)
          (build_read-HasHead pdu fc addr nb ha hn),
    )

-- How sending ends: all of the array's bytes went out, in order, or an error and only fewer did.
abbrev pub SentOrFailed : Buf → ℕ → Sending → Type 0
SentOrFailed buf len r =
    Agree r.sent r.out buf
    × (((r.rc ≡ pos 0) × (r.sent ≡ len)) ⊎ ((r.rc ≡ negsuc 0) × (r.sent < len)))

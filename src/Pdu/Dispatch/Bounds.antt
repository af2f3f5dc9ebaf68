-- ===== src/Pdu/Dispatch/Bounds.antt =====
-- The response stays inside its buffer, whatever the request and the callbacks do.
use modbus_protocol.Prelude.{ℕ, ◌≤◌, ◌≡◌, ◌∙◌, inr, arith, Buf}
use modbus_protocol.Pdu.Wire.{get_u16, bit_byte_count, build_exception, build_write_echo}
use modbus_protocol.Pdu.Wire.Words.{put_registers_outside}
use modbus_protocol.Pdu.Wire.Packing.{pack_bits_outside}
use modbus_protocol.Pdu.Serve.{Handlers, registers_response, bits_response, handle_request}
use modbus_protocol.Pdu.Dispatch.Replies.{EveryKind, handle_request_every}

-- Between 2 and 253 bytes were written, from the start of the buffer on, and none behind them.
pub record Fits (resp bytes : Buf) (len : ℕ) : Type 0 where
  pub at_least : 2 ≤ len
  pub at_most : len ≤ 253
  pub untouched : (j : ℕ) → len ≤ j → bytes j ≡ resp j

build_exception-Fits :
    (resp : Buf) (fc code : ℕ) → let w = build_exception resp fc code in Fits resp w.bytes w.len
unfolding build_exception
build_exception-Fits resp fc code = record {
  at_least = omega arith;
  at_most = omega arith;
  untouched = λ j h. ground arith;
}

build_write_echo-Fits :
    (req resp : Buf) → let w = build_write_echo req resp in Fits resp w.bytes w.len
unfolding build_write_echo
build_write_echo-Fits req resp = record {
  at_least = omega arith;
  at_most = omega arith;
  untouched = λ j h. ground arith;
}

registers_response-Fits :
    (resp : Buf) (fc qty : ℕ) (values : Buf)
    → qty ≤ 125
    → let w = registers_response resp fc qty values in Fits resp w.bytes w.len
unfolding registers_response
registers_response-Fits resp fc qty values h = record {
  at_least = omega arith;
  at_most = omega arith;
  untouched = λ j lt. put_registers_outside qty 0 values _ 2 j (inr (omega arith)) ∙ ground arith;
}

bits_response-Fits :
    (resp : Buf) (fc qty : ℕ) (bits : Buf)
    → qty ≤ 2000
    → let w = bits_response resp fc qty bits in Fits resp w.bytes w.len
unfolding bits_response bit_byte_count
bits_response-Fits resp fc qty bits h = record {
  at_least = omega arith;
  at_most = omega arith;
  untouched = λ j lt.
      pack_bits_outside bits qty _ 2 j (inr (unfold bit_byte_count in omega arith)) ∙ ground arith;
}

every_kind-Fits : (req resp : Buf) → EveryKind req resp (λ w. Fits resp w.bytes w.len)
every_kind-Fits req resp = record {
  exception = λ code lo hi. build_exception-Fits resp (req 0) code;
  registers = λ values fc hi. registers_response-Fits resp (req 0) (get_u16 req 3) values hi;
  bits = λ values fc hi. bits_response-Fits resp (req 0) (get_u16 req 3) values hi;
  echo = λ fc. build_write_echo-Fits req resp;
}

-- For every request, the response is 2 to 253 bytes long and the bytes of the response buffer
-- behind it are left as they were.
pub handle_request-Fits :
    {S : Type 0} (h : Handlers S) (junk req : Buf) (req_len : ℕ) (resp : Buf) (s : S)
    → let r = handle_request h junk req req_len resp s in Fits resp r.bytes r.len
handle_request-Fits h junk req req_len resp s =
    handle_request_every req resp (λ w. Fits resp w.bytes w.len) (every_kind-Fits req resp) h junk
      req_len s

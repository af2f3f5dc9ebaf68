-- ===== src/Pdu/Dispatch/Agreement.antt =====
-- The client's check and the server's dispatch agree: a client never rejects a response that
-- this server built for its request.
use modbus_protocol.Prelude.{
  ℕ, pos, ◌*◌, ◌/◌, ◌%◌, ◌≤◌, ◌<◌, ◌≡◌, refl, ◌⊎◌, inl, arith, Buf, IsByte, bit_or,
}
use modbus_protocol.Prelude.Bits.{bit_or-lt, bit_or_digit}
use modbus_protocol.Pdu.Wire.{get_u16, bit_byte_count, build_exception, build_write_echo}
use modbus_protocol.Pdu.Wire.Words.{put_registers_outside}
use modbus_protocol.Pdu.Wire.Packing.{pack_bits_outside}
use modbus_protocol.Pdu.Check.{
  check_response, check_body, is_read, is_write, same_four, read_byte_count,
}
use modbus_protocol.Pdu.Serve.{Handlers, registers_response, bits_response, handle_request}
use modbus_protocol.Pdu.Dispatch.Replies.{EveryKind, handle_request_every}

-- The exception flag is set, and leaves a byte a byte.
pub flagged : (fc : ℕ) → IsByte fc → (128 ≤ bit_or fc 128) × (bit_or fc 128 < 256)
flagged fc h = (
  omega (
    arith,
    bit_or_digit fc 128,
    bit_or_digit (fc / 2) 64,
    bit_or_digit (fc / 2 / 2) 32,
    bit_or_digit (fc / 2 / 2 / 2) 16,
    bit_or_digit (fc / 2 / 2 / 2 / 2) 8,
    bit_or_digit (fc / 2 / 2 / 2 / 2 / 2) 4,
    bit_or_digit (fc / 2 / 2 / 2 / 2 / 2 / 2) 2,
    bit_or_digit (fc / 2 / 2 / 2 / 2 / 2 / 2 / 2) 1,
  ),
  bit_or-lt 8 fc 128 h (omega arith),
)

-- The client's verdict on a reply: accepted, or an exception that both sides agree on.
pub data Understood (req bytes : Buf) (len : ℕ) : Type 0 where
  accepted : check_response req bytes len ≡ pos 0 → bytes 0 ≡ req 0 → Understood req bytes len
  exception :
      (code : ℕ)
      → 1 ≤ code
      → code ≤ 11
      → check_response req bytes len ≡ pos code
      → bytes 0 ≡ bit_or (req 0) 128
      → Understood req bytes len

pub build_exception_checked :
    (req resp : Buf) (code : ℕ)
    → IsByte (req 0)
    → 1 ≤ code
    → code ≤ 11
    → let w = build_exception resp (req 0) code in check_response req w.bytes w.len ≡ pos code
unfolding check_response build_exception
build_exception_checked req resp code h lo hi = ground (arith, flagged (req 0) h)

build_exception-Understood :
    (req resp : Buf) (code : ℕ)
    → IsByte (req 0)
    → 1 ≤ code
    → code ≤ 11
    → let w = build_exception resp (req 0) code in Understood req w.bytes w.len
build_exception-Understood req resp code h lo hi =
    exception code lo hi (build_exception_checked req resp code h lo hi)
      (unfold build_exception in refl)

pub build_write_echo_accepted :
    (req resp : Buf)
    → (req 0 ≡ 5) ⊎ (req 0 ≡ 6) ⊎ (req 0 ≡ 15) ⊎ (req 0 ≡ 16)
    → let w = build_write_echo req resp in check_response req w.bytes w.len ≡ pos 0
unfolding check_response check_body build_write_echo is_read is_write same_four
build_write_echo_accepted req resp fc = ground arith

build_write_echo-Understood :
    (req resp : Buf)
    → (req 0 ≡ 5) ⊎ (req 0 ≡ 6) ⊎ (req 0 ≡ 15) ⊎ (req 0 ≡ 16)
    → let w = build_write_echo req resp in Understood req w.bytes w.len
build_write_echo-Understood req resp fc =
    accepted (build_write_echo_accepted req resp fc) (unfold build_write_echo in refl)

pub registers_response_head :
    (resp : Buf) (fc qty : ℕ) (values : Buf)
    → let b = (registers_response resp fc qty values).bytes in (b 0 ≡ fc) × (b 1 ≡ qty * 2 % 256)
unfolding registers_response
registers_response_head resp fc qty values = (
  put_registers_outside qty 0 values _ 2 0 (inl (omega arith)),
  put_registers_outside qty 0 values _ 2 1 (inl (omega arith)),
)

pub bits_response_head :
    (resp : Buf) (fc qty : ℕ) (bits : Buf)
    → let b = (bits_response resp fc qty bits).bytes in
      (b 0 ≡ fc) × (b 1 ≡ bit_byte_count qty % 256)
unfolding bits_response
bits_response_head resp fc qty bits = (
  pack_bits_outside bits qty _ 2 0 (inl (omega arith)),
  pack_bits_outside bits qty _ 2 1 (inl (omega arith)),
)

pub registers_response_accepted :
    (req resp values : Buf)
    → (req 0 ≡ 3) ⊎ (req 0 ≡ 4)
    → get_u16 req 3 ≤ 125
    → let w = registers_response resp (req 0) (get_u16 req 3) values in
      check_response req w.bytes w.len ≡ pos 0
unfolding check_response check_body registers_response is_read read_byte_count
registers_response_accepted req resp values fc h =
    ground (arith, registers_response_head resp (req 0) (get_u16 req 3) values)

registers_response-Understood :
    (req resp values : Buf)
    → (req 0 ≡ 3) ⊎ (req 0 ≡ 4)
    → get_u16 req 3 ≤ 125
    → let w = registers_response resp (req 0) (get_u16 req 3) values in Understood req w.bytes w.len
registers_response-Understood req resp values fc h =
    accepted (registers_response_accepted req resp values fc h)
      (registers_response_head resp (req 0) (get_u16 req 3) values).0

pub bits_response_accepted :
    (req resp values : Buf)
    → (req 0 ≡ 1) ⊎ (req 0 ≡ 2)
    → get_u16 req 3 ≤ 2000
    → let w = bits_response resp (req 0) (get_u16 req 3) values in
      check_response req w.bytes w.len ≡ pos 0
unfolding check_response check_body bits_response is_read read_byte_count
bits_response_accepted req resp values fc h =
    ground (arith, bits_response_head resp (req 0) (get_u16 req 3) values)

bits_response-Understood :
    (req resp values : Buf)
    → (req 0 ≡ 1) ⊎ (req 0 ≡ 2)
    → get_u16 req 3 ≤ 2000
    → let w = bits_response resp (req 0) (get_u16 req 3) values in Understood req w.bytes w.len
bits_response-Understood req resp values fc h =
    accepted (bits_response_accepted req resp values fc h)
      (bits_response_head resp (req 0) (get_u16 req 3) values).0

every_kind-Understood :
    (req resp : Buf) → IsByte (req 0) → EveryKind req resp (λ w. Understood req w.bytes w.len)
every_kind-Understood req resp byte = record {
  exception = λ code lo hi. build_exception-Understood req resp code byte lo hi;
  registers = registers_response-Understood req resp;
  bits = bits_response-Understood req resp;
  echo = build_write_echo-Understood req resp;
}

-- For every request and every application, the client's check accepts the server's response
-- under the request's function code, or reads from it the exception code, which is in 1..11.
pub handle_request-Understood :
    {S : Type 0} (h : Handlers S) (junk req : Buf) (req_len : ℕ) (resp : Buf) (s : S)
    → IsByte (req 0)
    → let r = handle_request h junk req req_len resp s in Understood req r.bytes r.len
handle_request-Understood h junk req req_len resp s byte =
    handle_request_every req resp (λ w. Understood req w.bytes w.len)
      (every_kind-Understood req resp byte) h junk req_len s

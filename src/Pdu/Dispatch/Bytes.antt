-- ===== src/Pdu/Dispatch/Bytes.antt =====
-- The response is made of bytes.
use modbus_protocol.Prelude.{
  if_cases, ℕ, zero, suc, ◌+◌, ◌*◌, ◌/◌, arith, Buf, store, HasBytes, IsByte, ◌==◌,
}
use modbus_protocol.Prelude.Bits.{bit_or-lt}
use modbus_protocol.Pdu.Wire.{
  put_u16, put_registers, pack_loop, pack_bits, build_exception, build_write_echo,
}
use modbus_protocol.Pdu.Serve.{Handlers, registers_response, bits_response, handle_request}
use modbus_protocol.Pdu.Dispatch.Replies.{EveryKind, handle_request_every}

pub store-HasBytes : (p : Buf) (i v : ℕ) → IsByte v → HasBytes p → HasBytes (store p i v)
store-HasBytes p i v hv h j = let old = h j in ground arith

pub put_u16-HasBytes : (p : Buf) (i v : ℕ) → HasBytes p → HasBytes (put_u16 p i v)
unfolding put_u16
put_u16-HasBytes p i v h j = let old = h j in ground arith

pub put_registers-HasBytes :
    (left i : ℕ) (values p : Buf) (at : ℕ)
    → HasBytes p
    → HasBytes (put_registers left i values p at)
unfolding put_registers
put_registers-HasBytes zero i values p at h = h
put_registers-HasBytes (suc left) i values p at h =
    put_registers-HasBytes left (i + 1) values (put_u16 p (at + i * 2) (values i)) at
      (put_u16-HasBytes p (at + i * 2) (values i) h)

pack_loop-HasBytes :
    (left i : ℕ) (values out : Buf) (at : ℕ)
    → HasBytes out
    → HasBytes (pack_loop left i values out at)
unfolding pack_loop
pack_loop-HasBytes zero i values out at h = h
pack_loop-HasBytes (suc left) i values out at h = pack_loop-HasBytes left (i + 1) values _ at (
    if_cases HasBytes (values i == 0) (λ _. h)
      (λ _. store-HasBytes out (at + i / 8) _ (omega arith) h))

pack_bits-HasBytes :
    (values : Buf) (qty : ℕ) (out : Buf) (at : ℕ)
    → HasBytes out
    → HasBytes (pack_bits values qty out at)
unfolding pack_bits
pack_bits-HasBytes values qty out at h =
    pack_loop-HasBytes qty 0 values _ at λ j. let old = h j in ground arith

every_kind-HasBytes :
    (req resp : Buf) → HasBytes req → HasBytes resp → EveryKind req resp (λ w. HasBytes w.bytes)
every_kind-HasBytes req resp hq hr = record {
  exception = λ code lo hi.
      unfold build_exception in
      store-HasBytes _ 1 code (omega arith)
        (store-HasBytes resp 0 _ (bit_or-lt 8 (req 0) 0x80 (hq 0) (omega arith)) hr);
  registers = λ values fc hi.
      unfold registers_response in
      put_registers-HasBytes _ 0 values _ 2
        (store-HasBytes _ 1 _ (omega arith) (store-HasBytes resp 0 _ (hq 0) hr));
  bits = λ values fc hi.
      unfold bits_response in
      pack_bits-HasBytes values _ _ 2
        (store-HasBytes _ 1 _ (omega arith) (store-HasBytes resp 0 _ (hq 0) hr));
  echo = λ fc. unfold build_write_echo in λ j. let q = hq j in let r = hr j in ground arith;
}

-- Whatever values the callbacks fill in, all elements of the response buffer stay bytes.
pub handle_request-HasBytes :
    {S : Type 0} (h : Handlers S) (junk req : Buf) (req_len : ℕ) (resp : Buf) (s : S)
    → HasBytes req
    → HasBytes resp
    → HasBytes (handle_request h junk req req_len resp s).bytes
handle_request-HasBytes h junk req req_len resp s hq hr =
    handle_request_every req resp (λ w. HasBytes w.bytes) (every_kind-HasBytes req resp hq hr) h
      junk req_len s

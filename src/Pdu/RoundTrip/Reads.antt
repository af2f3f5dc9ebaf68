-- ===== src/Pdu/RoundTrip/Reads.antt =====
-- FC01 to FC04: the client extracts what the server's callback filled in.
use modbus_protocol.Prelude.{
  ◌+◌, ◌*◌, sym, Agree, ℕ, pos, ◌≤◌, ◌<◌, ◌≡◌, refl, ap, ◌∙◌, ◌⊎◌, some, arith, Buf, fill, IsU16,
  if◌then◌else◌, ◌==◌,
}
use modbus_protocol.Pdu.Wire.{get_u16}
use modbus_protocol.Pdu.Wire.Words.{
  take_registers-put_registers, take_registers_inside, get_u16-Agree,
}
use modbus_protocol.Pdu.Wire.Packing.{unpack_bits-pack_bits}
use modbus_protocol.Pdu.Build.{build_read}
use modbus_protocol.Pdu.Build.Layout.{HasHead, build_read-HasHead}
use modbus_protocol.Pdu.Check.{check_response, get_registers, get_bits}
use modbus_protocol.Pdu.Serve.{
  Handlers, Reply, reply, after_read, registers_response, bits_response, handle_request,
}
use modbus_protocol.Pdu.Dispatch.{InRange}
use modbus_protocol.Pdu.Dispatch.Serves.{serves_registers_read, serves_bits_read}
use modbus_protocol.Pdu.Dispatch.Agreement.{registers_response_accepted, bits_response_accepted}

-- The extraction reads the response's data and nothing behind it.
pub get_registers_local :
    (a b : Buf) (qty : ℕ) (out out' : Buf) (k : ℕ)
    → Agree (2 + qty * 2) a b
    → k < qty
    → get_registers a qty out k ≡ get_registers b qty out' k
unfolding get_registers
get_registers_local a b qty out out' k same lt =
    take_registers_inside qty 0 a 2 out k (omega arith) (omega arith)
    ∙ get_u16-Agree (2 + qty * 2) (2 + k * 2) a b same (omega arith)
    ∙ sym (take_registers_inside qty 0 b 2 out' k (omega arith) (omega arith))

-- What a client has after a successful call: a response that its check accepts, with the
-- application's new state behind it, and an output array that holds what is expected.
pub record Delivers {S : Type 0} (req : Buf) (r : Reply S) (new : S) (qty : ℕ) (out expected : Buf)
    : Type 0 where
  pub state : r.state ≡ new
  pub accepted : check_response req r.bytes r.len ≡ pos 0
  pub extracted : (k : ℕ) → k < qty → out k ≡ expected k

module _ {S : Type 0} (req resp out : Buf) (fc addr qty : ℕ) (new : S)
    (head : HasHead req fc addr qty) where
  registers_delivered :
      (values : Buf)
      → (fc ≡ 3) ⊎ (fc ≡ 4)
      → qty ≤ 125
      → ((k : ℕ) → k < qty → IsU16 (values k))
      → let r = reply (registers_response resp (req 0) (get_u16 req 3) values) new in
        Delivers req r new qty (get_registers r.bytes qty out) values
  registers_delivered values function most words = record {
    state = refl;
    accepted =
        registers_response_accepted req resp values (rw head.function function)
          (rw head.quantity most);
    extracted = λ k lt. rw head.quantity (
        unfold get_registers registers_response in
        take_registers-put_registers qty values _ 2 out k lt (words k lt));
  }

  bits_delivered :
      (bits : Buf)
      → (fc ≡ 1) ⊎ (fc ≡ 2)
      → qty ≤ 2000
      → let r = reply (bits_response resp (req 0) (get_u16 req 3) bits) new in
        Delivers req r new qty (get_bits r.bytes qty out) (λ k. if bits k == 0 then 0 else 1)
  bits_delivered bits function most = record {
    state = refl;
    accepted =
        bits_response_accepted req resp bits (rw head.function function) (rw head.quantity most);
    extracted = λ k lt.
        rw head.quantity
          (unfold get_bits bits_response in unpack_bits-pack_bits bits qty _ 2 out k lt);
  }

module _ {S : Type 0} (h : Handlers S) (junk pdu resp out : Buf) (fc addr qty : ℕ) (s new : S) where
  pub registers_served :
      (callback : _) (values req : Buf)
      → HasHead req fc addr qty
      → h.read_registers ≡ some callback
      → (fc ≡ 3) ⊎ (fc ≡ 4)
      → InRange 125 addr qty
      → callback fc addr qty junk s ≡ (pos 0, values, new)
      → handle_request h junk req 5 resp s
        ≡ reply (registers_response resp (req 0) (get_u16 req 3) values) new
  registers_served callback values req head has function range call =
      let call' : callback (req 0) (get_u16 req 1) (get_u16 req 3) junk s ≡ (pos 0, values, new) =
        rw (head.function, head.address, head.quantity) call in
      serves_registers_read h junk req 5 resp s callback has (rw head.function function)
        (omega arith) (rw (head.address, head.quantity) range)
      ∙ ap (after_read resp (req 0) (registers_response resp (req 0) (get_u16 req 3))) call'

  bits_served :
      (callback : _) (bits req : Buf)
      → HasHead req fc addr qty
      → h.read_bits ≡ some callback
      → (fc ≡ 1) ⊎ (fc ≡ 2)
      → InRange 2000 addr qty
      → callback fc addr qty (fill junk 0 qty 0) s ≡ (pos 0, bits, new)
      → handle_request h junk req 5 resp s
        ≡ reply (bits_response resp (req 0) (get_u16 req 3) bits) new
  bits_served callback bits req head has function range call =
      let call' : callback (req 0) (get_u16 req 1) (get_u16 req 3) (fill junk 0 (get_u16 req 3) 0) s
          ≡ (pos 0, bits, new) =
        rw (head.function, head.address, head.quantity) call in
      serves_bits_read h junk req 5 resp s callback has (rw head.function function) (omega arith)
        (rw (head.address, head.quantity) range)
      ∙ ap (after_read resp (req 0) (bits_response resp (req 0) (get_u16 req 3))) call'

  -- FC03 and FC04 of a client, 1 to 125 registers within the address space: if the server's
  -- callback succeeds with an array of 16-bit values, the client accepts the response and
  -- extracts exactly these values; the application's state is the one that the callback left.
  pub read_registers_round_trip :
      (callback : _) (values : Buf)
      → h.read_registers ≡ some callback
      → (fc ≡ 3) ⊎ (fc ≡ 4)
      → IsU16 addr
      → InRange 125 addr qty
      → callback fc addr qty junk s ≡ (pos 0, values, new)
      → ((k : ℕ) → k < qty → IsU16 (values k))
      → let req = build_read pdu fc addr qty in
        let r = handle_request h junk req.bytes req.len resp s in
        Delivers req.bytes r new qty (get_registers r.bytes qty out) values
  unfolding build_read
  read_registers_round_trip callback values has function word range call words =
      let head = build_read-HasHead pdu fc addr qty word (omega (arith, range.at_most)) in
      rw (registers_served callback values _ head has function range call)
        (registers_delivered _ resp out fc addr qty new head values function range.at_most words)

  -- FC01 and FC02 of a client, 1 to 2000 bits within the address space: if the server's callback
  -- succeeds on the zeroed array, the client accepts the response and extracts 0 for each zero
  -- byte that the callback left and 1 for any other.
  pub read_bits_round_trip :
      (callback : _) (bits : Buf)
      → h.read_bits ≡ some callback
      → (fc ≡ 1) ⊎ (fc ≡ 2)
      → IsU16 addr
      → InRange 2000 addr qty
      → callback fc addr qty (fill junk 0 qty 0) s ≡ (pos 0, bits, new)
      → let req = build_read pdu fc addr qty in
        let r = handle_request h junk req.bytes req.len resp s in
        Delivers req.bytes r new qty (get_bits r.bytes qty out) (λ k. if bits k == 0 then 0 else 1)
  unfolding build_read
  read_bits_round_trip callback bits has function word range call =
      let head = build_read-HasHead pdu fc addr qty word (omega (arith, range.at_most)) in
      rw (bits_served callback bits _ head has function range call)
        (bits_delivered _ resp out fc addr qty new head bits function range.at_most)

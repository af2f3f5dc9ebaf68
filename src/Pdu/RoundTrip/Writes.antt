-- ===== src/Pdu/RoundTrip/Writes.antt =====
-- FC05, FC06, FC15 and FC16: the server's callback receives what the client was given.
use modbus_protocol.Prelude.{
  failed, Bool-cases, ℕ, ℤ, pos, ◌*◌, ◌≤◌, ◌<◌, ◌≡◌, refl, ◌⊎◌, inl, inr, some, arith, Buf, store,
  Agree, IsU16, if◌then◌else◌, ◌==◌,
}
use modbus_protocol.Pdu.Wire.{
  exception_from_callback_rc, bit_byte_count, take_registers, unpack_bits,
}
use modbus_protocol.Pdu.Wire.Words.{take_registers-put_registers}
use modbus_protocol.Pdu.Wire.Packing.{unpack_bits-pack_bits}
use modbus_protocol.Pdu.Build.{
  build_read, build_write_single, build_write_registers, build_write_coils,
}
use modbus_protocol.Pdu.Build.Layout.{
  build_read-HasHead, build_write_registers-HasHead, build_write_coils-HasHead,
  build_write_registers_count, build_write_coils_count,
}
use modbus_protocol.Pdu.Check.{check_response}
use modbus_protocol.Pdu.Serve.{Handlers, Reply, after_write, handle_request}
use modbus_protocol.Pdu.Dispatch.{InRange, HasData}
use modbus_protocol.Pdu.Dispatch.Serves.{
  serves_coil_write, serves_register_write, serves_coils_write, serves_registers_write,
}
use modbus_protocol.Pdu.Dispatch.Agreement.{build_exception_checked, build_write_echo_accepted}
use modbus_protocol.Pdu.Dispatch.Replies.{exception_code_bounds}

-- What a client's check yields for what the server's callback returned: 0 for 0, and an
-- exception code for anything else.
abbrev pub outcome : ℤ → ℤ
outcome rc = if failed rc then pos (exception_from_callback_rc rc) else pos 0

-- The reply comes from one call of the callback, at this address and quantity, with an array
-- that begins with the expected items, and the client learns the outcome of that call.
pub record Arrives {S : Type 0} (req resp : Buf) (r : Reply S) (callback : ℕ → ℕ → Buf → S → ℤ × S)
    (addr qty : ℕ) (expected : Buf) (s : S) : Type 0 where
  pub sent : Buf
  pub faithful : Agree qty sent expected
  pub served : r ≡ after_write req resp (callback addr qty sent s)
  pub learned : check_response req r.bytes r.len ≡ outcome (callback addr qty sent s).0

-- A write leaves the state that its callback left.
pub after_write_state :
    {S : Type 0} (req resp : Buf) (t : ℤ × S) → (after_write req resp t).state ≡ t.1
after_write_state req resp (rc, s) = ground arith

outcome_learned :
    {S : Type 0} (req resp : Buf) (t : ℤ × S)
    → (req 0 ≡ 5) ⊎ (req 0 ≡ 6) ⊎ (req 0 ≡ 15) ⊎ (req 0 ≡ 16)
    → let r = after_write req resp t in check_response req r.bytes r.len ≡ outcome t.0
outcome_learned req resp (rc, s) fc =
    let (lo, hi) = exception_code_bounds rc in
    elim (Bool-cases (failed rc)) [
      | inl bad ↦ rw bad (build_exception_checked req resp _ (omega arith) lo hi)
      | inr good ↦ rw good (build_write_echo_accepted req resp fc)
    ]

module _ {S : Type 0} (h : Handlers S) (junk pdu resp : Buf) (addr : ℕ) (s : S)
    (callback : ℕ → ℕ → Buf → S → ℤ × S) where
  arrives :
      (req : Buf) (r : Reply S) (qty : ℕ) (sent expected : Buf)
      → (req 0 ≡ 5) ⊎ (req 0 ≡ 6) ⊎ (req 0 ≡ 15) ⊎ (req 0 ≡ 16)
      → Agree qty sent expected
      → r ≡ after_write req resp (callback addr qty sent s)
      → Arrives req resp r callback addr qty expected s
  arrives req r qty sent expected fc same e = record {
    sent = sent;
    faithful = same;
    served = e;
    learned = rw e (outcome_learned req resp (callback addr qty sent s) fc);
  }

  -- FC16 of a client, 1 to 123 registers within the address space: the reply is made from one call
  -- of the callback with the client's address, quantity and values, and the client's check yields
  -- 0 if the callback returned 0, the exception code made from its result otherwise.
  pub write_registers-Arrives :
      (qty : ℕ) (values : Buf)
      → h.write_registers ≡ some callback
      → IsU16 addr
      → InRange 123 addr qty
      → ((k : ℕ) → k < qty → IsU16 (values k))
      → let req = build_write_registers pdu addr qty values in
        let r = handle_request h junk req.bytes req.len resp s in
        Arrives req.bytes resp r callback addr qty values s
  write_registers-Arrives qty values has word range words =
      let w = build_write_registers pdu addr qty values in
      let head =
        build_write_registers-HasHead pdu addr qty values word (omega (arith, range.at_most)) in
      let sized : HasData w.bytes w.len (qty * 2) = record {
        whole = unfold build_write_registers in refl;
        stated = build_write_registers_count pdu addr qty values (omega (arith, range.at_most));
      } in
      let e =
        serves_registers_write h junk w.bytes w.len resp s callback has head.function
          (rw head.quantity sized) (rw (head.address, head.quantity) range) in
      arrives w.bytes _ qty (take_registers qty 0 w.bytes 6 junk) values
        (inr (inr (inr head.function)))
        (λ k lt.
          unfold build_write_registers in
          take_registers-put_registers qty values _ 6 junk k lt (words k lt))
        (rw (head.address, head.quantity) at e)

  -- FC15 of a client, 1 to 1968 coils within the address space: the reply is made from one call of
  -- the callback with the client's address and quantity, and with 0 for each zero byte of the
  -- client's array and 1 for any other; the client's check yields 0 if the callback returned 0,
  -- the exception code made from its result otherwise.
  pub write_coils-Arrives :
      (qty : ℕ) (values : Buf)
      → h.write_bits ≡ some callback
      → IsU16 addr
      → InRange 1968 addr qty
      → let req = build_write_coils pdu addr qty values in
        let r = handle_request h junk req.bytes req.len resp s in
        Arrives req.bytes resp r callback addr qty (λ k. if values k == 0 then 0 else 1) s
  write_coils-Arrives qty values has word range =
      let w = build_write_coils pdu addr qty values in
      let head =
        build_write_coils-HasHead pdu addr qty values word (omega (arith, range.at_most)) in
      let sized : HasData w.bytes w.len (bit_byte_count qty) = record {
        whole = unfold build_write_coils in refl;
        stated = build_write_coils_count pdu addr qty values (omega (arith, range.at_most));
      } in
      let e =
        serves_coils_write h junk w.bytes w.len resp s callback has head.function
          (rw head.quantity sized) (rw (head.address, head.quantity) range) in
      arrives w.bytes _ qty (unpack_bits w.bytes 6 qty junk) _ (inr (inr (inl head.function)))
        (λ k lt. unfold build_write_coils in unpack_bits-pack_bits values qty _ 6 junk k lt)
        (rw (head.address, head.quantity) at e)

  -- FC06 of a client, for any address and value: the reply is made from one call of the callback
  -- for one register with the client's value, and the client's check yields 0 if the callback
  -- returned 0, the exception code made from its result otherwise.
  pub write_register-Arrives :
      (value : ℕ)
      → h.write_registers ≡ some callback
      → IsU16 addr
      → IsU16 value
      → let req = build_write_single pdu 6 addr value in
        let r = handle_request h junk req.bytes req.len resp s in
        Arrives req.bytes resp r callback addr 1 (λ _. value) s
  unfolding build_write_single
  write_register-Arrives value has word word' =
      let w = build_read pdu 6 addr value in
      let head = build_read-HasHead pdu 6 addr value word word' in
      let e =
        serves_register_write h junk w.bytes w.len resp s callback has head.function
          (unfold build_read in omega arith) in
      arrives w.bytes _ 1 (store junk 0 value) _ (inr (inl head.function)) (λ k lt. ground arith)
        (rw (head.address, head.quantity) at e)

  -- FC05 of a client, which sends 0xFF00 for 1 and 0x0000 for 0, at any address: the reply is made
  -- from one call of the callback for one coil with that bit, and the client's check yields 0 if
  -- the callback returned 0, the exception code made from its result otherwise.
  pub write_coil-Arrives :
      (bit : ℕ)
      → h.write_bits ≡ some callback
      → IsU16 addr
      → bit ≤ 1
      → let req = build_write_single pdu 5 addr (bit * 65280) in
        let r = handle_request h junk req.bytes req.len resp s in
        Arrives req.bytes resp r callback addr 1 (λ _. bit) s
  unfolding build_write_single
  write_coil-Arrives bit has word small =
      let w = build_read pdu 5 addr (bit * 65280) in
      let head = build_read-HasHead pdu 5 addr (bit * 65280) word (omega arith) in
      let e =
        serves_coil_write h junk w.bytes w.len resp s callback bit has head.function
          (unfold build_read in omega arith) (head.quantity, small) in
      arrives w.bytes _ 1 (store junk 0 bit) _ (inl head.function) (λ k lt. ground arith)
        (rw head.address at e)

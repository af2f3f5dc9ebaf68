-- ===== src/Rtu/Writes.antt =====
-- A write of registers over RTU, from the client's call through the server's turn to the client's
-- result: src/modbus_rtu_client.c against src/modbus_rtu_server.c.
use modbus_protocol.Prelude.{
  ℕ, ℤ, ◌+◌, ◌*◌, ◌<◌, ◌≡◌, refl, ap, ◌∙◌, inr, arith, some, List, false, ◌||◌, Buf, offset, Agree,
  IsU16, failed, ltb, ◌==◌, if_cases,
}
use modbus_protocol.Pdu.Build.{build_write_registers}
use modbus_protocol.Pdu.Build.Layout.{build_write_registers-HasHead, build_write_registers_count}
use modbus_protocol.Pdu.Check.{check_response}
use modbus_protocol.Pdu.Serve.{Reply, handle_request}
use modbus_protocol.Pdu.Dispatch.{InRange}
use modbus_protocol.Pdu.RoundTrip.Writes.{
  after_write_state, outcome, Arrives, write_registers-Arrives,
}
use modbus_protocol.Rtu.Server.{Config, Rx, ReadResult, Turn, server_on_process}
use modbus_protocol.Rtu.Server.Receives.{IsWhole, counted}
use modbus_protocol.Rtu.Bus.{Bus}
use modbus_protocol.Rtu.Client.{
  RtuClientCtx, Wire, rtu_request_adu, response_deadline_us, rtu_transact, rtu_client_rc,
}
use modbus_protocol.Rtu.Client.Api.{rtu_write_multiple_registers}
use modbus_protocol.Rtu.Exchange.{ClientReady, ServerReady, rtu_transact-server_on_process}
use modbus_protocol.Rtu.Client.Replied.{Brings}

-- What a write comes to: one call of the callback with the client's values.
pub record RtuWriteDone {S : Type 0} (call : ℤ × Bus) (state : S)
    (callback : ℕ → ℕ → Buf → S → ℤ × S) (addr qty : ℕ) (values : Buf) (s : S) : Type 0 where
  pub passed : Buf
  pub faithful : Agree qty passed values
  pub called : state ≡ (callback addr qty passed s).1
  pub returned : call.0 ≡ outcome (callback addr qty passed s).0

rtu_client_rc-outcome : (rc : ℤ) → rtu_client_rc (outcome rc) ≡ outcome rc
rtu_client_rc-outcome rc = if_cases (λ z. rtu_client_rc z ≡ z) (failed rc) (λ _. refl) (λ _. refl)

module _ {S : Type 0} (cfg : Config S) (server_junk server_resp : Buf) (server_send : Buf → ℕ → ℤ)
    (adu : Buf) (reads : List ReadResult) (now_us : ℕ) (rx : Rx) (s : S) (wire : Wire)
    (junk echo pdu resp values : Buf) (ctx : RtuClientCtx) (bus : Bus) (addr qty : ℕ) where
  abbrev pub write_request : Buf
  write_request = (build_write_registers pdu addr qty values).bytes

  -- FC16 over RTU, 1 to 123 registers of 16-bit values within the address space, of a client and a
  -- server that are ready for the request: if the server has a callback that writes registers, and the
  -- frame that the server sends in its turn comes in time, then the state that the turn leaves is the
  -- one of a call of the callback with the client's address, quantity and values, and the client's
  -- call returns 0 if that call did, the exception code made from its result otherwise.
  pub rtu_write_multiple_registers-RtuWriteDone :
      (callback : _) (turn : Turn S) (frame : Buf) (len : ℕ)
      → cfg.handlers.write_registers ≡ some callback
      → IsU16 addr
      → InRange 123 addr qty
      → ((k : ℕ) → k < qty → IsU16 (values k))
      → ClientReady wire junk ctx write_request (6 + qty * 2)
      → ServerReady cfg server_resp adu reads now_us rx ctx.cfg.unit_id
          (rtu_request_adu junk ctx.cfg.unit_id write_request (6 + qty * 2))
          (6 + qty * 2 + 3)
      → server_on_process cfg server_junk server_resp server_send adu reads now_us rx s ≡ some turn
      → turn.sent ≡ some (frame, len)
      → Brings wire.line (response_deadline_us ctx bus wire.response_clock) frame len
      → RtuWriteDone
          (rtu_write_multiple_registers wire junk echo pdu resp bus
            (some ctx)
            addr
            qty
            (some values))
          turn.state
          callback
          addr
          qty
          values
          s
  unfolding rtu_write_multiple_registers
  rtu_write_multiple_registers-RtuWriteDone callback turn frame len has word range words client
        server ran sent brings =
      let n = 6 + qty * 2 in
      let head =
        build_write_registers-HasHead pdu addr qty values word (omega (arith, range.at_most)) in
      let count = build_write_registers_count pdu addr qty values (omega (arith, range.at_most)) in
      let whole : IsWhole write_request n =
        counted (inr head.function) (omega (arith, count, range.some_item)) (omega (arith, count))
          (omega (arith, range.at_most)) in
      let (replied, state) =
        rtu_transact-server_on_process cfg server_junk server_resp server_send adu reads now_us rx s
          wire junk echo ctx bus write_request n resp turn frame len client server whole ran sent
          brings in
      let r = handle_request cfg.handlers server_junk write_request n (offset server_resp 1) s in
      let arrives : Arrives write_request (offset server_resp 1) r callback addr qty values s =
        unfold build_write_registers in
        write_registers-Arrives cfg.handlers server_junk pdu (offset server_resp 1) addr s callback
          qty values has word range words in
      let in_range : (qty == 0 || ltb 123 qty) ≡ false =
        let lo = range.some_item in let hi = range.at_most in ground arith in
      let learned : check_response write_request r.bytes r.len
          ≡ outcome (callback addr qty arrives.sent s).0 =
        arrives.learned in
      let result : (rtu_transact wire junk echo ctx bus write_request n resp).rc
          ≡ outcome (callback addr qty arrives.sent s).0 =
        replied.returned
        ∙ ap rtu_client_rc learned
        ∙ rtu_client_rc-outcome (callback addr qty arrives.sent s).0 in
      record {
        passed = arrives.sent;
        faithful = arrives.faithful;
        called =
            state
            ∙ ap (λ (q : Reply S). q.state) arrives.served
            ∙ after_write_state write_request (offset server_resp 1)
                (callback addr qty arrives.sent s);
        returned = rw in_range (unfold build_write_registers in result);
      }

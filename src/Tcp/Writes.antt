-- ===== src/Tcp/Writes.antt =====
-- A write of registers over TCP, from the client's call to the server's callback and back: the
-- client of src/modbus_tcp_client.c against the reply of src/modbus_tcp_server.c.
use modbus_protocol.Prelude.{
  ℕ, ℤ, pos, ◌+◌, ◌*◌, ◌≤◌, ◌<◌, ◌≡◌, refl, ap, ◌∙◌, inl, inr, arith, Option, some, List, ◌∷◌, true,
  false, ◌||◌, Buf, offset, Agree, IsU16, failed, ltb, ◌==◌, Bool-cases,
}
use modbus_protocol.Pdu.Build.{build_write_registers}
use modbus_protocol.Pdu.Check.{check_response}
use modbus_protocol.Pdu.Serve.{Handlers, Reply, handle_request}
use modbus_protocol.Pdu.Dispatch.{InRange}
use modbus_protocol.Pdu.Dispatch.Locality.{handle_request_local}
use modbus_protocol.Pdu.Dispatch.Bounds.{handle_request-Fits}
use modbus_protocol.Pdu.RoundTrip.Writes.{
  after_write_state, outcome, Arrives, write_registers-Arrives,
}
use modbus_protocol.Tcp.Stream.{Socket}
use modbus_protocol.Tcp.Server.Turns.{Replies}
use modbus_protocol.Tcp.Client.{
  ClientCtx, effective_response_timeout_ms, PollEvent, readable, transact, Transaction, client_rc,
}
use modbus_protocol.Tcp.Client.Api.{write_multiple_registers, finish_write}
use modbus_protocol.Tcp.Reads.{carried_pdu}
use modbus_protocol.Tcp.Reads.Arrived.{Brings}
use modbus_protocol.Tcp.Reads.Transacted.{sent_request, transact-Replied}

-- The state that a call of the application with the client's values left, and its outcome.
pub record WriteDone {S : Type 0} (o : Option (ℤ × Option ClientCtx)) (r : Reply S)
    (callback : ℕ → ℕ → Buf → S → ℤ × S) (addr qty : ℕ) (values : Buf) (s : S) : Type 0 where
  pub passed : Buf
  pub faithful : Agree qty passed values
  pub state : r.state ≡ (callback addr qty passed s).1
  pub ctx : ClientCtx
  pub returned : o ≡ some (outcome (callback addr qty passed s).0, some ctx)

client_rc-outcome : (rc : ℤ) → client_rc (outcome rc) ≡ outcome rc
client_rc-outcome rc = elim (Bool-cases (failed rc)) [
  | inl bad ↦ rw bad refl
  | inr good ↦ rw good refl
]

module _ {S : Type 0} (h : Handlers S) (server_junk server_resp : Buf) (send : Buf → ℕ → ℤ)
    (junk pdu resp : Buf) (start now : ℕ) (more : List (ℕ × PollEvent)) (ctx : ClientCtx)
    (addr qty : ℕ) (values : Buf) (s : S) where
  -- The frame that the client sends, and the server's reply to the PDU in it.
  abbrev pub write_request : Buf
  write_request =
      sent_request send junk start now more ctx (build_write_registers pdu addr qty values).bytes
        (6 + qty * 2)

  abbrev pub write_reply : Reply S
  write_reply = handle_request h server_junk (offset write_request 7) (6 + qty * 2) server_resp s

  -- FC16 over TCP, 1 to 123 registers of 16-bit values within the address space, by a connected
  -- client with a 16-bit transaction id, whose request goes out, whose first poll finds the socket
  -- readable before the deadline, and whose two receives succeed: if the server has a callback that writes registers, and
  -- the stream goes on with a frame that answers the request with the server's reply, then the state
  -- behind that reply is the one of a call of the callback with the client's address, quantity and
  -- values, and the client's call returns 0 if that call did, the exception code made from its
  -- result otherwise.
  pub write_multiple_registers-WriteDone :
      (callback : _) (frame : Buf) (socket : Socket)
      → h.write_registers ≡ some callback
      → IsU16 addr
      → InRange 123 addr qty
      → ((k : ℕ) → k < qty → IsU16 (values k))
      → ctx.tid ≤ 65535
      → ctx.initialized ≡ true
      → ctx.sock ≡ some socket
      → send write_request (7 + (6 + qty * 2)) ≡ pos 0
      → now < start + effective_response_timeout_ms ctx
      → Replies write_request frame write_reply
      → Brings socket resp frame write_reply.len
      → WriteDone
          (write_multiple_registers send junk pdu resp
            record { sent_ms = start; rounds = (now, readable) ∷ more }
            (some ctx)
            addr
            qty
            (some values))
          write_reply
          callback
          addr
          qty
          values
          s
  unfolding write_multiple_registers
  write_multiple_registers-WriteDone callback frame socket has word range words small on open' sent
        early replies brings =
      let n = 6 + qty * 2 in
      let req = (build_write_registers pdu addr qty values).bytes in
      let same : write_reply ≡ handle_request h server_junk req n server_resp s =
        handle_request_local h server_junk (offset write_request 7) req n server_resp s
          (omega arith) (carried_pdu junk _ ctx.unit_id req n) in
      let arrives : Arrives req server_resp (handle_request h server_junk req n server_resp s)
          callback addr qty values s =
        unfold build_write_registers in
        write_registers-Arrives h server_junk pdu server_resp addr s callback qty values has word
          range words in
      let fits = handle_request-Fits h server_junk (offset write_request 7) n server_resp s in
      let replied =
        transact-Replied send junk start now more ctx req n socket resp frame write_reply small on
          open' sent early brings replies (omega (arith, fits.at_least)) fits.at_most in
      let learned : check_response req (handle_request h server_junk req n server_resp s).bytes
            (handle_request h server_junk req n server_resp s).len
          ≡ outcome (callback addr qty arrives.sent s).0 =
        arrives.learned in
      let result : replied.done.rc ≡ outcome (callback addr qty arrives.sent s).0 =
        replied.checked
        ∙ ap client_rc (ap (λ (r : Reply S). check_response req r.bytes r.len) same ∙ learned)
        ∙ client_rc-outcome (callback addr qty arrives.sent s).0 in
      let call : Option Transaction =
        transact send junk record { sent_ms = start; rounds = (now, readable) ∷ more } ctx req
          (build_write_registers pdu addr qty values).len resp in
      let returned : call ≡ some replied.done = unfold build_write_registers in replied.returned in
      let in_range : (qty == 0 || ltb 123 qty) ≡ false =
        let lo = range.some_item in let hi = range.at_most in ground arith in
      record {
        passed = arrives.sent;
        faithful = arrives.faithful;
        state =
            ap (λ (r : Reply S). r.state) same
            ∙ ap (λ (r : Reply S). r.state) arrives.served
            ∙ after_write_state req server_resp (callback addr qty arrives.sent s);
        ctx = replied.done.ctx;
        returned = rw in_range (
            ap
              (finish_write send junk pdu resp
                record { sent_ms = start; rounds = (now, readable) ∷ more })
              returned
            ∙ ap (λ (rc : ℤ). some (rc, some replied.done.ctx)) result);
      }

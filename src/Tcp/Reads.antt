-- ===== src/Tcp/Reads.antt =====
-- A read of registers over TCP, from the client's call to its output array: the client of
-- src/modbus_tcp_client.c against the reply of src/modbus_tcp_server.c.
pub mod Arrived
pub mod Transacted
use modbus_protocol.Prelude.{
  ℕ, ℤ, pos, ◌+◌, ◌-◌, ◌*◌, ◌≤◌, ◌<◌, ◌≡◌, refl, sym, ap, ◌∙◌, ◌⊎◌, inl, inr, arith, Option, some,
  none, List, ◌∷◌, true, false, ◌||◌, Buf, offset, Agree, IsU16, failed, ltb, ◌==◌, if◌then◌else◌,
}
use modbus_protocol.Pdu.Wire.{put_u16, get_u16, take_registers}
use modbus_protocol.Pdu.Wire.Words.{get_u16-Agree, take_registers_inside}
use modbus_protocol.Pdu.Build.{build_read}
use modbus_protocol.Pdu.Build.Layout.{build_read-HasHead}
use modbus_protocol.Pdu.Check.{check_response, get_registers}
use modbus_protocol.Pdu.Serve.{Handlers, Reply, reply, registers_response, handle_request}
use modbus_protocol.Pdu.Dispatch.{InRange}
use modbus_protocol.Pdu.Dispatch.Locality.{handle_request_local}
use modbus_protocol.Pdu.Dispatch.Bounds.{handle_request-Fits}
use modbus_protocol.Pdu.RoundTrip.Reads.{
  get_registers_local, read_registers_round_trip, registers_served,
}
use modbus_protocol.Tcp.Stream.{Socket}
use modbus_protocol.Tcp.Server.Turns.{Replies}
use modbus_protocol.Tcp.Client.{
  ClientCtx, effective_response_timeout_ms, Clock, PollEvent, readable, transact, Transaction,
  request_adu, client_rc,
}
use modbus_protocol.Tcp.Client.Api.{Call, client_read_registers, extract}
use modbus_protocol.Tcp.Reads.Arrived.{Brings}
use modbus_protocol.Tcp.Reads.Transacted.{Replied, sent_request, transact-Replied}

-- What the caller has after the call.
pub record ReadDone (o : Option Call) (qty : ℕ) (values : Buf) : Type 0 where
  pub call : Call
  pub out : Buf
  pub returned : o ≡ some call
  pub success : call.rc ≡ pos 0
  pub output : call.out ≡ some out
  pub extracted : (k : ℕ) → k < qty → out k ≡ values k

extract_lem :
    (send : Buf → ℕ → ℤ) (junk pdu resp : Buf) (clock : Clock) (get : Buf → Buf → Buf) (out : Buf)
    (o : Option Transaction) (t : Transaction)
    → o ≡ some t
    → failed t.rc ≡ false
    → extract send junk pdu resp clock get out o
      ≡ some record { rc = t.rc; ctx = some t.ctx; out = some (get (offset t.resp 7) out) }
extract_lem send junk pdu resp clock get out o t e good = rw e (rw good refl)

pub carried_pdu :
    (junk : Buf) (tid unit_id : ℕ) (pdu : Buf) (n : ℕ)
    → Agree n (offset (request_adu junk tid unit_id pdu n) 7) pdu
unfolding request_adu put_u16
carried_pdu junk tid unit_id pdu n j lt = let back : 7 + j - 7 ≡ j = omega arith in ground arith

module _ {S : Type 0} (h : Handlers S) (server_junk server_resp : Buf) (send : Buf → ℕ → ℤ)
    (junk pdu resp out : Buf) (start now : ℕ) (more : List (ℕ × PollEvent)) (ctx : ClientCtx)
    (fc addr qty : ℕ) (s new : S) where
  -- The frame that the client sends, and the server's reply to the PDU in it.
  abbrev pub read_request : Buf
  read_request = sent_request send junk start now more ctx (build_read pdu fc addr qty).bytes 5

  abbrev pub server_reply : Reply S
  server_reply = handle_request h server_junk (offset read_request 7) 5 server_resp s

  -- A read of 1 to 125 registers over TCP, within the address space, by a connected client with a
  -- 16-bit transaction id, whose request goes out, whose first poll finds the socket readable
  -- before the deadline, and whose two receives succeed: if the server's callback succeeds with 16-bit values, and the stream
  -- goes on with a frame that answers the request with the server's reply, then the call returns 0
  -- and the output array holds exactly these values.
  pub client_read_registers-ReadDone :
      (callback : _) (values frame : Buf) (socket : Socket)
      → h.read_registers ≡ some callback
      → (fc ≡ 3) ⊎ (fc ≡ 4)
      → IsU16 addr
      → InRange 125 addr qty
      → callback fc addr qty server_junk s ≡ (pos 0, values, new)
      → ((k : ℕ) → k < qty → IsU16 (values k))
      → ctx.tid ≤ 65535
      → ctx.initialized ≡ true
      → ctx.sock ≡ some socket
      → send read_request 12 ≡ pos 0
      → now < start + effective_response_timeout_ms ctx
      → Replies read_request frame server_reply
      → Brings socket resp frame server_reply.len
      → ReadDone
          (client_read_registers send junk pdu resp
            record { sent_ms = start; rounds = (now, readable) ∷ more }
            (some ctx)
            fc
            addr
            qty
            (some out))
          qty
          values
  unfolding client_read_registers
  client_read_registers-ReadDone callback values frame socket has function word range call words
        small on open' sent early replies brings =
      let req = (build_read pdu fc addr qty).bytes in
      let head = build_read-HasHead pdu fc addr qty word (omega (arith, range.at_most)) in
      let same : server_reply ≡ handle_request h server_junk req 5 server_resp s =
        handle_request_local h server_junk (offset read_request 7) req 5 server_resp s (omega arith)
          (carried_pdu junk _ ctx.unit_id req 5) in
      let served =
        registers_served h server_junk pdu server_resp out fc addr qty s new callback values req
          head has function range call in
      let size : server_reply.len ≡ 2 + qty * 2 =
        ap (λ (r : Reply S). r.len) (same ∙ served)
        ∙ unfold registers_response in ap (λ (q : ℕ). 2 + q * 2) head.quantity in
      let delivered =
        read_registers_round_trip h server_junk pdu server_resp out fc addr qty s new callback
          values has function word range call words in
      let fits = handle_request-Fits h server_junk (offset read_request 7) 5 server_resp s in
      let replied =
        transact-Replied send junk start now more ctx req 5 socket resp frame server_reply small on
          open' sent early brings replies (omega (arith, fits.at_least)) fits.at_most in
      let accepted : check_response req (handle_request h server_junk req 5 server_resp s).bytes
            (handle_request h server_junk req 5 server_resp s).len
          ≡ pos 0 =
        unfold build_read in delivered.accepted in
      let success : replied.done.rc ≡ pos 0 =
        replied.checked
        ∙ ap client_rc (ap (λ (r : Reply S). check_response req r.bytes r.len) same ∙ accepted) in
      let in_range : (qty == 0 || ltb 125 qty) ≡ false =
        let lo = range.some_item in let hi = range.at_most in ground arith in
      let taken = get_registers (offset replied.done.resp 7) qty out in
      record {
        call = record { rc = replied.done.rc; ctx = some replied.done.ctx; out = some taken };
        out = taken;
        returned = rw in_range (
            extract_lem send junk pdu resp
              record { sent_ms = start; rounds = (now, readable) ∷ more }
              (λ p o. get_registers p qty o) out _ replied.done
              (unfold build_read in replied.returned) (rw success refl));
        success = success;
        output = refl;
        extracted = λ k lt.
            get_registers_local (offset replied.done.resp 7)
              (handle_request h server_junk req 5 server_resp s).bytes qty out out k
              (λ j below.
                replied.bytes j (omega (arith, size)) ∙ ap (λ (r : Reply S). r.bytes j) same)
              lt
            ∙ unfold build_read in delivered.extracted k lt;
      }

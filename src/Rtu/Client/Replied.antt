-- ===== src/Rtu/Client/Replied.antt =====
-- A transaction of the RTU client whose reply comes in time: the client's check is applied to the
-- server's reply, for every function code.
use modbus_protocol.Prelude.{
  ℕ, pos, negsuc, ◌+◌, ◌-◌, ◌≤◌, ◌≡◌, ◌≢◌, refl, ap, ◌∙◌, arith, some, true, false, not, failed, u8,
  bit_or, Buf, offset, Agree, leb, ltb, ◌==◌, if◌then◌else◌,
}
use modbus_protocol.Pdu.Check.{check_response}
use modbus_protocol.Pdu.Dispatch.Locality.{check_response_local}
use modbus_protocol.Rtu.Crc.{validate_crc}
use modbus_protocol.Rtu.Crc.Detection.{validate_crc_agree}
use modbus_protocol.Rtu.Request.Frames.{Carries}
use modbus_protocol.Rtu.Line.{Line, LineRead, write_all}
use modbus_protocol.Rtu.Line.Prompt.{IsPrompt, read_exact_timeout-Succeeds}
use modbus_protocol.Rtu.Bus.{Bus, mark_bus_transaction_done}
use modbus_protocol.Rtu.Client.{
  RtuClientCtx, Wire, RtuTransaction, response_deadline_us, rtu_client_rc, rtu_conclude,
  rtu_transact, after_send, receive_reply,
}
use modbus_protocol.Rtu.Response.{RtuResponse, recv_rest, recv_counted, rtu_recv_response}
use modbus_protocol.Rtu.Client.Receipt.{Begun, next, next-Begun, rtu_recv_response-Receives}
use modbus_protocol.Rtu.Client.Measured.{Measured, exception, counted, echo}

-- The line goes on with that frame, and each byte of it comes before the deadline.
pub record Brings (line : Line) (deadline_us : ℕ) (frame : Buf) (len : ℕ) : Type 0 where
  pub bytes : Agree len (offset line.incoming line.taken) frame
  pub prompt : IsPrompt deadline_us len line.rounds

module _ (d : ℕ) (line : Line) (unit_id fc : ℕ) (buf bytes frame : Buf) (len : ℕ)
    (brings : Brings line d frame (len + 3)) (carries : Carries frame unit_id bytes len)
    (short : len ≤ 253) where
  -- What is received is the frame.
  abbrev Arrives : RtuResponse → Type 0
  Arrives r = (r.rc ≡ pos 0) × (r.total_len ≡ len + 3)

  rest-Arrives :
      (r : LineRead) (k : ℕ)
      → Begun d line unit_id fc buf k r
      → 1 ≤ k
      → k ≤ len + 3
      → IsPrompt d (len + 3 - k) r.line.rounds
      → Arrives (recv_rest d unit_id r k (len + 3))
  unfolding recv_rest
  rest-Arrives r k b one begun prompt =
      let n = len + 3 - k in
      let size : k + n ≡ len + 3 = omega arith in
      let enough : n + 0 ≡ n = omega arith in
      let body = next d line unit_id fc buf r k n in
      let got : body.rc ≡ pos 0 =
        (read_exact_timeout-Succeeds d r.line r.buf k n 0 (rw enough prompt)).ok in
      let whole = next-Begun d line unit_id fc buf k n r b (omega arith) got in
      let same : Agree (len + 3) body.buf frame =
        λ j lt. whole.bytes j (omega arith) ∙ brings.bytes j lt in
      let valid : validate_crc (some body.buf) (len + 3) ≡ pos 0 =
        validate_crc_agree (len + 3) body.buf frame same ∙ carries.valid in
      let own : (body.buf 0 == unit_id) ≡ true =
        let first : body.buf 0 ≡ unit_id = same 0 (omega arith) ∙ carries.unit in ground arith in
      rw (got, valid, own) (refl, refl)

  counted-Arrives :
      (head : LineRead)
      → Begun d line unit_id fc buf 2 head
      → len ≡ 2 + bytes 1
      → IsPrompt d (len + 1) head.line.rounds
      → Arrives (recv_counted d unit_id head)
  unfolding recv_counted
  counted-Arrives head b size prompt =
      let count = next d line unit_id fc buf head 2 1 in
      let calls : 1 + len ≡ len + 1 = omega arith in
      let read = read_exact_timeout-Succeeds d head.line head.buf 2 1 len (rw calls prompt) in
      let got = read.ok in
      let third = next-Begun d line unit_id fc buf 2 1 head b (omega arith) got in
      let stated : count.buf 2 ≡ bytes 1 =
        third.bytes 2 (omega arith)
        ∙ brings.bytes 2 (omega arith)
        ∙ carries.pdu_bytes 1 (omega arith) in
      let frame_len : 3 + count.buf 2 + 2 ≡ len + 3 = omega arith in
      let fits : ltb 256 (len + 3) ≡ false = ground arith in
      let rest : len + 3 - 3 ≡ len = omega arith in
      let fine : failed count.rc ≡ false = rw got refl in
      rw (fine, frame_len, fits)
        (rest-Arrives count 3 third (omega arith) (omega arith) (rw rest read.left))

  pub rtu_recv_response-Arrives :
      Measured fc bytes len → Arrives (rtu_recv_response d line unit_id fc buf)
  unfolding rtu_recv_response
  rtu_recv_response-Arrives measured =
      let start : LineRead = record { rc = pos 0; buf = buf; line = line } in
      let none_yet : Begun d line unit_id fc buf 0 start = record {
        same = refl;
        taken = omega arith;
        bytes = λ j lt. absurd (omega arith);
        untouched = λ j _. refl;
      } in
      let head = next d line unit_id fc buf start 0 2 in
      let calls : 2 + (len + 1) ≡ len + 3 = omega arith in
      let read = read_exact_timeout-Succeeds d line buf 0 2 (len + 1) (rw calls brings.prompt) in
      let got = read.ok in
      let b = next-Begun d line unit_id fc buf 0 2 start none_yet (omega arith) got in
      let second : head.buf 1 ≡ bytes 0 =
        b.bytes 1 (omega arith)
        ∙ brings.bytes 1 (omega arith)
        ∙ carries.pdu_bytes 0 (some_byte measured) in
      let rest : len + 3 - 2 ≡ len + 1 = omega arith in
      let go = rest-Arrives head 2 b (omega arith) (omega arith) (rw rest read.left) in
      let fine : failed head.rc ≡ false = rw got refl in
      by_kind head second fine go (λ size. counted-Arrives head b size read.left) measured
    where
      some_byte : Measured fc bytes len → 1 ≤ len
      some_byte (exception flag size) = omega arith
      some_byte (counted same plain low size small) = omega arith
      some_byte (echo same plain high size) = omega arith

      by_kind :
          (head : LineRead)
          → head.buf 1 ≡ bytes 0
          → failed head.rc ≡ false
          → Arrives (recv_rest d unit_id head 2 (len + 3))
          → (len ≡ 2 + bytes 1 → Arrives (recv_counted d unit_id head))
          → Measured fc bytes len
          → Arrives (
              if failed head.rc
              then record { rc = head.rc; buf = head.buf; total_len = 0; line = head.line }
              else if head.buf 1 == u8 (bit_or fc 0x80)
              then recv_rest d unit_id head 2 5
              else if not (head.buf 1 == fc)
              then record { rc = negsuc 9; buf = head.buf; total_len = 2; line = head.line }
              else if leb fc 4
              then recv_counted d unit_id head
              else recv_rest d unit_id head 2 8)
      by_kind head second got go count (exception flag size) =
          let flagged : (head.buf 1 == u8 (bit_or fc 0x80)) ≡ true = ground arith in
          let five : len + 3 ≡ 5 = omega arith in rw (got, flagged) (rw (← five) go)
      by_kind head second got go count (counted same plain low size small) =
          let flagged : (head.buf 1 == u8 (bit_or fc 0x80)) ≡ false = ground arith in
          let own : (head.buf 1 == fc) ≡ true = ground arith in
          let reads : leb fc 4 ≡ true = ground arith in rw (got, flagged, own, reads) (count size)
      by_kind head second got go count (echo same plain high size) =
          let flagged : (head.buf 1 == u8 (bit_or fc 0x80)) ≡ false = ground arith in
          let own : (head.buf 1 == fc) ≡ true = ground arith in
          let writes : leb fc 4 ≡ false = ground arith in
          let eight : len + 3 ≡ 8 = omega arith in rw (got, flagged, own, writes) (rw (← eight) go)

-- What a transaction comes to whose reply arrives.
pub record Replied (wire : Wire) (ctx : RtuClientCtx) (bus : Bus) (pdu bytes : Buf) (len : ℕ)
    (t : RtuTransaction) : Type 0 where
  pub returned : t.rc ≡ rtu_client_rc (check_response pdu bytes len)
  pub response : Agree len (offset t.resp 1) bytes
  pub released : t.bus ≡ mark_bus_transaction_done wire.end_time ctx.cfg.unit_id bus

rtu_conclude-Arrives :
    (pdu : Buf) (r : RtuResponse) (bytes : Buf) (len : ℕ)
    → r.rc ≡ pos 0
    → r.total_len ≡ len + 3
    → Agree len (offset r.buf 1) bytes
    → rtu_conclude pdu r ≡ rtu_client_rc (check_response pdu bytes len)
unfolding rtu_conclude
rtu_conclude-Arrives pdu r bytes len ok total same =
    let fine : failed r.rc ≡ false = rw ok refl in
    let size : r.total_len - 1 - 2 ≡ len = omega (arith, total) in
    rw (fine, size) (ap rtu_client_rc (check_response_local pdu (offset r.buf 1) bytes len same))

module _ (wire : Wire) (junk echo_buf : Buf) (ctx : RtuClientCtx) (bus : Bus) (pdu : Buf)
    (pdu_len : ℕ) (resp : Buf) where
  -- A connected client with a single unit id and no echo, whose request goes out: if a frame that
  -- carries a response of the server comes in time, whatever its function code, then the result is
  -- the client's check of that response, and its array holds it.
  pub rtu_transact-Replied :
      (bytes frame : Buf) (len : ℕ)
      → ctx.initialized ≡ true
      → ctx.cfg.unit_id ≢ 0
      → ctx.cfg.local_echo ≡ false
      → (write_all wire.writes wire.drained (1 + pdu_len + 2)).0 ≡ pos 0
      → Brings wire.line (response_deadline_us ctx bus wire.response_clock) frame (len + 3)
      → Carries frame ctx.cfg.unit_id bytes len
      → Measured (pdu 0) bytes len
      → len ≤ 253
      → Replied wire ctx bus pdu bytes len
          (rtu_transact wire junk echo_buf ctx bus pdu pdu_len resp)
  unfolding rtu_transact after_send receive_reply response_deadline_us
  rtu_transact-Replied bytes frame len on single quiet sent brings carries measured short =
      let d = response_deadline_us ctx bus wire.response_clock in
      let r = rtu_recv_response d wire.line ctx.cfg.unit_id (pdu 0) resp in
      let (ok, total) =
        rtu_recv_response-Arrives d wire.line ctx.cfg.unit_id (pdu 0) resp bytes frame len brings
          carries short measured in
      let whole =
        (rtu_recv_response-Receives d wire.line ctx.cfg.unit_id (pdu 0) resp).received ok in
      let same : Agree len (offset r.buf 1) bytes = λ j lt.
        whole.bytes (1 + j) (omega (arith, total))
        ∙ brings.bytes (1 + j) (omega arith)
        ∙ carries.pdu_bytes j lt in
      let one : (ctx.cfg.unit_id == 0) ≡ false = ground arith in
      let gone : failed (write_all wire.writes wire.drained (1 + pdu_len + 2)).0 ≡ false =
        rw sent refl in
      rw (on, one, gone, quiet)
        record {
          returned = rtu_conclude-Arrives pdu r bytes len ok total same;
          response = same;
          released = refl;
        }

-- ===== src/Tcp/Reads/Arrived.antt =====
-- A response that arrives: the client's receive functions on a stream that goes on with a frame.
use modbus_protocol.Prelude.{
  ℕ, pos, negsuc, suc, ◌+◌, ◌-◌, ◌≤◌, ◌<◌, ◌≡◌, refl, ap, ◌∙◌, arith, some, List, ◌∷◌, Buf, offset,
  Agree, Bool, true, false, not, ◌||◌, ltb, leb, ◌==◌, if◌then◌else◌,
}
use modbus_protocol.Pdu.Wire.{get_u16}
use modbus_protocol.Pdu.Wire.Words.{get_u16-Agree}
use modbus_protocol.Tcp.Stream.{Socket, recv_exact}
use modbus_protocol.Tcp.Stream.Exact.{received_bytes, recv_exact-RecvEnds}
use modbus_protocol.Tcp.Client.{
  RecvRc, recv_ok, recv_failed, recv_idle, recv_protocol_id_error, recv_partial_timeout, PollEvent,
  readable, wait_readable, Response, recv_body, recv_ready, recv_response, await_tid,
}

-- Both receives of the client succeed, and the stream goes on with that frame.
pub record Brings (socket : Socket) (resp frame : Buf) (len : ℕ) : Type 0 where
  pub header : (recv_exact (negsuc 1) socket resp 0 6).rc ≡ pos 0
  pub body :
      let h = recv_exact (negsuc 1) socket resp 0 6 in
      (recv_exact (negsuc 1) h.socket h.buf 6 (1 + len)).rc ≡ pos 0
  pub bytes : Agree (7 + len) (offset socket.incoming socket.taken) frame

pub record Arrived (r : Response) (frame : Buf) (len : ℕ) : Type 0 where
  pub ok : r.rc ≡ recv_ok
  pub total : r.total_len ≡ 7 + len
  pub bytes : Agree (7 + len) r.buf frame

pub recv_response-Arrived :
    (socket : Socket) (resp frame : Buf) (deadline_ms now_ms : ℕ) (more : List (ℕ × PollEvent))
    (len total_len : ℕ)
    → now_ms < deadline_ms
    → Brings socket resp frame len
    → get_u16 frame 4 ≡ 1 + len
    → (frame 2 ≡ 0) × (frame 3 ≡ 0)
    → len ≤ 253
    → Arrived
        (recv_response socket resp 260 deadline_ms ((now_ms, readable) ∷ more) total_len)
        frame
        len
unfolding recv_response wait_readable recv_ready recv_body
recv_response-Arrived socket resp frame deadline_ms now_ms more len total_len early brings remaining
      protocol short =
    let h = recv_exact (negsuc 1) socket resp 0 6 in
    let b = recv_exact (negsuc 1) h.socket h.buf 6 (1 + len) in
    let (inc, taken, front) =
      received_bytes socket resp frame 0 6 h
        (recv_exact-RecvEnds (negsuc 1) socket resp 0 6 (λ e. ground arith)) brings.header
        (λ j lt. absurd (omega arith))
        (λ j lt. brings.bytes j (omega arith) ∙ ap frame (omega arith)) in
    let (_, _, whole) =
      received_bytes h.socket h.buf frame 6 (1 + len) b
        (recv_exact-RecvEnds (negsuc 1) h.socket h.buf 6 (1 + len) (λ e. ground arith)) brings.body
        (λ j lt. front j (omega arith))
        (λ j lt.
          let place : socket.taken + 6 + j ≡ socket.taken + (6 + j) = omega arith in
          rw (inc, taken, place) (brings.bytes (6 + j) (omega arith))) in
    let field : get_u16 h.buf 4 ≡ 1 + len =
      get_u16-Agree 6 4 h.buf frame (λ j lt. front j (omega arith)) (omega arith) ∙ remaining in
    let in_range : (1 + len == 0 || ltb (260 - 6) (1 + len)) ≡ false = ground arith in
    let modbus : (not (b.buf 2 == 0) || not (b.buf 3 == 0)) ≡ false =
      let two = whole 2 (omega arith) in let three = whole 3 (omega arith) in ground arith in
    let in_time : leb deadline_ms now_ms ≡ false = ground arith in
    rw (in_time, brings.header, field, in_range, brings.body, modbus)
      record { ok = refl; total = omega arith; bytes = λ j lt. whole j (omega arith) }

pub await_tid-Arrived :
    (fuel : ℕ) (socket : Socket) (resp frame : Buf) (deadline_ms : ℕ) (polls : List (ℕ × PollEvent))
    (tid len total_len : ℕ) (stale : Bool)
    → Arrived (recv_response socket resp 260 deadline_ms polls total_len) frame len
    → get_u16 frame 0 ≡ tid
    → await_tid (suc fuel) socket resp deadline_ms polls tid total_len stale
      ≡ some record {
        response = recv_response socket resp 260 deadline_ms polls total_len;
        stale_seen = stale;
      }
unfolding await_tid
await_tid-Arrived fuel socket resp frame deadline_ms polls tid len total_len stale arrived id =
    let r = recv_response socket resp 260 deadline_ms polls total_len in
    let same : (get_u16 r.buf 0 == tid) ≡ true =
      let read : get_u16 r.buf 0 ≡ get_u16 frame 0 =
        get_u16-Agree (7 + len) 0 r.buf frame arrived.bytes (omega arith) in
      ground arith in
    ap
      (λ (c : RecvRc). elim c [
        | recv_ok ↦
            if get_u16 r.buf 0 == tid
            then some record { response = r; stale_seen = stale }
            else await_tid fuel r.socket r.buf deadline_ms r.polls tid r.total_len true
        | recv_failed ↦ some record { response = r; stale_seen = stale }
        | recv_idle ↦ some record { response = r; stale_seen = stale }
        | recv_protocol_id_error ↦ some record { response = r; stale_seen = stale }
        | recv_partial_timeout ↦ some record { response = r; stale_seen = stale }
      ])
      arrived.ok
    ∙ rw same refl

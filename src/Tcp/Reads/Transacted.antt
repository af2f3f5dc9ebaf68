-- ===== src/Tcp/Reads/Transacted.antt =====
-- A transaction whose reply arrives: the client's check is applied to the server's reply.
use modbus_protocol.Prelude.{
  ℕ, ℤ, pos, ◌+◌, ◌-◌, ◌≤◌, ◌<◌, ◌≡◌, refl, ap, ◌∙◌, arith, Option, none, some, List, ◌∷◌, length,
  IsU16, Buf, offset, Agree, Bool, true, false, not, leb, if◌then◌else◌,
}
use modbus_protocol.Pdu.Wire.{get_u16, put_u16}
use modbus_protocol.Pdu.Wire.Words.{get_u16-Agree, get_u16-of_bytes}
use modbus_protocol.Pdu.Check.{check_response}
use modbus_protocol.Pdu.Dispatch.Locality.{check_response_local}
use modbus_protocol.Pdu.Serve.{Reply}
use modbus_protocol.Tcp.Stream.{Socket}
use modbus_protocol.Tcp.Server.Turns.{Replies}
use modbus_protocol.Tcp.Client.Contract.{finished}
use modbus_protocol.Tcp.Client.{
  RecvRc, recv_ok, recv_failed, recv_idle, recv_protocol_id_error, recv_partial_timeout, ClientCtx,
  effective_response_timeout_ms, Clock, next_tid, PollEvent, readable, recv_response, Exchange,
  request_adu, Transaction, client_rc, conclude, exchange, transact, no_connection,
  err_frame_client, err_tid, recv_err_to_client_err,
}
use modbus_protocol.Tcp.Reads.Arrived.{Brings, Arrived, recv_response-Arrived, await_tid-Arrived}

conclude-Arrived :
    (pdu : Buf) (x : Exchange) (frame : Buf) (len : ℕ)
    → Arrived x.response frame len
    → 1 ≤ len
    → conclude pdu x ≡ client_rc (check_response pdu (offset frame 7) len)
unfolding conclude
conclude-Arrived pdu x frame len arrived some' =
    let r = x.response in
    let longer : leb r.total_len 7 ≡ false = let total = arrived.total in ground arith in
    let size : r.total_len - 7 ≡ len = omega (arith, arrived.total) in
    ap
      (λ (c : RecvRc). elim c [
        | recv_ok ↦
            if leb r.total_len 7
            then err_frame_client
            else client_rc (check_response pdu (offset r.buf 7) (r.total_len - 7))
        | recv_idle ↦ if x.stale_seen then err_tid else recv_err_to_client_err recv_idle
        | recv_failed ↦ recv_err_to_client_err recv_failed
        | recv_protocol_id_error ↦ recv_err_to_client_err recv_protocol_id_error
        | recv_partial_timeout ↦ recv_err_to_client_err recv_partial_timeout
      ])
      arrived.ok
    ∙ rw (longer, size)
        (ap client_rc (
          check_response_local pdu (offset r.buf 7) (offset frame 7) len
            (λ j lt. arrived.bytes (7 + j) (omega arith))))

-- What a transaction comes to whose reply arrives.
pub record Replied (o : Option Transaction) (pdu : Buf) {S : Type 0} (r : Reply S) : Type 0 where
  pub done : Transaction
  pub returned : o ≡ some done
  pub checked : done.rc ≡ client_rc (check_response pdu r.bytes r.len)
  pub bytes : Agree r.len (offset done.resp 7) r.bytes

module _ (send : Buf → ℕ → ℤ) (junk : Buf) (start now : ℕ) (more : List (ℕ × PollEvent))
    (ctx : ClientCtx) (pdu : Buf) (pdu_len : ℕ) where
  -- The clock and the polls when the first poll finds the socket readable.
  abbrev pub clock : Clock
  clock = record { sent_ms = start; rounds = (now, readable) ∷ more }

  abbrev pub deadline : ℕ
  deadline = start + effective_response_timeout_ms ctx

  -- The frame that the client sends next.
  abbrev pub sent_request : Buf
  sent_request = request_adu junk (next_tid ctx.tid) ctx.unit_id pdu pdu_len

  sent_request_ids :
      ctx.tid ≤ 65535
      → (get_u16 sent_request 0 ≡ next_tid ctx.tid) × (sent_request 2 ≡ 0) × (sent_request 3 ≡ 0)
  sent_request_ids small =
      let word : IsU16 (next_tid ctx.tid) = unfold next_tid in ground arith in
      unfold request_adu put_u16 in
      (get_u16-of_bytes _ 0 (next_tid ctx.tid) word (omega arith) (omega arith), refl, refl)

  replied_exchange :
      (socket : Socket) (resp frame : Buf) (len : ℕ)
      → send sent_request (7 + pdu_len) ≡ pos 0
      → Arrived (recv_response socket resp 260 deadline clock.rounds 0) frame len
      → get_u16 frame 0 ≡ next_tid ctx.tid
      → exchange send junk clock ctx socket pdu pdu_len resp
        ≡ some (
            finished send junk clock ctx pdu pdu_len record {
              response = recv_response socket resp 260 deadline clock.rounds 0;
              stale_seen = false;
            })
  unfolding exchange
  replied_exchange socket resp frame len sent arrived id = rw sent (
      ap
        (λ (o : Option Exchange). elim o [
          | none ↦ none
          | some x ↦ some (finished send junk clock ctx pdu pdu_len x)
        ])
        (await_tid-Arrived (length clock.rounds) socket resp frame deadline clock.rounds
          (next_tid ctx.tid) len 0 false arrived id))

  -- If the client is connected, its request goes out, and the stream goes on with a frame that
  -- answers it, then the result is the client's check of the reply.
  pub transact-Replied :
      {S : Type 0} (socket : Socket) (resp frame : Buf) (r : Reply S)
      → ctx.tid ≤ 65535
      → ctx.initialized ≡ true
      → ctx.sock ≡ some socket
      → send sent_request (7 + pdu_len) ≡ pos 0
      → now < start + effective_response_timeout_ms ctx
      → Brings socket resp frame r.len
      → Replies sent_request frame r
      → 1 ≤ r.len
      → r.len ≤ 253
      → Replied (transact send junk clock ctx pdu pdu_len resp) pdu r
  unfolding transact
  transact-Replied socket resp frame r small on open' sent early brings replies some' short =
      let (id, two, three) = sent_request_ids small in
      let same : get_u16 frame 0 ≡ next_tid ctx.tid =
        get_u16-Agree 4 0 frame sent_request replies.ids (omega arith) ∙ id in
      let arrived =
        recv_response-Arrived socket resp frame deadline now more r.len 0 early brings
          replies.length_field
          (replies.ids 2 (omega arith) ∙ two, replies.ids 3 (omega arith) ∙ three) short in
      let x : Exchange = record {
        response = recv_response socket resp 260 deadline clock.rounds 0;
        stale_seen = false;
      } in
      let over : Option Socket → Option Transaction = λ o. elim o [
        | none ↦ no_connection send junk clock ctx resp
        | some open_socket ↦ exchange send junk clock ctx open_socket pdu pdu_len resp
      ] in
      record {
        done = finished send junk clock ctx pdu pdu_len x;
        returned =
            ap
              (λ (b : Bool).
                if not b then no_connection send junk clock ctx resp else over ctx.sock)
              on
            ∙ ap over open'
            ∙ replied_exchange socket resp frame r.len sent arrived same;
        checked =
            conclude-Arrived pdu x frame r.len arrived some'
            ∙ ap client_rc (
                check_response_local pdu (offset frame 7) r.bytes r.len (λ j lt. replies.pdu j lt));
        bytes = λ j lt. arrived.bytes (7 + j) (omega arith) ∙ replies.pdu j lt;
      }

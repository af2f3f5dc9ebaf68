-- ===== src/Tcp/Client.antt =====
-- The TCP client of src/modbus_tcp_client.c: transaction ids, the receipt of a response, and one
-- transaction.
--
-- The clock and `poll` are a parameter, as the times that are read and what `poll` says, in order; so
-- are the result of `mb_tcp_send_all` and, in the socket, what the network does.
pub mod Api
pub mod Ids
pub mod Whole
pub mod Await
pub mod Contract
use modbus_protocol.Prelude.{
  ℕ, ℤ, pos, negsuc, zero, suc, ◌+◌, ◌-◌, Bool, true, false, not, ◌&&◌, ◌||◌, Option, none, some,
  List, [], ◌∷◌, length, failed, u16, Buf, store, offset, copy, leb, ltb, ◌==◌, if◌then◌else◌,
}
use modbus_protocol.Pdu.Wire.{get_u16, put_u16}
use modbus_protocol.Pdu.Check.{check_response}
use modbus_protocol.Tcp.Stream.{Socket, Received, recv_exact}

abbrev pub client_ok : ℤ
client_ok = pos 0

abbrev pub err_not_connected : ℤ
err_not_connected = negsuc 1

abbrev pub err_transport : ℤ
err_transport = negsuc 2

abbrev pub err_timeout : ℤ
err_timeout = negsuc 3

abbrev pub err_frame_client : ℤ
err_frame_client = negsuc 4

abbrev pub err_tid : ℤ
err_tid = negsuc 5

-- How `recv_response` ends: 0, -1, -2, `RECV_PROTOCOL_ID_ERROR`, `RECV_PARTIAL_TIMEOUT`.
pub data RecvRc : Type 0 where
  recv_ok : RecvRc
  recv_failed : RecvRc
  recv_idle : RecvRc
  recv_protocol_id_error : RecvRc
  recv_partial_timeout : RecvRc

unfoldable pub recv_err_to_client_err : RecvRc → ℤ
recv_err_to_client_err recv_idle = err_timeout
recv_err_to_client_err recv_partial_timeout = err_timeout
recv_err_to_client_err recv_protocol_id_error = err_frame_client
recv_err_to_client_err recv_failed = err_transport
recv_err_to_client_err recv_ok = err_transport

-- `sock` is `none` when it is negative.
pub record ClientCtx : Type 0 where
  pub initialized : Bool
  pub sock : Option Socket
  pub tid : ℕ
  pub unit_id : ℕ
  pub response_timeout_ms : ℕ

abbrev pub default_response_timeout_ms : ℕ
default_response_timeout_ms = 1000

unfoldable pub effective_response_timeout_ms : ClientCtx → ℕ
effective_response_timeout_ms ctx =
    if not (ctx.response_timeout_ms == 0)
    then ctx.response_timeout_ms
    else default_response_timeout_ms

unfoldable pub next_tid : ℕ → ℕ
next_tid tid = if ltb tid 0xffff then tid + 1 else 1

-- One call of `poll`: the socket is readable, the time that it was given ran out, `EINTR`, another
-- error.
pub data PollEvent : Type 0 where
  readable : PollEvent
  poll_timed_out : PollEvent
  poll_interrupted : PollEvent
  poll_failed : PollEvent

-- The time at which the request had been sent, and then, for each round of `wait_readable`, the time
-- that it read and what `poll` did. When the list ends, the time is up.
pub record Clock : Type 0 where
  pub sent_ms : ℕ
  pub rounds : List (ℕ × PollEvent)

-- `poll` is called only before the deadline.
unfoldable pub wait_readable : ℕ → List (ℕ × PollEvent) → RecvRc × List (ℕ × PollEvent)
wait_readable deadline_ms [] = (recv_idle, [])
wait_readable deadline_ms ((now_ms, readable) ∷ more) =
    if leb deadline_ms now_ms then (recv_idle, more) else (recv_ok, more)
wait_readable deadline_ms ((now_ms, poll_timed_out) ∷ more) = (recv_idle, more)
wait_readable deadline_ms ((now_ms, poll_interrupted) ∷ more) =
    let rest = wait_readable deadline_ms more in
    if leb deadline_ms now_ms then (recv_idle, more) else rest
wait_readable deadline_ms ((now_ms, poll_failed) ∷ more) =
    if leb deadline_ms now_ms then (recv_idle, more) else (recv_failed, more)

-- What `recv_response` leaves behind; the length is set only with the whole frame.
pub record Response : Type 0 where
  pub rc : RecvRc
  pub buf : Buf
  pub socket : Socket
  pub polls : List (ℕ × PollEvent)
  pub total_len : ℕ

-- `rc != 0` after `recv_exact`: -2 has become `RECV_PARTIAL_TIMEOUT`.
abbrev pub recv_error : ℤ → RecvRc
recv_error (pos n) = recv_failed
recv_error (negsuc zero) = recv_failed
recv_error (negsuc (suc n)) = recv_partial_timeout

abbrev pub ended : RecvRc → Received → List (ℕ × PollEvent) → ℕ → Response
ended rc r polls total_len = record {
  rc = rc;
  buf = r.buf;
  socket = r.socket;
  polls = polls;
  total_len = total_len;
}

-- From the header on.
unfoldable pub recv_body : Received → ℕ → List (ℕ × PollEvent) → ℕ → Response
recv_body header buf_cap polls total_len =
    let mbap_remaining = get_u16 header.buf 4 in
    let body = recv_exact (negsuc 1) header.socket header.buf 6 mbap_remaining in
    if mbap_remaining == 0 || ltb (buf_cap - 6) mbap_remaining
    then ended recv_failed header polls total_len
    else if failed body.rc
    then ended (recv_error body.rc) body polls total_len
    else if not (body.buf 2 == 0) || not (body.buf 3 == 0)
    then ended recv_protocol_id_error body polls (6 + mbap_remaining)
    else ended recv_ok body polls (6 + mbap_remaining)

-- After `wait_readable`.
unfoldable pub recv_ready : Socket → Buf → ℕ → ℕ → RecvRc × List (ℕ × PollEvent) → Response
recv_ready socket buf buf_cap total_len (recv_ok, polls) =
    let header = recv_exact (negsuc 1) socket buf 0 6 in
    if failed header.rc
    then ended (recv_error header.rc) header polls total_len
    else recv_body header buf_cap polls total_len
recv_ready socket buf buf_cap total_len (rc, polls) = record {
  rc = rc;
  buf = buf;
  socket = socket;
  polls = polls;
  total_len = total_len;
}

unfoldable pub recv_response : Socket → Buf → ℕ → ℕ → List (ℕ × PollEvent) → ℕ → Response
recv_response socket buf buf_cap deadline_ms polls total_len =
    recv_ready socket buf buf_cap total_len (wait_readable deadline_ms polls)

-- How the loop over responses ended, and whether a stale one was skipped.
pub record Exchange : Type 0 where
  pub response : Response
  pub stale_seen : Bool

-- The loop that skips responses with another transaction id; `none` is an end of the fuel.
unfoldable pub await_tid :
    ℕ → Socket → Buf → ℕ → List (ℕ × PollEvent) → ℕ → ℕ → Bool → Option Exchange
await_tid zero socket resp deadline_ms polls tid total_len stale_seen = none
await_tid (suc fuel) socket resp deadline_ms polls tid total_len stale_seen =
    let r = recv_response socket resp 260 deadline_ms polls total_len in
    let rest = await_tid fuel r.socket r.buf deadline_ms r.polls tid r.total_len true in
    let done = some record { response = r; stale_seen = stale_seen } in
    elim r.rc [
      | recv_ok ↦ if get_u16 r.buf 0 == tid then done else rest
      | recv_failed ↦ done
      | recv_idle ↦ done
      | recv_protocol_id_error ↦ done
      | recv_partial_timeout ↦ done
    ]

-- The request's ADU, in a local array.
unfoldable pub request_adu : Buf → ℕ → ℕ → Buf → ℕ → Buf
request_adu junk tid unit_id pdu pdu_len =
    let header = put_u16 (store (store junk 2 0) 3 0) 4 (u16 (1 + pdu_len)) in
    store (put_u16 (copy header 7 pdu pdu_len) 0 tid) 6 unit_id

-- What a transaction leaves behind: its result, the context, the response's array, and the frame
-- that it handed to `mb_tcp_send_all`, if it did.
pub record Transaction : Type 0 where
  pub rc : ℤ
  pub ctx : ClientCtx
  pub resp : Buf
  pub sent : Option (Buf × ℕ)

abbrev pub with_sock : ClientCtx → ℕ → Option Socket → ClientCtx
with_sock ctx tid sock = record {
  initialized = ctx.initialized;
  sock = sock;
  tid = tid;
  unit_id = ctx.unit_id;
  response_timeout_ms = ctx.response_timeout_ms;
}

-- The connection is closed when the stream is no longer aligned.
unfoldable pub keep_socket : RecvRc → Socket → Option Socket
keep_socket recv_ok socket = some socket
keep_socket recv_idle socket = some socket
keep_socket recv_protocol_id_error socket = some socket
keep_socket recv_failed socket = none
keep_socket recv_partial_timeout socket = none

-- `MB_PDU_ERR_FRAME` becomes `MB_TCP_CLIENT_ERR_FRAME`.
abbrev pub client_rc : ℤ → ℤ
client_rc (pos n) = pos n
client_rc (negsuc zero) = err_frame_client
client_rc (negsuc (suc n)) = negsuc (suc n)

-- What the transaction returns, after the mutex is released.
unfoldable pub conclude : Buf → Exchange → ℤ
conclude pdu x =
    let r = x.response in
    elim r.rc [
      | recv_ok ↦
          if leb r.total_len 7
          then err_frame_client
          else client_rc (check_response pdu (offset r.buf 7) (r.total_len - 7))
      | recv_idle ↦ if x.stale_seen then err_tid else recv_err_to_client_err recv_idle
      | recv_failed ↦ recv_err_to_client_err recv_failed
      | recv_protocol_id_error ↦ recv_err_to_client_err recv_protocol_id_error
      | recv_partial_timeout ↦ recv_err_to_client_err recv_partial_timeout
    ]

module _ (send : Buf → ℕ → ℤ) (junk : Buf) (clock : Clock) where
  -- From `mb_tcp_send_all` on, over an open socket.
  unfoldable pub exchange : ClientCtx → Socket → Buf → ℕ → Buf → Option Transaction
  exchange ctx socket pdu pdu_len resp =
      let tid = next_tid ctx.tid in
      let deadline_ms = clock.sent_ms + effective_response_timeout_ms ctx in
      let req = request_adu junk tid ctx.unit_id pdu pdu_len in
      if failed (send req (7 + pdu_len))
      then some record {
        rc = err_transport;
        ctx = with_sock ctx tid none;
        resp = resp;
        sent = some (req, 7 + pdu_len);
      }
      else elim (await_tid (suc (length clock.rounds)) socket resp deadline_ms clock.rounds tid 0
          false) [
            | none ↦ none
            | some x ↦ some record {
              rc = conclude pdu x;
              ctx = with_sock ctx tid (keep_socket x.response.rc x.response.socket);
              resp = x.response.buf;
              sent = some (req, 7 + pdu_len);
            }
          ]

  abbrev pub no_connection : ClientCtx → Buf → Option Transaction
  no_connection ctx resp =
      some record { rc = err_not_connected; ctx = ctx; resp = resp; sent = none }

  unfoldable pub transact : ClientCtx → Buf → ℕ → Buf → Option Transaction
  transact ctx pdu pdu_len resp =
      if not ctx.initialized then no_connection ctx resp else elim ctx.sock [
        | none ↦ no_connection ctx resp
        | some socket ↦ exchange ctx socket pdu pdu_len resp
      ]

-- ===== src/Tcp/Client/Contract.antt =====
-- The contract of a transaction of the TCP client: it always ends, and a result that is no error is
-- the client's reading of a frame of the stream with its own transaction id.
use modbus_protocol.Prelude.{
  ℕ, ℤ, pos, negsuc, zero, suc, ◌+◌, ◌-◌, ◌≤◌, ◌<◌, ◌≡◌, ◌≢◌, refl, ◌⊎◌, inl, inr, arith, Option,
  none, some, List, length, failed, Buf, offset, Agree, Bool, true, false, not, leb, if◌then◌else◌,
  if_cases, option_cases,
}
use modbus_protocol.Pdu.Wire.{get_u16}
use modbus_protocol.Pdu.Check.{check_response}
use modbus_protocol.Tcp.Stream.{Socket}
use modbus_protocol.Tcp.Client.{
  RecvRc, recv_ok, recv_failed, recv_idle, recv_protocol_id_error, recv_partial_timeout, ClientCtx,
  next_tid, effective_response_timeout_ms, Clock, PollEvent, Exchange, request_adu, Transaction,
  with_sock, keep_socket, client_rc, conclude, exchange, transact, err_not_connected, err_tid,
  err_frame_client, recv_err_to_client_err,
}
use modbus_protocol.Tcp.Client.Whole.{IsFrame, Uses}
use modbus_protocol.Tcp.Client.Await.{Stale, Awaits, no_response, response, await_tid-Awaits}

-- What a transaction can be.
pub data Transacts (clock : Clock) (junk : Buf) (ctx : ClientCtx) (pdu : Buf) (pdu_len : ℕ)
    : Option Transaction → Type 0 where
  -- Nothing was sent.
  unconnected :
      (resp : Buf)
      → (ctx.initialized ≡ false) ⊎ (ctx.sock ≡ none)
      → Transacts clock junk ctx pdu pdu_len
          (some record { rc = err_not_connected; ctx = ctx; resp = resp; sent = none })
  -- The request was sent under the next transaction id, and the result is a negative code.
  gave_up :
      (t : Transaction) (code : ℕ)
      → t.rc ≡ negsuc code
      → t.ctx.tid ≡ next_tid ctx.tid
      → t.sent ≡ some (request_adu junk (next_tid ctx.tid) ctx.unit_id pdu pdu_len, 7 + pdu_len)
      → Transacts clock junk ctx pdu pdu_len (some t)
  -- The request was sent. Behind whole frames with other ids, the first frame of the stream with its
  -- id arrived whole, and the result is what the client's check makes of its PDU; the stream stays
  -- open, right behind that frame. Each call of `poll`, at least one, was before the deadline.
  completed :
      (t : Transaction) (code total_len at : ℕ) (socket after : Socket)
      (left : List (ℕ × PollEvent))
      → ctx.sock ≡ some socket
      → t.rc ≡ pos code
      → Stale socket.incoming (next_tid ctx.tid) socket.taken at
      → IsFrame (offset socket.incoming at) total_len
      → get_u16 (offset socket.incoming at) 0 ≡ next_tid ctx.tid
      → Agree total_len t.resp (offset socket.incoming at)
      → check_response pdu (offset t.resp 7) (total_len - 7) ≡ pos code
      → 8 ≤ total_len
      → t.ctx.sock ≡ some after
      → after.incoming ≡ socket.incoming
      → after.taken ≡ at + total_len
      → Uses (clock.sent_ms + effective_response_timeout_ms ctx) clock.rounds left
      → length left < length clock.rounds
      → t.ctx.tid ≡ next_tid ctx.tid
      → t.sent ≡ some (request_adu junk (next_tid ctx.tid) ctx.unit_id pdu pdu_len, 7 + pdu_len)
      → Transacts clock junk ctx pdu pdu_len (some t)

client_rc_lem : (z : ℤ) (code : ℕ) → client_rc z ≡ pos code → z ≡ pos code
client_rc_lem (pos n) code e = e
client_rc_lem (negsuc zero) code e = ground arith
client_rc_lem (negsuc (suc n)) code e = ground arith

-- A result that is no error is that of the client's check.
conclude_lem :
    (pdu : Buf) (x : Exchange) (code : ℕ)
    → conclude pdu x ≡ pos code
    → (x.response.rc ≡ recv_ok)
      × (8 ≤ x.response.total_len)
      × (check_response pdu (offset x.response.buf 7) (x.response.total_len - 7) ≡ pos code)
unfolding conclude recv_err_to_client_err
conclude_lem pdu x code = by_rc x.response.rc
  where
    by_check :
        (b : Bool)
        → leb x.response.total_len 7 ≡ b
        → (if b
            then err_frame_client
            else client_rc
                (check_response pdu (offset x.response.buf 7) (x.response.total_len - 7)))
          ≡ pos code
        → (8 ≤ x.response.total_len)
          × (check_response pdu (offset x.response.buf 7) (x.response.total_len - 7) ≡ pos code)
    by_check true short e = ground arith
    by_check false long e = (ground arith, client_rc_lem _ code e)

    by_late : (b : Bool) → (if b then err_tid else recv_err_to_client_err recv_idle) ≢ pos code
    by_late true e = ground arith
    by_late false e = ground arith

    by_rc :
        (c : RecvRc)
        → elim c [
          | recv_ok ↦
              if leb x.response.total_len 7
              then err_frame_client
              else client_rc
                  (check_response pdu (offset x.response.buf 7) (x.response.total_len - 7))
          | recv_idle ↦ if x.stale_seen then err_tid else recv_err_to_client_err recv_idle
          | recv_failed ↦ recv_err_to_client_err recv_failed
          | recv_protocol_id_error ↦ recv_err_to_client_err recv_protocol_id_error
          | recv_partial_timeout ↦ recv_err_to_client_err recv_partial_timeout
        ]
          ≡ pos code
        → (c ≡ recv_ok)
          × (8 ≤ x.response.total_len)
          × (check_response pdu (offset x.response.buf 7) (x.response.total_len - 7) ≡ pos code)
    by_rc recv_ok e =
        let (long, checked) = by_check (leb x.response.total_len 7) refl e in (refl, long, checked)
    by_rc recv_idle e = absurd (by_late x.stale_seen e)
    by_rc recv_failed e = ground arith
    by_rc recv_protocol_id_error e = ground arith
    by_rc recv_partial_timeout e = ground arith

module _ (send : Buf → ℕ → ℤ) (junk : Buf) (clock : Clock) (ctx : ClientCtx) (pdu : Buf)
    (pdu_len : ℕ) where
  abbrev deadline : ℕ
  deadline = clock.sent_ms + effective_response_timeout_ms ctx

  abbrev pub finished : Exchange → Transaction
  finished x = record {
    rc = conclude pdu x;
    ctx = with_sock ctx (next_tid ctx.tid) (keep_socket x.response.rc x.response.socket);
    resp = x.response.buf;
    sent = some (request_adu junk (next_tid ctx.tid) ctx.unit_id pdu pdu_len, 7 + pdu_len);
  }

  finished-Transacts :
      (x : Exchange) (socket : Socket) (v : ℤ)
      → ctx.sock ≡ some socket
      → Awaits (next_tid ctx.tid) deadline socket clock.rounds (some x)
      → conclude pdu x ≡ v
      → Transacts clock junk ctx pdu pdu_len (some (finished x))
  finished-Transacts x socket (negsuc code) open' awaits e = gave_up _ code e refl refl
  finished-Transacts _ socket (pos code) open' (no_response x bad) e =
      absurd (bad (conclude_lem pdu x code e).0)
  finished-Transacts _ socket (pos code) open'
        (response x at ok stale frame id bytes same taken used fewer) e =
      let (_, long, checked) = conclude_lem pdu x code e in
      completed _ code x.response.total_len at socket x.response.socket x.response.polls open' e
        stale frame id bytes checked long (rw ok (unfold keep_socket in refl)) same taken used fewer
        refl refl

  awaited-Transacts :
      (socket : Socket) (o : Option Exchange)
      → ctx.sock ≡ some socket
      → Awaits (next_tid ctx.tid) deadline socket clock.rounds o
      → Transacts clock junk ctx pdu pdu_len (elim o [ none ↦ none | some x ↦ some (finished x) ])
  awaited-Transacts socket _ open' (no_response x bad) =
      finished-Transacts x socket (conclude pdu x) open' (no_response x bad) refl
  awaited-Transacts socket _ open' (response x at ok stale frame id bytes same taken used fewer) =
      finished-Transacts x socket (conclude pdu x) open'
        (response x at ok stale frame id bytes same taken used fewer) refl

  exchange-Transacts :
      (socket : Socket) (resp : Buf)
      → ctx.sock ≡ some socket
      → Transacts clock junk ctx pdu pdu_len (exchange send junk clock ctx socket pdu pdu_len resp)
  unfolding exchange
  exchange-Transacts socket resp open' =
      if_cases (Transacts clock junk ctx pdu pdu_len)
        (failed (send (request_adu junk (next_tid ctx.tid) ctx.unit_id pdu pdu_len) (7 + pdu_len)))
        (λ _. gave_up _ 2 refl refl refl)
        (λ _. awaited-Transacts socket _ open' (
          await_tid-Awaits (suc (length clock.rounds)) socket resp deadline clock.rounds
            (next_tid ctx.tid) 0 false (omega arith)))

  -- Every transaction ends within its fuel: without a connection it sends nothing, otherwise it
  -- sends the request under the next transaction id. Its result is 0 or an exception code only if
  -- that is what the client's check says of the PDU of the first frame of the stream that has the same
  -- id, which was received exactly, behind whole frames with other ids, with each round of `poll`
  -- before the deadline; then the stream stays open, right behind that frame. Otherwise the result is
  -- negative.
  pub transact-Transacts :
      (resp : Buf)
      → Transacts clock junk ctx pdu pdu_len (transact send junk clock ctx pdu pdu_len resp)
  unfolding transact
  transact-Transacts resp =
      if_cases (Transacts clock junk ctx pdu pdu_len) (not ctx.initialized)
        (λ off. unconnected resp (inl (ground arith)))
        (λ on.
          option_cases (Transacts clock junk ctx pdu pdu_len) ctx.sock
            (λ closed. unconnected resp (inr closed))
            (λ socket open'. exchange-Transacts socket resp open'))

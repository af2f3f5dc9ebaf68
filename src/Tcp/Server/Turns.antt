-- ===== src/Tcp/Server/Turns.antt =====
-- The contract of a turn of the TCP server, in terms of the bytes of the client's stream.
use modbus_protocol.Prelude.{
  ℕ, ℤ, pos, negsuc, ◌+◌, ◌-◌, ◌≤◌, ◌<◌, ◌≡◌, ◌≢◌, refl, ◌∙◌, ◌⊎◌, inl, inr, arith, none, some,
  failed, u16, Buf, store, offset, write_back, copy, Agree, ltb, ◌==◌, not, ◌||◌, ◌&&◌, true, false,
  if◌then◌else◌, if_cases,
}
use modbus_protocol.Pdu.Wire.{get_u16, put_u16}
use modbus_protocol.Pdu.Wire.Words.{get_u16-Agree, get_u16-put_u16}
use modbus_protocol.Pdu.Serve.{Reply, handle_request}
use modbus_protocol.Pdu.Dispatch.Bounds.{handle_request-Fits}
use modbus_protocol.Pdu.Dispatch.Locality.{handle_request_local}
use modbus_protocol.Tcp.Stream.{Socket, Received, recv_exact}
use modbus_protocol.Tcp.Stream.Exact.{RecvEnds, failed_recv, received_all, recv_exact-RecvEnds}
use modbus_protocol.Tcp.Server.{
  TcpConfig, TcpTurn, response_adu, answer_adu, receive_body, tcp_server_on_process,
}

not_zero : (rc : ℤ) → failed rc ≡ true → rc ≢ pos 0
not_zero rc bad e = ground arith

zero_rc : (rc : ℤ) → failed rc ≡ false → rc ≡ pos 0
zero_rc rc good = ground arith

-- A frame that answers the request at the front of the stream `b`: its transaction and protocol
-- ids, the length of what follows, its unit id, and the reply's PDU.
pub record Replies {S : Type 0} (b frame : Buf) (r : Reply S) : Type 0 where
  pub ids : Agree 4 frame b
  pub length_field : get_u16 frame 4 ≡ 1 + r.len
  pub unit : frame 6 ≡ b 6
  pub pdu : Agree r.len (offset frame 7) r.bytes

pub response_adu-Replies :
    {S : Type 0} (cfg : TcpConfig S) (junk resp : Buf) (send : Buf → ℕ → ℤ) (adu : Buf)
    (r : Reply S)
    → r.len ≤ 253
    → Replies adu (response_adu cfg junk resp send adu r) r
unfolding response_adu
response_adu-Replies cfg junk resp send adu r short =
    let front = copy (write_back resp 7 r.bytes) 0 adu 4 in
    let word : u16 (1 + r.len) ≡ 1 + r.len = omega arith in
    let filled = put_u16 front 4 (u16 (1 + r.len)) in
    record {
      ids = λ j lt. unfold put_u16 in ground arith;
      length_field =
          get_u16-Agree 6 4 (store filled 6 (adu 6)) filled (λ j lt. ground arith) (omega arith)
          ∙ get_u16-put_u16 front 4 (u16 (1 + r.len)) (omega arith)
          ∙ word;
      unit = ground arith;
      pdu = λ j lt. let back : 7 + j - 7 ≡ j = omega arith in unfold put_u16 in ground arith;
    }

module _ {S : Type 0} (cfg : TcpConfig S) (junk resp : Buf) (send : Buf → ℕ → ℤ) where
  -- The stream's bytes from the next one on.
  abbrev pub ahead : Socket → Buf
  ahead socket = offset socket.incoming socket.taken

  abbrev pub header_of : Buf → Socket → Received
  header_of adu socket = recv_exact (negsuc 0) socket adu 0 6

  abbrev pub body_of : Buf → Socket → Received
  body_of adu socket =
      recv_exact (negsuc 0) (header_of adu socket).socket (header_of adu socket).buf 6
        (get_u16 (ahead socket) 4)

  pub data Handles (adu : Buf) (socket : Socket) (s : S) (turn : TcpTurn S) : Type 0 where
    -- The frame did not arrive, or its length is out of range: the connection is given up.
    lost :
        ((header_of adu socket).rc ≢ pos 0)
          ⊎ (get_u16 (ahead socket) 4 < 2)
          ⊎ (254 < get_u16 (ahead socket) 4)
          ⊎ ((body_of adu socket).rc ≢ pos 0)
        → turn.rc ≡ negsuc 0
        → turn.sent ≡ none
        → turn.state ≡ s
        → Handles adu socket s turn
    -- The frame, of a length in range, is not Modbus, or for another unit: it is consumed and nothing
    -- else happens.
    ignored :
        (2 ≤ get_u16 (ahead socket) 4) × (get_u16 (ahead socket) 4 ≤ 254)
        → (header_of adu socket).rc ≡ pos 0
        → (body_of adu socket).rc ≡ pos 0
        → (ahead socket 2 ≢ 0)
          ⊎ (ahead socket 3 ≢ 0)
          ⊎ ((cfg.unit_id ≢ 255) × (ahead socket 6 ≢ cfg.unit_id))
        → turn.socket.taken ≡ socket.taken + 6 + get_u16 (ahead socket) 4
        → turn.rc ≡ pos 0
        → turn.sent ≡ none
        → turn.state ≡ s
        → Handles adu socket s turn
    -- The frame, of a length in range, is consumed, and the reply to its PDU is sent.
    answered :
        (r : Reply S) (frame : Buf)
        → (2 ≤ get_u16 (ahead socket) 4) × (get_u16 (ahead socket) 4 ≤ 254)
        → (header_of adu socket).rc ≡ pos 0
        → (body_of adu socket).rc ≡ pos 0
        → (ahead socket 2 ≡ 0) × (ahead socket 3 ≡ 0)
        → (cfg.unit_id ≡ 255) ⊎ (ahead socket 6 ≡ cfg.unit_id)
        → r
          ≡ handle_request cfg.handlers junk
              (offset (ahead socket) 7)
              (get_u16 (ahead socket) 4 - 1)
              (offset resp 7)
              s
        → turn.socket.taken ≡ socket.taken + 6 + get_u16 (ahead socket) 4
        → turn.sent ≡ some (frame, 7 + r.len)
        → Replies (ahead socket) frame r
        → turn.state ≡ r.state
        → turn.rc ≡ (if failed (send frame (7 + r.len)) then negsuc 0 else pos 0)
        → Handles adu socket s turn

  -- A frame that was received whole.
  whole_frame :
      (adu got : Buf) (socket after : Socket) (s : S)
      → 2 ≤ get_u16 (ahead socket) 4
      → get_u16 (ahead socket) 4 ≤ 254
      → (header_of adu socket).rc ≡ pos 0
      → (body_of adu socket).rc ≡ pos 0
      → Agree (6 + get_u16 (ahead socket) 4) got (ahead socket)
      → after.taken ≡ socket.taken + 6 + get_u16 (ahead socket) 4
      → Handles adu socket s (answer_adu cfg junk resp send got (get_u16 (ahead socket) 4) after s)
  unfolding answer_adu
  whole_frame adu got socket after s lo hi front body same taken =
      let b = ahead socket in
      let len = get_u16 b 4 in
      let at2 : got 2 ≡ b 2 = same 2 (omega arith) in
      let at3 : got 3 ≡ b 3 = same 3 (omega arith) in
      let at6 : got 6 ≡ b 6 = same 6 (omega arith) in
      let r = handle_request cfg.handlers junk (offset got 7) (len - 1) (offset resp 7) s in
      let fits = handle_request-Fits cfg.handlers junk (offset got 7) (len - 1) (offset resp 7) s in
      let framed = response_adu-Replies cfg junk resp send got r fits.at_most in
      if_cases (Handles adu socket s) (not (got 2 == 0) || not (got 3 == 0))
        (λ foreign. ignored (lo, hi) front body (ground arith) taken refl refl refl)
        (λ modbus.
          if_cases (Handles adu socket s) (not (cfg.unit_id == 255) && not (got 6 == cfg.unit_id))
            (λ other. ignored (lo, hi) front body (inr (inr (ground arith))) taken refl refl refl)
            (λ mine.
              answered r (response_adu cfg junk resp send got r) (lo, hi) front body (ground arith)
                (ground arith)
                (handle_request_local cfg.handlers junk (offset got 7) (offset b 7) (len - 1)
                  (offset resp 7) s (omega arith) (λ j lt. same (7 + j) (omega arith)))
                taken refl
                record {
                  ids = λ j lt. framed.ids j lt ∙ same j (omega arith);
                  length_field = framed.length_field;
                  unit = framed.unit ∙ at6;
                  pdu = framed.pdu;
                }
                refl refl))

  with_body :
      (adu : Buf) (socket : Socket) (s : S)
      → (header_of adu socket).rc ≡ pos 0
      → (header_of adu socket).socket.incoming ≡ socket.incoming
      → (header_of adu socket).socket.taken ≡ socket.taken + 6
      → Agree 6 (header_of adu socket).buf (ahead socket)
      → 2 ≤ get_u16 (ahead socket) 4
      → get_u16 (ahead socket) 4 ≤ 254
      → (body_of adu socket).rc ≡ pos 0
      → RecvEnds
          (header_of adu socket).socket.incoming
          (header_of adu socket).socket.taken
          (header_of adu socket).buf
          6
          (get_u16 (ahead socket) 4)
          (body_of adu socket)
      → Handles adu socket s (
          answer_adu cfg junk resp send
            (body_of adu socket).buf
            (get_u16 (ahead socket) 4)
            (body_of adu socket).socket
            s)
  with_body adu socket s header inc taken front lo hi ok (failed_recv bad) = absurd (bad ok)
  with_body adu socket s header inc taken front lo hi ok (received_all _ inc' taken' bytes) =
      whole_frame adu (body_of adu socket).buf socket (body_of adu socket).socket s lo hi header ok
        (λ j lt.
          let early : j < 6 → (header_of adu socket).buf j ≡ ahead socket j = front j in
          let late : 6 ≤ j
              → (header_of adu socket).socket.incoming
                  ((header_of adu socket).socket.taken + (j - 6))
                ≡ ahead socket j =
            λ h.
              let place : socket.taken + 6 + (j - 6) ≡ socket.taken + j = omega arith in
              rw (inc, taken, place) refl in
          bytes j ∙ ground arith)
        (taken' ∙ omega arith)

  with_header :
      (adu : Buf) (socket : Socket) (s : S)
      → RecvEnds socket.incoming socket.taken adu 0 6 (header_of adu socket)
      → failed (header_of adu socket).rc ≡ false
      → Handles adu socket s (receive_body cfg junk resp send (header_of adu socket) s)
  unfolding receive_body
  with_header adu socket s (failed_recv bad) good = absurd (bad (zero_rc _ good))
  with_header adu socket s (received_all ok inc taken bytes) good =
      let header = header_of adu socket in
      let front : Agree 6 header.buf (ahead socket) = λ j lt. bytes j ∙ ground arith in
      let length : get_u16 header.buf 4 ≡ get_u16 (ahead socket) 4 =
        get_u16-Agree 6 4 header.buf (ahead socket) front (omega arith) in
      let len = get_u16 (ahead socket) 4 in
      rw length (
        if_cases (Handles adu socket s) (ltb len 2 || ltb (260 - 6) len)
          (λ wrong. lost (inr (ground arith)) refl refl refl)
          (λ fine.
            if_cases (Handles adu socket s) (failed (body_of adu socket).rc)
              (λ bad. lost (inr (inr (inr (not_zero _ bad)))) refl refl refl)
              (λ arrived.
                with_body adu socket s ok inc taken front (ground arith) (ground arith)
                  (zero_rc _ arrived)
                  (recv_exact-RecvEnds (negsuc 0) header.socket header.buf 6 len
                    (λ e. ground arith)))))

  -- Every turn keeps the contract: it gives the connection up, with no call of the application, only
  -- if the frame does not arrive or states a length out of 2..254; otherwise the frame arrived with a
  -- length in that range, and the turn consumes exactly it, and either ignores it, because of its protocol id or unit id, or sends the reply of
  -- `mb_pdu_handle_request` under the same ids with the right length, and keeps the state behind it.
  pub tcp_server_on_process-Handles :
      (adu : Buf) (socket : Socket) (s : S)
      → Handles adu socket s (tcp_server_on_process cfg junk resp send adu socket s)
  unfolding tcp_server_on_process
  tcp_server_on_process-Handles adu socket s =
      if_cases (Handles adu socket s) (failed (header_of adu socket).rc)
        (λ bad. lost (inl (not_zero _ bad)) refl refl refl)
        (λ good.
          with_header adu socket s
            (recv_exact-RecvEnds (negsuc 0) socket adu 0 6 (λ e. ground arith)) good)

-- ===== src/Tcp/Client/Whole.antt =====
-- A response of src/modbus_tcp_client.c that `recv_response` has received whole is the next frame of
-- the stream, for which `poll` was called before the deadline.
use modbus_protocol.Prelude.{
  ℕ, ℤ, pos, negsuc, zero, suc, ◌+◌, ◌-◌, ◌≤◌, ◌<◌, ◌≡◌, ◌≢◌, refl, ap, ◌∙◌, ◌⊎◌, inl, inr, arith,
  List, [], ◌∷◌, length, failed, Buf, offset, Agree, false, not, ◌||◌, ltb, leb, ◌==◌, if_cases,
}
use modbus_protocol.Pdu.Wire.{get_u16}
use modbus_protocol.Pdu.Wire.Words.{get_u16-Agree}
use modbus_protocol.Tcp.Stream.{Socket, Received, recv_exact}
use modbus_protocol.Tcp.Stream.Exact.{received_bytes, recv_exact-RecvEnds}
use modbus_protocol.Tcp.Client.{
  RecvRc, recv_ok, PollEvent, readable, poll_timed_out, poll_interrupted, poll_failed,
  wait_readable, Response, recv_error, recv_body, recv_ready, recv_response,
}

-- From one place of the list of rounds to another, each round is before the deadline.
pub data Uses (d : ℕ) : List (ℕ × PollEvent) → List (ℕ × PollEvent) → Type 0 where
  none_used : {left : List (ℕ × PollEvent)} → Uses d left left
  one_used :
      {more left : List (ℕ × PollEvent)} (now : ℕ) (event : PollEvent)
      → now < d
      → Uses d more left
      → Uses d ((now, event) ∷ more) left

pub Uses-trans : {d : ℕ} {a b c : List (ℕ × PollEvent)} → Uses d a b → Uses d b c → Uses d a c
Uses-trans none_used then' = then'
Uses-trans (one_used now event early first) then' =
    one_used now event early (Uses-trans first then')

Uses-next :
    {d now : ℕ} {event : PollEvent} {a more : List (ℕ × PollEvent)}
    → Uses d a ((now, event) ∷ more)
    → now < d
    → Uses d a more
Uses-next {d} {now} {event} u early = Uses-trans u (one_used now event early none_used)

-- A Modbus frame of that many bytes is at the front of `b`: its length is what its header states.
pub record IsFrame (b : Buf) (size : ℕ) : Type 0 where
  pub protocol : (b 2 ≡ 0) × (b 3 ≡ 0)
  pub stated : size ≡ 6 + get_u16 b 4
  pub at_least : 7 ≤ size
  pub at_most : size ≤ 260

-- The frame that is next in the stream was received whole, and nothing behind it, and `poll` was
-- called for it, each time before the deadline.
pub record Whole (d : ℕ) (socket : Socket) (r : Response) (polls : List (ℕ × PollEvent))
    : Type 0 where
  pub frame : IsFrame (offset socket.incoming socket.taken) r.total_len
  pub same : r.socket.incoming ≡ socket.incoming
  pub taken : r.socket.taken ≡ socket.taken + r.total_len
  pub bytes : Agree r.total_len r.buf (offset socket.incoming socket.taken)
  pub polled : length r.polls < length polls
  pub early : Uses d polls r.polls

-- The receive failed or timed out, or a whole frame is there.
abbrev pub FrameOr : ℕ → Socket → List (ℕ × PollEvent) → Response → Type 0
FrameOr d socket polls r = (r.rc ≢ recv_ok) ⊎ Whole d socket r polls

recv_error_lem : (rc : ℤ) → recv_error rc ≢ recv_ok
recv_error_lem (pos n) e = ground arith
recv_error_lem (negsuc zero) e = ground arith
recv_error_lem (negsuc (suc n)) e = ground arith

zero_rc : (rc : ℤ) → failed rc ≡ false → rc ≡ pos 0
zero_rc rc good = ground arith

module _ (d : ℕ) (socket : Socket) (buf : Buf) (total_len : ℕ) where
  abbrev ahead : Buf
  ahead = offset socket.incoming socket.taken

  abbrev header : Received
  header = recv_exact (negsuc 1) socket buf 0 6

  abbrev body : Received
  body = recv_exact (negsuc 1) header.socket header.buf 6 (get_u16 header.buf 4)

  header_bytes :
      header.rc ≡ pos 0
      → (header.socket.incoming ≡ socket.incoming)
        × (header.socket.taken ≡ socket.taken + 6)
        × Agree 6 header.buf ahead
  header_bytes ok =
      received_bytes socket buf ahead 0 6 header
        (recv_exact-RecvEnds (negsuc 1) socket buf 0 6 (λ e. ground arith)) ok
        (λ j lt. absurd (omega arith)) (λ j lt. ap socket.incoming (omega arith))

  body_bytes :
      header.rc ≡ pos 0
      → body.rc ≡ pos 0
      → (body.socket.incoming ≡ socket.incoming)
        × (body.socket.taken ≡ socket.taken + (6 + get_u16 header.buf 4))
        × Agree (6 + get_u16 header.buf 4) body.buf ahead
  body_bytes ok ok' =
      let (same, taken, front) = header_bytes ok in
      let (same', taken', whole) =
        received_bytes header.socket header.buf ahead 6 (get_u16 header.buf 4) body
          (recv_exact-RecvEnds (negsuc 1) header.socket header.buf 6 (get_u16 header.buf 4)
            (λ e. ground arith))
          ok' front
          (λ j lt.
            let place : socket.taken + 6 + j ≡ socket.taken + (6 + j) = omega arith in
            rw (same, taken, place) refl) in
      (same' ∙ same, omega arith, whole)

  recv_body-Whole :
      (left polls : List (ℕ × PollEvent))
      → header.rc ≡ pos 0
      → length left < length polls
      → Uses d polls left
      → FrameOr d socket polls (recv_body header 260 left total_len)
  unfolding recv_body
  recv_body-Whole left polls ok h u =
      let size = get_u16 header.buf 4 in
      if_cases (FrameOr d socket polls) (size == 0 || ltb (260 - 6) size)
        (λ _. inl (λ e. ground arith))
        λ fits.
          if_cases (FrameOr d socket polls) (failed body.rc) (λ _. inl (recv_error_lem body.rc))
            λ fine.
              let (same, taken, bytes) = body_bytes ok (zero_rc _ fine) in
              let (_, _, front) = header_bytes ok in
              let field : size ≡ get_u16 ahead 4 =
                get_u16-Agree 6 4 header.buf ahead front (omega arith) in
              let two : body.buf 2 ≡ ahead 2 = bytes 2 (omega arith) in
              let three : body.buf 3 ≡ ahead 3 = bytes 3 (omega arith) in
              if_cases (FrameOr d socket polls) (not (body.buf 2 == 0) || not (body.buf 3 == 0))
                (λ _. inl (λ e. ground arith))
                λ modbus. inr record {
                  frame = record {
                    protocol = ground arith;
                    stated = ap (λ (n : ℕ). 6 + n) field;
                    at_least = ground arith;
                    at_most = ground arith;
                  };
                  same = same;
                  taken = taken;
                  bytes = bytes;
                  polled = h;
                  early = u;
                }

  recv_ready-Whole :
      (left all : List (ℕ × PollEvent))
      → length left < length all
      → Uses d all left
      → FrameOr d socket all (recv_ready socket buf 260 total_len (recv_ok, left))
  unfolding recv_ready
  recv_ready-Whole left all h u =
      if_cases (FrameOr d socket all) (failed header.rc) (λ _. inl (recv_error_lem header.rc))
        (λ fine. recv_body-Whole left all (zero_rc _ fine) h u)

  abbrev after_wait : RecvRc × List (ℕ × PollEvent) → Response
  after_wait p = recv_ready socket buf 260 total_len p

  wait_readable-Whole :
      (left all : List (ℕ × PollEvent))
      → length left ≤ length all
      → Uses d all left
      → FrameOr d socket all (after_wait (wait_readable d left))
  unfolding wait_readable recv_ready
  wait_readable-Whole [] all h u = inl (λ e. ground arith)
  wait_readable-Whole ((now, readable) ∷ more) all h u =
      if_cases (λ p. FrameOr d socket all (after_wait p)) (leb d now) (λ _. inl (λ e. ground arith))
        (λ in_time. recv_ready-Whole more all (omega arith) (Uses-next u (ground arith)))
  wait_readable-Whole ((now, poll_timed_out) ∷ more) all h u = inl (λ e. ground arith)
  wait_readable-Whole ((now, poll_interrupted) ∷ more) all h u =
      if_cases (λ p. FrameOr d socket all (after_wait p)) (leb d now) (λ _. inl (λ e. ground arith))
        (λ in_time. wait_readable-Whole more all (omega arith) (Uses-next u (ground arith)))
  wait_readable-Whole ((now, poll_failed) ∷ more) all h u =
      if_cases (λ p. FrameOr d socket all (after_wait p)) (leb d now) (λ _. inl (λ e. ground arith))
        (λ _. inl (λ e. ground arith))

  pub recv_response-Whole :
      (polls : List (ℕ × PollEvent))
      → FrameOr d socket polls (recv_response socket buf 260 d polls total_len)
  unfolding recv_response
  recv_response-Whole polls = wait_readable-Whole polls polls (omega arith) none_used

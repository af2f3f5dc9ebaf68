-- ===== src/Tcp/Client/Await.antt =====
-- The loop over responses of the TCP client ends: each response that it skips took a call of `poll`.
-- What it skips and what it returns are frames of the stream.
use modbus_protocol.Prelude.{
  ℕ, zero, suc, ◌+◌, ◌<◌, ◌≡◌, ◌≢◌, refl, ◌∙◌, inl, inr, arith, Option, some, List, length, Buf,
  offset, Agree, Bool, true, ◌==◌, if◌then◌else◌, if_cases,
}
use modbus_protocol.Pdu.Wire.{get_u16}
use modbus_protocol.Pdu.Wire.Words.{get_u16-Agree}
use modbus_protocol.Tcp.Stream.{Socket}
use modbus_protocol.Tcp.Client.{
  RecvRc, recv_ok, recv_failed, recv_idle, recv_protocol_id_error, recv_partial_timeout, PollEvent,
  Response, recv_response, Exchange, await_tid,
}
use modbus_protocol.Tcp.Client.Whole.{IsFrame, Uses, Uses-trans, FrameOr, recv_response-Whole}

-- From one place of the stream to another there are whole frames with other transaction ids.
pub data Stale (incoming : Buf) (tid : ℕ) : ℕ → ℕ → Type 0 where
  none_stale : {at : ℕ} → Stale incoming tid at at
  one_stale :
      {at end : ℕ} (size : ℕ)
      → IsFrame (offset incoming at) size
      → get_u16 (offset incoming at) 0 ≢ tid
      → Stale incoming tid (at + size) end
      → Stale incoming tid at end

-- How the loop ends: with no response, or behind stale frames with the first that has the id, of which
-- `poll` told before the deadline.
pub data Awaits (tid d : ℕ) (socket : Socket) (polls : List (ℕ × PollEvent))
    : Option Exchange → Type 0 where
  no_response : (x : Exchange) → x.response.rc ≢ recv_ok → Awaits tid d socket polls (some x)
  response :
      (x : Exchange) (at : ℕ)
      → x.response.rc ≡ recv_ok
      → Stale socket.incoming tid socket.taken at
      → IsFrame (offset socket.incoming at) x.response.total_len
      → get_u16 (offset socket.incoming at) 0 ≡ tid
      → Agree x.response.total_len x.response.buf (offset socket.incoming at)
      → x.response.socket.incoming ≡ socket.incoming
      → x.response.socket.taken ≡ at + x.response.total_len
      → Uses d polls x.response.polls
      → length x.response.polls < length polls
      → Awaits tid d socket polls (some x)

-- A stale frame was skipped.
Awaits-later :
    (tid d size : ℕ) (socket after : Socket) (polls left : List (ℕ × PollEvent))
    (o : Option Exchange)
    → Uses d polls left
    → length left < length polls
    → after.incoming ≡ socket.incoming
    → after.taken ≡ socket.taken + size
    → IsFrame (offset socket.incoming socket.taken) size
    → get_u16 (offset socket.incoming socket.taken) 0 ≢ tid
    → Awaits tid d after left o
    → Awaits tid d socket polls o
Awaits-later tid d size socket after polls left _ early fewer same taken frame other
      (no_response x bad) =
    no_response x bad
Awaits-later tid d size socket after polls left _ early fewer same taken frame other
      (response x at ok stale found id bytes same' taken' used fewer') =
    let stale' : Stale socket.incoming tid (socket.taken + size) at = rw (← same, ← taken) stale in
    let found' : IsFrame (offset socket.incoming at) x.response.total_len = rw (← same) found in
    let id' : get_u16 (offset socket.incoming at) 0 ≡ tid = rw (← same) id in
    let bytes' : Agree x.response.total_len x.response.buf (offset socket.incoming at) =
      rw (← same) bytes in
    response x at ok (one_stale size frame other stale') found' id' bytes' (same' ∙ same) taken'
      (Uses-trans early used) (omega arith)

module _ (fuel tid d : ℕ) (socket : Socket) (polls : List (ℕ × PollEvent)) (stale : Bool)
    (r : Response) where
  abbrev stops : Option Exchange
  stops = some record { response = r; stale_seen = stale }

  abbrev again : Option Exchange
  again = await_tid fuel r.socket r.buf d r.polls tid r.total_len true

  -- One round, for what `recv_response` returned.
  round-Awaits :
      FrameOr d socket polls r
      → (length r.polls < length polls → Awaits tid d r.socket r.polls again)
      → (c : RecvRc) → r.rc ≡ c
      → Awaits tid d socket polls (elim c [
        | recv_ok ↦ if get_u16 r.buf 0 == tid then stops else again
        | recv_failed ↦ stops
        | recv_idle ↦ stops
        | recv_protocol_id_error ↦ stops
        | recv_partial_timeout ↦ stops
      ])
  round-Awaits (inl bad) next recv_ok e = absurd (bad e)
  round-Awaits (inr whole) next recv_ok e =
      let id : get_u16 r.buf 0 ≡ get_u16 (offset socket.incoming socket.taken) 0 =
        get_u16-Agree r.total_len 0 r.buf (offset socket.incoming socket.taken) whole.bytes
          (omega (arith, whole.frame.at_least)) in
      if_cases (Awaits tid d socket polls) (get_u16 r.buf 0 == tid)
        (λ own.
          response _ socket.taken e none_stale whole.frame (ground arith) whole.bytes whole.same
            whole.taken whole.early whole.polled)
        (λ other.
          Awaits-later tid d r.total_len socket r.socket polls r.polls _ whole.early whole.polled
            whole.same whole.taken whole.frame (λ e'. ground arith) (next whole.polled))
  round-Awaits whole next recv_failed e = no_response _ (λ e'. ground arith)
  round-Awaits whole next recv_idle e = no_response _ (λ e'. ground arith)
  round-Awaits whole next recv_protocol_id_error e = no_response _ (λ e'. ground arith)
  round-Awaits whole next recv_partial_timeout e = no_response _ (λ e'. ground arith)

pub await_tid-Awaits :
    (fuel : ℕ) (socket : Socket) (resp : Buf) (d : ℕ) (polls : List (ℕ × PollEvent))
    (tid total_len : ℕ) (stale : Bool)
    → length polls < fuel
    → Awaits tid d socket polls (await_tid fuel socket resp d polls tid total_len stale)
unfolding await_tid
await_tid-Awaits zero socket resp d polls tid total_len stale h = absurd (omega arith)
await_tid-Awaits (suc fuel) socket resp d polls tid total_len stale h =
    let r = recv_response socket resp 260 d polls total_len in
    round-Awaits fuel tid d socket polls stale r (recv_response-Whole d socket resp total_len polls)
      (λ shorter. await_tid-Awaits fuel r.socket r.buf d r.polls tid r.total_len true (omega arith))
      r.rc refl

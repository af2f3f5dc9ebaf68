-- ===== src/Tcp/Stream.antt =====
-- Receiving an exact number of bytes from a stream socket: `recv_exact` of src/modbus_tcp_server.c
-- and src/modbus_tcp_client.c, which differ only in what they return when the time is up.
--
-- What the network does is a parameter: the bytes of the stream, and what each call of `recv` does.
pub mod Exact
use modbus_protocol.Prelude.{
  ℕ, ℤ, pos, negsuc, ◌+◌, ◌-◌, min, List, [], ◌∷◌, Buf, offset, copy, ltb, ◌==◌, if◌then◌else◌,
}

-- One call of `recv`: up to that many bytes, `EINTR`, the time is up, or another error. A call that
-- yields no byte says that the peer closed the connection.
pub data RecvEvent : Type 0 where
  chunk : ℕ → RecvEvent
  interrupted : RecvEvent
  timed_out : RecvEvent
  broken : RecvEvent

-- A stream, how many of its bytes were received, and what the calls of `recv` to come will do.
-- When the list ends, nothing more arrives in time.
pub record Socket : Type 0 where
  pub incoming : Buf
  pub taken : ℕ
  pub events : List RecvEvent

pub record Received : Type 0 where
  pub rc : ℤ
  pub buf : Buf
  pub socket : Socket

-- The loop returns.
abbrev pub stop : ℤ → Buf → ℕ → List RecvEvent → Buf → Received
stop rc incoming taken events buf = record {
  rc = rc;
  buf = buf;
  socket = record { incoming = incoming; taken = taken; events = events };
}

-- The loop, with the code that it returns when the time is up. `at` is where the pointer that it
-- was given lies in the array.
unfoldable pub recv_loop : ℤ → Buf → List RecvEvent → ℕ → Buf → ℕ → ℕ → ℕ → Received
recv_loop late incoming [] taken buf at len received =
    if ltb received len then stop late incoming taken [] buf else stop (pos 0) incoming taken [] buf
recv_loop late incoming (chunk n ∷ more) taken buf at len received =
    let got = min n (len - received) in
    let rest =
      recv_loop late incoming more (taken + got)
        (copy buf (at + received) (offset incoming taken) got) at len (received + got) in
    if ltb received len
    then if got == 0 then stop (negsuc 0) incoming taken more buf else rest
    else stop (pos 0) incoming taken (chunk n ∷ more) buf
recv_loop late incoming (interrupted ∷ more) taken buf at len received =
    let rest = recv_loop late incoming more taken buf at len received in
    if ltb received len then rest else stop (pos 0) incoming taken (interrupted ∷ more) buf
recv_loop late incoming (timed_out ∷ more) taken buf at len received =
    if ltb received len
    then stop late incoming taken more buf
    else stop (pos 0) incoming taken (timed_out ∷ more) buf
recv_loop late incoming (broken ∷ more) taken buf at len received =
    if ltb received len
    then stop (negsuc 0) incoming taken more buf
    else stop (pos 0) incoming taken (broken ∷ more) buf

-- `recv_exact(fd, buf + at, len)`
abbrev pub recv_exact : ℤ → Socket → Buf → ℕ → ℕ → Received
recv_exact late socket buf at len =
    recv_loop late socket.incoming socket.events socket.taken buf at len 0

-- ===== src/Tcp/Stream/Exact.antt =====
-- However the stream is cut into pieces, a successful receive yields exactly its next bytes.
use modbus_protocol.Prelude.{
  ℕ, ℤ, pos, ◌+◌, ◌-◌, ◌≤◌, ◌<◌, ◌≡◌, ◌≢◌, refl, ◌∙◌, min, arith, ap, List, [], ◌∷◌, Buf, offset,
  copy, Agree, ltb, ◌==◌, false, if_cases,
}
use modbus_protocol.Tcp.Stream.{
  RecvEvent, chunk, interrupted, timed_out, broken, Socket, Received, recv_loop, recv_exact,
}

-- The end of a receive: it failed, or it wrote the next `n` bytes from index `at` on, and no
-- others, and consumed just these.
pub data RecvEnds (incoming : Buf) (taken : ℕ) (buf : Buf) (at n : ℕ) (r : Received) : Type 0 where
  failed_recv : r.rc ≢ pos 0 → RecvEnds incoming taken buf at n r
  received_all :
      r.rc ≡ pos 0
      → r.socket.incoming ≡ incoming
      → r.socket.taken ≡ taken + n
      → ((j : ℕ) → r.buf j ≡ copy buf at (offset incoming taken) n j)
      → RecvEnds incoming taken buf at n r

-- Nothing is left to receive.
RecvEnds-full :
    (incoming : Buf) (taken : ℕ) (buf : Buf) (at len received : ℕ) (r : Received)
    → ltb received len ≡ false
    → r.rc ≡ pos 0
    → r.socket.incoming ≡ incoming
    → r.socket.taken ≡ taken
    → r.buf ≡ buf
    → RecvEnds incoming taken buf (at + received) (len - received) r
RecvEnds-full incoming taken buf at len received r done ok same kept bytes =
    received_all ok same (ground arith)
      λ j. let here : r.buf j ≡ buf j = ap (λ (b : Buf). b j) bytes in ground arith

-- One piece was received, and then the rest.
RecvEnds-after :
    (incoming : Buf) (taken : ℕ) (buf : Buf) (at len received got : ℕ) (r : Received)
    → received + got ≤ len
    → RecvEnds incoming
        (taken + got)
        (copy buf (at + received) (offset incoming taken) got)
        (at + (received + got))
        (len - (received + got))
        r
    → RecvEnds incoming taken buf (at + received) (len - received) r
RecvEnds-after incoming taken buf at len received got r room (failed_recv bad) = failed_recv bad
RecvEnds-after incoming taken buf at len received got r room (received_all ok same count bytes) =
    received_all ok same (omega arith) λ j. bytes j ∙ ground arith

pub recv_loop-RecvEnds :
    (late : ℤ) (incoming : Buf) (events : List RecvEvent) (taken : ℕ) (buf : Buf)
    (at len received : ℕ)
    → late ≢ pos 0
    → RecvEnds incoming taken buf
        (at + received)
        (len - received)
        (recv_loop late incoming events taken buf at len received)
unfolding recv_loop
recv_loop-RecvEnds late incoming [] taken buf at len received h =
    if_cases (RecvEnds incoming taken buf (at + received) (len - received)) (ltb received len)
      (λ _. failed_recv h)
      (λ done. RecvEnds-full incoming taken buf at len received _ done refl refl refl refl)
recv_loop-RecvEnds late incoming (chunk n ∷ more) taken buf at len received h =
    let got = min n (len - received) in
    if_cases (RecvEnds incoming taken buf (at + received) (len - received)) (ltb received len)
      (λ short.
        if_cases (RecvEnds incoming taken buf (at + received) (len - received)) (got == 0)
          (λ _. failed_recv (λ e. ground arith))
          (λ some'. RecvEnds-after incoming taken buf at len received got _ (ground arith) (
            recv_loop-RecvEnds late incoming more (taken + got)
              (copy buf (at + received) (offset incoming taken) got) at len (received + got) h)))
      (λ done. RecvEnds-full incoming taken buf at len received _ done refl refl refl refl)
recv_loop-RecvEnds late incoming (interrupted ∷ more) taken buf at len received h =
    if_cases (RecvEnds incoming taken buf (at + received) (len - received)) (ltb received len)
      (λ _. recv_loop-RecvEnds late incoming more taken buf at len received h)
      (λ done. RecvEnds-full incoming taken buf at len received _ done refl refl refl refl)
recv_loop-RecvEnds late incoming (timed_out ∷ more) taken buf at len received h =
    if_cases (RecvEnds incoming taken buf (at + received) (len - received)) (ltb received len)
      (λ _. failed_recv h)
      (λ done. RecvEnds-full incoming taken buf at len received _ done refl refl refl refl)
recv_loop-RecvEnds late incoming (broken ∷ more) taken buf at len received h =
    if_cases (RecvEnds incoming taken buf (at + received) (len - received)) (ltb received len)
      (λ _. failed_recv (λ e. ground arith))
      (λ done. RecvEnds-full incoming taken buf at len received _ done refl refl refl refl)

-- However the stream is cut into pieces, `recv_exact` fails or receives exactly its next bytes.
pub recv_exact-RecvEnds :
    (late : ℤ) (socket : Socket) (buf : Buf) (at len : ℕ)
    → late ≢ pos 0
    → RecvEnds socket.incoming socket.taken buf at len (recv_exact late socket buf at len)
recv_exact-RecvEnds late socket buf at len h =
    let same_at : at + 0 ≡ at = omega arith in
    let same_len : len - 0 ≡ len = omega arith in
    rw (same_at, same_len) at
      (recv_loop-RecvEnds late socket.incoming socket.events socket.taken buf at len 0 h)

-- What was received of a stream that goes on with that frame.
pub received_bytes :
    (socket : Socket) (buf frame : Buf) (at n : ℕ) (r : Received)
    → RecvEnds socket.incoming socket.taken buf at n r
    → r.rc ≡ pos 0
    → Agree at buf frame
    → ((j : ℕ) → j < n → socket.incoming (socket.taken + j) ≡ frame (at + j))
    → (r.socket.incoming ≡ socket.incoming)
      × (r.socket.taken ≡ socket.taken + n)
      × Agree (at + n) r.buf frame
received_bytes socket buf frame at n r (failed_recv bad) ok front same = absurd (bad ok)
received_bytes socket buf frame at n r (received_all _ inc taken bytes) ok front same = (
  inc,
  taken,
  λ j lt.
      let early : j < at → buf j ≡ frame j = front j in
      let late : at ≤ j → socket.incoming (socket.taken + (j - at)) ≡ frame j =
        λ h. same (j - at) (omega arith) ∙ ap frame (omega arith) in
      bytes j ∙ ground arith,
)

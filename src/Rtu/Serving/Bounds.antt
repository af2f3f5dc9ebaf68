-- ===== src/Rtu/Serving/Bounds.antt =====
-- What the RTU server's thread keeps, and what its waits and its discarding of the echo come to.
use modbus_protocol.Prelude.{
  ℕ, ℤ, ◌+◌, ◌-◌, ◌≤◌, ◌≡◌, refl, arith, min, some, List, [], ◌∷◌, Buf, ltb, leb, ◌==◌, if_cases,
}
use modbus_protocol.Rtu.Server.{Config, Rx, ReadResult}
use modbus_protocol.Rtu.Server.Process.{server_on_process-IsBounded}
use modbus_protocol.Rtu.Serving.{
  wait_response_silence, EchoCall, nothing_there, echo_up_to, echo_again, echo_failed, discard_loop,
  discard_echo, rtu_thread,
}

-- If the request's end is known and the clock did not go back, then the silence between it and the
-- response is at least the required one; the wait is never longer than that.
pub wait_response_silence-IsLong :
    (since_us required_us now_us : ℕ)
    → since_us ≤ now_us
    → (required_us ≤ now_us + wait_response_silence since_us required_us now_us - since_us)
      × (wait_response_silence since_us required_us now_us ≤ required_us)
unfolding wait_response_silence
wait_response_silence-IsLong since_us required_us now_us forward = (ground arith, ground arith)

discard_loop-IsEcho :
    (deadline_us len : ℕ) (rounds : List (ℕ × EchoCall)) (got : ℕ)
    → got ≤ len
    → discard_loop deadline_us len rounds got ≤ len
unfolding discard_loop
discard_loop-IsEcho d len [] got h = h
discard_loop-IsEcho d len ((now, nothing_there) ∷ more) got h =
    ground (arith, discard_loop-IsEcho d len more got h)
discard_loop-IsEcho d len ((now, echo_up_to n) ∷ more) got h =
    let rest = discard_loop-IsEcho d len more (got + min n (len - got)) (ground arith) in
    if_cases (λ r. r ≤ len) (ltb got len)
      (λ _.
        if_cases (λ r. r ≤ len) (leb d now) (λ _. h)
          (λ _. if_cases (λ r. r ≤ len) (min n (len - got) == 0) (λ _. h) (λ _. rest)))
      (λ _. h)
discard_loop-IsEcho d len ((now, echo_again) ∷ more) got h =
    ground (arith, discard_loop-IsEcho d len more got h)
discard_loop-IsEcho d len ((now, echo_failed) ∷ more) got h = h

-- The bytes that are discarded after a response are at most as many as were sent, whatever the line
-- does.
pub discard_echo-IsEcho :
    (deadline_us : ℕ) (rounds : List (ℕ × EchoCall)) (len : ℕ)
    → discard_echo deadline_us rounds len ≤ len
discard_echo-IsEcho deadline_us rounds len =
    discard_loop-IsEcho deadline_us len rounds 0 (omega arith)

module _ {S : Type 0} (cfg : Config S) (junk resp : Buf) (send : Buf → ℕ → ℤ) (adu : Buf) where
  -- From a receive buffer of at most 256 bytes on, however many turns the thread takes, and whatever
  -- arrives in them and in whatever pieces: every turn ends within its fuel, so that the thread goes on
  -- to the last, and the receive buffer holds at most its 256 bytes.
  pub rtu_thread-IsBounded :
      (turns : List (List ReadResult × ℕ)) (ctx : Rx) (s : S)
      → ctx.rx_len ≤ 256
      → (after : Rx × S) × (rtu_thread cfg junk resp send adu turns ctx s ≡ some after)
        × (after.0.rx_len ≤ 256)
  unfolding rtu_thread
  rtu_thread-IsBounded [] ctx s small = ((ctx, s), refl, small)
  rtu_thread-IsBounded ((reads, now_us) ∷ more) ctx s small =
      let (turn, ran, small') =
        server_on_process-IsBounded cfg junk resp send adu reads now_us ctx s small in
      let (after, all, fits) = rtu_thread-IsBounded more turn.ctx turn.state small' in
      (after, rw (rtu_thread, ran) all, fits)

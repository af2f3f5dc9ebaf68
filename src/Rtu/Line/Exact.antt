-- ===== src/Rtu/Line/Exact.antt =====
-- A successful read of the serial line yields exactly its next bytes, and the loop waits as
-- `wait_readable` does.
use modbus_protocol.Prelude.{
  ℕ, pos, negsuc, ◌+◌, ◌-◌, ◌≤◌, ◌<◌, ◌≡◌, refl, ◌∙◌, min, arith, List, [], ◌∷◌, Buf, offset, copy,
  ltb, leb, ◌==◌, false, if◌then◌else◌, Bool-cases, inl, inr, if_cases,
}
use modbus_protocol.Rtu.Line.{
  ReadCall, read_up_to, read_interrupted, read_failed, SelectCall, ready, no_data,
  select_interrupted, select_failed, Line, Waited, is_ready, wait_error, rtu_wait_readable,
  LineRead, leave, read_loop, read_exact_timeout,
}

-- The read wrote nothing behind the `n` elements from index `at` on; if it succeeded, it wrote the
-- next `n` bytes there, and no others, and consumed just these.
pub record ReadEnds (incoming : Buf) (taken : ℕ) (buf : Buf) (at n : ℕ) (r : LineRead)
    : Type 0 where
  pub same : r.line.incoming ≡ incoming
  pub count : r.rc ≡ pos 0 → r.line.taken ≡ taken + n
  pub untouched : (j : ℕ) → at + n ≤ j → r.buf j ≡ buf j
  pub bytes : r.rc ≡ pos 0 → (j : ℕ) → r.buf j ≡ copy buf at (offset incoming taken) n j

module _ (incoming : Buf) (taken : ℕ) (buf : Buf) (at len received : ℕ) where
  abbrev Ends : LineRead → Type 0
  Ends = ReadEnds incoming taken buf (at + received) (len - received)

  ReadEnds-full :
      (rounds : List (ℕ × SelectCall))
      → ltb received len ≡ false
      → Ends (leave (pos 0) incoming taken rounds buf)
  ReadEnds-full rounds full = record {
    same = refl;
    count = λ _. ground arith;
    untouched = λ j _. refl;
    bytes = λ _ j. ground arith;
  }

  ReadEnds-failed :
      (rc : ℕ) (rounds : List (ℕ × SelectCall)) → Ends (leave (negsuc rc) incoming taken rounds buf)
  ReadEnds-failed rc rounds = record {
    same = refl;
    count = λ e. ground arith;
    untouched = λ j _. refl;
    bytes = λ e. ground arith;
  }

  stopped-ReadEnds :
      (d now : ℕ) (more rounds : List (ℕ × SelectCall))
      → Ends (
          if ltb received len
          then leave (if leb d now then negsuc 1 else negsuc 0) incoming taken more buf
          else leave (pos 0) incoming taken rounds buf)
  stopped-ReadEnds d now more rounds =
      if_cases Ends (ltb received len)
        (λ _. elim (Bool-cases (leb d now)) [
          | inl over ↦ rw over (ReadEnds-failed 1 more)
          | inr early ↦ rw early (ReadEnds-failed 0 more)
        ])
        (ReadEnds-full rounds)

  ReadEnds-after :
      (got : ℕ) (r : LineRead)
      → received + got ≤ len
      → ReadEnds incoming
          (taken + got)
          (copy buf (at + received) (offset incoming taken) got)
          (at + (received + got))
          (len - (received + got))
          r
      → Ends r
  ReadEnds-after got r room e = record {
    same = e.same;
    count = λ ok. e.count ok ∙ omega arith;
    untouched = λ j far. e.untouched j (ground arith) ∙ ground arith;
    bytes = λ ok j. e.bytes ok j ∙ ground arith;
  }

pub read_loop-ReadEnds :
    (deadline_us : ℕ) (incoming : Buf) (rounds : List (ℕ × SelectCall)) (taken : ℕ) (buf : Buf)
    (at len received : ℕ)
    → ReadEnds incoming taken buf
        (at + received)
        (len - received)
        (read_loop deadline_us incoming rounds taken buf at len received)
unfolding read_loop
read_loop-ReadEnds d incoming [] taken buf at len received = elim (Bool-cases (ltb received len)) [
  | inl short ↦ rw short (ReadEnds-failed incoming taken buf at len received 1 [])
  | inr full ↦ rw full (ReadEnds-full incoming taken buf at len received [] full)
]
read_loop-ReadEnds d incoming ((now, ready (read_up_to n)) ∷ more) taken buf at len received =
    let got = min n (len - received) in
    if_cases (Ends incoming taken buf at len received) (ltb received len)
      (λ short.
        if_cases (Ends incoming taken buf at len received) (leb d now)
          (λ _. ReadEnds-failed incoming taken buf at len received 1 more)
          (λ _.
            if_cases (Ends incoming taken buf at len received) (got == 0)
              (λ _. ReadEnds-failed incoming taken buf at len received 1 more)
              (λ _. ReadEnds-after incoming taken buf at len received got _ (ground arith) (
                read_loop-ReadEnds d incoming more (taken + got)
                  (copy buf (at + received) (offset incoming taken) got) at len (received + got)))))
      (ReadEnds-full incoming taken buf at len received ((now, ready (read_up_to n)) ∷ more))
read_loop-ReadEnds d incoming ((now, ready read_interrupted) ∷ more) taken buf at len received =
    if_cases (Ends incoming taken buf at len received) (ltb received len)
      (λ short.
        if_cases (Ends incoming taken buf at len received) (leb d now)
          (λ _. ReadEnds-failed incoming taken buf at len received 1 more)
          (λ _. read_loop-ReadEnds d incoming more taken buf at len received))
      (ReadEnds-full incoming taken buf at len received ((now, ready read_interrupted) ∷ more))
read_loop-ReadEnds d incoming ((now, ready read_failed) ∷ more) taken buf at len received =
    stopped-ReadEnds incoming taken buf at len received d now more ((now, ready read_failed) ∷ more)
read_loop-ReadEnds d incoming ((now, no_data) ∷ more) taken buf at len received =
    if_cases (Ends incoming taken buf at len received) (ltb received len)
      (λ short. ReadEnds-failed incoming taken buf at len received 1 more)
      (ReadEnds-full incoming taken buf at len received ((now, no_data) ∷ more))
read_loop-ReadEnds d incoming ((now, select_interrupted) ∷ more) taken buf at len received =
    if_cases (Ends incoming taken buf at len received) (ltb received len)
      (λ short.
        if_cases (Ends incoming taken buf at len received) (leb d now)
          (λ _. ReadEnds-failed incoming taken buf at len received 1 more)
          (λ _. read_loop-ReadEnds d incoming more taken buf at len received))
      (ReadEnds-full incoming taken buf at len received ((now, select_interrupted) ∷ more))
read_loop-ReadEnds d incoming ((now, select_failed) ∷ more) taken buf at len received =
    stopped-ReadEnds incoming taken buf at len received d now more ((now, select_failed) ∷ more)

-- However the line's bytes arrive, if `read_exact_timeout` succeeds, it wrote exactly the next bytes
-- of the line, and no others, and consumed just these.
pub read_exact_timeout-ReadEnds :
    (deadline_us : ℕ) (line : Line) (buf : Buf) (at len : ℕ)
    → ReadEnds line.incoming line.taken buf at len (read_exact_timeout deadline_us line buf at len)
read_exact_timeout-ReadEnds deadline_us line buf at len =
    let same_at : at + 0 ≡ at = omega arith in
    let same_len : len - 0 ≡ len = omega arith in
    rw (same_at, same_len) at
      (read_loop-ReadEnds deadline_us line.incoming line.rounds line.taken buf at len 0)

module _ (deadline_us : ℕ) (incoming : Buf) (taken : ℕ) (buf : Buf) (at len received : ℕ) where
  -- One call of `read` within the loop.
  abbrev on_read : ReadCall → List (ℕ × SelectCall) → LineRead
  on_read (read_up_to n) more =
      let got = min n (len - received) in
      if got == 0
      then leave (negsuc 1) incoming taken more buf
      else read_loop deadline_us incoming more (taken + got)
          (copy buf (at + received) (offset incoming taken) got) at len (received + got)
  on_read read_interrupted more = read_loop deadline_us incoming more taken buf at len received
  on_read read_failed more = leave (negsuc 0) incoming taken more buf

  abbrev after_wait : Waited → LineRead
  after_wait (is_ready r more) = on_read r more
  after_wait (wait_error rc more) = leave rc incoming taken more buf

  -- While bytes are missing, a round of the loop is a call of `wait_readable`, an error of which it
  -- returns, and then a call of `read`.
  pub read_loop-rtu_wait_readable :
      (rounds : List (ℕ × SelectCall))
      → received < len
      → read_loop deadline_us incoming rounds taken buf at len received
        ≡ after_wait (rtu_wait_readable deadline_us rounds)
  unfolding read_loop rtu_wait_readable
  read_loop-rtu_wait_readable [] lt = ground arith
  read_loop-rtu_wait_readable ((now, ready (read_up_to n)) ∷ more) lt = ground arith
  read_loop-rtu_wait_readable ((now, ready read_interrupted) ∷ more) lt = ground arith
  read_loop-rtu_wait_readable ((now, ready read_failed) ∷ more) lt = ground arith
  read_loop-rtu_wait_readable ((now, no_data) ∷ more) lt = ground arith
  read_loop-rtu_wait_readable ((now, select_interrupted) ∷ more) lt =
      ground (arith, read_loop-rtu_wait_readable more)
  read_loop-rtu_wait_readable ((now, select_failed) ∷ more) lt = ground arith

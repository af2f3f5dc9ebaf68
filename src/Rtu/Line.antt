-- ===== src/Rtu/Line.antt =====
-- The serial line of the RTU client: wait_readable, read_exact_timeout and write_all of
-- src/modbus_rtu_client.c.
--
-- What the system calls do is a parameter: the bytes that arrive, and for each round of
-- `wait_readable` the time that it read and what `select`, and `read` after it, did.
pub mod Exact
pub mod Prompt
use modbus_protocol.Prelude.{
  ℕ, ℤ, pos, negsuc, ◌+◌, ◌-◌, min, failed, List, [], ◌∷◌, Buf, offset, copy, ltb, leb, ◌==◌,
  if◌then◌else◌,
}

-- One call of `read`: up to that many bytes, `EINTR`, or another error.
pub data ReadCall : Type 0 where
  read_up_to : ℕ → ReadCall
  read_interrupted : ReadCall
  read_failed : ReadCall

-- One call of `select`: the line is readable, with the call of `read` that follows, the time is up,
-- `EINTR`, or another error.
pub data SelectCall : Type 0 where
  ready : ReadCall → SelectCall
  no_data : SelectCall
  select_interrupted : SelectCall
  select_failed : SelectCall

-- The bytes that arrive, how many of them were read, and the rounds to come, each with the time at
-- which it begins. When the list ends, the deadline has passed.
pub record Line : Type 0 where
  pub incoming : Buf
  pub taken : ℕ
  pub rounds : List (ℕ × SelectCall)

-- `wait_readable`: 0 with the call of `read` that is next, -1, or -2.
pub data Waited : Type 0 where
  is_ready : ReadCall → List (ℕ × SelectCall) → Waited
  wait_error : ℤ → List (ℕ × SelectCall) → Waited

unfoldable pub rtu_wait_readable : ℕ → List (ℕ × SelectCall) → Waited
rtu_wait_readable deadline_us [] = wait_error (negsuc 1) []
rtu_wait_readable deadline_us ((now_us, ready r) ∷ more) =
    if leb deadline_us now_us then wait_error (negsuc 1) more else is_ready r more
rtu_wait_readable deadline_us ((now_us, no_data) ∷ more) = wait_error (negsuc 1) more
rtu_wait_readable deadline_us ((now_us, select_interrupted) ∷ more) =
    let rest = rtu_wait_readable deadline_us more in
    if leb deadline_us now_us then wait_error (negsuc 1) more else rest
rtu_wait_readable deadline_us ((now_us, select_failed) ∷ more) =
    wait_error (if leb deadline_us now_us then negsuc 1 else negsuc 0) more

pub record LineRead : Type 0 where
  pub rc : ℤ
  pub buf : Buf
  pub line : Line

-- The loop returns.
abbrev pub leave : ℤ → Buf → ℕ → List (ℕ × SelectCall) → Buf → LineRead
leave rc incoming taken rounds buf = record {
  rc = rc;
  buf = buf;
  line = record { incoming = incoming; taken = taken; rounds = rounds };
}

-- The loop of `read_exact_timeout`, with that of `wait_readable` in it: an interrupted wait is begun
-- anew. `at` is where the pointer that it was given lies in the array.
unfoldable pub read_loop : ℕ → Buf → List (ℕ × SelectCall) → ℕ → Buf → ℕ → ℕ → ℕ → LineRead
read_loop deadline_us incoming [] taken buf at len received =
    leave (if ltb received len then negsuc 1 else pos 0) incoming taken [] buf
read_loop deadline_us incoming ((now_us, ready (read_up_to n)) ∷ more) taken buf at len received =
    let got = min n (len - received) in
    let rest =
      read_loop deadline_us incoming more (taken + got)
        (copy buf (at + received) (offset incoming taken) got) at len (received + got) in
    if ltb received len
    then if leb deadline_us now_us
      then leave (negsuc 1) incoming taken more buf
      else if got == 0
      then leave (negsuc 1) incoming taken more buf
      else rest
    else leave (pos 0) incoming taken ((now_us, ready (read_up_to n)) ∷ more) buf
read_loop deadline_us incoming ((now_us, ready read_interrupted) ∷ more) taken buf at len received =
    let rest = read_loop deadline_us incoming more taken buf at len received in
    if ltb received len
    then if leb deadline_us now_us then leave (negsuc 1) incoming taken more buf else rest
    else leave (pos 0) incoming taken ((now_us, ready read_interrupted) ∷ more) buf
read_loop deadline_us incoming ((now_us, ready read_failed) ∷ more) taken buf at len received =
    if ltb received len
    then leave (if leb deadline_us now_us then negsuc 1 else negsuc 0) incoming taken more buf
    else leave (pos 0) incoming taken ((now_us, ready read_failed) ∷ more) buf
read_loop deadline_us incoming ((now_us, no_data) ∷ more) taken buf at len received =
    if ltb received len
    then leave (negsuc 1) incoming taken more buf
    else leave (pos 0) incoming taken ((now_us, no_data) ∷ more) buf
read_loop deadline_us incoming ((now_us, select_interrupted) ∷ more) taken buf at len received =
    let rest = read_loop deadline_us incoming more taken buf at len received in
    if ltb received len
    then if leb deadline_us now_us then leave (negsuc 1) incoming taken more buf else rest
    else leave (pos 0) incoming taken ((now_us, select_interrupted) ∷ more) buf
read_loop deadline_us incoming ((now_us, select_failed) ∷ more) taken buf at len received =
    if ltb received len
    then leave (if leb deadline_us now_us then negsuc 1 else negsuc 0) incoming taken more buf
    else leave (pos 0) incoming taken ((now_us, select_failed) ∷ more) buf

-- `read_exact_timeout(fd, buf + at, len, deadline_us)`
abbrev pub read_exact_timeout : ℕ → Line → Buf → ℕ → ℕ → LineRead
read_exact_timeout deadline_us line buf at len =
    read_loop deadline_us line.incoming line.rounds line.taken buf at len 0

-- One call of `write`: up to that many bytes, `EINTR`, or another error.
pub data WriteCall : Type 0 where
  write_up_to : ℕ → WriteCall
  write_interrupted : WriteCall
  write_failed : WriteCall

-- The loop of `write_all`, with how many bytes went out. When the list ends, `write` fails.
unfoldable pub write_loop : List WriteCall → ℕ → ℕ → ℤ × ℕ
write_loop [] len sent = (if ltb sent len then negsuc 0 else pos 0, sent)
write_loop (write_up_to n ∷ more) len sent =
    let done = min n (len - sent) in
    let rest = write_loop more len (sent + done) in
    if ltb sent len then if done == 0 then (negsuc 0, sent) else rest else (pos 0, sent)
write_loop (write_interrupted ∷ more) len sent =
    let rest = write_loop more len sent in if ltb sent len then rest else (pos 0, sent)
write_loop (write_failed ∷ more) len sent = (if ltb sent len then negsuc 0 else pos 0, sent)

-- `drained` is the result of `tcdrain`.
abbrev pub after_writes : ℤ → ℤ × ℕ → ℤ × ℕ
after_writes drained (negsuc rc, sent) = (negsuc 0, sent)
after_writes drained (pos rc, sent) = (if failed drained then negsuc 0 else pos 0, sent)

unfoldable pub write_all : List WriteCall → ℤ → ℕ → ℤ × ℕ
write_all writes drained len = after_writes drained (write_loop writes len 0)

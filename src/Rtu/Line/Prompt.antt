-- ===== src/Rtu/Line/Prompt.antt =====
-- A read of the serial line succeeds if the bytes come in time.
use modbus_protocol.Prelude.{
  ℕ, pos, ◌+◌, ◌-◌, ◌≤◌, ◌<◌, ◌≡◌, refl, ◌∙◌, ◌⊎◌, inl, inr, min, arith, List, [], ◌∷◌, Buf, offset,
  copy, Agree, ltb, leb, ◌==◌, false, Bool-cases,
}
use modbus_protocol.Rtu.Line.{
  read_up_to, read_interrupted, read_failed, SelectCall, ready, no_data, select_interrupted,
  select_failed, Line, LineRead, read_loop, read_exact_timeout,
}
use modbus_protocol.Rtu.Line.Exact.{read_exact_timeout-ReadEnds}

-- The next `n` calls of `read` each yield at least one byte, before the deadline; interruptions come
-- on top.
abbrev pub IsPrompt : ℕ → ℕ → List (ℕ × SelectCall) → Type 0
IsPrompt deadline_us n [] = n ≡ 0
IsPrompt deadline_us n ((now_us, ready (read_up_to k)) ∷ more) =
    (n ≡ 0) ⊎ ((now_us < deadline_us) × (1 ≤ k) × IsPrompt deadline_us (n - 1) more)
IsPrompt deadline_us n ((now_us, ready read_interrupted) ∷ more) =
    (n ≡ 0) ⊎ ((now_us < deadline_us) × IsPrompt deadline_us n more)
IsPrompt deadline_us n ((now_us, ready read_failed) ∷ more) = n ≡ 0
IsPrompt deadline_us n ((now_us, no_data) ∷ more) = n ≡ 0
IsPrompt deadline_us n ((now_us, select_interrupted) ∷ more) =
    (n ≡ 0) ⊎ ((now_us < deadline_us) × IsPrompt deadline_us n more)
IsPrompt deadline_us n ((now_us, select_failed) ∷ more) = n ≡ 0

module _ (d : ℕ) where
  pub IsPrompt-fewer :
      (m n : ℕ) (rounds : List (ℕ × SelectCall)) → m ≤ n → IsPrompt d n rounds → IsPrompt d m rounds
  IsPrompt-fewer m n [] le p = omega arith
  IsPrompt-fewer m n ((now, ready (read_up_to k)) ∷ more) le (inl e) = inl (omega arith)
  IsPrompt-fewer m n ((now, ready (read_up_to k)) ∷ more) le (inr (early, some', p)) =
      inr (early, some', IsPrompt-fewer (m - 1) (n - 1) more (omega arith) p)
  IsPrompt-fewer m n ((now, ready read_interrupted) ∷ more) le (inl e) = inl (omega arith)
  IsPrompt-fewer m n ((now, ready read_interrupted) ∷ more) le (inr (early, p)) =
      inr (early, IsPrompt-fewer m n more le p)
  IsPrompt-fewer m n ((now, ready read_failed) ∷ more) le p = omega arith
  IsPrompt-fewer m n ((now, no_data) ∷ more) le p = omega arith
  IsPrompt-fewer m n ((now, select_interrupted) ∷ more) le (inl e) = inl (omega arith)
  IsPrompt-fewer m n ((now, select_interrupted) ∷ more) le (inr (early, p)) =
      inr (early, IsPrompt-fewer m n more le p)
  IsPrompt-fewer m n ((now, select_failed) ∷ more) le p = omega arith

  -- The read succeeded, and the line is still prompt for `m` more calls.
  abbrev Succeeds : ℕ → LineRead → Type 0
  Succeeds m r = (r.rc ≡ pos 0) × IsPrompt d m r.line.rounds

  -- The line's next `n` bytes were read into the array from index `at` on, and nothing else happened;
  -- the line is still prompt for `m` more calls.
  pub record ReadAll (line : Line) (buf : Buf) (at n m : ℕ) (r : LineRead) : Type 0 where
    pub ok : r.rc ≡ pos 0
    pub same : r.line.incoming ≡ line.incoming
    pub taken : r.line.taken ≡ line.taken + n
    pub bytes : Agree n (offset r.buf at) (offset line.incoming line.taken)
    pub untouched : (j : ℕ) → (j < at) ⊎ (at + n ≤ j) → r.buf j ≡ buf j
    pub left : IsPrompt d m r.line.rounds

  module _ (incoming : Buf) (at len m : ℕ) where
    abbrev loop : List (ℕ × SelectCall) → ℕ → Buf → ℕ → LineRead
    loop rounds taken buf received = read_loop d incoming rounds taken buf at len received

    read_loop-Succeeds :
        (rounds : List (ℕ × SelectCall)) (n taken : ℕ) (buf : Buf) (received : ℕ)
        → IsPrompt d n rounds
        → len - received + m ≤ n
        → Succeeds m (loop rounds taken buf received)
    unfolding read_loop
    read_loop-Succeeds [] n taken buf received p room =
        let full : ltb received len ≡ false = ground arith in rw full (refl, omega arith)
    read_loop-Succeeds ((now, ready (read_up_to k)) ∷ more) n taken buf received p room =
        elim (Bool-cases (ltb received len)) [
          | inr full ↦
              rw full
                (refl, IsPrompt-fewer m n ((now, ready (read_up_to k)) ∷ more) (omega arith) p)
          | inl short ↦ elim p [
            | inl e ↦ absurd (ground arith)
            | inr (early, some', later) ↦
                let got = min k (len - received) in
                let in_time : leb d now ≡ false = ground arith in
                let yields : (got == 0) ≡ false = ground arith in
                rw (short, in_time, yields)
                  (read_loop-Succeeds more (n - 1) (taken + got)
                    (copy buf (at + received) (offset incoming taken) got) (received + got) later
                    (ground arith))
          ]
        ]
    read_loop-Succeeds ((now, ready read_interrupted) ∷ more) n taken buf received p room =
        elim (Bool-cases (ltb received len)) [
          | inr full ↦
              rw full
                (refl, IsPrompt-fewer m n ((now, ready read_interrupted) ∷ more) (omega arith) p)
          | inl short ↦ elim p [
            | inl e ↦ absurd (ground arith)
            | inr (early, later) ↦
                let in_time : leb d now ≡ false = ground arith in
                rw (short, in_time) (read_loop-Succeeds more n taken buf received later room)
          ]
        ]
    read_loop-Succeeds ((now, ready read_failed) ∷ more) n taken buf received p room =
        let full : ltb received len ≡ false = ground arith in rw full (refl, omega arith)
    read_loop-Succeeds ((now, no_data) ∷ more) n taken buf received p room =
        let full : ltb received len ≡ false = ground arith in rw full (refl, omega arith)
    read_loop-Succeeds ((now, select_interrupted) ∷ more) n taken buf received p room =
        elim (Bool-cases (ltb received len)) [
          | inr full ↦
              rw full (refl, IsPrompt-fewer m n ((now, select_interrupted) ∷ more) (omega arith) p)
          | inl short ↦ elim p [
            | inl e ↦ absurd (ground arith)
            | inr (early, later) ↦
                let in_time : leb d now ≡ false = ground arith in
                rw (short, in_time) (read_loop-Succeeds more n taken buf received later room)
          ]
        ]
    read_loop-Succeeds ((now, select_failed) ∷ more) n taken buf received p room =
        let full : ltb received len ≡ false = ground arith in rw full (refl, omega arith)

  -- If `n + m` calls of `read` yield something before the deadline, a read of `n` bytes returns 0 with
  -- exactly the line's next `n` bytes in their place and all others as they were, has taken just these
  -- from the line, and leaves `m` such calls.
  pub read_exact_timeout-Succeeds :
      (line : Line) (buf : Buf) (at n m : ℕ)
      → IsPrompt d (n + m) line.rounds
      → ReadAll line buf at n m (read_exact_timeout d line buf at n)
  read_exact_timeout-Succeeds line buf at n m p =
      let (ok, left) =
        read_loop-Succeeds line.incoming at n m line.rounds (n + m) line.taken buf 0 p
          (omega arith) in
      let ends = read_exact_timeout-ReadEnds d line buf at n in
      record {
        ok = ok;
        same = ends.same;
        taken = ends.count ok;
        bytes = λ j lt. ends.bytes ok (at + j) ∙ ground arith;
        untouched = λ j far. ends.bytes ok j ∙ ground arith;
        left = left;
      }

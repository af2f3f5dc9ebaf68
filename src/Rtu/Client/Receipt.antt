-- ===== src/Rtu/Client/Receipt.antt =====
-- What a response is that `recv_response` of src/modbus_rtu_client.c has received.
use modbus_protocol.Prelude.{
  ℕ, ℤ, pos, negsuc, ◌+◌, ◌-◌, ◌≤◌, ◌<◌, ◌≡◌, ◌≢◌, refl, sym, ap, ◌∙◌, ◌⊎◌, inl, inr, arith, some,
  true, false, not, failed, u8, bit_or, Buf, offset, Agree, leb, ltb, ◌==◌, if_cases,
}
use modbus_protocol.Rtu.Crc.{validate_crc}
use modbus_protocol.Rtu.Line.{Line, LineRead, read_exact_timeout}
use modbus_protocol.Rtu.Line.Exact.{read_exact_timeout-ReadEnds}
use modbus_protocol.Rtu.Response.{
  RtuResponse, responded, recv_rest, recv_counted, rtu_recv_response, io_frame_error, io_crc_error,
  io_unit_id_error,
}

-- `failed rc` is false exactly for 0.
pub success : (rc : ℤ) → failed rc ≡ false → rc ≡ pos 0
success (pos n) e = ground arith
success (negsuc n) e = ground arith

pub failed_lem : (rc : ℤ) → failed rc ≡ true → rc ≢ pos 0
failed_lem (pos n) bad e = ground arith
failed_lem (negsuc n) bad e = ground arith

-- A frame of the line that was received whole.
pub record WholeFrame (line : Line) (unit_id fc : ℕ) (r : RtuResponse) : Type 0 where
  pub size : 5 ≤ r.total_len
  pub bytes : Agree r.total_len r.buf (offset line.incoming line.taken)
  pub taken : r.line.taken ≡ line.taken + r.total_len
  pub own : r.buf 0 ≡ unit_id
  pub function : (r.buf 1 ≡ fc) ⊎ (r.buf 1 ≡ u8 (bit_or fc 0x80))
  pub valid : validate_crc (some r.buf) r.total_len ≡ pos 0

-- The response stays inside its array of 256 bytes, and if it was received, it is a whole frame.
pub record Receives (line : Line) (unit_id fc : ℕ) (buf : Buf) (r : RtuResponse) : Type 0 where
  pub bounded : r.total_len ≤ 256
  pub untouched : (j : ℕ) → 256 ≤ j → r.buf j ≡ buf j
  pub received : r.rc ≡ pos 0 → WholeFrame line unit_id fc r

module _ (deadline_us : ℕ) (line : Line) (unit_id fc : ℕ) (buf : Buf) where
  -- The first `k` bytes of the line have been read.
  pub record Begun (k : ℕ) (r : LineRead) : Type 0 where
    pub same : r.line.incoming ≡ line.incoming
    pub taken : r.line.taken ≡ line.taken + k
    pub bytes : Agree k r.buf (offset line.incoming line.taken)
    pub untouched : (j : ℕ) → 256 ≤ j → r.buf j ≡ buf j

  abbrev pub next : LineRead → ℕ → ℕ → LineRead
  next r k n = read_exact_timeout deadline_us r.line r.buf k n

  next_untouched :
      (k n : ℕ) (r : LineRead)
      → Begun k r
      → k + n ≤ 256
      → (j : ℕ) → 256 ≤ j
      → (next r k n).buf j ≡ buf j
  next_untouched k n r b room j far =
      (read_exact_timeout-ReadEnds deadline_us r.line r.buf k n).untouched j (omega arith)
      ∙ b.untouched j far

  pub next-Begun :
      (k n : ℕ) (r : LineRead)
      → Begun k r
      → k + n ≤ 256
      → (next r k n).rc ≡ pos 0
      → Begun (k + n) (next r k n)
  next-Begun k n r b room ok =
      let e = read_exact_timeout-ReadEnds deadline_us r.line r.buf k n in
      record {
        same = e.same ∙ b.same;
        taken = e.count ok ∙ omega (arith, b.taken);
        bytes = λ j lt.
            let old : j < k → r.buf j ≡ line.incoming (line.taken + j) = λ h. b.bytes j h in
            let new : k ≤ j
                → r.line.incoming (r.line.taken + (j - k)) ≡ line.incoming (line.taken + j) =
              λ h.
                ap (λ (i : Buf). i (r.line.taken + (j - k))) b.same
                ∙ ap line.incoming (omega (arith, b.taken)) in
            e.bytes ok j ∙ ground arith;
        untouched = next_untouched k n r b room;
      }

  stopped-Receives :
      (rc : ℤ) (r : LineRead) (k : ℕ)
      → k ≤ 256
      → ((j : ℕ) → 256 ≤ j → r.buf j ≡ buf j)
      → rc ≢ pos 0
      → Receives line unit_id fc buf (responded rc r k)
  stopped-Receives rc r k small far bad = record {
    bounded = small;
    untouched = far;
    received = λ ok. absurd (bad ok);
  }

  abbrev Rec : RtuResponse → Type 0
  Rec = Receives line unit_id fc buf

  rest-Receives :
      (r : LineRead) (k frame_len : ℕ)
      → Begun k r
      → 2 ≤ k
      → k ≤ frame_len
      → 5 ≤ frame_len
      → frame_len ≤ 256
      → (line.incoming (line.taken + 1) ≡ fc)
        ⊎ (line.incoming (line.taken + 1) ≡ u8 (bit_or fc 0x80))
      → Rec (recv_rest deadline_us unit_id r k frame_len)
  unfolding recv_rest
  rest-Receives r k frame_len b two begun five small function =
      let n = frame_len - k in
      let size : k + n ≡ frame_len = omega arith in
      let body = next r k n in
      let far = next_untouched k n r b (omega arith) in
      if_cases Rec (failed body.rc)
        (λ bad. stopped-Receives body.rc body k (omega arith) far (failed_lem body.rc bad))
        λ good.
          if_cases Rec (failed (validate_crc (some body.buf) frame_len))
            (λ _. stopped-Receives io_crc_error body frame_len small far (λ e. ground arith))
            λ valid.
              if_cases Rec (not (body.buf 0 == unit_id))
                (λ _.
                  stopped-Receives io_unit_id_error body frame_len small far (λ e. ground arith))
                λ own.
                  let whole = next-Begun k n r b (omega arith) (success body.rc good) in
                  record {
                    bounded = small;
                    untouched = far;
                    received = λ _. record {
                      size = five;
                      bytes = λ j lt. whole.bytes j (omega arith);
                      taken = whole.taken ∙ omega arith;
                      own = ground arith;
                      function =
                          let second : body.buf 1 ≡ line.incoming (line.taken + 1) =
                            whole.bytes 1 (omega arith) in
                          rw second function;
                      valid = success _ valid;
                    };
                  }

  counted-Receives :
      (head : LineRead)
      → Begun 2 head
      → line.incoming (line.taken + 1) ≡ fc
      → Rec (recv_counted deadline_us unit_id head)
  unfolding recv_counted
  counted-Receives head b function =
      let count = next head 2 1 in
      let far = next_untouched 2 1 head b (omega arith) in
      if_cases Rec (failed count.rc)
        (λ bad. stopped-Receives count.rc count 2 (omega arith) far (failed_lem count.rc bad))
        λ good.
          if_cases Rec (ltb 256 (3 + count.buf 2 + 2))
            (λ _. stopped-Receives io_frame_error count 3 (omega arith) far (λ e. ground arith))
            λ fits.
              rest-Receives count 3 (3 + count.buf 2 + 2)
                (next-Begun 2 1 head b (omega arith) (success count.rc good)) (omega arith)
                (omega arith) (omega arith) (ground arith) (inl function)

  -- Whatever the line does, the response stays inside its array of 256 bytes. If the receipt
  -- succeeds, the array begins with the next bytes of the line, these and no others were consumed,
  -- and they are a frame of 5 to 256 bytes with this unit id, a valid CRC, and the function code of
  -- the request, with or without the exception flag.
  pub rtu_recv_response-Receives :
      Receives line unit_id fc buf (rtu_recv_response deadline_us line unit_id fc buf)
  unfolding rtu_recv_response
  rtu_recv_response-Receives =
      let start : LineRead = record { rc = pos 0; buf = buf; line = line } in
      let none_yet : Begun 0 start = record {
        same = refl;
        taken = omega arith;
        bytes = λ j lt. absurd (omega arith);
        untouched = λ j _. refl;
      } in
      let head = next start 0 2 in
      let far = next_untouched 0 2 start none_yet (omega arith) in
      if_cases Rec (failed head.rc)
        (λ bad. stopped-Receives head.rc head 0 (omega arith) far (failed_lem head.rc bad))
        λ good.
          let b = next-Begun 0 2 start none_yet (omega arith) (success head.rc good) in
          let second : head.buf 1 ≡ line.incoming (line.taken + 1) = b.bytes 1 (omega arith) in
          if_cases Rec (head.buf 1 == u8 (bit_or fc 0x80))
            (λ flagged.
              rest-Receives head 2 5 b (omega arith) (omega arith) (omega arith) (omega arith)
                (inr (sym second ∙ ground arith)))
            λ _.
              if_cases Rec (not (head.buf 1 == fc))
                (λ _. stopped-Receives io_frame_error head 2 (omega arith) far (λ e. ground arith))
                λ same.
                  let function : line.incoming (line.taken + 1) ≡ fc = sym second ∙ ground arith in
                  if_cases Rec (leb fc 4) (λ _. counted-Receives head b function)
                    (λ _.
                      rest-Receives head 2 8 b (omega arith) (omega arith) (omega arith)
                        (omega arith) (inl function))

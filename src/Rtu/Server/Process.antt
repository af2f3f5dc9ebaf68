-- ===== src/Rtu/Server/Process.antt =====
-- One turn of the RTU server always ends, with the receive buffer within its bounds.
use modbus_protocol.Prelude.{
  if_cases, ℕ, ℤ, pos, negsuc, ◌+◌, ◌-◌, ◌*◌, ◌≤◌, ◌≡◌, refl, arith, min, Option, none, some, List,
  [], ◌∷◌, Buf, store, offset, write_back, ltb, leb, ◌==◌, failed, not, ◌&&◌,
}
use modbus_protocol.Pdu.Check.{is_write}
use modbus_protocol.Pdu.Serve.{Reply, handle_request}
use modbus_protocol.Rtu.Crc.{append_crc}
use modbus_protocol.Rtu.Server.{
  Config, Rx, ReadResult, bytes_read, end_of_file, interrupted, would_block, read_error,
  read_available_bytes, Turn, unit_id_matches, answer, respond, deliver, silent, server_on_process,
  expire, effective_timeout_ms, reset_rx_state, after_extract, after_reading,
}
use modbus_protocol.Rtu.Server.Contract.{Extracts, waiting, framed, extract_request_frame-Extracts}

abbrev Bounded : ℤ × Rx → Type 0
Bounded (_, ctx) = ctx.rx_len ≤ 256

read_available_bytes-bounds :
    (reads : List ReadResult) (ctx : Rx) (now : ℕ)
    → ctx.rx_len ≤ 256
    → Bounded (read_available_bytes reads ctx now)
unfolding read_available_bytes
read_available_bytes-bounds [] ctx now h = h
read_available_bytes-bounds (bytes_read n new ∷ more) ctx now h =
    if_cases Bounded (ltb ctx.rx_len 256)
      (λ _.
        if_cases Bounded (min n (256 - ctx.rx_len) == 0) (λ _. h)
          (λ _. read_available_bytes-bounds more _ now (omega arith)))
      (λ _. h)
read_available_bytes-bounds (end_of_file ∷ more) ctx now h = h
read_available_bytes-bounds (interrupted ∷ more) ctx now h =
    if_cases Bounded (ltb ctx.rx_len 256) (λ _. read_available_bytes-bounds more ctx now h) (λ _. h)
read_available_bytes-bounds (would_block ∷ more) ctx now h = h
read_available_bytes-bounds (read_error ∷ more) ctx now h =
    if_cases Bounded (ltb ctx.rx_len 256) (λ _. h) (λ _. h)

expire-bounds :
    {S : Type 0} (cfg : Config S) (ctx : Rx) (now : ℕ)
    → ctx.rx_len ≤ 256
    → (expire cfg ctx now).rx_len ≤ 256
unfolding expire reset_rx_state
expire-bounds cfg ctx now h =
    if_cases (λ (c : Rx). c.rx_len ≤ 256)
      (ltb 0 ctx.rx_len
        && ltb 0 ctx.last_rx_us
        && leb ctx.last_rx_us now
        && ltb (effective_timeout_ms cfg * 1000) (now - ctx.last_rx_us))
      {x = reset_rx_state ctx} (λ _. omega arith) (λ _. h)

module _ {S : Type 0} (cfg : Config S) (junk resp : Buf) (send : Buf → ℕ → ℤ) where
  deliver_keeps :
      (ctx : Rx) (s : S) (len : ℕ) (p : ℤ × Option Buf)
      → (deliver cfg junk resp send ctx s len p).ctx ≡ ctx
  deliver_keeps ctx s len (rc, none) = refl
  deliver_keeps ctx s len (rc, some frame) =
      if_cases (λ (t : Turn S). t.ctx ≡ ctx) (failed rc) (λ _. refl) (λ _. refl)

  respond_keeps :
      (ctx : Rx) (unit_id : ℕ) (r : Reply S) → (respond cfg junk resp send ctx unit_id r).ctx ≡ ctx
  respond_keeps ctx unit_id r =
      if_cases (λ (t : Turn S). t.ctx ≡ ctx) (unit_id == 0) (λ _. refl)
        λ _.
          deliver_keeps ctx r.state (1 + r.len + 2)
            (append_crc (some (store (write_back resp 1 r.bytes) 0 unit_id)) (1 + r.len) 256)

  answer_keeps : (ctx : Rx) (s : S) (f : Buf × ℕ) → (answer cfg junk resp send ctx s f).ctx ≡ ctx
  unfolding answer
  answer_keeps ctx s (adu, len) =
      if_cases (λ (t : Turn S). t.ctx ≡ ctx) (not (unit_id_matches cfg (adu 0))) (λ _. refl)
        λ _.
          if_cases (λ (t : Turn S). t.ctx ≡ ctx) (adu 0 == 0 && not (is_write (adu 1))) (λ _. refl)
            λ _.
              respond_keeps ctx (adu 0)
                (handle_request cfg.handlers junk (offset adu 1) (len - 1 - 2) (offset resp 1) s)

  -- Every turn ends within the fuel, and the receive buffer holds at most its 256 bytes afterwards.
  pub server_on_process-IsBounded :
      (adu : Buf) (reads : List ReadResult) (now_us : ℕ) (ctx : Rx) (s : S)
      → ctx.rx_len ≤ 256
      → (turn : Turn S) × (server_on_process cfg junk resp send adu reads now_us ctx s ≡ some turn)
        × (turn.ctx.rx_len ≤ 256)
  unfolding server_on_process
  server_on_process-IsBounded adu reads now_us ctx s h = after _ (
      read_available_bytes-bounds reads (expire cfg ctx now_us) now_us
        (expire-bounds cfg ctx now_us h))
    where
      after :
          (p : ℤ × Rx)
          → Bounded p
          → (turn : Turn S) × (after_reading cfg junk resp send adu s p ≡ some turn)
            × (turn.ctx.rx_len ≤ 256)
      after (negsuc rc, c) b = (silent cfg junk resp send (negsuc 0) c s, refl, b)
      after (pos rc, c) b = ended _ (extract_request_frame-Extracts c adu 256)
        where
          ended :
              (r : Option (Rx × Option (Buf × ℕ)))
              → Extracts 256 c r
              → (turn : Turn S) × (elim r [
                | none ↦ none
                | some found ↦ some (after_extract cfg junk resp send s found)
              ]
                  ≡ some turn)
                × (turn.ctx.rx_len ≤ 256)
          ended _ (waiting n rest k w left) =
              (silent cfg junk resp send (pos 0) rest s, refl, omega (arith, left.left))
          ended _ (framed n len rest frame k has lo hi same valid left) = (
            answer cfg junk resp send rest s (frame, len),
            refl,
            rw (answer_keeps rest s (frame, len)) (omega (arith, left.left)),
          )

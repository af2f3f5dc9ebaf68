-- ===== src/Rtu/Server/Answers.antt =====
-- Whom the RTU server answers, and with which frame.
use modbus_protocol.Prelude.{
  ℕ, ℤ, pos, negsuc, ◌+◌, ◌-◌, ◌≤◌, ◌<◌, ◌≡◌, ◌≢◌, refl, ◌∙◌, ◌⊎◌, arith, some, Buf, HasBytes,
  store, offset, write_back, ◌==◌, if◌then◌else◌, failed, not, ◌&&◌, true, false,
}
use modbus_protocol.Pdu.Check.{is_write}
use modbus_protocol.Pdu.Serve.{Reply, handle_request}
use modbus_protocol.Pdu.Dispatch.Bytes.{handle_request-HasBytes}
use modbus_protocol.Pdu.Dispatch.Bounds.{handle_request-Fits}
use modbus_protocol.Pdu.Dispatch.Locality.{handle_request_local}
use modbus_protocol.Rtu.Crc.Append.{with_crc, with_crc_kept, append_crc_lem, validate_crc-with_crc}
use modbus_protocol.Rtu.Request.Frames.{Carries}
use modbus_protocol.Rtu.Server.{Config, Rx, Turn, unit_id_matches, answer, respond, silent}

module _ {S : Type 0} (cfg : Config S) (junk resp : Buf) (send : Buf → ℕ → ℤ) where
  -- What one turn of the server sends for a frame that carries a PDU to its unit id: the reply of
  -- `mb_pdu_handle_request` to that PDU, in a frame with the same unit id and a valid CRC.
  pub record Answered (turn : Turn S) (ctx : Rx) (unit_id : ℕ) (r : Reply S) : Type 0 where
    pub kept : turn.ctx ≡ ctx
    pub state : turn.state ≡ r.state
    pub frame : Buf
    pub sent : turn.sent ≡ some (frame, r.len + 3)
    pub carried : Carries frame unit_id r.bytes r.len
    pub returned : turn.rc ≡ (if failed (send frame (r.len + 3)) then negsuc 0 else pos 0)

  respond-Answered :
      (ctx : Rx) (unit_id : ℕ) (r : Reply S)
      → unit_id ≢ 0
      → unit_id < 256
      → r.len ≤ 253
      → HasBytes resp
      → HasBytes r.bytes
      → Answered (respond cfg junk resp send ctx unit_id r) ctx unit_id r
  respond-Answered ctx unit_id r single byte short hr hb =
      let body = store (write_back resp 1 r.bytes) 0 unit_id in
      let single' : (unit_id == 0) ≡ false = ground arith in
      let bytes : HasBytes body = λ j. let a = hr j in let b = hb (j - 1) in ground arith in
      let size : 1 + r.len + 2 ≡ r.len + 3 = omega arith in
      let crc =
        append_crc_lem body (1 + r.len) 256 (λ j _ _. bytes j) (omega arith) (omega arith) in
      let kept = with_crc_kept body (1 + r.len) in
      rw (single', crc, size)
        record {
          kept = refl;
          state = refl;
          frame = with_crc body (1 + r.len);
          sent = refl;
          carried = record {
            unit = kept 0 (omega arith) ∙ ground arith;
            pdu_bytes = λ j lt. kept (1 + j) (omega arith) ∙ ground arith;
            valid = rw (← size) (validate_crc-with_crc body (1 + r.len) (λ j _ _. bytes j));
          };
          returned = refl;
        }

  -- A frame that carries a PDU to this server alone.
  pub record Addressed (frame : Buf) (pdu : Buf) (n : ℕ) : Type 0 where
    pub carried : Carries frame (frame 0) pdu n
    pub single : frame 0 ≢ 0
    pub mine : (cfg.unit_id ≡ frame 0) ⊎ (cfg.unit_id ≡ 255)
    pub bytes : HasBytes frame
    pub some_byte : 1 ≤ n

  matches :
      (unit_id : ℕ)
      → (cfg.unit_id ≡ unit_id) ⊎ (cfg.unit_id ≡ 255)
      → unit_id_matches cfg unit_id ≡ true
  unfolding unit_id_matches
  matches unit_id mine = ground arith

  -- A frame with a single unit id that matches is answered with the reply of
  -- `mb_pdu_handle_request` to the PDU inside it, under the same unit id and with a valid CRC.
  pub answer-Answered :
      (ctx : Rx) (s : S) (frame pdu : Buf) (n : ℕ)
      → HasBytes resp
      → Addressed frame pdu n
      → Answered
          (answer cfg junk resp send ctx s (frame, n + 3))
          ctx
          (frame 0)
          (handle_request cfg.handlers junk pdu n (offset resp 1) s)
  unfolding answer
  answer-Answered ctx s frame pdu n hr a =
      let r = handle_request cfg.handlers junk (offset frame 1) n (offset resp 1) s in
      let size : n + 3 - 1 - 2 ≡ n = omega arith in
      let passed : not (unit_id_matches cfg (frame 0)) ≡ false =
        rw (matches (frame 0) a.mine) refl in
      let alone : (frame 0 == 0 && not (is_write (frame 1))) ≡ false =
        let ne = a.single in ground arith in
      let fits = handle_request-Fits cfg.handlers junk (offset frame 1) n (offset resp 1) s in
      let same =
        handle_request_local cfg.handlers junk (offset frame 1) pdu n (offset resp 1) s a.some_byte
          a.carried.pdu_bytes in
      rw (← same) (
        rw (passed, alone, size)
          (respond-Answered ctx (frame 0) r a.single (a.bytes 0) fits.at_most hr (
            handle_request-HasBytes cfg.handlers junk (offset frame 1) n (offset resp 1) s
              (λ j. a.bytes (1 + j)) (λ j. hr (1 + j)))))

  -- A frame for another unit id, or a broadcast that does not write, changes nothing and is not
  -- answered.
  pub answer_ignored :
      (ctx : Rx) (s : S) (adu : Buf) (len : ℕ)
      → ((cfg.unit_id ≢ adu 0) × (cfg.unit_id ≢ 255) × (adu 0 ≢ 0))
        ⊎ ((adu 0 ≡ 0) × (is_write (adu 1) ≡ false))
      → answer cfg junk resp send ctx s (adu, len) ≡ silent cfg junk resp send (pos 0) ctx s
  unfolding answer unit_id_matches
  answer_ignored ctx s adu len why = ground arith

  -- A broadcast is never answered; one that writes is handed to `mb_pdu_handle_request`, and
  -- leaves the application's state behind it.
  pub answer_broadcast :
      (ctx : Rx) (s : S) (adu : Buf) (len : ℕ)
      → adu 0 ≡ 0
      → answer cfg junk resp send ctx s (adu, len)
        ≡ silent cfg junk resp send (pos 0) ctx (
            if is_write (adu 1)
            then (handle_request cfg.handlers junk
                (offset adu 1)
                (len - 1 - 2)
                (offset resp 1)
                s).state
            else s)
  unfolding answer unit_id_matches
  answer_broadcast ctx s adu len all = ground arith

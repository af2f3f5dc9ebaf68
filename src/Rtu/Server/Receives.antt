-- ===== src/Rtu/Server/Receives.antt =====
-- A request that reached the receive buffer is answered in that turn, however its bytes arrived.
use modbus_protocol.Prelude.{
  ℕ, ℤ, pos, suc, ◌+◌, ◌-◌, ◌≤◌, ◌≡◌, ◌≢◌, refl, ap, ◌∙◌, ◌⊎◌, arith, none, some, List, Buf,
  HasBytes, offset, copy, Agree, failed, leb, not, ◌&&◌, if◌then◌else◌, true,
}
use modbus_protocol.Pdu.Check.{is_write}
use modbus_protocol.Pdu.Serve.{handle_request}
use modbus_protocol.Pdu.Dispatch.Locality.{handle_request_local}
use modbus_protocol.Rtu.Crc.{validate_crc}
use modbus_protocol.Rtu.Crc.Detection.{validate_crc_agree}
use modbus_protocol.Rtu.Request.Frames.{Carries}
use modbus_protocol.Rtu.Server.{
  Config, Rx, ReadResult, read_available_bytes, FrameLen, incomplete, frame_error, complete, wait,
  skip, take_frame, after_extract, get_complete_request_len, drop_rx_bytes, take, judge, resync,
  settle, Turn, server_on_process, expire, answer, after_reading, extract_request_frame,
}
use modbus_protocol.Rtu.Server.Answers.{Answered, Addressed, answer-Answered, answer_broadcast}

-- The length of a request PDU that the server's framing assumes.
pub data IsWhole (pdu : Buf) (n : ℕ) : Type 0 where
  fixed : pdu 0 ≢ 15 → pdu 0 ≢ 16 → n ≡ 5 → IsWhole pdu n
  counted : (pdu 0 ≡ 15) ⊎ (pdu 0 ≡ 16) → 1 ≤ pdu 5 → n ≡ 6 + pdu 5 → n ≤ 253 → IsWhole pdu n

-- The received bytes begin with that frame.
pub record StartsWith (ctx : Rx) (frame : Buf) (len : ℕ) : Type 0 where
  pub received : len ≤ ctx.rx_len
  pub bytes : Agree len ctx.rx_buffer frame

measured :
    (ctx : Rx) (frame pdu : Buf) (unit_id n : ℕ)
    → StartsWith ctx frame (n + 3)
    → Carries frame unit_id pdu n
    → IsWhole pdu n
    → get_complete_request_len ctx.rx_buffer ctx.rx_len 256 ≡ complete (n + 3)
unfolding get_complete_request_len
measured ctx frame pdu unit_id n s c (fixed not15 not16 size) =
    let front : ctx.rx_buffer 1 ≡ pdu 0 = s.bytes 1 (omega arith) ∙ c.pdu_bytes 0 (omega arith) in
    let here = s.received in ground arith
measured ctx frame pdu unit_id n s c (counted code some' size small) =
    let front : ctx.rx_buffer 1 ≡ pdu 0 = s.bytes 1 (omega arith) ∙ c.pdu_bytes 0 (omega arith) in
    let count : ctx.rx_buffer 6 ≡ pdu 5 = s.bytes 6 (omega arith) ∙ c.pdu_bytes 5 (omega arith) in
    let here = s.received in ground arith

front_taken :
    (ctx : Rx) (frame pdu : Buf) (unit_id n : ℕ)
    → n ≤ 253
    → StartsWith ctx frame (n + 3)
    → Carries frame unit_id pdu n
    → IsWhole pdu n
    → judge ctx 256 ≡ take (n + 3)
unfolding judge
front_taken ctx frame pdu unit_id n short s c whole =
    let len = measured ctx frame pdu unit_id n s c whole in
    let crc : validate_crc (some ctx.rx_buffer) (n + 3) ≡ pos 0 =
      validate_crc_agree (n + 3) ctx.rx_buffer frame s.bytes ∙ c.valid in
    let room : leb (n + 3) 256 ≡ true = ground arith in
    ap
      (λ (f : FrameLen). elim f [
        | incomplete ↦ wait
        | frame_error ↦ skip
        | complete size ↦
            if leb size 256 && not (failed (validate_crc (some ctx.rx_buffer) size))
            then take size
            else skip
      ])
      len
    ∙ rw (crc, room) refl

resync-take :
    (fuel : ℕ) (ctx : Rx) (len : ℕ)
    → judge ctx 256 ≡ take len
    → resync (suc fuel) ctx 256 ≡ some (ctx, some len)
unfolding resync
resync-take fuel ctx len e =
    ap
      (λ c. elim c [
        | wait ↦ some (ctx, none)
        | skip ↦ resync fuel (drop_rx_bytes ctx 1) 256
        | take size ↦ some (ctx, some size)
      ])
      e

-- What the extraction leaves and returns.
extract_front :
    (ctx : Rx) (adu frame pdu : Buf) (unit_id n : ℕ)
    → n ≤ 253
    → StartsWith ctx frame (n + 3)
    → Carries frame unit_id pdu n
    → IsWhole pdu n
    → extract_request_frame ctx adu 256
      ≡ some (settle (drop_rx_bytes ctx (n + 3)), some (copy adu 0 ctx.rx_buffer (n + 3), n + 3))
unfolding extract_request_frame
extract_front ctx adu frame pdu unit_id n short s c whole =
    ap (λ r. elim r [ none ↦ none | some found ↦ some (take_frame adu found) ])
      (resync-take ctx.rx_len ctx (n + 3) (front_taken ctx frame pdu unit_id n short s c whole))

pub IsWhole-short : (pdu : Buf) (n : ℕ) → IsWhole pdu n → (1 ≤ n) × (n ≤ 253)
IsWhole-short pdu n (fixed _ _ size) = (omega arith, omega arith)
IsWhole-short pdu n (counted _ some' size small) = (omega arith, small)

module _ {S : Type 0} (cfg : Config S) (junk resp : Buf) (send : Buf → ℕ → ℤ) where
  -- If the receive buffer begins, once the turn has read what there is, with a frame that carries
  -- a whole request to this server's unit id, then the turn sends the reply of
  -- `mb_pdu_handle_request` to that request, under the same unit id and with a valid CRC, and the
  -- bytes behind the request stay in the buffer.
  pub server_on_process-Answered :
      (adu : Buf) (reads : List ReadResult) (now_us : ℕ) (ctx : Rx) (s : S) (rc : ℕ) (full : Rx)
      (frame pdu : Buf) (n : ℕ)
      → HasBytes resp
      → HasBytes adu
      → HasBytes full.rx_buffer
      → read_available_bytes reads (expire cfg ctx now_us) now_us ≡ (pos rc, full)
      → StartsWith full frame (n + 3)
      → Carries frame (frame 0) pdu n
      → IsWhole pdu n
      → frame 0 ≢ 0
      → (cfg.unit_id ≡ frame 0) ⊎ (cfg.unit_id ≡ 255)
      → (turn : Turn S) × (server_on_process cfg junk resp send adu reads now_us ctx s ≡ some turn)
        × Answered cfg junk resp send turn
            (settle (drop_rx_bytes full (n + 3)))
            (frame 0)
            (handle_request cfg.handlers junk pdu n (offset resp 1) s)
  unfolding server_on_process
  server_on_process-Answered adu reads now_us ctx s rc full frame pdu n hr ha hf read starts c whole
        single mine =
      let (some', short) = IsWhole-short pdu n whole in
      let got = copy adu 0 full.rx_buffer (n + 3) in
      let same : Agree (n + 3) got frame = λ j lt. ground (arith, starts.bytes j) in
      let first : got 0 ≡ frame 0 = same 0 (omega arith) in
      let after = settle (drop_rx_bytes full (n + 3)) in
      let carried : Carries got (got 0) pdu n = record {
        unit = refl;
        pdu_bytes = λ j lt. same (1 + j) (omega arith) ∙ c.pdu_bytes j lt;
        valid = validate_crc_agree (n + 3) got frame same ∙ c.valid;
      } in
      let bytes : HasBytes got = λ j. let a = ha j in let b = hf (j - 0) in ground arith in
      let addressed : Addressed cfg junk resp send got pdu n = record {
        carried = carried;
        single = rw first single;
        mine = rw first mine;
        bytes = bytes;
        some_byte = some';
      } in
      (
        answer cfg junk resp send after s (got, n + 3),
        ap (after_reading cfg junk resp send adu s) read
            ∙ ap
                (λ r. elim r [
                  | none ↦ none
                  | some found ↦ some (after_extract cfg junk resp send s found)
                ])
                (extract_front full adu frame pdu (frame 0) n short starts c whole),
        rw first at (answer-Answered cfg junk resp send after s got pdu n hr addressed),
      )

  -- If the receive buffer begins, once the turn has read what there is, with a frame that carries a
  -- whole request to the broadcast address, then nothing is sent and the turn returns 0, whatever this
  -- server's unit id is; a write is handed to `mb_pdu_handle_request`, and the application's state is
  -- the one behind it, a read is not, and the state stays; the frame is consumed, and the bytes behind
  -- it stay in the buffer.
  pub server_on_process_broadcast :
      (adu : Buf) (reads : List ReadResult) (now_us : ℕ) (ctx : Rx) (s : S) (rc : ℕ) (full : Rx)
      (frame pdu : Buf) (n : ℕ)
      → read_available_bytes reads (expire cfg ctx now_us) now_us ≡ (pos rc, full)
      → StartsWith full frame (n + 3)
      → Carries frame (frame 0) pdu n
      → IsWhole pdu n
      → frame 0 ≡ 0
      → (turn : Turn S) × (server_on_process cfg junk resp send adu reads now_us ctx s ≡ some turn)
        × (turn.rc ≡ pos 0)
        × (turn.sent ≡ none)
        × (turn.ctx ≡ settle (drop_rx_bytes full (n + 3)))
        × (turn.state ≡ (
            if is_write (pdu 0)
            then (handle_request cfg.handlers junk pdu n (offset resp 1) s).state
            else s))
  unfolding server_on_process
  server_on_process_broadcast adu reads now_us ctx s rc full frame pdu n read starts c whole all =
      let (some', short) = IsWhole-short pdu n whole in
      let got = copy adu 0 full.rx_buffer (n + 3) in
      let same : Agree (n + 3) got frame = λ j lt. ground (arith, starts.bytes j) in
      let first : got 0 ≡ 0 = same 0 (omega arith) ∙ all in
      let code : got 1 ≡ pdu 0 = same 1 (omega arith) ∙ c.pdu_bytes 0 (omega arith) in
      let size : n + 3 - 1 - 2 ≡ n = omega arith in
      let after = settle (drop_rx_bytes full (n + 3)) in
      let served =
        handle_request_local cfg.handlers junk (offset got 1) pdu n (offset resp 1) s some'
          (λ j lt. same (1 + j) (omega arith) ∙ c.pdu_bytes j lt) in
      (
        _,
        ap (after_reading cfg junk resp send adu s) read
            ∙ ap
                (λ r. elim r [
                  | none ↦ none
                  | some found ↦ some (after_extract cfg junk resp send s found)
                ])
                (extract_front full adu frame pdu (frame 0) n short starts c whole)
            ∙ ap (λ (t : Turn S). some t)
                (answer_broadcast cfg junk resp send after s got (n + 3) first),
        refl,
        refl,
        refl,
        rw (code, size, served) refl,
      )

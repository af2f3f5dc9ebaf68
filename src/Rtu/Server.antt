-- ===== src/Rtu/Server.antt =====
-- The RTU server of src/modbus_rtu_server.c: framing of the serial byte stream with its
-- resynchronisation, and one turn of `server_on_process`.
--
-- The operating system is a parameter: the time, the results of `read` in order, and the result of
-- sending a frame. Waiting, logging and the optional line hooks leave no trace in the state.
pub mod Extract
pub mod Framing
pub mod Contract
pub mod Process
pub mod Answers
pub mod Receives
use modbus_protocol.Prelude.{
  ℕ, ℤ, pos, negsuc, zero, suc, ◌+◌, ◌-◌, ◌*◌, min, Bool, true, false, not, ◌&&◌, ◌||◌, Option,
  none, some, List, [], ◌∷◌, Buf, store, offset, write_back, copy, ltb, leb, ◌==◌, if◌then◌else◌,
  failed,
}
use modbus_protocol.Pdu.Codes.{func_write_multiple_coils, func_write_multiple_registers}
use modbus_protocol.Pdu.Check.{is_write}
use modbus_protocol.Pdu.Serve.{Handlers, Reply, handle_request}
use modbus_protocol.Rtu.Crc.{append_crc, validate_crc}
use modbus_protocol.Rtu.Request.{min_req_length, max_adu_length}

abbrev pub broadcast_address : ℕ
broadcast_address = 0

abbrev pub unit_id_any : ℕ
unit_id_any = 0xff

abbrev pub default_recv_timeout_ms : ℕ
default_recv_timeout_ms = 1000

-- The part of `mb_rtu_server_config_t` that a turn reads.
pub record Config (S : Type 0) : Type 0 where
  pub unit_id : ℕ
  pub recv_timeout_ms : ℕ
  pub handlers : Handlers S

-- `rx_buffer`, `rx_len` and `last_rx_us` of `mb_rtu_server_ctx_t`.
pub record Rx : Type 0 where
  pub rx_buffer : Buf
  pub rx_len : ℕ
  pub last_rx_us : ℕ

unfoldable pub effective_timeout_ms : {S : Type 0} → Config S → ℕ
effective_timeout_ms cfg =
    if not (cfg.recv_timeout_ms == 0) then cfg.recv_timeout_ms else default_recv_timeout_ms

unfoldable pub reset_rx_state : Rx → Rx
reset_rx_state ctx = record { rx_buffer = ctx.rx_buffer; rx_len = 0; last_rx_us = 0 }

-- What one call of `read` does: it has up to that many bytes, which are at the front of that array, or
-- it meets the end of the file, `EINTR`, `EAGAIN` or another error.
pub data ReadResult : Type 0 where
  bytes_read : ℕ → Buf → ReadResult
  end_of_file : ReadResult
  interrupted : ReadResult
  would_block : ReadResult
  read_error : ReadResult

-- The loop over `read`, for the calls' results in order. A call is asked for the bytes that the buffer
-- still has room for, and yields no more; if it yields none, it returned 0. When the list ends, nothing
-- is left to read, as after `would_block`.
unfoldable pub read_available_bytes : List ReadResult → Rx → ℕ → ℤ × Rx
read_available_bytes [] ctx now_us = (pos 0, ctx)
read_available_bytes (bytes_read n new ∷ more) ctx now_us =
    let got = min n (max_adu_length - ctx.rx_len) in
    let rest =
      read_available_bytes more
        record {
          rx_buffer = copy ctx.rx_buffer ctx.rx_len new got;
          rx_len = ctx.rx_len + got;
          last_rx_us = now_us;
        }
        now_us in
    if ltb ctx.rx_len max_adu_length then if got == 0 then (pos 0, ctx) else rest else (pos 0, ctx)
read_available_bytes (end_of_file ∷ more) ctx now_us = (pos 0, ctx)
read_available_bytes (interrupted ∷ more) ctx now_us =
    let rest = read_available_bytes more ctx now_us in
    if ltb ctx.rx_len max_adu_length then rest else (pos 0, ctx)
read_available_bytes (would_block ∷ more) ctx now_us = (pos 0, ctx)
read_available_bytes (read_error ∷ more) ctx now_us =
    if ltb ctx.rx_len max_adu_length then (negsuc 0, ctx) else (pos 0, ctx)

-- What `get_complete_request_len` returns: 0, `RTU_IO_FRAME_ERROR`, or 1 with the length.
pub data FrameLen : Type 0 where
  incomplete : FrameLen
  frame_error : FrameLen
  complete : ℕ → FrameLen

unfoldable pub get_complete_request_len : Buf → ℕ → ℕ → FrameLen
get_complete_request_len adu rx_len adu_cap =
    let frame_len = 9 + adu 6 in
    if ltb rx_len 2
    then incomplete
    else if adu 1 == func_write_multiple_coils || adu 1 == func_write_multiple_registers
    then if leb rx_len 6
      then incomplete
      else if adu 6 == 0 || ltb adu_cap frame_len
      then frame_error
      else if ltb rx_len frame_len
      then incomplete
      else complete frame_len
    else if ltb adu_cap min_req_length
    then frame_error
    else if ltb rx_len min_req_length
    then incomplete
    else complete min_req_length

unfoldable pub drop_rx_bytes : Rx → ℕ → Rx
drop_rx_bytes ctx count =
    let remaining = ctx.rx_len - count in
    record {
      rx_buffer = copy ctx.rx_buffer 0 (offset ctx.rx_buffer count) remaining;
      rx_len = remaining;
      last_rx_us = ctx.last_rx_us;
    }

-- A candidate at the front of the buffer: wait for more bytes, skip one, or take that many.
pub data Candidate : Type 0 where
  wait : Candidate
  skip : Candidate
  take : ℕ → Candidate

unfoldable pub judge : Rx → ℕ → Candidate
judge ctx adu_cap = elim (get_complete_request_len ctx.rx_buffer ctx.rx_len max_adu_length) [
  | incomplete ↦ wait
  | frame_error ↦ skip
  | complete frame_len ↦
      if leb frame_len adu_cap && not (failed (validate_crc (some ctx.rx_buffer) frame_len))
      then take frame_len
      else skip
]

-- The loop that skips bytes. The result is the context at its end, with the length of the frame
-- at its front if there is one; `none` is an end of the fuel.
unfoldable pub resync : ℕ → Rx → ℕ → Option (Rx × Option ℕ)
resync zero ctx adu_cap = none
resync (suc fuel) ctx adu_cap =
    let rest = resync fuel (drop_rx_bytes ctx 1) adu_cap in
    elim (judge ctx adu_cap) [
      | wait ↦ some (ctx, none)
      | skip ↦ rest
      | take frame_len ↦ some (ctx, some frame_len)
    ]

-- `last_rx_us` is cleared with the last byte.
unfoldable pub settle : Rx → Rx
settle ctx = record {
  rx_buffer = ctx.rx_buffer;
  rx_len = ctx.rx_len;
  last_rx_us = if ctx.rx_len == 0 then 0 else ctx.last_rx_us;
}

-- What follows the loop: the context, and the frame with its length if there is one.
abbrev pub take_frame : Buf → Rx × Option ℕ → Rx × Option (Buf × ℕ)
take_frame adu (ctx, none) = (settle ctx, none)
take_frame adu (ctx, some frame_len) =
    (settle (drop_rx_bytes ctx frame_len), some (copy adu 0 ctx.rx_buffer frame_len, frame_len))

-- The fuel is one round for each byte that can be skipped, and one to end.
unfoldable pub extract_request_frame : Rx → Buf → ℕ → Option (Rx × Option (Buf × ℕ))
extract_request_frame ctx adu adu_cap = elim (resync (suc ctx.rx_len) ctx adu_cap) [
  | none ↦ none
  | some found ↦ some (take_frame adu found)
]

unfoldable pub unit_id_matches : {S : Type 0} → Config S → ℕ → Bool
unit_id_matches cfg unit_id =
    if unit_id == broadcast_address
    then true
    else if cfg.unit_id == unit_id_any
    then true
    else unit_id == cfg.unit_id

-- The timeout of a frame that was begun and not finished.
unfoldable pub expire : {S : Type 0} → Config S → Rx → ℕ → Rx
expire cfg ctx now_us =
    if ltb 0 ctx.rx_len
      && ltb 0 ctx.last_rx_us
      && leb ctx.last_rx_us now_us
      && ltb (effective_timeout_ms cfg * 1000) (now_us - ctx.last_rx_us)
    then reset_rx_state ctx
    else ctx

-- What a turn leaves behind: its `int`, the receive state, the application's state, and the
-- frame that it handed to `send_frame`, if it did.
pub record Turn (S : Type 0) : Type 0 where
  pub rc : ℤ
  pub ctx : Rx
  pub state : S
  pub sent : Option (Buf × ℕ)

module _ {S : Type 0} (cfg : Config S) (junk resp : Buf) (send : Buf → ℕ → ℤ) where
  abbrev pub silent : ℤ → Rx → S → Turn S
  silent rc ctx s = record { rc = rc; ctx = ctx; state = s; sent = none }

  -- From `mb_rtu_append_crc` on, with the length of the frame.
  abbrev pub deliver : Rx → S → ℕ → ℤ × Option Buf → Turn S
  deliver ctx s len (rc, none) = silent (negsuc 0) ctx s
  deliver ctx s len (rc, some frame) = if failed rc then silent (negsuc 0) ctx s else record {
    rc = if failed (send frame len) then negsuc 0 else pos 0;
    ctx = ctx;
    state = s;
    sent = some (frame, len);
  }

  -- From the PDU's handling on.
  abbrev pub respond : Rx → ℕ → Reply S → Turn S
  respond ctx unit_id r =
      if unit_id == broadcast_address
      then silent (pos 0) ctx r.state
      else deliver ctx r.state (1 + r.len + 2) (
          append_crc (some (store (write_back resp 1 r.bytes) 0 unit_id)) (1 + r.len)
            max_adu_length)

  -- What `server_on_process` does with an extracted frame.
  unfoldable pub answer : Rx → S → Buf × ℕ → Turn S
  answer ctx s (adu, total_len) =
      let unit_id = adu 0 in
      if not (unit_id_matches cfg unit_id)
      then silent (pos 0) ctx s
      else if unit_id == broadcast_address && not (is_write (adu 1))
      then silent (pos 0) ctx s
      else respond ctx unit_id
          (handle_request cfg.handlers junk (offset adu 1) (total_len - 1 - 2) (offset resp 1) s)

  abbrev pub after_extract : S → Rx × Option (Buf × ℕ) → Turn S
  after_extract s (ctx, none) = silent (pos 0) ctx s
  after_extract s (ctx, some frame) = answer ctx s frame

  abbrev pub after_reading : Buf → S → ℤ × Rx → Option (Turn S)
  after_reading adu s (negsuc rc, ctx) = some (silent (negsuc 0) ctx s)
  after_reading adu s (pos rc, ctx) = elim (extract_request_frame ctx adu max_adu_length) [
    | none ↦ none
    | some found ↦ some (after_extract s found)
  ]

  -- One turn; `none` is an end of the fuel of `extract_request_frame`.
  unfoldable pub server_on_process : Buf → List ReadResult → ℕ → Rx → S → Option (Turn S)
  server_on_process adu reads now_us ctx s =
      after_reading adu s (read_available_bytes reads (expire cfg ctx now_us) now_us)

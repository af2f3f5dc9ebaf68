-- ===== src/Rtu/Client.antt =====
-- The RTU client of src/modbus_rtu_client.c: the receipt of a response, and one transaction.
--
-- What the system does during a transaction is a parameter, the record Wire. The locks of the
-- context and of the bus are held from the first read of the state to its last write, so a
-- transaction is one step.
pub mod Api
pub mod Receipt
pub mod Measured
pub mod Replied
pub mod Connect
use modbus_protocol.Prelude.{
  ℕ, ℤ, pos, negsuc, zero, suc, ◌+◌, ◌-◌, ◌*◌, Bool, true, false, not, ◌&&◌, ◌||◌, Option, none,
  some, List, failed, u8, bit_or, Buf, store, offset, copy, leb, ltb, ◌==◌, if◌then◌else◌, Text,
}
use modbus_protocol.Pdu.Codes.{exception_flag, func_read_input_registers}
use modbus_protocol.Pdu.Check.{check_response, is_write}
use modbus_protocol.Rtu.Crc.{append_crc, validate_crc}
use modbus_protocol.Rtu.Request.{max_adu_length}
use modbus_protocol.Rtu.Server.{broadcast_address}
use modbus_protocol.Rtu.Timing.{SerialConfig, effective_timing}
use modbus_protocol.Rtu.Line.{Line, LineRead, read_exact_timeout, WriteCall, write_all}
use modbus_protocol.Rtu.Bus.{
  Bus, Rs485Mode, Timespec, wait_bus_silence, mark_bus_transaction_done, frame_wire_time_us,
}
use modbus_protocol.Rtu.Response.{
  RtuResponse, exception_len, io_crc_error, io_frame_error, io_unit_id_error, recv_counted,
  recv_rest, responded, rtu_recv_response, write_response_len,
}

abbrev pub rtu_client_ok : ℤ
rtu_client_ok = pos 0

abbrev pub rtu_err_arg : ℤ
rtu_err_arg = negsuc 0

abbrev pub rtu_err_not_connected : ℤ
rtu_err_not_connected = negsuc 1

abbrev pub rtu_err_transport : ℤ
rtu_err_transport = negsuc 2

abbrev pub rtu_err_timeout : ℤ
rtu_err_timeout = negsuc 3

abbrev pub rtu_err_frame : ℤ
rtu_err_frame = negsuc 4

abbrev pub rtu_err_unit_id : ℤ
rtu_err_unit_id = negsuc 5

abbrev pub rtu_err_crc : ℤ
rtu_err_crc = negsuc 6

abbrev pub default_handoff_silence_ms : ℕ
default_handoff_silence_ms = 30

abbrev pub default_response_timeout_ms : ℕ
default_response_timeout_ms = 1000

-- `mb_rtu_client_config_t`, without its hooks.
pub record RtuClientConfig : Type 0 where
  pub device : Option Text
  pub serial : SerialConfig
  pub rs485_mode : Rs485Mode
  pub unit_id : ℕ
  pub response_timeout_ms : ℕ
  pub inter_frame_delay_us : ℕ
  pub bus_handoff_silence_ms : ℕ
  pub local_echo : Bool

-- `mb_rtu_client_ctx_t`, without its lock; `shared_bus` is the address of the bus.
pub record RtuClientCtx : Type 0 where
  pub initialized : Bool
  pub shared_bus : Option ℕ
  pub fd : Option ℕ
  pub cfg : RtuClientConfig

unfoldable pub effective_handoff_silence_ms : RtuClientCtx → ℕ
effective_handoff_silence_ms ctx =
    effective_timing ctx.cfg.bus_handoff_silence_ms default_handoff_silence_ms

unfoldable pub effective_inter_frame_us : RtuClientCtx → Bus → ℕ
effective_inter_frame_us ctx bus = effective_timing ctx.cfg.inter_frame_delay_us bus.t35

-- At the time that it reads.
unfoldable pub response_deadline_us : RtuClientCtx → Bus → ℕ → ℕ
response_deadline_us ctx bus now_us =
    let timeout_ms =
      if not (ctx.cfg.response_timeout_ms == 0)
      then ctx.cfg.response_timeout_ms
      else default_response_timeout_ms in
    now_us + timeout_ms * 1000 + frame_wire_time_us bus max_adu_length

unfoldable pub io_err_to_client_err : ℤ → ℤ
io_err_to_client_err (pos rc) = rtu_err_transport
io_err_to_client_err (negsuc rc) =
    if rc == 1
    then rtu_err_timeout
    else if rc == 10
    then rtu_err_crc
    else if rc == 9
    then rtu_err_frame
    else if rc == 11
    then rtu_err_unit_id
    else rtu_err_transport

-- `memcmp(a, b, n) == 0`
unfoldable pub same_bytes : ℕ → Buf → Buf → Bool
same_bytes zero a b = true
same_bytes (suc n) a b = a n == b n && same_bytes n a b

-- What the system does during a transaction: the time at its begin and at its end, the calls of
-- `write` with the result of `tcdrain`, the clock when the deadlines are set, and the line after it
-- is flushed.
pub record Wire : Type 0 where
  pub begin_time : Timespec
  pub end_time : Timespec
  pub writes : List WriteCall
  pub drained : ℤ
  pub echo_clock : ℕ
  pub response_clock : ℕ
  pub line : Line

-- What a transaction leaves behind: its result, the bus, the response's array, the frame that it
-- handed to `send_frame`, if it did, and how long it waited for that.
pub record RtuTransaction : Type 0 where
  pub rc : ℤ
  pub bus : Bus
  pub resp : Buf
  pub sent : Option (Buf × ℕ)
  pub slept_us : ℕ

-- The array after `mb_rtu_append_crc`, whose result is not looked at.
abbrev pub array_after : Buf → ℤ × Option Buf → Buf
array_after junk (rc, none) = junk
array_after junk (rc, some frame) = frame

-- The request's ADU, in a local array, without and with its CRC.
unfoldable pub rtu_request_adu : Buf → ℕ → Buf → ℕ → Buf
rtu_request_adu junk unit_id pdu pdu_len =
    array_after junk
      (append_crc (some (copy (store junk 0 unit_id) 1 pdu pdu_len)) (1 + pdu_len) max_adu_length)

-- `MB_PDU_ERR_FRAME` becomes `MB_RTU_CLIENT_ERR_FRAME`.
abbrev pub rtu_client_rc : ℤ → ℤ
rtu_client_rc (pos code) = pos code
rtu_client_rc (negsuc zero) = rtu_err_frame
rtu_client_rc (negsuc (suc n)) = negsuc (suc n)

-- What the transaction returns, after the locks are released.
unfoldable pub rtu_conclude : Buf → RtuResponse → ℤ
rtu_conclude pdu r =
    if failed r.rc
    then io_err_to_client_err r.rc
    else rtu_client_rc (check_response pdu (offset r.buf 1) (r.total_len - 1 - 2))

module _ (wire : Wire) (junk echo : Buf) (ctx : RtuClientCtx) (bus : Bus) (pdu : Buf) (pdu_len : ℕ)
    (resp : Buf) where
  abbrev pub request_frame : Buf
  request_frame = rtu_request_adu junk ctx.cfg.unit_id pdu pdu_len

  abbrev pub request_len : ℕ
  request_len = 1 + pdu_len + 2

  -- `bus_transaction_end` and the return.
  abbrev pub ended_with : ℤ → Buf → RtuTransaction
  ended_with rc resp' = record {
    rc = rc;
    bus = mark_bus_transaction_done wire.end_time ctx.cfg.unit_id bus;
    resp = resp';
    sent = some (request_frame, request_len);
    slept_us =
        wait_bus_silence bus ctx.cfg.unit_id (effective_inter_frame_us ctx bus)
          (effective_handoff_silence_ms ctx) wire.begin_time;
  }

  -- Nothing was sent.
  abbrev pub refused_with : ℤ → RtuTransaction
  refused_with rc = record { rc = rc; bus = bus; resp = resp; sent = none; slept_us = 0 }

  -- After the echo: the response, unless the request is a broadcast.
  unfoldable pub receive_reply : Line → RtuTransaction
  receive_reply line =
      let r =
        rtu_recv_response (response_deadline_us ctx bus wire.response_clock) line ctx.cfg.unit_id
          (pdu 0) resp in
      if ctx.cfg.unit_id == broadcast_address
      then ended_with rtu_client_ok resp
      else ended_with (rtu_conclude pdu r) r.buf

  -- After the request has gone out.
  unfoldable pub after_send : RtuTransaction
  after_send =
      let e =
        read_exact_timeout (response_deadline_us ctx bus wire.echo_clock) wire.line echo 0
          request_len in
      if ctx.cfg.local_echo
      then if failed e.rc || not (same_bytes request_len e.buf request_frame)
        then ended_with rtu_err_transport resp
        else receive_reply e.line
      else receive_reply wire.line

  unfoldable pub rtu_transact : RtuTransaction
  rtu_transact =
      let fc = pdu 0 in
      if not ctx.initialized
      then refused_with rtu_err_not_connected
      else if ctx.cfg.unit_id == broadcast_address && not (is_write fc)
      then refused_with rtu_err_arg
      else if failed (write_all wire.writes wire.drained request_len).0
      then ended_with rtu_err_transport resp
      else after_send

-- ===== src/Rtu/Tests/Exchanged.antt =====
-- A client of src/modbus_rtu_client.c reads three registers of the server of Rtu/Tests.
use modbus_protocol.Prelude.{
  ℕ, pos, ◌≡◌, ◌⊎◌, inl, inr, refl, sym, arith, suc, zero, true, false, ◌<◌, ◌≤◌, ◌+◌, ◌-◌, some,
  List, [], ◌∷◌, Buf, offset, Agree, HasBytes,
}
use modbus_protocol.Pdu.Build.{build_read}
use modbus_protocol.Pdu.Serve.{handle_request, handle_read_registers, registers_response, Reply}
use modbus_protocol.Pdu.Wire.{put_u16, get_u16, range_overflows}
use modbus_protocol.Pdu.Check.{is_read}
use modbus_protocol.Rtu.Crc.{append_crc, crc_bit, crc_bits, crc_byte, crc_loop, crc16}
use modbus_protocol.Rtu.Server.{Turn, server_on_process, settle, drop_rx_bytes}
use modbus_protocol.Rtu.Server.Answers.{Answered}
use modbus_protocol.Rtu.Server.Receives.{IsWhole, fixed, server_on_process-Answered}
use modbus_protocol.Rtu.Line.{
  SelectCall, ready, read_up_to, write_up_to, write_interrupted, read_exact_timeout, write_all,
  write_loop,
}
use modbus_protocol.Rtu.Line.Prompt.{IsPrompt, ReadAll, read_exact_timeout-Succeeds}
use modbus_protocol.Rtu.Bus.{untouched, Bus}
use modbus_protocol.Rtu.Client.{
  RtuClientCtx, Wire, rtu_request_adu, rtu_transact, response_deadline_us, same_bytes,
}
use modbus_protocol.Rtu.Response.{rtu_recv_response}
use modbus_protocol.Rtu.Client.Api.{rtu_read_registers}
use modbus_protocol.Rtu.Client.Receipt.{Receives, rtu_recv_response-Receives}
use modbus_protocol.Rtu.Client.Replied.{Brings, Replied}
use modbus_protocol.Rtu.Exchange.{
  ClientReady, ServerReady, rtu_request_adu-Carries, rtu_transact-server_on_process,
}
use modbus_protocol.Rtu.Reads.{RtuReadDone, build_read-HasBytes, rtu_read_registers-RtuReadDone}
use modbus_protocol.Rtu.Tests.{
  zeros, serial, config, delivered, idle, request, two_pieces, assembled, assembled-HasBytes,
  assembled_read,
}

-- The client, with unit id 17, and its bus.
abbrev pub client : RtuClientCtx
client = record {
  initialized = true;
  shared_bus = some 0x1000;
  fd = some 5;
  cfg = record {
    device = some (47 ∷ 100 ∷ []);
    serial = serial;
    rs485_mode = untouched;
    unit_id = 17;
    response_timeout_ms = 0;
    inter_frame_delay_us = 0;
    bus_handoff_silence_ms = 0;
    local_echo = false;
  };
}

abbrev pub bus : Bus
bus = record {
  address = 0x1000;
  path = 47 ∷ 100 ∷ [];
  fd = 5;
  refcnt = 1;
  baud_rate = 9600;
  data_bits = 8;
  stop_bits = 1;
  parity = serial.parity;
  rs485_mode = untouched;
  t35 = 4011;
  has_last_transaction = false;
  last_unit_id = 0;
  last_release_time = record { tv_sec = 0; tv_nsec = 0 };
}

abbrev pdu : Buf
pdu = (build_read zeros 3 107 3).bytes

abbrev frame : Buf
frame = rtu_request_adu zeros 17 pdu 5

pub same_bytes-Agree : (n : ℕ) (a b : Buf) → same_bytes n a b ≡ true → Agree n b a
unfolding same_bytes
same_bytes-Agree zero a b e = λ j lt. absurd (omega arith)
same_bytes-Agree (suc n) a b e =
    let rest = same_bytes-Agree n a b (ground arith) in
    λ j lt. elim (last_or j lt) [
      | inl below ↦ rest j below
      | inr at ↦ let top : b n ≡ a n = ground arith in rw at top
    ]
  where
    last_or : (j : ℕ) → j < suc n → (j < n) ⊎ (j ≡ n)
    last_or j lt = omega arith

-- The client's frame is the one that the server of Rtu/Tests has received.
frame_lem : Agree 8 request frame
unfolding same_bytes rtu_request_adu build_read put_u16 append_crc crc16 crc_loop crc_byte crc_bits
    crc_bit
frame_lem = same_bytes-Agree 8 frame request refl

pdu_IsWhole : IsWhole pdu 5
unfolding build_read put_u16
pdu_IsWhole = fixed (omega arith) (omega arith) refl

pdu-HasBytes : HasBytes pdu
pdu-HasBytes = build_read-HasBytes zeros 3 107 3 (omega arith) (λ j. omega arith)

server_ready : ServerReady config zeros zeros two_pieces 1000 idle 17 frame 8
server_ready = record {
  full = assembled;
  rc = 0;
  reading = assembled_read;
  starts = record {
    received = omega arith;
    bytes = λ j lt. let e = frame_lem j lt in ground arith;
  };
  mine = inl refl;
  response_array = λ j. omega arith;
  request_array = λ j. omega arith;
  buffer = assembled-HasBytes;
}

-- The server answers the client's frame.
turn_lem :
    (turn : Turn ℕ) × (server_on_process config zeros zeros delivered zeros two_pieces 1000 idle 0
      ≡ some turn)
    × Answered config zeros zeros delivered turn
        (settle (drop_rx_bytes assembled (5 + 3)))
        (frame 0)
        (handle_request config.handlers zeros pdu 5 (offset zeros 1) 0)
unfolding server_ready
turn_lem =
    let carries =
      rtu_request_adu-Carries zeros 17 pdu 5 (λ j. omega arith) (omega arith) pdu-HasBytes
        (omega arith) in
    let own : frame 0 ≡ 17 = carries.unit in
    server_on_process-Answered config zeros zeros delivered zeros two_pieces 1000 idle 0 0 assembled
      frame pdu 5 (λ j. omega arith) (λ j. omega arith) assembled-HasBytes assembled_read
      server_ready.starts (rw own carries) pdu_IsWhole (omega (arith, own)) (inl (sym own))

abbrev turn : Turn ℕ
turn = turn_lem.0

abbrev reply_frame : Buf
reply_frame = turn_lem.2.frame

abbrev reply : Reply ℕ
reply = handle_request config.handlers zeros pdu 5 (offset zeros 1) 0

-- Each call of `read` yields a byte.
abbrev pub bytewise : ℕ → List (ℕ × SelectCall)
bytewise zero = []
bytewise (suc n) = (2000, ready (read_up_to 1)) ∷ bytewise n

-- The line brings the server's frame; the request went out in two pieces.
abbrev wire : Wire
wire = record {
  begin_time = record { tv_sec = 1; tv_nsec = 0 };
  end_time = record { tv_sec = 2; tv_nsec = 0 };
  writes = write_up_to 3 ∷ write_interrupted ∷ write_up_to 20 ∷ [];
  drained = pos 0;
  echo_clock = 1000;
  response_clock = 1000;
  line = record { incoming = reply_frame; taken = 0; rounds = bytewise 16 };
}

client_ready : ClientReady wire zeros client pdu 5
unfolding write_all write_loop
client_ready = record {
  connected = refl;
  single = omega arith;
  byte = omega arith;
  quiet = refl;
  array = λ j. omega arith;
  request = pdu-HasBytes;
  sends = refl;
}

reply_len : reply.len ≡ 8
unfolding handle_request handle_read_registers registers_response build_read put_u16 is_read get_u16
    range_overflows
reply_len = refl

pub bytewise-IsPrompt : (d n m : ℕ) → 2000 < d → n ≤ m → IsPrompt d n (bytewise m)
bytewise-IsPrompt d n zero late le = omega arith
bytewise-IsPrompt d n (suc m) late le =
    inr (late, omega arith, bytewise-IsPrompt d (n - 1) m late (omega arith))

wire-Brings : Brings wire.line (response_deadline_us client bus 1000) reply_frame (reply.len + 3)
unfolding response_deadline_us
wire-Brings = record {
  bytes = λ j lt. let e : 0 + j ≡ j = omega arith in rw e refl;
  prompt = bytewise-IsPrompt _ _ 16 (omega arith) (omega (arith, reply_len));
}

rtu_transact-server_on_process_example :
    Replied wire client bus pdu reply.bytes reply.len
      (rtu_transact wire zeros zeros client bus pdu 5 zeros)
    × (turn.state ≡ reply.state)
rtu_transact-server_on_process_example =
    rtu_transact-server_on_process config zeros zeros delivered zeros two_pieces 1000 idle 0 wire
      zeros zeros client bus pdu 5 zeros turn reply_frame (reply.len + 3) client_ready server_ready
      pdu_IsWhole turn_lem.1 turn_lem.2.sent wire-Brings

rtu_read_registers-RtuReadDone_example :
    RtuReadDone
      (rtu_read_registers wire zeros zeros zeros zeros bus (some client) 3 107 3 (some zeros))
      3
      (λ k. 107 + k)
    × (turn.state ≡ 0)
rtu_read_registers-RtuReadDone_example =
    rtu_read_registers-RtuReadDone config zeros zeros delivered zeros two_pieces 1000 idle 0 0 wire
      zeros zeros zeros zeros zeros client bus 3 107 3
      (λ fc addr qty out s. (pos 0, (λ k. addr + k), s)) (λ k. 107 + k) turn reply_frame
      (reply.len + 3) refl (inl refl) (omega arith)
      record { some_item = omega arith; at_most = omega arith; no_overflow = omega arith } refl
      (λ k lt. omega arith) client_ready server_ready turn_lem.1 turn_lem.2.sent wire-Brings

rtu_recv_response-Receives_example :
    Receives wire.line 17 3 zeros (rtu_recv_response 5000 wire.line 17 3 zeros)
rtu_recv_response-Receives_example = rtu_recv_response-Receives 5000 wire.line 17 3 zeros

read_exact_timeout-Succeeds_example :
    ReadAll 5000 wire.line zeros 0 4 7 (read_exact_timeout 5000 wire.line zeros 0 4)
read_exact_timeout-Succeeds_example =
    read_exact_timeout-Succeeds 5000 wire.line zeros 0 4 7
      (bytewise-IsPrompt 5000 11 16 (omega arith) (omega arith))

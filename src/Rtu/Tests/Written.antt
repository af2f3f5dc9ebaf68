-- ===== src/Rtu/Tests/Written.antt =====
-- A client of src/modbus_rtu_client.c writes two registers of the server of Rtu/Tests.
use modbus_protocol.Prelude.{
  ℕ, pos, ◌≡◌, inl, inr, refl, sym, ap, arith, some, List, [], ◌∷◌, Buf, of_list, offset, copy,
  Agree, HasBytes, IsU16, zero, suc, ◌+◌, ◌-◌, ◌<◌,
}
use modbus_protocol.Pdu.Build.{build_read, build_write_registers}
use modbus_protocol.Pdu.Wire.{put_u16, put_registers}
use modbus_protocol.Pdu.Serve.{Reply, handle_request}
use modbus_protocol.Pdu.Dispatch.Bytes.{store-HasBytes, put_registers-HasBytes}
use modbus_protocol.Pdu.Dispatch.Bounds.{handle_request-Fits}
use modbus_protocol.Rtu.Reads.{build_read-HasBytes}
use modbus_protocol.Rtu.Crc.{append_crc, crc_bit, crc_bits, crc_byte, crc_loop, crc16}
use modbus_protocol.Rtu.Server.{
  Rx, ReadResult, bytes_read, read_available_bytes, expire, Turn, server_on_process, settle,
  drop_rx_bytes,
}
use modbus_protocol.Rtu.Server.Answers.{Answered}
use modbus_protocol.Rtu.Server.Receives.{IsWhole, counted, server_on_process-Answered}
use modbus_protocol.Rtu.Line.{write_up_to, write_all, write_loop}
use modbus_protocol.Rtu.Client.{Wire, rtu_request_adu, response_deadline_us, same_bytes}
use modbus_protocol.Rtu.Client.Api.{rtu_write_multiple_registers}
use modbus_protocol.Rtu.Client.Replied.{Brings}
use modbus_protocol.Rtu.Exchange.{ClientReady, ServerReady, rtu_request_adu-Carries}
use modbus_protocol.Rtu.Writes.{RtuWriteDone, rtu_write_multiple_registers-RtuWriteDone}
use modbus_protocol.Rtu.Tests.{zeros, config, delivered, idle, of_list-HasBytes}
use modbus_protocol.Rtu.Tests.Exchanged.{client, bus, same_bytes-Agree, bytewise, bytewise-IsPrompt}

-- The values 10 and 258 for the registers 1 and 2.
abbrev values : Buf
values = of_list (10 ∷ 258 ∷ [])

abbrev pdu : Buf
pdu = (build_write_registers zeros 1 2 values).bytes

abbrev frame : Buf
frame = rtu_request_adu zeros 17 pdu 10

abbrev received_bytes : Buf
received_bytes = of_list (17 ∷ 16 ∷ 0 ∷ 1 ∷ 0 ∷ 2 ∷ 4 ∷ 0 ∷ 10 ∷ 1 ∷ 2 ∷ 198 ∷ 240 ∷ [])

abbrev one_piece : List ReadResult
one_piece = bytes_read 13 received_bytes ∷ []

abbrev full : Rx
full = record { rx_buffer = copy zeros 0 received_bytes 13; rx_len = 13; last_rx_us = 1000 }

frame_lem : Agree 13 received_bytes frame
unfolding same_bytes rtu_request_adu build_write_registers build_read put_registers put_u16
    append_crc crc16 crc_loop crc_byte crc_bits crc_bit
frame_lem = same_bytes-Agree 13 frame received_bytes refl

pdu-HasBytes : HasBytes pdu
unfolding build_write_registers
pdu-HasBytes = put_registers-HasBytes 2 0 values _ 6 (
    store-HasBytes _ 5 _ (omega arith)
      (build_read-HasBytes zeros 16 1 2 (omega arith) (λ j. omega arith)))

received-HasBytes : HasBytes received_bytes
received-HasBytes =
    of_list-HasBytes (17 ∷ 16 ∷ 0 ∷ 1 ∷ 0 ∷ 2 ∷ 4 ∷ 0 ∷ 10 ∷ 1 ∷ 2 ∷ 198 ∷ 240 ∷ []) (
      omega arith,
      (
        omega arith,
        (
          omega arith,
          (
            omega arith,
            (
              omega arith,
              (
                omega arith,
                (
                  omega arith,
                  (
                    omega arith,
                    (omega arith, (omega arith, (omega arith, (omega arith, (omega arith, tt))))),
                  ),
                ),
              ),
            ),
          ),
        ),
      ),
    )

full_read : read_available_bytes one_piece (expire config idle 1000) 1000 ≡ (pos 0, full)
unfolding read_available_bytes expire
full_read = refl

server_ready : ServerReady config zeros zeros one_piece 1000 idle 17 frame 13
server_ready = record {
  full = full;
  rc = 0;
  reading = full_read;
  starts = record {
    received = omega arith;
    bytes = λ j lt. let e = frame_lem j lt in ground arith;
  };
  mine = inl refl;
  response_array = λ j. omega arith;
  request_array = λ j. omega arith;
  buffer = λ j. let b = received-HasBytes (j - 0) in ground arith;
}

two_words : (k : ℕ) → k < 2 → IsU16 (values k)
two_words zero lt = omega arith
two_words (suc zero) lt = omega arith
two_words (suc (suc k)) lt = omega arith

pdu_IsWhole : IsWhole pdu 10
unfolding build_write_registers build_read put_registers put_u16
pdu_IsWhole = counted (inr refl) (omega arith) refl (omega arith)

-- The server answers the client's frame.
turn_lem :
    (turn : Turn ℕ) × (server_on_process config zeros zeros delivered zeros one_piece 1000 idle 0
      ≡ some turn)
    × Answered config zeros zeros delivered turn
        (settle (drop_rx_bytes full (10 + 3)))
        (frame 0)
        (handle_request config.handlers zeros pdu 10 (offset zeros 1) 0)
unfolding server_ready
turn_lem =
    let carries =
      rtu_request_adu-Carries zeros 17 pdu 10 (λ j. omega arith) (omega arith) pdu-HasBytes
        (omega arith) in
    let own : frame 0 ≡ 17 = carries.unit in
    server_on_process-Answered config zeros zeros delivered zeros one_piece 1000 idle 0 0 full frame
      pdu 10 (λ j. omega arith) (λ j. omega arith) server_ready.buffer full_read server_ready.starts
      (rw own carries) pdu_IsWhole (omega (arith, own)) (inl (sym own))

abbrev turn : Turn ℕ
turn = turn_lem.0

abbrev reply : Reply ℕ
reply = handle_request config.handlers zeros pdu 10 (offset zeros 1) 0

-- Each byte of the server's frame arrives in time; the request went out at once.
abbrev wire : Wire
wire = record {
  begin_time = record { tv_sec = 1; tv_nsec = 0 };
  end_time = record { tv_sec = 2; tv_nsec = 0 };
  writes = write_up_to 20 ∷ [];
  drained = pos 0;
  echo_clock = 1000;
  response_clock = 1000;
  line = record { incoming = turn_lem.2.frame; taken = 0; rounds = bytewise 256 };
}

client_ready : ClientReady wire zeros client pdu 10
unfolding write_all write_loop
client_ready = record {
  connected = refl;
  single = omega arith;
  byte = omega arith;
  quiet = refl;
  array = λ j. omega arith;
  request = pdu-HasBytes;
  sends = refl;
}

wire-Brings :
    Brings wire.line (response_deadline_us client bus 1000) turn_lem.2.frame (reply.len + 3)
unfolding response_deadline_us
wire-Brings =
    let fits = (handle_request-Fits config.handlers zeros pdu 10 (offset zeros 1) 0).at_most in
    record {
      bytes = λ j lt. let e : 0 + j ≡ j = omega arith in ap turn_lem.2.frame e;
      prompt = bytewise-IsPrompt _ _ 256 (omega arith) (omega (arith, fits));
    }

rtu_write_multiple_registers-RtuWriteDone_example :
    RtuWriteDone
      (rtu_write_multiple_registers wire zeros zeros zeros zeros bus
        (some client)
        1
        2
        (some values))
      turn.state
      (λ addr qty sent s. (pos 0, sent 0))
      1
      2
      values
      0
rtu_write_multiple_registers-RtuWriteDone_example =
    rtu_write_multiple_registers-RtuWriteDone config zeros zeros delivered zeros one_piece 1000 idle
      0 wire zeros zeros zeros zeros values client bus 1 2 (λ addr qty sent s. (pos 0, sent 0)) turn
      turn_lem.2.frame (reply.len + 3) refl (omega arith)
      record { some_item = omega arith; at_most = omega arith; no_overflow = omega arith } two_words
      client_ready server_ready turn_lem.1 turn_lem.2.sent wire-Brings

-- ===== src/Tcp/Tests/Written.antt =====
-- A write of two registers over TCP to an application that adds up what it is given.
use modbus_protocol.Prelude.{
  ℕ, ℤ, pos, ◌+◌, ◌<◌, IsU16, true, refl, ap, arith, some, none, [], ◌∷◌, Buf, of_list, offset,
}
use modbus_protocol.Pdu.Wire.{
  get_u16, put_u16, range_overflows, put_registers, take_registers, build_write_echo,
}
use modbus_protocol.Pdu.Build.{build_read, build_write_registers}
use modbus_protocol.Pdu.Check.{is_read, is_write}
use modbus_protocol.Pdu.Serve.{Handlers, Reply, handle_request, handle_write_multiple}
use modbus_protocol.Pdu.Dispatch.{InRange}
use modbus_protocol.Pdu.Dispatch.Bounds.{handle_request-Fits}
use modbus_protocol.Tcp.Stream.{recv_loop}
use modbus_protocol.Tcp.Server.{response_adu}
use modbus_protocol.Tcp.Server.Turns.{Replies, response_adu-Replies}
use modbus_protocol.Tcp.Client.{request_adu, ClientCtx, effective_response_timeout_ms, next_tid}
use modbus_protocol.Tcp.Client.Api.{write_multiple_registers}
use modbus_protocol.Tcp.Reads.Arrived.{Brings}
use modbus_protocol.Tcp.Writes.{WriteDone, write_multiple_registers-WriteDone}
use modbus_protocol.Tcp.Tests.{zeros, in_pieces, sent_whole, tcp_device, at_once}

abbrev add_up : ℕ → ℕ → Buf → ℕ → ℤ × ℕ
add_up addr qty values s = (pos 0, s + values 0 + values 1)

abbrev adder : Handlers ℕ
adder = record {
  read_registers = none;
  write_registers = some add_up;
  read_bits = none;
  write_bits = none;
}

abbrev written : Buf
written = of_list (500 ∷ 7 ∷ [])

abbrev adder_request : Buf
adder_request = request_adu zeros 7 1 (build_write_registers zeros 107 2 written).bytes 10

abbrev adder_reply : Reply ℕ
adder_reply = handle_request adder zeros (offset adder_request 7) 10 zeros 0

abbrev adder_frame : Buf
adder_frame = response_adu tcp_device zeros zeros sent_whole adder_request adder_reply

abbrev writer : ClientCtx
writer = record {
  initialized = true;
  sock = some (in_pieces adder_frame);
  tid = 6;
  unit_id = 1;
  response_timeout_ms = 0;
}

two_registers : InRange 123 107 2
two_registers = record { some_item = omega arith; at_most = omega arith; no_overflow = omega arith }

adder_request-Replies : Replies adder_request adder_frame adder_reply
adder_request-Replies =
    response_adu-Replies tcp_device zeros zeros sent_whole adder_request adder_reply
      (handle_request-Fits adder zeros (offset adder_request 7) 10 zeros 0).at_most

adder_frame_brought : Brings (in_pieces adder_frame) zeros adder_frame adder_reply.len
unfolding recv_loop handle_request is_read request_adu put_u16 build_read build_write_registers
    handle_write_multiple put_registers take_registers get_u16 range_overflows build_write_echo
    is_write
adder_frame_brought = record {
  header = refl;
  body = refl;
  bytes = λ j lt. ap adder_frame (omega arith);
}

written_small : (k : ℕ) → k < 2 → IsU16 (written k)
written_small k lt = ground arith

write_multiple_registers-WriteDone_example :
    WriteDone
      (write_multiple_registers sent_whole zeros zeros zeros at_once
        (some writer)
        107
        2
        (some written))
      adder_reply
      add_up
      107
      2
      written
      0
unfolding next_tid effective_response_timeout_ms
write_multiple_registers-WriteDone_example =
    write_multiple_registers-WriteDone adder zeros zeros sent_whole zeros zeros zeros 5000 5001 []
      writer 107 2 written 0 add_up adder_frame (in_pieces adder_frame) refl (omega arith)
      two_registers written_small (omega arith) refl refl refl (omega arith) adder_request-Replies
      adder_frame_brought

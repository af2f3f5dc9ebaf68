-- ===== src/Tcp/Tests.antt =====
-- Runs of the TCP server and client on a small application, and their theorems at concrete streams.
pub mod Written
pub mod Threads
pub mod Connected
use modbus_protocol.Prelude.{
  ℕ, ℤ, pos, negsuc, ◌+◌, ◌≤◌, ◌≡◌, ◌≢◌, refl, arith, Option, some, none, true, [], ◌∷◌, Buf,
  of_list, offset, inl, ap,
}
use modbus_protocol.Tcp.Stream.{chunk, interrupted, Socket, recv_loop, recv_exact}
use modbus_protocol.Tcp.Stream.Exact.{RecvEnds, recv_exact-RecvEnds}
use modbus_protocol.Tcp.Server.{TcpConfig, response_adu, tcp_server_on_process}
use modbus_protocol.Tcp.Server.Turns.{
  Handles, Replies, response_adu-Replies, tcp_server_on_process-Handles,
}
use modbus_protocol.Pdu.Serve.{
  Handlers, Reply, handle_request, handle_read_registers, registers_response,
}
use modbus_protocol.Tcp.Client.{
  request_adu, ClientCtx, readable, Clock, effective_response_timeout_ms, next_tid, Transaction,
  exchange, await_tid, recv_response, recv_ready, recv_body, wait_readable, conclude, transact,
}
use modbus_protocol.Pdu.Build.{build_read}
use modbus_protocol.Pdu.Wire.{get_u16, put_u16, range_overflows}
use modbus_protocol.Pdu.Check.{check_response, check_body, is_read, read_byte_count}
use modbus_protocol.Tcp.Frames.{tcp_build_request_basis, tcp_parse_request}
use modbus_protocol.Tcp.Frames.Parse.{Wraps, tcp_parse_request-tcp_build_request_basis}
use modbus_protocol.Pdu.Dispatch.{InRange}
use modbus_protocol.Pdu.Dispatch.Bounds.{handle_request-Fits}
use modbus_protocol.Tcp.Client.Api.{client_read_registers}
use modbus_protocol.Tcp.Reads.{ReadDone, client_read_registers-ReadDone}
use modbus_protocol.Tcp.Reads.Arrived.{Brings}
use modbus_protocol.Tcp.Client.Contract.{Transacts, transact-Transacts}
use modbus_protocol.Tcp.Client.Ids.{tid_after, tid_after-distinct}

abbrev pub zeros : Buf
zeros j = 0

-- Transaction 7 to unit 1: registers 107 to 108; and the reply of a device whose register `a`
-- holds `a`.
abbrev request_stream : Buf
request_stream = of_list (0 ∷ 7 ∷ 0 ∷ 0 ∷ 0 ∷ 6 ∷ 1 ∷ 3 ∷ 0 ∷ 107 ∷ 0 ∷ 2 ∷ [])

abbrev pub reply_stream : Buf
reply_stream = of_list (0 ∷ 7 ∷ 0 ∷ 0 ∷ 0 ∷ 7 ∷ 1 ∷ 3 ∷ 4 ∷ 0 ∷ 107 ∷ 0 ∷ 108 ∷ [])

-- The frame arrives in three pieces.
abbrev pub in_pieces : Buf → Socket
in_pieces stream = record {
  incoming = stream;
  taken = 0;
  events = chunk 4 ∷ interrupted ∷ chunk 300 ∷ chunk 300 ∷ [];
}

abbrev pub tcp_device : TcpConfig ℕ
tcp_device = record {
  unit_id = 1;
  handlers = record {
    read_registers = some λ fc addr qty out s. (pos 0, (λ k. addr + k), s + 1);
    write_registers = none;
    read_bits = none;
    write_bits = none;
  };
}

abbrev pub sent_whole : Buf → ℕ → ℤ
sent_whole frame len = pos 0

-- The reply is there a millisecond after the request.
abbrev pub at_once : Clock
at_once = record { sent_ms = 5000; rounds = (5001, readable) ∷ [] }

abbrev connected : ClientCtx
connected = record {
  initialized = true;
  sock = some (in_pieces reply_stream);
  tid = 6;
  unit_id = 1;
  response_timeout_ms = 0;
}

abbrev read_two : Buf
read_two = of_list (3 ∷ 0 ∷ 107 ∷ 0 ∷ 2 ∷ [])

tcp_server_on_process-Handles_example :
    Handles tcp_device zeros zeros sent_whole zeros
      (in_pieces request_stream)
      0
      (tcp_server_on_process tcp_device zeros zeros sent_whole zeros (in_pieces request_stream) 0)
tcp_server_on_process-Handles_example =
    tcp_server_on_process-Handles tcp_device zeros zeros sent_whole zeros (in_pieces request_stream)
      0

transact-Transacts_example :
    Transacts at_once zeros connected read_two 5
      (transact sent_whole zeros at_once connected read_two 5 zeros)
transact-Transacts_example = transact-Transacts sent_whole zeros at_once connected read_two 5 zeros

tcp_parse_request-tcp_build_request_basis_example :
    (frame : Buf) × (tcp_build_request_basis (some 6) 1 (pos 3) (pos 107) 2 (some zeros) 260
      ≡ record { rc = pos 0; tid = some (next_tid 6); req = some frame })
    × Wraps frame (next_tid 6) 1 (build_read zeros 3 107 2).bytes 5
    × (tcp_parse_request
          (some frame)
          12
          record { function_code = some 0; address = some 0; quantity = some 0 }
        ≡ (pos 0, record { function_code = some 3; address = some 107; quantity = some 2 }))
tcp_parse_request-tcp_build_request_basis_example =
    tcp_parse_request-tcp_build_request_basis 6 1 3 107 2 zeros zeros 260 0 0 0 (omega arith)
      (omega arith) (omega arith) (omega arith) (omega arith)

-- The client accepts the reply, which arrives in three pieces.
abbrev result_of : Option Transaction → ℤ
result_of none = negsuc 99
result_of (some t) = t.rc

transact_run : result_of (transact sent_whole zeros at_once connected read_two 5 zeros) ≡ pos 0
unfolding transact exchange await_tid recv_response recv_ready wait_readable recv_loop recv_body
    get_u16 next_tid effective_response_timeout_ms conclude check_response check_body is_read
    read_byte_count
transact_run = refl

-- The device's reply to the client's read, as the server frames it.
abbrev read_addresses : ℕ → ℕ → ℕ → Buf → ℕ → ℤ × Buf × ℕ
read_addresses fc addr qty out n = (pos 0, (λ k. addr + k), n + 1)

abbrev device : Handlers ℕ
device = record {
  read_registers = some read_addresses;
  write_registers = none;
  read_bits = none;
  write_bits = none;
}

abbrev client_request : Buf
client_request = request_adu zeros 7 1 (build_read zeros 3 107 2).bytes 5

abbrev device_reply : Reply ℕ
device_reply = handle_request device zeros (offset client_request 7) 5 zeros 0

abbrev device_frame : Buf
device_frame = response_adu tcp_device zeros zeros sent_whole client_request device_reply

abbrev client : ClientCtx
client = record {
  initialized = true;
  sock = some (in_pieces device_frame);
  tid = 6;
  unit_id = 1;
  response_timeout_ms = 0;
}

two_in_range : InRange 125 107 2
two_in_range = record { some_item = omega arith; at_most = omega arith; no_overflow = omega arith }

client_request-Replies : Replies client_request device_frame device_reply
client_request-Replies =
    response_adu-Replies tcp_device zeros zeros sent_whole client_request device_reply
      (handle_request-Fits device zeros (offset client_request 7) 5 zeros 0).at_most

frame_brought : Brings (in_pieces device_frame) zeros device_frame device_reply.len
unfolding recv_loop handle_request is_read request_adu put_u16 build_read handle_read_registers
    get_u16 range_overflows registers_response
frame_brought = record { header = refl; body = refl; bytes = λ j lt. ap device_frame (omega arith) }

client_read_registers-ReadDone_example :
    ReadDone
      (client_read_registers sent_whole zeros zeros zeros at_once
        (some client)
        3
        107
        2
        (some zeros))
      2
      (λ k. 107 + k)
unfolding next_tid effective_response_timeout_ms
client_read_registers-ReadDone_example =
    client_read_registers-ReadDone device zeros zeros sent_whole zeros zeros zeros zeros 5000 5001
      [] client 3 107 2 0 1 read_addresses (λ k. 107 + k) device_frame (in_pieces device_frame) refl
      (inl refl) (omega arith) two_in_range refl (λ k lt. omega arith) (omega arith) refl refl refl
      (omega arith) client_request-Replies frame_brought

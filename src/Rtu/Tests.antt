-- ===== src/Rtu/Tests.antt =====
-- Runs of the RTU framing and its server on a small application, and their theorems at concrete frames.
pub mod Exchanged
pub mod Shared
pub mod Served
pub mod Written
use modbus_protocol.Prelude.{
  ℕ, ℤ, pos, negsuc, ◌+◌, ◌-◌, ◌*◌, ◌≤◌, ◌<◌, ◌≡◌, ◌↔◌, refl, inl, inr, arith, some, none, List, [],
  ◌∷◌, Buf, store, of_list, offset, Agree, All, copy, zero, suc, IsByte, HasBytes, if◌then◌else◌,
}
use modbus_protocol.Pdu.Check.{is_write}
use modbus_protocol.Pdu.Serve.{handle_request, registers_response}
use modbus_protocol.Pdu.Build.{build_read, build_write_registers}
use modbus_protocol.Rtu.Crc.{crc_bit, crc_bits, crc_byte, crc_loop, crc16, append_crc, validate_crc}
use modbus_protocol.Rtu.Crc.Detection.{validate_crc_detects, AreBytes}
use modbus_protocol.Rtu.Crc.Residue.{validate_crc-residue}
use modbus_protocol.Rtu.Crc.Append.{append_crc-validate_crc}
use modbus_protocol.Rtu.Request.{
  build_request_basis, build_fc16_request, build_read_registers_response, parse_request, Outputs,
}
use modbus_protocol.Rtu.Request.Frames.{Carries, Sends}
use modbus_protocol.Rtu.Request.Carries.{
  build_request_basis_carries, build_fc16_request_carries, build_read_registers_response_carries,
  parse_request-build_request_basis, parse_request-build_fc16_request,
}
use modbus_protocol.Rtu.Timing.{SerialConfig, even, t35_us, character_bits, t35_us-IsLeast}
use modbus_protocol.Rtu.Server.{
  Config, Rx, ReadResult, bytes_read, read_available_bytes, expire, Turn, silent, answer,
  server_on_process, extract_request_frame, settle, drop_rx_bytes,
}
use modbus_protocol.Rtu.Server.Contract.{Extracts, extract_request_frame-Extracts}
use modbus_protocol.Rtu.Server.Process.{server_on_process-IsBounded}
use modbus_protocol.Rtu.Server.Answers.{Answered, answer_ignored, answer_broadcast}
use modbus_protocol.Rtu.Server.Receives.{
  IsWhole, server_on_process_broadcast, fixed, StartsWith, server_on_process-Answered,
}

abbrev pub zeros : Buf
zeros j = 0

-- The request of the Modbus specification's example: unit 17 (0x11), registers 107 to 109.
abbrev pub request : Buf
request = of_list (0x11 ∷ 3 ∷ 0 ∷ 0x6b ∷ 0 ∷ 3 ∷ 0x76 ∷ 0x87 ∷ [])

request_valid : validate_crc (some request) 8 ≡ pos 0
unfolding validate_crc crc16 crc_loop crc_byte crc_bits crc_bit
request_valid = refl

pub of_list-HasBytes : (xs : List ℕ) → All IsByte xs → HasBytes (of_list xs)
of_list-HasBytes [] all j = omega arith
of_list-HasBytes (x ∷ xs) (here, there) zero = here
of_list-HasBytes (x ∷ xs) (here, there) (suc j) = of_list-HasBytes xs there j

request-HasBytes : HasBytes request
request-HasBytes = of_list-HasBytes (0x11 ∷ 3 ∷ 0 ∷ 0x6b ∷ 0 ∷ 3 ∷ 0x76 ∷ 0x87 ∷ []) (
  omega arith,
  (
    omega arith,
    (omega arith, (omega arith, (omega arith, (omega arith, (omega arith, (omega arith, tt)))))),
  ),
)

request-AreBytes : AreBytes (6 + 2) 0 request
request-AreBytes j lo hi = request-HasBytes j

-- One bit of the quantity is flipped on the line.
abbrev damaged : Buf
damaged = store request 5 2

validate_crc_detects_example : validate_crc (some damaged) (6 + 2) ≡ negsuc 0
validate_crc_detects_example =
    validate_crc_detects request damaged 6 5 request-AreBytes
      (λ j lo hi. let b = request-HasBytes j in ground arith) (omega arith)
      (λ j lt ne. ground arith) (omega arith) request_valid

validate_crc-residue_example :
    validate_crc (some request) (6 + 2) ≡ pos 0 ↔ crc16 (some request) (6 + 2) ≡ 0
validate_crc-residue_example = validate_crc-residue request 6 request-AreBytes

build_request_basis_carries_example :
    Sends
      (build_request_basis 17 (pos 3) (pos 107) 3 (some zeros) 256)
      17
      (build_read zeros 3 107 3).bytes
      5
build_request_basis_carries_example =
    build_request_basis_carries 17 3 107 3 zeros zeros 256 (λ j. omega arith) (omega arith)
      (omega arith) (omega arith) (omega arith)

abbrev outputs : ℕ → ℕ → ℕ → Outputs
outputs fc addr qty = record { function_code = some fc; address = some addr; quantity = some qty }

parse_request-build_request_basis_example :
    (frame : Buf) × (build_request_basis 17 (pos 3) (pos 107) 3 (some zeros) 256
      ≡ (pos 8, some frame))
    × (parse_request (some frame) 8 (outputs 0 0 0) ≡ (pos 0, outputs 3 107 3))
parse_request-build_request_basis_example =
    parse_request-build_request_basis 17 3 107 3 zeros 256 0 0 0 (λ j. omega arith) (omega arith)
      (omega arith) (omega arith) (omega arith) (omega arith)

-- The default serial format, 9600 baud and 8E1.
abbrev pub serial : SerialConfig
serial = record { baud_rate = 9600; data_bits = 8; stop_bits = 1; parity = even }

t35_us-IsLeast_example :
    (character_bits serial * 3500000 ≤ t35_us (some serial) * 9600)
    × (t35_us (some serial) * 9600 < character_bits serial * 3500000 + 9600)
t35_us-IsLeast_example =
    t35_us-IsLeast serial (omega arith) (omega arith) (omega arith) (omega arith)

-- A server with unit id 17 whose register `a` holds `a`, and which remembers what was written.
abbrev pub config : Config ℕ
config = record {
  unit_id = 17;
  recv_timeout_ms = 1000;
  handlers = record {
    read_registers = some λ fc addr qty out s. (pos 0, (λ k. addr + k), s);
    write_registers = some λ addr qty values s. (pos 0, values 0);
    read_bits = none;
    write_bits = none;
  };
}

abbrev pub delivered : Buf → ℕ → ℤ
delivered frame len = pos 0

abbrev pub idle : Rx
idle = record { rx_buffer = zeros; rx_len = 0; last_rx_us = 0 }

-- Noise of one byte, and then the request.
abbrev noisy : Rx
noisy = record {
  rx_buffer = of_list (0xff ∷ 0x11 ∷ 3 ∷ 0 ∷ 0x6b ∷ 0 ∷ 3 ∷ 0x76 ∷ 0x87 ∷ []);
  rx_len = 9;
  last_rx_us = 50;
}

-- The request arrives in two pieces.
abbrev pub two_pieces : List ReadResult
two_pieces = bytes_read 3 request ∷ bytes_read 5 (offset request 3) ∷ []

abbrev pub assembled : Rx
assembled = record {
  rx_buffer = copy (copy zeros 0 request 3) 3 (offset request 3) 5;
  rx_len = 8;
  last_rx_us = 1000;
}

abbrev request_pdu : Buf
request_pdu = offset request 1

extract_request_frame-Extracts_example : Extracts 256 noisy (extract_request_frame noisy zeros 256)
extract_request_frame-Extracts_example = extract_request_frame-Extracts noisy zeros 256

-- A broadcast of FC06 that writes 5 to register 1, in one piece.
abbrev broadcast : Buf
broadcast = of_list (0 ∷ 6 ∷ 0 ∷ 1 ∷ 0 ∷ 5 ∷ 25 ∷ 216 ∷ [])

abbrev broadcast_piece : List ReadResult
broadcast_piece = bytes_read 8 broadcast ∷ []

abbrev broadcast_full : Rx
broadcast_full = record { rx_buffer = copy zeros 0 broadcast 8; rx_len = 8; last_rx_us = 1000 }

broadcast_read :
    read_available_bytes broadcast_piece (expire config idle 1000) 1000 ≡ (pos 0, broadcast_full)
unfolding read_available_bytes expire
broadcast_read = refl

broadcast_valid : validate_crc (some broadcast) 8 ≡ pos 0
unfolding validate_crc crc16 crc_loop crc_byte crc_bits crc_bit
broadcast_valid = refl

server_on_process_broadcast_example :
    (turn : Turn ℕ) × (server_on_process config zeros zeros delivered zeros broadcast_piece 1000
        idle 0
      ≡ some turn)
    × (turn.rc ≡ pos 0)
    × (turn.sent ≡ none)
    × (turn.ctx ≡ settle (drop_rx_bytes broadcast_full (5 + 3)))
    × (turn.state ≡ (
        if is_write 6
        then (handle_request config.handlers zeros (offset broadcast 1) 5 (offset zeros 1) 0).state
        else 0))
server_on_process_broadcast_example =
    server_on_process_broadcast config zeros zeros delivered zeros broadcast_piece 1000 idle 0 0
      broadcast_full broadcast (offset broadcast 1) 5 broadcast_read
      record { received = omega arith; bytes = λ j lt. ground arith }
      record { unit = refl; pdu_bytes = λ j lt. refl; valid = broadcast_valid }
      (fixed (omega arith) (omega arith) refl) refl

pub assembled-HasBytes : HasBytes assembled.rx_buffer
assembled-HasBytes j =
    let a = request-HasBytes (j - 0) in let b = request-HasBytes (3 + (j - 3)) in ground arith

pub assembled_read :
    read_available_bytes two_pieces (expire config idle 1000) 1000 ≡ (pos 0, assembled)
unfolding read_available_bytes expire
assembled_read = refl

request_starts : StartsWith assembled request (5 + 3)
request_starts = record { received = omega arith; bytes = λ j lt. ground arith }

request-Carries : Carries request 17 request_pdu 5
request-Carries = record { unit = refl; pdu_bytes = λ j lt. refl; valid = request_valid }

request_IsWhole : IsWhole request_pdu 5
request_IsWhole = fixed (omega arith) (omega arith) refl

server_on_process-Answered_example :
    (turn : Turn ℕ) × (server_on_process config zeros zeros delivered zeros two_pieces 1000 idle 0
      ≡ some turn)
    × Answered config zeros zeros delivered turn
        (settle (drop_rx_bytes assembled (5 + 3)))
        17
        (handle_request config.handlers zeros request_pdu 5 (offset zeros 1) 0)
server_on_process-Answered_example =
    server_on_process-Answered config zeros zeros delivered zeros two_pieces 1000 idle 0 0 assembled
      request request_pdu 5 (λ j. omega arith) (λ j. omega arith) assembled-HasBytes assembled_read
      request_starts request-Carries request_IsWhole (omega arith) (inl refl)

-- ===== src/Rtu/Response.antt =====
-- The receipt of a response by the RTU client: recv_response of src/modbus_rtu_client.c.
use modbus_protocol.Prelude.{
  ℕ, ℤ, pos, negsuc, ◌+◌, ◌-◌, not, some, failed, u8, bit_or, Buf, leb, ltb, ◌==◌, if◌then◌else◌,
}
use modbus_protocol.Pdu.Codes.{exception_flag, func_read_input_registers}
use modbus_protocol.Rtu.Crc.{validate_crc}
use modbus_protocol.Rtu.Request.{max_adu_length}
use modbus_protocol.Rtu.Line.{Line, LineRead, read_exact_timeout}

abbrev pub exception_len : ℕ
exception_len = 5

abbrev pub write_response_len : ℕ
write_response_len = 8

-- `RTU_IO_FRAME_ERROR`, `RTU_IO_CRC_ERROR` and `RTU_IO_UNIT_ID_ERROR`.
abbrev pub io_frame_error : ℤ
io_frame_error = negsuc 9

abbrev pub io_crc_error : ℤ
io_crc_error = negsuc 10

abbrev pub io_unit_id_error : ℤ
io_unit_id_error = negsuc 11

-- What `recv_response` leaves behind.
pub record RtuResponse : Type 0 where
  pub rc : ℤ
  pub buf : Buf
  pub total_len : ℕ
  pub line : Line

abbrev pub responded : ℤ → LineRead → ℕ → RtuResponse
responded rc r total_len = record { rc = rc; buf = r.buf; total_len = total_len; line = r.line }

-- From the read of the remaining bytes on.
unfoldable pub recv_rest : ℕ → ℕ → LineRead → ℕ → ℕ → RtuResponse
recv_rest deadline_us unit_id r total_len frame_len =
    let body = read_exact_timeout deadline_us r.line r.buf total_len (frame_len - total_len) in
    if failed body.rc
    then responded body.rc body total_len
    else if failed (validate_crc (some body.buf) frame_len)
    then responded io_crc_error body frame_len
    else if not (body.buf 0 == unit_id)
    then responded io_unit_id_error body frame_len
    else responded (pos 0) body frame_len

-- The response to a read states its number of bytes.
unfoldable pub recv_counted : ℕ → ℕ → LineRead → RtuResponse
recv_counted deadline_us unit_id head =
    let count = read_exact_timeout deadline_us head.line head.buf 2 1 in
    let frame_len = 3 + count.buf 2 + 2 in
    if failed count.rc
    then responded count.rc count 2
    else if ltb max_adu_length frame_len
    then responded io_frame_error count 3
    else recv_rest deadline_us unit_id count 3 frame_len

unfoldable pub rtu_recv_response : ℕ → Line → ℕ → ℕ → Buf → RtuResponse
rtu_recv_response deadline_us line unit_id expected_fc buf =
    let head = read_exact_timeout deadline_us line buf 0 2 in
    let resp_fc = head.buf 1 in
    if failed head.rc
    then responded head.rc head 0
    else if resp_fc == u8 (bit_or expected_fc exception_flag)
    then recv_rest deadline_us unit_id head 2 exception_len
    else if not (resp_fc == expected_fc)
    then responded io_frame_error head 2
    else if leb expected_fc func_read_input_registers
    then recv_counted deadline_us unit_id head
    else recv_rest deadline_us unit_id head 2 write_response_len

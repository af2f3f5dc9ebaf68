-- ===== src/Rtu/Request.antt =====
-- Frames of src/modbus_rtu.c: requests and register responses with the unit id before the PDU
-- and the CRC behind it. A pointer that may be null is an option.
pub mod Frames
pub mod Carries
use modbus_protocol.Prelude.{
  ℕ, ℤ, pos, negsuc, ◌+◌, ◌-◌, ◌*◌, Bool, true, false, ◌||◌, Option, none, some, u8, unsigned,
  failed, Buf, store, ltb, ◌==◌, if◌then◌else◌,
}
use modbus_protocol.Pdu.Codes.{
  func_write_single_register, func_write_multiple_registers, max_read_registers,
  max_write_registers,
}
use modbus_protocol.Pdu.Wire.{get_u16, put_u16, put_registers}
use modbus_protocol.Rtu.Crc.{append_crc, validate_crc}

abbrev pub min_req_length : ℕ
min_req_length = 8

abbrev pub max_adu_length : ℕ
max_adu_length = 256

-- `n < 0 || n > most`
abbrev pub outside : ℕ → ℤ → Bool
outside most (pos n) = ltb most n
outside most (negsuc _) = true

-- What the builders return after `mb_rtu_append_crc`.
abbrev pub finish : ℕ → ℤ × Option Buf → ℤ × Option Buf
finish total_len (rc, req) = if failed rc then (negsuc 0, req) else (pos total_len, req)

-- Unit id, function code, address and a word: the first six bytes of every request.
unfoldable pub put_head : Buf → ℕ → ℕ → ℕ → ℕ → Buf
put_head req unit_id function addr nb =
    put_u16 (put_u16 (store (store req 0 unit_id) 1 (u8 function)) 2 addr) 4 nb

unfoldable pub build_request_basis : ℕ → ℤ → ℤ → ℕ → Option Buf → ℕ → ℤ × Option Buf
build_request_basis unit_id function addr nb none req_cap = (negsuc 0, none)
build_request_basis unit_id function addr nb (some req) req_cap =
    if ltb req_cap min_req_length
    then (negsuc 0, some req)
    else if outside 255 function || outside 65535 addr
    then (negsuc 0, some req)
    else finish min_req_length
        (append_crc (some (put_head req unit_id (unsigned function) (unsigned addr) nb)) 6 req_cap)

unfoldable pub build_fc06_request : ℕ → ℕ → ℕ → Option Buf → ℕ → ℤ × Option Buf
build_fc06_request unit_id addr value req req_cap =
    build_request_basis unit_id (pos func_write_single_register) (pos addr) value req req_cap

unfoldable pub build_fc16_request : ℕ → ℕ → ℕ → Option Buf → Option Buf → ℕ → ℤ × Option Buf
build_fc16_request unit_id addr num_registers values none req_cap = (negsuc 0, none)
build_fc16_request unit_id addr num_registers none (some req) req_cap = (negsuc 0, some req)
build_fc16_request unit_id addr num_registers (some values) (some req) req_cap =
    if num_registers == 0 || ltb max_write_registers num_registers
    then (negsuc 0, some req)
    else let byte_count = u8 (num_registers * 2) in
      let total_len = 9 + byte_count in
      if ltb req_cap total_len || ltb max_adu_length total_len
      then (negsuc 0, some req)
      else let head = put_head req unit_id func_write_multiple_registers addr num_registers in
        let full = put_registers num_registers 0 values (store head 6 byte_count) 7 in
        finish total_len (append_crc (some full) (total_len - 2) req_cap)

-- The three output pointers of the parser, each with what it points at.
pub record Outputs : Type 0 where
  pub function_code : Option ℕ
  pub address : Option ℕ
  pub quantity : Option ℕ

abbrev pub is_null : Option ℕ → Bool
is_null none = true
is_null (some _) = false

unfoldable pub parse_request : Option Buf → ℕ → Outputs → ℤ × Outputs
parse_request none length out = (negsuc 0, out)
parse_request (some request) length out =
    if is_null out.function_code
      || is_null out.address
      || is_null out.quantity
      || ltb length min_req_length
    then (negsuc 0, out)
    else if failed (validate_crc (some request) length)
    then (negsuc 0, out)
    else (
      pos 0,
      record {
        function_code = some (request 1);
        address = some (get_u16 request 2);
        quantity = some (if request 1 == func_write_single_register then 1 else get_u16 request 4);
      },
    )

unfoldable pub build_read_registers_response :
    ℕ → ℕ → Option Buf → ℕ → Option Buf → ℕ → ℤ × Option Buf
build_read_registers_response function_code unit_id values quantity none response_cap =
    (negsuc 0, none)
build_read_registers_response function_code unit_id none quantity (some response) response_cap =
    (negsuc 0, some response)
build_read_registers_response function_code unit_id (some values) quantity (some response)
      response_cap =
    if ltb max_read_registers quantity
    then (negsuc 0, some response)
    else let total_len = 5 + quantity * 2 in
      if ltb response_cap total_len || ltb max_adu_length total_len
      then (negsuc 0, some response)
      else let head =
          store (store (store response 0 unit_id) 1 function_code) 2 (u8 (quantity * 2)) in
        finish total_len
          (append_crc (some (put_registers quantity 0 values head 3)) (total_len - 2) response_cap)

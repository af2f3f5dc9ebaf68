-- ===== src/Pdu/Check.antt =====
-- What a client does with a response PDU: `mb_pdu_check_response`, `mb_pdu_get_*`.
use modbus_protocol.Prelude.{
  ℕ, ℤ, pos, ◌+◌, ◌*◌, Bool, not, ◌&&◌, ◌||◌, bit_or, u8, Buf, leb, ltb, ◌==◌, if◌then◌else◌,
}
use modbus_protocol.Pdu.Codes.{
  func_read_coils, func_read_discrete_inputs, func_read_holding_registers,
  func_read_input_registers, func_write_single_coil, func_write_single_register,
  func_write_multiple_coils, func_write_multiple_registers, exception_flag, err_frame,
}
use modbus_protocol.Pdu.Wire.{get_u16, bit_byte_count, take_registers, unpack_bits}

-- The case labels of the `switch` statements.
unfoldable pub is_read : ℕ → Bool
is_read fc =
    fc == func_read_coils
    || fc == func_read_discrete_inputs
    || fc == func_read_holding_registers
    || fc == func_read_input_registers

unfoldable pub is_write : ℕ → Bool
is_write function_code =
    function_code == func_write_single_coil
    || function_code == func_write_single_register
    || function_code == func_write_multiple_coils
    || function_code == func_write_multiple_registers

-- `memcmp(a + i, b + i, 4) == 0`
unfoldable pub same_four : Buf → Buf → ℕ → Bool
same_four a b i =
    a i == b i && a (i + 1) == b (i + 1) && a (i + 2) == b (i + 2) && a (i + 3) == b (i + 3)

unfoldable pub read_byte_count : ℕ → ℕ → ℕ
read_byte_count fc qty = if leb fc func_read_discrete_inputs then bit_byte_count qty else qty * 2

-- The `switch` on the function code of a response that is no exception.
unfoldable pub check_body : Buf → Buf → ℕ → ℤ
check_body req resp resp_len =
    let fc = req 0 in
    let byte_count = read_byte_count fc (get_u16 req 3) in
    if is_read fc
    then if not (resp_len == 2 + byte_count) || not (resp 1 == u8 byte_count)
      then err_frame
      else pos 0
    else if is_write fc
    then if not (resp_len == 5) || not (same_four resp req 1) then err_frame else pos 0
    else err_frame

unfoldable pub check_response : Buf → Buf → ℕ → ℤ
check_response req resp resp_len =
    let fc = req 0 in
    if ltb resp_len 1
    then err_frame
    else if resp 0 == u8 (bit_or fc exception_flag)
    then if not (resp_len == 2) || resp 1 == 0 then err_frame else pos (resp 1)
    else if not (resp 0 == fc)
    then err_frame
    else check_body req resp resp_len

unfoldable pub get_registers : Buf → ℕ → Buf → Buf
get_registers resp qty out = take_registers qty 0 resp 2 out

unfoldable pub get_bits : Buf → ℕ → Buf → Buf
get_bits resp qty out = unpack_bits resp 2 qty out

-- ===== src/Pdu/Build.antt =====
-- Requests, as a client writes them: `mb_pdu_build_*` of src/modbus_pdu.c.
pub mod Layout
use modbus_protocol.Prelude.{ℕ, ◌+◌, ◌*◌, u8, Buf, store}
use modbus_protocol.Pdu.Codes.{func_write_multiple_registers, func_write_multiple_coils}
use modbus_protocol.Pdu.Wire.{Written, put_u16, put_registers, bit_byte_count, pack_bits}

unfoldable pub build_read : Buf → ℕ → ℕ → ℕ → Written
build_read pdu function_code addr qty = record {
  bytes = put_u16 (put_u16 (store pdu 0 function_code) 1 addr) 3 qty;
  len = 5;
}

unfoldable pub build_write_single : Buf → ℕ → ℕ → ℕ → Written
build_write_single pdu function_code addr value = build_read pdu function_code addr value

unfoldable pub build_write_registers : Buf → ℕ → ℕ → Buf → Written
build_write_registers pdu addr qty values =
    let head = (build_read pdu func_write_multiple_registers addr qty).bytes in
    record { bytes = put_registers qty 0 values (store head 5 (u8 (qty * 2))) 6; len = 6 + qty * 2 }

unfoldable pub build_write_coils : Buf → ℕ → ℕ → Buf → Written
build_write_coils pdu addr qty values =
    let byte_count = bit_byte_count qty in
    let head = (build_read pdu func_write_multiple_coils addr qty).bytes in
    record { bytes = pack_bits values qty (store head 5 (u8 byte_count)) 6; len = 6 + byte_count }

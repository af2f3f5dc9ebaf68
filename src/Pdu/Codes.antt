-- ===== src/Pdu/Codes.antt =====
-- Constants of include/modbus_defines.h and the offsets of src/modbus_pdu.c.
use modbus_protocol.Prelude.{ℕ, ℤ, negsuc}

abbrev pub func_read_coils : ℕ
func_read_coils = 0x01

abbrev pub func_read_discrete_inputs : ℕ
func_read_discrete_inputs = 0x02

abbrev pub func_read_holding_registers : ℕ
func_read_holding_registers = 0x03

abbrev pub func_read_input_registers : ℕ
func_read_input_registers = 0x04

abbrev pub func_write_single_coil : ℕ
func_write_single_coil = 0x05

abbrev pub func_write_single_register : ℕ
func_write_single_register = 0x06

abbrev pub func_write_multiple_coils : ℕ
func_write_multiple_coils = 0x0f

abbrev pub func_write_multiple_registers : ℕ
func_write_multiple_registers = 0x10

abbrev pub max_pdu_length : ℕ
max_pdu_length = 253

abbrev pub max_read_registers : ℕ
max_read_registers = 125

abbrev pub max_write_registers : ℕ
max_write_registers = 123

abbrev pub max_read_bits : ℕ
max_read_bits = 2000

abbrev pub max_write_bits : ℕ
max_write_bits = 1968

abbrev pub coil_on : ℕ
coil_on = 0xff00

abbrev pub coil_off : ℕ
coil_off = 0x0000

abbrev pub exception_flag : ℕ
exception_flag = 0x80

abbrev pub ex_illegal_function : ℕ
ex_illegal_function = 0x01

abbrev pub ex_illegal_data_address : ℕ
ex_illegal_data_address = 0x02

abbrev pub ex_illegal_data_value : ℕ
ex_illegal_data_value = 0x03

abbrev pub ex_server_device_failure : ℕ
ex_server_device_failure = 0x04

-- `MB_PDU_ERR_FRAME`, which is -1.
abbrev pub err_frame : ℤ
err_frame = negsuc 0

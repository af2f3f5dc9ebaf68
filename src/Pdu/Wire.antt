-- ===== src/Pdu/Wire.antt =====
-- Byte-level helpers of src/modbus_pdu.c: 16-bit words, packed bits, exceptions, echoes.
pub mod Words
pub mod Packing
use modbus_protocol.Prelude.{
  ℕ, ℤ, pos, negsuc, zero, suc, ◌+◌, ◌*◌, ◌/◌, ◌%◌, Bool, ◌||◌, bit_or, u8, u16, u32, ◌<<<◌, ◌>>>◌,
  low_bits, Buf, store, fill, copy, ltb, ◌==◌, if◌then◌else◌,
}
use modbus_protocol.Pdu.Codes.{exception_flag, ex_server_device_failure}

-- The bytes that a function wrote through its output pointer, and the length that it returned.
pub record Written : Type 0 where
  pub bytes : Buf
  pub len : ℕ

unfoldable pub get_u16 : Buf → ℕ → ℕ
get_u16 p i = u16 (bit_or (p i <<< 8) (p (i + 1)))

unfoldable pub put_u16 : Buf → ℕ → ℕ → Buf
put_u16 p i v = store (store p i (u8 (v >>> 8))) (i + 1) (u8 (low_bits v 8))

-- The copying loops `for (i = 0; i < qty; i++)`, with `left` rounds to go at index `i`: of
-- registers into the bytes from `at` on, and back.
unfoldable pub put_registers : ℕ → ℕ → Buf → Buf → ℕ → Buf
put_registers zero i values p at = p
put_registers (suc left) i values p at =
    put_registers left (i + 1) values (put_u16 p (at + i * 2) (values i)) at

unfoldable pub take_registers : ℕ → ℕ → Buf → ℕ → Buf → Buf
take_registers zero i p at out = out
take_registers (suc left) i p at out =
    take_registers left (i + 1) p at (store out i (get_u16 p (at + i * 2)))

unfoldable pub range_overflows : ℕ → ℕ → Bool
range_overflows addr qty = ltb 0x10000 (u32 (addr + qty))

unfoldable pub bit_byte_count : ℕ → ℕ
bit_byte_count qty = (qty + 7) / 8

-- The loop of `pack_bits`, after its `memset`.
unfoldable pub pack_loop : ℕ → ℕ → Buf → Buf → ℕ → Buf
pack_loop zero i values out at = out
pack_loop (suc left) i values out at =
    let byte = at + i / 8 in
    let set_bit = store out byte (u8 (bit_or (out byte) (u8 (1 <<< (i % 8))))) in
    pack_loop left (i + 1) values (if values i == 0 then out else set_bit) at

unfoldable pub pack_bits : Buf → ℕ → Buf → ℕ → Buf
pack_bits values qty out at = pack_loop qty 0 values (fill out at (bit_byte_count qty) 0) at

unfoldable pub unpack_loop : ℕ → ℕ → Buf → ℕ → Buf → Buf
unpack_loop zero i packed at out = out
unpack_loop (suc left) i packed at out =
    unpack_loop left (i + 1) packed at
      (store out i (u8 (low_bits (packed (at + i / 8) >>> (i % 8)) 1)))

unfoldable pub unpack_bits : Buf → ℕ → ℕ → Buf → Buf
unpack_bits packed at qty out = unpack_loop qty 0 packed at out

unfoldable pub build_exception : Buf → ℕ → ℕ → Written
build_exception resp function_code exception_code = record {
  bytes = store (store resp 0 (bit_or function_code exception_flag)) 1 exception_code;
  len = 2;
}

-- The cases of the `switch`: the codes `MODBUS_EX_*`.
unfoldable pub is_exception_code : ℕ → Bool
is_exception_code rc =
    rc == 0x01
    || rc == 0x02
    || rc == 0x03
    || rc == 0x04
    || rc == 0x05
    || rc == 0x06
    || rc == 0x08
    || rc == 0x0a
    || rc == 0x0b

unfoldable pub exception_from_callback_rc : ℤ → ℕ
exception_from_callback_rc (pos rc) =
    if is_exception_code rc then u8 rc else ex_server_device_failure
exception_from_callback_rc (negsuc _) = ex_server_device_failure

unfoldable pub build_write_echo : Buf → Buf → Written
build_write_echo req resp = record { bytes = copy resp 0 req 5; len = 5 }

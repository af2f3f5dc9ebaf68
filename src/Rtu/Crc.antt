-- ===== src/Rtu/Crc.antt =====
-- CRC-16 of src/modbus_rtu.c. A pointer that may be null is an option.
pub mod Step
pub mod Detection
pub mod Residue
pub mod Append
use modbus_protocol.Prelude.{
  ℕ, ℤ, pos, negsuc, zero, suc, ◌+◌, ◌-◌, ◌%◌, ◌^◌, Option, none, some, bit_or, bit_xor, u8, u16,
  ◌<<<◌, ◌>>>◌, low_bits, Buf, store, ltb, ◌==◌, if◌then◌else◌,
}

-- One round of the loop over the bits.
unfoldable pub crc_bit : ℕ → ℕ
crc_bit crc = if low_bits crc 1 == 0 then crc >>> 1 else u16 (bit_xor (crc >>> 1) 0xa001)

unfoldable pub crc_bits : ℕ → ℕ → ℕ
crc_bits zero crc = crc
crc_bits (suc left) crc = crc_bits left (crc_bit crc)

-- One round of the loop over the bytes.
unfoldable pub crc_byte : ℕ → ℕ → ℕ
crc_byte crc b = crc_bits 8 (bit_xor crc b)

unfoldable pub crc_loop : ℕ → ℕ → Buf → ℕ → ℕ
crc_loop zero i bytes crc = crc
crc_loop (suc left) i bytes crc = crc_loop left (i + 1) bytes (crc_byte crc (bytes i))

unfoldable pub crc16 : Option Buf → ℕ → ℕ
crc16 none length = if length == 0 then 0xffff else 0
crc16 (some bytes) length = crc_loop length 0 bytes 0xffff

-- The length is a `size_t`, so the sum in the test wraps.
unfoldable pub append_crc : Option Buf → ℕ → ℕ → ℤ × Option Buf
append_crc none len cap = (negsuc 0, none)
append_crc (some frame) len cap =
    if ltb cap ((len + 2) % 2 ^ 64)
    then (negsuc 0, some frame)
    else let crc = crc16 (some frame) len in
      (pos 0, some (store (store frame len (u8 (low_bits crc 8))) (len + 1) (u8 (crc >>> 8))))

unfoldable pub validate_crc : Option Buf → ℕ → ℤ
validate_crc none len = negsuc 0
validate_crc (some frame) len =
    if ltb len 2
    then negsuc 0
    else let payload_len = len - 2 in
      let expected = crc16 (some frame) payload_len in
      let received = u16 (bit_or (frame payload_len) (frame (payload_len + 1) <<< 8)) in
      if expected == received then pos 0 else negsuc 0

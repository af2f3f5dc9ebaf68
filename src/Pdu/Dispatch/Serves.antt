-- ===== src/Pdu/Dispatch/Serves.antt =====
-- The other half of the contract: a well-formed request that has its callback is served by it.
use modbus_protocol.Prelude.{ℕ, ◌*◌, ◌≤◌, ◌≡◌, ◌⊎◌, some, arith, Buf, store, fill, false}
use modbus_protocol.Pdu.Wire.{get_u16, bit_byte_count, range_overflows, take_registers, unpack_bits}
use modbus_protocol.Pdu.Wire.Words.{get_u16-IsU16, range_overflows_lem}
use modbus_protocol.Pdu.Check.{is_read, is_write}
use modbus_protocol.Pdu.Serve.{
  Handlers, after_read, after_write, registers_response, bits_response, handle_read_registers,
  handle_read_bits, handle_write_single_coil, handle_write_single_register, handle_write_multiple,
  handle_request,
}
use modbus_protocol.Pdu.Dispatch.{InRange, HasData}

module _ {S : Type 0} (h : Handlers S) (junk req : Buf) (req_len : ℕ) (resp : Buf) (s : S) where
  in_space :
      {most : ℕ}
      → InRange most (get_u16 req 1) (get_u16 req 3)
      → range_overflows (get_u16 req 1) (get_u16 req 3) ≡ false
  in_space range = ground (
    arith,
    range_overflows_lem (get_u16 req 1) (get_u16 req 3),
    get_u16-IsU16 req 1,
    get_u16-IsU16 req 3,
    range.no_overflow,
  )

  pub serves_registers_read :
      (callback : _)
      → h.read_registers ≡ some callback
      → (req 0 ≡ 3) ⊎ (req 0 ≡ 4)
      → 5 ≤ req_len
      → InRange 125 (get_u16 req 1) (get_u16 req 3)
      → handle_request h junk req req_len resp s
        ≡ after_read resp
            (req 0)
            (registers_response resp (req 0) (get_u16 req 3))
            (callback (req 0) (get_u16 req 1) (get_u16 req 3) junk s)
  unfolding handle_request handle_read_registers is_read is_write
  serves_registers_read callback has fc len range = ground (arith, in_space range)

  pub serves_bits_read :
      (callback : _)
      → h.read_bits ≡ some callback
      → (req 0 ≡ 1) ⊎ (req 0 ≡ 2)
      → 5 ≤ req_len
      → InRange 2000 (get_u16 req 1) (get_u16 req 3)
      → handle_request h junk req req_len resp s
        ≡ after_read resp
            (req 0)
            (bits_response resp (req 0) (get_u16 req 3))
            (callback (req 0) (get_u16 req 1) (get_u16 req 3) (fill junk 0 (get_u16 req 3) 0) s)
  unfolding handle_request handle_read_bits is_read is_write
  serves_bits_read callback has fc len range = ground (arith, in_space range)

  pub serves_coil_write :
      (callback : _) (bit : ℕ)
      → h.write_bits ≡ some callback
      → req 0 ≡ 5
      → 5 ≤ req_len
      → (get_u16 req 3 ≡ bit * 65280) × (bit ≤ 1)
      → handle_request h junk req req_len resp s
        ≡ after_write req resp (callback (get_u16 req 1) 1 (store junk 0 bit) s)
  unfolding handle_request handle_write_single_coil is_read is_write
  serves_coil_write callback bit has fc len value = ground arith

  pub serves_register_write :
      (callback : _)
      → h.write_registers ≡ some callback
      → req 0 ≡ 6
      → 5 ≤ req_len
      → handle_request h junk req req_len resp s
        ≡ after_write req resp (callback (get_u16 req 1) 1 (store junk 0 (get_u16 req 3)) s)
  unfolding handle_request handle_write_single_register is_read is_write
  serves_register_write callback has fc len = ground arith

  pub serves_coils_write :
      (callback : _)
      → h.write_bits ≡ some callback
      → req 0 ≡ 15
      → HasData req req_len (bit_byte_count (get_u16 req 3))
      → InRange 1968 (get_u16 req 1) (get_u16 req 3)
      → handle_request h junk req req_len resp s
        ≡ after_write req resp
            (callback (get_u16 req 1) (get_u16 req 3) (unpack_bits req 6 (get_u16 req 3) junk) s)
  unfolding handle_request handle_write_multiple is_read is_write bit_byte_count
  serves_coils_write callback has fc sized range = ground (arith, in_space range)

  pub serves_registers_write :
      (callback : _)
      → h.write_registers ≡ some callback
      → req 0 ≡ 16
      → HasData req req_len (get_u16 req 3 * 2)
      → InRange 123 (get_u16 req 1) (get_u16 req 3)
      → handle_request h junk req req_len resp s
        ≡ after_write req resp (
            callback
              (get_u16 req 1)
              (get_u16 req 3)
              (take_registers (get_u16 req 3) 0 req 6 junk)
              s)
  unfolding handle_request handle_write_multiple is_read is_write
  serves_registers_write callback has fc sized range = ground (arith, in_space range)

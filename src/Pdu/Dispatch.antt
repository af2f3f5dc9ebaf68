-- ===== src/Pdu/Dispatch.antt =====
-- The contract of `mb_pdu_handle_request`, as a case distinction: what a reply can be, which
-- callback produced it, and with which arguments that callback was called.
pub mod Refines
pub mod Replies
pub mod Serves
pub mod Locality
pub mod Bounds
pub mod Bytes
pub mod Agreement
use modbus_protocol.Prelude.{ℕ, ◌+◌, ◌*◌, ◌≤◌, ◌≡◌, ◌⊎◌, some, Buf, store, fill}
use modbus_protocol.Pdu.Wire.{get_u16, bit_byte_count, take_registers, unpack_bits}
use modbus_protocol.Pdu.Serve.{
  Handlers, Reply, refuse, after_read, after_write, registers_response, bits_response,
}

-- `addr` and `qty` name items that exist: one at least, `most` at most, none beyond 65535.
pub record InRange (most addr qty : ℕ) : Type 0 where
  pub some_item : 1 ≤ qty
  pub at_most : qty ≤ most
  pub no_overflow : addr + qty ≤ 65536

-- The length that FC15 and FC16 requests must have, and the byte count that they must state.
pub record HasData (req : Buf) (req_len byte_count : ℕ) : Type 0 where
  pub whole : req_len ≡ 6 + byte_count
  pub stated : req 5 ≡ byte_count

module _ {S : Type 0} (h : Handlers S) (junk req : Buf) (req_len : ℕ) (resp : Buf) (s : S) where
  pub data Served (r : Reply S) : Type 0 where
    -- No callback ran: the exception code is 1, 2 or 3 and the state is the old one.
    refused : (code : ℕ) → 1 ≤ code → code ≤ 3 → r ≡ refuse resp (req 0) code s → Served r
    registers_read :
        (callback : _)
        → h.read_registers ≡ some callback
        → (req 0 ≡ 3) ⊎ (req 0 ≡ 4)
        → 5 ≤ req_len
        → InRange 125 (get_u16 req 1) (get_u16 req 3)
        → r
          ≡ after_read resp
              (req 0)
              (registers_response resp (req 0) (get_u16 req 3))
              (callback (req 0) (get_u16 req 1) (get_u16 req 3) junk s)
        → Served r
    bits_read :
        (callback : _)
        → h.read_bits ≡ some callback
        → (req 0 ≡ 1) ⊎ (req 0 ≡ 2)
        → 5 ≤ req_len
        → InRange 2000 (get_u16 req 1) (get_u16 req 3)
        → r
          ≡ after_read resp
              (req 0)
              (bits_response resp (req 0) (get_u16 req 3))
              (callback (req 0) (get_u16 req 1) (get_u16 req 3) (fill junk 0 (get_u16 req 3) 0) s)
        → Served r
    coil_written :
        (callback : _) (bit : ℕ)
        → h.write_bits ≡ some callback
        → req 0 ≡ 5
        → 5 ≤ req_len
        → (get_u16 req 3 ≡ bit * 65280) × (bit ≤ 1)
        → r ≡ after_write req resp (callback (get_u16 req 1) 1 (store junk 0 bit) s)
        → Served r
    register_written :
        (callback : _)
        → h.write_registers ≡ some callback
        → req 0 ≡ 6
        → 5 ≤ req_len
        → r ≡ after_write req resp (callback (get_u16 req 1) 1 (store junk 0 (get_u16 req 3)) s)
        → Served r
    coils_written :
        (callback : _)
        → h.write_bits ≡ some callback
        → req 0 ≡ 15
        → HasData req req_len (bit_byte_count (get_u16 req 3))
        → InRange 1968 (get_u16 req 1) (get_u16 req 3)
        → r
          ≡ after_write req resp
              (callback (get_u16 req 1) (get_u16 req 3) (unpack_bits req 6 (get_u16 req 3) junk) s)
        → Served r
    registers_written :
        (callback : _)
        → h.write_registers ≡ some callback
        → req 0 ≡ 16
        → HasData req req_len (get_u16 req 3 * 2)
        → InRange 123 (get_u16 req 1) (get_u16 req 3)
        → r
          ≡ after_write req resp (
              callback
                (get_u16 req 1)
                (get_u16 req 3)
                (take_registers (get_u16 req 3) 0 req 6 junk)
                s)
        → Served r

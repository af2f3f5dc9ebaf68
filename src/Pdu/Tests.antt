-- ===== src/Pdu/Tests.antt =====
-- Runs of the PDU layer on a small application, and its theorems at concrete requests.
use modbus_protocol.Prelude.{
  ℕ, ℤ, pos, ◌+◌, ◌%◌, ◌≡◌, refl, inl, arith, some, [], ◌∷◌, Buf, store, of_list, slice,
  if◌then◌else◌, ◌==◌,
}
use modbus_protocol.Pdu.Wire.{
  get_u16, put_u16, put_registers, range_overflows, build_exception, unpack_bits, pack_bits,
}
use modbus_protocol.Pdu.Wire.Packing.{unpack_bits-pack_bits}
use modbus_protocol.Pdu.Build.{build_read, build_write_registers, build_write_coils}
use modbus_protocol.Pdu.Check.{is_read, get_registers, get_bits}
use modbus_protocol.Pdu.Serve.{Handlers, registers_response, handle_read_registers, handle_request}
use modbus_protocol.Pdu.Dispatch.{InRange, Served}
use modbus_protocol.Pdu.Dispatch.Refines.{handle_request-Served}
use modbus_protocol.Pdu.Dispatch.Agreement.{Understood, handle_request-Understood}
use modbus_protocol.Pdu.Dispatch.Bounds.{Fits, handle_request-Fits}
use modbus_protocol.Pdu.Dispatch.Locality.{handle_request_local}
use modbus_protocol.Pdu.RoundTrip.Reads.{Delivers, read_registers_round_trip, read_bits_round_trip}
use modbus_protocol.Pdu.RoundTrip.Writes.{Arrives, write_registers-Arrives, write_coils-Arrives}

-- A device whose register `a` holds `a`, whose coil `a` is set if `a` is odd, and which counts the
-- calls and remembers the first item of the last write.
abbrev address_of : ℕ → Buf
address_of addr k = addr + k

abbrev odd_address : ℕ → Buf
odd_address addr k = (addr + k) % 2

abbrev read_addresses : ℕ → ℕ → ℕ → Buf → ℕ → ℤ × Buf × ℕ
read_addresses fc addr qty out s = (pos 0, address_of addr, s + 1)

abbrev read_odd_addresses : ℕ → ℕ → ℕ → Buf → ℕ → ℤ × Buf × ℕ
read_odd_addresses fc addr qty out s = (pos 0, odd_address addr, s + 1)

abbrev remember : ℕ → ℕ → Buf → ℕ → ℤ × ℕ
remember addr qty data' s = (pos 0, data' 0)

abbrev device : Handlers ℕ
device = record {
  read_registers = some read_addresses;
  write_registers = some remember;
  read_bits = some read_odd_addresses;
  write_bits = some remember;
}

abbrev zeros : Buf
zeros j = 0

abbrev three_words : Buf
three_words = of_list (10 ∷ 2000 ∷ 65535 ∷ [])

-- A request for registers 107 to 109, and one with a quantity of 0.
abbrev read_three : Buf
read_three = of_list (3 ∷ 0 ∷ 107 ∷ 0 ∷ 3 ∷ [])

abbrev read_none : Buf
read_none = of_list (3 ∷ 0 ∷ 107 ∷ 0 ∷ 0 ∷ [])

read_three_run :
    slice (handle_request device zeros read_three 5 zeros 0).bytes 0 8
    ≡ (3 ∷ 6 ∷ 0 ∷ 107 ∷ 0 ∷ 108 ∷ 0 ∷ 109 ∷ [])
unfolding handle_request handle_read_registers registers_response is_read get_u16 range_overflows
    put_registers put_u16
read_three_run = refl

read_none_run : slice (handle_request device zeros read_none 5 zeros 0).bytes 0 2 ≡ (0x83 ∷ 3 ∷ [])
unfolding handle_request handle_read_registers is_read get_u16 build_exception
read_none_run = refl

three_in_range : InRange 125 107 3
three_in_range = record {
  some_item = omega arith;
  at_most = omega arith;
  no_overflow = omega arith;
}

read_registers_round_trip_example :
    let req = build_read zeros 3 107 3 in
    let r = handle_request device zeros req.bytes req.len zeros 0 in
    Delivers req.bytes r 1 3 (get_registers r.bytes 3 zeros) (address_of 107)
read_registers_round_trip_example =
    read_registers_round_trip device zeros zeros zeros zeros 3 107 3 0 1 read_addresses
      (address_of 107) refl (inl refl) (omega arith) three_in_range refl (λ k lt. omega arith)

ten_in_range : InRange 2000 19 10
ten_in_range = record { some_item = omega arith; at_most = omega arith; no_overflow = omega arith }

read_bits_round_trip_example :
    let req = build_read zeros 1 19 10 in
    let r = handle_request device zeros req.bytes req.len zeros 0 in
    Delivers req.bytes r 1 10
      (get_bits r.bytes 10 zeros)
      (λ k. if odd_address 19 k == 0 then 0 else 1)
read_bits_round_trip_example =
    read_bits_round_trip device zeros zeros zeros zeros 1 19 10 0 1 read_odd_addresses
      (odd_address 19) refl (inl refl) (omega arith) ten_in_range refl

three_to_write : InRange 123 7 3
three_to_write = record {
  some_item = omega arith;
  at_most = omega arith;
  no_overflow = omega arith;
}

write_registers-Arrives_example :
    let req = build_write_registers zeros 7 3 (address_of 300) in
    let r = handle_request device zeros req.bytes req.len zeros 0 in
    Arrives req.bytes zeros r remember 7 3 (address_of 300) 0
write_registers-Arrives_example =
    write_registers-Arrives device zeros zeros zeros 7 0 remember 3 (address_of 300) refl
      (omega arith) three_to_write (λ k lt. omega arith)

three_coils : InRange 1968 7 3
three_coils = record { some_item = omega arith; at_most = omega arith; no_overflow = omega arith }

write_coils-Arrives_example :
    let req = build_write_coils zeros 7 3 three_words in
    let r = handle_request device zeros req.bytes req.len zeros 0 in
    Arrives req.bytes zeros r remember 7 3 (λ k. if three_words k == 0 then 0 else 1) 0
write_coils-Arrives_example =
    write_coils-Arrives device zeros zeros zeros 7 0 remember 3 three_words refl (omega arith)
      three_coils

handle_request-Served_example :
    Served device zeros read_three 5 zeros 0 (handle_request device zeros read_three 5 zeros 0)
handle_request-Served_example = handle_request-Served device zeros read_three 5 zeros 0

handle_request-Understood_example :
    let r = handle_request device zeros read_none 5 zeros 0 in Understood read_none r.bytes r.len
handle_request-Understood_example =
    handle_request-Understood device zeros read_none 5 zeros 0 (omega arith)

handle_request-Fits_example :
    let r = handle_request device zeros read_three 5 zeros 0 in Fits zeros r.bytes r.len
handle_request-Fits_example = handle_request-Fits device zeros read_three 5 zeros 0

handle_request_local_example :
    handle_request device zeros read_three 5 zeros 0
    ≡ handle_request device zeros (store read_three 5 99) 5 zeros 0
handle_request_local_example =
    handle_request_local device zeros read_three (store read_three 5 99) 5 zeros 0 (omega arith)
      (λ j lt. ground arith)

unpack_bits-pack_bits_example :
    unpack_bits (pack_bits three_words 3 zeros 0) 0 3 zeros 2
    ≡ (if three_words 2 == 0 then 0 else 1)
unpack_bits-pack_bits_example = unpack_bits-pack_bits three_words 3 zeros 0 zeros 2 (omega arith)

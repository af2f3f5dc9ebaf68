-- ===== src/Pdu/Serve.antt =====
-- The server's dispatch, `mb_pdu_handle_request` of src/modbus_pdu.c and its handlers.
--
-- The application's callbacks are parameters. `S` is what lies behind `userdata`; a callback
-- returns its `int`, the output array as it leaves it, and the new state. `junk` is the content
-- of a local array before anything is written to it.
use modbus_protocol.Prelude.{
  ℕ, ℤ, ◌+◌, ◌*◌, not, ◌||◌, Option, none, some, u8, Buf, store, fill, leb, ltb, ◌==◌,
  if◌then◌else◌, failed,
}
use modbus_protocol.Pdu.Codes.{
  func_read_coils, func_read_discrete_inputs, func_read_holding_registers,
  func_read_input_registers, func_write_single_coil, func_write_single_register,
  func_write_multiple_coils, max_read_registers, max_read_bits, max_write_bits, max_write_registers,
  coil_on, coil_off, ex_illegal_function, ex_illegal_data_address, ex_illegal_data_value,
}
use modbus_protocol.Pdu.Wire.{
  Written, get_u16, put_registers, take_registers, range_overflows, bit_byte_count, pack_bits,
  unpack_bits, build_exception, exception_from_callback_rc, build_write_echo,
}
use modbus_protocol.Pdu.Check.{is_read, is_write}

-- `mb_pdu_handlers_t`. `none` is a null pointer. The arguments are those of the C type: function
-- code (of a read), address, quantity, array, state.
pub record Handlers (S : Type 0) : Type 0 where
  pub read_registers : Option (ℕ → ℕ → ℕ → Buf → S → ℤ × Buf × S)
  pub write_registers : Option (ℕ → ℕ → Buf → S → ℤ × S)
  pub read_bits : Option (ℕ → ℕ → ℕ → Buf → S → ℤ × Buf × S)
  pub write_bits : Option (ℕ → ℕ → Buf → S → ℤ × S)

-- The response in its buffer, its length, and the application's state.
pub record Reply (S : Type 0) : Type 0 where
  pub bytes : Buf
  pub len : ℕ
  pub state : S

abbrev pub reply : {S : Type 0} → Written → S → Reply S
reply w s = record { bytes = w.bytes; len = w.len; state = s }

-- The normal response to a read of registers, from the array that the callback filled.
unfoldable pub registers_response : Buf → ℕ → ℕ → Buf → Written
registers_response resp fc qty values = record {
  bytes = put_registers qty 0 values (store (store resp 0 fc) 1 (u8 (qty * 2))) 2;
  len = 2 + qty * 2;
}

unfoldable pub bits_response : Buf → ℕ → ℕ → Buf → Written
bits_response resp fc qty bits = record {
  bytes = pack_bits bits qty (store (store resp 0 fc) 1 (u8 (bit_byte_count qty))) 2;
  len = 2 + bit_byte_count qty;
}

module _ {S : Type 0} where
  abbrev pub refuse : Buf → ℕ → ℕ → S → Reply S
  refuse resp fc code s = reply (build_exception resp fc code) s

  -- What follows the return of a callback that reads.
  abbrev pub after_read : Buf → ℕ → (Buf → Written) → ℤ × Buf × S → Reply S
  after_read resp fc respond (rc, values, s) =
      if failed rc
      then refuse resp fc (exception_from_callback_rc rc) s
      else reply (respond values) s

  -- What follows the return of a callback that writes.
  abbrev pub after_write : Buf → Buf → ℤ × S → Reply S
  after_write req resp (rc, s) =
      if failed rc
      then refuse resp (req 0) (exception_from_callback_rc rc) s
      else reply (build_write_echo req resp) s

  unfoldable pub handle_read_registers : Handlers S → Buf → ℕ → ℕ → ℕ → Buf → S → Reply S
  handle_read_registers h junk fc addr qty resp s = elim h.read_registers [
    | none ↦ refuse resp fc ex_illegal_function s
    | some callback ↦
        if qty == 0 || ltb max_read_registers qty
        then refuse resp fc ex_illegal_data_value s
        else if range_overflows addr qty
        then refuse resp fc ex_illegal_data_address s
        else after_read resp fc (registers_response resp fc qty) (callback fc addr qty junk s)
  ]

  unfoldable pub handle_read_bits : Handlers S → Buf → ℕ → ℕ → ℕ → Buf → S → Reply S
  handle_read_bits h junk fc addr qty resp s = elim h.read_bits [
    | none ↦ refuse resp fc ex_illegal_function s
    | some callback ↦
        if qty == 0 || ltb max_read_bits qty
        then refuse resp fc ex_illegal_data_value s
        else if range_overflows addr qty
        then refuse resp fc ex_illegal_data_address s
        else after_read resp fc (bits_response resp fc qty)
            (callback fc addr qty (fill junk 0 qty 0) s)
  ]

  unfoldable pub handle_write_single_coil : Handlers S → Buf → Buf → Buf → S → Reply S
  handle_write_single_coil h junk req resp s = elim h.write_bits [
    | none ↦ refuse resp (req 0) ex_illegal_function s
    | some callback ↦
        let value = get_u16 req 3 in
        let write =
          λ (bit : ℕ). after_write req resp (callback (get_u16 req 1) 1 (store junk 0 bit) s) in
        if value == coil_on
        then write 1
        else if value == coil_off
        then write 0
        else refuse resp (req 0) ex_illegal_data_value s
  ]

  unfoldable pub handle_write_single_register : Handlers S → Buf → Buf → Buf → S → Reply S
  handle_write_single_register h junk req resp s = elim h.write_registers [
    | none ↦ refuse resp (req 0) ex_illegal_function s
    | some callback ↦
        after_write req resp (callback (get_u16 req 1) 1 (store junk 0 (get_u16 req 3)) s)
  ]

  unfoldable pub handle_write_multiple : Handlers S → Buf → Buf → ℕ → Buf → S → Reply S
  handle_write_multiple h junk req req_len resp s =
      let fc = req 0 in
      let is_coils = fc == func_write_multiple_coils in
      let qty = get_u16 req 3 in
      let max_qty = if is_coils then max_write_bits else max_write_registers in
      elim (if is_coils then h.write_bits else h.write_registers) [
        | none ↦ refuse resp fc ex_illegal_function s
        | some callback ↦
            if leb req_len 5 || qty == 0 || ltb max_qty qty
            then refuse resp fc ex_illegal_data_value s
            else let byte_count = if is_coils then bit_byte_count qty else qty * 2 in
              if not (req 5 == u8 byte_count) || not (req_len == 6 + byte_count)
              then refuse resp fc ex_illegal_data_value s
              else let addr = get_u16 req 1 in
                if range_overflows addr qty
                then refuse resp fc ex_illegal_data_address s
                else let values =
                    if is_coils
                    then unpack_bits req 6 qty junk
                    else take_registers qty 0 req 6 junk in
                  after_write req resp (callback addr qty values s)
      ]

  unfoldable pub handle_request : Handlers S → Buf → Buf → ℕ → Buf → S → Reply S
  handle_request h junk req req_len resp s =
      let fc = req 0 in
      let addr = get_u16 req 1 in
      let qty = get_u16 req 3 in
      if is_read fc || is_write fc
      then if ltb req_len 5
        then refuse resp fc ex_illegal_data_value s
        else if fc == func_read_coils || fc == func_read_discrete_inputs
        then handle_read_bits h junk fc addr qty resp s
        else if fc == func_read_holding_registers || fc == func_read_input_registers
        then handle_read_registers h junk fc addr qty resp s
        else if fc == func_write_single_coil
        then handle_write_single_coil h junk req resp s
        else if fc == func_write_single_register
        then handle_write_single_register h junk req resp s
        else handle_write_multiple h junk req req_len resp s
      else refuse resp fc ex_illegal_function s

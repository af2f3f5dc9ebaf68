-- ===== src/Pdu/Dispatch/Refines.antt =====
-- Every reply of `mb_pdu_handle_request` is one that the contract lists.
use modbus_protocol.Prelude.{
  ℕ, ◌+◌, ◌*◌, ◌≤◌, ◌≡◌, refl, ◌⊎◌, inl, inr, arith, false, ltb, leb, ◌==◌, if_cases, option_cases,
  Bool-cases, Buf, IsU16, u8, Bool, ◌||◌, not, if◌then◌else◌,
}
use modbus_protocol.Pdu.Wire.{get_u16, range_overflows, bit_byte_count}
use modbus_protocol.Pdu.Wire.Words.{get_u16-IsU16, range_overflows_lem}
use modbus_protocol.Pdu.Check.{is_read, is_write}
use modbus_protocol.Pdu.Serve.{
  Handlers, Reply, refuse, handle_read_registers, handle_read_bits, handle_write_single_coil,
  handle_write_single_register, handle_write_multiple, handle_request,
}
use modbus_protocol.Pdu.Dispatch.{
  InRange, Served, refused, registers_read, bits_read, coil_written, register_written,
  coils_written, registers_written,
}

InRange-of_tests :
    (most addr qty : ℕ)
    → IsU16 addr
    → IsU16 qty
    → (qty == 0 || ltb most qty) ≡ false
    → range_overflows addr qty ≡ false
    → InRange most addr qty
InRange-of_tests most addr qty ha hq t e =
    let e' : ltb 65536 (addr + qty) ≡ false = rw (← range_overflows_lem addr qty ha hq) e in
    ground arith

module _ {S : Type 0} (h : Handlers S) (junk req : Buf) (req_len : ℕ) (resp : Buf) (s : S) where
  abbrev P : Reply S → Type 0
  P = Served h junk req req_len resp s

  abbrev in_range :
      (most : ℕ)
      → (get_u16 req 3 == 0 || ltb most (get_u16 req 3)) ≡ false
      → range_overflows (get_u16 req 1) (get_u16 req 3) ≡ false
      → InRange most (get_u16 req 1) (get_u16 req 3)
  in_range most =
      InRange-of_tests most (get_u16 req 1) (get_u16 req 3) (get_u16-IsU16 req 1)
        (get_u16-IsU16 req 3)

  refuse-Served : (code : ℕ) → 1 ≤ code → code ≤ 3 → P (refuse resp (req 0) code s)
  refuse-Served code lo hi = refused code lo hi refl

  read_registers-Served :
      (req 0 ≡ 3) ⊎ (req 0 ≡ 4)
      → 5 ≤ req_len
      → P (handle_read_registers h junk (req 0) (get_u16 req 1) (get_u16 req 3) resp s)
  unfolding handle_read_registers
  read_registers-Served fc len =
      option_cases P h.read_registers (λ _. refuse-Served 1 (omega arith) (omega arith))
        λ callback e.
          if_cases P _ (λ _. refuse-Served 3 (omega arith) (omega arith))
            λ t.
              if_cases P _ (λ _. refuse-Served 2 (omega arith) (omega arith))
                λ o. registers_read callback e fc len (in_range 125 t o) refl

  read_bits-Served :
      (req 0 ≡ 1) ⊎ (req 0 ≡ 2)
      → 5 ≤ req_len
      → P (handle_read_bits h junk (req 0) (get_u16 req 1) (get_u16 req 3) resp s)
  unfolding handle_read_bits
  read_bits-Served fc len =
      option_cases P h.read_bits (λ _. refuse-Served 1 (omega arith) (omega arith))
        λ callback e.
          if_cases P _ (λ _. refuse-Served 3 (omega arith) (omega arith))
            λ t.
              if_cases P _ (λ _. refuse-Served 2 (omega arith) (omega arith))
                λ o. bits_read callback e fc len (in_range 2000 t o) refl

  write_single_coil-Served :
      req 0 ≡ 5 → 5 ≤ req_len → P (handle_write_single_coil h junk req resp s)
  unfolding handle_write_single_coil
  write_single_coil-Served fc len =
      option_cases P h.write_bits (λ _. refuse-Served 1 (omega arith) (omega arith))
        λ callback e.
          if_cases P (get_u16 req 3 == 65280)
            (λ on. coil_written callback 1 e fc len (ground arith) refl)
            λ _.
              if_cases P (get_u16 req 3 == 0)
                (λ off. coil_written callback 0 e fc len (ground arith) refl)
                λ _. refuse-Served 3 (omega arith) (omega arith)

  write_single_register-Served :
      req 0 ≡ 6 → 5 ≤ req_len → P (handle_write_single_register h junk req resp s)
  unfolding handle_write_single_register
  write_single_register-Served fc len =
      option_cases P h.write_registers (λ _. refuse-Served 1 (omega arith) (omega arith))
        λ callback e. register_written callback e fc len refl

  write_multiple-Served :
      (req 0 ≡ 15) ⊎ (req 0 ≡ 16) → P (handle_write_multiple h junk req req_len resp s)
  unfolding handle_write_multiple bit_byte_count
  write_multiple-Served fc =
      let coils : Bool = req 0 == 15 in
      let qty : ℕ = get_u16 req 3 in
      let most : ℕ = if coils then 1968 else 123 in
      let count : ℕ = if coils then bit_byte_count qty else qty * 2 in
      option_cases P (if coils then h.write_bits else h.write_registers)
        (λ _. refuse-Served 1 (omega arith) (omega arith))
        λ callback e.
          if_cases P (leb req_len 5 || qty == 0 || ltb most qty)
            (λ _. refuse-Served 3 (omega arith) (omega arith))
            λ t.
              if_cases P (not (req 5 == u8 count) || not (req_len == 6 + count))
                (λ _. refuse-Served 3 (omega arith) (omega arith))
                λ d.
                  if_cases P (range_overflows (get_u16 req 1) qty)
                    (λ _. refuse-Served 2 (omega arith) (omega arith))
                    λ o. elim (Bool-cases coils) [
                      | inl c ↦
                          coils_written callback (rw c at e) (ground arith) (ground arith)
                            (in_range 1968 (ground arith) o) (rw c)
                      | inr c ↦
                          registers_written callback (rw c at e) (ground arith) (ground arith)
                            (in_range 123 (ground arith) o) (rw c)
                    ]

  -- The dispatch implements its contract: on every request, every reply is one that it lists.
  pub handle_request-Served :
      Served h junk req req_len resp s (handle_request h junk req req_len resp s)
  unfolding handle_request is_read is_write
  handle_request-Served =
      if_cases P (is_read (req 0) || is_write (req 0))
        (λ known.
          if_cases P (ltb req_len 5) (λ _. refuse-Served 3 (omega arith) (omega arith))
            λ len.
              if_cases P (req 0 == 1 || req 0 == 2)
                (λ fc. read_bits-Served (ground arith) (ground arith))
                λ n1.
                  if_cases P (req 0 == 3 || req 0 == 4)
                    (λ fc. read_registers-Served (ground arith) (ground arith))
                    λ n2.
                      if_cases P (req 0 == 5)
                        (λ fc. write_single_coil-Served (ground arith) (ground arith))
                        λ n3.
                          if_cases P (req 0 == 6)
                            (λ fc. write_single_register-Served (ground arith) (ground arith))
                            λ n4. write_multiple-Served (ground arith))
        (λ _. refuse-Served 1 (omega arith) (omega arith))

-- ===== src/Pdu/Dispatch/Replies.antt =====
-- A predicate that holds of every kind of response holds of every response: the way in which the
-- other modules use the contract.
use modbus_protocol.Prelude.{
  failed, ℕ, ℤ, ◌≤◌, ◌≡◌, ◌⊎◌, inl, inr, arith, if_cases, Buf, store, fill,
}
use modbus_protocol.Pdu.Wire.{
  Written, get_u16, build_exception, build_write_echo, exception_from_callback_rc,
  is_exception_code, take_registers, unpack_bits,
}
use modbus_protocol.Pdu.Serve.{
  Handlers, Reply, after_read, after_write, registers_response, bits_response, handle_request,
}
use modbus_protocol.Pdu.Dispatch.{
  Served, refused, registers_read, bits_read, coil_written, register_written, coils_written,
  registers_written,
}
use modbus_protocol.Pdu.Dispatch.Refines.{handle_request-Served}

pub record EveryKind (req resp : Buf) (P : Written → Type 0) : Type 0 where
  pub exception : (code : ℕ) → 1 ≤ code → code ≤ 11 → P (build_exception resp (req 0) code)
  pub registers :
      (values : Buf)
      → (req 0 ≡ 3) ⊎ (req 0 ≡ 4)
      → get_u16 req 3 ≤ 125
      → P (registers_response resp (req 0) (get_u16 req 3) values)
  pub bits :
      (values : Buf)
      → (req 0 ≡ 1) ⊎ (req 0 ≡ 2)
      → get_u16 req 3 ≤ 2000
      → P (bits_response resp (req 0) (get_u16 req 3) values)
  pub echo : (req 0 ≡ 5) ⊎ (req 0 ≡ 6) ⊎ (req 0 ≡ 15) ⊎ (req 0 ≡ 16) → P (build_write_echo req resp)

pub exception_code_bounds :
    (rc : ℤ) → (1 ≤ exception_from_callback_rc rc) × (exception_from_callback_rc rc ≤ 11)
unfolding exception_from_callback_rc is_exception_code
exception_code_bounds rc = ground arith

module _ (req resp : Buf) (P : Written → Type 0) (k : EveryKind req resp P) where
  abbrev Of : {S : Type 0} → Reply S → Type 0
  Of r = P (record { bytes = r.bytes; len = r.len })

  from_rc : (rc : ℤ) → P (build_exception resp (req 0) (exception_from_callback_rc rc))
  from_rc rc = let (lo, hi) = exception_code_bounds rc in k.exception _ lo hi

  module _ {S : Type 0} where
    written :
        (t : ℤ × S)
        → (req 0 ≡ 5) ⊎ (req 0 ≡ 6) ⊎ (req 0 ≡ 15) ⊎ (req 0 ≡ 16)
        → Of (after_write req resp t)
    written (rc, s) fc = if_cases Of (failed rc) (λ _. from_rc rc) (λ _. k.echo fc)

    read :
        (respond : Buf → Written) (t : ℤ × Buf × S)
        → ((values : Buf) → P (respond values))
        → Of (after_read resp (req 0) respond t)
    read respond (rc, values, s) each = if_cases Of (failed rc) (λ _. from_rc rc) (λ _. each values)

    Served-every :
        (h : Handlers S) (junk : Buf) (req_len : ℕ) (s : S) (r : Reply S)
        → Served h junk req req_len resp s r
        → Of r
    Served-every h junk req_len s r (refused code lo hi e) =
        rw e (k.exception code lo (omega arith))
    Served-every h junk req_len s r (registers_read callback has fc len range e) = rw e (
        read _ (callback (req 0) (get_u16 req 1) (get_u16 req 3) junk s)
          (λ v. k.registers v fc range.at_most))
    Served-every h junk req_len s r (bits_read callback has fc len range e) = rw e (
        read _ (callback (req 0) (get_u16 req 1) (get_u16 req 3) (fill junk 0 (get_u16 req 3) 0) s)
          (λ v. k.bits v fc range.at_most))
    Served-every h junk req_len s r (coil_written callback bit has fc len value e) =
        rw e (written (callback (get_u16 req 1) 1 (store junk 0 bit) s) (inl fc))
    Served-every h junk req_len s r (register_written callback has fc len e) =
        rw e (written (callback (get_u16 req 1) 1 (store junk 0 (get_u16 req 3)) s) (inr (inl fc)))
    Served-every h junk req_len s r (coils_written callback has fc sized range e) = rw e (
        written
          (callback (get_u16 req 1) (get_u16 req 3) (unpack_bits req 6 (get_u16 req 3) junk) s)
          (inr (inr (inl fc))))
    Served-every h junk req_len s r (registers_written callback has fc sized range e) = rw e (
        written
          (callback (get_u16 req 1) (get_u16 req 3) (take_registers (get_u16 req 3) 0 req 6 junk) s)
          (inr (inr (inr fc))))

    pub handle_request_every :
        (h : Handlers S) (junk : Buf) (req_len : ℕ) (s : S)
        → Of (handle_request h junk req req_len resp s)
    handle_request_every h junk req_len s =
        Served-every h junk req_len s _ (handle_request-Served h junk req req_len resp s)

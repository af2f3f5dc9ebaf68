-- ===== src/Rtu/Client/Measured.antt =====
-- The RTU client knows the length of every response of `mb_pdu_handle_request`.
use modbus_protocol.Prelude.{
  ℕ, ◌+◌, ◌≤◌, ◌<◌, ◌≡◌, ◌≢◌, refl, ◌⊎◌, inl, inr, arith, Buf, u8, bit_or, IsByte,
}
use modbus_protocol.Pdu.Wire.{get_u16, build_exception, build_write_echo, bit_byte_count}
use modbus_protocol.Pdu.Serve.{Handlers, registers_response, bits_response, handle_request}
use modbus_protocol.Pdu.Dispatch.Agreement.{flagged, registers_response_head, bits_response_head}
use modbus_protocol.Pdu.Dispatch.Replies.{EveryKind, handle_request_every}

-- What the first bytes of a response say of its length, to a client that expects this function code.
pub data Measured (fc : ℕ) (bytes : Buf) (len : ℕ) : Type 0 where
  exception : bytes 0 ≡ u8 (bit_or fc 0x80) → len ≡ 2 → Measured fc bytes len
  counted :
      bytes 0 ≡ fc
      → fc ≢ u8 (bit_or fc 0x80)
      → fc ≤ 4
      → len ≡ 2 + bytes 1
      → len ≤ 252
      → Measured fc bytes len
  echo : bytes 0 ≡ fc → fc ≢ u8 (bit_or fc 0x80) → 4 < fc → len ≡ 5 → Measured fc bytes len

read_codes :
    (fc : ℕ) → (fc ≡ 1) ⊎ (fc ≡ 2) ⊎ (fc ≡ 3) ⊎ (fc ≡ 4) → (fc ≤ 4) × (fc ≢ u8 (bit_or fc 0x80))
read_codes fc (inl e) = rw e (omega arith, λ x. omega arith)
read_codes fc (inr (inl e)) = rw e (omega arith, λ x. omega arith)
read_codes fc (inr (inr (inl e))) = rw e (omega arith, λ x. omega arith)
read_codes fc (inr (inr (inr e))) = rw e (omega arith, λ x. omega arith)

write_codes :
    (fc : ℕ) → (fc ≡ 5) ⊎ (fc ≡ 6) ⊎ (fc ≡ 15) ⊎ (fc ≡ 16) → (4 < fc) × (fc ≢ u8 (bit_or fc 0x80))
write_codes fc (inl e) = rw e (omega arith, λ x. omega arith)
write_codes fc (inr (inl e)) = rw e (omega arith, λ x. omega arith)
write_codes fc (inr (inr (inl e))) = rw e (omega arith, λ x. omega arith)
write_codes fc (inr (inr (inr e))) = rw e (omega arith, λ x. omega arith)

every_kind-Measured :
    (req resp : Buf) → IsByte (req 0) → EveryKind req resp (λ w. Measured (req 0) w.bytes w.len)
unfolding build_exception registers_response bits_response build_write_echo bit_byte_count
every_kind-Measured req resp byte = record {
  exception = λ code lo hi. exception (omega (arith, (flagged (req 0) byte).1)) refl;
  registers = λ values fc few.
      let (low, plain) = read_codes (req 0) (inr (inr fc)) in
      let (first, second) = registers_response_head resp (req 0) (get_u16 req 3) values in
      counted first plain low (omega (arith, second)) (omega arith);
  bits = λ values fc few.
      let (low, plain) = read_codes (req 0) (elim fc [ inl e ↦ inl e | inr e ↦ inr (inl e) ]) in
      let (first, second) = bits_response_head resp (req 0) (get_u16 req 3) values in
      counted first plain low (omega (arith, second)) (omega arith);
  echo = λ fc. let (high, plain) = write_codes (req 0) fc in echo (ground arith) plain high refl;
}

-- The length of every response follows from its first bytes and the function code of the request.
pub handle_request-Measured :
    {S : Type 0} (h : Handlers S) (junk req : Buf) (req_len : ℕ) (resp : Buf) (s : S)
    → IsByte (req 0)
    → let r = handle_request h junk req req_len resp s in Measured (req 0) r.bytes r.len
handle_request-Measured h junk req req_len resp s byte =
    handle_request_every req resp (λ w. Measured (req 0) w.bytes w.len)
      (every_kind-Measured req resp byte) h junk req_len s

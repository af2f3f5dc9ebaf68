-- ===== src/Pdu/Dispatch/Locality.antt =====
-- The dispatch reads no byte behind the request, and the client's check none behind the response.
use modbus_protocol.Prelude.{
  ℕ, zero, suc, ◌+◌, ◌*◌, ◌/◌, ◌%◌, ◌^◌, ◌≤◌, ◌<◌, ◌≡◌, refl, ◌∙◌, ap, fun_ext, inl, inr, arith,
  Buf, store, Agree, Bool-cases, leb,
}
use modbus_protocol.Pdu.Wire.{
  get_u16, bit_byte_count, build_write_echo, take_registers, unpack_loop, unpack_bits,
}
use modbus_protocol.Pdu.Wire.Words.{get_u16-Agree}
use modbus_protocol.Pdu.Check.{check_response, check_body, same_four}
use modbus_protocol.Pdu.Serve.{
  Handlers, handle_write_single_coil, handle_write_single_register, handle_write_multiple,
  handle_request,
}

take_registers_local :
    (left i n : ℕ) (a b : Buf) (at : ℕ) (out : Buf)
    → Agree n a b
    → at + (i + left) * 2 ≤ n
    → take_registers left i a at out ≡ take_registers left i b at out
unfolding take_registers
take_registers_local zero i n a b at out same h = refl
take_registers_local (suc left) i n a b at out same h =
    ap (λ (v : ℕ). take_registers left (i + 1) a at (store out i v))
      (get_u16-Agree n (at + i * 2) a b same (omega arith))
    ∙ take_registers_local left (i + 1) n a b at _ same (omega arith)

unpack_loop_local :
    (left i n : ℕ) (a b : Buf) (at : ℕ) (out : Buf)
    → Agree n a b
    → at + (i + left + 7) / 8 ≤ n
    → unpack_loop left i a at out ≡ unpack_loop left i b at out
unfolding unpack_loop
unpack_loop_local zero i n a b at out same h = refl
unpack_loop_local (suc left) i n a b at out same h =
    ap (λ (v : ℕ). unpack_loop left (i + 1) a at (store out i (v / 2 ^ (i % 8) % 2 ^ 1 % 2 ^ 8)))
      (same (at + i / 8) (omega arith))
    ∙ unpack_loop_local left (i + 1) n a b at _ same (omega arith)

build_write_echo_local :
    (n : ℕ) (a b resp : Buf)
    → Agree n a b
    → 5 ≤ n
    → build_write_echo a resp ≡ build_write_echo b resp
unfolding build_write_echo
build_write_echo_local n a b resp same h =
    ap (λ (m : Buf). record { bytes = m; len = 5 }) (fun_ext λ j. ground (arith, same j))

module _ {S : Type 0} (h : Handlers S) (junk a b : Buf) (n : ℕ) (resp : Buf) (s : S)
    (same : Agree n a b) where
  single_coil_local :
      5 ≤ n → handle_write_single_coil h junk a resp s ≡ handle_write_single_coil h junk b resp s
  unfolding handle_write_single_coil
  single_coil_local long = ground (
    arith,
    same 0,
    get_u16-Agree n 1 a b same,
    get_u16-Agree n 3 a b same,
    build_write_echo_local n a b resp same,
  )

  single_register_local :
      5 ≤ n
      → handle_write_single_register h junk a resp s ≡ handle_write_single_register h junk b resp s
  unfolding handle_write_single_register
  single_register_local long = ground (
    arith,
    same 0,
    get_u16-Agree n 1 a b same,
    get_u16-Agree n 3 a b same,
    build_write_echo_local n a b resp same,
  )

  multiple_local :
      5 ≤ n → handle_write_multiple h junk a n resp s ≡ handle_write_multiple h junk b n resp s
  unfolding handle_write_multiple unpack_bits bit_byte_count
  multiple_local long = ground (
    arith,
    same 0,
    same 5,
    get_u16-Agree n 1 a b same,
    get_u16-Agree n 3 a b same,
    build_write_echo_local n a b resp same,
    take_registers_local (get_u16 a 3) 0 n a b 6 junk same,
    unpack_loop_local (get_u16 a 3) 0 n a b 6 junk same,
  )

  long_request_local : 5 ≤ n → handle_request h junk a n resp s ≡ handle_request h junk b n resp s
  unfolding handle_request
  long_request_local long = ground (
    arith,
    same 0,
    get_u16-Agree n 1 a b same,
    get_u16-Agree n 3 a b same,
    single_coil_local,
    single_register_local,
    multiple_local,
  )

  short_request_local :
      1 ≤ n → n < 5 → handle_request h junk a n resp s ≡ handle_request h junk b n resp s
  unfolding handle_request
  short_request_local some' short = ground (arith, same 0)

-- Two requests that agree on their bytes get the same reply, whatever lies behind them in memory.
pub handle_request_local :
    {S : Type 0} (h : Handlers S) (junk a b : Buf) (req_len : ℕ) (resp : Buf) (s : S)
    → 1 ≤ req_len
    → Agree req_len a b
    → handle_request h junk a req_len resp s ≡ handle_request h junk b req_len resp s
handle_request_local h junk a b req_len resp s one same = elim (Bool-cases (leb 5 req_len)) [
  | inl long ↦ long_request_local h junk a b req_len resp s same (ground arith)
  | inr short ↦ short_request_local h junk a b req_len resp s same one (ground arith)
]

-- The check reads the response and nothing behind it.
pub check_response_local :
    (req a b : Buf) (n : ℕ) → Agree n a b → check_response req a n ≡ check_response req b n
unfolding check_response check_body same_four
check_response_local req a b n same = ground (arith, same 0, same 1, same 2, same 3, same 4)

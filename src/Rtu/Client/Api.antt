-- ===== src/Rtu/Client/Api.antt =====
-- The public calls of src/modbus_rtu_client.c but connect and disconnect: arguments are checked, the
-- request is built, and a successful read is extracted into the caller's array.
use modbus_protocol.Prelude.{
  ℕ, ℤ, ◌||◌, Option, none, some, Buf, offset, failed, ltb, ◌==◌, if◌then◌else◌,
}
use modbus_protocol.Pdu.Codes.{
  func_read_coils, func_read_discrete_inputs, func_read_holding_registers,
  func_read_input_registers, func_write_single_coil, func_write_single_register, max_read_registers,
  max_read_bits, max_write_registers, max_write_bits, coil_on, coil_off,
}
use modbus_protocol.Pdu.Wire.{Written}
use modbus_protocol.Pdu.Build.{
  build_read, build_write_single, build_write_registers, build_write_coils,
}
use modbus_protocol.Pdu.Check.{get_registers, get_bits}
use modbus_protocol.Rtu.Bus.{Bus}
use modbus_protocol.Rtu.Client.{
  RtuClientCtx, Wire, RtuTransaction, rtu_err_arg, rtu_err_not_connected, rtu_client_ok,
  rtu_transact,
}

abbrev pub with_unit_id : ℕ → RtuClientCtx → RtuClientCtx
with_unit_id unit_id ctx = record ctx { cfg = record ctx.cfg { unit_id = unit_id } }

unfoldable pub rtu_set_unit_id : Option RtuClientCtx → ℕ → ℤ × Option RtuClientCtx
rtu_set_unit_id none unit_id = (rtu_err_arg, none)
rtu_set_unit_id (some ctx) unit_id =
    if ctx.initialized
    then (rtu_client_ok, some (with_unit_id unit_id ctx))
    else (rtu_err_not_connected, some ctx)

-- What a call leaves behind: its result, the bus, and the caller's array, `none` for a null pointer.
pub record RtuCall : Type 0 where
  pub rc : ℤ
  pub bus : Bus
  pub out : Option Buf

-- The bus is the one that the context points to; the arrays are what the stack holds.
module _ (wire : Wire) (junk echo pdu resp : Buf) (bus : Bus) where
  -- The call returns `MB_RTU_CLIENT_ERR_ARG`.
  abbrev pub bad_argument : Option Buf → RtuCall
  bad_argument out = record { rc = rtu_err_arg; bus = bus; out = out }

  -- A read after its transaction.
  abbrev pub rtu_extract : (Buf → Buf → Buf) → Buf → RtuTransaction → RtuCall
  rtu_extract get out t = record {
    rc = t.rc;
    bus = t.bus;
    out = some (if failed t.rc then out else get (offset t.resp 1) out);
  }

  abbrev pub rtu_request : RtuClientCtx → Written → RtuTransaction
  rtu_request ctx w = rtu_transact wire junk echo ctx bus w.bytes w.len resp

  -- A write after its transaction.
  abbrev pub rtu_finish : RtuTransaction → ℤ × Bus
  rtu_finish t = (t.rc, t.bus)

  unfoldable pub rtu_read_registers : Option RtuClientCtx → ℕ → ℕ → ℕ → Option Buf → RtuCall
  rtu_read_registers none fc addr qty out = bad_argument out
  rtu_read_registers (some ctx) fc addr qty none = bad_argument none
  rtu_read_registers (some ctx) fc addr qty (some out) =
      if qty == 0 || ltb max_read_registers qty
      then bad_argument (some out)
      else rtu_extract (λ pdu' o. get_registers pdu' qty o) out
          (rtu_request ctx (build_read pdu fc addr qty))

  unfoldable pub rtu_read_bits : Option RtuClientCtx → ℕ → ℕ → ℕ → Option Buf → RtuCall
  rtu_read_bits none fc addr qty out = bad_argument out
  rtu_read_bits (some ctx) fc addr qty none = bad_argument none
  rtu_read_bits (some ctx) fc addr qty (some out) =
      if qty == 0 || ltb max_read_bits qty
      then bad_argument (some out)
      else rtu_extract (λ pdu' o. get_bits pdu' qty o) out
          (rtu_request ctx (build_read pdu fc addr qty))

  unfoldable pub rtu_read_holding_registers : Option RtuClientCtx → ℕ → ℕ → Option Buf → RtuCall
  rtu_read_holding_registers ctx addr qty out =
      rtu_read_registers ctx func_read_holding_registers addr qty out

  unfoldable pub rtu_read_input_registers : Option RtuClientCtx → ℕ → ℕ → Option Buf → RtuCall
  rtu_read_input_registers ctx addr qty out =
      rtu_read_registers ctx func_read_input_registers addr qty out

  unfoldable pub rtu_read_coils : Option RtuClientCtx → ℕ → ℕ → Option Buf → RtuCall
  rtu_read_coils ctx addr qty out = rtu_read_bits ctx func_read_coils addr qty out

  unfoldable pub rtu_read_discrete_inputs : Option RtuClientCtx → ℕ → ℕ → Option Buf → RtuCall
  rtu_read_discrete_inputs ctx addr qty out =
      rtu_read_bits ctx func_read_discrete_inputs addr qty out

  unfoldable pub rtu_write_single_register : Option RtuClientCtx → ℕ → ℕ → ℤ × Bus
  rtu_write_single_register none addr value = (rtu_err_arg, bus)
  rtu_write_single_register (some ctx) addr value =
      rtu_finish (rtu_request ctx (build_write_single pdu func_write_single_register addr value))

  unfoldable pub rtu_write_single_coil : Option RtuClientCtx → ℕ → ℕ → ℤ × Bus
  rtu_write_single_coil none addr value = (rtu_err_arg, bus)
  rtu_write_single_coil (some ctx) addr value = rtu_finish (
      rtu_request ctx (
        build_write_single pdu func_write_single_coil addr
          (if value == 0 then coil_off else coil_on)))

  unfoldable pub rtu_write_multiple_registers : Option RtuClientCtx → ℕ → ℕ → Option Buf → ℤ × Bus
  rtu_write_multiple_registers none addr qty values = (rtu_err_arg, bus)
  rtu_write_multiple_registers (some ctx) addr qty none = (rtu_err_arg, bus)
  rtu_write_multiple_registers (some ctx) addr qty (some values) =
      if qty == 0 || ltb max_write_registers qty
      then (rtu_err_arg, bus)
      else rtu_finish (rtu_request ctx (build_write_registers pdu addr qty values))

  unfoldable pub rtu_write_multiple_coils : Option RtuClientCtx → ℕ → ℕ → Option Buf → ℤ × Bus
  rtu_write_multiple_coils none addr qty values = (rtu_err_arg, bus)
  rtu_write_multiple_coils (some ctx) addr qty none = (rtu_err_arg, bus)
  rtu_write_multiple_coils (some ctx) addr qty (some values) =
      if qty == 0 || ltb max_write_bits qty
      then (rtu_err_arg, bus)
      else rtu_finish (rtu_request ctx (build_write_coils pdu addr qty values))

  -- The array is a local one.
  unfoldable pub rtu_probe_device : Option RtuClientCtx → ℕ → ℕ → Buf → ℤ × Bus
  rtu_probe_device ctx addr qty probe_buf =
      let call = rtu_read_holding_registers ctx addr qty (some probe_buf) in
      if qty == 0 || ltb max_read_registers qty then (rtu_err_arg, bus) else (call.rc, call.bus)

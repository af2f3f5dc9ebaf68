-- ===== src/Tcp/Client/Api.antt =====
-- The public calls of src/modbus_tcp_client.c: arguments are checked, the request is built, and a
-- successful read is extracted into the caller's array.
use modbus_protocol.Prelude.{
  ℕ, ℤ, negsuc, ◌||◌, Option, none, some, Buf, offset, failed, ltb, ◌==◌, if◌then◌else◌,
}
use modbus_protocol.Pdu.Codes.{
  func_read_coils, func_read_discrete_inputs, func_read_holding_registers,
  func_read_input_registers, func_write_single_coil, func_write_single_register, max_read_registers,
  max_read_bits, max_write_registers, max_write_bits, coil_on, coil_off,
}
use modbus_protocol.Pdu.Wire.{Written}
use modbus_protocol.Pdu.Build.{
  build_read, build_write_single, build_write_registers, build_write_coils,
}
use modbus_protocol.Pdu.Check.{get_registers, get_bits}
use modbus_protocol.Tcp.Client.{
  ClientCtx, Clock, Transaction, err_not_connected, client_ok, transact,
}

abbrev pub err_arg : ℤ
err_arg = negsuc 0

-- What a call leaves behind. The output array is the caller's; `none` is a null pointer.
pub record Call : Type 0 where
  pub rc : ℤ
  pub ctx : Option ClientCtx
  pub out : Option Buf

unfoldable pub client_set_unit_id : Option ClientCtx → ℕ → ℤ × Option ClientCtx
client_set_unit_id none unit_id = (err_arg, none)
client_set_unit_id (some ctx) unit_id =
    if ctx.initialized
    then (
      client_ok,
      some record {
        initialized = ctx.initialized;
        sock = ctx.sock;
        tid = ctx.tid;
        unit_id = unit_id;
        response_timeout_ms = ctx.response_timeout_ms;
      },
    )
    else (err_not_connected, some ctx)

module _ (send : Buf → ℕ → ℤ) (junk pdu resp : Buf) (clock : Clock) where
  -- A read after its transaction.
  abbrev pub extract : (Buf → Buf → Buf) → Buf → Option Transaction → Option Call
  extract get out none = none
  extract get out (some t) = some record {
    rc = t.rc;
    ctx = some t.ctx;
    out = some (if failed t.rc then out else get (offset t.resp 7) out);
  }

  -- A write after its transaction.
  abbrev pub finish_write : Option Transaction → Option (ℤ × Option ClientCtx)
  finish_write none = none
  finish_write (some t) = some (t.rc, some t.ctx)

  abbrev pub request : ClientCtx → Written → Option Transaction
  request ctx w = transact send junk clock ctx w.bytes w.len resp

  unfoldable pub client_read_registers : Option ClientCtx → ℕ → ℕ → ℕ → Option Buf → Option Call
  client_read_registers none fc addr qty out = some record { rc = err_arg; ctx = none; out = out }
  client_read_registers (some ctx) fc addr qty none =
      some record { rc = err_arg; ctx = some ctx; out = none }
  client_read_registers (some ctx) fc addr qty (some out) =
      if qty == 0 || ltb max_read_registers qty
      then some record { rc = err_arg; ctx = some ctx; out = some out }
      else extract (λ pdu' o. get_registers pdu' qty o) out
          (request ctx (build_read pdu fc addr qty))

  unfoldable pub client_read_bits : Option ClientCtx → ℕ → ℕ → ℕ → Option Buf → Option Call
  client_read_bits none fc addr qty out = some record { rc = err_arg; ctx = none; out = out }
  client_read_bits (some ctx) fc addr qty none =
      some record { rc = err_arg; ctx = some ctx; out = none }
  client_read_bits (some ctx) fc addr qty (some out) =
      if qty == 0 || ltb max_read_bits qty
      then some record { rc = err_arg; ctx = some ctx; out = some out }
      else extract (λ pdu' o. get_bits pdu' qty o) out (request ctx (build_read pdu fc addr qty))

  unfoldable pub read_holding_registers : Option ClientCtx → ℕ → ℕ → Option Buf → Option Call
  read_holding_registers ctx addr qty out =
      client_read_registers ctx func_read_holding_registers addr qty out

  unfoldable pub read_input_registers : Option ClientCtx → ℕ → ℕ → Option Buf → Option Call
  read_input_registers ctx addr qty out =
      client_read_registers ctx func_read_input_registers addr qty out

  unfoldable pub read_coils : Option ClientCtx → ℕ → ℕ → Option Buf → Option Call
  read_coils ctx addr qty out = client_read_bits ctx func_read_coils addr qty out

  unfoldable pub read_discrete_inputs : Option ClientCtx → ℕ → ℕ → Option Buf → Option Call
  read_discrete_inputs ctx addr qty out =
      client_read_bits ctx func_read_discrete_inputs addr qty out

  unfoldable pub write_single_register : Option ClientCtx → ℕ → ℕ → Option (ℤ × Option ClientCtx)
  write_single_register none addr value = some (err_arg, none)
  write_single_register (some ctx) addr value =
      finish_write (request ctx (build_write_single pdu func_write_single_register addr value))

  unfoldable pub write_single_coil : Option ClientCtx → ℕ → ℕ → Option (ℤ × Option ClientCtx)
  write_single_coil none addr value = some (err_arg, none)
  write_single_coil (some ctx) addr value = finish_write (
      request ctx (
        build_write_single pdu func_write_single_coil addr
          (if value == 0 then coil_off else coil_on)))

  unfoldable pub write_multiple_registers :
      Option ClientCtx → ℕ → ℕ → Option Buf → Option (ℤ × Option ClientCtx)
  write_multiple_registers none addr qty values = some (err_arg, none)
  write_multiple_registers (some ctx) addr qty none = some (err_arg, some ctx)
  write_multiple_registers (some ctx) addr qty (some values) =
      if qty == 0 || ltb max_write_registers qty
      then some (err_arg, some ctx)
      else finish_write (request ctx (build_write_registers pdu addr qty values))

  unfoldable pub write_multiple_coils :
      Option ClientCtx → ℕ → ℕ → Option Buf → Option (ℤ × Option ClientCtx)
  write_multiple_coils none addr qty values = some (err_arg, none)
  write_multiple_coils (some ctx) addr qty none = some (err_arg, some ctx)
  write_multiple_coils (some ctx) addr qty (some values) =
      if qty == 0 || ltb max_write_bits qty
      then some (err_arg, some ctx)
      else finish_write (request ctx (build_write_coils pdu addr qty values))

-- ===== src/Rtu/Port.antt =====
-- The serial transport of src/modbus_rtu.c: the settings of the port, and the life of a context.
--
-- The answers of the system are parameters. What the thread does until `pthread_join` returns leaves
-- no trace in the context.
pub mod Settings
pub mod Released
use modbus_protocol.Prelude.{
  ℕ, ℤ, pos, negsuc, ◌+◌, ◌-◌, Bool, true, false, not, ◌&&◌, ◌||◌, Option, none, some, List, [],
  ◌∷◌, failed, ◌==◌, if◌then◌else◌, Text,
}
use modbus_protocol.Rtu.Timing.{
  Parity, none_parity, even, odd, SerialConfig, effective_data_bits, effective_stop_bits,
}
use modbus_protocol.Rtu.Bus.{
  Rs485Mode, untouched, rts_on_send, rts_after_send, PortConfig, close_port,
}

-- The constant `B9600` is 9600 here, and so on; 0 is `(speed_t)0`.
unfoldable pub baud_to_speed : ℕ → ℕ
baud_to_speed baud_rate =
    if baud_rate == 0 || baud_rate == 9600
    then 9600
    else if (baud_rate == 1200)
        || (baud_rate == 2400)
        || (baud_rate == 4800)
        || (baud_rate == 19200)
        || (baud_rate == 38400)
        || (baud_rate == 57600)
        || (baud_rate == 115200)
        || (baud_rate == 230400)
        || (baud_rate == 460800)
    then baud_rate
    else 0

-- The flags of `struct termios` that depend on the settings: `CS7` or else `CS8`, `PARENB`, `PARODD`
-- and `CSTOPB`, and the speed.
pub record Termios : Type 0 where
  pub speed : ℕ
  pub cs7 : Bool
  pub parenb : Bool
  pub parodd : Bool
  pub cstopb : Bool

abbrev pub is_parity : Parity → Bool
is_parity none_parity = false
is_parity even = true
is_parity odd = true

abbrev pub is_odd : Parity → Bool
is_odd none_parity = false
is_odd even = false
is_odd odd = true

abbrev pub options_of : SerialConfig → Termios
options_of serial = record {
  speed = baud_to_speed serial.baud_rate;
  cs7 = effective_data_bits serial.data_bits == 7;
  parenb = is_parity serial.parity;
  parodd = is_odd serial.parity;
  cstopb = effective_stop_bits serial.stop_bits == 2;
}

-- `attributes_set`: `cfsetispeed`, `cfsetospeed` and `tcsetattr` succeed. The result, and the options
-- that the port has been given.
unfoldable pub configure_serial : Bool → SerialConfig → ℤ × Option Termios
configure_serial attributes_set serial =
    let data_bits = effective_data_bits serial.data_bits in
    let stop_bits = effective_stop_bits serial.stop_bits in
    if (baud_to_speed serial.baud_rate == 0)
      || (not (data_bits == 7) && not (data_bits == 8))
      || (not (stop_bits == 1) && not (stop_bits == 2))
    then (negsuc 0, none)
    else if not attributes_set
    then (negsuc 0, none)
    else (pos 0, some (options_of serial))

-- On Linux; `rs485_rc` is the result of `ioctl`.
abbrev pub configure_rs485 : ℤ → Rs485Mode → ℤ
configure_rs485 rs485_rc untouched = pos 0
configure_rs485 rs485_rc rts_on_send = rs485_rc
configure_rs485 rs485_rc rts_after_send = rs485_rc

-- What the system answers to a start: `pthread_mutex_init`, `open` and the calls that configure the
-- port, `fcntl`, and `pthread_create`.
pub record PortAnswers : Type 0 where
  pub lock_made : Bool
  pub opened : Option ℕ
  pub attributes_set : Bool
  pub rs485_rc : ℤ
  pub nonblocking : Bool
  pub thread_made : Bool

-- The result, `*fd_out`, and the open ports. The pointers are not null, and a device is named.
unfoldable pub rtu_open : PortAnswers → PortConfig → List ℕ → ℤ × Option ℕ × List ℕ
rtu_open a serial ports = elim a.opened [
  | none ↦ (negsuc 0, none, ports)
  | some fd ↦
      if failed (configure_serial a.attributes_set serial.serial).0
        || failed (configure_rs485 a.rs485_rc serial.rs485_mode)
      then (negsuc 0, none, close_port fd (fd ∷ ports))
      else (pos 0, some fd, fd ∷ ports)
]

-- `mb_rtu_ctx_t`, without its thread, its lock and its configuration.
pub record RtuCtx : Type 0 where
  pub initialized : Bool
  pub keep_running : Bool
  pub serial_fd : Option ℕ

-- What the system holds for the context, and what the hook on_link was told, the last first.
pub record PortHeld : Type 0 where
  pub ports : List ℕ
  pub locks : ℕ
  pub threads : ℕ
  pub log : List (ℕ × Bool)

abbrev pub idle_ctx : RtuCtx
idle_ctx = record { initialized = false; keep_running = false; serial_fd = none }

-- After `mb_rtu_open`; the mutex has been made.
unfoldable pub begin_serving :
    PortAnswers → PortHeld → ℤ × Option ℕ × List ℕ → ℤ × RtuCtx × PortHeld
begin_serving a held (rc, none, ports) =
    (negsuc 0, idle_ctx, record held { ports = ports; locks = held.locks - 1 })
begin_serving a held (rc, some fd, ports) =
    if not a.nonblocking || not a.thread_made
    then (negsuc 0, idle_ctx, record held { ports = close_port fd ports; locks = held.locks - 1 })
    else (
      pos 0,
      record { initialized = true; keep_running = true; serial_fd = some fd },
      record held { ports = ports; threads = held.threads + 1; log = (fd, true) ∷ held.log },
    )

-- The pointers are not null.
unfoldable pub rtu_start :
    PortAnswers → RtuCtx → Option Text → PortConfig → PortHeld → ℤ × RtuCtx × PortHeld
rtu_start a ctx none serial held = (negsuc 0, ctx, held)
rtu_start a ctx (some []) serial held = (negsuc 0, ctx, held)
rtu_start a ctx (some (c ∷ rest)) serial held =
    let with_lock = record held { locks = held.locks + 1 } in
    if ctx.initialized
    then (negsuc 0, ctx, held)
    else if not a.lock_made
    then (negsuc 0, idle_ctx, held)
    else begin_serving a with_lock (rtu_open a serial held.ports)

-- After the thread has been joined.
unfoldable pub rtu_stop : RtuCtx → PortHeld → RtuCtx × PortHeld
rtu_stop ctx held = if not ctx.initialized then (ctx, held) else elim ctx.serial_fd [
  | none ↦ (idle_ctx, record held { locks = held.locks - 1; threads = held.threads - 1 })
  | some fd ↦ (
    idle_ctx,
    record {
      ports = close_port fd held.ports;
      locks = held.locks - 1;
      threads = held.threads - 1;
      log = (fd, false) ∷ held.log;
    },
  )
]

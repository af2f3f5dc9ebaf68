-- ===== src/Rtu/Serving.antt =====
-- The RTU server of src/modbus_rtu_server.c around its turns: the silence before a response, the
-- sending of it and its echo, the thread, and start and stop.
--
-- What the system does is a parameter; the hooks around the sending have no effect on the state.
pub mod Bounds
use modbus_protocol.Prelude.{
  ℕ, ℤ, pos, negsuc, ◌+◌, ◌-◌, min, Bool, true, false, not, ◌||◌, Option, none, some, List, [], ◌∷◌,
  Buf, ltb, leb, ◌==◌, if◌then◌else◌, Text,
}
use modbus_protocol.Rtu.Timing.{Parity, none_parity, SerialConfig, t35_us, effective_timing}
use modbus_protocol.Rtu.Line.{WriteCall, write_loop, after_writes}
use modbus_protocol.Rtu.Server.{
  Config, Rx, ReadResult, Turn, server_on_process, default_recv_timeout_ms,
}
use modbus_protocol.Rtu.Bus.{PortConfig, Rs485Mode, untouched}
use modbus_protocol.Rtu.Port.{PortAnswers, RtuCtx, PortHeld, idle_ctx, rtu_start, rtu_stop}

-- `effective_inter_frame_us` of a server with this delay and this T3.5.
unfoldable pub server_inter_frame_us : ℕ → ℕ → ℕ
server_inter_frame_us inter_frame_delay_us t35 = effective_timing inter_frame_delay_us t35

-- The microseconds that `wait_response_silence` sleeps, at the time that it reads.
unfoldable pub wait_response_silence : ℕ → ℕ → ℕ → ℕ
wait_response_silence since_us required_us now_us =
    if required_us == 0
    then 0
    else if since_us == 0
    then required_us
    else if ltb now_us since_us
    then required_us
    else if ltb (now_us - since_us) required_us
    then required_us - (now_us - since_us)
    else 0

-- `write_interrupted` stands for `EAGAIN` too, after which the loop waits with `select`.
unfoldable pub server_write_all : List WriteCall → ℤ → ℕ → ℤ × ℕ
server_write_all writes drained len = after_writes drained (write_loop writes len 0)

-- A round of `discard_echo`: `select` says that nothing is there, or `read` yields up to that many
-- bytes, ends with `EINTR` or `EAGAIN`, or ends with no byte or another error.
pub data EchoCall : Type 0 where
  nothing_there : EchoCall
  echo_up_to : ℕ → EchoCall
  echo_again : EchoCall
  echo_failed : EchoCall

-- The loop of `discard_echo`: how many bytes it has read when it ends. When the list ends, the
-- deadline has passed.
unfoldable pub discard_loop : ℕ → ℕ → List (ℕ × EchoCall) → ℕ → ℕ
discard_loop deadline_us len [] got = got
discard_loop deadline_us len ((now_us, nothing_there) ∷ more) got =
    let rest = discard_loop deadline_us len more got in
    if ltb got len then if leb deadline_us now_us then got else rest else got
discard_loop deadline_us len ((now_us, echo_up_to n) ∷ more) got =
    let rest = discard_loop deadline_us len more (got + min n (len - got)) in
    if ltb got len
    then if leb deadline_us now_us then got else if min n (len - got) == 0 then got else rest
    else got
discard_loop deadline_us len ((now_us, echo_again) ∷ more) got =
    let rest = discard_loop deadline_us len more got in
    if ltb got len then if leb deadline_us now_us then got else rest else got
discard_loop deadline_us len ((now_us, echo_failed) ∷ more) got = got

abbrev pub discard_echo : ℕ → List (ℕ × EchoCall) → ℕ → ℕ
discard_echo deadline_us rounds len = discard_loop deadline_us len rounds 0

-- `mb_rtu_thread` of src/modbus_rtu.c with the server's turns: a negative result of a turn does not
-- end it. For each turn, the results of `read` and the time. `none` is an end of a turn's fuel.
unfoldable pub rtu_thread :
    {S : Type 0}
    → Config S
    → Buf
    → Buf
    → (Buf → ℕ → ℤ)
    → Buf
    → List (List ReadResult × ℕ)
    → Rx
    → S
    → Option (Rx × S)
rtu_thread cfg junk resp send adu [] ctx s = some (ctx, s)
rtu_thread cfg junk resp send adu ((reads, now_us) ∷ more) ctx s =
    elim (server_on_process cfg junk resp send adu reads now_us ctx s) [
      | none ↦ none
      | some turn ↦ rtu_thread cfg junk resp send adu more turn.ctx turn.state
    ]

-- `mb_rtu_server_config_t` without its callbacks.
pub record RtuServerSettings : Type 0 where
  pub device : Option Text
  pub serial : SerialConfig
  pub unit_id : ℕ
  pub recv_timeout_ms : ℕ
  pub inter_frame_delay_us : ℕ
  pub rs485_mode : Rs485Mode
  pub local_echo : Bool

unfoldable pub rtu_server_config_init : Option RtuServerSettings → Option RtuServerSettings
rtu_server_config_init none = none
rtu_server_config_init (some cfg) = some record {
  device = none;
  serial = record { baud_rate = 9600; data_bits = 8; stop_bits = 1; parity = none_parity };
  unit_id = 0;
  recv_timeout_ms = default_recv_timeout_ms;
  inter_frame_delay_us = 0;
  rs485_mode = untouched;
  local_echo = false;
}

-- `mb_rtu_server_ctx_t`
pub record RtuServerCtx : Type 0 where
  pub transport : RtuCtx
  pub cfg : RtuServerSettings
  pub t35 : ℕ
  pub rx : Rx

-- The bytes of the buffer are cleared too.
abbrev pub no_bytes : Rx
no_bytes = record { rx_buffer = λ j. 0; rx_len = 0; last_rx_us = 0 }

-- With a device's name, its first character apart; the descriptor of the cleared transport is 0.
unfoldable pub start_device :
    PortAnswers → RtuServerCtx → RtuServerSettings → Text → PortHeld → ℤ × RtuServerCtx × PortHeld
start_device a ctx cfg device held =
    let timeout =
      if cfg.recv_timeout_ms == 0 then default_recv_timeout_ms else cfg.recv_timeout_ms in
    let serial : PortConfig = record {
      device = device;
      serial = cfg.serial;
      rs485_mode = cfg.rs485_mode;
    } in
    let started =
      rtu_start a record { initialized = false; keep_running = false; serial_fd = some 0 }
        (some device) serial held in
    if ctx.transport.initialized then (negsuc 0, ctx, held) else (
      started.0,
      record {
        transport = started.1;
        cfg = record cfg { recv_timeout_ms = timeout };
        t35 = t35_us (some cfg.serial);
        rx = no_bytes;
      },
      started.2,
    )

-- The pointers are not null.
unfoldable pub rtu_server_start :
    PortAnswers → RtuServerCtx → RtuServerSettings → PortHeld → ℤ × RtuServerCtx × PortHeld
rtu_server_start a ctx cfg held = elim cfg.device [
  | none ↦ (negsuc 0, ctx, held)
  | some device ↦ elim device [
    | [] ↦ (negsuc 0, ctx, held)
    | c ∷ rest ↦ start_device a ctx cfg (c ∷ rest) held
  ]
]

unfoldable pub rtu_server_stop : RtuServerCtx → PortHeld → RtuServerCtx × PortHeld
rtu_server_stop ctx held =
    let stopped = rtu_stop ctx.transport held in (record ctx { transport = stopped.0 }, stopped.1)

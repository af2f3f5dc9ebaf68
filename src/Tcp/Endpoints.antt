-- ===== src/Tcp/Endpoints.antt =====
-- The ends of the life of a TCP server and of a TCP client: mb_tcp_server_config_init,
-- mb_tcp_server_start and mb_tcp_server_stop of src/modbus_tcp_server.c, mb_tcp_client_connect and
-- mb_tcp_client_disconnect of src/modbus_tcp_client.c.
pub mod Sessions
pub mod Servers
use modbus_protocol.Prelude.{
  ℕ, ℤ, pos, negsuc, zero, suc, ◌+◌, ◌-◌, Bool, true, false, not, ◌||◌, Option, none, some, List,
  failed, ◌==◌, if◌then◌else◌, Text,
}
use modbus_protocol.Tcp.Stream.{Socket}
use modbus_protocol.Tcp.Client.{ClientCtx, Transaction}
use modbus_protocol.Tcp.Life.{
  listen_server, TransportConfig, TcpCtx, Held, StartAnswers, tcp_start, tcp_stop, value_or_default,
}
use modbus_protocol.Tcp.Connect.{ConnectAnswers, is_unset, tcp_connect, close_open}

-- `MB_TCP_SERVER_DEFAULT_RECV_TIMEOUT_MS`
abbrev pub server_recv_timeout_ms : ℕ
server_recv_timeout_ms = 5000

-- `mb_tcp_server_config_t`, its numbers; the callbacks and the unit id for a turn are in TcpConfig of
-- Tcp/Server.
pub record ServerSettings : Type 0 where
  pub port : ℕ
  pub unit_id : ℕ
  pub max_clients : ℕ
  pub recv_timeout_ms : ℕ
  pub keepalive_idle_sec : ℕ
  pub keepalive_interval_sec : ℕ
  pub keepalive_count : ℕ
  pub idle_poll_ms : ℕ

-- `mb_tcp_server_ctx_t`
pub record ServerCtx : Type 0 where
  pub transport : TcpCtx
  pub cfg : ServerSettings

unfoldable pub tcp_server_config_init : Option ServerSettings → Option ServerSettings
tcp_server_config_init none = none
tcp_server_config_init (some cfg) = some record {
  port = 0;
  unit_id = 0;
  max_clients = 0;
  recv_timeout_ms = server_recv_timeout_ms;
  keepalive_idle_sec = 0;
  keepalive_interval_sec = 0;
  keepalive_count = 0;
  idle_poll_ms = 0;
}

-- A transport whose bytes are all zero: its descriptors are 0.
abbrev pub zeroed : TcpCtx
zeroed = record {
  initialized = false;
  keep_running = false;
  tid = 0;
  listen_sock = some 0;
  stream_sock = some 0;
  client_fds = none;
  client_cap = 0;
}

abbrev pub with_defaults : ServerSettings → ServerSettings
with_defaults cfg = record cfg {
  recv_timeout_ms = value_or_default cfg.recv_timeout_ms server_recv_timeout_ms;
}

abbrev pub transport_cfg : ServerSettings → TransportConfig
transport_cfg cfg = record {
  mode = listen_server;
  remote_host = none;
  max_clients = cfg.max_clients;
}

-- The context holds the transport that `mb_tcp_start` left.
abbrev pub with_transport : ServerSettings → ℤ × Option TcpCtx × Held → ℤ × Option ServerCtx × Held
with_transport cfg (rc, none, held) = (rc, none, held)
with_transport cfg (rc, some transport, held) =
    (rc, some record { transport = transport; cfg = cfg }, held)

unfoldable pub tcp_server_start :
    StartAnswers → Option ServerCtx → Option ServerSettings → Held → ℤ × Option ServerCtx × Held
tcp_server_start a none cfg held = (negsuc 0, none, held)
tcp_server_start a (some ctx) none held = (negsuc 0, some ctx, held)
tcp_server_start a (some ctx) (some cfg) held =
    if ctx.transport.initialized
    then (negsuc 0, some ctx, held)
    else with_transport (with_defaults cfg)
        (tcp_start a (some zeroed) (some (transport_cfg cfg)) held)

unfoldable pub tcp_server_stop :
    (TcpCtx × Held → TcpCtx × Held) → Option ServerCtx → Held → Option (Option ServerCtx × Held)
tcp_server_stop joined none held = some (none, held)
tcp_server_stop joined (some ctx) held = elim (tcp_stop joined (some ctx.transport) held) [
  | none ↦ none
  | some (transport, held') ↦ elim transport [
    | none ↦ some (none, held')
    | some transport' ↦ some (some record { transport = transport'; cfg = ctx.cfg }, held')
  ]
]

-- `mb_tcp_client_config_t`, without the timeouts of the socket.
pub record ClientSettings : Type 0 where
  pub remote_host : Option Text
  pub port : ℕ
  pub bind_iface : Option Text
  pub unit_id : ℕ
  pub response_timeout_ms : ℕ

-- `mb_tcp_client_ctx_t`: the descriptor, and the rest, in which the stream stands for it.
pub record Client : Type 0 where
  pub fd : Option ℕ
  pub ctx : ClientCtx

-- What the system holds for a client: its open sockets, and how many mutexes.
pub record ClientHeld : Type 0 where
  pub streams : List ℕ
  pub locks : ℕ

-- A context that was cleared, with its configuration and no socket.
abbrev pub cleared_client : ClientSettings → Client
cleared_client cfg = record {
  fd = none;
  ctx = record {
    initialized = false;
    sock = none;
    tid = 0;
    unit_id = cfg.unit_id;
    response_timeout_ms = cfg.response_timeout_ms;
  };
}

-- After `mb_tcp_connect`, which yields the stream; the context's mutex has been made.
abbrev pub opened_client :
    Socket → ClientSettings → ℕ → ℤ × Option ℕ × List ℕ → ℤ × Client × ClientHeld
opened_client stream cfg locks (rc, none, streams) =
    (negsuc 0, cleared_client cfg, record { streams = streams; locks = locks - 1 })
opened_client stream cfg locks (rc, some fd, streams) =
    if failed rc
    then (negsuc 0, cleared_client cfg, record { streams = streams; locks = locks - 1 })
    else (
      pos 0,
      record {
        fd = some fd;
        ctx = record {
          initialized = true;
          sock = some stream;
          tid = 0;
          unit_id = cfg.unit_id;
          response_timeout_ms = cfg.response_timeout_ms;
        };
      },
      record { streams = streams; locks = locks },
    )

-- The pointers are not null.
unfoldable pub tcp_client_connect :
    Bool → ConnectAnswers → Socket → Client → ClientSettings → ClientHeld → ℤ × Client × ClientHeld
tcp_client_connect lock_made a stream client cfg held =
    if is_unset cfg.remote_host || cfg.port == 0
    then (negsuc 0, client, held)
    else if client.ctx.initialized
    then (negsuc 0, client, held)
    else if not lock_made
    then (negsuc 0, cleared_client cfg, held)
    else opened_client stream cfg (held.locks + 1)
        (tcp_connect a none cfg.bind_iface cfg.remote_host cfg.port held.streams)

-- `mb_tcp_close` in a transaction: where its context has no stream any more, the socket was closed.
unfoldable pub after_transaction : Transaction → Client → ClientHeld → Client × ClientHeld
after_transaction t client held = elim t.ctx.sock [
  | some stream ↦ (record { fd = client.fd; ctx = t.ctx }, held)
  | none ↦ (
    record { fd = none; ctx = t.ctx },
    record held { streams = close_open client.fd held.streams },
  )
]

unfoldable pub tcp_client_disconnect : Client → ClientHeld → Client × ClientHeld
tcp_client_disconnect client held = if not client.ctx.initialized then (client, held) else (
  record { fd = none; ctx = record client.ctx { initialized = false; sock = none } },
  record { streams = close_open client.fd held.streams; locks = held.locks - 1 },
)

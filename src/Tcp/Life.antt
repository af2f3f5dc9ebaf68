-- ===== src/Tcp/Life.antt =====
-- The life of a context of src/modbus_tcp.c: mb_tcp_start with mb_tcp_listen_init, and mb_tcp_stop.
--
-- The answers of the system are parameters. What a thread does until `pthread_join` returns is one
-- too; the calls of `shutdown`, which make it end, have no effect on the state.
pub mod Starts
pub mod Released
use modbus_protocol.Prelude.{
  ℕ, ℤ, pos, negsuc, zero, suc, ◌+◌, ◌-◌, Bool, true, false, not, ◌&&◌, ◌||◌, Option, none, some,
  List, [], ◌∷◌, failed, ◌==◌, if◌then◌else◌, Text,
}
use modbus_protocol.Tcp.Thread.{close_fd}
use modbus_protocol.Tcp.Connect.{
  ConnectAnswers, ConnectCall, close_open, connect_error, connect_socket, connects_now, in_progress,
  is_connected, is_unset, tcp_connect,
}

-- `mb_tcp_mode_t`
pub data TcpMode : Type 0 where
  listen_server : TcpMode
  connect_client : TcpMode

-- `mb_tcp_config_t`, as far as the start and its failures depend on it.
pub record TransportConfig : Type 0 where
  pub mode : TcpMode
  pub remote_host : Option Text
  pub max_clients : ℕ

-- `mb_tcp_ctx_t`, without its thread, its lock and its configuration; `client_fds` is a pointer to an array of the heap, or null.
pub record TcpCtx : Type 0 where
  pub initialized : Bool
  pub keep_running : Bool
  pub tid : ℕ
  pub listen_sock : Option ℕ
  pub stream_sock : Option ℕ
  pub client_fds : Option (List (Option ℕ))
  pub client_cap : ℕ

-- What the system holds for the context: its open sockets, those of its clients or its server apart
-- from the one that listens, and how many blocks, mutexes and threads it has.
pub record Held : Type 0 where
  pub listening : List ℕ
  pub streams : List ℕ
  pub blocks : ℕ
  pub locks : ℕ
  pub threads : ℕ

-- What the system answers to a start: `malloc`, `pthread_mutex_init`, `socket`, the two calls on it,
-- `listen`, and `pthread_create`.
pub record StartAnswers : Type 0 where
  pub allocated : Bool
  pub lock_made : Bool
  pub socket : Option ℕ
  pub reuse_set : Bool
  pub bound : Bool
  pub listens : Bool
  pub thread_made : Bool

-- `MB_TCP_DEFAULT_MAX_CLIENTS`
abbrev pub default_max_clients : ℕ
default_max_clients = 10

unfoldable pub value_or_default : ℕ → ℕ → ℕ
value_or_default value default_value = if not (value == 0) then value else default_value

-- The result, `listen_sock`, and the listening sockets.
unfoldable pub tcp_listen_init : StartAnswers → List ℕ → ℤ × Option ℕ × List ℕ
tcp_listen_init a listening = elim a.socket [
  | none ↦ (negsuc 0, none, listening)
  | some fd ↦
      let opened = fd ∷ listening in
      if not a.reuse_set
      then (negsuc 0, none, close_fd fd opened)
      else if not a.bound
      then (negsuc 0, none, close_fd fd opened)
      else if not a.listens
      then (negsuc 0, none, close_fd fd opened)
      else (pos 0, some fd, opened)
]

-- The slots, all free.
unfoldable pub free_slots : ℕ → List (Option ℕ)
free_slots zero = []
free_slots (suc n) = none ∷ free_slots n

-- A context that was cleared, is to run, and has no sockets yet.
abbrev pub bare_ctx : Option (List (Option ℕ)) → ℕ → TcpCtx
bare_ctx slots cap = record {
  initialized = false;
  keep_running = true;
  tid = 0;
  listen_sock = none;
  stream_sock = none;
  client_fds = slots;
  client_cap = cap;
}

-- The rest of a server's start, with the result of `mb_tcp_listen_init`.
unfoldable pub begin_listening : StartAnswers → ℕ → ℤ × Option ℕ × List ℕ → Held → ℤ × TcpCtx × Held
begin_listening a cap (rc, sock, listening) held =
    if failed rc || not a.thread_made
    then (
      negsuc 0,
      bare_ctx none cap,
      record held {
        listening = close_open sock listening;
        blocks = held.blocks - 1;
        locks = held.locks - 1;
      },
    )
    else (
      pos 0,
      record (bare_ctx (some (free_slots cap)) cap) { initialized = true; listen_sock = sock },
      record held { listening = listening; threads = held.threads + 1 },
    )

unfoldable pub start_server : StartAnswers → ℕ → Held → ℤ × TcpCtx × Held
start_server a cap held =
    let with_block = record held { blocks = held.blocks + 1 } in
    if not a.allocated
    then (negsuc 0, bare_ctx none cap, held)
    else if not a.lock_made
    then (negsuc 0, bare_ctx none cap, record with_block { blocks = with_block.blocks - 1 })
    else begin_listening a cap (tcp_listen_init a held.listening)
        record with_block { locks = held.locks + 1 }

unfoldable pub start_client : StartAnswers → Held → ℤ × TcpCtx × Held
start_client a held =
    let with_lock = record held { locks = held.locks + 1 } in
    if not a.lock_made
    then (negsuc 0, bare_ctx none 0, held)
    else if not a.thread_made
    then (negsuc 0, bare_ctx none 0, record with_lock { locks = with_lock.locks - 1 })
    else (
      pos 0,
      record (bare_ctx none 0) { initialized = true },
      record with_lock { threads = held.threads + 1 },
    )

abbrev pub is_client : TcpMode → Bool
is_client listen_server = false
is_client connect_client = true

unfoldable pub start_ctx : StartAnswers → TcpCtx → TransportConfig → Held → ℤ × TcpCtx × Held
start_ctx a ctx cfg held =
    if is_client cfg.mode && is_unset cfg.remote_host
    then (negsuc 0, ctx, held)
    else if ctx.initialized
    then (negsuc 0, ctx, held)
    else elim cfg.mode [
      | listen_server ↦ start_server a (value_or_default cfg.max_clients default_max_clients) held
      | connect_client ↦ start_client a held
    ]

abbrev pub behind_pointer : ℤ × TcpCtx × Held → ℤ × Option TcpCtx × Held
behind_pointer (rc, ctx, held) = (rc, some ctx, held)

unfoldable pub tcp_start :
    StartAnswers → Option TcpCtx → Option TransportConfig → Held → ℤ × Option TcpCtx × Held
tcp_start a none cfg held = (negsuc 0, none, held)
tcp_start a (some ctx) none held = (negsuc 0, some ctx, held)
tcp_start a (some ctx) (some cfg) held = behind_pointer (start_ctx a ctx cfg held)

-- The loop that closes the clients' sockets; `none` is an access out of the array.
unfoldable pub close_clients : ℕ → List (Option ℕ) → List ℕ → Option (List ℕ)
close_clients zero slots opens = some opens
close_clients (suc n) [] opens = none
close_clients (suc n) (slot ∷ rest) opens = close_clients n rest (close_open slot opens)

-- A null pointer stands for no array.
abbrev pub array_of : Option (List (Option ℕ)) → List (Option ℕ)
array_of none = []
array_of (some slots) = slots

-- `free`, which leaves a null pointer alone.
abbrev pub freed : Option (List (Option ℕ)) → ℕ → ℕ
freed none blocks = blocks
freed (some slots) blocks = blocks - 1

-- After the thread has been joined.
unfoldable pub release : TcpCtx → Held → Option (TcpCtx × Held)
release ctx held = elim (close_clients ctx.client_cap (array_of ctx.client_fds) held.streams) [
  | none ↦ none
  | some streams ↦ some (
    record ctx {
      initialized = false;
      listen_sock = none;
      stream_sock = none;
      client_fds = none;
      client_cap = 0;
    },
    record {
      listening = close_open ctx.listen_sock held.listening;
      streams = close_open ctx.stream_sock streams;
      blocks = freed ctx.client_fds held.blocks;
      locks = held.locks - 1;
      threads = held.threads - 1;
    },
  )
]

-- `joined` is what the thread does until it has ended, once `keep_running` is 0; the outer `none` is
-- an access out of an array.
unfoldable pub tcp_stop :
    (TcpCtx × Held → TcpCtx × Held) → Option TcpCtx → Held → Option (Option TcpCtx × Held)
tcp_stop joined none held = some (none, held)
tcp_stop joined (some ctx) held =
    let after = joined (record ctx { keep_running = false }, held) in
    if not ctx.initialized then some (some ctx, held) else elim (release after.0 after.1) [
      | none ↦ none
      | some (ctx', held') ↦ some (some ctx', held')
    ]

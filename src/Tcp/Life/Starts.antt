-- ===== src/Tcp/Life/Starts.antt =====
-- How a start of src/modbus_tcp.c ends, and that a start or a connect that fails releases all that it took.
use modbus_protocol.Prelude.{
  ℕ, ℤ, pos, negsuc, ◌+◌, ◌-◌, ◌≡◌, ◌≢◌, refl, ◌⊎◌, inl, inr, arith, true, false, not, ◌&&◌, ◌||◌,
  Option, none, some, List, ◌∷◌, ◌==◌, if_cases, option_cases, Text,
}
use modbus_protocol.Tcp.Thread.{close_fd}
use modbus_protocol.Tcp.Life.{
  TcpMode, listen_server, connect_client, TransportConfig, TcpCtx, Held, StartAnswers,
  value_or_default, default_max_clients, tcp_listen_init, free_slots, bare_ctx, begin_listening,
  start_server, start_client, is_client, start_ctx, tcp_start,
}
use modbus_protocol.Tcp.Connect.{
  is_unset, ConnectAnswers, connect_socket, is_connected, tcp_connect,
}

-- A socket that was just opened is closed.
pub close_fd-first : (fd : ℕ) (opens : List ℕ) → close_fd fd (fd ∷ opens) ≡ opens
unfolding close_fd
close_fd-first fd opens = let own : (fd == fd) ≡ true = ground arith in rw own refl

abbrev pub serving_ctx : ℕ → ℕ → TcpCtx
serving_ctx cap fd = record (bare_ctx (some (free_slots cap)) cap) {
  initialized = true;
  listen_sock = some fd;
}

abbrev pub serving_held : ℕ → Held → Held
serving_held fd held = record {
  listening = fd ∷ held.listening;
  streams = held.streams;
  blocks = held.blocks + 1;
  locks = held.locks + 1;
  threads = held.threads + 1;
}

abbrev pub calling_ctx : TcpCtx
calling_ctx = record (bare_ctx none 0) { initialized = true }

abbrev pub calling_held : Held → Held
calling_held held = record held { locks = held.locks + 1; threads = held.threads + 1 }

-- A start is refused, or it fails, or the thread of a server or of a client runs.
pub data Starts (mode : TcpMode) (ctx : TcpCtx) (held : Held) : ℤ × TcpCtx × Held → Type 0 where
  refused : Starts mode ctx held (negsuc 0, ctx, held)
  fails : (cap : ℕ) → Starts mode ctx held (negsuc 0, bare_ctx none cap, held)
  serving :
      (cap fd : ℕ)
      → mode ≡ listen_server
      → Starts mode ctx held (pos 0, serving_ctx cap fd, serving_held fd held)
  calling : mode ≡ connect_client → Starts mode ctx held (pos 0, calling_ctx, calling_held held)

-- `mb_tcp_listen_init` yields a listening socket, or leaves none open.
pub data Listens (listening : List ℕ) : ℤ × Option ℕ × List ℕ → Type 0 where
  no_socket : Listens listening (negsuc 0, none, listening)
  listens : (fd : ℕ) → Listens listening (pos 0, some fd, fd ∷ listening)

pub tcp_listen_init-Listens :
    (a : StartAnswers) (listening : List ℕ) → Listens listening (tcp_listen_init a listening)
unfolding tcp_listen_init
tcp_listen_init-Listens a listening =
    option_cases (Listens listening) a.socket (λ _. no_socket)
      λ fd _.
        let closed : Listens listening (negsuc 0, none, close_fd fd (fd ∷ listening)) =
          rw (close_fd-first fd listening) no_socket in
        if_cases (Listens listening) (not a.reuse_set) (λ _. closed)
          λ _.
            if_cases (Listens listening) (not a.bound) (λ _. closed)
              λ _. if_cases (Listens listening) (not a.listens) (λ _. closed) (λ _. listens fd)

module _ (a : StartAnswers) (ctx : TcpCtx) (held : Held) where
  begin_listening-Starts :
      (mode : TcpMode) (cap : ℕ) (r : ℤ × Option ℕ × List ℕ)
      → mode ≡ listen_server
      → Listens held.listening r
      → Starts mode ctx held
          (begin_listening a cap r record held { blocks = held.blocks + 1; locks = held.locks + 1 })
  unfolding begin_listening
  begin_listening-Starts mode cap _ server no_socket =
      let blocks : held.blocks + 1 - 1 ≡ held.blocks = omega arith in
      let locks : held.locks + 1 - 1 ≡ held.locks = omega arith in rw (blocks, locks) (fails cap)
  begin_listening-Starts mode cap _ server (listens fd) =
      if_cases (Starts mode ctx held) (not a.thread_made)
        (λ _.
          let blocks : held.blocks + 1 - 1 ≡ held.blocks = omega arith in
          let locks : held.locks + 1 - 1 ≡ held.locks = omega arith in
          rw (blocks, locks, close_fd-first fd held.listening) (fails cap))
        (λ _. serving cap fd server)

  start_server-Starts :
      (mode : TcpMode) (cap : ℕ)
      → mode ≡ listen_server
      → Starts mode ctx held (start_server a cap held)
  unfolding start_server
  start_server-Starts mode cap server =
      if_cases (Starts mode ctx held) (not a.allocated) (λ _. fails cap)
        λ _.
          if_cases (Starts mode ctx held) (not a.lock_made)
            (λ _.
              let blocks : held.blocks + 1 - 1 ≡ held.blocks = omega arith in rw blocks (fails cap))
            (λ _.
              begin_listening-Starts mode cap _ server (tcp_listen_init-Listens a held.listening))

  start_client-Starts :
      (mode : TcpMode) → mode ≡ connect_client → Starts mode ctx held (start_client a held)
  unfolding start_client
  start_client-Starts mode client =
      if_cases (Starts mode ctx held) (not a.lock_made) (λ _. fails 0)
        λ _.
          if_cases (Starts mode ctx held) (not a.thread_made)
            (λ _. let locks : held.locks + 1 - 1 ≡ held.locks = omega arith in rw locks (fails 0))
            (λ _. calling client)

  pub start_ctx-Starts :
      (cfg : TransportConfig) → Starts cfg.mode ctx held (start_ctx a ctx cfg held)
  unfolding start_ctx
  start_ctx-Starts cfg =
      if_cases (Starts cfg.mode ctx held) (is_client cfg.mode && is_unset cfg.remote_host)
        (λ _. refused)
        λ _.
          if_cases (Starts cfg.mode ctx held) ctx.initialized (λ _. refused) λ _. by_mode cfg.mode
    where
      by_mode :
          (mode : TcpMode)
          → Starts mode ctx held (elim mode [
            | listen_server ↦
                start_server a (value_or_default cfg.max_clients default_max_clients) held
            | connect_client ↦ start_client a held
          ])
      by_mode listen_server =
          start_server-Starts listen_server (value_or_default cfg.max_clients default_max_clients)
            refl
      by_mode connect_client = start_client-Starts connect_client refl

-- A start that does not return 0 leaves nothing behind: what the system holds for the context is as
-- it was, and so is the context, or it is not initialized, so that a stop leaves it alone.
pub tcp_start_failed :
    (a : StartAnswers) (ctx : TcpCtx) (cfg : TransportConfig) (held : Held)
    → let r = tcp_start a (some ctx) (some cfg) held in
      r.0 ≢ pos 0
      → (r.2 ≡ held)
        × ((r.1 ≡ some ctx) ⊎ (after : TcpCtx) × (r.1 ≡ some after) × (after.initialized ≡ false))
unfolding tcp_start
tcp_start_failed a ctx cfg held = failing _ (start_ctx-Starts a ctx held cfg)
  where
    failing :
        (r : ℤ × TcpCtx × Held)
        → Starts cfg.mode ctx held r
        → r.0 ≢ pos 0
        → (r.2 ≡ held)
          × ((some r.1 ≡ some ctx)
              ⊎ (after : TcpCtx) × (some r.1 ≡ some after) × (after.initialized ≡ false))
    failing _ refused bad = (refl, inl refl)
    failing _ (fails cap) bad = (refl, inr (bare_ctx none cap, refl, refl))
    failing _ (serving cap fd server) bad = absurd (bad refl)
    failing _ (calling client) bad = absurd (bad refl)

-- What a connect comes to: one more socket that is open and is handed out, or none.
pub data Connects (sock_out : Option ℕ) (streams : List ℕ) : ℤ × Option ℕ × List ℕ → Type 0 where
  bad_argument : Connects sock_out streams (negsuc 21, sock_out, streams)
  no_connection : Connects sock_out streams (negsuc 0, none, streams)
  connection : (fd : ℕ) → Connects sock_out streams (pos 0, some fd, fd ∷ streams)

-- Whatever the system answers, `mb_tcp_connect` either returns 0 with exactly one more open socket,
-- which it hands out; or fails with -1, hands out none, and leaves no more open than before; or is
-- refused with -EINVAL, and changes nothing.
pub tcp_connect-Connects :
    (a : ConnectAnswers) (sock_out : Option ℕ) (bind_iface remote_host : Option Text) (port : ℕ)
    (streams : List ℕ)
    → Connects sock_out streams (tcp_connect a sock_out bind_iface remote_host port streams)
unfolding tcp_connect connect_socket
tcp_connect-Connects a sock_out bind_iface remote_host port streams =
    if_cases C (is_unset remote_host || port == 0) (λ _. bad_argument)
      λ _.
        option_cases C a.socket (λ _. no_connection)
          λ fd _.
            let closed : C (negsuc 0, none, close_fd fd (fd ∷ streams)) =
              rw (close_fd-first fd streams) no_connection in
            if_cases C (not a.send_timeout_set) (λ _. closed)
              λ _.
                if_cases C (not a.recv_timeout_set) (λ _. closed)
                  λ _.
                    if_cases C (not (is_unset bind_iface) && not a.device_bound) (λ _. closed)
                      λ _.
                        if_cases C (not a.reuse_set) (λ _. closed)
                          λ _.
                            if_cases C (not a.is_address) (λ _. closed)
                              λ _.
                                if_cases C (not (is_connected a.connected)) (λ _. closed)
                                  (λ _. connection fd)
  where
    C : ℤ × Option ℕ × List ℕ → Type 0
    C = Connects sock_out streams

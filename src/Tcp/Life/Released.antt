-- ===== src/Tcp/Life/Released.antt =====
-- A context of src/modbus_tcp.c that is started, runs and is stopped holds nothing afterwards.
use modbus_protocol.Prelude.{
  ℕ, ℤ, pos, zero, suc, ◌+◌, ◌-◌, ◌≡◌, refl, ap, ◌∙◌, arith, false, Option, none, some, List, [],
  ◌∷◌, length,
}
use modbus_protocol.Tcp.Thread.{
  close_fd, Clients, Round, server_thread, Stream, Attempt, client_thread,
}
use modbus_protocol.Tcp.Thread.Table.{opened, slots, told, opened-close_fd}
use modbus_protocol.Tcp.Thread.Runs.{Agrees, ObeysAll, server_thread-Agrees}
use modbus_protocol.Tcp.Thread.Streams.{sockets, Holds, close_fd-own, client_thread-Told}
use modbus_protocol.Tcp.Life.{
  TcpMode, listen_server, connect_client, TransportConfig, TcpCtx, Held, StartAnswers, free_slots,
  close_clients, array_of, bare_ctx, release, start_ctx, tcp_start, tcp_stop,
}
use modbus_protocol.Tcp.Connect.{close_open}
use modbus_protocol.Tcp.Life.Starts.{
  Starts, refused, fails, serving, calling, close_fd-first, serving_ctx, serving_held, calling_ctx,
  calling_held, start_ctx-Starts,
}

-- The threads, on the context and what the system holds for it.
abbrev pub table_of : TcpCtx → Held → Clients
table_of ctx held = record {
  client_fds = array_of ctx.client_fds;
  open_fds = held.streams;
  log = [];
}

abbrev stream_of : TcpCtx → Held → Stream
stream_of ctx held = record { stream_sock = ctx.stream_sock; open_fds = held.streams; log = [] }

abbrev serve : List Round → TcpCtx × Held → TcpCtx × Held
serve rounds (ctx, held) =
    let c = server_thread rounds (table_of ctx held) in
    (record ctx { client_fds = some c.client_fds }, record held { streams = c.open_fds })

abbrev converse : List Attempt → TcpCtx × Held → TcpCtx × Held
converse attempts (ctx, held) =
    let s = client_thread attempts (stream_of ctx held) in
    (record ctx { stream_sock = s.stream_sock }, record held { streams = s.open_fds })

abbrev pub runs : TcpMode → List Round → List Attempt → TcpCtx × Held → TcpCtx × Held
runs listen_server rounds attempts state = serve rounds state
runs connect_client rounds attempts state = converse attempts state

-- A list in which no socket is open is empty.
none_open : (opens : List ℕ) → ((fd : ℕ) → opened fd opens ≡ 0) → opens ≡ []
unfolding opened
none_open [] zeros = refl
none_open (p ∷ rest) zeros = let z = zeros p in absurd (ground arith)

-- The loop closes each slot's socket.
close_clients_lem :
    (table : List (Option ℕ)) (opens : List ℕ)
    → (closed : List ℕ) × (close_clients (length table) table opens ≡ some closed)
      × ((fd : ℕ) → opened fd closed ≡ opened fd opens - slots fd table)
unfolding close_clients slots
close_clients_lem [] opens = (opens, refl, λ fd. omega arith)
close_clients_lem (none ∷ rest) opens = close_clients_lem rest opens
close_clients_lem (some sd ∷ rest) opens =
    let (closed, ran, count) = close_clients_lem rest (close_fd sd opens) in
    (closed, ran, λ fd. count fd ∙ (let c = opened-close_fd fd sd opens in ground arith))

close_clients-all :
    (cap : ℕ) (c : Clients) → Agrees cap c → close_clients cap c.client_fds c.open_fds ≡ some []
close_clients-all cap c v =
    let (closed, ran, count) = close_clients_lem c.client_fds c.open_fds in
    let none_left : closed ≡ [] =
      none_open closed (λ fd. let n = count fd in let p = v.placed fd in omega arith) in
    rw (← v.size) (ran ∙ ap some none_left)

free_slots-Agrees :
    (cap : ℕ) → Agrees cap record { client_fds = free_slots cap; open_fds = []; log = [] }
unfolding opened slots free_slots
free_slots-Agrees cap = record {
  once = λ fd. unfold opened in omega arith;
  placed = λ fd. no_slots fd cap;
  reported = λ fd. unfold opened told in refl;
  size = size cap;
}
  where
    no_slots : (fd n : ℕ) → slots fd (free_slots n) ≡ opened fd []
    no_slots fd zero = refl
    no_slots fd (suc n) = no_slots fd n

    size : (n : ℕ) → length (free_slots n) ≡ n
    size zero = refl
    size (suc n) = ap suc (size n)

-- After a stop, the context is not initialized, and the system holds what it held before the start.
pub record Released (before : Held) (r : Option (Option TcpCtx × Held)) : Type 0 where
  pub ctx : TcpCtx
  pub stopped : r ≡ some (some ctx, before)
  pub off : ctx.initialized ≡ false

module _ (held : Held) (rounds : List Round) (attempts : List Attempt)
    (nothing : held.streams ≡ []) where
  serving-Released :
      (cap fd : ℕ)
      → ObeysAll rounds (table_of (serving_ctx cap fd) (serving_held fd held))
      → Released held (tcp_stop (serve rounds) (some (serving_ctx cap fd)) (serving_held fd held))
  unfolding tcp_stop release
  serving-Released cap fd obeys =
      let start : Agrees cap (table_of (serving_ctx cap fd) (serving_held fd held)) =
        rw nothing (free_slots-Agrees cap) in
      let c = server_thread rounds (table_of (serving_ctx cap fd) (serving_held fd held)) in
      let all_closed = close_clients-all cap c (server_thread-Agrees cap rounds _ start obeys) in
      let blocks : held.blocks + 1 - 1 ≡ held.blocks = omega arith in
      let locks : held.locks + 1 - 1 ≡ held.locks = omega arith in
      let threads : held.threads + 1 - 1 ≡ held.threads = omega arith in
      rw (all_closed, blocks, locks, threads, close_fd-first fd held.listening)
        record {
          ctx = record (bare_ctx none 0) { keep_running = false };
          stopped = rw (← nothing) refl;
          off = refl;
        }

  calling-Released :
      Released held (tcp_stop (converse attempts) (some calling_ctx) (calling_held held))
  unfolding tcp_stop release close_clients
  calling-Released =
      let s = client_thread attempts (stream_of calling_ctx (calling_held held)) in
      let start : Holds (stream_of calling_ctx (calling_held held)) = record {
        open_fds = nothing;
        reported = λ fd. unfold told opened in refl;
      } in
      let one_left = (client_thread-Told attempts _ start).0 in
      let locks : held.locks + 1 - 1 ≡ held.locks = omega arith in
      let threads : held.threads + 1 - 1 ≡ held.threads = omega arith in
      rw (one_left, closed s.stream_sock, locks, threads)
        record {
          ctx = record (bare_ctx none 0) { keep_running = false };
          stopped = rw (← nothing) refl;
          off = refl;
        }
    where
      closed : (o : Option ℕ) → close_open o (sockets o) ≡ []
      closed none = refl
      closed (some sock) = close_fd-own sock

  by_start :
      (mode : TcpMode) (ctx : TcpCtx) (r : ℤ × TcpCtx × Held)
      → Starts mode ctx held r
      → r.0 ≡ pos 0
      → ObeysAll rounds (table_of r.1 r.2)
      → Released held (tcp_stop (runs mode rounds attempts) (some r.1) r.2)
  by_start mode ctx _ refused ok obeys = absurd (ground arith)
  by_start mode ctx _ (fails slots) ok obeys = absurd (ground arith)
  by_start mode ctx _ (serving slots fd server) ok obeys =
      rw server (serving-Released slots fd obeys)
  by_start mode ctx _ (calling client) ok obeys = rw client calling-Released

-- Where the system holds no socket of clients or servers for the context: if a start returns 0, the
-- thread then runs any rounds, in which `accept`, if it yields a socket, yields one that is not open,
-- and the context is stopped, then the system holds exactly what it held before, no array is
-- accessed out of its bounds, and the context is not initialized.
pub tcp_stop-Released :
    (a : StartAnswers) (ctx started : TcpCtx) (cfg : TransportConfig) (held running : Held)
    (rounds : List Round) (attempts : List Attempt)
    → held.streams ≡ []
    → tcp_start a (some ctx) (some cfg) held ≡ (pos 0, some started, running)
    → ObeysAll rounds (table_of started running)
    → Released held (tcp_stop (runs cfg.mode rounds attempts) (some started) running)
unfolding tcp_start
tcp_stop-Released a ctx started cfg held running rounds attempts nothing begun obeys =
    let r = start_ctx a ctx cfg held in
    let ok : r.0 ≡ pos 0 = ap (λ (q : ℤ × Option TcpCtx × Held). q.0) begun in
    let same : some r.1 ≡ some started = ap (λ (q : ℤ × Option TcpCtx × Held). q.1) begun in
    let same_ctx : r.1 ≡ started = cc same in
    let same_held : r.2 ≡ running = ap (λ (q : ℤ × Option TcpCtx × Held). q.2) begun in
    rw (← same_ctx, ← same_held)
      (by_start held rounds attempts nothing cfg.mode ctx r (start_ctx-Starts a ctx held cfg) ok
        (rw (same_ctx, same_held) obeys))

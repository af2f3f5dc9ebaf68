-- ===== src/Tcp/Endpoints/Servers.antt =====
-- The life of a TCP server of src/modbus_tcp_server.c: what it holds at its end.
use modbus_protocol.Prelude.{ℤ, pos, ◌≡◌, refl, ap, false, Option, none, some, List, [], if_cases}
use modbus_protocol.Tcp.Thread.{Round, Attempt}
use modbus_protocol.Tcp.Thread.Runs.{ObeysAll}
use modbus_protocol.Tcp.Life.{listen_server, TcpCtx, Held, StartAnswers}
use modbus_protocol.Tcp.Life.Released.{runs, table_of, tcp_stop-Released}
use modbus_protocol.Tcp.Endpoints.{
  ServerSettings, ServerCtx, transport_cfg, with_transport, zeroed, tcp_server_start,
  tcp_server_stop,
}

-- A start of the server that returns 0 has started its transport.
with_transport_lem :
    (cfg : ServerSettings) (started : ServerCtx) (running : Held) (r : ℤ × Option TcpCtx × Held)
    → with_transport cfg r ≡ (pos 0, some started, running)
    → r ≡ (pos 0, some started.transport, running)
with_transport_lem cfg started running (rc, none, held) e =
    let missing : none ≡ some started = ap (λ (q : ℤ × Option ServerCtx × Held). q.1) e in
    absurd (cc missing)
with_transport_lem cfg started running (rc, some transport, held) e =
    let ok : rc ≡ pos 0 = ap (λ (q : ℤ × Option ServerCtx × Held). q.0) e in
    let found = ap (λ (q : ℤ × Option ServerCtx × Held). q.1) e in
    let same_ctx : record { transport = transport; cfg = cfg } ≡ started = cc found in
    let same : transport ≡ started.transport = ap (λ (c : ServerCtx). c.transport) same_ctx in
    let same_held : held ≡ running = ap (λ (q : ℤ × Option ServerCtx × Held). q.2) e in
    rw (ok, same, same_held) refl

-- Where the system holds no socket of clients for the context: if a start of a TCP server returns 0,
-- its thread then runs any rounds, in which `accept`, if it yields a socket, yields one that is not
-- open, and the server is stopped, then the system holds exactly what it held before, and the
-- transport is not initialized.
pub tcp_server_stop-Released :
    (a : StartAnswers) (ctx started : ServerCtx) (cfg : ServerSettings) (held running : Held)
    (rounds : List Round) (attempts : List Attempt)
    → held.streams ≡ []
    → tcp_server_start a (some ctx) (some cfg) held ≡ (pos 0, some started, running)
    → ObeysAll rounds (table_of started.transport running)
    → (after : ServerCtx) × (tcp_server_stop
          (runs listen_server rounds attempts)
          (some started)
          running
        ≡ some (some after, held))
      × (after.transport.initialized ≡ false)
unfolding tcp_server_start tcp_server_stop
tcp_server_stop-Released a ctx started cfg held running rounds attempts nothing begun obeys =
    if_cases P ctx.transport.initialized
      (λ _ failed_start. absurd (cc (ap (λ (q : ℤ × Option ServerCtx × Held). q.0) failed_start)))
      (λ _ transport_start.
        let r =
          tcp_stop-Released a zeroed started.transport (transport_cfg cfg) held running rounds
            attempts nothing (with_transport_lem _ started running _ transport_start) obeys in
        (
          record { transport = r.ctx; cfg = started.cfg },
          rw (tcp_server_stop, r.stopped) refl,
          r.off,
        ))
      begun
  where
    P : ℤ × Option ServerCtx × Held → Type 0
    P q =
        q ≡ (pos 0, some started, running)
        → (after : ServerCtx) × (tcp_server_stop (runs listen_server rounds attempts) (some started)
              running
            ≡ some (some after, held))
          × (after.transport.initialized ≡ false)

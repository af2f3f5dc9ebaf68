-- ===== src/Tcp/Tests/Threads.antt =====
-- A server of src/modbus_tcp.c with two slots, and a client, from their start to their stop.
use modbus_protocol.Prelude.{
  ℕ, ℤ, pos, ◌+◌, ◌≡◌, ◌≢◌, ◌⊎◌, refl, arith, true, false, ◌&&◌, Option, some, none, List, [], ◌∷◌,
  leb, ltb, ◌==◌, if◌then◌else◌,
}
use modbus_protocol.Tcp.Thread.{
  close_fd, Clients, Round, idle, active, Stream, Attempt, drop_where, place, process_clients,
  admit_client, server_round, server_thread, client_thread, fd_setsize,
}
use modbus_protocol.Tcp.Thread.Table.{opened, slots, told, free}
use modbus_protocol.Tcp.Thread.Runs.{
  Agrees, Obeys, ObeysAll, server_thread-Agrees, slots-admit_client,
}
use modbus_protocol.Tcp.Thread.Streams.{sockets, client_thread-Told}
use modbus_protocol.Tcp.Life.{
  listen_server, TransportConfig, TcpCtx, Held, StartAnswers, value_or_default, tcp_listen_init,
  free_slots, bare_ctx, begin_listening, start_server, start_ctx, tcp_start, tcp_stop,
}
use modbus_protocol.Tcp.Life.Starts.{serving_ctx, serving_held, tcp_start_failed}
use modbus_protocol.Tcp.Life.Released.{Released, runs, table_of, tcp_stop-Released}

abbrev quiet : Round
quiet = record {
  activity = idle;
  gone = λ fd. false;
  listening = false;
  accepted = none;
  readable = λ fd. false;
  fails = λ fd. false;
}

abbrev accepts : ℕ → Round
accepts fd = record quiet { activity = active; listening = true; accepted = some fd }

-- Clients 7, 8 and 9 connect, of which the third finds no slot; then the processing of 7 fails.
abbrev failing : Round
failing = record quiet { activity = active; readable = λ fd. true; fails = λ fd. fd == 7 }

abbrev rounds : List Round
rounds = accepts 7 ∷ accepts 8 ∷ quiet ∷ accepts 9 ∷ failing ∷ []

abbrev two_slots : Clients
two_slots = record { client_fds = none ∷ none ∷ []; open_fds = []; log = [] }

abbrev one_taken : Clients
one_taken = server_round (accepts 7) two_slots

abbrev full : Clients
full = server_round (accepts 8) one_taken

two_slots-Agrees : Agrees 2 two_slots
two_slots-Agrees = record {
  once = λ fd. unfold opened in omega arith;
  placed = λ fd. unfold slots opened in refl;
  reported = λ fd. unfold told opened in refl;
  size = refl;
}

fresh_only : (fd : ℕ) (c : Clients) → opened fd c.open_fds ≡ 0 → Obeys (accepts fd) c
fresh_only fd c new g e = let same : fd ≡ g = cc e in rw (← same) new

none_accepted : (r : Round) (c : Clients) → r.accepted ≡ none → Obeys r c
none_accepted r c nobody g e = absurd (cc (nobody, e))

rounds-ObeysAll : ObeysAll rounds two_slots
unfolding opened server_round admit_client process_clients place drop_where close_fd
rounds-ObeysAll = (
  fresh_only 7 two_slots refl,
  (
    fresh_only 8 one_taken refl,
    (
      none_accepted quiet full refl,
      (
        fresh_only 9 (server_round quiet full) refl,
        (none_accepted failing (server_round (accepts 9) (server_round quiet full)) refl, tt),
      ),
    ),
  ),
)

one_left : (server_thread rounds two_slots).client_fds ≡ none ∷ some 8 ∷ []
unfolding server_thread server_round admit_client process_clients place drop_where close_fd
one_left = refl

server_thread-Agrees_example : Agrees 2 (server_thread rounds two_slots)
server_thread-Agrees_example =
    server_thread-Agrees 2 rounds two_slots two_slots-Agrees rounds-ObeysAll

slots-admit_client_example : slots 7 (admit_client (accepts 7) 7 two_slots).client_fds ≡ (
    if ltb 7 fd_setsize && leb 1 (free two_slots.client_fds)
    then (if false && false then 0 else (if 7 == 7 then 1 else 0) + slots 7 two_slots.client_fds)
    else slots 7 two_slots.client_fds)
slots-admit_client_example = slots-admit_client (accepts 7) 7 two_slots 7

-- The first connection fails in the second round; the second one stays.
abbrev attempts : List Attempt
attempts =
    record { connects = some 5; fails = false }
    ∷ record { connects = none; fails = true }
    ∷ record { connects = some 6; fails = false }
    ∷ []

abbrev unconnected : Stream
unconnected = record { stream_sock = none; open_fds = []; log = [] }

client_thread-Told_example :
    ((client_thread attempts unconnected).open_fds
      ≡ sockets (client_thread attempts unconnected).stream_sock)
    × ((fd : ℕ) → told fd (client_thread attempts unconnected).log ≡ 0)
client_thread-Told_example =
    client_thread-Told attempts unconnected
      record { open_fds = refl; reported = λ fd. unfold told opened in refl }

abbrev transport : TransportConfig
transport = record { mode = listen_server; remote_host = none; max_clients = 2 }

abbrev cleared : TcpCtx
cleared = record (bare_ctx none 0) { keep_running = false }

abbrev nothing : Held
nothing = record { listening = []; streams = []; blocks = 0; locks = 0; threads = 0 }

abbrev all_well : StartAnswers
all_well = record {
  allocated = true;
  lock_made = true;
  socket = some 3;
  reuse_set = true;
  bound = true;
  listens = true;
  thread_made = true;
}

-- The port is in use.
abbrev port_taken : StartAnswers
port_taken = record all_well { bound = false }

started_lem :
    tcp_start all_well (some cleared) (some transport) nothing
    ≡ (pos 0, some (serving_ctx 2 3), serving_held 3 nothing)
unfolding tcp_start start_ctx value_or_default start_server tcp_listen_init begin_listening
started_lem = refl

served-ObeysAll : ObeysAll rounds (table_of (serving_ctx 2 3) (serving_held 3 nothing))
unfolding free_slots
served-ObeysAll = rounds-ObeysAll

tcp_stop-Released_example : Released nothing (
    tcp_stop (runs listen_server rounds attempts) (some (serving_ctx 2 3)) (serving_held 3 nothing))
tcp_stop-Released_example =
    tcp_stop-Released all_well cleared (serving_ctx 2 3) transport nothing (serving_held 3 nothing)
      rounds attempts refl started_lem served-ObeysAll

abbrev not_bound : ℤ × Option TcpCtx × Held
not_bound = tcp_start port_taken (some cleared) (some transport) nothing

not_bound_lem : not_bound.0 ≢ pos 0
unfolding tcp_start start_ctx value_or_default start_server tcp_listen_init begin_listening close_fd
not_bound_lem e = ground arith

tcp_start_failed_example :
    (not_bound.2 ≡ nothing)
    × ((not_bound.1 ≡ some cleared)
        ⊎ (after : TcpCtx) × (not_bound.1 ≡ some after) × (after.initialized ≡ false))
tcp_start_failed_example = tcp_start_failed port_taken cleared transport nothing not_bound_lem

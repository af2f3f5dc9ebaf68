-- ===== src/Tcp/Thread.antt =====
-- The threads of src/modbus_tcp.c: the table of clients of a server, and the connection of a client.
--
-- What the system and the application do in a round is a parameter. The log is what the hook on_link
-- is told; on_error, which has no effect on the state, is left out.
pub mod Table
pub mod Runs
pub mod Streams
use modbus_protocol.Prelude.{
  ℕ, zero, suc, ◌+◌, Bool, true, false, not, ◌&&◌, Option, none, some, List, [], ◌∷◌, ltb, ◌==◌,
  if◌then◌else◌,
}

-- `close`
unfoldable pub close_fd : ℕ → List ℕ → List ℕ
close_fd fd [] = []
close_fd fd (p ∷ rest) = if p == fd then rest else p ∷ close_fd fd rest

-- `client_fds`, where `none` is -1; the sockets that are open; and what the hooks were told, the
-- latest first: a socket, and whether it is connected.
pub record Clients : Type 0 where
  pub client_fds : List (Option ℕ)
  pub open_fds : List ℕ
  pub log : List (ℕ × Bool)

-- The client in a slot is dropped.
abbrev pub drop_slot : ℕ → Clients → Clients
drop_slot sd rest = record {
  client_fds = none ∷ rest.client_fds;
  open_fds = rest.open_fds;
  log = rest.log;
}

abbrev pub keep_slot : Option ℕ → Clients → Clients
keep_slot slot rest = record {
  client_fds = slot ∷ rest.client_fds;
  open_fds = rest.open_fds;
  log = rest.log;
}

-- The loop over the slots that drops each client of which the test holds.
unfoldable pub drop_where : (ℕ → Bool) → List (Option ℕ) → List ℕ → List (ℕ × Bool) → Clients
drop_where test [] opens log = record { client_fds = []; open_fds = opens; log = log }
drop_where test (none ∷ rest) opens log = keep_slot none (drop_where test rest opens log)
drop_where test (some sd ∷ rest) opens log =
    let dropped = drop_where test rest (close_fd sd opens) ((sd, false) ∷ log) in
    let kept = drop_where test rest opens log in
    if test sd then drop_slot sd dropped else keep_slot (some sd) kept

-- The loop that puts a socket into the first free slot.
unfoldable pub place : ℕ → List (Option ℕ) → Option (List (Option ℕ))
place fd [] = none
place fd (none ∷ rest) = some (some fd ∷ rest)
place fd (some sd ∷ rest) = elim (place fd rest) [
  | none ↦ none
  | some rest' ↦ some (some sd ∷ rest')
]

-- `FD_SETSIZE` of Linux.
abbrev pub fd_setsize : ℕ
fd_setsize = 1024

-- How `select` ended: with an error other than `EINTR`, with no activity, or otherwise.
pub data Activity : Type 0 where
  select_error : Activity
  idle : Activity
  active : Activity

-- A round of the server's thread: how `select` ended, of which clients a peek says that they are
-- gone, whether the listening socket is readable and what `accept` returns, which clients are
-- readable, and for which the application's `on_process` returns a negative number.
pub record Round : Type 0 where
  pub activity : Activity
  pub gone : ℕ → Bool
  pub listening : Bool
  pub accepted : Option ℕ
  pub readable : ℕ → Bool
  pub fails : ℕ → Bool

-- The last loop: the clients that are readable are processed.
unfoldable pub process_clients : Round → Clients → Clients
process_clients r c = drop_where (λ sd. r.readable sd && r.fails sd) c.client_fds c.open_fds c.log

-- With a socket from `accept`.
unfoldable pub admit_client : Round → ℕ → Clients → Clients
admit_client r fd c =
    let opens = fd ∷ c.open_fds in
    let rejected : Clients = record {
      client_fds = c.client_fds;
      open_fds = close_fd fd opens;
      log = c.log;
    } in
    if not (ltb fd fd_setsize) then rejected else elim (place fd c.client_fds) [
      | none ↦ rejected
      | some slots ↦
          process_clients r
            record { client_fds = slots; open_fds = opens; log = (fd, true) ∷ c.log }
    ]

unfoldable pub server_round : Round → Clients → Clients
server_round r c = elim r.activity [
  | select_error ↦ c
  | idle ↦ drop_where r.gone c.client_fds c.open_fds c.log
  | active ↦
      if r.listening
      then elim r.accepted [ none ↦ c | some fd ↦ admit_client r fd c ]
      else process_clients r c
]

-- The thread, for as many rounds as it runs.
unfoldable pub server_thread : List Round → Clients → Clients
server_thread [] c = c
server_thread (r ∷ more) c = server_thread more (server_round r c)

-- A client's thread: its socket, which `stream_sock` holds too, the sockets that are open, and the
-- log.
pub record Stream : Type 0 where
  pub stream_sock : Option ℕ
  pub open_fds : List ℕ
  pub log : List (ℕ × Bool)

-- A round of the client's thread: the socket that `mb_tcp_connect` yields, if it does, and whether
-- the application's `on_process` returns a negative number.
pub record Attempt : Type 0 where
  pub connects : Option ℕ
  pub fails : Bool

unfoldable pub process_stream : Bool → ℕ → Stream → Stream
process_stream fails sock s =
    if fails
    then record {
      stream_sock = none;
      open_fds = close_fd sock s.open_fds;
      log = (sock, false) ∷ s.log;
    }
    else s

unfoldable pub client_round : Attempt → Stream → Stream
client_round a s = elim s.stream_sock [
  | some sock ↦ process_stream a.fails sock s
  | none ↦ elim a.connects [
    | none ↦ s
    | some sock ↦
        process_stream a.fails sock record {
          stream_sock = some sock;
          open_fds = sock ∷ s.open_fds;
          log = (sock, true) ∷ s.log;
        }
  ]
]

-- What follows the loop: the hook is told, and `mb_tcp_stop` closes the socket.
abbrev pub farewell : Option ℕ → List (ℕ × Bool) → List (ℕ × Bool)
farewell none log = log
farewell (some sock) log = (sock, false) ∷ log

unfoldable pub client_thread : List Attempt → Stream → Stream
client_thread [] s = record {
  stream_sock = s.stream_sock;
  open_fds = s.open_fds;
  log = farewell s.stream_sock s.log;
}
client_thread (a ∷ more) s = client_thread more (client_round a s)

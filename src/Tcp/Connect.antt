-- ===== src/Tcp/Connect.antt =====
-- Opening a connection: mb_tcp_connect of src/modbus_tcp.c. The answers of the system are parameters.
use modbus_protocol.Prelude.{
  ℕ, ℤ, pos, negsuc, Bool, true, false, not, ◌&&◌, ◌||◌, Option, none, some, List, [], ◌∷◌, ◌==◌,
  if◌then◌else◌, Text,
}
use modbus_protocol.Tcp.Thread.{close_fd}

-- `close`, if the descriptor is not -1.
abbrev pub close_open : Option ℕ → List ℕ → List ℕ
close_open none opens = opens
close_open (some fd) opens = close_fd fd opens

-- `host == NULL || host[0] == '\0'`
abbrev pub is_unset : Option Text → Bool
is_unset none = true
is_unset (some []) = true
is_unset (some (c ∷ rest)) = false

-- How `connect` ends at a socket in non-blocking mode: at once, with `EINPROGRESS`, whereupon
-- `select` says whether the socket is writable, and `SO_ERROR` whether it is connected, or with
-- another error.
pub data ConnectCall : Type 0 where
  connects_now : ConnectCall
  in_progress : Bool → Bool → ConnectCall
  connect_error : ConnectCall

-- What the system answers to `mb_tcp_connect`: `socket`, the calls of `setsockopt` in their order,
-- whether the host is an IPv4 address, and `connect`.
pub record ConnectAnswers : Type 0 where
  pub socket : Option ℕ
  pub send_timeout_set : Bool
  pub recv_timeout_set : Bool
  pub device_bound : Bool
  pub reuse_set : Bool
  pub is_address : Bool
  pub connected : ConnectCall

abbrev pub is_connected : ConnectCall → Bool
is_connected connects_now = true
is_connected (in_progress writable no_error) = writable && no_error
is_connected connect_error = false

-- With the socket: it is closed on each error.
unfoldable pub connect_socket : ConnectAnswers → Option Text → ℕ → List ℕ → ℤ × Option ℕ × List ℕ
connect_socket a bind_iface fd streams =
    let opened = fd ∷ streams in
    let given_up : ℤ × Option ℕ × List ℕ = (negsuc 0, none, close_fd fd opened) in
    if not a.send_timeout_set
    then given_up
    else if not a.recv_timeout_set
    then given_up
    else if not (is_unset bind_iface) && not a.device_bound
    then given_up
    else if not a.reuse_set
    then given_up
    else if not a.is_address
    then given_up
    else if not (is_connected a.connected)
    then given_up
    else (pos 0, some fd, opened)

-- The result, `*sock_out`, and the open sockets; `-EINVAL` is -22. The pointer `sock_out` is not null.
unfoldable pub tcp_connect :
    ConnectAnswers → Option ℕ → Option Text → Option Text → ℕ → List ℕ → ℤ × Option ℕ × List ℕ
tcp_connect a sock_out bind_iface remote_host port streams =
    if is_unset remote_host || port == 0 then (negsuc 21, sock_out, streams) else elim a.socket [
      | none ↦ (negsuc 0, none, streams)
      | some fd ↦ connect_socket a bind_iface fd streams
    ]

-- ===== src/Tcp/Tests/Connected.antt =====
-- A client of src/modbus_tcp_client.c from its connect to its disconnect.
use modbus_protocol.Prelude.{
  ℕ, ℤ, pos, negsuc, ◌≡◌, refl, ◌+◌, true, false, none, some, [], ◌∷◌, Buf, of_list,
}
use modbus_protocol.Tcp.Client.{Transaction, transact, exchange, next_tid, request_adu}
use modbus_protocol.Tcp.Connect.{ConnectAnswers, in_progress, tcp_connect, connect_socket}
use modbus_protocol.Tcp.Endpoints.{
  ClientSettings, Client, ClientHeld, cleared_client, tcp_client_connect, after_transaction,
  tcp_client_disconnect,
}
use modbus_protocol.Tcp.Endpoints.Sessions.{no_more, one_more, tcp_client_disconnect-restores}
use modbus_protocol.Tcp.Tests.{zeros, in_pieces, reply_stream, at_once}

abbrev settings : ClientSettings
settings = record {
  remote_host = some (49 ∷ []);
  port = 502;
  bind_iface = none;
  unit_id = 1;
  response_timeout_ms = 0;
}

-- `connect` is in progress first.
abbrev answers : ConnectAnswers
answers = record {
  socket = some 4;
  send_timeout_set = true;
  recv_timeout_set = true;
  device_bound = true;
  reuse_set = true;
  is_address = true;
  connected = in_progress true true;
}

abbrev before : ClientHeld
before = record { streams = 3 ∷ []; locks = 1 }

abbrev opened : Client
opened = record {
  fd = some 4;
  ctx = record {
    initialized = true;
    sock = some (in_pieces reply_stream);
    tid = 0;
    unit_id = 1;
    response_timeout_ms = 0;
  };
}

abbrev during : ClientHeld
during = record { streams = 4 ∷ 3 ∷ []; locks = 2 }

connected_lem :
    tcp_client_connect true answers
      (in_pieces reply_stream)
      (cleared_client settings)
      settings
      before
    ≡ (pos 0, opened, during)
unfolding tcp_client_connect tcp_connect connect_socket
connected_lem = refl

-- The sending fails, so the socket is closed.
abbrev broken : Buf → ℕ → ℤ
broken frame len = negsuc 0

abbrev read_two : Buf
read_two = of_list (3 ∷ 0 ∷ 107 ∷ 0 ∷ 2 ∷ [])

abbrev failed_send : Transaction
failed_send = record {
  rc = negsuc 2;
  ctx = record {
    initialized = true;
    sock = none;
    tid = next_tid 0;
    unit_id = 1;
    response_timeout_ms = 0;
  };
  resp = zeros;
  sent = some (request_adu zeros (next_tid 0) 1 read_two 5, 7 + 5);
}

failed_send_lem : transact broken zeros at_once opened.ctx read_two 5 zeros ≡ some failed_send
unfolding transact exchange
failed_send_lem = refl

abbrev after : Client × ClientHeld
after = after_transaction failed_send opened during

tcp_client_disconnect-restores_example :
    let r = tcp_client_disconnect after.0 after.1 in
    (r.1 ≡ before) × (r.0.ctx.initialized ≡ false) × (r.0.fd ≡ none)
tcp_client_disconnect-restores_example =
    tcp_client_disconnect-restores true answers (in_pieces reply_stream) (cleared_client settings)
      opened settings before during after connected_lem
      (one_more broken zeros at_once read_two 5 zeros failed_send no_more failed_send_lem)

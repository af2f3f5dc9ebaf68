-- ===== src/Tcp/Server.antt =====
-- One turn of the TCP server, `server_on_process` of src/modbus_tcp_server.c: a frame is received,
-- its PDU is dispatched, and the response goes out under the request's MBAP header.
pub mod Turns
use modbus_protocol.Prelude.{
  ℕ, ℤ, pos, negsuc, ◌+◌, ◌-◌, Bool, not, ◌&&◌, ◌||◌, Option, none, some, failed, u16, Buf, store,
  offset, write_back, copy, ltb, ◌==◌, if◌then◌else◌,
}
use modbus_protocol.Pdu.Wire.{get_u16, put_u16}
use modbus_protocol.Pdu.Serve.{Handlers, Reply, handle_request}
use modbus_protocol.Tcp.Stream.{Socket, Received, recv_exact}

abbrev pub mbap_header_len : ℕ
mbap_header_len = 6

abbrev pub tcp_max_adu_length : ℕ
tcp_max_adu_length = 260

abbrev pub tcp_unit_id_any : ℕ
tcp_unit_id_any = 0xff

-- The part of `mb_tcp_server_config_t` that a turn reads.
pub record TcpConfig (S : Type 0) : Type 0 where
  pub unit_id : ℕ
  pub handlers : Handlers S

-- What a turn leaves behind: its `int`, the client's socket, the application's state, and the
-- frame that it handed to `mb_tcp_send_all`, if it did.
pub record TcpTurn (S : Type 0) : Type 0 where
  pub rc : ℤ
  pub socket : Socket
  pub state : S
  pub sent : Option (Buf × ℕ)

module _ {S : Type 0} (cfg : TcpConfig S) (junk resp : Buf) (send : Buf → ℕ → ℤ) where
  abbrev pub quiet : ℤ → Socket → S → TcpTurn S
  quiet rc socket s = record { rc = rc; socket = socket; state = s; sent = none }

  -- The response's ADU: the request's transaction and protocol ids, the new length, the unit id,
  -- and the PDU behind them.
  unfoldable pub response_adu : Buf → Reply S → Buf
  response_adu adu r =
      store (put_u16 (copy (write_back resp 7 r.bytes) 0 adu 4) 4 (u16 (1 + r.len))) 6 (adu 6)

  -- Steps 3 and 4, for a frame that was received whole.
  unfoldable pub answer_adu : Buf → ℕ → Socket → S → TcpTurn S
  answer_adu adu mbap_remaining socket s =
      if not (adu 2 == 0) || not (adu 3 == 0)
      then quiet (pos 0) socket s
      else if not (cfg.unit_id == tcp_unit_id_any) && not (adu 6 == cfg.unit_id)
      then quiet (pos 0) socket s
      else let r =
          handle_request cfg.handlers junk (offset adu 7) (mbap_remaining - 1) (offset resp 7) s in
        record {
          rc = if failed (send (response_adu adu r) (7 + r.len)) then negsuc 0 else pos 0;
          socket = socket;
          state = r.state;
          sent = some (response_adu adu r, 7 + r.len);
        }

  -- Step 2, once the header was received.
  unfoldable pub receive_body : Received → S → TcpTurn S
  receive_body header s =
      let mbap_remaining = get_u16 header.buf 4 in
      let body = recv_exact (negsuc 0) header.socket header.buf mbap_header_len mbap_remaining in
      if ltb mbap_remaining 2 || ltb (tcp_max_adu_length - mbap_header_len) mbap_remaining
      then quiet (negsuc 0) header.socket s
      else if failed body.rc
      then quiet (negsuc 0) body.socket s
      else answer_adu body.buf mbap_remaining body.socket s

  unfoldable pub tcp_server_on_process : Buf → Socket → S → TcpTurn S
  tcp_server_on_process adu socket s =
      let header = recv_exact (negsuc 0) socket adu 0 mbap_header_len in
      if failed header.rc then quiet (negsuc 0) header.socket s else receive_body header s

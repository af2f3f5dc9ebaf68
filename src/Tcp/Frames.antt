-- ===== src/Tcp/Frames.antt =====
-- Frames of src/modbus_tcp.c: requests and register responses with the MBAP header before the PDU,
-- and the loop that sends a frame. A pointer that may be null is an option; of the transport's
-- context, the builders use the last transaction id.
pub mod Parse
use modbus_protocol.Prelude.{
  ℕ, ℤ, pos, negsuc, ◌+◌, ◌-◌, ◌*◌, min, ◌||◌, Option, none, some, List, [], ◌∷◌, u8, u16, unsigned,
  Buf, store, offset, copy, ltb, ◌==◌, if◌then◌else◌,
}
use modbus_protocol.Pdu.Codes.{
  func_write_single_register, func_write_multiple_registers, max_write_registers,
}
use modbus_protocol.Pdu.Wire.{get_u16, put_u16, put_registers}
use modbus_protocol.Rtu.Request.{outside, Outputs, is_null}
use modbus_protocol.Tcp.Client.{next_tid}

abbrev pub min_read_req_length : ℕ
min_read_req_length = 12

-- The MBAP header, the unit id, the function code and two words.
unfoldable pub put_mbap_head : Buf → ℕ → ℕ → ℕ → ℕ → ℕ → ℕ → Buf
put_mbap_head req tid mbap_len unit_id function addr nb =
    let mbap = put_u16 (store (store (put_u16 req 0 tid) 2 0) 3 0) 4 mbap_len in
    put_u16 (put_u16 (store (store mbap 6 unit_id) 7 (u8 function)) 8 addr) 10 nb

-- What a builder leaves behind: its `int`, the context's transaction id, the buffer.
pub record Built : Type 0 where
  pub rc : ℤ
  pub tid : Option ℕ
  pub req : Option Buf

abbrev pub unbuilt : Option ℕ → Option Buf → Built
unbuilt tid req = record { rc = negsuc 0; tid = tid; req = req }

unfoldable pub tcp_build_request_basis : Option ℕ → ℕ → ℤ → ℤ → ℕ → Option Buf → ℕ → Built
tcp_build_request_basis none unit_id function addr nb req req_cap = unbuilt none req
tcp_build_request_basis (some last) unit_id function addr nb none req_cap = unbuilt (some last) none
tcp_build_request_basis (some last) unit_id function addr nb (some req) req_cap =
    if ltb req_cap min_read_req_length
    then unbuilt (some last) (some req)
    else if outside 255 function || outside 65535 addr
    then unbuilt (some last) (some req)
    else record {
      rc = pos 0;
      tid = some (next_tid last);
      req =
          some (put_mbap_head req (next_tid last) 6 unit_id (unsigned function) (unsigned addr) nb);
    }

unfoldable pub tcp_build_fc06_request : Option ℕ → ℕ → ℕ → ℕ → Option Buf → ℕ → Built
tcp_build_fc06_request none unit_id addr value req req_cap = unbuilt none req
tcp_build_fc06_request (some last) unit_id addr value none req_cap = unbuilt (some last) none
tcp_build_fc06_request (some last) unit_id addr value (some req) req_cap =
    if ltb req_cap min_read_req_length then unbuilt (some last) (some req) else record {
      rc = pos 0;
      tid = some (next_tid last);
      req =
          some (put_mbap_head req (next_tid last) 6 unit_id func_write_single_register addr value);
    }

unfoldable pub tcp_build_fc16_request : Option ℕ → ℕ → ℕ → ℕ → Option Buf → Option Buf → ℕ → Built
tcp_build_fc16_request none unit_id addr num_registers values req req_cap = unbuilt none req
tcp_build_fc16_request (some last) unit_id addr num_registers values none req_cap =
    unbuilt (some last) none
tcp_build_fc16_request (some last) unit_id addr num_registers none (some req) req_cap =
    unbuilt (some last) (some req)
tcp_build_fc16_request (some last) unit_id addr num_registers (some values) (some req) req_cap =
    let byte_count = u8 (num_registers * 2) in
    let mbap_len = u16 (7 + byte_count) in
    let total_len = 6 + mbap_len in
    let head =
      put_mbap_head req (next_tid last) mbap_len unit_id func_write_multiple_registers addr
        num_registers in
    if num_registers == 0 || ltb max_write_registers num_registers
    then unbuilt (some last) (some req)
    else if ltb req_cap total_len
    then unbuilt (some last) (some req)
    else record {
      rc = pos total_len;
      tid = some (next_tid last);
      req = some (put_registers num_registers 0 values (store head 12 byte_count) 13);
    }

unfoldable pub tcp_parse_request : Option Buf → ℕ → Outputs → ℤ × Outputs
tcp_parse_request none length out = (negsuc 0, out)
tcp_parse_request (some request) length out =
    let mbap_len = get_u16 request 4 in
    if is_null out.function_code || is_null out.address || is_null out.quantity
    then (negsuc 0, out)
    else if ltb length 6
    then (negsuc 0, out)
    else if ltb mbap_len 6
    then (negsuc 0, out)
    else if ltb (u16 (260 - 6)) mbap_len
    then (negsuc 0, out)
    else if ltb length (6 + mbap_len)
    then (negsuc 0, out)
    else (
      pos 0,
      record {
        function_code = some (request 7);
        address = some (get_u16 request 8);
        quantity = some (if request 7 == func_write_single_register then 1 else get_u16 request 10);
      },
    )

unfoldable pub tcp_build_read_registers_response :
    ℕ → ℕ → ℕ → Option Buf → ℕ → Option Buf → ℕ → ℤ × Option Buf
tcp_build_read_registers_response tid fc unit_id values quantity none response_cap =
    (negsuc 0, none)
tcp_build_read_registers_response tid fc unit_id none quantity (some response) response_cap =
    (negsuc 0, some response)
tcp_build_read_registers_response tid fc unit_id (some values) quantity (some response)
      response_cap =
    let mbap_len = 1 + (2 + quantity * 2) in
    let mbap = put_u16 (store (store (put_u16 response 0 tid) 2 0) 3 0) 4 mbap_len in
    let head = store (store (store mbap 6 unit_id) 7 fc) 8 (u8 (quantity * 2)) in
    if ltb 125 quantity
    then (negsuc 0, some response)
    else if ltb response_cap (6 + mbap_len)
    then (negsuc 0, some response)
    else (pos (6 + mbap_len), some (put_registers quantity 0 values head 9))

-- What one call of `send` does: some bytes go out, `EINTR`, another error.
pub data SendEvent : Type 0 where
  bytes_out : ℕ → SendEvent
  send_interrupted : SendEvent
  send_error : SendEvent

-- What sending leaves behind: its `int`, the number of bytes that went out, and these bytes at the
-- front of an array.
pub record Sending : Type 0 where
  pub rc : ℤ
  pub sent : ℕ
  pub out : Buf

abbrev pub sending : ℤ → ℕ → Buf → Sending
sending rc sent out = record { rc = rc; sent = sent; out = out }

-- The loop of `mb_tcp_send_all`: each call of `send` is given `buf + sent`. When the list ends, the
-- connection is gone.
unfoldable pub send_loop : List SendEvent → Buf → ℕ → ℕ → Buf → Sending
send_loop [] buf len sent out =
    if ltb sent len then sending (negsuc 0) sent out else sending (pos 0) sent out
send_loop (bytes_out n ∷ more) buf len sent out =
    let got = min n (len - sent) in
    let rest = send_loop more buf len (sent + got) (copy out sent (offset buf sent) got) in
    if ltb sent len
    then if got == 0 then sending (negsuc 0) sent out else rest
    else sending (pos 0) sent out
send_loop (send_interrupted ∷ more) buf len sent out =
    let rest = send_loop more buf len sent out in
    if ltb sent len then rest else sending (pos 0) sent out
send_loop (send_error ∷ more) buf len sent out =
    if ltb sent len then sending (negsuc 0) sent out else sending (pos 0) sent out

-- `out` is what the array of sent bytes holds before any.
unfoldable pub send_all : List SendEvent → Buf → ℕ → Buf → Sending
send_all events buf len out = send_loop events buf len 0 out

-- ===== src/Rtu/Exchange.antt =====
-- A transaction over RTU, for every function code: the request of src/modbus_rtu_client.c, the turn of
-- src/modbus_rtu_server.c that answers it, and the client's result.
use modbus_protocol.Prelude.{
  ℕ, ℤ, pos, ◌+◌, ◌-◌, ◌≤◌, ◌≡◌, ◌≢◌, sym, ap, ◌∙◌, ◌⊎◌, arith, some, List, true, false, Buf,
  offset, HasBytes, IsByte, store, copy,
}
use modbus_protocol.Pdu.Serve.{Reply, handle_request}
use modbus_protocol.Pdu.Dispatch.Bounds.{handle_request-Fits}
use modbus_protocol.Rtu.Crc.Append.{append_crc_lem, with_crc_kept, validate_crc-with_crc}
use modbus_protocol.Rtu.Request.Frames.{Carries}
use modbus_protocol.Rtu.Server.{
  Config, Rx, ReadResult, Turn, server_on_process, read_available_bytes, expire,
}
use modbus_protocol.Rtu.Server.Receives.{
  IsWhole-short, StartsWith, IsWhole, server_on_process-Answered,
}
use modbus_protocol.Rtu.Line.{write_all}
use modbus_protocol.Rtu.Bus.{Bus}
use modbus_protocol.Rtu.Client.{
  RtuClientCtx, Wire, rtu_request_adu, response_deadline_us, rtu_transact,
}
use modbus_protocol.Rtu.Client.Measured.{handle_request-Measured}
use modbus_protocol.Rtu.Client.Replied.{Brings, Replied, rtu_transact-Replied}

-- The request's array holds a frame of 1 to 253 bytes of PDU under the client's unit id, with a
-- valid CRC.
pub rtu_request_adu-Carries :
    (junk : Buf) (unit_id : ℕ) (pdu : Buf) (n : ℕ)
    → HasBytes junk
    → IsByte unit_id
    → HasBytes pdu
    → n ≤ 253
    → Carries (rtu_request_adu junk unit_id pdu n) unit_id pdu n
unfolding rtu_request_adu
rtu_request_adu-Carries junk unit_id pdu n hj hu hp short =
    let body = copy (store junk 0 unit_id) 1 pdu n in
    let bytes : HasBytes body = λ j. let a = hj j in let b = hp (j - 1) in ground arith in
    let kept = with_crc_kept body (1 + n) in
    let size : 1 + n + 2 ≡ n + 3 = omega arith in
    rw (append_crc_lem body (1 + n) 256 (λ j _ _. bytes j) (omega arith) (omega arith)) record {
      unit = kept 0 (omega arith) ∙ ground arith;
      pdu_bytes = λ j lt. kept (1 + j) (omega arith) ∙ ground arith;
      valid = rw (← size) (validate_crc-with_crc body (1 + n) (λ j _ _. bytes j));
    }

-- A connected client with a single unit id and no echo, whose request goes out.
pub record ClientReady (wire : Wire) (junk : Buf) (ctx : RtuClientCtx) (pdu : Buf) (n : ℕ)
    : Type 0 where
  pub connected : ctx.initialized ≡ true
  pub single : ctx.cfg.unit_id ≢ 0
  pub byte : IsByte ctx.cfg.unit_id
  pub quiet : ctx.cfg.local_echo ≡ false
  pub array : HasBytes junk
  pub request : HasBytes pdu
  pub sends : (write_all wire.writes wire.drained (1 + n + 2)).0 ≡ pos 0

-- A server with this unit id whose receive buffer, once a turn has read what there is, begins with that
-- frame.
pub record ServerReady {S : Type 0} (cfg : Config S) (resp adu : Buf) (reads : List ReadResult)
    (now_us : ℕ) (rx : Rx) (unit_id : ℕ) (frame : Buf) (len : ℕ) : Type 0 where
  pub full : Rx
  pub rc : ℕ
  pub reading : read_available_bytes reads (expire cfg rx now_us) now_us ≡ (pos rc, full)
  pub starts : StartsWith full frame len
  pub mine : (cfg.unit_id ≡ unit_id) ⊎ (cfg.unit_id ≡ 255)
  pub response_array : HasBytes resp
  pub request_array : HasBytes adu
  pub buffer : HasBytes full.rx_buffer

module _ {S : Type 0} (cfg : Config S) (server_junk server_resp : Buf) (server_send : Buf → ℕ → ℤ)
    (adu : Buf) (reads : List ReadResult) (now_us : ℕ) (rx : Rx) (s : S) (wire : Wire)
    (junk echo : Buf) (ctx : RtuClientCtx) (bus : Bus) (pdu : Buf) (n : ℕ) (resp : Buf) where
  abbrev pub sent_frame : Buf
  sent_frame = rtu_request_adu junk ctx.cfg.unit_id pdu n

  abbrev pub server_reply : Reply S
  server_reply = handle_request cfg.handlers server_junk pdu n (offset server_resp 1) s

  -- A transaction of a client and a server that are ready, over any whole request: if the frame that
  -- the server sends in its turn comes in time, then the client's result is its check of the reply
  -- of `mb_pdu_handle_request` to its request, its array holds that reply, and the state that the
  -- turn leaves is the one behind the reply.
  pub rtu_transact-server_on_process :
      (turn : Turn S) (frame : Buf) (len : ℕ)
      → ClientReady wire junk ctx pdu n
      → ServerReady cfg server_resp adu reads now_us rx ctx.cfg.unit_id sent_frame (n + 3)
      → IsWhole pdu n
      → server_on_process cfg server_junk server_resp server_send adu reads now_us rx s ≡ some turn
      → turn.sent ≡ some (frame, len)
      → Brings wire.line (response_deadline_us ctx bus wire.response_clock) frame len
      → Replied wire ctx bus pdu server_reply.bytes server_reply.len
          (rtu_transact wire junk echo ctx bus pdu n resp)
        × (turn.state ≡ server_reply.state)
  rtu_transact-server_on_process turn frame len client server whole ran sent brings =
      let short = (IsWhole-short pdu n whole).1 in
      let carries =
        rtu_request_adu-Carries junk ctx.cfg.unit_id pdu n client.array client.byte client.request
          short in
      let own : sent_frame 0 ≡ ctx.cfg.unit_id = carries.unit in
      let carries' : Carries sent_frame (sent_frame 0) pdu n = rw own carries in
      let (turn', ran', answered) =
        server_on_process-Answered cfg server_junk server_resp server_send adu reads now_us rx s
          server.rc server.full sent_frame pdu n server.response_array server.request_array
          server.buffer server.reading server.starts carries' whole (rw own client.single)
          (rw own server.mine) in
      let same_turn : turn' ≡ turn = cc (sym ran' ∙ ran) in
      let same_frame : some (answered.frame, server_reply.len + 3) ≡ some (frame, len) =
        sym answered.sent ∙ ap (λ (t : Turn S). t.sent) same_turn ∙ sent in
      let is_frame : answered.frame ≡ frame = cc same_frame in
      let is_len : server_reply.len + 3 ≡ len = cc same_frame in
      let fits = handle_request-Fits cfg.handlers server_junk pdu n (offset server_resp 1) s in
      let measured =
        handle_request-Measured cfg.handlers server_junk pdu n (offset server_resp 1) s
          (client.request 0) in
      let carried : Carries frame ctx.cfg.unit_id server_reply.bytes server_reply.len =
        rw (sym is_frame, sym own) answered.carried in
      (
        rtu_transact-Replied wire junk echo ctx bus pdu n resp server_reply.bytes frame
            server_reply.len client.connected client.single client.quiet client.sends
            (rw is_len brings) carried measured fits.at_most,
        ap (λ (t : Turn S). t.state) (sym same_turn) ∙ answered.state,
      )

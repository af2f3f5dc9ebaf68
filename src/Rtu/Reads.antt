-- ===== src/Rtu/Reads.antt =====
-- A read of registers over RTU, from the client's call through the server's turn to the client's
-- array: src/modbus_rtu_client.c against src/modbus_rtu_server.c.
use modbus_protocol.Prelude.{
  ℕ, ℤ, pos, ◌+◌, ◌*◌, ◌<◌, ◌≡◌, refl, sym, ap, ◌∙◌, ◌⊎◌, inl, inr, arith, some, List, false, ◌||◌,
  Buf, offset, HasBytes, IsByte, IsU16, failed, ltb, ◌==◌,
}
use modbus_protocol.Pdu.Build.{build_read}
use modbus_protocol.Pdu.Build.Layout.{build_read-HasHead}
use modbus_protocol.Pdu.Check.{get_registers}
use modbus_protocol.Pdu.Serve.{registers_response, Reply, handle_request}
use modbus_protocol.Pdu.Dispatch.{InRange}
use modbus_protocol.Pdu.Dispatch.Bytes.{store-HasBytes, put_u16-HasBytes}
use modbus_protocol.Pdu.RoundTrip.Reads.{
  registers_served, read_registers_round_trip, get_registers_local,
}
use modbus_protocol.Rtu.Server.{Config, Rx, ReadResult, Turn, server_on_process}
use modbus_protocol.Rtu.Server.Receives.{IsWhole, fixed}
use modbus_protocol.Rtu.Bus.{Bus}
use modbus_protocol.Rtu.Client.{
  RtuClientCtx, Wire, RtuTransaction, rtu_request_adu, response_deadline_us, rtu_transact,
  rtu_client_rc,
}
use modbus_protocol.Rtu.Client.Api.{RtuCall, rtu_read_registers, rtu_extract}
use modbus_protocol.Rtu.Exchange.{ClientReady, ServerReady, rtu_transact-server_on_process}
use modbus_protocol.Rtu.Client.Replied.{Brings}

-- What the caller has after the call.
pub record RtuReadDone (call : RtuCall) (qty : ℕ) (values : Buf) : Type 0 where
  pub out : Buf
  pub success : call.rc ≡ pos 0
  pub output : call.out ≡ some out
  pub extracted : (k : ℕ) → k < qty → out k ≡ values k

pub build_read-HasBytes :
    (pdu : Buf) (fc addr qty : ℕ)
    → IsByte fc
    → HasBytes pdu
    → HasBytes (build_read pdu fc addr qty).bytes
unfolding build_read
build_read-HasBytes pdu fc addr qty hf hp =
    put_u16-HasBytes _ 3 qty (put_u16-HasBytes _ 1 addr (store-HasBytes pdu 0 fc hf hp))

rtu_extract_lem :
    (wire : Wire) (junk echo pdu resp : Buf) (bus : Bus) (get : Buf → Buf → Buf) (out : Buf)
    (t : RtuTransaction) (values : Buf) (qty : ℕ)
    → t.rc ≡ pos 0
    → ((k : ℕ) → k < qty → get (offset t.resp 1) out k ≡ values k)
    → RtuReadDone (rtu_extract wire junk echo pdu resp bus get out t) qty values
rtu_extract_lem wire junk echo pdu resp bus get out t values qty ok same =
    let fine : failed t.rc ≡ false = rw ok refl in
    record {
      success = ok;
      out = get (offset t.resp 1) out;
      output = rw fine refl;
      extracted = same;
    }

module _ {S : Type 0} (cfg : Config S) (server_junk server_resp : Buf) (server_send : Buf → ℕ → ℤ)
    (adu : Buf) (reads : List ReadResult) (now_us : ℕ) (rx : Rx) (s new : S) (wire : Wire)
    (junk echo pdu resp out : Buf) (ctx : RtuClientCtx) (bus : Bus) (fc addr qty : ℕ) where
  abbrev pub read_request : Buf
  read_request = (build_read pdu fc addr qty).bytes

  -- FC03 and FC04 over RTU, 1 to 125 registers within the address space, of a client and a server
  -- that are ready for the request: if the server's callback succeeds with 16-bit values, and the
  -- frame that the server sends in its turn comes in time, then the call returns 0, its array holds
  -- exactly these values, and the turn leaves the state that the callback left.
  pub rtu_read_registers-RtuReadDone :
      (callback : _) (values : Buf) (turn : Turn S) (frame : Buf) (len : ℕ)
      → cfg.handlers.read_registers ≡ some callback
      → (fc ≡ 3) ⊎ (fc ≡ 4)
      → IsU16 addr
      → InRange 125 addr qty
      → callback fc addr qty server_junk s ≡ (pos 0, values, new)
      → ((k : ℕ) → k < qty → IsU16 (values k))
      → ClientReady wire junk ctx read_request 5
      → ServerReady cfg server_resp adu reads now_us rx ctx.cfg.unit_id
          (rtu_request_adu junk ctx.cfg.unit_id read_request 5)
          8
      → server_on_process cfg server_junk server_resp server_send adu reads now_us rx s ≡ some turn
      → turn.sent ≡ some (frame, len)
      → Brings wire.line (response_deadline_us ctx bus wire.response_clock) frame len
      → RtuReadDone
          (rtu_read_registers wire junk echo pdu resp bus (some ctx) fc addr qty (some out))
          qty
          values
        × (turn.state ≡ new)
  unfolding rtu_read_registers
  rtu_read_registers-RtuReadDone callback values turn frame len has function word range call words
        client server ran sent brings =
      let head = build_read-HasHead pdu fc addr qty word (omega (arith, range.at_most)) in
      let whole : IsWhole read_request 5 =
        fixed (λ e. wrong 15 (omega arith) (sym head.function ∙ e) function)
          (λ e. wrong 16 (omega arith) (sym head.function ∙ e) function) refl in
      let (replied, state) =
        rtu_transact-server_on_process cfg server_junk server_resp server_send adu reads now_us rx s
          wire junk echo ctx bus read_request 5 resp turn frame len client server whole ran sent
          brings in
      let r = handle_request cfg.handlers server_junk read_request 5 (offset server_resp 1) s in
      let delivered =
        read_registers_round_trip cfg.handlers server_junk pdu (offset server_resp 1) out fc addr
          qty s new callback values has function word range call words in
      let size : r.len ≡ 2 + qty * 2 =
        ap (λ (q : Reply S). q.len)
          (registers_served cfg.handlers server_junk pdu (offset server_resp 1) out fc addr qty s
            new callback values read_request head has function range call)
        ∙ unfold registers_response in ap (λ (q : ℕ). 2 + q * 2) head.quantity in
      let in_range : (qty == 0 || ltb 125 qty) ≡ false =
        let lo = range.some_item in let hi = range.at_most in ground arith in
      rw in_range (
        unfold build_read in
            rtu_extract_lem wire junk echo pdu resp bus (λ p o. get_registers p qty o) out
              (rtu_transact wire junk echo ctx bus read_request 5 resp) values qty
              (replied.returned ∙ ap rtu_client_rc (delivered.accepted))
              (λ k lt.
                get_registers_local _ r.bytes qty out out k
                  (λ j below. replied.response j (omega (arith, size))) lt
                ∙ delivered.extracted k lt),
        state ∙ unfold build_read in delivered.state,
      )
    where
      wrong : (code : ℕ) → 4 < code → fc ≡ code → (fc ≡ 3) ⊎ (fc ≡ 4) → ⊥
      wrong code big e (inl three) = omega arith
      wrong code big e (inr four) = omega arith

-- ===== src/Rtu/Server/Contract.antt =====
-- The contract of `extract_request_frame`: it always ends, with the first acceptable frame of the
-- stream or with the beginning of a request.
use modbus_protocol.Prelude.{
  ℕ, pos, zero, suc, ◌+◌, ◌-◌, ◌≤◌, ◌<◌, ◌≡◌, refl, ◌∙◌, arith, Option, none, some, Buf, offset,
  copy, Agree,
}
use modbus_protocol.Rtu.Crc.{validate_crc}
use modbus_protocol.Rtu.Crc.Detection.{validate_crc_agree}
use modbus_protocol.Rtu.Server.{
  Rx, drop_rx_bytes, Candidate, wait, skip, take, judge, resync, settle, take_frame,
  extract_request_frame,
}
use modbus_protocol.Rtu.Server.Framing.{
  NoFrame, IsUnfinished, HasLength, IsUnfinished-Agree, HasLength-Agree, take-HasLength,
  wait-IsUnfinished, Skips-NoFrame,
}
use modbus_protocol.Rtu.Server.Extract.{
  Skips, done, skipped, judge-Takes, nothing_skipped, RestOf, RestOf-trans, Skips-RestOf,
  drop_rx_bytes-RestOf,
}

-- What the loop can end with.
data Found (cap : ℕ) (ctx : Rx) : Option (Rx × Option ℕ) → Type 0 where
  waits :
      (n : ℕ) (end : Rx)
      → Skips cap n ctx end
      → judge end cap ≡ wait
      → Found cap ctx (some (end, none))
  takes :
      (n len : ℕ) (end : Rx)
      → Skips cap n ctx end
      → judge end cap ≡ take len
      → Found cap ctx (some (end, some len))

Found-skipped :
    (cap : ℕ) (ctx : Rx) (r : Option (Rx × Option ℕ))
    → judge ctx cap ≡ skip
    → Found cap (drop_rx_bytes ctx 1) r
    → Found cap ctx r
Found-skipped cap ctx _ s (waits n end k w) = waits (suc n) end (skipped s k) w
Found-skipped cap ctx _ s (takes n len end k t) = takes (suc n) len end (skipped s k) t

resync-Found : (cap fuel : ℕ) (ctx : Rx) → ctx.rx_len < fuel → Found cap ctx (resync fuel ctx cap)
unfolding resync
resync-Found cap zero ctx h = absurd (omega arith)
resync-Found cap (suc fuel) ctx h =
    by_judgement
      (λ e.
        resync-Found cap fuel (drop_rx_bytes ctx 1)
          (let two = nothing_skipped ctx cap e in unfold drop_rx_bytes in omega arith))
      (judge ctx cap) refl
  where
    by_judgement :
        (judge ctx cap ≡ skip
          → Found cap (drop_rx_bytes ctx 1) (resync fuel (drop_rx_bytes ctx 1) cap))
        → (c : Candidate) → judge ctx cap ≡ c
        → Found cap ctx (elim c [
          | wait ↦ some (ctx, none)
          | skip ↦ resync fuel (drop_rx_bytes ctx 1) cap
          | take len ↦ some (ctx, some len)
        ])
    by_judgement again wait e = waits zero ctx done e
    by_judgement again (take len) e = takes zero len ctx done e
    by_judgement again skip e = Found-skipped cap ctx _ e (again e)

-- What the function returns. In both cases no accepted request begins at any of the first `n` bytes.
pub data Extracts (cap : ℕ) (ctx : Rx) : Option (Rx × Option (Buf × ℕ)) → Type 0 where
  -- The rest of the stream is kept; it is the beginning of a request whose end is missing.
  waiting :
      (n : ℕ) (after : Rx)
      → ((j : ℕ) → j < n → NoFrame cap (offset ctx.rx_buffer j) (ctx.rx_len - j))
      → IsUnfinished (offset ctx.rx_buffer n) (ctx.rx_len - n)
      → RestOf n ctx after
      → Extracts cap ctx (some (after, none))
  -- The next `len` bytes are the frame, of the length that it states, with a valid CRC; what follows
  -- them is kept.
  framed :
      (n len : ℕ) (after : Rx) (frame : Buf)
      → ((j : ℕ) → j < n → NoFrame cap (offset ctx.rx_buffer j) (ctx.rx_len - j))
      → HasLength (offset ctx.rx_buffer n) len
      → 8 ≤ len
      → len ≤ cap
      → Agree len frame (offset ctx.rx_buffer n)
      → validate_crc (some frame) len ≡ pos 0
      → RestOf (n + len) ctx after
      → Extracts cap ctx (some (after, some (frame, len)))

settled : (n : ℕ) (ctx end : Rx) → RestOf n ctx end → RestOf n ctx (settle end)
unfolding settle
settled n ctx end r = record { within = r.within; left = r.left; bytes = r.bytes }

framed_from :
    (cap n len : ℕ) (ctx end : Rx) (adu : Buf)
    → Skips cap n ctx end
    → judge end cap ≡ take len
    → Extracts cap ctx
        (some (settle (drop_rx_bytes end len), some (copy adu 0 end.rx_buffer len, len)))
framed_from cap n len ctx end adu k e =
    let t = judge-Takes end cap len e in
    let rest = Skips-RestOf cap n ctx end k in
    let frame = copy adu 0 end.rx_buffer len in
    let same : Agree len frame end.rx_buffer = λ j lt. ground arith in
    let there : Agree len end.rx_buffer (offset ctx.rx_buffer n) =
      λ j lt. rest.bytes j (omega (arith, t.received, rest.left)) in
    framed n len _ frame (Skips-NoFrame cap n ctx end k)
      (HasLength-Agree end.rx_buffer _ len (omega (arith, t.at_least)) there
        (take-HasLength end cap len e))
      t.at_least t.at_most (λ j lt. same j lt ∙ there j lt)
      (validate_crc_agree len frame end.rx_buffer same ∙ t.valid)
      (settled (n + len) ctx _ (RestOf-trans rest (drop_rx_bytes-RestOf end len t.received)))

-- For every receive buffer, the extraction ends within its fuel. It skips bytes only where the byte
-- count of an FC15 or FC16 request is 0 or too large, or where a request of the length that its
-- function code and byte count state is there whole, but longer than the capacity or with a wrong CRC.
-- Then either what is left is the beginning of a request whose stated end is missing, and is kept, or
-- a whole request of its stated length with a valid CRC is there, is returned, and what lies behind it
-- is kept in order.
pub extract_request_frame-Extracts :
    (ctx : Rx) (adu : Buf) (cap : ℕ) → Extracts cap ctx (extract_request_frame ctx adu cap)
unfolding extract_request_frame
extract_request_frame-Extracts ctx adu cap =
    ended (resync (suc ctx.rx_len) ctx cap) (resync-Found cap (suc ctx.rx_len) ctx (omega arith))
  where
    ended :
        (r : Option (Rx × Option ℕ))
        → Found cap ctx r
        → Extracts cap ctx (elim r [ none ↦ none | some found ↦ some (take_frame adu found) ])
    ended _ (waits n end k w) =
        let rest = Skips-RestOf cap n ctx end k in
        waiting n _ (Skips-NoFrame cap n ctx end k)
          (IsUnfinished-Agree end.rx_buffer _ end.rx_len _ rest.left rest.bytes
            (wait-IsUnfinished end cap w))
          (settled n ctx end rest)
    ended _ (takes n len end k t) = framed_from cap n len ctx end adu k t

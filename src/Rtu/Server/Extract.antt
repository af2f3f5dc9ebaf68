-- ===== src/Rtu/Server/Extract.antt =====
-- Extraction of a request from the receive buffer: the loop ends, it takes the first acceptable
-- frame, and what it leaves is the rest of the stream.
use modbus_protocol.Prelude.{
  ℕ, pos, zero, suc, ◌+◌, ◌-◌, ◌≤◌, ◌<◌, ◌≡◌, refl, ap, ◌∙◌, arith, some, Buf, leb, if◌then◌else◌,
  failed, not, ◌&&◌,
}
use modbus_protocol.Rtu.Crc.{validate_crc}
use modbus_protocol.Rtu.Server.{
  Rx, FrameLen, incomplete, frame_error, complete, get_complete_request_len, drop_rx_bytes, wait,
  skip, take, judge,
}

-- `n` bytes are skipped, each at the front of what no frame can begin with.
pub data Skips (adu_cap : ℕ) : ℕ → Rx → Rx → Type 0 where
  done : {ctx : Rx} → Skips adu_cap zero ctx ctx
  skipped :
      {n : ℕ} {ctx end : Rx}
      → judge ctx adu_cap ≡ skip
      → Skips adu_cap n (drop_rx_bytes ctx 1) end
      → Skips adu_cap (suc n) ctx end

-- What a complete candidate is.
pub complete_request-bounds :
    (adu : Buf) (rx_len cap n : ℕ)
    → get_complete_request_len adu rx_len cap ≡ complete n
    → (8 ≤ n) × (n ≤ rx_len) × (n ≤ cap)
unfolding get_complete_request_len
complete_request-bounds adu rx_len cap n e = ground arith

pub nothing_skipped : (ctx : Rx) (cap : ℕ) → judge ctx cap ≡ skip → 2 ≤ ctx.rx_len
unfolding judge get_complete_request_len
nothing_skipped ctx cap e = ground arith

pub record Takes (ctx : Rx) (cap n : ℕ) : Type 0 where
  pub at_least : 8 ≤ n
  pub received : n ≤ ctx.rx_len
  pub at_most : n ≤ cap
  pub valid : validate_crc (some ctx.rx_buffer) n ≡ pos 0

pub judge_takes :
    (ctx : Rx) (cap n : ℕ)
    → judge ctx cap ≡ take n
    → (get_complete_request_len ctx.rx_buffer ctx.rx_len 256 ≡ complete n)
      × (n ≤ cap)
      × (validate_crc (some ctx.rx_buffer) n ≡ pos 0)
unfolding judge
judge_takes ctx cap n e = by_len (get_complete_request_len ctx.rx_buffer ctx.rx_len 256) e
  where
    by_len :
        (f : FrameLen)
        → elim f [
          | incomplete ↦ wait
          | frame_error ↦ skip
          | complete len ↦
              if leb len cap && not (failed (validate_crc (some ctx.rx_buffer) len))
              then take len
              else skip
        ]
          ≡ take n
        → (f ≡ complete n) × (n ≤ cap) × (validate_crc (some ctx.rx_buffer) n ≡ pos 0)
    by_len incomplete e' = ground arith
    by_len frame_error e' = ground arith
    by_len (complete len) e' = ground arith

pub judge-Takes : (ctx : Rx) (cap n : ℕ) → judge ctx cap ≡ take n → Takes ctx cap n
judge-Takes ctx cap n e =
    let (len, room, crc) = judge_takes ctx cap n e in
    let (least, most, _) = complete_request-bounds ctx.rx_buffer ctx.rx_len 256 n len in
    record { at_least = least; received = most; at_most = room; valid = crc }

-- The end of the skipping, as the rest of the stream.
pub record RestOf (n : ℕ) (ctx end : Rx) : Type 0 where
  pub within : n ≤ ctx.rx_len
  pub left : end.rx_len ≡ ctx.rx_len - n
  pub bytes : (j : ℕ) → j < ctx.rx_len - n → end.rx_buffer j ≡ ctx.rx_buffer (n + j)

pub drop_rx_bytes-RestOf : (ctx : Rx) (n : ℕ) → n ≤ ctx.rx_len → RestOf n ctx (drop_rx_bytes ctx n)
unfolding drop_rx_bytes
drop_rx_bytes-RestOf ctx n h = record { within = h; left = refl; bytes = λ j lt. ground arith }

pub RestOf-trans : {m n : ℕ} {a b c : Rx} → RestOf m a b → RestOf n b c → RestOf (m + n) a c
RestOf-trans {m} {n} {a} {b} {c} first second =
    let room : n ≤ a.rx_len - m = rw (← first.left) second.within in
    record {
      within = omega (arith, first.within);
      left = second.left ∙ omega (arith, first.left);
      bytes = λ j lt.
          second.bytes j (omega (arith, first.left))
          ∙ first.bytes (n + j) (omega arith)
          ∙ ap a.rx_buffer (omega arith);
    }

pub Skips-RestOf : (cap n : ℕ) (ctx end : Rx) → Skips cap n ctx end → RestOf n ctx end
Skips-RestOf cap zero ctx _ done = record {
  within = omega arith;
  left = omega arith;
  bytes = λ j lt. ap ctx.rx_buffer (omega arith);
}
Skips-RestOf cap (suc n) ctx end (skipped s more) =
    let two = nothing_skipped ctx cap s in
    let count : 1 + n ≡ suc n = omega arith in
    rw (← count) (
      RestOf-trans (drop_rx_bytes-RestOf ctx 1 (omega arith))
        (Skips-RestOf cap n (drop_rx_bytes ctx 1) end more))

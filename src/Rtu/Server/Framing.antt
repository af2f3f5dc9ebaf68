-- ===== src/Rtu/Server/Framing.antt =====
-- What the bytes at a place of the received stream are to the framing of src/modbus_rtu_server.c: the
-- beginning of a request whose end is missing, a whole request of a known length, or no request.
use modbus_protocol.Prelude.{
  ℕ, pos, zero, suc, ◌+◌, ◌-◌, ◌≤◌, ◌<◌, ◌≡◌, ◌≢◌, refl, ap, ◌∙◌, ◌⊎◌, inl, inr, arith, some, Buf,
  offset, Agree, leb, if◌then◌else◌, failed, not, ◌&&◌,
}
use modbus_protocol.Rtu.Crc.{validate_crc}
use modbus_protocol.Rtu.Crc.Detection.{validate_crc_agree}
use modbus_protocol.Rtu.Server.{
  Rx, FrameLen, incomplete, frame_error, complete, get_complete_request_len, drop_rx_bytes, wait,
  skip, take, judge,
}
use modbus_protocol.Rtu.Server.Extract.{Skips, done, skipped, judge_takes}

-- FC15 and FC16 carry a byte count; the other requests have eight bytes.
abbrev pub IsCounted : Buf → Type 0
IsCounted b = (b 1 ≡ 15) ⊎ (b 1 ≡ 16)

abbrev pub IsFixed : Buf → Type 0
IsFixed b = (b 1 ≢ 15) × (b 1 ≢ 16)

-- The length of the frame that begins like this.
abbrev pub HasLength : Buf → ℕ → Type 0
HasLength b size =
    (IsFixed b × (size ≡ 8)) ⊎ (IsCounted b × (1 ≤ b 6) × (size ≡ 9 + b 6) × (size ≤ 256))

-- Of these `len` bytes, so far nothing speaks against a request, but its end is missing.
abbrev pub IsUnfinished : Buf → ℕ → Type 0
IsUnfinished b len =
    (len < 2)
    ⊎ (IsCounted b × (len ≤ 6))
    ⊎ (IsFixed b × (len < 8))
    ⊎ (IsCounted b × (1 ≤ b 6) × (9 + b 6 ≤ 256) × (len < 9 + b 6))

-- These `len` bytes begin with no request that is accepted.
pub data NoFrame (cap : ℕ) (b : Buf) (len : ℕ) : Type 0 where
  bad_count : IsCounted b → 7 ≤ len → (b 6 ≡ 0) ⊎ (256 < 9 + b 6) → NoFrame cap b len
  rejected :
      (size : ℕ)
      → HasLength b size
      → size ≤ len
      → (cap < size) ⊎ (validate_crc (some b) size ≢ pos 0)
      → NoFrame cap b len

NoFrame-Agree :
    {cap : ℕ} {a b : Buf} {m n : ℕ} → m ≡ n → Agree n a b → NoFrame cap a m → NoFrame cap b n
NoFrame-Agree {cap} {a} {b} {m} {n} e same (bad_count counted long bad) =
    let at1 : a 1 ≡ b 1 = same 1 (omega arith) in
    let at6 : a 6 ≡ b 6 = same 6 (omega arith) in
    bad_count (ground arith) (omega arith) (ground arith)
NoFrame-Agree {cap} {a} {b} {m} {n} e same (rejected size has fits bad) =
    let eight : 8 ≤ size = ground arith in
    let at1 : a 1 ≡ b 1 = same 1 (omega arith) in
    let at6 : a 6 ≡ b 6 = same 6 (omega arith) in
    rejected size (ground arith) (omega arith) (elim bad [
      | inl big ↦ inl big
      | inr crc ↦ inr (λ ok. crc (validate_crc_agree size a b (λ j lt. same j (omega arith)) ∙ ok))
    ])

pub IsUnfinished-Agree :
    (a b : Buf) (m n : ℕ) → m ≡ n → Agree n a b → IsUnfinished a m → IsUnfinished b n
IsUnfinished-Agree a b m n e same h = ground (arith, same 1, same 6)

pub HasLength-Agree :
    (a b : Buf) (size : ℕ) → 7 ≤ size → Agree size a b → HasLength a size → HasLength b size
HasLength-Agree a b size long same h =
    let at1 : a 1 ≡ b 1 = same 1 (omega arith) in
    let at6 : a 6 ≡ b 6 = same 6 (omega arith) in ground arith

incomplete-IsUnfinished :
    (b : Buf) (len : ℕ) → get_complete_request_len b len 256 ≡ incomplete → IsUnfinished b len
unfolding get_complete_request_len
incomplete-IsUnfinished b len e = ground arith

frame_error_lem :
    (b : Buf) (len : ℕ)
    → get_complete_request_len b len 256 ≡ frame_error
    → IsCounted b × (7 ≤ len) × ((b 6 ≡ 0) ⊎ (256 < 9 + b 6))
unfolding get_complete_request_len
frame_error_lem b len e = ground arith

complete-HasLength :
    (b : Buf) (len size : ℕ)
    → get_complete_request_len b len 256 ≡ complete size
    → HasLength b size × (size ≤ len)
unfolding get_complete_request_len
complete-HasLength b len size e = ground arith

module _ (ctx : Rx) (cap : ℕ) where
  pub take-HasLength : (size : ℕ) → judge ctx cap ≡ take size → HasLength ctx.rx_buffer size
  take-HasLength size e =
      (complete-HasLength ctx.rx_buffer ctx.rx_len size (judge_takes ctx cap size e).0).0

  pub wait-IsUnfinished : judge ctx cap ≡ wait → IsUnfinished ctx.rx_buffer ctx.rx_len
  unfolding judge
  wait-IsUnfinished e = by_len (get_complete_request_len ctx.rx_buffer ctx.rx_len 256) refl e
    where
      by_len :
          (f : FrameLen)
          → get_complete_request_len ctx.rx_buffer ctx.rx_len 256 ≡ f
          → elim f [
            | incomplete ↦ wait
            | frame_error ↦ skip
            | complete len ↦
                if leb len cap && not (failed (validate_crc (some ctx.rx_buffer) len))
                then take len
                else skip
          ]
            ≡ wait
          → IsUnfinished ctx.rx_buffer ctx.rx_len
      by_len incomplete is _ = incomplete-IsUnfinished ctx.rx_buffer ctx.rx_len is
      by_len frame_error is e' = absurd (ground arith)
      by_len (complete len) is e' = absurd (ground arith)

  pub skip-NoFrame : judge ctx cap ≡ skip → NoFrame cap ctx.rx_buffer ctx.rx_len
  unfolding judge
  skip-NoFrame e = by_len (get_complete_request_len ctx.rx_buffer ctx.rx_len 256) refl e
    where
      by_len :
          (f : FrameLen)
          → get_complete_request_len ctx.rx_buffer ctx.rx_len 256 ≡ f
          → elim f [
            | incomplete ↦ wait
            | frame_error ↦ skip
            | complete len ↦
                if leb len cap && not (failed (validate_crc (some ctx.rx_buffer) len))
                then take len
                else skip
          ]
            ≡ skip
          → NoFrame cap ctx.rx_buffer ctx.rx_len
      by_len incomplete is e' = absurd (ground arith)
      by_len frame_error is _ =
          let (counted, long, bad) = frame_error_lem ctx.rx_buffer ctx.rx_len is in
          bad_count counted long bad
      by_len (complete len) is e' =
          let (has, fits) = complete-HasLength ctx.rx_buffer ctx.rx_len len is in
          let bad : (cap < len) ⊎ (validate_crc (some ctx.rx_buffer) len ≢ pos 0) = ground arith in
          rejected len has fits bad

-- No accepted request begins at any of the `n` bytes that were skipped.
pub Skips-NoFrame :
    (cap n : ℕ) (ctx end : Rx)
    → Skips cap n ctx end
    → (j : ℕ) → j < n
    → NoFrame cap (offset ctx.rx_buffer j) (ctx.rx_len - j)
unfolding drop_rx_bytes
Skips-NoFrame cap zero ctx _ done j lt = absurd (omega arith)
Skips-NoFrame cap (suc n) ctx end (skipped s k) zero lt =
    NoFrame-Agree (omega arith) (λ i _. ap ctx.rx_buffer (omega arith)) (skip-NoFrame ctx cap s)
Skips-NoFrame cap (suc n) ctx end (skipped s k) (suc j) lt =
    NoFrame-Agree (omega arith) (λ i lt'. ground arith)
      (Skips-NoFrame cap n (drop_rx_bytes ctx 1) end k j (omega arith))

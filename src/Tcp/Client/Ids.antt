-- ===== src/Tcp/Client/Ids.antt =====
-- Transaction ids: `next_tid` of src/modbus_tcp_client.c goes round 1 to 65535.
use modbus_protocol.Prelude.{ℕ, zero, suc, ◌+◌, ◌-◌, ◌%◌, ◌≤◌, ◌≡◌, ◌≢◌, arith}
use modbus_protocol.Tcp.Client.{next_tid}

-- The id after that many more transactions.
pub tid_after : ℕ → ℕ → ℕ
tid_after zero tid = tid
tid_after (suc k) tid = next_tid (tid_after k tid)

tid_after_lem : (k tid : ℕ) → 1 ≤ tid → tid ≤ 65535 → tid_after k tid ≡ (tid - 1 + k) % 65535 + 1
unfolding tid_after next_tid
tid_after_lem zero tid lo hi = omega arith
tid_after_lem (suc k) tid lo hi = let before = tid_after_lem k tid lo hi in rw before (ground arith)

-- From the first transaction on, the id is in 1..65535, and the 65534 transactions that follow one
-- have other ids than it.
pub tid_after-distinct :
    (k tid : ℕ)
    → tid ≤ 65535
    → 1 ≤ k
    → k ≤ 65534
    → (1 ≤ next_tid tid) × (next_tid tid ≤ 65535) × (tid_after k (next_tid tid) ≢ next_tid tid)
tid_after-distinct k tid small lo hi =
    let first : (1 ≤ next_tid tid) × (next_tid tid ≤ 65535) = unfold next_tid in ground arith in
    let later = tid_after_lem k (next_tid tid) first.0 first.1 in
    (first.0, first.1, λ e. omega arith)

-- ===== src/Tcp/Endpoints/Sessions.antt =====
-- A session of a TCP client holds nothing at its end.
use modbus_protocol.Prelude.{
  ℕ, ℤ, pos, negsuc, suc, ◌+◌, ◌-◌, ◌≡◌, ◌≢◌, refl, ap, ◌∙◌, ◌⊎◌, inl, inr, arith, Bool, true,
  false, not, ◌||◌, Option, none, some, List, ◌∷◌, length, failed, ◌==◌, if_cases, option_cases,
  Buf,
}
use modbus_protocol.Tcp.Stream.{Socket}
use modbus_protocol.Tcp.Client.{
  ClientCtx, effective_response_timeout_ms, request_adu, next_tid, Clock, Transaction, await_tid,
  exchange, transact,
}
use modbus_protocol.Tcp.Connect.{ConnectAnswers, close_open, is_unset}
use modbus_protocol.Tcp.Life.Starts.{
  close_fd-first, Connects, bad_argument, no_connection, connection, tcp_connect-Connects,
}
use modbus_protocol.Tcp.Endpoints.{
  ClientSettings, Client, ClientHeld, cleared_client, opened_client, tcp_client_connect,
  after_transaction, tcp_client_disconnect,
}

-- How a connect ends.
pub data Opens (client : Client) (cfg : ClientSettings) (held : ClientHeld)
    : ℤ × Client × ClientHeld → Type 0 where
  refused : Opens client cfg held (negsuc 0, client, held)
  unopened : Opens client cfg held (negsuc 0, cleared_client cfg, held)
  open_at :
      (fd : ℕ) (c : Client)
      → c.fd ≡ some fd
      → c.ctx.initialized ≡ true
      → Opens client cfg held
          (pos 0, c, record { streams = fd ∷ held.streams; locks = held.locks + 1 })

opened_client-Opens :
    (client : Client) (cfg : ClientSettings) (held : ClientHeld) (stream : Socket)
    (r : ℤ × Option ℕ × List ℕ)
    → Connects none held.streams r
    → Opens client cfg held (opened_client stream cfg (held.locks + 1) r)
opened_client-Opens client cfg held stream _ bad_argument =
    let locks : held.locks + 1 - 1 ≡ held.locks = omega arith in rw locks unopened
opened_client-Opens client cfg held stream _ no_connection =
    let locks : held.locks + 1 - 1 ≡ held.locks = omega arith in rw locks unopened
opened_client-Opens client cfg held stream _ (connection fd) = open_at fd _ refl refl

tcp_client_connect-Opens :
    (lock_made : Bool) (a : ConnectAnswers) (stream : Socket) (client : Client)
    (cfg : ClientSettings) (held : ClientHeld)
    → Opens client cfg held (tcp_client_connect lock_made a stream client cfg held)
unfolding tcp_client_connect
tcp_client_connect-Opens lock_made a stream client cfg held =
    if_cases (Opens client cfg held) (is_unset cfg.remote_host || cfg.port == 0) (λ _. refused)
      λ _.
        if_cases (Opens client cfg held) client.ctx.initialized (λ _. refused)
          λ _.
            if_cases (Opens client cfg held) (not lock_made) (λ _. unopened)
              λ _.
                opened_client-Opens client cfg held stream _
                  (tcp_connect-Connects a none cfg.bind_iface cfg.remote_host cfg.port held.streams)

-- Any transactions of a client, one after the other.
pub data Transactions (before : Client × ClientHeld) : Client × ClientHeld → Type 0 where
  no_more : Transactions before before
  one_more :
      {c : Client × ClientHeld} (send : Buf → ℕ → ℤ) (junk : Buf) (clock : Clock) (pdu : Buf)
      (pdu_len : ℕ) (resp : Buf) (t : Transaction)
      → Transactions before c
      → transact send junk clock c.0.ctx pdu pdu_len resp ≡ some t
      → Transactions before (after_transaction t c.0 c.1)

-- A transaction leaves the context initialized.
abbrev Keeps : Bool → Option Transaction → Type 0
Keeps b o = (t : Transaction) → o ≡ some t → t.ctx.initialized ≡ b

some-Keeps : (b : Bool) (r : Transaction) → r.ctx.initialized ≡ b → Keeps b (some r)
some-Keeps b r kept t e =
    let same : t ≡ r = cc e in ap (λ (u : Transaction). u.ctx.initialized) same ∙ kept

none-Keeps : (b : Bool) → Keeps b none
none-Keeps b t e = absurd (cc e)

transact-Keeps :
    (send : Buf → ℕ → ℤ) (junk : Buf) (clock : Clock) (ctx : ClientCtx) (pdu : Buf) (pdu_len : ℕ)
    (resp : Buf)
    → Keeps ctx.initialized (transact send junk clock ctx pdu pdu_len resp)
unfolding transact exchange
transact-Keeps send junk clock ctx pdu pdu_len resp =
    if_cases (Keeps ctx.initialized) (not ctx.initialized) (λ _. some-Keeps ctx.initialized _ refl)
      λ _.
        option_cases (Keeps ctx.initialized) ctx.sock (λ _. some-Keeps ctx.initialized _ refl)
          λ socket _.
            if_cases (Keeps ctx.initialized)
              (failed
                (send (request_adu junk (next_tid ctx.tid) ctx.unit_id pdu pdu_len) (7 + pdu_len)))
              (λ _. some-Keeps ctx.initialized _ refl)
              λ _.
                option_cases (Keeps ctx.initialized)
                  (await_tid (suc (length clock.rounds)) socket resp
                    (clock.sent_ms + effective_response_timeout_ms ctx) clock.rounds
                    (next_tid ctx.tid) 0 false)
                  (λ _. none-Keeps ctx.initialized) (λ x _. some-Keeps ctx.initialized _ refl)

-- A connected client: beyond what was held before, its socket is open, if it still has one, and its
-- mutex is there.
record IsOpen (held : ClientHeld) (c : Client × ClientHeld) : Type 0 where
  on : c.0.ctx.initialized ≡ true
  streams : close_open c.0.fd c.1.streams ≡ held.streams
  locks : c.1.locks ≡ held.locks + 1

after_transaction-IsOpen :
    (held : ClientHeld) (t : Transaction) (c : Client × ClientHeld)
    → t.ctx.initialized ≡ c.0.ctx.initialized
    → IsOpen held c
    → IsOpen held (after_transaction t c.0 c.1)
unfolding after_transaction
after_transaction-IsOpen held t c kept v =
    option_cases (IsOpen held) t.ctx.sock
      (λ _. record { on = kept ∙ v.on; streams = v.streams; locks = v.locks })
      (λ stream _. record { on = kept ∙ v.on; streams = v.streams; locks = v.locks })

Transactions-IsOpen :
    (held : ClientHeld) {b c : Client × ClientHeld}
    → IsOpen held b
    → Transactions b c
    → IsOpen held c
Transactions-IsOpen held v no_more = v
Transactions-IsOpen held v (one_more {c} send junk clock pdu pdu_len resp t before ran) =
    after_transaction-IsOpen held t c
      (transact-Keeps send junk clock c.0.ctx pdu pdu_len resp t ran)
      (Transactions-IsOpen held v before)

-- After a connect that returned 0, any transactions, among them such as close the socket, and a
-- disconnect, the system holds exactly what it held before, and the context is not connected.
pub tcp_client_disconnect-restores :
    (lock_made : Bool) (a : ConnectAnswers) (stream : Socket) (client opened : Client)
    (cfg : ClientSettings) (held during : ClientHeld) (c : Client × ClientHeld)
    → tcp_client_connect lock_made a stream client cfg held ≡ (pos 0, opened, during)
    → Transactions (opened, during) c
    → let r = tcp_client_disconnect c.0 c.1 in
      (r.1 ≡ held) × (r.0.ctx.initialized ≡ false) × (r.0.fd ≡ none)
unfolding tcp_client_disconnect
tcp_client_disconnect-restores lock_made a stream client opened cfg held during c connected
      session =
    let start = starts _ (tcp_client_connect-Opens lock_made a stream client cfg held) connected in
    let v = Transactions-IsOpen held start session in
    let on : not c.0.ctx.initialized ≡ false = rw (v.on) refl in
    let locks : c.1.locks - 1 ≡ held.locks = omega (arith, v.locks) in
    rw (on, v.streams, locks) (refl, refl, refl)
  where
    starts :
        (r : ℤ × Client × ClientHeld)
        → Opens client cfg held r
        → r ≡ (pos 0, opened, during)
        → IsOpen held (opened, during)
    starts _ refused e = absurd (cc (ap (λ (q : ℤ × Client × ClientHeld). q.0) e))
    starts _ unopened e = absurd (cc (ap (λ (q : ℤ × Client × ClientHeld). q.0) e))
    starts _ (open_at fd d at up) e =
        let same_client : d ≡ opened = ap (λ (q : ℤ × Client × ClientHeld). q.1) e in
        let same_held = ap (λ (q : ℤ × Client × ClientHeld). q.2) e in
        rw (← same_client, ← same_held)
          record { on = up; streams = rw at (close_fd-first fd held.streams); locks = refl }

-- A connect that does not return 0 leaves nothing behind, and the context as it was or unconnected.
pub tcp_client_connect_failed :
    (lock_made : Bool) (a : ConnectAnswers) (stream : Socket) (client : Client)
    (cfg : ClientSettings) (held : ClientHeld)
    → let r = tcp_client_connect lock_made a stream client cfg held in
      r.0 ≢ pos 0
      → (r.2 ≡ held) × ((r.1 ≡ client) ⊎ ((r.1.ctx.initialized ≡ false) × (r.1.fd ≡ none)))
tcp_client_connect_failed lock_made a stream client cfg held =
    failing _ (tcp_client_connect-Opens lock_made a stream client cfg held)
  where
    failing :
        (r : ℤ × Client × ClientHeld)
        → Opens client cfg held r
        → r.0 ≢ pos 0
        → (r.2 ≡ held) × ((r.1 ≡ client) ⊎ ((r.1.ctx.initialized ≡ false) × (r.1.fd ≡ none)))
    failing _ refused bad = (refl, inl refl)
    failing _ unopened bad = (refl, inr (refl, refl))
    failing _ (open_at fd c at up) bad = absurd (bad refl)

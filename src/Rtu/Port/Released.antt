-- ===== src/Rtu/Port/Released.antt =====
-- A context of src/modbus_rtu.c that failed to start, or was stopped, holds nothing.
use modbus_protocol.Prelude.{
  ℕ, ℤ, pos, negsuc, ◌+◌, ◌-◌, ◌≡◌, ◌≢◌, refl, ◌⊎◌, inl, inr, arith, true, false, not, ◌||◌, Option,
  none, some, List, [], ◌∷◌, failed, ◌==◌, if_cases, option_cases, Text,
}
use modbus_protocol.Rtu.Bus.{PortConfig, close_port}
use modbus_protocol.Rtu.Port.{
  PortAnswers, configure_serial, configure_rs485, rtu_open, RtuCtx, PortHeld, idle_ctx,
  begin_serving, rtu_start, rtu_stop,
}

close_port-first : (fd : ℕ) (ports : List ℕ) → close_port fd (fd ∷ ports) ≡ ports
unfolding close_port
close_port-first fd ports = let own : (fd == fd) ≡ true = ground arith in rw own refl

-- `mb_rtu_open` yields an open port, or leaves none behind.
data Opens (ports : List ℕ) : ℤ × Option ℕ × List ℕ → Type 0 where
  no_port : Opens ports (negsuc 0, none, ports)
  port : (fd : ℕ) → Opens ports (pos 0, some fd, fd ∷ ports)

rtu_open-Opens :
    (a : PortAnswers) (serial : PortConfig) (ports : List ℕ) → Opens ports (rtu_open a serial ports)
unfolding rtu_open
rtu_open-Opens a serial ports =
    option_cases (Opens ports) a.opened (λ _. no_port)
      λ fd _.
        if_cases (Opens ports)
          (failed (configure_serial a.attributes_set serial.serial).0
            || failed (configure_rs485 a.rs485_rc serial.rs485_mode))
          (λ _. rw (close_port-first fd ports) no_port) (λ _. port fd)

-- What is held while the thread serves this port: one more port, mutex and thread, of which the hook
-- was told.
abbrev pub served_by : ℕ → PortHeld → PortHeld
served_by fd held = record {
  ports = fd ∷ held.ports;
  locks = held.locks + 1;
  threads = held.threads + 1;
  log = (fd, true) ∷ held.log;
}

-- A start is refused, or it fails and leaves nothing behind, or the thread runs on an open port.
data Starts (ctx : RtuCtx) (held : PortHeld) : ℤ × RtuCtx × PortHeld → Type 0 where
  refused : Starts ctx held (negsuc 0, ctx, held)
  fails : Starts ctx held (negsuc 0, idle_ctx, held)
  serving :
      (fd : ℕ)
      → Starts ctx held (
        pos 0,
        record { initialized = true; keep_running = true; serial_fd = some fd },
        served_by fd held,
      )

begin_serving-Starts :
    (a : PortAnswers) (ctx : RtuCtx) (held : PortHeld) (r : ℤ × Option ℕ × List ℕ)
    → Opens held.ports r
    → Starts ctx held (begin_serving a record held { locks = held.locks + 1 } r)
unfolding begin_serving
begin_serving-Starts a ctx held _ no_port =
    let locks : held.locks + 1 - 1 ≡ held.locks = omega arith in rw locks fails
begin_serving-Starts a ctx held _ (port fd) =
    if_cases (Starts ctx held) (not a.nonblocking || not a.thread_made)
      (λ _.
        let locks : held.locks + 1 - 1 ≡ held.locks = omega arith in
        rw (locks, close_port-first fd held.ports) fails)
      (λ _. serving fd)

rtu_start-Starts :
    (a : PortAnswers) (ctx : RtuCtx) (device : Option Text) (serial : PortConfig) (held : PortHeld)
    → Starts ctx held (rtu_start a ctx device serial held)
unfolding rtu_start
rtu_start-Starts a ctx none serial held = refused
rtu_start-Starts a ctx (some []) serial held = refused
rtu_start-Starts a ctx (some (c ∷ rest)) serial held =
    if_cases (Starts ctx held) ctx.initialized (λ _. refused)
      λ _.
        if_cases (Starts ctx held) (not a.lock_made) (λ _. fails)
          λ _. begin_serving-Starts a ctx held _ (rtu_open-Opens a serial held.ports)

-- A start that does not return 0 leaves nothing behind, and the context as it was or not
-- initialized. After one that returns 0, the context is initialized, runs and has the port, and exactly
-- one more port, mutex and thread are held, of which the hook was told; a stop then gives all of them
-- back, tells the hook, and leaves the context not initialized.
pub rtu_stop-rtu_start :
    (a : PortAnswers) (ctx : RtuCtx) (device : Option Text) (serial : PortConfig) (held : PortHeld)
    → let r = rtu_start a ctx device serial held in
      let s = rtu_stop r.1 r.2 in
      ((r.0 ≢ pos 0) × (r.2 ≡ held) × ((r.1 ≡ ctx) ⊎ (r.1.initialized ≡ false)))
      ⊎ ((fd : ℕ) × (r.0 ≡ pos 0)
          × (r.1.initialized ≡ true)
          × (r.1.keep_running ≡ true)
          × (r.1.serial_fd ≡ some fd)
          × (r.2 ≡ served_by fd held)
          × (s.0.initialized ≡ false)
          × (s.1 ≡ record held { log = (fd, false) ∷ (fd, true) ∷ held.log }))
unfolding rtu_stop
rtu_stop-rtu_start a ctx device serial held = ended _ (rtu_start-Starts a ctx device serial held)
  where
    ended :
        (r : ℤ × RtuCtx × PortHeld)
        → Starts ctx held r
        → ((r.0 ≢ pos 0) × (r.2 ≡ held) × ((r.1 ≡ ctx) ⊎ (r.1.initialized ≡ false)))
          ⊎ ((fd : ℕ) × (r.0 ≡ pos 0)
              × (r.1.initialized ≡ true)
              × (r.1.keep_running ≡ true)
              × (r.1.serial_fd ≡ some fd)
              × (r.2 ≡ served_by fd held)
              × ((rtu_stop r.1 r.2).0.initialized ≡ false)
              × ((rtu_stop r.1 r.2).1 ≡ record held { log = (fd, false) ∷ (fd, true) ∷ held.log }))
    ended _ refused = inl (λ e. ground arith, refl, inl refl)
    ended _ fails = inl (λ e. ground arith, refl, inr refl)
    ended _ (serving fd) =
        let locks : held.locks + 1 - 1 ≡ held.locks = omega arith in
        let threads : held.threads + 1 - 1 ≡ held.threads = omega arith in
        inr (
          fd,
          refl,
          refl,
          refl,
          refl,
          refl,
          refl,
          rw (locks, threads, close_port-first fd held.ports) refl,
        )

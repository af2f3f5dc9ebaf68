-- ===== src/Rtu/Client/Connect/Attached.antt =====
-- The invariant of the registry of src/modbus_rtu_client.c and its contexts, and what writes to the
-- registry keep of it.
use modbus_protocol.Prelude.{
  ℕ, ◌^◌, ◌≤◌, ◌<◌, ◌≡◌, ◌≢◌, refl, sym, ap, ◌∙◌, arith, true, false, none, some, List, [], ◌∷◌,
  length, All, ◌==◌, if◌then◌else◌, if_cases, Text,
}
use modbus_protocol.Rtu.Bus.{
  Bus, Opening, PortConfig, new_bus, with_refcnt, update_bus, get_bus, unlink_bus,
  mark_bus_transaction_done, Timespec,
}
use modbus_protocol.Rtu.Bus.Lookup.{
  Keeps, Apart, Differs, fds, update_bus-get_bus, unlink_bus-get_bus,
}
use modbus_protocol.Rtu.Client.{RtuClientCtx}
use modbus_protocol.Rtu.Client.Connect.{System}
use modbus_protocol.Rtu.Client.Connect.Users.{users, uses, points}

-- A context is unconnected and points to no bus, or it is connected to a bus of the registry and
-- has its port.
pub data IsAttached (buses : List Bus) (c : RtuClientCtx) : Type 0 where
  idle : c.initialized ≡ false → c.shared_bus ≡ none → IsAttached buses c
  on :
      (a : ℕ) (b : Bus)
      → c.initialized ≡ true
      → c.shared_bus ≡ some a
      → get_bus a buses ≡ some b
      → c.fd ≡ some b.fd
      → IsAttached buses c

-- There is one bus for each path, at its own address and with its own port; the open ports are
-- those of the buses; each bus counts the contexts that point to it, of which there is one at
-- least; and each context is unconnected or attached to a bus of the registry.
pub record Inv (sys : System) : Type 0 where
  pub apart : Apart sys.registry.buses
  pub ports : sys.registry.ports ≡ fds sys.registry.buses
  pub counted :
      (a : ℕ) (b : Bus)
      → get_bus a sys.registry.buses ≡ some b
      → (b.refcnt ≡ users sys.clients a) × (1 ≤ b.refcnt)
  pub attached : All (IsAttached sys.registry.buses) sys.clients
  pub few : length sys.clients < 2 ^ 32

pub All-map :
    (P Q : RtuClientCtx → Type 0) (cs : List RtuClientCtx)
    → ((c : RtuClientCtx) → P c → Q c)
    → All P cs
    → All Q cs
All-map P Q [] f all = tt
All-map P Q (c ∷ cs) f (h, all) = (f c h, All-map P Q cs f all)

-- A write that leaves the identity of a bus alone keeps the contexts attached.
pub IsAttached-update_bus :
    (x : ℕ) (f : Bus → Bus) (keeps : Keeps f) (buses : List Bus) (c : RtuClientCtx)
    → IsAttached buses c
    → IsAttached (update_bus x f buses) c
IsAttached-update_bus x f keeps buses c (idle off nowhere) = idle off nowhere
IsAttached-update_bus x f keeps buses c (on a b up points found port) =
    on a (if a == x then f b else b) up points (update_bus-get_bus x f keeps a buses b found) (
      port
      ∙ if_cases (λ (d : Bus). some b.fd ≡ some d.fd) (a == x) (λ _. ap some (sym (keeps.fd b)))
          (λ _. refl))

pub All-both :
    (P Q : RtuClientCtx → Type 0) (cs : List RtuClientCtx)
    → All P cs
    → All Q cs
    → All (λ c. P c × Q c) cs
All-both P Q [] ps qs = tt
All-both P Q (c ∷ cs) (p, ps) (q, qs) = ((p, q), All-both P Q cs ps qs)

pub IsAttached-unlink_bus :
    (x : ℕ) (buses : List Bus) (c : RtuClientCtx)
    → IsAttached buses c × (uses x c ≡ 0)
    → IsAttached (unlink_bus x buses) c
IsAttached-unlink_bus x buses c (idle off nowhere, unused) = idle off nowhere
IsAttached-unlink_bus x buses c (on a b up points_to found port, unused) =
    let zero' : points x (some a) ≡ 0 = rw points_to at unused in
    on a b up points_to (unlink_bus-get_bus x a buses b (λ e. ground arith) found) port

pub Differs-new :
    (o : Opening) (address fd : ℕ) (key : Text) (port : PortConfig)
    → o.allocated ≡ some address
    → o.opened ≡ some fd
    → (buses : List Bus)
    → All (λ (b : Bus). (o.allocated ≢ some b.address) × (o.opened ≢ some b.fd)) buses
    → All (λ (b : Bus). b.path ≢ key) buses
    → All (Differs (with_refcnt 1 (new_bus address fd key port))) buses
Differs-new o address fd key port given is_open [] fresh paths = tt
Differs-new o address fd key port given is_open (b ∷ rest) (here', later) (path, paths) = (
  (λ e. here'.0 (given ∙ ap some (sym e)), path, λ e. here'.1 (is_open ∙ ap some (sym e))),
  Differs-new o address fd key port given is_open rest later paths,
)

-- No context points to an address that is not in use.
pub IsAttached-unused :
    (address : ℕ) (buses : List Bus)
    → ((a : ℕ) (b : Bus) → get_bus a buses ≡ some b → (address == a) ≡ false)
    → (c : RtuClientCtx) → IsAttached buses c
    → uses address c ≡ 0
IsAttached-unused address buses unused c (idle off nowhere) = rw nowhere refl
IsAttached-unused address buses unused c (on a b up points found port) =
    let other = unused a b found in rw points (ground arith)

pub IsAttached-new :
    (new : Bus) (buses : List Bus)
    → ((a : ℕ) (b : Bus) → get_bus a buses ≡ some b → (new.address == a) ≡ false)
    → (c : RtuClientCtx) → IsAttached buses c
    → IsAttached (new ∷ buses) c
unfolding get_bus
IsAttached-new new buses unused c (idle off nowhere) = idle off nowhere
IsAttached-new new buses unused c (on a b up points found port) =
    on a b up points (let other = unused a b found in rw other found) port

pub refcnt-Keeps : (n : ℕ) → Keeps (with_refcnt n)
refcnt-Keeps n = record { address = λ b. refl; path = λ b. refl; fd = λ b. refl }

pub mark-Keeps : (now : Timespec) (unit_id : ℕ) → Keeps (mark_bus_transaction_done now unit_id)
unfolding mark_bus_transaction_done
mark-Keeps now unit_id = record { address = λ b. refl; path = λ b. refl; fd = λ b. refl }

-- ===== src/Rtu/Client/Connect.antt =====
-- mb_rtu_client_connect and mb_rtu_client_disconnect of src/modbus_rtu_client.c, and a program that
-- uses them on several contexts. The pointers to the contexts are not null.
pub mod Users
pub mod Attaches
pub mod Attached
pub mod Shares
pub mod Releases
pub mod Invariant
pub mod Failure
use modbus_protocol.Prelude.{
  ℕ, ℤ, pos, negsuc, zero, suc, ◌<◌, ◌≡◌, ◌≢◌, ◌^◌, Bool, true, false, not, Option, none, some,
  List, [], ◌∷◌, length, All, get_elem?, set, ◌==◌, if◌then◌else◌, Text, ◌⊎◌,
}
use modbus_protocol.Rtu.Bus.{
  Bus, Registry, PortConfig, Opening, shared_bus_attach, shared_bus_detach, update_bus, get_bus,
  mark_bus_transaction_done, Timespec,
}
use modbus_protocol.Rtu.Client.{RtuClientConfig, RtuClientCtx}

-- What the system answers to a connect: `realpath`, whether the context's mutex was made, and what
-- opening a bus needs.
pub record Answers : Type 0 where
  pub resolved : Option Text
  pub lock_made : Bool
  pub opening : Opening

abbrev pub port_config : Text → RtuClientConfig → PortConfig
port_config device cfg = record {
  device = device;
  serial = cfg.serial;
  rs485_mode = cfg.rs485_mode;
}

-- The context that is cleared and holds the configuration.
abbrev pub fresh_ctx : RtuClientConfig → RtuClientCtx
fresh_ctx cfg = record { initialized = false; shared_bus = none; fd = none; cfg = cfg }

-- After `shared_bus_attach`.
abbrev pub attached_ctx : RtuClientConfig → Option Bus × Registry → ℤ × RtuClientCtx × Registry
attached_ctx cfg (none, reg) = (negsuc 0, fresh_ctx cfg, reg)
attached_ctx cfg (some bus, reg) = (
  pos 0,
  record { initialized = true; shared_bus = some bus.address; fd = some bus.fd; cfg = cfg },
  reg,
)

-- With a configuration that names a device.
unfoldable pub connect_device :
    Answers → RtuClientCtx → RtuClientConfig → Text → Registry → ℤ × RtuClientCtx × Registry
connect_device a ctx cfg device reg =
    if ctx.initialized
    then (negsuc 0, ctx, reg)
    else if not a.lock_made
    then (negsuc 0, fresh_ctx cfg, reg)
    else attached_ctx cfg (shared_bus_attach a.resolved a.opening (port_config device cfg) reg)

unfoldable pub rtu_client_connect :
    Answers → RtuClientCtx → Option RtuClientConfig → Registry → ℤ × RtuClientCtx × Registry
rtu_client_connect a ctx none reg = (negsuc 0, ctx, reg)
rtu_client_connect a ctx (some cfg) reg = elim cfg.device [
  | none ↦ (negsuc 0, ctx, reg)
  | some device ↦ elim device [
    | [] ↦ (negsuc 0, ctx, reg)
    | c ∷ rest ↦ connect_device a ctx cfg (c ∷ rest) reg
  ]
]

abbrev pub detached_ctx : RtuClientCtx → RtuClientCtx
detached_ctx ctx = record { initialized = false; shared_bus = none; fd = none; cfg = ctx.cfg }

-- `none` is an access through a null or dangling pointer to a bus.
unfoldable pub rtu_client_disconnect : RtuClientCtx → Registry → Option (RtuClientCtx × Registry)
rtu_client_disconnect ctx reg =
    if not ctx.initialized then some (ctx, reg) else elim ctx.shared_bus [
      | none ↦ none
      | some address ↦ elim (shared_bus_detach address reg) [
        | none ↦ none
        | some reg' ↦ some (detached_ctx ctx, reg')
      ]
    ]

-- A program with a number of contexts, and the registry that they share.
pub record System : Type 0 where
  pub registry : Registry
  pub clients : List RtuClientCtx

-- The system gives a new bus an address and a port that are not in use.
abbrev pub IsFresh : Opening → Registry → Type 0
IsFresh o reg = All (λ (b : Bus). (o.allocated ≢ some b.address) × (o.opened ≢ some b.fd)) reg.buses

abbrev pub after_connect : System → ℕ → ℤ × RtuClientCtx × Registry → System
after_connect sys i (rc, ctx, reg) = record { registry = reg; clients = set sys.clients i ctx }

abbrev pub after_disconnect : System → ℕ → RtuClientCtx × Registry → System
after_disconnect sys i (ctx, reg) = record { registry = reg; clients = set sys.clients i ctx }

-- One call on one of the contexts, or the end of a transaction on a bus.
pub data Step (sys : System) : System → Type 0 where
  connects :
      (i : ℕ) (ctx : RtuClientCtx) (a : Answers) (cfg : Option RtuClientConfig)
      → get_elem? sys.clients i ≡ some ctx
      → IsFresh a.opening sys.registry
      → Step sys (after_connect sys i (rtu_client_connect a ctx cfg sys.registry))
  disconnects :
      (i : ℕ) (ctx : RtuClientCtx) (after : RtuClientCtx × Registry)
      → get_elem? sys.clients i ≡ some ctx
      → rtu_client_disconnect ctx sys.registry ≡ some after
      → Step sys (after_disconnect sys i after)
  transacts :
      (address unit_id : ℕ) (now : Timespec)
      → Step sys record {
        registry = record {
          buses = update_bus address (mark_bus_transaction_done now unit_id) sys.registry.buses;
          ports = sys.registry.ports;
        };
        clients = sys.clients;
      }

pub data Reach (sys : System) : System → Type 0 where
  here : Reach sys sys
  next : {t u : System} → Reach sys t → Step t u → Reach sys u

-- A program starts with an empty registry and contexts that are not connected.
pub record IsInitial (sys : System) : Type 0 where
  pub no_buses : sys.registry.buses ≡ []
  pub no_ports : sys.registry.ports ≡ []
  pub unconnected :
      All (λ (c : RtuClientCtx). (c.initialized ≡ false) × (c.shared_bus ≡ none)) sys.clients
  pub few : length sys.clients < 2 ^ 32

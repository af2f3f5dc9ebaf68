-- ===== src/Rtu/Client/Connect/Invariant.antt =====
-- The registry of src/modbus_rtu_client.c counts the contexts of each bus, and keeps a port open
-- exactly as long as a context uses it.
use modbus_protocol.Prelude.{
  ℕ, negsuc, ◌≡◌, refl, sym, ◌∙◌, false, not, Option, none, some, List, [], ◌∷◌, set-get_elem?,
  All-get_elem?, get_elem?, set, if_cases, option_cases, Text,
}
use modbus_protocol.Rtu.Bus.{Bus, Registry, Opening, PortConfig, get_bus}
use modbus_protocol.Rtu.Client.{RtuClientConfig, RtuClientCtx}
use modbus_protocol.Rtu.Client.Connect.{
  System, Answers, IsFresh, port_config, fresh_ctx, attached_ctx, detached_ctx, connect_device,
  rtu_client_connect, rtu_client_disconnect, after_connect, after_disconnect, Step, connects,
  disconnects, transacts, Reach, here, next, IsInitial,
}
use modbus_protocol.Rtu.Client.Connect.Attaches.{
  Attaches, not_attached, shared, opened, shared_bus_attach-Attaches,
}
use modbus_protocol.Rtu.Client.Connect.Attached.{IsAttached, idle, on, Inv, All-map}
use modbus_protocol.Rtu.Client.Connect.Shares.{idle-Inv, shared-Inv, opened-Inv}
use modbus_protocol.Rtu.Client.Connect.Releases.{
  released, shared_bus_detach_lem, transacts-Inv, detached-Inv,
}

-- An unconnected context points to no bus.
unconnected_idle :
    (buses : List Bus) (c : RtuClientCtx)
    → IsAttached buses c
    → c.initialized ≡ false
    → c.shared_bus ≡ none
unconnected_idle buses c (idle off nowhere) e = nowhere
unconnected_idle buses c (on a b up points_to found port) e = absurd (cc (up, e))

module _ (sys : System) (i : ℕ) (ctx : RtuClientCtx) (at_i : get_elem? sys.clients i ≡ some ctx)
    (v : Inv sys) where
  own : IsAttached sys.registry.buses ctx
  own = All-get_elem? _ sys.clients i ctx v.attached at_i

  unchanged-Inv : Inv record { registry = sys.registry; clients = set sys.clients i ctx }
  unchanged-Inv = rw (set-get_elem? {0} sys.clients i ctx at_i) v

  attached-Inv :
      (o : Opening) (cfg : RtuClientConfig) (port : PortConfig) (r : Option Bus × Registry)
      → ctx.initialized ≡ false
      → IsFresh o sys.registry
      → Attaches o port sys.registry r
      → Inv (after_connect sys i (attached_ctx cfg r))
  attached-Inv o cfg port _ off fresh not_attached =
      idle-Inv sys i ctx at_i v (fresh_ctx cfg) (unconnected_idle _ ctx own off) refl refl
  attached-Inv o cfg port _ off fresh (shared bus found matches) =
      shared-Inv sys i ctx at_i v bus cfg (unconnected_idle _ ctx own off) found
  attached-Inv o cfg port _ off fresh (opened address fd key given is_open new_path) =
      opened-Inv sys i ctx at_i v o address fd key cfg port (unconnected_idle _ ctx own off) fresh
        given is_open new_path

  connect_device-Inv :
      (a : Answers) (cfg : RtuClientConfig) (device : Text)
      → IsFresh a.opening sys.registry
      → Inv (after_connect sys i (connect_device a ctx cfg device sys.registry))
  unfolding connect_device
  connect_device-Inv a cfg device fresh =
      if_cases (λ r. Inv (after_connect sys i r)) ctx.initialized (λ _. unchanged-Inv)
        λ off.
          if_cases (λ r. Inv (after_connect sys i r)) (not a.lock_made)
            (λ _.
              idle-Inv sys i ctx at_i v (fresh_ctx cfg) (unconnected_idle _ ctx own off) refl refl)
            (λ _. attached-Inv a.opening cfg (port_config device cfg) _ off fresh (
              shared_bus_attach-Attaches a.resolved a.opening (port_config device cfg) sys.registry
                v.apart))

  connects-Inv :
      (a : Answers) (cfg : Option RtuClientConfig)
      → IsFresh a.opening sys.registry
      → Inv (after_connect sys i (rtu_client_connect a ctx cfg sys.registry))
  unfolding rtu_client_connect
  connects-Inv a none fresh = unchanged-Inv
  connects-Inv a (some cfg) fresh =
      option_cases (λ r. Inv (after_connect sys i r)) cfg.device (λ _. unchanged-Inv)
        λ device _. by_device cfg device
    where
      by_device :
          (cfg : RtuClientConfig) (device : Text)
          → Inv (
              after_connect sys i (elim device [
                | [] ↦ (negsuc 0, ctx, sys.registry)
                | c ∷ rest ↦ connect_device a ctx cfg (c ∷ rest) sys.registry
              ]))
      by_device cfg [] = unchanged-Inv
      by_device cfg (c ∷ rest) = connect_device-Inv a cfg (c ∷ rest) fresh

  -- A context that is connected can always disconnect: the pointer to its bus is good, and the
  -- context is unconnected afterwards.
  disconnect_lem :
      (after : RtuClientCtx × Registry) × (rtu_client_disconnect ctx sys.registry ≡ some after)
      × (after.0.initialized ≡ false)
      × (after.0.shared_bus ≡ none)
      × Inv (after_disconnect sys i after)
  unfolding rtu_client_disconnect
  disconnect_lem = elim own [
    | idle off nowhere ↦ ((ctx, sys.registry), rw off refl, off, nowhere, unchanged-Inv)
    | on a b up points_to found port ↦ (
      (detached_ctx ctx, released a b sys.registry),
      (let active : not ctx.initialized ≡ false = rw up refl in
          rw (active, points_to, shared_bus_detach_lem a b sys.registry found) refl),
      refl,
      refl,
      detached-Inv sys i ctx at_i v a b points_to found,
    )
  ]

-- In a system with the invariant, every context can be disconnected: no dangling or null pointer to
-- a bus is followed, and the context is unconnected afterwards.
pub rtu_client_disconnect_defined :
    (sys : System) (i : ℕ) (ctx : RtuClientCtx)
    → Inv sys
    → get_elem? sys.clients i ≡ some ctx
    → (after : RtuClientCtx × Registry) × (rtu_client_disconnect ctx sys.registry ≡ some after)
      × (after.0.initialized ≡ false)
      × (after.0.shared_bus ≡ none)
rtu_client_disconnect_defined sys i ctx v at_i =
    let (after, ran, off, nowhere, _) = disconnect_lem sys i ctx at_i v in
    (after, ran, off, nowhere)

pub Step-Inv : {sys t : System} → Inv sys → Step sys t → Inv t
Step-Inv {sys} v (connects i ctx a cfg at_i fresh) = connects-Inv sys i ctx at_i v a cfg fresh
Step-Inv {sys} v (disconnects i ctx after at_i ran) =
    let (after', ran', _, _, kept) = disconnect_lem sys i ctx at_i v in
    let same : after' ≡ after = cc (sym ran' ∙ ran) in rw (sym same) kept
Step-Inv {sys} v (transacts x unit_id now) = transacts-Inv sys x unit_id now v

IsInitial-Inv : (sys : System) → IsInitial sys → Inv sys
unfolding get_bus
IsInitial-Inv sys start =
    let buses = start.no_buses in
    record {
      apart = rw buses tt;
      ports = start.no_ports ∙ rw buses refl;
      counted = λ a b found. let bad : none ≡ some b = rw buses at found in absurd (cc bad);
      attached = All-map _ _ sys.clients (λ c (off, nowhere). idle off nowhere) start.unconnected;
      few = start.few;
    }

-- From an empty registry and fewer than 2^32 unconnected contexts on, where a new bus gets an address
-- and a port that are not in use: whatever contexts connect, disconnect and carry out transactions,
-- in any order, with connects that fail among them, there is one bus for each path, at its own address and with its own port; the
-- open ports are those of the buses; each bus counts the contexts that point to it, of which there
-- is at least one; and each context is unconnected or attached to a bus of the registry.
pub Reach-Inv : {sys t : System} → IsInitial sys → Reach sys t → Inv t
Reach-Inv {sys} start here = IsInitial-Inv sys start
Reach-Inv start (next r st) = Step-Inv (Reach-Inv start r) st

-- ===== src/Rtu/Client/Connect/Releases.antt =====
-- A context of src/modbus_rtu_client.c that lets go of its bus keeps the invariant, and so does a
-- transaction.
use modbus_protocol.Prelude.{
  ℕ, ◌+◌, ◌-◌, ◌^◌, ◌≤◌, ◌<◌, ◌≡◌, ◌≢◌, refl, sym, ap, ◌∙◌, inl, inr, arith, true, Option, none,
  some, List, length, length-set, All, All-set, get_elem?, set, ltb, ◌==◌, if◌then◌else◌, if_cases,
  Bool-cases,
}
use modbus_protocol.Rtu.Bus.{
  Bus, Registry, with_refcnt, update_bus, get_bus, unlink_bus, close_port, shared_bus_detach,
  mark_bus_transaction_done, Timespec,
}
use modbus_protocol.Rtu.Bus.Lookup.{
  ne-test, get_bus-update_bus, Apart-update_bus, fds-update_bus, Apart-unlink_bus,
  get_bus-unlink_bus, fds-unlink_bus,
}
use modbus_protocol.Rtu.Client.{RtuClientCtx}
use modbus_protocol.Rtu.Client.Connect.{System, detached_ctx}
use modbus_protocol.Rtu.Client.Connect.Users.{users, uses, users-set, users-zero}
use modbus_protocol.Rtu.Client.Connect.Attached.{
  IsAttached, idle, Inv, All-map, All-both, IsAttached-update_bus, IsAttached-unlink_bus,
  refcnt-Keeps, mark-Keeps,
}

-- What shared_bus_detach leaves, for the bus at that address.
abbrev pub released : ℕ → Bus → Registry → Registry
released a b reg =
    let left = if ltb 0 b.refcnt then b.refcnt - 1 else b.refcnt in
    if left == 0
    then record { buses = unlink_bus a reg.buses; ports = close_port b.fd reg.ports }
    else record { buses = update_bus a (with_refcnt left) reg.buses; ports = reg.ports }

pub shared_bus_detach_lem :
    (a : ℕ) (b : Bus) (reg : Registry)
    → get_bus a reg.buses ≡ some b
    → shared_bus_detach a reg ≡ some (released a b reg)
unfolding shared_bus_detach
shared_bus_detach_lem a b reg found =
    ap (λ (o : Option Bus). elim o [ none ↦ none | some bus ↦ some (released a bus reg) ]) found

-- The end of a transaction.
pub transacts-Inv :
    (sys : System) (x unit_id : ℕ) (now : Timespec)
    → Inv sys
    → Inv record {
      registry = record {
        buses = update_bus x (mark_bus_transaction_done now unit_id) sys.registry.buses;
        ports = sys.registry.ports;
      };
      clients = sys.clients;
    }
transacts-Inv sys x unit_id now v =
    let f = mark_bus_transaction_done now unit_id in
    let keeps = mark-Keeps now unit_id in
    record {
      apart = Apart-update_bus x f keeps sys.registry.buses v.apart;
      ports = v.ports ∙ sym (fds-update_bus x f keeps sys.registry.buses);
      counted = λ a b found.
          let (c, before, is) = get_bus-update_bus x f keeps a sys.registry.buses b found in
          let same : b.refcnt ≡ c.refcnt =
            ap (λ (d : Bus). d.refcnt) is
            ∙ if_cases (λ (d : Bus). d.refcnt ≡ c.refcnt) (a == x)
                (λ _. unfold mark_bus_transaction_done in refl) (λ _. refl) in
          let (count, some') = v.counted a c before in (same ∙ count, omega (arith, same, some'));
      attached =
          All-map _ _ sys.clients (IsAttached-update_bus x f keeps sys.registry.buses) v.attached;
      few = v.few;
    }

module _ (sys : System) (i : ℕ) (ctx : RtuClientCtx) (at_i : get_elem? sys.clients i ≡ some ctx)
    (v : Inv sys) where
  module _ (a : ℕ) (b : Bus) (points_to : ctx.shared_bus ≡ some a)
      (found : get_bus a sys.registry.buses ≡ some b) where
    abbrev buses : List Bus
    buses = sys.registry.buses

    abbrev pub remaining : List RtuClientCtx
    remaining = set sys.clients i (detached_ctx ctx)

    one_less : users remaining a + 1 ≡ users sys.clients a
    one_less =
        let moved = users-set sys.clients i a ctx (detached_ctx ctx) at_i in
        let was : uses a ctx ≡ 1 = rw points_to (ground arith) in omega (arith, moved, was)

    others_same : (a' : ℕ) → a' ≢ a → users remaining a' ≡ users sys.clients a'
    others_same a' ne =
        let moved = users-set sys.clients i a' ctx (detached_ctx ctx) at_i in
        let was : uses a' ctx ≡ 0 = rw points_to (rw (ne-test a a' (λ e. ne (sym e))) refl) in
        omega (arith, moved, was)

    still_few : length remaining < 2 ^ 32
    still_few = omega (arith, length-set {0} sys.clients i (detached_ctx ctx), v.few)

    still_attached : All (IsAttached buses) remaining
    still_attached = All-set _ sys.clients i (detached_ctx ctx) (idle refl refl) v.attached

    -- The last context lets go: the bus is closed.
    last-Inv :
        b.refcnt ≡ 1
        → Inv record {
          registry = record {
            buses = unlink_bus a buses;
            ports = close_port b.fd sys.registry.ports;
          };
          clients = remaining;
        }
    last-Inv last =
        let (count, some') = v.counted a b found in
        let none_left : users remaining a ≡ 0 = omega (arith, one_less) in
        record {
          apart = Apart-unlink_bus a buses v.apart;
          ports = ap (close_port b.fd) v.ports ∙ sym (fds-unlink_bus a buses b v.apart found);
          counted = λ a' b' now.
              let (ne, old) = get_bus-unlink_bus a a' buses b' v.apart now in
              let (count', some'') = v.counted a' b' old in
              (count' ∙ sym (others_same a' ne), some'');
          attached =
              All-map _ _ remaining (IsAttached-unlink_bus a buses)
                (All-both _ _ remaining still_attached (users-zero remaining a none_left));
          few = still_few;
        }

    -- Others still use the bus.
    fewer-Inv :
        2 ≤ b.refcnt
        → Inv record {
          registry = record {
            buses = update_bus a (with_refcnt (b.refcnt - 1)) buses;
            ports = sys.registry.ports;
          };
          clients = remaining;
        }
    fewer-Inv several =
        let left = b.refcnt - 1 in
        let keeps = refcnt-Keeps left in
        let count_b = (v.counted a b found).0 in
        record {
          apart = Apart-update_bus a (with_refcnt left) keeps buses v.apart;
          ports = v.ports ∙ sym (fds-update_bus a (with_refcnt left) keeps buses);
          counted = λ a' b' now.
              let (c, old, is) = get_bus-update_bus a (with_refcnt left) keeps a' buses b' now in
              elim (Bool-cases (a' == a)) [
                | inl same ↦
                    let at_a : a' ≡ a = ground arith in
                    let refcnt : b'.refcnt ≡ left = ap (λ (d : Bus). d.refcnt) is ∙ rw same refl in
                    let total : users remaining a' ≡ users remaining a =
                      ap (users remaining) at_a in
                    let less = one_less in (omega arith, omega arith)
                | inr other ↦
                    let ne : a' ≢ a = λ e. ground arith in
                    let refcnt : b'.refcnt ≡ c.refcnt =
                      ap (λ (d : Bus). d.refcnt) is ∙ rw other refl in
                    let (count', some'') = v.counted a' c old in
                    (refcnt ∙ count' ∙ sym (others_same a' ne), omega arith)
              ];
          attached =
              All-map _ _ remaining (IsAttached-update_bus a (with_refcnt left) keeps buses)
                still_attached;
          few = still_few;
        }

    pub detached-Inv : Inv record { registry = released a b sys.registry; clients = remaining }
    detached-Inv =
        let some' = (v.counted a b found).1 in
        let positive : ltb 0 b.refcnt ≡ true = ground arith in
        elim (Bool-cases (b.refcnt - 1 == 0)) [
          | inl last ↦ rw (positive, last) (last-Inv (ground arith))
          | inr more ↦ rw (positive, more) (fewer-Inv (ground arith))
        ]

-- ===== src/Rtu/Client/Connect/Shares.antt =====
-- A context of src/modbus_rtu_client.c that shares or opens a bus keeps the invariant.
use modbus_protocol.Prelude.{
  ℕ, ◌+◌, ◌≡◌, ◌≢◌, refl, sym, ap, ◌∙◌, inl, inr, arith, true, false, none, some, ◌∷◌, length-set,
  All, All-set, get_elem?, set, u32, ◌==◌, Text, Bool-cases,
}
use modbus_protocol.Rtu.Bus.{Bus, Opening, PortConfig, new_bus, with_refcnt, get_bus, count_up}
use modbus_protocol.Rtu.Bus.Lookup.{
  get_bus-address, All-get_bus, ne-test, get_bus-update_bus, update_bus-get_bus, Apart-update_bus,
  fds-update_bus,
}
use modbus_protocol.Rtu.Client.{RtuClientConfig, RtuClientCtx}
use modbus_protocol.Rtu.Client.Connect.{System, IsFresh, attached_ctx, after_connect}
use modbus_protocol.Rtu.Client.Connect.Users.{users, uses, users-set, users-le, users-none}
use modbus_protocol.Rtu.Client.Connect.Attached.{
  idle, on, Inv, All-map, IsAttached-update_bus, IsAttached-unused, IsAttached-new, Differs-new,
  refcnt-Keeps,
}

-- Replacing a context that points to no bus by another such changes no count.
module _ (sys : System) (i : ℕ) (ctx : RtuClientCtx) (at_i : get_elem? sys.clients i ≡ some ctx)
    (v : Inv sys) where
  pub idle-Inv :
      (ctx' : RtuClientCtx)
      → ctx.shared_bus ≡ none
      → ctx'.initialized ≡ false
      → ctx'.shared_bus ≡ none
      → Inv record { registry = sys.registry; clients = set sys.clients i ctx' }
  idle-Inv ctx' was off nowhere = record {
    apart = v.apart;
    ports = v.ports;
    counted = λ a b found.
        let moved = users-set sys.clients i a ctx ctx' at_i in
        let before : uses a ctx ≡ 0 = rw was refl in
        let after : uses a ctx' ≡ 0 = rw nowhere refl in
        let (count, some') = v.counted a b found in
        (omega (arith, moved, before, after, count), some');
    attached = All-set _ sys.clients i ctx' (idle off nowhere) v.attached;
    few = omega (arith, length-set {0} sys.clients i ctx', v.few);
  }

  -- A context that was not connected shares a bus.
  pub shared-Inv :
      (bus : Bus) (cfg : RtuClientConfig)
      → ctx.shared_bus ≡ none
      → get_bus bus.address sys.registry.buses ≡ some bus
      → Inv (after_connect sys i (attached_ctx cfg (count_up (some bus, sys.registry))))
  shared-Inv bus cfg was found =
      let x = bus.address in
      let n = u32 (bus.refcnt + 1) in
      let keeps = refcnt-Keeps n in
      let buses = sys.registry.buses in
      let (count_x, some_x) = v.counted x bus found in
      let ctx' : RtuClientCtx = record {
        initialized = true;
        shared_bus = some x;
        fd = some bus.fd;
        cfg = cfg;
      } in
      let before : (a : ℕ) → uses a ctx ≡ 0 = λ a. rw was refl in
      record {
        apart = Apart-update_bus x (with_refcnt n) keeps buses v.apart;
        ports = v.ports ∙ sym (fds-update_bus x (with_refcnt n) keeps buses);
        counted = λ a b now.
            let (c, old, is) = get_bus-update_bus x (with_refcnt n) keeps a buses b now in
            let (count, some') = v.counted a c old in
            let moved = users-set sys.clients i a ctx ctx' at_i in
            let room = users-le (set sys.clients i ctx') a in
            let size = length-set {0} sys.clients i ctx' in
            elim (Bool-cases (a == x)) [
              | inl same ↦
                  let at_x : a ≡ x = ground arith in
                  let now_refcnt : b.refcnt ≡ n = ap (λ (d : Bus). d.refcnt) is ∙ rw same refl in
                  let one : uses a ctx' ≡ 1 = ground arith in
                  let count' : bus.refcnt ≡ users sys.clients a = rw at_x count_x in
                  let few = v.few in let none_before = before a in (omega arith, omega arith)
              | inr other ↦
                  let now_refcnt : b.refcnt ≡ c.refcnt =
                    ap (λ (d : Bus). d.refcnt) is ∙ rw other refl in
                  let zero' : uses a ctx' ≡ 0 = ground arith in
                  let none_before = before a in (omega arith, omega arith)
            ];
        attached =
            All-set _ sys.clients i ctx'
              (on x (with_refcnt n bus) refl refl
                (update_bus-get_bus x (with_refcnt n) keeps x buses bus found
                  ∙ (let own : (x == x) ≡ true = ground arith in rw own refl))
                refl)
              (All-map _ _ sys.clients (IsAttached-update_bus x (with_refcnt n) keeps buses)
                v.attached);
        few = omega (arith, length-set {0} sys.clients i ctx', v.few);
      }

  -- A context that was not connected opens a bus.
  pub opened-Inv :
      (o : Opening) (address fd : ℕ) (key : Text) (cfg : RtuClientConfig) (port : PortConfig)
      → ctx.shared_bus ≡ none
      → IsFresh o sys.registry
      → o.allocated ≡ some address
      → o.opened ≡ some fd
      → All (λ (b : Bus). b.path ≢ key) sys.registry.buses
      → Inv (
          after_connect sys i (
            attached_ctx cfg (
              some (with_refcnt 1 (new_bus address fd key port)),
              record {
                buses = with_refcnt 1 (new_bus address fd key port) ∷ sys.registry.buses;
                ports = fd ∷ sys.registry.ports;
              },
            )))
  unfolding get_bus
  opened-Inv o address fd key cfg port was fresh given is_open new_path =
      let buses = sys.registry.buses in
      let new = with_refcnt 1 (new_bus address fd key port) in
      let ctx' : RtuClientCtx = record {
        initialized = true;
        shared_bus = some address;
        fd = some fd;
        cfg = cfg;
      } in
      let unused : (a : ℕ) (b : Bus) → get_bus a buses ≡ some b → (address == a) ≡ false =
        λ a b found.
          let ne = All-get_bus _ a buses b fresh found in
          let at_a = get_bus-address a buses b found in
          ne-test address a (λ e. ne.0 (given ∙ ap some (e ∙ sym at_a))) in
      let none_before : users sys.clients address ≡ 0 =
        users-none sys.clients address
          (All-map _ _ sys.clients (IsAttached-unused address buses unused) v.attached) in
      record {
        apart = (Differs-new o address fd key port given is_open buses fresh new_path, v.apart);
        ports = ap (λ l. fd ∷ l) v.ports;
        counted = λ a b now.
            let moved = users-set sys.clients i a ctx ctx' at_i in
            let before : uses a ctx ≡ 0 = rw was refl in
            elim (Bool-cases (address == a)) [
              | inl same ↦
                  let is : new ≡ b = cc (rw same at now) in
                  let at_new : address ≡ a = ground arith in
                  let one : uses a ctx' ≡ 1 = rw same refl in
                  let none' : users sys.clients a ≡ 0 = rw (sym at_new) none_before in
                  let refcnt : 1 ≡ b.refcnt = ap (λ (d : Bus). d.refcnt) is in
                  (omega arith, omega arith)
              | inr other ↦
                  let (count, some') = v.counted a b (rw other at now) in
                  let zero' : uses a ctx' ≡ 0 = rw other refl in (omega arith, some')
            ];
        attached =
            All-set _ sys.clients i ctx'
              (on address new refl refl
                (let own : (address == address) ≡ true = ground arith in rw own refl) refl)
              (All-map _ _ sys.clients (IsAttached-new new buses unused) v.attached);
        few = omega (arith, length-set {0} sys.clients i ctx', v.few);
      }

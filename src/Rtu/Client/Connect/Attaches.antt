-- ===== src/Rtu/Client/Connect/Attaches.antt =====
-- What shared_bus_attach of src/modbus_rtu_client.c comes to.
use modbus_protocol.Prelude.{
  ℕ, ◌≡◌, ◌≢◌, ap, ◌∙◌, arith, true, false, Option, none, some, List, [], ◌∷◌, All, Bool-cases, inl,
  inr, Text, same_text, same_text_sound, same_text_refl, ◌==◌, if◌then◌else◌, option_cases,
  if_cases, sym,
}
use modbus_protocol.Rtu.Bus.{
  Bus, Registry, PortConfig, Opening, find_bus_locked, bus_settings_match, open_bus_locked,
  close_port, new_bus, with_refcnt, update_bus, get_bus, count_up, shared_bus_attach,
  resolve_bus_key,
}
use modbus_protocol.Rtu.Bus.Lookup.{ne-test, Apart, Differs, All-get_bus}

-- A bus that was found is that at its address, and has this path.
pub find_bus_locked-get_bus :
    (key : Text) (bs : List Bus) (b : Bus)
    → Apart bs
    → find_bus_locked key bs ≡ some b
    → (get_bus b.address bs ≡ some b) × (b.path ≡ key)
unfolding find_bus_locked get_bus
find_bus_locked-get_bus key [] b apart e = absurd (cc)
find_bus_locked-get_bus key (c ∷ rest) b (here, later) e =
    elim (Bool-cases (same_text c.path key)) [
      | inl same ↦
          let found : some c ≡ some b = rw same at e in
          let is : c ≡ b = cc found in
          let first : (c.address == b.address) ≡ true =
            ground (arith, ap (λ (d : Bus). d.address) is) in
          (rw first found, ap (λ (d : Bus). d.path) (sym is) ∙ same_text_sound c.path key same)
      | inr other ↦
          let (found, path) = find_bus_locked-get_bus key rest b later (rw other at e) in
          let differs = All-get_bus (Differs c) b.address rest b here found in
          let skip : (c.address == b.address) ≡ false =
            ne-test c.address b.address (λ is. differs.0 (sym is)) in
          (rw skip found, path)
    ]

find_bus_locked-none :
    (key : Text) (bs : List Bus)
    → find_bus_locked key bs ≡ none
    → All (λ (b : Bus). b.path ≢ key) bs
unfolding find_bus_locked
find_bus_locked-none key [] e = tt
find_bus_locked-none key (c ∷ rest) e = elim (Bool-cases (same_text c.path key)) [
  | inl same ↦ let bad : some c ≡ none = rw same at e in absurd (cc bad)
  | inr other ↦ (
    λ is. let yes' : same_text c.path key ≡ true = rw is (same_text_refl key) in cc (other, yes'),
    find_bus_locked-none key rest (rw other at e),
  )
]

-- Nothing happened, a bus that was open is shared by one more, or a bus was opened at an address and
-- with a port that were not in use, for a path that had none.
pub data Attaches (o : Opening) (port : PortConfig) (reg : Registry)
    : Option Bus × Registry → Type 0 where
  not_attached : Attaches o port reg (none, reg)
  shared :
      (bus : Bus)
      → get_bus bus.address reg.buses ≡ some bus
      → bus_settings_match bus port ≡ true
      → Attaches o port reg (count_up (some bus, reg))
  opened :
      (address fd : ℕ) (key : Text)
      → o.allocated ≡ some address
      → o.opened ≡ some fd
      → All (λ (b : Bus). b.path ≢ key) reg.buses
      → Attaches o port reg (
        some (with_refcnt 1 (new_bus address fd key port)),
        record {
          buses = with_refcnt 1 (new_bus address fd key port) ∷ reg.buses;
          ports = fd ∷ reg.ports;
        },
      )

module _ (o : Opening) (port : PortConfig) (reg : Registry) (key : Text) where
  open_bus_locked-Attaches :
      All (λ (b : Bus). b.path ≢ key) reg.buses
      → Attaches o port reg (count_up (open_bus_locked o key port reg))
  unfolding open_bus_locked close_port update_bus
  open_bus_locked-Attaches new_path =
      option_cases (λ x. Attaches o port reg (count_up x)) o.allocated (λ _. not_attached)
        λ address given.
          option_cases (λ x. Attaches o port reg (count_up x)) o.opened (λ _. not_attached)
            λ fd is_open.
              if_cases (λ x. Attaches o port reg (count_up x)) o.mutex_made
                (λ _.
                  let own : (address == address) ≡ true = ground arith in
                  rw own (opened address fd key given is_open new_path))
                (λ _. let own : (fd == fd) ≡ true = ground arith in rw own not_attached)

  found-Attaches :
      Apart reg.buses
      → Attaches o port reg (
          count_up (elim (find_bus_locked key reg.buses) [
            | some bus ↦ if bus_settings_match bus port then (some bus, reg) else (none, reg)
            | none ↦ open_bus_locked o key port reg
          ]))
  found-Attaches apart =
      option_cases (λ x. Attaches o port reg (count_up x)) (find_bus_locked key reg.buses)
        (λ missing. open_bus_locked-Attaches (find_bus_locked-none key reg.buses missing))
        λ bus found.
          if_cases (λ x. Attaches o port reg (count_up x)) (bus_settings_match bus port)
            (shared bus (find_bus_locked-get_bus key reg.buses bus apart found).0)
            (λ _. not_attached)

pub shared_bus_attach-Attaches :
    (resolved : Option Text) (o : Opening) (port : PortConfig) (reg : Registry)
    → Apart reg.buses
    → Attaches o port reg (shared_bus_attach resolved o port reg)
unfolding shared_bus_attach
shared_bus_attach-Attaches resolved o port reg apart =
    option_cases (Attaches o port reg) (resolve_bus_key resolved port.device) (λ _. not_attached)
      (λ key _. found-Attaches o port reg key apart)

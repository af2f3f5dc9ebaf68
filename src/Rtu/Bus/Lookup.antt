-- ===== src/Rtu/Bus/Lookup.antt =====
-- The registry's list by the address of its buses: what its updates keep.
use modbus_protocol.Prelude.{
  ℕ, ◌≡◌, ◌≢◌, refl, sym, ap, ◌∙◌, arith, false, some, List, [], ◌∷◌, All, Bool-cases, inl, inr,
  ◌==◌, if◌then◌else◌,
}
use modbus_protocol.Rtu.Bus.{Bus, update_bus, get_bus, unlink_bus, close_port}

-- A write that leaves the identity of a bus alone.
pub record Keeps (f : Bus → Bus) : Type 0 where
  pub address : (b : Bus) → (f b).address ≡ b.address
  pub path : (b : Bus) → (f b).path ≡ b.path
  pub fd : (b : Bus) → (f b).fd ≡ b.fd

abbrev pub Differs : Bus → Bus → Type 0
Differs b c = (c.address ≢ b.address) × (c.path ≢ b.path) × (c.fd ≢ b.fd)

-- One bus for each path, each at its own address and with its own port.
abbrev pub Apart : List Bus → Type 0
Apart [] = Unit {0}
Apart (b ∷ rest) = All (Differs b) rest × Apart rest

abbrev pub fds : List Bus → List ℕ
fds [] = []
fds (b ∷ rest) = b.fd ∷ fds rest

pub get_bus-address : (a : ℕ) (bs : List Bus) (b : Bus) → get_bus a bs ≡ some b → b.address ≡ a
unfolding get_bus
get_bus-address a [] b e = cc
get_bus-address a (c ∷ rest) b e = ground (arith, get_bus-address a rest b)

pub All-get_bus :
    (P : Bus → Type 0) (a : ℕ) (bs : List Bus) (b : Bus) → All P bs → get_bus a bs ≡ some b → P b
unfolding get_bus
All-get_bus P a [] b all e = absurd (cc)
All-get_bus P a (c ∷ rest) b (here, later) e = elim (Bool-cases (c.address == a)) [
  | inl same ↦
      let found : some c ≡ some b = rw same at e in let is : c ≡ b = cc found in rw (sym is) here
  | inr other ↦ All-get_bus P a rest b later (rw other at e)
]

pub ne-test : (a b : ℕ) → a ≢ b → (a == b) ≡ false
ne-test a b ne = ground arith

module _ (x : ℕ) (f : Bus → Bus) (keeps : Keeps f) where
  pub get_bus-update_bus :
      (a : ℕ) (bs : List Bus) (b : Bus)
      → get_bus a (update_bus x f bs) ≡ some b
      → (c : Bus) × (get_bus a bs ≡ some c) × (b ≡ (if a == x then f c else c))
  unfolding get_bus update_bus
  get_bus-update_bus a [] b e = absurd (cc)
  get_bus-update_bus a (c ∷ rest) b e = elim (Bool-cases (c.address == x)) [
    | inl same ↦ elim (Bool-cases (c.address == a)) [
      | inl here ↦ (c, rw here refl, ground (arith, keeps.address c))
      | inr there ↦ (b, ground (arith, keeps.address c), ground arith)
    ]
    | inr other ↦ elim (Bool-cases (c.address == a)) [
      | inl here ↦ (c, rw here refl, ground arith)
      | inr there ↦
          let (d, found, is) = get_bus-update_bus a rest b (rw (other, there) at e) in
          (d, rw there found, is)
    ]
  ]

  pub update_bus-get_bus :
      (a : ℕ) (bs : List Bus) (c : Bus)
      → get_bus a bs ≡ some c
      → get_bus a (update_bus x f bs) ≡ some (if a == x then f c else c)
  unfolding get_bus update_bus
  update_bus-get_bus a [] c e = absurd (cc)
  update_bus-get_bus a (d ∷ rest) c e = ground (arith, keeps.address d, update_bus-get_bus a rest c)

  pub All-update_bus :
      (P : Bus → Type 0) (bs : List Bus)
      → ((b : Bus) → P b → P (f b))
      → All P bs
      → All P (update_bus x f bs)
  unfolding update_bus
  All-update_bus P [] keep all = tt
  All-update_bus P (c ∷ rest) keep (here, later) = elim (Bool-cases (c.address == x)) [
    | inl same ↦ rw same (keep c here, later)
    | inr other ↦ rw other (here, All-update_bus P rest keep later)
  ]

  pub Apart-update_bus : (bs : List Bus) → Apart bs → Apart (update_bus x f bs)
  unfolding update_bus
  Apart-update_bus [] apart = tt
  Apart-update_bus (c ∷ rest) (here, later) = elim (Bool-cases (c.address == x)) [
    | inl same ↦ rw same (rw (keeps.address c, keeps.path c, keeps.fd c) here, later)
    | inr other ↦ rw other (
      All-update_bus (Differs c) rest (λ b d. rw (keeps.address b, keeps.path b, keeps.fd b) d)
          here,
      Apart-update_bus rest later,
    )
  ]

  pub fds-update_bus : (bs : List Bus) → fds (update_bus x f bs) ≡ fds bs
  unfolding update_bus
  fds-update_bus [] = refl
  fds-update_bus (c ∷ rest) = ground (arith, keeps.fd c, fds-update_bus rest)

module _ (x : ℕ) where
  pub All-unlink_bus : (P : Bus → Type 0) (bs : List Bus) → All P bs → All P (unlink_bus x bs)
  unfolding unlink_bus
  All-unlink_bus P [] all = tt
  All-unlink_bus P (c ∷ rest) (here, later) = elim (Bool-cases (c.address == x)) [
    | inl same ↦ rw same later
    | inr other ↦ rw other (here, All-unlink_bus P rest later)
  ]

  pub Apart-unlink_bus : (bs : List Bus) → Apart bs → Apart (unlink_bus x bs)
  unfolding unlink_bus
  Apart-unlink_bus [] apart = tt
  Apart-unlink_bus (c ∷ rest) (here, later) = elim (Bool-cases (c.address == x)) [
    | inl same ↦ rw same later
    | inr other ↦ rw other (All-unlink_bus (Differs c) rest here, Apart-unlink_bus rest later)
  ]

  -- Where each address is taken once, a bus that is left has another address, and was there before.
  pub get_bus-unlink_bus :
      (a : ℕ) (bs : List Bus) (b : Bus)
      → Apart bs
      → get_bus a (unlink_bus x bs) ≡ some b
      → (a ≢ x) × (get_bus a bs ≡ some b)
  unfolding get_bus unlink_bus
  get_bus-unlink_bus a [] b apart e = absurd (cc)
  get_bus-unlink_bus a (c ∷ rest) b (here, later) e = elim (Bool-cases (c.address == x)) [
    | inl same ↦
        let found = rw same at e in
        let differs = All-get_bus (Differs c) a rest b here found in
        let at_a = get_bus-address a rest b found in
        (
          λ is. differs.0 (ground arith),
          rw (ne-test c.address a (λ is. differs.0 (at_a ∙ sym is))) found,
        )
    | inr other ↦ elim (Bool-cases (c.address == a)) [
      | inl first ↦ (λ is. ground arith, rw first (rw (other, first) at e))
      | inr there ↦
          let (ne, found) = get_bus-unlink_bus a rest b later (rw (other, there) at e) in
          (ne, rw there found)
    ]
  ]

  pub unlink_bus-get_bus :
      (a : ℕ) (bs : List Bus) (b : Bus)
      → a ≢ x
      → get_bus a bs ≡ some b
      → get_bus a (unlink_bus x bs) ≡ some b
  unfolding get_bus unlink_bus
  unlink_bus-get_bus a [] b ne e = e
  unlink_bus-get_bus a (c ∷ rest) b ne e = ground (arith, unlink_bus-get_bus a rest b ne)

  pub fds-unlink_bus :
      (bs : List Bus) (b : Bus)
      → Apart bs
      → get_bus x bs ≡ some b
      → fds (unlink_bus x bs) ≡ close_port b.fd (fds bs)
  unfolding get_bus unlink_bus close_port
  fds-unlink_bus [] b apart e = absurd (cc)
  fds-unlink_bus (c ∷ rest) b (here, later) e = elim (Bool-cases (c.address == x)) [
    | inl same ↦
        let is : c ≡ b = cc (rw same at e) in rw same (ground (arith, ap (λ (d : Bus). d.fd) is))
    | inr other ↦
        let found = rw other at e in
        let differs = All-get_bus (Differs c) x rest b here found in
        rw (other, ne-test c.fd b.fd (λ is. differs.2 (sym is)))
          (ap (λ l. c.fd ∷ l) (fds-unlink_bus rest b later found))
  ]

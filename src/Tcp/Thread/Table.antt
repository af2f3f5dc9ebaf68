-- ===== src/Tcp/Thread/Table.antt =====
-- The operations on the table of clients, seen for one socket.
use modbus_protocol.Prelude.{
  ℕ, suc, ◌+◌, ◌-◌, ◌≤◌, ◌≡◌, refl, arith, Bool, false, ◌&&◌, leb, Option, none, some, List, [],
  ◌∷◌, length, Option-cases, inl, inr, ◌==◌, if◌then◌else◌, ap, sym, ◌∙◌,
}
use modbus_protocol.Tcp.Thread.{close_fd, drop_where, place}

-- How often a socket is open.
unfoldable pub opened : ℕ → List ℕ → ℕ
opened fd [] = 0
opened fd (p ∷ rest) = (if p == fd then 1 else 0) + opened fd rest

-- In how many slots a socket is.
unfoldable pub slots : ℕ → List (Option ℕ) → ℕ
slots fd [] = 0
slots fd (none ∷ rest) = slots fd rest
slots fd (some sd ∷ rest) = (if sd == fd then 1 else 0) + slots fd rest

-- What the hooks were last told of a socket: 1 that it is connected, 0 that it is not, or nothing.
unfoldable pub told : ℕ → List (ℕ × Bool) → ℕ
told fd [] = 0
told fd ((sd, up) ∷ rest) = if sd == fd then (if up then 1 else 0) else told fd rest

pub opened-close_fd :
    (fd sd : ℕ) (opens : List ℕ)
    → opened fd (close_fd sd opens) ≡ (if sd == fd then opened fd opens - 1 else opened fd opens)
unfolding close_fd opened
opened-close_fd fd sd [] = ground arith
opened-close_fd fd sd (p ∷ rest) = ground (arith, opened-close_fd fd sd rest)

module _ (fd : ℕ) (test : ℕ → Bool) where
  same_test : (sd : ℕ) → sd ≡ fd → test sd ≡ test fd
  same_test sd e = ap test e

  pub slots-drop_where :
      (table : List (Option ℕ)) (opens : List ℕ) (log : List (ℕ × Bool))
      → slots fd (drop_where test table opens log).client_fds
        ≡ (if test fd then 0 else slots fd table)
  unfolding drop_where slots
  slots-drop_where [] opens log = ground arith
  slots-drop_where (none ∷ rest) opens log = slots-drop_where rest opens log
  slots-drop_where (some sd ∷ rest) opens log = ground (
    arith,
    same_test sd,
    slots-drop_where rest (close_fd sd opens) ((sd, false) ∷ log),
    slots-drop_where rest opens log,
  )

  pub opened-drop_where :
      (table : List (Option ℕ)) (opens : List ℕ) (log : List (ℕ × Bool))
      → opened fd (drop_where test table opens log).open_fds
        ≡ (if test fd then opened fd opens - slots fd table else opened fd opens)
  unfolding drop_where slots
  opened-drop_where [] opens log = ground arith
  opened-drop_where (none ∷ rest) opens log = opened-drop_where rest opens log
  opened-drop_where (some sd ∷ rest) opens log = ground (
    arith,
    same_test sd,
    opened-close_fd fd sd opens,
    opened-drop_where rest (close_fd sd opens) ((sd, false) ∷ log),
    opened-drop_where rest opens log,
  )

  pub told-drop_where :
      (table : List (Option ℕ)) (opens : List ℕ) (log : List (ℕ × Bool))
      → told fd (drop_where test table opens log).log
        ≡ (if test fd && leb 1 (slots fd table) then 0 else told fd log)
  unfolding drop_where slots told
  told-drop_where [] opens log = ground arith
  told-drop_where (none ∷ rest) opens log = told-drop_where rest opens log
  told-drop_where (some sd ∷ rest) opens log = ground (
    arith,
    same_test sd,
    told-drop_where rest (close_fd sd opens) ((sd, false) ∷ log),
    told-drop_where rest opens log,
  )

  pub length-drop_where :
      (table : List (Option ℕ)) (opens : List ℕ) (log : List (ℕ × Bool))
      → length (drop_where test table opens log).client_fds ≡ length table
  unfolding drop_where
  length-drop_where [] opens log = refl
  length-drop_where (none ∷ rest) opens log = ap suc (length-drop_where rest opens log)
  length-drop_where (some sd ∷ rest) opens log = ground (
    arith,
    length-drop_where rest (close_fd sd opens) ((sd, false) ∷ log),
    length-drop_where rest opens log,
  )

-- The rest of the table with a taken slot before it.
abbrev beside : ℕ → Option (List (Option ℕ)) → Option (List (Option ℕ))
beside sd o = elim o [ none ↦ none | some rest ↦ some (some sd ∷ rest) ]

-- A socket that is placed is in one slot more; the others are where they were.
pub slots-place :
    (fd g : ℕ) (table table' : List (Option ℕ))
    → place fd table ≡ some table'
    → (slots g table' ≡ (if fd == g then 1 else 0) + slots g table) × (length table' ≡ length table)
unfolding place slots
slots-place fd g [] table' e = absurd (cc)
slots-place fd g (none ∷ rest) table' e = ground arith
slots-place fd g (some sd ∷ rest) table' e = elim (Option-cases (place fd rest)) [
  | inl full ↦ absurd (cc (sym (ap (beside sd) full) ∙ e))
  | inr (rest', found) ↦
      let is : some sd ∷ rest' ≡ table' = cc (sym (ap (beside sd) found) ∙ e) in
      let (count, size) = slots-place fd g rest rest' found in
      rw (sym is) (omega (arith, count), omega (arith, size))
]

-- The free slots.
unfoldable pub free : List (Option ℕ) → ℕ
free [] = 0
free (none ∷ rest) = 1 + free rest
free (some sd ∷ rest) = free rest

-- A socket finds no place only if no slot is free.
pub place-none : (fd : ℕ) (table : List (Option ℕ)) → place fd table ≡ none → free table ≡ 0
unfolding place free
place-none fd [] e = refl
place-none fd (none ∷ rest) e = absurd (cc e)
place-none fd (some sd ∷ rest) e = elim (Option-cases (place fd rest)) [
  | inl full ↦ place-none fd rest full
  | inr (rest', found) ↦
      let bad : some (some sd ∷ rest') ≡ none = sym (ap (beside sd) found) ∙ e in absurd (cc bad)
]

pub place-some :
    (fd : ℕ) (table table' : List (Option ℕ)) → place fd table ≡ some table' → 1 ≤ free table
unfolding place free
place-some fd [] table' e = absurd (cc e)
place-some fd (none ∷ rest) table' e = omega arith
place-some fd (some sd ∷ rest) table' e = elim (Option-cases (place fd rest)) [
  | inl full ↦ absurd (cc (sym (ap (beside sd) full) ∙ e))
  | inr (rest', found) ↦ place-some fd rest rest' found
]

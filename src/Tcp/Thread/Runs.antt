-- ===== src/Tcp/Thread/Runs.antt =====
-- However a server's thread and a client's thread of src/modbus_tcp.c run, the table, the open
-- sockets and what the hooks were told agree.
use modbus_protocol.Prelude.{
  ℕ, ◌+◌, ◌≤◌, ◌≡◌, refl, sym, ap, ◌∙◌, inl, inr, arith, Bool, true, false, not, ◌&&◌, leb, ltb,
  Option, none, some, List, [], ◌∷◌, length, ◌==◌, if◌then◌else◌, if_cases, option_cases,
  Bool-cases, Option-cases,
}
use modbus_protocol.Tcp.Thread.{
  close_fd, Clients, drop_where, place, Round, Activity, select_error, idle, active,
  process_clients, admit_client, server_round, server_thread, fd_setsize,
}
use modbus_protocol.Tcp.Thread.Table.{
  opened, slots, told, free, slots-drop_where, opened-drop_where, told-drop_where,
  length-drop_where, slots-place, place-none, place-some,
}

-- Each socket is open at most once, it is open exactly if it is in one slot, and the hooks were last
-- told that it is connected exactly if it is open; the table has the number of slots it was made with.
pub record Agrees (cap : ℕ) (c : Clients) : Type 0 where
  pub once : (fd : ℕ) → opened fd c.open_fds ≤ 1
  pub placed : (fd : ℕ) → slots fd c.client_fds ≡ opened fd c.open_fds
  pub reported : (fd : ℕ) → told fd c.log ≡ opened fd c.open_fds
  pub size : length c.client_fds ≡ cap

-- A round in which `accept`, if it yields a socket, yields one that is not open.
abbrev pub Obeys : Round → Clients → Type 0
Obeys r c = (fd : ℕ) → r.accepted ≡ some fd → opened fd c.open_fds ≡ 0

abbrev pub ObeysAll : List Round → Clients → Type 0
ObeysAll [] c = Unit {0}
ObeysAll (r ∷ more) c = Obeys r c × ObeysAll more (server_round r c)

module _ (cap : ℕ) where
  drop_where-Agrees :
      (test : ℕ → Bool) (c : Clients)
      → Agrees cap c
      → Agrees cap (drop_where test c.client_fds c.open_fds c.log)
  drop_where-Agrees test c v = record {
    once = λ fd. ground (arith, v.once fd, opened-drop_where fd test c.client_fds c.open_fds c.log);
    placed = λ fd. ground (
      arith,
      v.placed fd,
      opened-drop_where fd test c.client_fds c.open_fds c.log,
      slots-drop_where fd test c.client_fds c.open_fds c.log,
    );
    reported = λ fd. ground (
      arith,
      v.placed fd,
      v.reported fd,
      v.once fd,
      opened-drop_where fd test c.client_fds c.open_fds c.log,
      told-drop_where fd test c.client_fds c.open_fds c.log,
    );
    size = length-drop_where 0 test c.client_fds c.open_fds c.log ∙ v.size;
  }

  -- `accept` yields a socket that is not open.
  admit_client-Agrees :
      (r : Round) (fd : ℕ) (c : Clients)
      → opened fd c.open_fds ≡ 0
      → Agrees cap c
      → Agrees cap (admit_client r fd c)
  unfolding admit_client process_clients
  admit_client-Agrees r fd c new v =
      if_cases (Agrees cap) (not (ltb fd fd_setsize)) (λ _. rejected)
        λ _.
          option_cases (Agrees cap) (place fd c.client_fds) (λ _. rejected)
            λ table found.
              drop_where-Agrees (λ sd. r.readable sd && r.fails sd)
                record { client_fds = table; open_fds = fd ∷ c.open_fds; log = (fd, true) ∷ c.log }
                (unfold opened told in
                  record {
                    once = λ g.
                        let h = v.once g in
                        let same : fd ≡ g → opened g c.open_fds ≡ 0 = λ e. rw (sym e) new in
                        ground arith;
                    placed = λ g.
                        let h = v.placed g in
                        let (count, _) = slots-place fd g c.client_fds table found in omega arith;
                    reported = λ g.
                        let h = v.reported g in
                        let same : fd ≡ g → opened g c.open_fds ≡ 0 = λ e. rw (sym e) new in
                        ground arith;
                    size = (slots-place fd fd c.client_fds table found).1 ∙ v.size;
                  })
    where
      rejected : Agrees cap record {
        client_fds = c.client_fds;
        open_fds = close_fd fd (fd ∷ c.open_fds);
        log = c.log;
      }
      rejected =
          let own : (fd == fd) ≡ true = ground arith in
          let shut : close_fd fd (fd ∷ c.open_fds) ≡ c.open_fds = unfold close_fd in rw own refl in
          rw shut record { once = v.once; placed = v.placed; reported = v.reported; size = v.size }

  server_round-Agrees :
      (r : Round) (c : Clients) → Obeys r c → Agrees cap c → Agrees cap (server_round r c)
  unfolding server_round
  server_round-Agrees r c fresh v = by_activity r.activity
    where
      accepting : Agrees cap (elim r.accepted [ none ↦ c | some fd ↦ admit_client r fd c ])
      accepting =
          option_cases (Agrees cap) r.accepted (λ _. v)
            (λ fd e. admit_client-Agrees r fd c (fresh fd e) v)

      by_activity :
          (a : Activity)
          → Agrees cap (elim a [
            | select_error ↦ c
            | idle ↦ drop_where r.gone c.client_fds c.open_fds c.log
            | active ↦
                if r.listening
                then elim r.accepted [ none ↦ c | some fd ↦ admit_client r fd c ]
                else process_clients r c
          ])
      by_activity select_error = v
      by_activity idle = drop_where-Agrees r.gone c v
      by_activity active =
          if_cases (Agrees cap) r.listening (λ _. accepting)
            (λ _.
              unfold process_clients in drop_where-Agrees (λ sd. r.readable sd && r.fails sd) c v)

  -- From a table that agrees with the open sockets and with what the hooks were told, such as an empty
  -- one, however many rounds the server's thread runs, and whatever `select`, `accept` and the
  -- application do in them: if `accept` yields sockets that are not open, each socket stays open
  -- exactly as long as it is in a slot, of which it has one; the hooks were last told that it is
  -- connected exactly if it is open; and the table keeps its size.
  pub server_thread-Agrees :
      (rounds : List Round) (c : Clients)
      → Agrees cap c
      → ObeysAll rounds c
      → Agrees cap (server_thread rounds c)
  unfolding server_thread
  server_thread-Agrees [] c v obeys = v
  server_thread-Agrees (r ∷ more) c v (fresh, later) =
      server_thread-Agrees more (server_round r c) (server_round-Agrees r c fresh v) later

-- A new client gets a slot exactly if one is free and its number is below FD_SETSIZE. Then every
-- client that is readable and whose processing fails, the new one among them, loses its slot, and the
-- others keep theirs; otherwise the table stays as it is.
pub slots-admit_client :
    (r : Round) (fd : ℕ) (c : Clients) (g : ℕ)
    → slots g (admit_client r fd c).client_fds ≡ (
        if ltb fd fd_setsize && leb 1 (free c.client_fds)
        then (if r.readable g && r.fails g
            then 0
            else (if fd == g then 1 else 0) + slots g c.client_fds)
        else slots g c.client_fds)
unfolding admit_client process_clients
slots-admit_client r fd c g = elim (Bool-cases (ltb fd fd_setsize)) [
  | inr large ↦ rw large refl
  | inl small ↦ elim (Option-cases (place fd c.client_fds)) [
    | inl full ↦
        let none_free : leb 1 (free c.client_fds) ≡ false =
          let count = place-none fd c.client_fds full in ground arith in
        ap slots_of (ap (admitted r fd c) small ∙ ap (placed_or r fd c) full)
        ∙ rw (small, none_free) refl
    | inr (table, found) ↦
        let some_free : leb 1 (free c.client_fds) ≡ true =
          let count = place-some fd c.client_fds table found in ground arith in
        let (count, _) = slots-place fd g c.client_fds table found in
        ap slots_of (ap (admitted r fd c) small ∙ ap (placed_or r fd c) found)
        ∙ slots-drop_where g (λ sd. r.readable sd && r.fails sd) table (fd ∷ c.open_fds)
            ((fd, true) ∷ c.log)
        ∙ rw (small, some_free, count) refl
  ]
]
  where
    slots_of : Clients → ℕ
    slots_of d = slots g d.client_fds

    placed_or : Round → ℕ → Clients → Option (List (Option ℕ)) → Clients
    placed_or r fd c o = elim o [
      | none ↦ record {
        client_fds = c.client_fds;
        open_fds = close_fd fd (fd ∷ c.open_fds);
        log = c.log;
      }
      | some table ↦
          process_clients r
            record { client_fds = table; open_fds = fd ∷ c.open_fds; log = (fd, true) ∷ c.log }
    ]

    admitted : Round → ℕ → Clients → Bool → Clients
    admitted r fd c small =
        if not small
        then record {
          client_fds = c.client_fds;
          open_fds = close_fd fd (fd ∷ c.open_fds);
          log = c.log;
        }
        else placed_or r fd c (place fd c.client_fds)

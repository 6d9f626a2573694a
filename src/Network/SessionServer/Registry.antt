-- ===== src/Network/SessionServer/Registry.antt =====
-- The connections of common/network/session_server.go: each number is held by one goroutine, that of a
-- connection that runs is registered, and Close reaches all that are registered.
use go_tools.Base.{
  ℕ, ◌+◌, ◌≡◌, ◌≤◌, ◌==◌, ltb, false, List, [], ◌∷◌, Option, some, none, arith, refl, ap, inl, inr,
  Bool-cases,
}
use go_tools.Base.Keys.{nat_eq}
use go_tools.Base.Maps
use go_tools.Base.Threads.{bit, bit-le, total}
use go_tools.Network.SessionManager.{SessionManager, SessionError, add, remove}
use go_tools.Network.SessionManager.Adding.{add_intro}
use go_tools.Network.SessionServer.{
  SessionServer, Thread, adding, refusing, starting, runs_conn, removes, close_conns,
}
use go_tools.Network.SessionServer.Counts.{add-closed}
use go_tools.Network.SessionServer.Moves.{
  id_of, ids, Move, move_serve, move_close, serve_again, makes, adds, add_refuses, removed,
  close_later, stops_manager,
}

abbrev pub occurs : ℕ → List ℕ → ℕ
occurs i [] = 0
occurs i (j ∷ js) = bit (j == i) + occurs i js

-- The connection with this number is registered.
abbrev pub registered {κ} : {C : Type κ} → ℕ → List (ℕ × C) → ℕ
registered i conns = bit (Maps.has nat_eq i conns)

registered-ids {κ} :
    {C : Type κ} (i : ℕ) (conns : List (ℕ × C)) → registered i conns ≤ occurs i (ids conns)
unfolding Maps.lookup
registered-ids i [] = omega arith
registered-ids i ((j, conn) ∷ conns) = ground (arith, registered-ids i conns)

registered-insert {κ} :
    {C : Type κ} (j i : ℕ) (conn : C) (conns : List (ℕ × C))
    → (bit (j == i) ≤ registered i (Maps.insert nat_eq j conn conns))
      × (registered i conns ≤ registered i (Maps.insert nat_eq j conn conns))
registered-insert j i conn conns = (
  ground (arith, Maps.lookup-insert nat_eq j i conn conns),
  ground (arith, Maps.lookup-insert nat_eq j i conn conns),
)

registered-erase {κ} :
    {C : Type κ} (j i : ℕ) (conns : List (ℕ × C))
    → (registered i (Maps.erase nat_eq j conns) ≤ registered i conns)
      × (registered i conns ≤ registered i (Maps.erase nat_eq j conns) + bit (j == i))
registered-erase j i conns = (
  ground (arith, Maps.lookup-erase nat_eq j i conns),
  ground (arith, Maps.lookup-erase nat_eq j i conns),
)

module _ {ℓ} {E : Type ℓ} (m : SessionManager ℕ E) (j : ℕ) where
  added-registered :
      (i : ℕ)
      → (add id_of m (some j)).0 ≡ none
      → (bit (j == i) ≤ registered i (add id_of m (some j)).1.conns)
        × ((registered i m.conns ≤ registered i (add id_of m (some j)).1.conns)
            × (m.closed ≡ false))
  added-registered i =
      add_intro id_of m j
        (λ (r : Option SessionError × SessionManager ℕ E).
          r.0 ≡ none
          → (bit (j == i) ≤ registered i r.1.conns)
            × ((registered i m.conns ≤ registered i r.1.conns) × (m.closed ≡ false)))
        (λ err e. absurd (cc))
        (λ open_ new e.
          let (self, others_kept) = registered-insert j i j m.conns in (self, (others_kept, open_)))

  refused-same :
      (err : SessionError) → (add id_of m (some j)).0 ≡ some err → (add id_of m (some j)).1 ≡ m
  refused-same err =
      add_intro id_of m j
        (λ (r : Option SessionError × SessionManager ℕ E). r.0 ≡ some err → r.1 ≡ m)
        (λ err' e. refl) (λ open_ new e. absurd (cc))

module _ {ℓ} {E : Type ℓ} (i : ℕ) where
  -- The goroutine that works with the connection.
  abbrev pub holds : Thread E → ℕ
  holds (adding j) = bit (j == i)
  holds (refusing j _) = bit (j == i)
  holds (starting j) = bit (j == i)
  holds (runs_conn j) = bit (j == i)
  holds (removes j) = bit (j == i)
  holds _ = 0

  -- The one that runs it, or is about to be started for it.
  abbrev pub runs : Thread E → ℕ
  runs (starting j) = bit (j == i)
  runs (runs_conn j) = bit (j == i)
  runs _ = 0

  -- The one that is to close it.
  abbrev pub pending : Thread E → ℕ
  pending (close_conns js _) = occurs i js
  pending _ = 0

  -- Numbers are given out once.
  pub Move-holds :
      {s s' : SessionServer E} {t : Thread E} {next : List (Thread E)}
      → Move s t s' next
      → (rest : ℕ) → holds t + rest + bit (ltb s.next_id i) ≤ 1
      → total holds next + rest + bit (ltb s'.next_id i) ≤ 1
  Move-holds (move_serve (makes id e)) rest h = ground arith
  Move-holds (move_serve (serve_again e)) rest h = omega arith
  Move-holds (move_serve _) rest h = omega arith
  Move-holds (move_close (close_later e)) rest h = omega arith
  Move-holds (move_close _) rest h = omega arith

  -- A connection that runs is registered: `rest` are the others that run it.
  pub Move-runs :
      {s s' : SessionServer E} {t : Thread E} {next : List (Thread E)}
      → Move s t s' next
      → (rest : ℕ) → holds t + rest ≤ 1
      → runs t + rest ≤ registered i s.session_mgr.conns
      → total runs next + rest ≤ registered i s'.session_mgr.conns
  unfolding remove
  Move-runs {s = s} (move_serve (adds {id = j} e)) rest h h' =
      let (self, more) = added-registered s.session_mgr j i e in
      let (kept, open_) = more in
      elim (Bool-cases (j == i)) [
        | inl same ↦ omega (arith, self, ap bit same, bit-le (j == i))
        | inr other ↦ omega (arith, kept, ap bit other)
      ]
  Move-runs {s = s} (move_serve (add_refuses {id = j} {err = err} e)) rest h h' =
      rw (refused-same s.session_mgr j err e) h'
  Move-runs {s = s} (move_serve (removed {id = j})) rest h h' =
      omega (arith, registered-erase j i s.session_mgr.conns)
  Move-runs (move_serve (serve_again e)) rest h h' = omega arith
  Move-runs (move_serve _) rest h h' = omega arith
  Move-runs (move_close (close_later e)) rest h h' = omega arith
  Move-runs (move_close _) rest h h' = omega arith

  -- A connection that is registered when the manager is stopped was closed or will be.
  pub Move-pending :
      {s s' : SessionServer E} {t : Thread E} {next : List (Thread E)}
      → Move s t s' next
      → (rest : ℕ)
      → bit s.session_mgr.closed + registered i s.session_mgr.conns
        ≤ 1 + (pending t + rest) + occurs i s.closed_conns
      → bit s'.session_mgr.closed + registered i s'.session_mgr.conns
        ≤ 1 + (total pending next + rest) + occurs i s'.closed_conns
  unfolding remove
  Move-pending {s = s} (move_serve (adds {id = j} e)) rest h =
      let (self, more) = added-registered s.session_mgr j i e in
      let (kept, open_) = more in
      omega (
        arith,
        add-closed s.session_mgr j,
        ap bit open_,
        bit-le (Maps.has nat_eq i (add id_of s.session_mgr (some j)).1.conns),
      )
  Move-pending {s = s} (move_serve (add_refuses {id = j} {err = err} e)) rest h =
      rw (refused-same s.session_mgr j err e) h
  Move-pending {s = s} (move_serve (removed {id = j})) rest h =
      omega (arith, registered-erase j i s.session_mgr.conns)
  Move-pending {s = s} (move_close stops_manager) rest h =
      omega (arith, registered-ids i s.session_mgr.conns)
  Move-pending (move_serve (serve_again e)) rest h = omega arith
  Move-pending (move_serve _) rest h = omega arith
  Move-pending (move_close (close_later e)) rest h = omega arith
  Move-pending (move_close _) rest h = omega arith

-- ===== src/Network/SessionServer/Closing.antt =====
-- The end of a server, common/network/session_server.go: Serve waits for its connections, and Close
-- reaches all of them.
use go_tools.Base.{ℕ, ◌≡◌, ◌≤◌, ◌<◌, List, [], ◌∷◌, arith, refl, ap}
use go_tools.Base.Threads.{bit, total, total-le}
use go_tools.Network.Conn.{finished}
use go_tools.Network.Conn.Counts.{begun, over}
use go_tools.Network.SessionClient.Counts.{swapped, started-le}
use go_tools.Network.SessionServer.{Thread, serve, close_conns}
use go_tools.Network.SessionServer.Counts.{
  accepts, past, runs_any, crashes, to_set, to_stop, to_close_listener, closes,
}
use go_tools.Network.SessionServer.Registry.{occurs, registered, runs, pending}
use go_tools.Network.SessionServer.Invariant.{World, IsValid, IsReachable, IsReachable-IsValid}

module _ {ℓ} {E : Type ℓ} where
  -- When Serve has returned, no connection runs, none is about to be started, and none will be accepted.
  pub serve_returns_last :
      (w : World E)
      → IsReachable w
      → 0 < total past w.1
      → (total runs_any w.1 ≡ 0) × (total accepts w.1 ≡ 0)
  serve_returns_last w r over =
      let v = IsReachable-IsValid w r in
      (omega (arith, v.counted, v.waited over), omega (arith, v.one_serve, started-le w.0.state))

  -- A number is run by at most one goroutine, and its connection is registered; the WaitGroup counts the
  -- goroutines, and none of them panics on it.
  pub running_is_registered :
      (w : World E) (i : ℕ)
      → IsReachable w
      → (total (runs i) w.1 ≤ registered i w.0.session_mgr.conns)
        × ((w.0.wg ≡ total runs_any w.1) × (total crashes w.1 ≡ 0))
  running_is_registered w i r =
      let v = IsReachable-IsValid w r in (v.in_table i, (v.counted, v.no_crash))

  closes-zero :
      (f : Thread E → ℕ)
      → ((t : Thread E) → f t ≤ closes t)
      → (w : World E) → IsValid w
      → w.0.close_once ≡ finished
      → total f w.1 ≡ 0
  closes-zero f le w v e =
      omega (arith, total-le f closes w.1 le, v.one_close, ap over e, ap begun e)

  pending-zero : (i : ℕ) (ts : List (Thread E)) → total closes ts ≡ 0 → total (pending i) ts ≡ 0
  pending-zero i [] e = refl
  pending-zero i (close_conns js k ∷ ts) e = absurd (omega arith)
  pending-zero i (serve ∷ ts) e = omega (arith, pending-zero i ts (omega arith))
  pending-zero i (_ ∷ ts) e = omega (arith, pending-zero i ts (omega arith))

  to_set-le : (t : Thread E) → to_set t ≤ closes t
  to_set-le serve = omega arith
  to_set-le _ = omega arith

  to_stop-le : (t : Thread E) → to_stop t ≤ closes t
  to_stop-le serve = omega arith
  to_stop-le _ = omega arith

  to_close_listener-le : (t : Thread E) → to_close_listener t ≤ closes t
  to_close_listener-le serve = omega arith
  to_close_listener-le _ = omega arith

  -- When Close has returned, the server's state is Closed, the listener is closed, and so is every
  -- connection that runs or is about to be started.
  pub close_reaches_connections :
      (w : World E) (i : ℕ)
      → IsReachable w
      → w.0.close_once ≡ finished
      → (swapped w.0.state ≡ 1)
        × ((bit w.0.listener_closed ≡ 1) × (total (runs i) w.1 ≤ occurs i w.0.closed_conns))
  close_reaches_connections w i r e =
      let v = IsReachable-IsValid w r in
      let none_left = closes-zero closes (λ t. omega arith) w v e in
      let stopped : bit w.0.session_mgr.closed ≡ 1 =
        omega (arith, v.stopped, closes-zero to_stop to_stop-le w v e, ap begun e) in
      (
        omega (arith, v.state_set, closes-zero to_set to_set-le w v e, ap begun e),
        (
          omega (
            arith,
            v.listener,
            closes-zero to_close_listener to_close_listener-le w v e,
            ap begun e,
          ),
          omega (arith, v.in_table i, v.reached i, pending-zero i w.1 none_left),
        ),
      )

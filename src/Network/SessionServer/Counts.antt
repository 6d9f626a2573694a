-- ===== src/Network/SessionServer/Counts.antt =====
-- The goroutines of common/network/session_server.go and the counters that stand for them.
use go_tools.Base.{ℕ, ◌+◌, ◌≡◌, ◌≤◌, ◌<◌, List, Option, some, arith, refl, ap}
use go_tools.Base.Threads.{bit, total}
use go_tools.Network.Conn.Counts.{begun, over, begun-le}
use go_tools.Network.SessionClient.Counts.{started, swapped, started-le}
use go_tools.Network.SessionManager.{SessionManager, SessionError, add, remove}
use go_tools.Network.SessionManager.Adding.{add_intro}
use go_tools.Network.SessionServer.{
  SessionServer, Closer, by_serve, by_caller, Thread, accept_checks, accepting, accept_failed,
  accepted, creating, making, adding, refusing, refused, starting, serve_waits, serve_over,
  runs_conn, removes, wg_done, close, close_sets, close_manager, close_conns, close_over, closed,
  crashed,
}
use go_tools.Network.SessionServer.Moves.{
  id_of, Move, move_serve, move_close, serve_first, serve_again, adds, add_refuses, starts, leaves,
  leave_crashes, waited, close_first, close_later, sets_state, close_done,
}

-- Add does not open or close the manager.
pub add-closed {ℓ} :
    {E : Type ℓ} (m : SessionManager ℕ E) (id : ℕ)
    → bit (add id_of m (some id)).1.closed ≡ bit m.closed
add-closed {E = E} m id =
    add_intro id_of m id
      (λ (r : Option SessionError × SessionManager ℕ E). bit r.1.closed ≡ bit m.closed)
      (λ err. refl) (λ e h. refl)

module _ {ℓ} {E : Type ℓ} where
  abbrev of_serve : Closer E → ℕ
  of_serve (by_serve _) = 1
  of_serve by_caller = 0

  -- The goroutine in acceptLoop.
  abbrev pub accepts : Thread E → ℕ
  accepts accept_checks = 1
  accepts accepting = 1
  accepts (accept_failed _) = 1
  accepts accepted = 1
  accepts creating = 1
  accepts making = 1
  accepts (adding _) = 1
  accepts (refusing _ _) = 1
  accepts (refused _) = 1
  accepts (starting _) = 1
  accepts _ = 0

  -- The one in Serve that has left acceptLoop.
  abbrev pub serve_ends : Thread E → ℕ
  serve_ends (close k) = of_serve k
  serve_ends (close_sets k) = of_serve k
  serve_ends (close_manager k) = of_serve k
  serve_ends (close_conns _ k) = of_serve k
  serve_ends (close_over k) = of_serve k
  serve_ends (closed k) = of_serve k
  serve_ends (serve_waits _) = 1
  serve_ends _ = 0

  -- The one that has waited for the connections.
  abbrev pub past : Thread E → ℕ
  past (serve_over _) = 1
  past _ = 0

  -- The goroutines that the WaitGroup counts.
  abbrev pub runs_any : Thread E → ℕ
  runs_any (runs_conn _) = 1
  runs_any (removes _) = 1
  runs_any wg_done = 1
  runs_any _ = 0

  abbrev pub crashes : Thread E → ℕ
  crashes crashed = 1
  crashes _ = 0

  -- The goroutine in the function of closeOnce, before each of its parts.
  abbrev pub to_set : Thread E → ℕ
  to_set (close_sets _) = 1
  to_set _ = 0

  abbrev pub to_stop : Thread E → ℕ
  to_stop (close_sets _) = 1
  to_stop (close_manager _) = 1
  to_stop _ = 0

  abbrev pub to_close_listener : Thread E → ℕ
  to_close_listener (close_sets _) = 1
  to_close_listener (close_manager _) = 1
  to_close_listener (close_conns _ _) = 1
  to_close_listener _ = 0

  abbrev pub closes : Thread E → ℕ
  closes (close_sets _) = 1
  closes (close_manager _) = 1
  closes (close_conns _ _) = 1
  closes (close_over _) = 1
  closes _ = 0

  pub Move-runs_any :
      {s s' : SessionServer E} {t : Thread E} {next : List (Thread E)}
      → Move s t s' next
      → runs_any t ≤ s.wg
      → s'.wg + runs_any t ≡ s.wg + total runs_any next
  Move-runs_any (move_serve (leave_crashes e)) h = absurd (omega arith)
  Move-runs_any (move_serve (serve_again e)) h = omega arith
  Move-runs_any (move_serve _) h = omega arith
  Move-runs_any (move_close (close_later e)) h = omega arith
  Move-runs_any (move_close _) h = omega arith

  pub Move-crashes :
      {s s' : SessionServer E} {t : Thread E} {next : List (Thread E)}
      → Move s t s' next
      → runs_any t ≤ s.wg
      → total crashes next ≤ crashes t
  Move-crashes (move_serve (leave_crashes e)) h = absurd (omega arith)
  Move-crashes (move_serve (serve_again e)) h = omega arith
  Move-crashes (move_serve _) h = omega arith
  Move-crashes (move_close (close_later e)) h = omega arith
  Move-crashes (move_close _) h = omega arith

  -- There is one Serve.
  pub Move-serve :
      {s s' : SessionServer E} {t : Thread E} {next : List (Thread E)}
      → Move s t s' next
      → total accepts next + total serve_ends next + total past next + started s.state
        ≤ accepts t + serve_ends t + past t + started s'.state
  Move-serve (move_serve (serve_first e)) = omega (arith, ap started e)
  Move-serve {s = s} (move_close sets_state) = omega (arith, started-le s.state)
  Move-serve (move_serve (serve_again e)) = omega arith
  Move-serve (move_serve _) = omega arith
  Move-serve (move_close (close_later e)) = omega arith
  Move-serve (move_close _) = omega arith

  -- Serve waits for the connections: `rest` are the others past the Wait.
  pub Move-past :
      {s s' : SessionServer E} {t : Thread E} {next : List (Thread E)}
      → Move s t s' next
      → (rest : ℕ) → accepts t + serve_ends t + past t + rest ≤ 1
      → (0 < past t + rest → s.wg ≡ 0)
      → 0 < total past next + rest
      → s'.wg ≡ 0
  Move-past (move_serve (waited e)) rest one h p = e
  Move-past (move_serve starts) rest one h p = absurd (omega arith)
  Move-past (move_serve (leaves e)) rest one h p = omega (arith, h (omega arith))
  Move-past (move_serve (serve_again e)) rest one h p = h (omega arith)
  Move-past (move_serve _) rest one h p = h (omega arith)
  Move-past (move_close (close_later e)) rest one h p = h (omega arith)
  Move-past (move_close _) rest one h p = h (omega arith)

  -- One goroutine closes the server.
  pub Move-closes :
      {s s' : SessionServer E} {t : Thread E} {next : List (Thread E)}
      → Move s t s' next
      → closes t + over s.close_once ≤ begun s.close_once
      → total closes next + over s'.close_once + begun s.close_once
        ≡ closes t + over s.close_once + begun s'.close_once
  Move-closes (move_close (close_first e)) h = omega (arith, ap over e, ap begun e)
  Move-closes {s = s} (move_close close_done) h = omega (arith, begun-le s.close_once)
  Move-closes (move_serve (serve_again e)) h = omega arith
  Move-closes (move_serve _) h = omega arith
  Move-closes (move_close (close_later e)) h = omega arith
  Move-closes (move_close _) h = omega arith

  -- It sets the state, then it stops the manager, then it closes the listener.
  pub Move-to_set :
      {s s' : SessionServer E} {t : Thread E} {next : List (Thread E)}
      → Move s t s' next
      → to_set t + swapped s.state ≤ 1
      → closes t + over s.close_once ≤ begun s.close_once
      → total to_set next + swapped s'.state + begun s.close_once
        ≡ to_set t + swapped s.state + begun s'.close_once
  Move-to_set (move_serve (serve_first e)) h h' = omega (arith, ap swapped e)
  Move-to_set (move_close (close_first e)) h h' = omega (arith, ap begun e)
  Move-to_set {s = s} (move_close close_done) h h' = omega (arith, begun-le s.close_once)
  Move-to_set (move_serve (serve_again e)) h h' = omega arith
  Move-to_set (move_serve _) h h' = omega arith
  Move-to_set (move_close (close_later e)) h h' = omega arith
  Move-to_set (move_close _) h h' = omega arith

  pub Move-to_stop :
      {s s' : SessionServer E} {t : Thread E} {next : List (Thread E)}
      → Move s t s' next
      → to_stop t + bit s.session_mgr.closed ≤ 1
      → closes t + over s.close_once ≤ begun s.close_once
      → total to_stop next + bit s'.session_mgr.closed + begun s.close_once
        ≡ to_stop t + bit s.session_mgr.closed + begun s'.close_once
  unfolding remove
  Move-to_stop {s = s} (move_serve (adds {id = id} e)) h h' =
      omega (arith, add-closed s.session_mgr id)
  Move-to_stop {s = s} (move_serve (add_refuses {id = id} e)) h h' =
      omega (arith, add-closed s.session_mgr id)
  Move-to_stop (move_close (close_first e)) h h' = omega (arith, ap begun e)
  Move-to_stop {s = s} (move_close close_done) h h' = omega (arith, begun-le s.close_once)
  Move-to_stop (move_serve (serve_again e)) h h' = omega arith
  Move-to_stop (move_serve _) h h' = omega arith
  Move-to_stop (move_close (close_later e)) h h' = omega arith
  Move-to_stop (move_close _) h h' = omega arith

  pub Move-to_close_listener :
      {s s' : SessionServer E} {t : Thread E} {next : List (Thread E)}
      → Move s t s' next
      → to_close_listener t + bit s.listener_closed ≤ 1
      → closes t + over s.close_once ≤ begun s.close_once
      → total to_close_listener next + bit s'.listener_closed + begun s.close_once
        ≡ to_close_listener t + bit s.listener_closed + begun s'.close_once
  Move-to_close_listener (move_close (close_first e)) h h' = omega (arith, ap begun e)
  Move-to_close_listener {s = s} (move_close close_done) h h' = omega (arith, begun-le s.close_once)
  Move-to_close_listener (move_serve (serve_again e)) h h' = omega arith
  Move-to_close_listener (move_serve _) h h' = omega arith
  Move-to_close_listener (move_close (close_later e)) h h' = omega arith
  Move-to_close_listener (move_close _) h h' = omega arith

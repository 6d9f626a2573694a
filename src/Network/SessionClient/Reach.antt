-- ===== src/Network/SessionClient/Reach.antt =====
-- What Close of common/network/session_client.go reaches: the dial that goes on, or its connection.
use go_tools.Base.{ℕ, ◌+◌, ◌≡◌, ◌≤◌, List, arith, ap}
use go_tools.Base.Threads.{bit, bit-le, total}
use go_tools.Network.Conn.Counts.{begun, over, begun-le}
use go_tools.Network.SessionClient.{SessionClient, Thread}
use go_tools.Network.SessionClient.Moves.{
  Move, move_dial, move_end, dial_first, dial_again, publish_closed, published, close_first,
  close_swaps, close_a_conn, close_over, finish_crashes, wait_early,
}
use go_tools.Network.SessionClient.Counts.{
  started, swapped, is_new-started, swapped-le, swapped-open, owes, dials, in_dial, closes, locks,
  to_cancel, to_close_conn,
}

module _ {ℓ} {E : Type ℓ} where
  -- There is one dial.
  pub Move-in_dial :
      {c c' : SessionClient E} {t : Thread E} {next : List (Thread E)}
      → Move c t c' next
      → total in_dial next + started c.state ≤ in_dial t + started c'.state
  Move-in_dial (move_dial (dial_first e)) = omega (arith, ap started e)
  Move-in_dial {c = c} (move_end close_swaps) = omega (arith, is_new-started c.state)
  Move-in_dial (move_dial (dial_again e)) = omega arith
  Move-in_dial (move_dial _) = omega arith
  Move-in_dial (move_end (wait_early e)) = omega arith
  Move-in_dial (move_end _) = omega arith

  -- One goroutine closes the client.
  pub Move-closes :
      {c c' : SessionClient E} {t : Thread E} {next : List (Thread E)}
      → Move c t c' next
      → owes t + bit c.done ≤ 1
      → closes t + over c.close_once ≤ begun c.close_once
      → total closes next + over c'.close_once + begun c.close_once
        ≡ closes t + over c.close_once + begun c'.close_once
  Move-closes (move_end (close_first e)) h h' = omega (arith, ap over e, ap begun e)
  Move-closes {c = c} (move_end close_over) h h' = omega (arith, begun-le c.close_once)
  Move-closes (move_end (finish_crashes e)) h h' = absurd (omega (arith, ap bit e))
  Move-closes (move_dial (dial_again e)) h h' = omega arith
  Move-closes (move_dial _) h h' = omega arith
  Move-closes (move_end (wait_early e)) h h' = omega arith
  Move-closes (move_end _) h h' = omega arith

  -- It is the one that sets the state.
  pub Move-swapped :
      {c c' : SessionClient E} {t : Thread E} {next : List (Thread E)}
      → Move c t c' next
      → locks t + swapped c.state ≤ 1
      → closes t + over c.close_once ≤ begun c.close_once
      → total locks next + swapped c'.state + begun c.close_once
        ≡ locks t + swapped c.state + begun c'.close_once
  Move-swapped (move_dial (dial_first e)) h h' = omega (arith, ap swapped e)
  Move-swapped (move_end (close_first e)) h h' = omega (arith, ap begun e)
  Move-swapped {c = c} (move_end close_over) h h' = omega (arith, begun-le c.close_once)
  Move-swapped (move_dial (dial_again e)) h h' = omega arith
  Move-swapped (move_dial _) h h' = omega arith
  Move-swapped (move_end (wait_early e)) h h' = omega arith
  Move-swapped (move_end _) h h' = omega arith

  -- While the dial goes on, its context can be cancelled, will be, or was.
  pub Move-dials :
      {c c' : SessionClient E} {t : Thread E} {next : List (Thread E)}
      → Move c t c' next
      → (rest rest' : ℕ) → started c.state ≤ 1
      → in_dial t + rest ≤ started c.state
      → dials t + rest ≤ bit c.dial_cancel + (to_cancel t + rest') + bit c.dial_cancelled
      → total dials next + rest
        ≤ bit c'.dial_cancel + (total to_cancel next + rest') + bit c'.dial_cancelled
  Move-dials (move_dial (dial_first e)) rest rest' one h h' = omega (arith, ap started e)
  Move-dials (move_dial (publish_closed e)) rest rest' one h h' = omega arith
  Move-dials (move_dial _) rest rest' one h h' = omega arith
  Move-dials (move_end (wait_early e)) rest rest' one h h' = omega arith
  Move-dials (move_end _) rest rest' one h h' = omega arith

  -- A client that is closed has no dial to cancel.
  pub Move-dial_cancel :
      {c c' : SessionClient E} {t : Thread E} {next : List (Thread E)}
      → Move c t c' next
      → bit c.dial_cancel + swapped c.state ≤ 1
      → bit c'.dial_cancel + swapped c'.state ≤ 1
  Move-dial_cancel (move_dial (dial_first e)) h = omega arith
  Move-dial_cancel (move_dial (dial_again e)) h = omega arith
  Move-dial_cancel (move_dial _) h = omega arith
  Move-dial_cancel (move_end (wait_early e)) h = omega arith
  Move-dial_cancel (move_end _) h = omega arith

  -- The connection of a client that is closed was closed or will be.
  pub Move-conn :
      {c c' : SessionClient E} {t : Thread E} {next : List (Thread E)}
      → Move c t c' next
      → (rest : ℕ) → bit c.conn + swapped c.state ≤ 1 + (to_close_conn t + rest) + bit c.conn_closed
      → bit c'.conn + swapped c'.state ≤ 1 + (total to_close_conn next + rest) + bit c'.conn_closed
  Move-conn (move_dial (dial_first e)) rest h = omega (arith, ap swapped e)
  Move-conn {c = c} (move_end (close_a_conn result)) rest h =
      omega (arith, swapped-le c.state, bit-le c.conn)
  Move-conn {c = c} (move_dial (published e _)) rest h = omega (arith, swapped-open c.state e)
  Move-conn (move_dial (dial_again e)) rest h = omega arith
  Move-conn (move_dial _) rest h = omega arith
  Move-conn (move_end (wait_early e)) rest h = omega arith
  Move-conn (move_end _) rest h = omega arith

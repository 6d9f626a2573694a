-- ===== src/Network/SessionClient/Counts.antt =====
-- What the goroutines of common/network/session_client.go owe to each other.
use go_tools.Base.{ℕ, ◌+◌, ◌≡◌, ◌≤◌, true, false, List, arith, refl, ap}
use go_tools.Base.Threads.{bit, total}
use go_tools.Network.Conn.Counts.{has}
use go_tools.Network.SessionClient.{
  SessionClient, SessionState, session_state_new, session_state_running, session_state_closed,
  is_new, is_closed, After, to_dial, to_close, Thread, dialing, dialed, rejecting, dial_leaves,
  runs_conn, finishing, closing_done, finish_ends, close_locks, close_cancels, close_conn,
  close_last, close_ends, crashed,
}
use go_tools.Network.SessionClient.Moves.{
  Move, move_dial, move_end, dial_first, dial_again, close_swaps, close_finishes, close_leaves,
  finish_writes, finish_closes, finish_crashes, wait_early,
}

-- Whether the client has been used: dialed, or closed before.
abbrev pub started : SessionState → ℕ
started session_state_new = 0
started _ = 1

pub started-le : (s : SessionState) → started s ≤ 1
started-le session_state_new = omega arith
started-le _ = omega arith

abbrev pub swapped : SessionState → ℕ
swapped session_state_closed = 1
swapped _ = 0

pub is_new-started : (s : SessionState) → bit (is_new s) + started s ≡ 1
is_new-started session_state_new = refl
is_new-started session_state_running = refl
is_new-started session_state_closed = refl

pub swapped-le : (s : SessionState) → swapped s ≤ 1
swapped-le session_state_new = omega arith
swapped-le session_state_running = omega arith
swapped-le session_state_closed = omega arith

pub swapped-open : (s : SessionState) → is_closed s ≡ false → swapped s ≡ 0
swapped-open session_state_new e = refl
swapped-open session_state_running e = refl
swapped-open session_state_closed e = absurd (omega (arith, ap bit e))

module _ {ℓ} {E : Type ℓ} where
  abbrev of_dial : After E → ℕ
  of_dial (to_dial _) = 1
  of_dial _ = 0

  abbrev of_close : After E → ℕ
  of_close to_close = 1
  of_close _ = 0

  -- The goroutine that is to finish: it closes the channel `done`.
  abbrev pub owes : Thread E → ℕ
  owes dialing = 1
  owes dialed = 1
  owes (rejecting _) = 1
  owes runs_conn = 1
  owes (finishing _ _) = 1
  owes (closing_done _) = 1
  owes (close_cancels prev_state _ _) = bit (is_new prev_state)
  owes (close_conn prev_state _) = bit (is_new prev_state)
  owes (close_last prev_state) = bit (is_new prev_state)
  owes _ = 0

  -- The one that has written the result.
  abbrev pub written : Thread E → ℕ
  written (closing_done _) = 1
  written _ = 0

  abbrev pub crashes : Thread E → ℕ
  crashes crashed = 1
  crashes _ = 0

  -- The goroutine in DialContext, while it waits for the dialer or for the lock.
  abbrev pub dials : Thread E → ℕ
  dials dialing = 1
  dials dialed = 1
  dials _ = 0

  -- The goroutine in DialContext.
  abbrev pub in_dial : Thread E → ℕ
  in_dial dialing = 1
  in_dial dialed = 1
  in_dial (rejecting _) = 1
  in_dial (finishing _ k) = of_dial k
  in_dial (closing_done k) = of_dial k
  in_dial (finish_ends k) = of_dial k
  in_dial (dial_leaves _) = 1
  in_dial _ = 0

  -- The goroutine in the function of closeOnce.
  abbrev pub closes : Thread E → ℕ
  closes close_locks = 1
  closes (close_cancels _ _ _) = 1
  closes (close_conn _ _) = 1
  closes (close_last _) = 1
  closes (finishing _ k) = of_close k
  closes (closing_done k) = of_close k
  closes (finish_ends k) = of_close k
  closes close_ends = 1
  closes _ = 0

  -- The one that is yet to take the lock.
  abbrev pub locks : Thread E → ℕ
  locks close_locks = 1
  locks _ = 0

  -- The one that is to cancel the dial, or to close the connection.
  abbrev pub to_cancel : Thread E → ℕ
  to_cancel (close_cancels _ cancel _) = bit cancel
  to_cancel _ = 0

  abbrev pub to_close_conn : Thread E → ℕ
  to_close_conn (close_cancels _ _ conn) = bit conn
  to_close_conn (close_conn _ conn) = bit conn
  to_close_conn _ = 0

  -- Some one goroutine owes the end of a client that was used, until the channel is closed.
  pub Move-owes :
      {c c' : SessionClient E} {t : Thread E} {next : List (Thread E)}
      → Move c t c' next
      → owes t + bit c.done ≤ 1
      → total owes next + bit c'.done + started c.state ≡ owes t + bit c.done + started c'.state
  Move-owes (move_dial (dial_first e)) h = omega (arith, ap started e)
  Move-owes {c = c} (move_end close_swaps) h = omega (arith, is_new-started c.state)
  Move-owes (move_end (close_finishes e)) h = omega (arith, ap bit e)
  Move-owes (move_end (close_leaves e)) h = omega (arith, ap bit e)
  Move-owes (move_end (finish_closes e)) h = omega (arith, ap bit e)
  Move-owes (move_end (finish_crashes e)) h = absurd (omega (arith, ap bit e))
  Move-owes (move_dial (dial_again e)) h = omega arith
  Move-owes (move_dial _) h = omega arith
  Move-owes (move_end (wait_early e)) h = omega arith
  Move-owes (move_end _) h = omega arith

  pub Move-crashes :
      {c c' : SessionClient E} {t : Thread E} {next : List (Thread E)}
      → Move c t c' next
      → owes t + bit c.done ≤ 1
      → total crashes next ≤ crashes t
  Move-crashes (move_end (finish_crashes e)) h = absurd (omega (arith, ap bit e))
  Move-crashes (move_dial (dial_again e)) h = omega arith
  Move-crashes (move_dial _) h = omega arith
  Move-crashes (move_end (wait_early e)) h = omega arith
  Move-crashes (move_end _) h = omega arith

  -- The result is written before the channel is closed, and not after.
  pub Move-written :
      {c c' : SessionClient E} {t : Thread E} {next : List (Thread E)}
      → Move c t c' next
      → (rest : ℕ) → owes t + rest + bit c.done ≤ 1
      → bit c.done + (written t + rest) ≤ has c.wait_err
      → bit c'.done + (total written next + rest) ≤ has c'.wait_err
  Move-written (move_end (finish_closes e)) rest h h' = omega (arith, ap bit e)
  Move-written (move_dial (dial_again e)) rest h h' = omega arith
  Move-written (move_dial _) rest h h' = omega arith
  Move-written (move_end (wait_early e)) rest h h' = omega arith
  Move-written (move_end _) rest h h' = omega arith

  pub Move-wait_err :
      {c c' : SessionClient E} {t : Thread E} {next : List (Thread E)}
      → Move c t c' next
      → owes t + bit c.done ≤ 1
      → c.done ≡ true
      → (c'.done ≡ true) × (c'.wait_err ≡ c.wait_err)
  Move-wait_err (move_end finish_writes) h e = absurd (omega (arith, ap bit e))
  Move-wait_err (move_end (finish_closes e')) h e = (refl, refl)
  Move-wait_err (move_dial (dial_again e')) h e = (e, refl)
  Move-wait_err (move_dial _) h e = (e, refl)
  Move-wait_err (move_end (wait_early e')) h e = (e, refl)
  Move-wait_err (move_end _) h e = (e, refl)

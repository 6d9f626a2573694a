-- ===== src/Network/Conn/Counts.antt =====
-- The counters of common/network/conn_impl.go: the WaitGroup and the Once, against the goroutines that
-- stand where they count.
use go_tools.Base.{ℕ, ◌+◌, ◌≡◌, ◌≤◌, List, Option, some, none, arith, ap}
use go_tools.Base.Threads.{total}
use go_tools.Network.Conn.{
  Conn, ConnDependencies, Once, not_begun, running, finished, Sender, by_caller, by_reader,
  by_beater, After, to_leave, Thread, write_waits, write_holds, write_sends, read_checks,
  read_decodes, read_has, delivers, receives, beat_waits, beat_due, send, send_checks, send_waits,
  sent, closing, shutting, closed, leaves, crashed,
}
use go_tools.Network.Conn.Moves.{Move, move_calls, move_loops, move_calls_back}
use go_tools.Network.Conn.Moves.Calls.{leave_crashes, no_on_open, shut, close_first}
use go_tools.Network.Conn.Moves.Loops.{write_done}

-- Whether a caller of Send, or of closeWithCause, is one of the three loops.
abbrev pub of_loop : Sender → ℕ
of_loop by_caller = 0
of_loop _ = 1

abbrev pub to_loop : After → ℕ
to_loop to_leave = 1
to_loop _ = 0

abbrev pub has {ℓ} : {A : Type ℓ} → Option A → ℕ
has none = 0
has (some _) = 1

abbrev pub begun : Once → ℕ
begun not_begun = 0
begun _ = 1

abbrev pub over : Once → ℕ
over finished = 1
over _ = 0

pub begun-le : (o : Once) → begun o ≤ 1
begun-le not_begun = omega arith
begun-le running = omega arith
begun-le finished = omega arith

pub of_loop-le : (s : Sender) → of_loop s ≤ 1
of_loop-le by_caller = omega arith
of_loop-le by_reader = omega arith
of_loop-le (by_beater seq) = omega arith

pub to_loop-le : (k : After) → to_loop k ≤ 1
to_loop-le to_leave = omega arith
to_loop-le _ = omega arith

module _ {ℓ κ} {P : Type ℓ} {E : Type κ} where
  -- The goroutines that the WaitGroup counts.
  abbrev pub loop : Thread P E → ℕ
  loop write_waits = 1
  loop (write_holds _) = 1
  loop (write_sends _) = 1
  loop read_checks = 1
  loop read_decodes = 1
  loop (read_has _) = 1
  loop (delivers _) = 1
  loop (receives _) = 1
  loop (beat_waits _) = 1
  loop (beat_due _) = 1
  loop (send s _) = of_loop s
  loop (send_checks s _) = of_loop s
  loop (send_waits s _) = of_loop s
  loop (sent s _) = of_loop s
  loop (closing _ k) = to_loop k
  loop (shutting k) = to_loop k
  loop (closed k) = to_loop k
  loop leaves = 1
  loop _ = 0

  -- The goroutine that runs the function of closeOnce.
  abbrev pub shuts : Thread P E → ℕ
  shuts (shutting _) = 1
  shuts _ = 0

  -- A goroutine that has panicked.
  abbrev pub crashes : Thread P E → ℕ
  crashes crashed = 1
  crashes _ = 0

  module _ (d : ConnDependencies P E) where
    -- A move keeps the WaitGroup in step with the loops.
    pub Move-loop :
        {c c' : Conn E} {t : Thread P E} {next : List (Thread P E)}
        → Move d c t c' next
        → loop t ≤ c.wg
        → c'.wg + loop t ≡ c.wg + total loop next
    Move-loop (move_calls (leave_crashes e)) h = absurd (omega arith)
    Move-loop (move_calls _) h = omega arith
    Move-loop (move_loops (write_done e)) h = omega arith
    Move-loop (move_loops _) h = omega arith
    Move-loop (move_calls_back (no_on_open e)) h = omega arith
    Move-loop (move_calls_back _) h = omega arith

    -- A goroutine panics at its end only when the WaitGroup is at 0.
    pub Move-crashes :
        {c c' : Conn E} {t : Thread P E} {next : List (Thread P E)}
        → Move d c t c' next
        → loop t ≤ c.wg
        → total crashes next ≤ crashes t
    Move-crashes (move_calls (leave_crashes e)) h = absurd (omega arith)
    Move-crashes (move_calls _) h = omega arith
    Move-crashes (move_loops (write_done e)) h = omega arith
    Move-crashes (move_loops _) h = omega arith
    Move-crashes (move_calls_back (no_on_open e)) h = omega arith
    Move-crashes (move_calls_back _) h = omega arith

    -- A move that begins closeOnce sets the cause, and one that ends it closes the transport.
    pub Move-once :
        {c c' : Conn E} {t : Thread P E} {next : List (Thread P E)}
        → Move d c t c' next
        → shuts t + over c.close_once ≤ begun c.close_once
        → (total shuts next + over c'.close_once + begun c.close_once
            ≡ shuts t + over c.close_once + begun c'.close_once)
          × ((c'.closes + over c.close_once ≡ c.closes + over c'.close_once)
              × (begun c.close_once ≤ begun c'.close_once))
    Move-once {c = c} (move_calls (close_first e)) h = (
      omega (arith, ap over e, ap begun e),
      (omega (arith, ap over e), omega (arith, ap begun e)),
    )
    Move-once {c = c} (move_calls (shut result)) h = (
      omega (arith, begun-le c.close_once),
      (omega (arith, begun-le c.close_once), begun-le c.close_once),
    )
    Move-once (move_calls _) h = (omega arith, (omega arith, omega arith))
    Move-once (move_loops (write_done e)) h = (omega arith, (omega arith, omega arith))
    Move-once (move_loops _) h = (omega arith, (omega arith, omega arith))
    Move-once (move_calls_back (no_on_open e)) h = (omega arith, (omega arith, omega arith))
    Move-once (move_calls_back _) h = (omega arith, (omega arith, omega arith))

    -- The context is cancelled when closeOnce begins.
    pub Move-cause :
        {c c' : Conn E} {t : Thread P E} {next : List (Thread P E)}
        → Move d c t c' next
        → shuts t + over c.close_once ≤ begun c.close_once
        → has c.cause ≡ begun c.close_once
        → has c'.cause ≡ begun c'.close_once
    Move-cause (move_calls (close_first e)) h e' = omega arith
    Move-cause {c = c} (move_calls (shut result)) h e' = omega (arith, begun-le c.close_once)
    Move-cause (move_calls _) h e' = e'
    Move-cause (move_loops (write_done e)) h e' = e'
    Move-cause (move_loops _) h e' = e'
    Move-cause (move_calls_back (no_on_open e)) h e' = e'
    Move-cause (move_calls_back _) h e' = e'

-- ===== src/Network/Conn/Shutdown.antt =====
-- The end of a connection, common/network/conn_impl.go: once the context is cancelled, every goroutine
-- comes to its end in a bounded number of steps, whatever foreign code answers.
use go_tools.Base.{ℕ, ◌+◌, ◌≡◌, ◌<◌, List, arith, ap}
use go_tools.Base.Threads.{total}
use go_tools.Network.Conn.{
  Conn, ConnDependencies, After, to_leave, to_opened, to_ended, to_caller, Thread, run, run_started,
  run_opening, run_opened, run_reads, run_beats, run_waits, run_ended, write_waits, write_holds,
  write_sends, read_checks, read_decodes, read_has, delivers, receives, beat_waits, beat_due, send,
  send_checks, send_waits, sent, try_send, try_checks, try_waits, close, closing, shutting, closed,
  leaves, returned, crashed,
}
use go_tools.Network.Conn.Moves.{Move, move_calls, move_loops, move_calls_back}
use go_tools.Network.Conn.Moves.Calls.{opened, no_on_open}
use go_tools.Network.Conn.Moves.Loops.{
  write_begins, read_goes_on, packet_taken, due_timeout, due_pings, ping_panics, due_panics,
}
use go_tools.Network.Conn.Counts.{has}

-- A bound on the steps that are left after closeWithCause.
abbrev pub after_rank : After → ℕ
after_rank to_leave = 1
after_rank to_opened = 6
after_rank to_ended = 1
after_rank to_caller = 0

module _ {ℓ κ} {P : Type ℓ} {E : Type κ} where
  -- A bound on the steps that are left to a goroutine and to those that it starts, once the context is
  -- cancelled.
  abbrev pub rank : Thread P E → ℕ
  rank run = 15
  rank run_started = 14
  rank run_opening = 10
  rank run_opened = 6
  rank run_reads = 12
  rank run_beats = 9
  rank run_waits = 5
  rank run_ended = 1
  rank write_waits = 3
  rank (write_holds _) = 2
  rank (write_sends _) = 5
  rank read_checks = 2
  rank read_decodes = 5
  rank (read_has _) = 2
  rank (delivers _) = 9
  rank (receives _) = 5
  rank (beat_waits _) = 3
  rank (beat_due _) = 2
  rank (send _ _) = 8
  rank (send_checks _ _) = 7
  rank (send_waits _ _) = 6
  rank (sent _ _) = 5
  rank (try_send _) = 3
  rank (try_checks _) = 2
  rank (try_waits _) = 1
  rank close = 4
  rank (closing _ k) = after_rank k + 3
  rank (shutting k) = after_rank k + 2
  rank (closed k) = after_rank k + 1
  rank leaves = 1
  rank (returned _) = 0
  rank crashed = 0

  -- The goroutines that have not returned.
  abbrev pub going : Thread P E → ℕ
  going (returned result) = 0
  going _ = 1

  module _ (d : ConnDependencies P E) where
    pub Move-rank :
        {c c' : Conn E} {t : Thread P E} {next : List (Thread P E)}
        → Move d c t c' next
        → has c.cause ≡ 1
        → total rank next < rank t
    Move-rank (move_calls (opened now e)) h = absurd (omega (arith, ap has e))
    Move-rank (move_calls _) h = omega arith
    Move-rank (move_loops (write_begins e)) h = absurd (omega (arith, ap has e))
    Move-rank (move_loops (read_goes_on e)) h = absurd (omega (arith, ap has e))
    Move-rank (move_loops (packet_taken now e)) h = absurd (omega (arith, ap has e))
    Move-rank (move_loops (due_timeout now e _)) h = absurd (omega (arith, ap has e))
    Move-rank (move_loops (due_pings now e _ _)) h = absurd (omega (arith, ap has e))
    Move-rank (move_loops (ping_panics _ e _ _)) h = absurd (omega (arith, ap has e))
    Move-rank (move_loops (due_panics e _)) h = absurd (omega (arith, ap has e))
    Move-rank (move_loops _) h = omega arith
    Move-rank (move_calls_back (no_on_open e)) h = omega arith
    Move-rank (move_calls_back _) h = omega arith

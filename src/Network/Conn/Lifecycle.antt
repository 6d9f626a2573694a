-- ===== src/Network/Conn/Lifecycle.antt =====
-- The life of a connection, Run of common/network/conn_impl.go: how far its one goroutine has come.
use go_tools.Base.{ℕ, ◌+◌, ◌≡◌, ◌≤◌, ◌<◌, List, [], ◌∷◌, arith, refl, ap, length, length-append}
use go_tools.Base.Threads.{bit, total}
use go_tools.Network.Conn.{
  Conn, ConnDependencies, to_opened, to_ended, Thread, run_started, run_opening, run_opened,
  run_reads, run_beats, run_waits, run_ended, write_waits, write_holds, write_sends, closing,
  shutting, closed,
}
use go_tools.Network.Conn.Moves.{Move, move_calls, move_loops, move_calls_back}
use go_tools.Network.Conn.Counts.{over}
use go_tools.Network.Conn.Moves.Calls.{
  run_again, run_first, waited, start_writer, start_reader, start_beater, leave, close_first,
  close_later, shut, no_on_open,
}
use go_tools.Network.Conn.Moves.Loops.{
  write_done, write_late, write_panics, write_fails, write_short,
}

module _ {ℓ κ} {P : Type ℓ} {E : Type κ} where
  -- The goroutine of Run that has passed `c.wg.Wait()`.
  abbrev pub past : Thread P E → ℕ
  past (closing _ to_ended) = 1
  past (shutting to_ended) = 1
  past (closed to_ended) = 1
  past run_ended = 1
  past _ = 0

  -- The one that has not.
  abbrev pub early : Thread P E → ℕ
  early (closing _ to_opened) = 1
  early (shutting to_opened) = 1
  early (closed to_opened) = 1
  early run_started = 1
  early run_opening = 1
  early run_opened = 1
  early run_reads = 1
  early run_beats = 1
  early run_waits = 1
  early _ = 0

  -- The one that has called closeWithCause for the last time.
  abbrev pub ended : Thread P E → ℕ
  ended (closed to_ended) = 1
  ended run_ended = 1
  ended _ = 0

  -- The goroutine that writes, or is about to be started for it.
  abbrev pub writing : Thread P E → ℕ
  writing run_started = 1
  writing write_waits = 1
  writing (write_holds _) = 1
  writing (write_sends _) = 1
  writing _ = 0

  module _ (d : ConnDependencies P E) where
    -- There is one Run.
    pub Move-once_run :
        {c c' : Conn E} {t : Thread P E} {next : List (Thread P E)}
        → Move d c t c' next
        → c'.ends + total early next + total past next + bit c.started
          ≤ c.ends + early t + past t + bit c'.started
    Move-once_run (move_calls (run_first e)) = omega (arith, ap bit e)
    Move-once_run (move_calls (run_again e)) = omega arith
    Move-once_run (move_calls _) = omega arith
    Move-once_run (move_loops (write_done e)) = omega arith
    Move-once_run (move_loops _) = omega arith
    Move-once_run (move_calls_back (no_on_open e)) = omega arith
    Move-once_run (move_calls_back _) = omega arith

    -- Run waits for the loops: `rest` are the others past the Wait.
    pub Move-past :
        {c c' : Conn E} {t : Thread P E} {next : List (Thread P E)}
        → Move d c t c' next
        → (rest : ℕ) → c.ends + rest + early t + past t ≤ 1
        → (0 < c.ends + rest + past t → c.wg ≡ 0)
        → 0 < c'.ends + rest + total past next
        → c'.wg ≡ 0
    Move-past (move_calls (waited e)) rest one h p = e
    Move-past (move_calls start_writer) rest one h p = absurd (omega arith)
    Move-past (move_calls (start_reader)) rest one h p = absurd (omega arith)
    Move-past (move_calls (start_beater _ _)) rest one h p = absurd (omega arith)
    Move-past (move_calls (leave e)) rest one h p = omega (arith, h (omega arith))
    Move-past (move_calls _) rest one h p = h (omega arith)
    Move-past (move_loops (write_done e)) rest one h p = h (omega arith)
    Move-past (move_loops _) rest one h p = h (omega arith)
    Move-past (move_calls_back (no_on_open e)) rest one h p = h (omega arith)
    Move-past (move_calls_back _) rest one h p = h (omega arith)

    -- Run calls OnClose after the transport is closed.
    pub Move-ended :
        {c c' : Conn E} {t : Thread P E} {next : List (Thread P E)}
        → Move d c t c' next
        → (rest : ℕ) → (0 < c.ends + rest + ended t → over c.close_once ≡ 1)
        → 0 < c'.ends + rest + total ended next
        → over c'.close_once ≡ 1
    Move-ended (move_calls (close_first e)) rest h p =
        absurd (omega (arith, ap over e, h (omega arith)))
    Move-ended (move_calls (close_later e)) rest h p = ap over e
    Move-ended (move_calls (shut result)) rest h p = refl
    Move-ended (move_calls (run_again e)) rest h p = h (omega arith)
    Move-ended (move_calls _) rest h p = h (omega arith)
    Move-ended (move_loops (write_done e)) rest h p = h (omega arith)
    Move-ended (move_loops _) rest h p = h (omega arith)
    Move-ended (move_calls_back (no_on_open e)) rest h p = h (omega arith)
    Move-ended (move_calls_back _) rest h p = h (omega arith)

    -- There is one writer, and it drops a message only at its end.
    pub Move-writing :
        {c c' : Conn E} {t : Thread P E} {next : List (Thread P E)}
        → Move d c t c' next
        → length c'.dropped + total writing next + bit c.started
          ≤ length c.dropped + writing t + bit c'.started
    Move-writing (move_calls (run_first e)) = omega (arith, ap bit e)
    Move-writing {c = c} (move_loops (write_late {m = m} e)) =
        omega (arith, length-append c.dropped (m ∷ []))
    Move-writing {c = c} (move_loops (write_panics {m = m})) =
        omega (arith, length-append c.dropped (m ∷ []))
    Move-writing {c = c} (move_loops (write_fails {m = m} err)) =
        omega (arith, length-append c.dropped (m ∷ []))
    Move-writing {c = c} (move_loops (write_short {m = m} n e)) =
        omega (arith, length-append c.dropped (m ∷ []))
    Move-writing (move_calls (run_again e)) = omega arith
    Move-writing (move_calls _) = omega arith
    Move-writing (move_loops (write_done e)) = omega arith
    Move-writing (move_loops _) = omega arith
    Move-writing (move_calls_back (no_on_open e)) = omega arith
    Move-writing (move_calls_back _) = omega arith

-- ===== src/Network/SessionClient/Examples.antt =====
-- A run of a client: it dials, another goroutine waits, a third closes it.
use go_tools.Base.{ℕ, ◌+◌, ◌≡◌, ◌≤◌, true, false, List, [], ◌∷◌, some, none, refl}
use go_tools.Base.Threads.{total, step, done, and_then}
use go_tools.Base.Threads
use go_tools.Network.Conn.{not_begun, finished}
use go_tools.Network.Conn.Counts.{has}
use go_tools.Network.SessionClient.{
  SessionClient, new_session_client, session_state_new, session_state_running, session_state_closed,
  to_exit, Thread, dial_context, dialing, dialed, dial_leaves, runs_conn, finishing, closing_done,
  finish_ends, wait, waiting, close, close_locks, close_cancels, close_conn, close_last, close_ends,
  returned, close_returned,
}
use go_tools.Network.SessionClient.Moves.{
  Move, move_dial, move_end, dial_first, dial_gives, conn_ends, finish_exits, wait_begins,
  wait_over, published, close_first, close_swaps, close_no_dial, close_a_conn, close_leaves,
  close_over, finish_writes, finish_closes,
}
use go_tools.Network.SessionClient.Counts.{owes, crashes, dials}
use go_tools.Network.SessionClient.Invariant.{
  World, calls_dial, calls_wait, calls_close, IsReachable,
}
use go_tools.Network.SessionClient.Closing.{finish_once, wait_result_kept, close_reaches_all}
use go_tools.Network.SessionClient.{foreign}

abbrev fresh : SessionClient ℕ
fresh = record {
  state = session_state_new;
  dial_cancel = false;
  conn = false;
  done = false;
  wait_err = none;
  close_once = not_begun;
  close_err = none;
  dial_cancelled = false;
  conn_closed = false;
}

abbrev the_calls : List (Thread ℕ)
the_calls = dial_context ∷ wait ∷ close ∷ []

-- The dial goes on, and Close has not begun.
abbrev dialing_world : World ℕ
dialing_world = (
  record fresh { state = session_state_running; dial_cancel = true },
  dialed ∷ waiting ∷ close ∷ [],
)

dialing_steps : Threads.Steps Move (fresh, the_calls) dialing_world
dialing_steps =
    and_then
      (and_then
        (and_then done (step [] dial_context (wait ∷ close ∷ []) (move_dial (dial_first refl))))
        (step [] dialing (wait ∷ close ∷ []) (move_dial dial_gives)))
      (step (dialed ∷ []) wait (close ∷ []) (move_end (wait_begins refl)))

-- Close has returned, and the connection has ended.
abbrev closed_world : World ℕ
closed_world = (
  record fresh {
    state = session_state_closed;
    conn = true;
    done = true;
    wait_err = some (foreign 9);
    close_once = finished;
    conn_closed = true;
  },
  finish_ends to_exit ∷ dial_leaves none ∷ waiting ∷ close_returned none ∷ [],
)

abbrev the_others : List (Thread ℕ)
the_others = dial_leaves none ∷ waiting ∷ []

closed_steps : Threads.Steps Move (fresh, the_calls) closed_world
closed_steps =
    and_then
      (and_then
        (and_then
          (and_then
            (and_then
              (and_then
                (and_then
                  (and_then
                    (and_then
                      (and_then dialing_steps
                        (step [] dialed (waiting ∷ close ∷ []) (move_dial (published refl refl))))
                      (step (runs_conn ∷ the_others) close [] (move_end (close_first refl))))
                    (step (runs_conn ∷ the_others) close_locks [] (move_end close_swaps)))
                  (step (runs_conn ∷ the_others) (close_cancels session_state_running false true) []
                    (move_end close_no_dial)))
                (step (runs_conn ∷ the_others) (close_conn session_state_running true) []
                  (move_end (close_a_conn none))))
              (step (runs_conn ∷ the_others) (close_last session_state_running) []
                (move_end (close_leaves refl))))
            (step (runs_conn ∷ the_others) close_ends [] (move_end close_over)))
          (step [] runs_conn (dial_leaves none ∷ waiting ∷ close_returned none ∷ [])
            (move_dial (conn_ends 9))))
        (step [] (finishing (foreign 9) to_exit)
          (dial_leaves none ∷ waiting ∷ close_returned none ∷ []) (move_end finish_writes)))
      (step [] (closing_done to_exit) (dial_leaves none ∷ waiting ∷ close_returned none ∷ [])
        (move_end (finish_closes refl)))

abbrev waited_world : World ℕ
waited_world =
    (closed_world.0, dial_leaves none ∷ returned (some (foreign 9)) ∷ close_returned none ∷ [])

waited_steps : Threads.Steps Move closed_world waited_world
waited_steps =
    and_then
      (and_then done (
        step [] (finish_ends to_exit) (dial_leaves none ∷ waiting ∷ close_returned none ∷ [])
          (move_end finish_exits)))
      (step (dial_leaves none ∷ []) waiting (close_returned none ∷ []) (move_end (wait_over refl)))

reached : (w : World ℕ) → Threads.Steps Move (fresh, the_calls) w → IsReachable w
unfolding new_session_client
reached w steps = record {
  start = fresh;
  has_made = refl;
  calls = the_calls;
  are_calls = (calls_dial, (calls_wait, (calls_close, tt)));
  steps = steps;
}

finish_once_example :
    (total (owes {E = ℕ}) dialing_world.1 + 0 ≡ 1) × (total (crashes {E = ℕ}) dialing_world.1 ≡ 0)
finish_once_example = finish_once dialing_world (reached dialing_world dialing_steps)

abbrev one_result : List (Thread ℕ)
one_result = returned (some (foreign 9)) ∷ []

wait_result_kept_example :
    (one_result ≡ one_result) × (1 ≤ has (closed_world.0.wait_err)) × (one_result ≡ one_result)
wait_result_kept_example =
    wait_result_kept closed_world waited_world (reached closed_world closed_steps)
      (move_end (wait_over refl)) waited_steps (move_end (wait_over refl))

close_reaches_all_example : (1 ≤ 1) × (total (dials {E = ℕ}) closed_world.1 ≤ 0)
close_reaches_all_example = close_reaches_all closed_world (reached closed_world closed_steps) refl

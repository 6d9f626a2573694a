-- ===== src/Network/Conn/Examples.antt =====
-- A run of a connection, on which the theorems are applied: a message is sent and written, and Close ends
-- the connection while Run is still in OnOpen.
use go_tools.Base.{ℕ, ◌≡◌, ◌≤◌, true, false, List, [], ◌∷◌, some, none, arith, refl, ◌⊎◌, ◌%◌}
use go_tools.Base.Threads.{total}
use go_tools.Network.Conn.{
  Conn, ConnConfig, new_conn, ConnDependencies, encoded, not_begun, running, finished, by_caller,
  to_ended, to_caller, Thread, run, run_started, run_opening, run_opened, run_waits, run_ended,
  write_waits, write_holds, write_sends, send, send_checks, send_waits, sent, close, closing,
  shutting, closed, leaves, returned,
}
use go_tools.Network.Conn.Moves.{Move, move_calls, move_loops, move_calls_back, World, Steps}
use go_tools.Base.Threads.{step, done, and_then, count, join}
use go_tools.Base.Int.{two_pow_64, pos}
use go_tools.Base.Bytes.{Bytes}
use go_tools.Network.Conn.{err_closed}
use go_tools.Network.Conn.Counts.{loop}
use go_tools.Network.Conn.Lifecycle.{early}
use go_tools.Network.Conn.Invariant.{AreCalls, calls_run, calls_send, calls_close}
use go_tools.Network.Conn.Moves.Calls.{close_first, shut}
use go_tools.Network.Conn.Moves.Calls.{no_on_open}
use go_tools.Network.Conn.Moves.Loops.{write_done}
use go_tools.Network.Conn.Shutdown.{rank, going}
use go_tools.Network.Conn.Moves.Calls.{
  run_first, start_writer, send_encoded, check_ok, wait_joins, close_called, close_first, shut,
  leave, no_on_open, opened_closed, waited, close_later, close_ended, on_close,
}
use go_tools.Network.Conn.Moves.Loops.{write_takes, write_begins, write_whole, write_done}
use go_tools.Network.Conn.Closing.{IsReachable, first_cause_kept, on_close_last, written_in_order}
use go_tools.Network.Conn.Liveness.{CanStep, shutdown_ends}
use go_tools.Network.Traffic.{no_traffic, incr_write}

abbrev deps : ConnDependencies Bytes ℕ
deps = record {
  encode = λ packet. encoded packet;
  heartbeat = none;
  has_receiver = false;
  has_on_open = false;
  has_on_close = true;
}

abbrev conf : ConnConfig
conf = record {
  send_queue_size = pos 2;
  read_buffer_size = pos 0;
  heartbeat_interval = pos 0;
  heartbeat_timeout = pos 0;
}

abbrev fresh : Conn ℕ
fresh = record {
  id = 1;
  conn_conf = record conf { read_buffer_size = pos 4096 };
  statistics = no_traffic;
  cause = none;
  send_queue = [];
  wg = 0;
  started = false;
  close_once = not_begun;
  close_err = none;
  last_active_time = 0;
  accepted = [];
  written = [];
  dropped = [];
  closes = 0;
  ends = 0;
}

abbrev message : Bytes
message = 7 ∷ 8 ∷ []

abbrev the_calls : List (Thread Bytes ℕ)
the_calls = run ∷ send by_caller message ∷ close ∷ []

-- After the message was written.
abbrev sent_world : World Bytes ℕ
sent_world = (
  record fresh {
    started = true;
    wg = 1;
    accepted = message ∷ [];
    written = message ∷ [];
    statistics = incr_write no_traffic 2;
  },
  write_waits ∷ run_opening ∷ sent by_caller none ∷ close ∷ [],
)

sent_steps : Steps deps (fresh, the_calls) sent_world
sent_steps =
    and_then
      (and_then
        (and_then
          (and_then
            (and_then
              (and_then
                (and_then
                  (and_then done (
                    step [] run (send by_caller message ∷ close ∷ [])
                      (move_calls (run_first refl))))
                  (step [] run_started (send by_caller message ∷ close ∷ [])
                    (move_calls start_writer)))
                (step (write_waits ∷ run_opening ∷ []) (send by_caller message) (close ∷ [])
                  (move_calls (send_encoded refl))))
              (step (write_waits ∷ run_opening ∷ []) (send_checks by_caller message) (close ∷ [])
                (move_calls (check_ok refl))))
            (step (write_waits ∷ run_opening ∷ []) (send_waits by_caller message) (close ∷ [])
              (move_calls (wait_joins (omega arith)))))
          (step [] write_waits (run_opening ∷ sent by_caller none ∷ close ∷ [])
            (move_loops (write_takes refl))))
        (step [] (write_holds message) (run_opening ∷ sent by_caller none ∷ close ∷ [])
          (move_loops (write_begins refl))))
      (step [] (write_sends message) (run_opening ∷ sent by_caller none ∷ close ∷ [])
        (move_loops write_whole))

-- Close has cancelled the context and is about to close the transport.
abbrev late_world : World Bytes ℕ
late_world = (
  record sent_world.0 { close_once = running; cause = some err_closed },
  write_waits ∷ run_opening ∷ sent by_caller none ∷ shutting to_caller ∷ [],
)

late_steps : Steps deps (fresh, the_calls) late_world
late_steps =
    and_then
      (and_then sent_steps (
        step (write_waits ∷ run_opening ∷ sent by_caller none ∷ []) close []
          (move_calls close_called)))
      (step (write_waits ∷ run_opening ∷ sent by_caller none ∷ []) (closing err_closed to_caller) []
        (move_calls (close_first refl)))

-- Run has called OnClose.
abbrev end_world : World Bytes ℕ
end_world = (
  record late_world.0 { close_once = finished; closes = 1; wg = 0; ends = 1 },
  returned none ∷ sent by_caller none ∷ closed to_caller ∷ [],
)

abbrev others_of : List (Thread Bytes ℕ)
others_of = sent by_caller none ∷ closed to_caller ∷ []

end_steps : Steps deps late_world end_world
end_steps =
    and_then
      (and_then
        (and_then
          (and_then
            (and_then
              (and_then
                (and_then
                  (and_then
                    (and_then done (
                      step (write_waits ∷ run_opening ∷ sent by_caller none ∷ [])
                        (shutting to_caller) [] (move_calls (shut none))))
                    (step [] write_waits (run_opening ∷ others_of) (move_loops (write_done refl))))
                  (step [] leaves (run_opening ∷ others_of) (move_calls (leave (omega arith)))))
                (step [] run_opening others_of (move_calls_back (no_on_open refl))))
              (step [] run_opened others_of (move_calls (opened_closed refl))))
            (step [] run_waits others_of (move_calls (waited refl))))
          (step [] (closing err_closed to_ended) others_of (move_calls (close_later refl))))
        (step [] (closed to_ended) others_of (move_calls close_ended)))
      (step [] run_ended others_of (move_calls_back (on_close refl)))

abbrev calls-AreCalls : AreCalls the_calls
calls-AreCalls = (calls_run, (calls_send, (calls_close, tt)))

reached : (w : World Bytes ℕ) → Steps deps (fresh, the_calls) w → IsReachable deps w
unfolding new_conn
reached w steps = record {
  id = 1;
  conf = conf;
  start = fresh;
  made = refl;
  calls = the_calls;
  are_calls = calls-AreCalls;
  steps = steps;
}

written_in_order_example :
    ((rest : List Bytes) × (message ∷ [] ≡ message ∷ rest))
    × ((1 ≡ 1 % two_pow_64) × (2 ≡ 2 % two_pow_64))
unfolding incr_write
written_in_order_example = written_in_order deps sent_world (reached sent_world sent_steps)

first_cause_kept_example : end_world.0.cause ≡ some err_closed
first_cause_kept_example =
    first_cause_kept deps late_world end_world err_closed (reached late_world late_steps) refl
      end_steps

on_close_last_example :
    (end_world.0.closes ≡ 1)
    × ((total (loop {P = Bytes} {E = ℕ}) end_world.1 ≡ 0)
        × (total (early {P = Bytes} {E = ℕ}) end_world.1 ≡ 0))
on_close_last_example =
    on_close_last deps end_world (reached end_world (join (Move deps) late_steps end_steps))
      (omega arith)

shutdown_ends_example :
    (count (Move deps) end_steps ≤ total (rank {P = Bytes} {E = ℕ}) late_world.1)
    × ((total (going {P = Bytes} {E = ℕ}) end_world.1 ≡ 0) ⊎ CanStep deps end_world)
shutdown_ends_example =
    shutdown_ends deps late_world end_world err_closed (reached late_world late_steps) refl
      end_steps

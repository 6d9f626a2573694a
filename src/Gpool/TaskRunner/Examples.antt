-- ===== src/Gpool/TaskRunner/Examples.antt =====
-- Runs of common/pool/gpool/task_runner.go on small inputs.
use go_tools.Base.{ℕ, ◌≡◌, sym, ◌≤◌, refl, true, false, List, [], ◌∷◌, ◌++◌, some, none}
use go_tools.Base.Int.{pos}
use go_tools.Gpool.TaskRunner.{
  TaskRunner, Thread, Task, new_task_runner, advance, World, step, Steps, done, and_then, submit,
  submit_open, submit_counted, submit_sent, working, worked, half_done, close, close_asleep,
  misused, close_swapped, close_waiting, returned, crashed,
}
use go_tools.Gpool.TaskRunner.Counters.{counted}
use go_tools.Gpool.TaskRunner.Invariant.{IsReachable, no_call, submit_call, close_call}
use go_tools.Gpool.TaskRunner.Deadlock.{IsStuck, is_returned, stuck_is_done}
use go_tools.Gpool.TaskRunner.Progress.{
  runs, concurrency_limited, close_awaits_tasks, submit_may_crash,
}
use go_tools.Base.Threads.{total}

abbrev failing : Task ℕ
failing = record { throws = some 7; stalls = false }

abbrev one_waits : TaskRunner ℕ
one_waits = record {
  limit = 2;
  tokens = 0;
  chan_closed = false;
  status = false;
  wg = 1;
  asleep = 0;
  released = 0;
  handled = [];
}

-- Submit has joined the wait group, and Close is called.
counted_reached : IsReachable (pos 2) (one_waits, submit_counted failing ∷ close ∷ [])
unfolding advance new_task_runner
counted_reached = record {
  calls = submit failing ∷ close ∷ [];
  fresh = submit_call (close_call no_call);
  steps =
      and_then (and_then done (step [] (submit failing) (close ∷ []) refl))
        (step [] (submit_open failing) (close ∷ []) refl);
}

abbrev one_runs : TaskRunner ℕ
one_runs = record one_waits { tokens = 1 }

running_reached : IsReachable (pos 2) (one_runs, working false failing ∷ returned none ∷ close ∷ [])
unfolding advance
running_reached = record {
  calls = counted_reached.calls;
  fresh = counted_reached.fresh;
  steps =
      and_then (and_then counted_reached.steps (step [] (submit_counted failing) (close ∷ []) refl))
        (step [] (submit_sent failing) (close ∷ []) refl);
}

abbrev shut : TaskRunner ℕ
shut = record one_waits { status = true; chan_closed = true }

abbrev idle_runner : TaskRunner ℕ
idle_runner = record shut { wg = 0 }

idle_reached : IsReachable (pos 2) (idle_runner, close_waiting ∷ [])
unfolding advance new_task_runner
idle_reached = record {
  calls = close ∷ [];
  fresh = close_call no_call;
  steps = and_then (and_then done (step [] close [] refl)) (step [] close_swapped [] refl);
}

abbrev waiter : List (Thread ℕ)
waiter = close_waiting ∷ []

concurrency_limited_example :
    total runs (working false failing ∷ returned none ∷ close ∷ [])
    ≤ (new_task_runner {E = ℕ} (pos 2)).limit
concurrency_limited_example =
    concurrency_limited (pos 2) (one_runs, working false failing ∷ returned none ∷ close ∷ [])
      running_reached

close_awaits_tasks_example : (total runs waiter ≡ 0) × (total counted waiter ≡ 0)
unfolding advance
close_awaits_tasks_example =
    close_awaits_tasks (pos 2) (idle_runner, close_waiting ∷ []) idle_runner close_waiting
      idle_reached refl refl

submit_may_crash_example :
    Steps (one_waits, submit_counted failing ∷ close ∷ []) (shut, crashed ∷ close_waiting ∷ [])
submit_may_crash_example = submit_may_crash (pos 2) one_waits failing [] counted_reached refl

abbrev closed_down : World ℕ
closed_down = (idle_runner, returned none ∷ [])

closed_down_reached : IsReachable (pos 2) closed_down
unfolding advance
closed_down_reached = record {
  calls = idle_reached.calls;
  fresh = idle_reached.fresh;
  steps = and_then idle_reached.steps (step [] close_waiting [] refl);
}

only_one : (x t : Thread ℕ) (before after : List (Thread ℕ)) → x ∷ [] ≡ before ++ t ∷ after → x ≡ t
only_one x t [] after e = cc
only_one x t (y ∷ []) after e = absurd (cc)
only_one x t (y ∷ z ∷ before) after e = absurd (cc)

closed_down-IsStuck : IsStuck closed_down
unfolding advance
closed_down-IsStuck t a =
    let same = only_one (returned none) t a.before a.after a.split in rw (sym same) refl

stuck_is_done_example : is_returned {E = ℕ} (returned none) ≡ true
stuck_is_done_example =
    stuck_is_done (pos 2) closed_down closed_down_reached closed_down-IsStuck refl refl
      (returned none) (record { before = []; after = []; split = refl })

-- A Submit that found the runner open joins the wait group after its counter has reached 0, and before the
-- Wait of Close, which was told to wake up, returns: that Wait panics.
abbrev two_submits : List (Thread ℕ)
two_submits = submit failing ∷ submit failing ∷ close ∷ []

abbrev task_over : TaskRunner ℕ
task_over = record shut { wg = 0; released = 1; handled = 7 ∷ [] }

closed_while_running :
    Steps
      (new_task_runner (pos 2), two_submits)
      (
        record shut { tokens = 1 },
        working false failing ∷ returned none ∷ submit_open failing ∷ close_waiting ∷ [],
      )
unfolding advance new_task_runner
closed_while_running =
    let last = submit_open failing ∷ close ∷ [] in
    let first = working false failing ∷ returned none ∷ submit_open failing ∷ [] in
    and_then
      (and_then
        (and_then
          (and_then
            (and_then
              (and_then
                (and_then done (step [] (submit failing) (submit failing ∷ close ∷ []) refl))
                (step (submit_open failing ∷ []) (submit failing) (close ∷ []) refl))
              (step [] (submit_open failing) last refl))
            (step [] (submit_counted failing) last refl))
          (step [] (submit_sent failing) last refl))
        (step first close [] refl))
      (step first close_swapped [] refl)

test_wait_panics :
    Steps
      (
        record shut { tokens = 1 },
        working false failing ∷ returned none ∷ submit_open failing ∷ close_waiting ∷ [],
      )
      (
        record task_over { wg = 1; released = 0 },
        returned none ∷ submit_counted failing ∷ misused ∷ [],
      )
unfolding advance
test_wait_panics =
    let waiting = returned none ∷ submit_open failing ∷ close_asleep ∷ [] in
    and_then
      (and_then
        (and_then
          (and_then
            (and_then
              (and_then done (
                step (working false failing ∷ returned none ∷ submit_open failing ∷ [])
                  close_waiting [] refl))
              (step [] (working false failing) waiting refl))
            (step [] (worked false) waiting refl))
          (step [] (half_done false) waiting refl))
        (step (returned none ∷ []) (submit_open failing) (close_asleep ∷ []) refl))
      (step (returned none ∷ submit_counted failing ∷ []) close_asleep [] refl)

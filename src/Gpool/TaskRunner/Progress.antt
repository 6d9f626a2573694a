-- ===== src/Gpool/TaskRunner/Progress.antt =====
-- Limits and progress of the TaskRunner of common/pool/gpool/task_runner.go.
use go_tools.Base.{
  ◌+◌, inl, inr, Bool-cases, if◌then◌else◌, if_false, if_intro, ℕ, ◌≡◌, ◌≤◌, refl, Bool, true,
  false, List, [], ◌∷◌, ◌++◌, some, none, leb, arith,
}
use go_tools.Base.Int.{ℤ}
use go_tools.Gpool.TaskRunner.{
  TaskRunner, Thread, Task, new_task_runner, advance, wg_done, receive, send, World, step, Steps,
  done, and_then, Outcome, submit_counted, submit_sent, immediate_sent, working, worked, half_done,
  close, close_swapped, close_waiting, close_asleep, returned, crashed,
}
use go_tools.Gpool.TaskRunner.Counters.{IsCounted, token, counted}
use go_tools.Gpool.TaskRunner.Invariant.{
  inside_world, IsReachable, Steps-limit, start-IsValid, reachable-IsValid,
}
use go_tools.Base.Threads.{total, total-le}
use go_tools.Gpool.TaskRunner.Crashes.{crashes}

module _ {ℓ} {E : Type ℓ} where
  -- The goroutine runs a task.
  abbrev pub runs : Thread E → ℕ
  runs (working now task) = 1
  runs _ = 0

  runs-le : (t : Thread E) → (runs t ≤ token t) × (runs t ≤ counted t)
  runs-le (working now task) = (omega arith, omega arith)
  runs-le _ = (omega arith, omega arith)

  -- In every reachable state at most as many tasks run as the size of the runner, or 1 where it is not
  -- positive.
  pub concurrency_limited :
      (size : ℤ) (w : World E)
      → IsReachable size w
      → total runs w.1 ≤ (new_task_runner {E = E} size).limit
  concurrency_limited size w r =
      let v = reachable-IsValid size w r in
      let same = Steps-limit (start-IsValid size r.calls r.fresh) r.steps in
      omega (arith, v.tokens, v.limited, same, total-le runs token w.1 (λ t. (runs-le t).0))

  -- The goroutine is in Wait, at its begin or at its end.
  abbrev pub is_waiting : Thread E → Bool
  is_waiting close_waiting = true
  is_waiting close_asleep = true
  is_waiting _ = false

  waited :
      (tr tr' : TaskRunner E) (t : Thread E)
      → is_waiting t ≡ true
      → advance tr t ≡ some (tr', returned none ∷ [])
      → tr.wg ≡ 0
  unfolding advance
  waited tr tr' close_waiting h e = elim (Bool-cases (leb tr.wg 0)) [
    | inl idle ↦ ground arith
    | inr busy ↦ absurd (ground arith)
  ]
  waited tr tr' close_asleep h e = elim (Bool-cases (leb tr.released 0)) [
    | inl still ↦ absurd (ground arith)
    | inr woken ↦ elim (Bool-cases (leb (tr.wg + tr.asleep) 0)) [
      | inl idle ↦ ground arith
      | inr busy ↦ absurd (ground arith)
    ]
  ]
  waited tr tr' _ h e = absurd (cc)

  -- When the Wait of Close may return in a reachable state, be it at once or after it has slept, no task is
  -- running, and no call of Submit or SubmitImmediately that has joined the wait group is unfinished.
  pub close_awaits_tasks :
      (size : ℤ) (w : World E) (tr' : TaskRunner E) (t : Thread E)
      → IsReachable size w
      → is_waiting t ≡ true
      → advance w.0 t ≡ some (tr', returned none ∷ [])
      → (total runs w.1 ≡ 0) × (total counted w.1 ≡ 0)
  close_awaits_tasks size w tr' t r h e =
      let v = reachable-IsValid size w r in
      let idle = waited w.0 tr' t h e in
      (
        omega (arith, v.waiting, total-le runs counted w.1 (λ t. (runs-le t).1)),
        omega (arith, v.waiting),
      )

  -- The goroutine has its token, and has not left the wait group and the channel; its task returns.
  abbrev pub is_task : Thread E → Bool
  is_task (submit_sent task) = true
  is_task (immediate_sent task) = true
  is_task (working now task) = if task.stalls then false else true
  is_task (worked now) = true
  is_task (half_done now) = true
  is_task _ = false

  -- The goroutine moves, and does not crash.
  abbrev pub MovesOn : Outcome E → Type ℓ
  MovesOn o =
      (tr : TaskRunner E) × (next : List (Thread E)) × (o ≡ some (tr, next))
      × (total crashes next ≡ 0)

  moves :
      (tr : TaskRunner E) (t : Thread E)
      → IsCounted tr t
      → is_task t ≡ true
      → MovesOn (advance tr t)
  unfolding advance wg_done receive
  moves tr (submit_sent task) c h = (tr, _, refl, refl)
  moves tr (immediate_sent task) c h = (tr, _, refl, refl)
  moves tr (working now task) c h =
      if_intro MovesOn task.stalls _ _ (λ e. absurd (ground arith)) (λ e. (_, _, refl, refl))
  moves tr (worked false) c h =
      if_intro MovesOn (leb tr.tokens 0) _ _ (λ e. absurd (ground (arith, c.tokens)))
        (λ e. (_, _, refl, refl))
  moves tr (worked true) c h =
      if_intro MovesOn (leb tr.wg 0) _ _ (λ e. absurd (ground (arith, c.waiting)))
        (λ e. (_, _, refl, refl))
  moves tr (half_done false) c h =
      if_intro MovesOn (leb tr.wg 0) _ _ (λ e. absurd (ground (arith, c.waiting)))
        (λ e. (_, _, refl, refl))
  moves tr (half_done true) c h =
      if_intro MovesOn (leb tr.tokens 0) _ _ (λ e. absurd (ground (arith, c.tokens)))
        (λ e. (_, _, refl, refl))
  moves tr _ c h = absurd (cc)

  -- In every reachable state a task that has its token, and returns, is neither blocked nor crashes, so it hands its
  -- token back and leaves the wait group, whether it panics or not and whether the runner is closed or not.
  pub tasks_move_on :
      (size : ℤ) (tr : TaskRunner E) (before after : List (Thread E)) (t : Thread E)
      → IsReachable size (tr, before ++ t ∷ after)
      → is_task t ≡ true
      → MovesOn (advance tr t)
  tasks_move_on size tr before after t r h =
      moves tr t
        (inside_world (tr, before ++ t ∷ after) before after t refl (reachable-IsValid size _ r)) h

  -- Submit may panic: from every reachable state of an open runner where Submit waits to send and Close
  -- is called, there are steps to a state in which that Submit has crashed.
  pub submit_may_crash :
      (size : ℤ) (tr : TaskRunner E) (task : Task E) (others : List (Thread E))
      → IsReachable size (tr, submit_counted task ∷ close ∷ others)
      → tr.status ≡ false
      → Steps
          (tr, submit_counted task ∷ close ∷ others)
          (record tr { status = true; chan_closed = true }, crashed ∷ close_waiting ∷ others)
  unfolding advance send
  submit_may_crash size tr task others r not_closed =
      let v = reachable-IsValid size (tr, submit_counted task ∷ close ∷ others) r in
      let still_open : tr.chan_closed ≡ false = ground (arith, v.closed) in
      and_then
        (and_then
          (and_then done (
            step {tr' = record tr { status = true }} {next = close_swapped ∷ []}
              (submit_counted task ∷ []) close others (if_false tr.status _ _ not_closed)))
          (step {tr' = record tr { status = true; chan_closed = true }} {next = close_waiting ∷ []}
            (submit_counted task ∷ []) close_swapped others
            (if_false tr.chan_closed _ _ still_open)))
        (step {next = crashed ∷ []} [] (submit_counted task) (close_waiting ∷ others) refl)

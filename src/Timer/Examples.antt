-- ===== src/Timer/Examples.antt =====
-- Runs of common/timer on small inputs.
use go_tools.Base.{
  some, ℕ, zero, suc, ◌+◌, ◌≡◌, refl, List, [], ◌∷◌, false, none, Run, ok, panic, map, Returns,
  returns, Returns-inv, arith,
}
use go_tools.Base.Int.{ℤ, pos, negsuc, add64}
use go_tools.Container.Queue.{new_queue}
use go_tools.Container.Queue.Methods.{new_queue-Holds}
use go_tools.Timer.{Timer, TimerQueue, heap_push, heap_pop}
use go_tools.Timer.Heap.Access.{IsPlaced}
use go_tools.Timer.Heap.Order.{IsHeap}
use go_tools.Timer.Heap.Methods
use go_tools.Timer.Heap.Methods.{
  Yields, heap_push_correct, heap_pop_correct, Added, Removed, EndsFirst,
}
use go_tools.Timer.Manager.{TimerManager, Called, add_timer, collect, run}
use go_tools.Timer.Manager.Laws
use go_tools.Timer.Manager.Laws.{add_timer_correct, AddTimerResult}
use go_tools.Timer.Manager.Collect.{Collected}
use go_tools.Timer.Manager.Schedule.{collect_correct}
use go_tools.Timer.Manager.Fire.{IsRespectful, run_calls_due, RunResult}

abbrev first_timer : Timer ℕ
first_timer = record { time_outer = 10; id = pos 1; end = pos 5; interval = pos 20; index = pos 0 }

abbrev second_timer : Timer ℕ
second_timer = record { time_outer = 30; id = pos 2; end = pos 9; interval = pos 0; index = pos 1 }

abbrev third_timer : Timer ℕ
third_timer = record { time_outer = 50; id = pos 3; end = pos 2; interval = pos 0; index = pos 0 }

abbrev end_of_timer : Timer ℕ → ℤ
end_of_timer t = t.end

abbrev two_timers : TimerQueue ℕ
two_timers = record { items = first_timer ∷ second_timer ∷ []; room = 3 }

two_timers-IsValid : Methods.IsValid two_timers
two_timers-IsValid = record { ordered = ordered; placed = placed; fits = omega arith }
  where
    ordered : IsHeap 2 two_timers.items
    ordered zero p q = absurd (omega arith)
    ordered (suc zero) p q = omega arith
    ordered (suc (suc c)) p q = absurd (omega arith)

    placed : IsPlaced two_timers.items
    placed zero t e = cc
    placed (suc zero) t e = cc
    placed (suc (suc i)) t e = absurd (cc)

abbrev two_manager : TimerManager ℕ
two_manager = record { id = pos 2; tq = two_timers; queue = new_queue none }

test_push_order :
    heap_pop two_timers
    ≡ ok (
      some (record first_timer { index = negsuc 0 }),
      record { items = record second_timer { index = pos 0 } ∷ []; room = 3 },
    )
unfolding heap_pop
test_push_order = refl

two_manager-IsValid : Laws.IsValid two_manager
two_manager-IsValid = record { heap = two_timers-IsValid; line = (new_queue-Holds none).0 }

heap_push_correct_example :
    Returns (Added two_timers third_timer) (heap_push two_timers third_timer)
heap_push_correct_example =
    heap_push_correct two_timers third_timer two_timers-IsValid (omega arith)

heap_pop_correct_example :
    Returns
      (Yields (λ (t, tq'). EndsFirst two_timers t × Removed two_timers first_timer (t, tq')))
      (heap_pop two_timers)
heap_pop_correct_example = heap_pop_correct two_timers first_timer two_timers-IsValid refl

add_timer_correct_example :
    Returns
      (AddTimerResult two_manager 50 (pos 2) (pos 0))
      (add_timer two_manager 50 (pos 2) (pos 0))
add_timer_correct_example = add_timer_correct two_manager 50 (pos 2) (pos 0) two_manager-IsValid

collect_correct_example :
    Returns
      (λ (_, tm'). (fired : List (Timer ℕ)) × Collected (pos 7) (pos 0) two_manager [] fired tm')
      (collect 3 (pos 7) (pos 0) 0 two_manager)
unfolding add64 new_queue
collect_correct_example =
    collect_correct 3 (pos 7) (pos 0) 0 two_manager [] two_manager-IsValid refl refl (omega arith)

abbrev manager_after : TimerManager ℕ → Run (ℤ × TimerManager ℕ) → TimerManager ℕ
manager_after tm (ok (_, tm')) = tm'
manager_after tm panic = tm

-- A callback that logs its number and adds a timer.
abbrev logged : ℕ → ℤ → List ℕ → TimerManager ℕ → Called ℕ (List ℕ)
logged c now w tm = record {
  world = c ∷ w;
  manager = manager_after tm (add_timer tm (c + 1) (add64 now (pos 10)) (pos 0));
  panicked = false;
}

logged-IsRespectful : IsRespectful logged
logged-IsRespectful = record {
  valid = λ c now w tm v.
      let (r, same, h) =
        Returns-inv (add_timer_correct tm (c + 1) (add64 now (pos 10)) (pos 0) v) in
      rw same h.0;
  same_queue = λ c now w tm v.
      let (r, same, h) =
        Returns-inv (add_timer_correct tm (c + 1) (add64 now (pos 10)) (pos 0) v) in
      rw same h.1;
  calm = λ c now w tm. refl;
}

run_calls_due_example :
    Returns
      (RunResult logged (pos 7) (pos 0) [] two_manager [])
      (run logged 3 (pos 7) (pos 0) [] two_manager)
unfolding add64 new_queue
run_calls_due_example =
    run_calls_due logged 3 (pos 7) (pos 0) [] two_manager [] logged-IsRespectful two_manager-IsValid
      refl refl (omega arith)

-- A run calls the first timer, renews it at 27, and the callback adds one that ends at 17.
test_run :
    Returns
      (λ r.
        (r.check_count ≡ 2)
        × (r.call_count ≡ 1)
        × (r.world ≡ 10 ∷ [])
        × (map end_of_timer r.manager.tq.items ≡ pos 9 ∷ pos 27 ∷ pos 17 ∷ []))
      (run logged 3 (pos 7) (pos 0) [] two_manager)
unfolding run add_timer add64 new_queue
test_run = returns (refl, refl, refl, refl)

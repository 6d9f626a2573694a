-- ===== src/Container/Queue/Examples.antt =====
-- common/container/queue.go at work: a queue that wraps, grows and shrinks.
use go_tools.Base.{ℕ, ◌≡◌, refl, List, [], ◌∷◌, ◌++◌, ok, Returns, replicate, arith}
use go_tools.Container.Queue.{Queue, push, pop, IsValid, contents}
use go_tools.Container.Queue.Methods.{pop-empty}
use go_tools.Container.Queue.Refinement.{
  Call, done, one, many, run, list_run, Answers, queue_refines, list_step, push_call, pop_call,
  value_call,
}

-- Full to the end, with room at the front.
abbrev late : Queue ℕ
late = record { slots = 0 ∷ 0 ∷ 3 ∷ 4 ∷ 5 ∷ 6 ∷ 7 ∷ 8 ∷ []; begin = 2; end = 8; capacity = 8 }

-- One element left in a large slice.
abbrev sparse : Queue ℕ
sparse = record {
  slots = replicate 7 0 ++ (8 ∷ 9 ∷ []) ++ replicate 7 0;
  begin = 7;
  end = 9;
  capacity = 16;
}

late-IsValid : IsValid late
late-IsValid = omega arith

sparse-IsValid : IsValid sparse
sparse-IsValid = omega arith

push_moves :
    push 0 late 9
    ≡ ok (record { slots = 3 ∷ 4 ∷ 5 ∷ 6 ∷ 7 ∷ 8 ∷ 9 ∷ 8 ∷ []; begin = 0; end = 7; capacity = 8 })
unfolding push
push_moves = refl

pop_shrinks :
    pop 0 sparse ≡ ok (8, record { slots = 9 ∷ replicate 7 0; begin = 0; end = 1; capacity = 8 })
unfolding pop
pop_shrinks = refl

abbrev calls : List (Call ℕ)
calls = push_call 1 ∷ push_call 2 ∷ pop_call ∷ value_call ∷ pop_call ∷ pop_call ∷ []

calls_replies : (list_run 0 calls []).0 ≡ done ∷ done ∷ one 1 ∷ many (2 ∷ []) ∷ one 2 ∷ one 0 ∷ []
unfolding list_run list_step
calls_replies = refl

pop-empty_example : pop 0 (record late { begin = 8 }) ≡ ok (0, record late { begin = 8 })
pop-empty_example = pop-empty 0 (record late { begin = 8 }) (omega arith) refl

queue_refines_example : Returns (Answers 0 (list_run 0 calls (contents late))) (run 0 calls late)
queue_refines_example = queue_refines 0 calls late (contents late) (late-IsValid, refl)

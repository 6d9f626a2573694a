-- ===== src/Gpool/TaskRunner/Invariant.antt =====
-- What holds of every state of the TaskRunner of common/pool/gpool/task_runner.go.
use go_tools.Base.{ℕ, ◌+◌, ◌≡◌, ◌≤◌, ◌<◌, refl, sym, ◌∙◌, ap, List, [], ◌∷◌, ◌++◌, arith}
use go_tools.Base.Int.{ℤ}
use go_tools.Gpool.TaskRunner.{
  TaskRunner, Thread, Task, new_task_runner, World, Step, step, Steps, done, and_then, submit,
  immediate, close,
}
use go_tools.Gpool.TaskRunner.Counters.{token, counted, closing, Balanced, IsCounted, if_some}
use go_tools.Gpool.TaskRunner.Balance.{balanced}
use go_tools.Gpool.TaskRunner.Sleepers.{sleeps, Waking, wakes}
use go_tools.Base.Threads.{bit, total, total-append}

module _ {ℓ} {E : Type ℓ} where
  pub record IsValid (w : World E) : Type 0 where
    pub tokens : w.0.tokens ≡ total token w.1
    pub waiting : w.0.wg ≡ total counted w.1
    pub limited : w.0.tokens ≤ w.0.limit
    pub closed : total closing w.1 + bit w.0.chan_closed ≡ bit w.0.status
    pub sleeping : w.0.asleep + w.0.released ≡ total sleeps w.1
    pub awaited : 0 < w.0.asleep → 0 < w.0.wg

  pub inside_world :
      (w : World E) (before after : List (Thread E)) (t : Thread E)
      → w.1 ≡ before ++ t ∷ after
      → IsValid w
      → IsCounted w.0 t
  inside_world (tr, ts) before after t e v = record {
    tokens = omega (arith, v.tokens, ap (total token) e, total-append token before (t ∷ after));
    waiting =
        omega (arith, v.waiting, ap (total counted) e, total-append counted before (t ∷ after));
    closed = omega (arith, v.closed, ap (total closing) e, total-append closing before (t ∷ after));
  }

  stepped :
      (tr tr' : TaskRunner E) (before after next : List (Thread E)) (t : Thread E)
      → IsValid (tr, before ++ t ∷ after)
      → Balanced tr t tr' next
      → Waking tr t tr' next
      → IsValid (tr', before ++ (next ++ after))
  stepped tr tr' before after next t v b a =
      let parts : (f : Thread E → ℕ)
          → total f (before ++ (next ++ after)) + f t
            ≡ total f (before ++ t ∷ after) + total f next =
        λ f. omega (
          arith,
          total-append f before (next ++ after),
          total-append f next after,
          total-append f before (t ∷ after),
        ) in
      record {
        tokens = omega (arith, v.tokens, b.tokens, parts token);
        waiting = omega (arith, v.waiting, b.waiting, parts counted);
        limited = b.limited v.limited;
        closed = omega (arith, v.closed, b.closed, parts closing);
        sleeping = omega (arith, v.sleeping, a.kept, parts sleeps);
        awaited = a.awaits v.awaited;
      }

  -- A step keeps the world valid.
  pub Step-IsValid : {w w' : World E} → IsValid w → Step w w' → IsValid w'
  Step-IsValid v (step {tr} {tr'} {next} before t after e) =
      let c = inside_world (tr, before ++ t ∷ after) before after t refl v in
      stepped tr tr' before after next t v (if_some (Balanced tr t) e (balanced tr t c))
        (if_some (Waking tr t) e (wakes tr t c))

  pub Steps-IsValid : {w w' : World E} → IsValid w → Steps w w' → IsValid w'
  Steps-IsValid v done = v
  Steps-IsValid v (and_then s x) = Step-IsValid (Steps-IsValid v s) x

  Step-limit : {w w' : World E} → IsValid w → Step w w' → w'.0.limit ≡ w.0.limit
  Step-limit v (step {tr} {tr'} {next} before t after e) =
      (if_some (Balanced tr t) e
        (balanced tr t (inside_world (tr, before ++ t ∷ after) before after t refl v))).same_limit

  pub Steps-limit : {w w' : World E} → IsValid w → Steps w w' → w'.0.limit ≡ w.0.limit
  Steps-limit v done = refl
  Steps-limit v (and_then s x) = Step-limit (Steps-IsValid v s) x ∙ Steps-limit v s

  -- Calls of Submit, SubmitImmediately and Close that have not begun.
  pub data AreCalls : List (Thread E) → Type ℓ where
    no_call : AreCalls []
    submit_call : {task : Task E} {ts : List (Thread E)} → AreCalls ts → AreCalls (submit task ∷ ts)
    immediate_call :
        {task : Task E} {ts : List (Thread E)} → AreCalls ts → AreCalls (immediate task ∷ ts)
    close_call : {ts : List (Thread E)} → AreCalls ts → AreCalls (close ∷ ts)

  idle :
      {ts : List (Thread E)}
      → AreCalls ts
      → (total token ts ≡ 0)
        × (total counted ts ≡ 0)
        × (total closing ts ≡ 0)
        × (total sleeps ts ≡ 0)
  idle no_call = (refl, refl, refl, refl)
  idle (submit_call h) = let i = idle h in (omega arith, omega arith, omega arith, omega arith)
  idle (immediate_call h) = let i = idle h in (omega arith, omega arith, omega arith, omega arith)
  idle (close_call h) = let i = idle h in (omega arith, omega arith, omega arith, omega arith)

  -- A new runner and the calls that will be made of it.
  pub start-IsValid :
      (size : ℤ) (ts : List (Thread E)) → AreCalls ts → IsValid (new_task_runner size, ts)
  unfolding new_task_runner
  start-IsValid size ts h =
      let i = idle h in
      record {
        tokens = sym i.0;
        waiting = sym i.1;
        limited = omega arith;
        closed = omega arith;
        sleeping = omega arith;
        awaited = λ h. h;
      }

  -- The world can be reached from a new runner.
  pub record IsReachable (size : ℤ) (w : World E) : Type ℓ where
    pub calls : List (Thread E)
    pub fresh : AreCalls calls
    pub steps : Steps (new_task_runner size, calls) w

  -- In every reachable state the tokens in the channel are those of the goroutines that hold one, at most
  -- as many as the limit; the wait group counts the goroutines that have joined and not left it; the channel is
  -- closed, or about to be, if and only if the runner is; and the calls of Wait that sleep or wake up are
  -- those that the wait group knows of, which sleep only where its counter is positive.
  pub reachable-IsValid : (size : ℤ) (w : World E) → IsReachable size w → IsValid w
  reachable-IsValid size w r = Steps-IsValid (start-IsValid size r.calls r.fresh) r.steps

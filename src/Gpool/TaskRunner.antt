-- ===== src/Gpool/TaskRunner.antt =====
-- common/pool/gpool/task_runner.go: TaskRunner.
-- A goroutine is a program counter, and a step of the program is an atomic step of one of them: a load
-- or a swap of the status, an Add or a Done, a Wait that begins or wakes up, an operation on the channel.
-- The tokens in the channel are all alike, so it is their number. Of a task, which is foreign code, only
-- matters what it panics with, if it does, and whether it returns at all; what it calls of the runner is a
-- call of a goroutine of its own, and a task that waits for the runner that waits for it never returns. The
-- panic handler, which is foreign too, returns.
pub mod Counters
pub mod Balance
pub mod Sleepers
pub mod Invariant
pub mod Crashes
pub mod Progress
pub mod Deadlock
mod Examples
use go_tools.Base.{
  ℕ, ◌+◌, ◌-◌, ◌≡◌, Bool, true, false, List, [], ◌∷◌, ◌++◌, Option, some, none, leb, ltb,
  if◌then◌else◌,
}
use go_tools.Base.Int.{ℤ, pos, leb_ℤ, pos_part}

pub data RunnerError : Type 0 where
  err_task_runner_busy : RunnerError
  err_task_runner_closed : RunnerError

-- What the function of the task panics with, and whether it never returns.
pub record Task {ℓ} (E : Type ℓ) : Type ℓ where
  pub throws : Option E
  pub stalls : Bool

-- `limit` and `tokens` are the capacity and the length of `limitChan`, `status` tells whether the runner
-- is closed. The wait group has a counter, `asleep` calls of Wait that sleep, and `released` calls of Wait
-- that were told to wake up. `handled` are the values that the panic handler was called with, the last
-- one first.
pub record TaskRunner {ℓ} (E : Type ℓ) : Type ℓ where
  pub limit : ℕ
  pub tokens : ℕ
  pub chan_closed : Bool
  pub status : Bool
  pub wg : ℕ
  pub asleep : ℕ
  pub released : ℕ
  pub handled : List E

-- Where a goroutine stands. The flag of those that run a task tells SubmitImmediately from Submit.
pub data Thread {ℓ} (E : Type ℓ) : Type ℓ where
  submit : Task E → Thread E
  submit_open : Task E → Thread E
  submit_counted : Task E → Thread E
  submit_sent : Task E → Thread E
  immediate : Task E → Thread E
  immediate_open : Task E → Thread E
  immediate_counted : Task E → Thread E
  immediate_busy : Thread E
  immediate_sent : Task E → Thread E
  working : Bool → Task E → Thread E
  worked : Bool → Thread E
  half_done : Bool → Thread E
  close : Thread E
  close_swapped : Thread E
  close_waiting : Thread E
  close_asleep : Thread E
  returned : Option RunnerError → Thread E
  crashed : Thread E
  misused : Thread E

-- What a step leaves: the runner, and the goroutines that take the place of the one that moved.
abbrev pub Outcome {ℓ} : Type ℓ → Type ℓ
Outcome E = Option (TaskRunner E × List (Thread E))

abbrev pub World {ℓ} : Type ℓ → Type ℓ
World E = TaskRunner E × List (Thread E)

module _ {ℓ} {E : Type ℓ} where
  unfoldable pub new_task_runner : ℤ → TaskRunner E
  new_task_runner size = record {
    limit = if leb_ℤ size (pos 0) then 1 else pos_part size;
    tokens = 0;
    chan_closed = false;
    status = false;
    wg = 0;
    asleep = 0;
    released = 0;
    handled = [];
  }

  -- `wg.Done()`, which panics on a counter of 0; at 0 it wakes up those that wait.
  unfoldable pub wg_done : TaskRunner E → List (Thread E) → Outcome E
  wg_done tr next =
      if leb tr.wg 0
      then some (tr, crashed ∷ [])
      else some (
        record tr {
          wg = tr.wg - 1;
          asleep = if leb tr.wg 1 then 0 else tr.asleep;
          released = if leb tr.wg 1 then tr.released + tr.asleep else tr.released;
        },
        next,
      )

  -- `<-limitChan`: it blocks on an empty channel, unless the channel is closed.
  unfoldable pub receive : TaskRunner E → List (Thread E) → Outcome E
  receive tr next =
      if leb tr.tokens 0
      then (if tr.chan_closed then some (tr, next) else none)
      else some (record tr { tokens = tr.tokens - 1 }, next)

  -- `limitChan <- None{}`: it panics on a closed channel; `full` is what happens on a full one.
  unfoldable pub send : TaskRunner E → Outcome E → List (Thread E) → Outcome E
  send tr full next =
      if tr.chan_closed
      then some (tr, crashed ∷ [])
      else if ltb tr.tokens tr.limit
      then some (record tr { tokens = tr.tokens + 1 }, next)
      else full

  -- A panic of the task is recovered and handed over.
  abbrev pub handle : TaskRunner E → Option E → TaskRunner E
  handle tr none = tr
  handle tr (some v) = record tr { handled = v ∷ tr.handled }

  -- One step of a goroutine, if it is not blocked. A Wait that wakes up panics where the wait group is in
  -- use again.
  unfoldable pub advance : TaskRunner E → Thread E → Outcome E
  unfolding wg_done receive send
  advance tr (submit task) =
      if tr.status then some (tr, returned none ∷ []) else some (tr, submit_open task ∷ [])
  advance tr (submit_open task) = some (record tr { wg = tr.wg + 1 }, submit_counted task ∷ [])
  advance tr (submit_counted task) = send tr none (submit_sent task ∷ [])
  advance tr (submit_sent task) = some (tr, working false task ∷ returned none ∷ [])
  advance tr (immediate task) =
      if tr.status
      then some (tr, returned (some err_task_runner_closed) ∷ [])
      else some (tr, immediate_open task ∷ [])
  advance tr (immediate_open task) =
      some (record tr { wg = tr.wg + 1 }, immediate_counted task ∷ [])
  advance tr (immediate_counted task) =
      send tr (some (tr, immediate_busy ∷ [])) (immediate_sent task ∷ [])
  advance tr immediate_busy = wg_done tr (returned (some err_task_runner_busy) ∷ [])
  advance tr (immediate_sent task) = some (tr, working true task ∷ returned none ∷ [])
  advance tr (working now task) =
      if task.stalls then none else some (handle tr task.throws, worked now ∷ [])
  advance tr (worked false) = receive tr (half_done false ∷ [])
  advance tr (worked true) = wg_done tr (half_done true ∷ [])
  advance tr (half_done false) = wg_done tr []
  advance tr (half_done true) = receive tr []
  advance tr close =
      if tr.status
      then some (tr, returned none ∷ [])
      else some (record tr { status = true }, close_swapped ∷ [])
  advance tr close_swapped =
      if tr.chan_closed
      then some (tr, crashed ∷ [])
      else some (record tr { chan_closed = true }, close_waiting ∷ [])
  advance tr close_waiting =
      if leb tr.wg 0
      then some (tr, returned none ∷ [])
      else some (record tr { asleep = tr.asleep + 1 }, close_asleep ∷ [])
  advance tr close_asleep =
      if leb tr.released 0
      then none
      else if leb (tr.wg + tr.asleep) 0
      then some (record tr { released = tr.released - 1 }, returned none ∷ [])
      else some (record tr { released = tr.released - 1 }, misused ∷ [])
  advance tr (returned reply) = none
  advance tr crashed = none
  advance tr misused = none

  -- A step of the program: any goroutine that can may move.
  pub data Step : World E → World E → Type ℓ where
    step :
        {tr tr' : TaskRunner E} {next : List (Thread E)} (before : List (Thread E)) (t : Thread E)
        (after : List (Thread E))
        → advance tr t ≡ some (tr', next)
        → Step (tr, before ++ t ∷ after) (tr', before ++ (next ++ after))

  pub data Steps : World E → World E → Type ℓ where
    done : {w : World E} → Steps w w
    and_then : {w w' w'' : World E} → Steps w w' → Step w' w'' → Steps w w''

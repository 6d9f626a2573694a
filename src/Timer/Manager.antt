-- ===== src/Timer/Manager.antt =====
-- common/timer/timer_manager.go: TimerManager.
-- A callback is foreign code. It is a parameter, `time_out`, that acts on a world of its own and on
-- the manager, which it may call; and it may panic. `fuel` bounds the rounds of each loop of Run: a
-- round too many would be a panic of the model.
pub mod Laws
pub mod Collect
pub mod Schedule
pub mod Fire
use go_tools.Base.{
  ℕ, zero, suc, ◌+◌, ◌%◌, ◌^◌, Bool, ◌&&◌, List, [], ◌∷◌, Option, some, none, Run, ok, panic, ◌>>=◌,
  or_panic, length, leb, if◌then◌else◌,
}
use go_tools.Base.Int.{ℤ, pos, negsuc, pos_part, ltb_ℤ, leb_ℤ, eqb_ℤ, add64}
use go_tools.Container.Queue.{Queue, new_queue, push, pop, size}
use go_tools.Timer.{Timer, TimerQueue, heap_push, heap_pop, heap_remove}

abbrev pub default_timer_queue_size : ℕ
default_timer_queue_size = 1024

abbrev pub two_pow_32 : ℕ
two_pow_32 = 2 ^ 32

pub record TimerManager {κ} (C : Type κ) : Type κ where
  pub id : ℤ
  pub tq : TimerQueue C
  pub queue : Queue (Option (Timer C))

-- What a callback leaves.
pub record Called {κ ℓ} (C : Type κ) (W : Type ℓ) : Type (κ ⊔ ℓ) where
  pub world : W
  pub manager : TimerManager C
  pub panicked : Bool

-- What Run returns, and what it leaves.
pub record Ran {κ ℓ} (C : Type κ) (W : Type ℓ) : Type (κ ⊔ ℓ) where
  pub check_count : ℕ
  pub call_count : ℕ
  pub world : W
  pub manager : TimerManager C

-- An `int` used as an index.
abbrev pub place : ℤ → Run ℕ
place (pos i) = ok i
place (negsuc i) = panic

module _ {κ} {C : Type κ} where
  unfoldable pub new_timer_manager : ℤ → TimerManager C
  unfolding new_queue
  new_timer_manager size = record {
    id = pos 0;
    tq = record {
      items = [];
      room = if leb_ℤ size (pos 0) then default_timer_queue_size else pos_part size;
    };
    queue = new_queue none;
  }

  unfoldable pub add_timer : TimerManager C → C → ℤ → ℤ → Run (ℤ × TimerManager C)
  unfolding heap_push
  add_timer tm time_outer end interval =
      if leb tm.tq.room (length tm.tq.items) then ok (pos 0, tm) else do
        let id = add64 tm.id (pos 1)
        let timer : Timer C = record {
          time_outer = time_outer;
          id = id;
          end = end;
          interval = interval;
          index = pos 0;
        }
        tq ← heap_push tm.tq timer
        ok (id, record tm { id = id; tq = tq })

  -- The first timer with an id.
  unfoldable pub find_timer : ℤ → List (Timer C) → Option (Timer C)
  find_timer timer_id [] = none
  find_timer timer_id (timer ∷ rest) =
      if eqb_ℤ timer.id timer_id then some timer else find_timer timer_id rest

  unfoldable pub remove_found : TimerManager C → Option (Timer C) → Run (TimerManager C)
  unfolding heap_remove
  remove_found tm none = ok tm
  remove_found tm (some timer) = do
    i ← place timer.index
    (_, tq) ← heap_remove tm.tq i
    ok (record tm { tq = tq })

  unfoldable pub remove_timer : TimerManager C → ℤ → Run (TimerManager C)
  unfolding find_timer remove_found
  remove_timer tm timer_id = remove_found tm (find_timer timer_id tm.tq.items)

  -- A timer with an interval goes back into the heap, counted from now.
  unfoldable pub renew : ℤ → TimerQueue C → Timer C → Run (TimerQueue C)
  unfolding heap_push
  renew now tq timer =
      if ltb_ℤ (pos 0) timer.interval
      then heap_push tq (record timer { end = add64 now timer.interval })
      else ok tq

  -- The first loop of Run: it moves what is due to the queue.
  unfoldable pub collect : ℕ → ℤ → ℤ → ℕ → TimerManager C → Run (ℕ × TimerManager C)
  unfolding heap_pop push renew size
  collect zero now limit check_count tm = panic
  collect (suc fuel) now limit check_count tm = elim tm.tq.items [
    | [] ↦ ok (check_count, tm)
    | tmp ∷ _ ↦
        let count = (check_count + 1) % two_pow_32 in
        let move = heap_pop tm.tq >>= λ (popped, tq). or_panic popped >>= λ timer.
        push none tm.queue (some timer) >>= λ queue. renew now tq timer >>= λ tq'.
        let tm' : TimerManager C = record tm { tq = tq'; queue = queue } in
        let next = collect fuel now limit count tm' in
        if ltb_ℤ (pos 0) limit && leb_ℤ limit (pos (size queue)) then ok (count, tm') else next in
        if ltb_ℤ now tmp.end then ok (count, tm) else move
  ]

  module _ {ℓ} {W : Type ℓ} (time_out : C → ℤ → W → TimerManager C → Called C W) where
    -- The second loop of Run. A panic of a callback is recovered: Run then returns two zeros.
    unfoldable pub fire : ℕ → ℤ → ℕ → ℕ → W → TimerManager C → Run (Ran C W)
    unfolding pop size
    fire zero now check_count call_count w tm = panic
    fire (suc fuel) now check_count call_count w tm =
        let done : Ran C W = record {
          check_count = check_count;
          call_count = call_count;
          world = w;
          manager = tm;
        } in
        let call = pop none tm.queue >>= λ (timer, queue). or_panic timer >>= λ t.
        let after = time_out t.time_outer now w (record tm { queue = queue }) in
        let next =
          fire fuel now check_count ((call_count + 1) % two_pow_32) after.world after.manager in
        if after.panicked
        then ok (record {
          check_count = 0;
          call_count = 0;
          world = after.world;
          manager = after.manager;
        })
        else next in
        if leb (size tm.queue) 0 then ok done else call

    unfoldable pub run : ℕ → ℤ → ℤ → W → TimerManager C → Run (Ran C W)
    unfolding collect fire
    run fuel now limit w tm = do
      (check_count, tm') ← collect fuel now limit 0 tm
      fire fuel now check_count 0 w tm'

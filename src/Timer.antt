-- ===== src/Timer.antt =====
-- common/timer: timers in a binary heap, ordered by the time at which they end, and their manager.
-- A timer is shared by pointer between the heap and the queue of those to be called. Of a timer in the
-- queue only the callback is read, which never changes, so a copy stands for it there.
pub mod Heap
pub mod Manager
mod Examples
use go_tools.Base.{
  Option, some, none, ℕ, zero, suc, ◌+◌, ◌-◌, ◌*◌, ◌/◌, Bool, List, [], ◌∷◌, ◌++◌, Run, ok, panic,
  ◌>>=◌, or_panic, check, length, get_elem?, set, take, ltb, leb, ◌==◌, if◌then◌else◌,
}
use go_tools.Base.Int.{ℤ, pos, negsuc, ltb_ℤ}

-- `time_outer` is the callback, `index` the position in the heap, or -1.
pub record Timer {κ} (C : Type κ) : Type κ where
  pub time_outer : C
  pub id : ℤ
  pub end : ℤ
  pub interval : ℤ
  pub index : ℤ

-- The slice: its elements, and the capacity that it was made with.
pub record TimerQueue {κ} (C : Type κ) : Type κ where
  pub items : List (Timer C)
  pub room : ℕ

module _ {κ} {C : Type κ} where
  -- `tq[i]`
  abbrev pub load : List (Timer C) → ℕ → Run (Timer C)
  load a i = or_panic (get_elem? a i)

  unfoldable pub less : List (Timer C) → ℕ → ℕ → Run Bool
  less a i j = do x ← load a i; y ← load a j; ok (ltb_ℤ x.end y.end)

  -- The two timers change places and learn their new positions.
  unfoldable pub swap : List (Timer C) → ℕ → ℕ → Run (List (Timer C))
  swap a i j = do
    x ← load a i
    y ← load a j
    ok (set (set a i (record y { index = pos i })) j (record x { index = pos j }))

  -- TimerQueue.Push of a timer, which is all that it is given: the slice grows inside its capacity, and cannot beyond.
  unfoldable pub push_back : TimerQueue C → Timer C → Run (TimerQueue C)
  push_back tq timer =
      check (leb (length tq.items + 1) tq.room)
        (ok (record tq { items = tq.items ++ record timer { index = pos (length tq.items) } ∷ [] }))

  -- TimerQueue.Pop: the last timer, with its index marked invalid, or nil.
  unfoldable pub pop_back : TimerQueue C → Run (Option (Timer C) × TimerQueue C)
  pop_back tq = if length tq.items == 0 then ok (none, tq) else do
    timer ← load tq.items (length tq.items - 1)
    ok (
      some (record timer { index = negsuc 0 }),
      record tq { items = take (length tq.items - 1) tq.items },
    )

  -- `up` of container/heap. The loop ends within `j + 1` rounds; a round too many would be a panic.
  unfoldable pub up_loop : ℕ → List (Timer C) → ℕ → Run (List (Timer C))
  up_loop zero a j = panic
  up_loop (suc fuel) a j =
      let i = (j - 1) / 2 in
      let rise =
        less a j i >>= λ below. if below then (swap a i j >>= λ b. up_loop fuel b i) else ok a in
      if i == j then ok a else rise

  unfoldable pub up : List (Timer C) → ℕ → Run (List (Timer C))
  unfolding up_loop less swap
  up a j = up_loop (j + 1) a j

  -- The smaller child of `i` among the first `n` timers, where the left child is one of them.
  unfoldable pub smaller_child : List (Timer C) → ℕ → ℕ → Run ℕ
  smaller_child a i n =
      let j1 = 2 * i + 1 in
      let right = less a (j1 + 1) j1 >>= λ below. ok (if below then j1 + 1 else j1) in
      if ltb (j1 + 1) n then right else ok j1

  -- `down` of container/heap, on the first `n` timers: the timers, and where the one at `i` went.
  unfoldable pub down_loop : ℕ → List (Timer C) → ℕ → ℕ → Run (List (Timer C) × ℕ)
  down_loop zero a i n = panic
  down_loop (suc fuel) a i n =
      let sink = smaller_child a i n >>= λ j. less a j i >>= λ below.
      if below then (swap a i j >>= λ b. down_loop fuel b j n) else ok (a, i) in
      if leb n (2 * i + 1) then ok (a, i) else sink

  -- Whether the timer moved is the second result.
  unfoldable pub down : List (Timer C) → ℕ → ℕ → Run (List (Timer C) × Bool)
  unfolding down_loop smaller_child less swap
  down a i n = do (b, i') ← down_loop (n + 1) a i n; ok (b, ltb i i')

  -- `heap.Push`
  unfoldable pub heap_push : TimerQueue C → Timer C → Run (TimerQueue C)
  unfolding push_back up
  heap_push tq timer = do
    tq' ← push_back tq timer
    items ← up tq'.items (length tq'.items - 1)
    ok (record tq' { items = items })

  -- `heap.Pop`
  unfoldable pub heap_pop : TimerQueue C → Run (Option (Timer C) × TimerQueue C)
  unfolding swap down pop_back
  heap_pop tq = do
    let n = length tq.items - 1
    a ← swap tq.items 0 n
    (b, _) ← down a 0 n
    pop_back (record tq { items = b })

  -- The part of `heap.Remove` that acts where the timer is not the last.
  unfoldable pub unseat : List (Timer C) → ℕ → ℕ → Run (List (Timer C))
  unfolding swap down up
  unseat items i n = do a ← swap items i n; (b, moved) ← down a i n; if moved then ok b else up b i

  -- `heap.Remove`. On an empty heap it exchanges the place -1, which panics.
  unfoldable pub heap_remove : TimerQueue C → ℕ → Run (Option (Timer C) × TimerQueue C)
  unfolding unseat pop_back
  heap_remove tq i = check (ltb 0 (length tq.items)) (do
    let n = length tq.items - 1
    b ← if n == i then ok tq.items else unseat tq.items i n
    pop_back (record tq { items = b }))

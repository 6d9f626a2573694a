-- ===== src/Gpool/TaskRunner/Sleepers.antt =====
-- The calls of Wait that sleep in the TaskRunner of common/pool/gpool/task_runner.go.
use go_tools.Base.{
  if_intro, ℕ, ◌+◌, ◌≡◌, ◌<◌, refl, true, false, List, [], ◌∷◌, some, none, Option, leb, arith,
}
use go_tools.Gpool.TaskRunner.{
  TaskRunner, Thread, advance, handle, submit, submit_open, submit_counted, submit_sent, immediate,
  immediate_open, immediate_counted, immediate_busy, immediate_sent, working, worked, half_done,
  close, close_swapped, close_waiting, close_asleep, returned, crashed, misused,
}
use go_tools.Gpool.TaskRunner.Counters.{IfSome, IsCounted, wg_done_lem, receive_lem, send_lem}
use go_tools.Base.Threads.{total}

module _ {ℓ} {E : Type ℓ} where
  -- The goroutine sleeps in Wait, or is about to wake up.
  abbrev pub sleeps : Thread E → ℕ
  sleeps close_asleep = 1
  sleeps _ = 0

  -- What a step of `t` changes for the calls of Wait: none is forgotten, and none sleeps at a counter of 0.
  pub record Waking (tr : TaskRunner E) (t : Thread E) (tr' : TaskRunner E) (next : List (Thread E))
      : Type 0 where
    pub kept : tr'.asleep + tr'.released + sleeps t ≡ tr.asleep + tr.released + total sleeps next
    pub awaits : (0 < tr.asleep → 0 < tr.wg) → 0 < tr'.asleep → 0 < tr'.wg

  -- A step that leaves the wait group alone, or adds to its counter.
  calls :
      {tr : TaskRunner E} {t : Thread E} {tr' : TaskRunner E} {next : List (Thread E)}
      → (tr'.asleep + tr'.released + sleeps t ≡ tr.asleep + tr.released + total sleeps next)
      → ((0 < tr.asleep → 0 < tr.wg) → 0 < tr'.asleep → 0 < tr'.wg)
      → Waking tr t tr' next
  calls a b = record { kept = a; awaits = b }

  handle_waits :
      (tr : TaskRunner E) (v : Option E)
      → ((handle tr v).asleep ≡ tr.asleep)
        × ((handle tr v).released ≡ tr.released)
        × ((handle tr v).wg ≡ tr.wg)
  handle_waits tr none = (refl, refl, refl)
  handle_waits tr (some v) = (refl, refl, refl)

  pub wakes :
      (tr : TaskRunner E) (t : Thread E) → IsCounted tr t → IfSome (Waking tr t) (advance tr t)
  unfolding advance
  wakes tr (submit task) c =
      if_intro (IfSome (Waking tr (submit task))) tr.status _ _ (λ e. calls refl (λ h. h))
        (λ e. calls refl (λ h. h))
  wakes tr (submit_open task) c = calls refl (λ h p. omega arith)
  wakes tr (submit_counted task) c =
      send_lem (Waking tr (submit_counted task)) tr none _ (λ e. calls refl (λ h. h))
        (λ e l. calls refl (λ h. h)) (λ e l. tt)
  wakes tr (submit_sent task) c = calls refl (λ h. h)
  wakes tr (immediate task) c =
      if_intro (IfSome (Waking tr (immediate task))) tr.status _ _ (λ e. calls refl (λ h. h))
        (λ e. calls refl (λ h. h))
  wakes tr (immediate_open task) c = calls refl (λ h p. omega arith)
  wakes tr (immediate_counted task) c =
      send_lem (Waking tr (immediate_counted task)) tr (some (tr, immediate_busy ∷ [])) _
        (λ e. calls refl (λ h. h)) (λ e l. calls refl (λ h. h)) (λ e l. calls refl (λ h. h))
  wakes tr immediate_busy c =
      wg_done_lem (Waking tr immediate_busy) tr _ c.waiting
        (calls (ground arith) (λ h p. ground arith))
  wakes tr (immediate_sent task) c = calls refl (λ h. h)
  wakes tr (working now task) c =
      let f = handle_waits tr task.throws in
      if_intro (IfSome (Waking tr (working now task))) task.stalls _ _ (λ e. tt)
        λ e. calls (omega (arith, f.0, f.1)) (rw (f.0, f.2) (λ h. h))
  wakes tr (worked false) c =
      receive_lem (Waking tr (worked false)) tr _ c.tokens (calls refl (λ h. h))
  wakes tr (worked true) c =
      wg_done_lem (Waking tr (worked true)) tr _ c.waiting
        (calls (ground arith) (λ h p. ground arith))
  wakes tr (half_done false) c =
      wg_done_lem (Waking tr (half_done false)) tr _ c.waiting
        (calls (ground arith) (λ h p. ground arith))
  wakes tr (half_done true) c =
      receive_lem (Waking tr (half_done true)) tr _ c.tokens (calls refl (λ h. h))
  wakes tr close c =
      if_intro (IfSome (Waking tr close)) tr.status _ _ (λ e. calls refl (λ h. h))
        (λ e. calls refl (λ h. h))
  wakes tr close_swapped c =
      if_intro (IfSome (Waking tr close_swapped)) tr.chan_closed _ _ (λ e. calls refl (λ h. h))
        (λ e. calls refl (λ h. h))
  wakes tr close_waiting c =
      if_intro (IfSome (Waking tr close_waiting)) (leb tr.wg 0) _ _ (λ e. calls refl (λ h. h))
        (λ e. calls (omega arith) (λ h p. ground arith))
  wakes tr close_asleep c =
      if_intro (IfSome (Waking tr close_asleep)) (leb tr.released 0) _ _ (λ e. tt)
        λ e.
          if_intro (IfSome (Waking tr close_asleep)) (leb (tr.wg + tr.asleep) 0) _ _
            (λ e'. calls (ground arith) (λ h. h)) (λ e'. calls (ground arith) (λ h. h))
  wakes tr (returned reply) c = tt
  wakes tr crashed c = tt
  wakes tr misused c = tt

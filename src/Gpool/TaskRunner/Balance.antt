-- ===== src/Gpool/TaskRunner/Balance.antt =====
-- Each step of common/pool/gpool/task_runner.go keeps the counters of the TaskRunner in balance.
use go_tools.Base.{◌+◌, if_intro, refl, true, false, [], ◌∷◌, some, none, leb, arith}
use go_tools.Gpool.TaskRunner.{
  TaskRunner, Thread, advance, submit, submit_open, submit_counted, submit_sent, immediate,
  immediate_open, immediate_counted, immediate_busy, immediate_sent, working, worked, half_done,
  close, close_swapped, close_waiting, close_asleep, returned, crashed, misused,
}
use go_tools.Gpool.TaskRunner.Counters.{
  Balanced, balance, IsCounted, IfSome, wg_done_lem, receive_lem, send_lem, handle_fields,
}
use go_tools.Base.Threads.{bit-false, bit-le, bit-true}

module _ {ℓ} {E : Type ℓ} where
  pub balanced :
      (tr : TaskRunner E) (t : Thread E) → IsCounted tr t → IfSome (Balanced tr t) (advance tr t)
  unfolding advance
  balanced tr (submit task) c =
      if_intro (IfSome (Balanced tr (submit task))) tr.status _ _
        (λ e. (balance refl refl (λ h. h) refl (omega arith)))
        (λ e. (balance refl refl (λ h. h) refl (omega arith)))
  balanced tr (submit_open task) c = balance refl (omega arith) (λ h. h) refl (omega arith)
  balanced tr (submit_counted task) c =
      send_lem (Balanced tr (submit_counted task)) tr none _
        (λ e. balance refl refl (λ h. h) refl (omega arith))
        (λ e h. balance (omega arith) (omega arith) (λ k. omega arith) refl (omega arith))
        (λ e h. tt)
  balanced tr (submit_sent task) c = balance (omega arith) (omega arith) (λ h. h) refl (omega arith)
  balanced tr (immediate task) c =
      if_intro (IfSome (Balanced tr (immediate task))) tr.status _ _
        (λ e. (balance refl refl (λ h. h) refl (omega arith)))
        (λ e. (balance refl refl (λ h. h) refl (omega arith)))
  balanced tr (immediate_open task) c = balance refl (omega arith) (λ h. h) refl (omega arith)
  balanced tr (immediate_counted task) c =
      send_lem (Balanced tr (immediate_counted task)) tr (some (tr, immediate_busy ∷ [])) _
        (λ e. balance refl refl (λ h. h) refl (omega arith))
        (λ e h. balance (omega arith) (omega arith) (λ k. omega arith) refl (omega arith))
        (λ e h. balance refl refl (λ h. h) refl (omega arith))
  balanced tr immediate_busy c =
      wg_done_lem (Balanced tr immediate_busy) tr _ (c.waiting)
        (balance refl (omega (arith, c.waiting)) (λ h. h) refl (omega arith))
  balanced tr (immediate_sent task) c =
      balance (omega arith) (omega arith) (λ h. h) refl (omega arith)
  balanced tr (working now task) c =
      let f = handle_fields tr task.throws in
      if_intro (IfSome (Balanced tr (working now task))) task.stalls _ _ (λ e. tt)
        λ e.
          balance (rw f.0 refl) (rw f.1 refl) (rw (f.0, f.2) (λ h. h)) (f.2)
            (rw (f.3, f.4) (omega arith))
  balanced tr (worked false) c =
      receive_lem (Balanced tr (worked false)) tr _ c.tokens
        (balance (omega (arith, c.tokens)) (omega arith) (λ k. omega arith) refl (omega arith))
  balanced tr (worked true) c =
      wg_done_lem (Balanced tr (worked true)) tr _ c.waiting
        (balance (omega arith) (omega (arith, c.waiting)) (λ h. h) refl (omega arith))
  balanced tr (half_done false) c =
      wg_done_lem (Balanced tr (half_done false)) tr _ c.waiting
        (balance (omega arith) (omega (arith, c.waiting)) (λ h. h) refl (omega arith))
  balanced tr (half_done true) c =
      receive_lem (Balanced tr (half_done true)) tr _ c.tokens
        (balance (omega (arith, c.tokens)) (omega arith) (λ k. omega arith) refl (omega arith))
  balanced tr close c =
      if_intro (IfSome (Balanced tr close)) tr.status _ _
        (λ e. (balance refl refl (λ h. h) refl (omega arith)))
        (λ e. (balance refl refl (λ h. h) refl (omega (arith, bit-false tr.status e))))
  balanced tr close_swapped c =
      if_intro (IfSome (Balanced tr close_swapped)) tr.chan_closed _ _
        (λ e. absurd (omega (arith, c.closed, bit-true tr.chan_closed e, bit-le tr.status)))
        (λ e. (balance refl refl (λ h. h) refl (omega (arith, bit-false tr.chan_closed e))))
  balanced tr close_waiting c =
      if_intro (IfSome (Balanced tr close_waiting)) (leb tr.wg 0) _ _
        (λ e. (balance refl refl (λ h. h) refl (omega arith)))
        (λ e. (balance refl refl (λ h. h) refl (omega arith)))
  balanced tr close_asleep c =
      if_intro (IfSome (Balanced tr close_asleep)) (leb tr.released 0) _ _ (λ e. tt)
        λ e.
          if_intro (IfSome (Balanced tr close_asleep)) (leb (tr.wg + tr.asleep) 0) _ _
            (λ e. (balance refl refl (λ h. h) refl (omega arith)))
            (λ e. (balance refl refl (λ h. h) refl (omega arith)))
  balanced tr (returned reply) c = tt
  balanced tr crashed c = tt
  balanced tr misused c = tt

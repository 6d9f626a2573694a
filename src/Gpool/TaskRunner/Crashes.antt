-- ===== src/Gpool/TaskRunner/Crashes.antt =====
-- What can panic in common/pool/gpool/task_runner.go, one step at a time.
use go_tools.Base.{
  ◌+◌, ◌⊎◌, inl, inr, if_intro, ℕ, ◌≡◌, ◌<◌, refl, Bool, true, false, List, [], ◌∷◌, some, none,
  leb, arith,
}
use go_tools.Gpool.TaskRunner.{
  TaskRunner, Thread, advance, submit, submit_open, submit_counted, submit_sent, immediate,
  immediate_open, immediate_counted, immediate_busy, immediate_sent, working, worked, half_done,
  close, close_swapped, close_waiting, close_asleep, returned, crashed, misused,
}
use go_tools.Gpool.TaskRunner.Counters.{IfSome, send_lem, wg_done_lem, receive_lem, IsCounted}
use go_tools.Base.Threads.{bit-le, bit-true, total}

module _ {ℓ} {E : Type ℓ} where
  abbrev pub crashes : Thread E → ℕ
  crashes crashed = 1
  crashes misused = 1
  crashes _ = 0

  -- The goroutine is at the send of Submit or of SubmitImmediately.
  abbrev pub is_sending : Thread E → Bool
  is_sending (submit_counted task) = true
  is_sending (immediate_counted task) = true
  is_sending _ = false

  -- The goroutine is in the Wait of Close, which was told to wake up.
  abbrev pub is_waking : Thread E → Bool
  is_waking close_asleep = true
  is_waking _ = false

  -- A send on the closed channel, or a Wait that finds the wait group in use again.
  abbrev pub KnownCrash : TaskRunner E → Thread E → Type 0
  KnownCrash tr t =
      ((is_sending t ≡ true) × (tr.chan_closed ≡ true)) ⊎ ((is_waking t ≡ true) × (0 < tr.wg))

  -- If anything crashes, it is one of those.
  abbrev pub CrashIsKnown : TaskRunner E → Thread E → TaskRunner E → List (Thread E) → Type 0
  CrashIsKnown tr t tr' next = 0 < total crashes next → KnownCrash tr t

  pub calm :
      (tr : TaskRunner E) (t : Thread E)
      → IsCounted tr t
      → (0 < tr.asleep → 0 < tr.wg)
      → IfSome (CrashIsKnown tr t) (advance tr t)
  unfolding advance
  calm tr (submit task) c k =
      if_intro (IfSome (CrashIsKnown tr (submit task))) tr.status _ _ (λ e h. absurd (omega arith))
        (λ e h. absurd (omega arith))
  calm tr (submit_open task) c k = λ h. absurd (omega arith)
  calm tr (submit_counted task) c k =
      send_lem (CrashIsKnown tr (submit_counted task)) tr none _ (λ e h. inl (refl, e))
        (λ e l h. absurd (omega arith)) (λ e l. tt)
  calm tr (submit_sent task) c k = λ h. absurd (omega arith)
  calm tr (immediate task) c k =
      if_intro (IfSome (CrashIsKnown tr (immediate task))) tr.status _ _
        (λ e h. absurd (omega arith)) (λ e h. absurd (omega arith))
  calm tr (immediate_open task) c k = λ h. absurd (omega arith)
  calm tr (immediate_counted task) c k =
      send_lem (CrashIsKnown tr (immediate_counted task)) tr (some (tr, immediate_busy ∷ [])) _
        (λ e h. inl (refl, e)) (λ e l h. absurd (omega arith)) (λ e l h. absurd (omega arith))
  calm tr immediate_busy c k =
      wg_done_lem (CrashIsKnown tr immediate_busy) tr _ c.waiting (λ h. absurd (omega arith))
  calm tr (immediate_sent task) c k = λ h. absurd (omega arith)
  calm tr (working now task) c k =
      if_intro (IfSome (CrashIsKnown tr (working now task))) task.stalls _ _ (λ e. tt)
        (λ e h. absurd (omega arith))
  calm tr (worked false) c k =
      receive_lem (CrashIsKnown tr (worked false)) tr _ c.tokens (λ h. absurd (omega arith))
  calm tr (worked true) c k =
      wg_done_lem (CrashIsKnown tr (worked true)) tr _ c.waiting (λ h. absurd (omega arith))
  calm tr (half_done false) c k =
      wg_done_lem (CrashIsKnown tr (half_done false)) tr _ c.waiting (λ h. absurd (omega arith))
  calm tr (half_done true) c k =
      receive_lem (CrashIsKnown tr (half_done true)) tr _ c.tokens (λ h. absurd (omega arith))
  calm tr close c k =
      if_intro (IfSome (CrashIsKnown tr close)) tr.status _ _ (λ e h. absurd (omega arith))
        (λ e h. absurd (omega arith))
  calm tr close_swapped c k =
      if_intro (IfSome (CrashIsKnown tr close_swapped)) tr.chan_closed _ _
        (λ e h. absurd (omega (arith, c.closed, bit-true tr.chan_closed e, bit-le tr.status)))
        (λ e h. absurd (omega arith))
  calm tr close_waiting c k =
      if_intro (IfSome (CrashIsKnown tr close_waiting)) (leb tr.wg 0) _ _
        (λ e h. absurd (omega arith)) (λ e h. absurd (omega arith))
  calm tr close_asleep c k =
      if_intro (IfSome (CrashIsKnown tr close_asleep)) (leb tr.released 0) _ _ (λ e. tt)
        λ e.
          if_intro (IfSome (CrashIsKnown tr close_asleep)) (leb (tr.wg + tr.asleep) 0) _ _
            (λ e' h. absurd (omega arith)) (λ e' h. inr (refl, ground arith))
  calm tr (returned reply) c k = tt
  calm tr crashed c k = tt
  calm tr misused c k = tt

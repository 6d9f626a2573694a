-- ===== src/Gpool/TaskRunner/Deadlock.antt =====
-- Freedom from deadlock of the TaskRunner of common/pool/gpool/task_runner.go.
use go_tools.Base.{
  ℕ, ◌+◌, if_intro, ◌≡◌, ◌≢◌, ◌≤◌, ◌<◌, refl, ◌⊎◌, inl, inr, Bool, true, false, Bool-cases, List,
  [], ◌∷◌, some, none, leb, ltb, arith,
}
use go_tools.Base.Int.{ℤ}
use go_tools.Gpool.TaskRunner.{
  TaskRunner, Thread, new_task_runner, advance, wg_done, receive, send, World, Outcome, submit,
  submit_counted, immediate, immediate_counted, immediate_busy, worked, half_done, close,
  close_swapped, close_waiting, close_asleep, returned, crashed, misused, working,
}
use go_tools.Gpool.TaskRunner.Counters.{IsCounted, token, counted}
use go_tools.Gpool.TaskRunner.Invariant.{
  IsValid, inside_world, IsReachable, Steps-limit, start-IsValid, reachable-IsValid,
}
use go_tools.Gpool.TaskRunner.Crashes.{crashes}
use go_tools.Gpool.TaskRunner.Sleepers.{sleeps}
use go_tools.Base.Threads.{bit, bit-true, Among, Among-le, find_positive, total}

has_room {ℓ} : (E : Type ℓ) (size : ℤ) → 0 < (new_task_runner {E = E} size).limit
unfolding new_task_runner
has_room E size = ground arith

module _ {ℓ} {E : Type ℓ} where
  -- The call has returned.
  abbrev pub is_returned : Thread E → Bool
  is_returned (returned reply) = true
  is_returned _ = false

  -- The task of the goroutine never returns.
  abbrev pub stalled : Thread E → ℕ
  stalled (working now task) = bit task.stalls
  stalled _ = 0

  -- The goroutine never waits for another, but for room in the channel and the end of its task.
  abbrev is_free : Thread E → Bool
  is_free close_asleep = false
  is_free (returned reply) = false
  is_free crashed = false
  is_free misused = false
  is_free _ = true

  abbrev Moves : Outcome E → Type ℓ
  Moves o = o ≢ none

  some-Moves : (x : TaskRunner E × List (Thread E)) → Moves (some x)
  some-Moves x e = cc

  wg_done-Moves : (tr : TaskRunner E) (next : List (Thread E)) → Moves (wg_done tr next)
  unfolding wg_done
  wg_done-Moves tr next = if_intro Moves (leb tr.wg 0) _ _ (λ e. some-Moves _) (λ e. some-Moves _)

  receive-Moves :
      (tr : TaskRunner E) (next : List (Thread E)) → 1 ≤ tr.tokens → Moves (receive tr next)
  unfolding receive
  receive-Moves tr next h =
      if_intro Moves (leb tr.tokens 0) _ _ (λ e. absurd (ground arith)) (λ e. some-Moves _)

  send-Moves :
      (tr : TaskRunner E) (full : Outcome E) (next : List (Thread E))
      → (tr.limit ≤ tr.tokens → Moves full)
      → Moves (send tr full next)
  unfolding send
  send-Moves tr full next h =
      if_intro Moves tr.chan_closed _ _ (λ e. some-Moves _)
        λ e. if_intro Moves (ltb tr.tokens tr.limit) _ _ (λ r. some-Moves _) (λ r. h (ground arith))

  free-Moves :
      (tr : TaskRunner E) (t : Thread E)
      → IsCounted tr t
      → is_free t ≡ true
      → stalled t ≡ 0
      → (0 < token t) ⊎ (tr.tokens < tr.limit)
      → Moves (advance tr t)
  unfolding advance
  free-Moves tr (submit task) c f s r =
      if_intro Moves tr.status _ _ (λ e. some-Moves _) (λ e. some-Moves _)
  free-Moves tr (submit_counted task) c f s r =
      send-Moves tr none _
        (λ h. elim r [ inl a ↦ absurd (omega arith) | inr b ↦ absurd (omega arith) ])
  free-Moves tr (immediate task) c f s r =
      if_intro Moves tr.status _ _ (λ e. some-Moves _) (λ e. some-Moves _)
  free-Moves tr (immediate_counted task) c f s r =
      send-Moves tr (some (tr, immediate_busy ∷ [])) _ (λ h. some-Moves _)
  free-Moves tr immediate_busy c f s r = wg_done-Moves tr _
  free-Moves tr (worked false) c f s r = receive-Moves tr _ c.tokens
  free-Moves tr (worked true) c f s r = wg_done-Moves tr _
  free-Moves tr (half_done false) c f s r = wg_done-Moves tr _
  free-Moves tr (half_done true) c f s r = receive-Moves tr _ c.tokens
  free-Moves tr close c f s r = if_intro Moves tr.status _ _ (λ e. some-Moves _) (λ e. some-Moves _)
  free-Moves tr close_swapped c f s r =
      if_intro Moves tr.chan_closed _ _ (λ e. some-Moves _) (λ e. some-Moves _)
  free-Moves tr (working now task) c f s r =
      if_intro Moves task.stalls _ _ (λ e. absurd (omega (arith, s, bit-true task.stalls e)))
        (λ e. some-Moves _)
  free-Moves tr close_waiting c f s r =
      if_intro Moves (leb tr.wg 0) _ _ (λ e. some-Moves _) (λ e. some-Moves _)
  free-Moves tr close_asleep c f s r = absurd (cc)
  free-Moves tr (returned reply) c f s r = absurd (cc)
  free-Moves tr crashed c f s r = absurd (cc)
  free-Moves tr misused c f s r = absurd (cc)
  free-Moves tr _ c f s r = some-Moves _

  free_of_token : (t : Thread E) → 0 < token t → is_free t ≡ true
  free_of_token close_asleep h = absurd (omega arith)
  free_of_token (returned reply) h = absurd (omega arith)
  free_of_token crashed h = absurd (omega arith)
  free_of_token misused h = absurd (omega arith)
  free_of_token _ h = refl

  free_of_counted : (t : Thread E) → 0 < counted t → (is_free t ≡ true) ⊎ (0 < crashes t)
  free_of_counted close_asleep h = absurd (omega arith)
  free_of_counted misused h = absurd (omega arith)
  free_of_counted (returned reply) h = absurd (omega arith)
  free_of_counted crashed h = inr (omega arith)
  free_of_counted _ h = inl refl

  -- No goroutine can move.
  abbrev pub IsStuck : World E → Type ℓ
  IsStuck w = (t : Thread E) → Among t w.1 → advance w.0 t ≡ none

  module _ (w : World E) (v : IsValid w) (room : 0 < w.0.limit) (stuck : IsStuck w)
      (safe : total crashes w.1 ≡ 0) (ends : total stalled w.1 ≡ 0) where
    ended : (t : Thread E) → Among t w.1 → stalled t ≡ 0
    ended t a = omega (arith, Among-le stalled w.1 t a)

    no_tokens : total token w.1 ≡ 0
    no_tokens = elim (Bool-cases (ltb 0 (total token w.1))) [
      | inl e ↦
          let (t, a, p) = find_positive token w.1 (ground arith) in
          absurd (
            free-Moves w.0 t (inside_world w a.before a.after t a.split v) (free_of_token t p)
              (ended t a) (inl p) (stuck t a))
      | inr e ↦ ground arith
    ]

    free_is_absurd : (t : Thread E) → Among t w.1 → is_free t ≢ true
    free_is_absurd t a f =
        free-Moves w.0 t (inside_world w a.before a.after t a.split v) f (ended t a)
          (inr (omega (arith, no_tokens, v.tokens))) (stuck t a)

    none_counted : total counted w.1 ≡ 0
    none_counted = elim (Bool-cases (ltb 0 (total counted w.1))) [
      | inl e ↦
          let (t, a, p) = find_positive counted w.1 (ground arith) in
          elim (free_of_counted t p) [
            | inl f ↦ absurd (free_is_absurd t a f)
            | inr c ↦ absurd (omega (arith, Among-le crashes w.1 t a))
          ]
      | inr e ↦ ground arith
    ]

    all_returned : (t : Thread E) → Among t w.1 → is_returned t ≡ true
    unfolding advance
    all_returned (returned reply) a = refl
    all_returned crashed a = absurd (omega (arith, Among-le crashes w.1 crashed a))
    all_returned misused a = absurd (omega (arith, Among-le crashes w.1 misused a))
    all_returned close_asleep a = absurd (
        if_intro Moves (leb w.0.released 0) _ _
          (λ e. absurd (
            ground (
              arith,
              v.sleeping,
              Among-le sleeps w.1 close_asleep a,
              v.awaited,
              v.waiting,
              none_counted,
            )))
          (λ e.
            if_intro Moves (leb (w.0.wg + w.0.asleep) 0) _ _ (λ k. some-Moves _)
              (λ k. some-Moves _))
          (stuck close_asleep a))
    all_returned t a = absurd (free_is_absurd t a refl)

  -- No deadlock where tasks return: a reachable state in which no goroutine can move, none has crashed and
  -- none runs a task that never returns is one in which every call has returned and every task has ended.
  pub stuck_is_done :
      (size : ℤ) (w : World E)
      → IsReachable size w
      → IsStuck w
      → total crashes w.1 ≡ 0
      → total stalled w.1 ≡ 0
      → (t : Thread E) → Among t w.1
      → is_returned t ≡ true
  stuck_is_done size w r stuck safe ends =
      let same = Steps-limit (start-IsValid size r.calls r.fresh) r.steps in
      all_returned w (reachable-IsValid size w r) (omega (arith, same, has_room E size)) stuck safe
        ends

-- ===== src/Gpool/TaskRunner/Counters.antt =====
-- The counters of the TaskRunner of common/pool/gpool/task_runner.go, and what a step may do to them.
use go_tools.Base.{
  if◌then◌else◌, if_intro, ℕ, ◌+◌, ◌-◌, ◌≡◌, ◌≤◌, ◌<◌, refl, true, false, List, [], ◌∷◌, Option,
  some, none, leb, ltb, arith,
}
use go_tools.Gpool.TaskRunner.{
  TaskRunner, Thread, wg_done, receive, send, handle, Outcome, submit_counted, submit_sent,
  immediate_counted, immediate_busy, immediate_sent, working, worked, half_done, close_swapped,
  crashed,
}
use go_tools.Base.Threads.{bit, total}

module _ {ℓ} {E : Type ℓ} where
  -- The goroutine has a token in the channel.
  abbrev pub token : Thread E → ℕ
  token (submit_sent task) = 1
  token (immediate_sent task) = 1
  token (working now task) = 1
  token (worked now) = 1
  token (half_done true) = 1
  token _ = 0

  -- The wait group counts the goroutine.
  abbrev pub counted : Thread E → ℕ
  counted (submit_counted task) = 1
  counted (submit_sent task) = 1
  counted (immediate_counted task) = 1
  counted immediate_busy = 1
  counted (immediate_sent task) = 1
  counted (working now task) = 1
  counted (worked now) = 1
  counted (half_done false) = 1
  counted crashed = 1
  counted _ = 0

  -- The goroutine is about to close the channel.
  abbrev pub closing : Thread E → ℕ
  closing close_swapped = 1
  closing _ = 0

  -- What a step of `t` changes in the counters, where they count `t`.
  pub record Balanced (tr : TaskRunner E) (t : Thread E) (tr' : TaskRunner E)
      (next : List (Thread E)) : Type 0 where
    pub tokens : tr'.tokens + token t ≡ tr.tokens + total token next
    pub waiting : tr'.wg + counted t ≡ tr.wg + total counted next
    pub limited : tr.tokens ≤ tr.limit → tr'.tokens ≤ tr'.limit
    pub same_limit : tr'.limit ≡ tr.limit
    pub closed :
        total closing next + bit tr'.chan_closed + bit tr.status
        ≡ bit tr'.status + bit tr.chan_closed + closing t

  pub balance :
      {tr : TaskRunner E} {t : Thread E} {tr' : TaskRunner E} {next : List (Thread E)}
      → (tr'.tokens + token t ≡ tr.tokens + total token next)
      → (tr'.wg + counted t ≡ tr.wg + total counted next)
      → (tr.tokens ≤ tr.limit → tr'.tokens ≤ tr'.limit)
      → (tr'.limit ≡ tr.limit)
      → (total closing next + bit tr'.chan_closed + bit tr.status
          ≡ bit tr'.status + bit tr.chan_closed + closing t)
      → Balanced tr t tr' next
  balance a b c d e = record { tokens = a; waiting = b; limited = c; same_limit = d; closed = e }

  -- The counters count the goroutine.
  pub record IsCounted (tr : TaskRunner E) (t : Thread E) : Type 0 where
    pub tokens : token t ≤ tr.tokens
    pub waiting : counted t ≤ tr.wg
    pub closed : closing t + bit tr.chan_closed ≤ bit tr.status

  -- Whatever the step leaves satisfies `P`; it may be blocked.
  abbrev pub IfSome {κ} : (TaskRunner E → List (Thread E) → Type κ) → Outcome E → Type κ
  IfSome P none = Unit
  IfSome P (some (tr, next)) = P tr next

  pub wg_done_lem {κ} :
      (P : TaskRunner E → List (Thread E) → Type κ) (tr : TaskRunner E) (next : List (Thread E))
      → 1 ≤ tr.wg
      → P
          (record tr {
            wg = tr.wg - 1;
            asleep = if leb tr.wg 1 then 0 else tr.asleep;
            released = if leb tr.wg 1 then tr.released + tr.asleep else tr.released;
          })
          next
      → IfSome P (wg_done tr next)
  unfolding wg_done
  wg_done_lem P tr next h p =
      if_intro (IfSome P) (leb tr.wg 0) _ _ (λ e. absurd (ground arith)) (λ e. p)

  pub receive_lem {κ} :
      (P : TaskRunner E → List (Thread E) → Type κ) (tr : TaskRunner E) (next : List (Thread E))
      → 1 ≤ tr.tokens
      → P (record tr { tokens = tr.tokens - 1 }) next
      → IfSome P (receive tr next)
  unfolding receive
  receive_lem P tr next h p =
      if_intro (IfSome P) (leb tr.tokens 0) _ _ (λ e. absurd (ground arith)) (λ e. p)

  pub send_lem {κ} :
      (P : TaskRunner E → List (Thread E) → Type κ) (tr : TaskRunner E) (full : Outcome E)
      (next : List (Thread E))
      → (tr.chan_closed ≡ true → P tr (crashed ∷ []))
      → (tr.chan_closed ≡ false
          → tr.tokens < tr.limit
          → P (record tr { tokens = tr.tokens + 1 }) next)
      → (tr.chan_closed ≡ false → tr.limit ≤ tr.tokens → IfSome P full)
      → IfSome P (send tr full next)
  unfolding send
  send_lem P tr full next crash room wait = if_intro (IfSome P) tr.chan_closed _ _ crash λ e.
      if_intro (IfSome P) (ltb tr.tokens tr.limit) _ _ (λ r. room e (ground arith))
        (λ r. wait e (ground arith))

  pub handle_fields :
      (tr : TaskRunner E) (v : Option E)
      → ((handle tr v).tokens ≡ tr.tokens)
        × ((handle tr v).wg ≡ tr.wg)
        × ((handle tr v).limit ≡ tr.limit)
        × ((handle tr v).status ≡ tr.status)
        × ((handle tr v).chan_closed ≡ tr.chan_closed)
  handle_fields tr none = (refl, refl, refl, refl, refl)
  handle_fields tr (some v) = (refl, refl, refl, refl, refl)

  pub if_some {κ} :
      (P : TaskRunner E → List (Thread E) → Type κ) {o : Outcome E} {tr : TaskRunner E}
      {next : List (Thread E)}
      → o ≡ some (tr, next)
      → IfSome P o
      → P tr next
  if_some P e h = rw e at h

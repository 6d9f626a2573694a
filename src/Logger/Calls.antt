-- ===== src/Logger/Calls.antt =====
-- Series of calls on the logger of common/logger/log_rollover.go.
use go_tools.Base.{
  ℕ, ◌^◌, ◌≡◌, ◌<◌, true, false, List, [], ◌∷◌, Option, some, none, arith, refl, if_intro,
  Bool-cases, inl, inr, Run, ok, ◌>>=◌, Returns, returns, Returns-bind,
}
use go_tools.Base.Int.{ℤ, pos, pos_part, ltb_ℤ}
use go_tools.Logger.{
  LogFileRollover, LogError, LogFile, no_file, open_file, closed_file, Answers, Reply, WriteReply,
  max_file_size, close_file, rotate, write, close, of_close, after_close, or_else, stop,
}
use go_tools.Logger.Writes.{written-IsValid}
use go_tools.Logger.Sizes.{IsValid, AreSane, rotate-HasRoom, closed-IsValid, small_enough}

-- The calls of a program.
pub data Call {ℓ} (E : Type ℓ) : Type ℓ where
  write_call : ℕ → Answers E → Call E
  rotate_call : Answers E → Call E
  close_call : Answers E → Call E

module _ {ℓ} {E : Type ℓ} where
  abbrev no_count : Reply E → WriteReply E
  no_count (err, l) = ((0, err), l)

  -- A call on the logger: the number of bytes that it has written, its error, and the logger after it.
  unfoldable pub apply : Call E → LogFileRollover → Run (WriteReply E)
  unfolding write rotate close
  apply (write_call n ans) l = write l n ans
  apply (rotate_call ans) l = rotate l ans >>= λ (r : Reply E). ok (no_count r)
  apply (close_call ans) l = close l ans >>= λ (r : Reply E). ok (no_count r)

  -- The answers to a call are sane.
  abbrev pub IsSane : Call E → Type 0
  IsSane (write_call n ans) = AreSane n ans
  IsSane _ = Unit

  abbrev pub AreAllSane : List (Call E) → Type 0
  AreAllSane [] = Unit
  AreAllSane (c ∷ cs) = IsSane c × AreAllSane cs

  -- A series of calls.
  unfoldable pub run :
      List (Call E) → LogFileRollover → Run (List (ℕ × Option (LogError E)) × LogFileRollover)
  unfolding apply
  run [] l = ok ([], l)
  run (c ∷ cs) l = apply c l >>= λ (r : WriteReply E).
      run cs r.1 >>= λ (rest : List (ℕ × Option (LogError E)) × LogFileRollover).
      ok (r.0 ∷ rest.0, rest.1)

  module _ (limit : ℤ) (below : pos_part limit < 2 ^ 62) where
    write-IsValid :
        (l : LogFileRollover) (n : ℕ) (ans : Answers E)
        → IsValid limit l
        → AreSane n ans
        → Returns (λ (w : WriteReply E). IsValid limit w.1) (write l n ans)
    unfolding write
    write-IsValid l n ans v sane = elim (Bool-cases (ltb_ℤ (max_file_size l) (pos n))) [
      | inl e ↦ rw e (returns v)
      | inr e ↦ written-IsValid limit n (small_enough limit l n v e) below l ans v sane e
    ]

    stop-IsValid :
        (l : LogFileRollover)
        → IsValid limit l
        → (l.started ≡ true → l.file ≡ closed_file)
        → l.chan_closed ≡ false
        → Returns (λ (r : Reply E). IsValid limit r.1) (stop l)
    unfolding max_file_size
    stop-IsValid l v shut running =
        if_intro (λ (r : Run (Reply E)). Returns (λ (s : Reply E). IsValid limit s.1) r) l.started _
          _
          (λ e'.
            if_intro (λ (r : Run (Reply E)). Returns (λ (s : Reply E). IsValid limit s.1) r)
              l.chan_closed _ _ (λ e. absurd (cc))
              λ e. returns (record {
                same_limit = v.same_limit;
                bounded = v.bounded;
                stopped = λ e''. shut e';
                begun = v.begun;
              }))
          (λ e'. returns v)

    close-IsValid :
        (l : LogFileRollover) (ans : Answers E) (o : Option (LogError E)) (f : LogFile)
        → IsValid limit (record l { file = after_close f })
        → l.file ≡ f
        → IsValid limit l
        → (o ≡ none → l.chan_closed ≡ false)
        → Returns
            (λ (r : Reply E). IsValid limit r.1)
            (or_else (o, record l { file = after_close f }) stop)
    close-IsValid l ans (some err) f v' e v running = returns v'
    close-IsValid l ans none no_file v' e v running =
        stop-IsValid (record l { file = no_file }) v' (λ e'. absurd (v.begun e' e)) (running refl)
    close-IsValid l ans none open_file v' e v running =
        stop-IsValid (record l { file = closed_file }) v' (λ e'. refl) (running refl)
    close-IsValid l ans none closed_file v' e v running =
        stop-IsValid (record l { file = closed_file }) v' (λ e'. refl) (running refl)

    apply-IsValid :
        (c : Call E) (l : LogFileRollover)
        → IsValid limit l
        → IsSane c
        → Returns (λ (w : WriteReply E). IsValid limit w.1) (apply c l)
    unfolding apply close close_file
    apply-IsValid (write_call n ans) l v sane = write-IsValid l n ans v sane
    apply-IsValid (rotate_call ans) l v sane =
        Returns-bind (rotate-HasRoom limit 0 (omega arith) l ans v) (λ r h. returns h.0)
    apply-IsValid (close_call ans) l v sane =
        let (v', running) = closed-IsValid limit 0 (omega arith) l l.file ans.close refl v in
        Returns-bind (close-IsValid l ans (of_close ans.close l.file) l.file v' refl v running)
          (λ r h. returns h)

    -- No series of Write, Rotate and Close on a valid logger panics, whatever the operating system answers, if
    -- the answers are sane: the channel is closed once and nothing is sent on it later. The file that is open
    -- stays within the limit.
    pub file_stays_small :
        (cs : List (Call E)) (l : LogFileRollover)
        → IsValid limit l
        → AreAllSane cs
        → Returns
            (λ (r : List (ℕ × Option (LogError E)) × LogFileRollover). IsValid limit r.1)
            (run cs l)
    unfolding run
    file_stays_small [] l v sane = returns v
    file_stays_small (c ∷ cs) l v (sane, all) =
        Returns-bind (apply-IsValid c l v sane)
          λ r v'. Returns-bind (file_stays_small cs r.1 v' all) (λ rest v''. returns v'')

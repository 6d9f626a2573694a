-- ===== src/Logger/Broken.antt =====
-- A logger of common/logger/log_rollover.go whose file is closed: closeFile keeps the closed file, so that no
-- later call opens another.
use go_tools.Base.{
  ℕ, ◌≡◌, List, [], ◌∷◌, Option, some, none, refl, if_intro, Run, ok, ◌>>=◌, Returns, returns,
  Returns-bind,
}
use go_tools.Base.Int.{pos, ltb_ℤ, add64}
use go_tools.Logger.{
  LogFileRollover, LogError, foreign, err_file_closed, LogFile, open_file, closed_file, Answers,
  Reply, WriteReply, max_file_size, close_file, open_new, rotate, try_open_or_create_file, write,
  close, or_else, or_fail, of_close, write_to, if_nil,
}
use go_tools.Logger.Calls.{Call, write_call, rotate_call, close_call, apply, run}

if_nil_closed {κ} : {A : Type κ} (f : LogFile) → f ≡ closed_file → (x y : A) → if_nil f x y ≡ y
if_nil_closed f e x y = rw e refl

module _ {ℓ} {E : Type ℓ} where
  -- Nothing was written, and the call says so.
  pub data IsRefused : ℕ × Option (LogError E) → Type ℓ where
    refused : {err : LogError E} → IsRefused (0, some err)

  abbrev pub AreAllRefused : List (ℕ × Option (LogError E)) → Type ℓ
  AreAllRefused [] = Unit
  AreAllRefused (r ∷ rs) = IsRefused r × AreAllRefused rs

  abbrev StaysClosed : WriteReply E → Type ℓ
  StaysClosed w = IsRefused w.0 × (w.1.file ≡ closed_file)

  of_close-closed : (o : Option E) → of_close o closed_file ≡ some err_file_closed
  of_close-closed none = refl
  of_close-closed (some err) = refl

  -- What a second Close leaves.
  abbrev still : LogFileRollover → Reply E
  still l = (some err_file_closed, record l { file = closed_file })

  rotate-closed :
      (l : LogFileRollover) (ans : Answers E) → l.file ≡ closed_file → rotate l ans ≡ ok (still l)
  unfolding rotate close_file
  rotate-closed l ans shut = rw (shut, of_close-closed ans.close) refl

  close-closed :
      (l : LogFileRollover) (ans : Answers E) → l.file ≡ closed_file → close l ans ≡ ok (still l)
  unfolding close close_file
  close-closed l ans shut = rw (shut, of_close-closed ans.close) refl

  write_to-closed :
      (l : LogFileRollover) (ans : Answers E) (f : LogFile)
      → f ≡ closed_file
      → write_to l ans f ≡ ((0, some err_file_closed), l)
  write_to-closed l ans f e = rw e refl

  write-closed :
      (l : LogFileRollover) (n : ℕ) (ans : Answers E)
      → l.file ≡ closed_file
      → Returns StaysClosed (write l n ans)
  unfolding write
  write-closed l n ans shut =
      if_intro (λ (r : Run (WriteReply E)). Returns StaysClosed r) (ltb_ℤ (max_file_size l) (pos n))
        _ _ (λ e. returns (refused, shut))
        λ e. rw (if_nil_closed l.file shut (try_open_or_create_file l n ans) (ok (none, l))) (
          if_intro
            (λ (r : Run (Reply E)).
              Returns StaysClosed
                (r >>= λ (t : Reply E). or_fail t λ l''. ok (write_to l'' ans l''.file)))
            (ltb_ℤ (max_file_size l) (add64 (pos n) (pos l.size))) _ _
            (λ grown. rw (rotate-closed l ans shut) (returns (refused, refl)))
            (λ fits. rw (write_to-closed l ans l.file shut) (returns (refused, shut))))

  apply-closed :
      (c : Call E) (l : LogFileRollover) → l.file ≡ closed_file → Returns StaysClosed (apply c l)
  unfolding apply
  apply-closed (write_call n ans) l shut = write-closed l n ans shut
  apply-closed (rotate_call ans) l shut = rw (rotate-closed l ans shut) (returns (refused, refl))
  apply-closed (close_call ans) l shut = rw (close-closed l ans shut) (returns (refused, refl))

  -- Once the file is closed, no call writes anything: each fails.
  closed_is_final :
      (cs : List (Call E)) (l : LogFileRollover)
      → l.file ≡ closed_file
      → Returns
          (λ (r : List (ℕ × Option (LogError E)) × LogFileRollover). AreAllRefused r.0)
          (run cs l)
  unfolding run
  closed_is_final [] l shut = returns tt
  closed_is_final (c ∷ cs) l shut =
      Returns-bind (apply-closed c l shut)
        λ r h. Returns-bind (closed_is_final cs r.1 h.1) (λ rest hs. returns (h.0, hs))

  cut_short :
      (l : LogFileRollover) (err : E) (cs : List (Call E)) (o : Option E)
      → l.file ≡ closed_file
      → Returns
          (λ (r : Reply E).
            Returns
              (λ (s : List (ℕ × Option (LogError E)) × LogFileRollover). AreAllRefused s.0)
              (run cs r.1))
          (or_else (of_close o open_file, l) (λ l'. ok (some (foreign err), l')))
  cut_short l err cs none shut = returns (closed_is_final cs l shut)
  cut_short l err cs (some err') shut = returns (closed_is_final cs l shut)

  -- A rotation whose new directory cannot be made closes the file for good: every later Write, Rotate and
  -- Close fails and writes nothing, whatever the operating system answers by then.
  pub failed_rotation_is_final :
      (l : LogFileRollover) (ans : Answers E) (err : E) (cs : List (Call E))
      → l.file ≡ open_file
      → ans.mkdir_all ≡ some err
      → Returns
          (λ (r : Reply E).
            Returns
              (λ (s : List (ℕ × Option (LogError E)) × LogFileRollover). AreAllRefused s.0)
              (run cs r.1))
          (rotate l ans)
  unfolding rotate close_file open_new
  failed_rotation_is_final l ans err cs is_open fails =
      rw (is_open, fails) (cut_short (record l { file = closed_file }) err cs ans.close refl)

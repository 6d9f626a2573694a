-- ===== src/Logger/Writes.antt =====
-- Write of common/logger/log_rollover.go keeps the file within its limit.
use go_tools.Base.{
  ℕ, ◌+◌, ◌^◌, ◌≡◌, ◌≤◌, ◌<◌, false, some, none, arith, refl, if◌then◌else◌, if_intro, Run, ok,
  Returns, returns, Returns-bind, Returns-map,
}
use go_tools.Base.Int.{ℤ, pos, pos_part, ltb_ℤ, leb_ℤ, add64}
use go_tools.Logger.{
  LogFileRollover, LogFile, no_file, open_file, closed_file, Stat, has_size, not_exist, stat_fails,
  Answers, Reply, WriteReply, max_file_size, rotate, try_open_or_create_file, write, try_stat,
  or_fail, write_to, if_nil,
}
use go_tools.Logger.Sizes.{
  IsValid, old_size, AreSane, HasRoom, fits, stays, not_stopped, only_new-HasRoom,
  append_to-HasRoom, rotate-HasRoom,
}

module _ {ℓ} {E : Type ℓ} (limit : ℤ) (n : ℕ) (small : n ≤ pos_part limit)
    (below : pos_part limit < 2 ^ 62) where
  try_stat-HasRoom :
      (l : LogFileRollover) (ans : Answers E) (st : Stat E)
      → IsValid limit l
      → l.file ≡ no_file
      → old_size st < 2 ^ 62
      → Returns (HasRoom limit n small) (try_stat l n ans st)
  try_stat-HasRoom l ans not_exist v nil small_file =
      only_new-HasRoom limit n small l ans v (not_stopped limit l v (λ e. absurd (cc)))
  try_stat-HasRoom l ans (stat_fails err) v nil small_file = returns (v, λ e. absurd (cc))
  try_stat-HasRoom l ans (has_size old) v nil small_file =
      if_intro (λ (r : Run (Reply E)). Returns (HasRoom limit n small) r)
        (leb_ℤ (max_file_size l) (add64 (pos old) (pos n))) _ _
        (λ e. rotate-HasRoom limit n small l ans v)
        λ e.
          append_to-HasRoom limit n small l ans old ans.open_append v
            (not_stopped limit l v (λ e'. absurd (cc)))
            (fits limit l old n v below small_file (omega (arith, small, below)) e)

  -- The file is there when Write comes to look at its size.
  opened-IsValid :
      (l : LogFileRollover) (ans : Answers E) (f : LogFile)
      → IsValid limit l
      → l.file ≡ f
      → old_size ans.stat < 2 ^ 62
      → Returns
          (λ (r : Reply E). IsValid limit r.1)
          (if_nil f (try_open_or_create_file l n ans) (ok (none, l)))
  unfolding try_open_or_create_file
  opened-IsValid l ans no_file v e small_file =
      Returns-map (try_stat-HasRoom l ans ans.stat v e small_file) (λ r h. h.0)
  opened-IsValid l ans open_file v e small_file = returns v
  opened-IsValid l ans closed_file v e small_file = returns v

  write_to-IsValid :
      (l : LogFileRollover) (ans : Answers E) (f : LogFile)
      → IsValid limit l
      → l.file ≡ f
      → ans.write.0 ≤ n
      → (l.file ≡ open_file → l.size + n ≤ pos_part limit)
      → IsValid limit (write_to l ans f).1
  unfolding max_file_size
  write_to-IsValid l ans no_file v e most room = v
  write_to-IsValid l ans closed_file v e most room = v
  write_to-IsValid l ans open_file v e most room = record {
    same_limit = v.same_limit;
    bounded = λ e'. omega (arith, room e, most);
    stopped = v.stopped;
    begun = v.begun;
  }

  or_fail-IsValid :
      (r : Reply E) (next : LogFileRollover → Run (WriteReply E))
      → IsValid limit r.1
      → (r.0 ≡ none → Returns (λ (w : WriteReply E). IsValid limit w.1) (next r.1))
      → Returns (λ (w : WriteReply E). IsValid limit w.1) (or_fail r next)
  or_fail-IsValid (some err, l) next v h = returns v
  or_fail-IsValid (none, l) next v h = h refl

  -- The second half of Write: a file that would grow too large is rotated.
  turned-HasRoom :
      (l : LogFileRollover) (ans : Answers E)
      → IsValid limit l
      → Returns (HasRoom limit n small) (
          if ltb_ℤ (max_file_size l) (add64 (pos n) (pos l.size))
          then rotate l ans
          else ok (none, l))
  turned-HasRoom l ans v =
      if_intro (λ (r : Run (Reply E)). Returns (HasRoom limit n small) r)
        (ltb_ℤ (max_file_size l) (add64 (pos n) (pos l.size))) _ _
        (λ e. rotate-HasRoom limit n small l ans v)
        λ e. returns (v, λ e' e''. stays limit l n v below (v.bounded e'') small e)

  pub written-IsValid :
      (l : LogFileRollover) (ans : Answers E)
      → IsValid limit l
      → AreSane n ans
      → ltb_ℤ (max_file_size l) (pos n) ≡ false
      → Returns (λ (w : WriteReply E). IsValid limit w.1) (write l n ans)
  unfolding write
  written-IsValid l ans v sane e = rw e (
      Returns-bind (opened-IsValid l ans l.file v refl sane.stat_small) λ opened v'.
        or_fail-IsValid opened _ v' λ e'.
          Returns-bind (turned-HasRoom opened.1 ans v') λ rotated v''.
            or_fail-IsValid rotated _ v''.0 λ e''. returns (
              write_to-IsValid rotated.1 ans rotated.1.file v''.0 refl sane.write_most (v''.1 e'')))

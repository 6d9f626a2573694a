-- ===== src/Logger/Sizes.antt =====
-- The size of the file of common/logger/log_rollover.go, and its channel: no call panics.
use go_tools.Base.{
  ℕ, ◌+◌, ◌^◌, ◌≡◌, ◌≢◌, ◌≤◌, ◌<◌, Bool, true, false, Option, some, none, arith, refl, ◌∙◌,
  if_intro, Bool-cases, inl, inr, Run, ok, Returns, returns,
}
use go_tools.Base.Int.{ℤ, pos, pos_part, ltb_ℤ, leb_ℤ, add64, add64_pos}
use go_tools.Logger.{
  LogFileRollover, LogFile, no_file, open_file, closed_file, Stat, has_size, Answers, Reply,
  max_file_size, close_file, open_new, rollover, rotate, of_close, after_close, create, rename_old,
  open_after_mkdir, or_else, append_to,
}

-- An open file is within the limit, a channel that is closed belongs to a file that is, and a channel that
-- is there to a file that is.
pub record IsValid (limit : ℤ) (l : LogFileRollover) : Type 0 where
  pub same_limit : max_file_size l ≡ limit
  pub bounded : l.file ≡ open_file → l.size ≤ pos_part limit
  pub stopped : l.chan_closed ≡ true → l.file ≡ closed_file
  pub begun : l.started ≡ true → l.file ≢ no_file

abbrev pub old_size {ℓ} : {E : Type ℓ} → Stat E → ℕ
old_size (has_size n) = n
old_size _ = 0

-- What the operating system promises: Write takes no more than it is given, and a file that is there is
-- smaller than 2^62 bytes.
pub record AreSane {ℓ} {E : Type ℓ} (n : ℕ) (ans : Answers E) : Type 0 where
  pub write_most : ans.write.0 ≤ n
  pub stat_small : old_size ans.stat < 2 ^ 62

-- A file that is not closed has an open channel.
pub not_stopped :
    (limit : ℤ) (l : LogFileRollover)
    → IsValid limit l
    → l.file ≢ closed_file
    → l.chan_closed ≡ false
not_stopped limit l v h = elim (Bool-cases l.chan_closed) [
  | inl e ↦ absurd (h (v.stopped e))
  | inr e ↦ e
]

pub fits :
    (limit : ℤ) (l : LogFileRollover) (size n : ℕ)
    → IsValid limit l
    → pos_part limit < 2 ^ 62
    → size < 2 ^ 62
    → n < 2 ^ 62
    → leb_ℤ (max_file_size l) (add64 (pos size) (pos n)) ≡ false
    → size + n ≤ pos_part limit
fits limit l size n v below below' below'' e =
    let sum = add64_pos size n (omega arith) in let e' = rw (v.same_limit, sum) at e in ground arith

pub stays :
    (limit : ℤ) (l : LogFileRollover) (n : ℕ)
    → IsValid limit l
    → pos_part limit < 2 ^ 62
    → l.size ≤ pos_part limit
    → n ≤ pos_part limit
    → ltb_ℤ (max_file_size l) (add64 (pos n) (pos l.size)) ≡ false
    → l.size + n ≤ pos_part limit
stays limit l n v below h h' e =
    let sum = add64_pos n l.size (omega arith) in
    let e' = rw (v.same_limit, sum) at e in ground arith

pub small_enough :
    (limit : ℤ) (l : LogFileRollover) (n : ℕ)
    → IsValid limit l
    → ltb_ℤ (max_file_size l) (pos n) ≡ false
    → n ≤ pos_part limit
small_enough limit l n v e = let e' = rw v.same_limit at e in ground arith

module _ {ℓ} {E : Type ℓ} (limit : ℤ) (n : ℕ) (small : n ≤ pos_part limit) where
  -- After a call without an error there is room for `n` bytes.
  abbrev pub HasRoom : Reply E → Type ℓ
  HasRoom r =
      IsValid limit r.1 × (r.0 ≡ none → r.1.file ≡ open_file → r.1.size + n ≤ pos_part limit)

  or_else-HasRoom :
      (r : Reply E) (next : LogFileRollover → Run (Reply E))
      → IsValid limit r.1
      → (r.0 ≡ none → Returns HasRoom (next r.1))
      → Returns HasRoom (or_else r next)
  or_else-HasRoom (some err, l) next v h = returns (v, λ e. absurd (cc))
  or_else-HasRoom (none, l) next v h = h refl

  -- A new file is open and empty, or the old one stays as it was.
  abbrev IsFresh : LogFileRollover → Reply E → Type ℓ
  IsFresh l r =
      IsValid limit r.1
      × ((r.0 ≡ none → (r.1.size ≡ 0) × (r.1.file ≡ open_file)) × (r.1.chan_closed ≡ l.chan_closed))

  module _ (l : LogFileRollover) (ans : Answers E) (v : IsValid limit l)
      (running : l.chan_closed ≡ false) where
    create-IsFresh : (o : Option E) → IsFresh l (create l o)
    unfolding max_file_size
    create-IsFresh none = (
      record {
        same_limit = v.same_limit;
        bounded = λ e. omega arith;
        stopped = λ e. absurd (cc);
        begun = λ e e'. absurd (cc);
      },
      ((λ e. (refl, refl)), refl),
    )
    create-IsFresh (some err) = (v, ((λ e. absurd (cc)), refl))

    rename_old-IsFresh : (b : Bool) (o : Option E) → IsFresh l (rename_old l ans b o)
    rename_old-IsFresh true (some err) = (v, ((λ e. absurd (cc)), refl))
    rename_old-IsFresh true none = create-IsFresh ans.open_create
    rename_old-IsFresh false o = create-IsFresh ans.open_create

    open_after_mkdir-IsFresh : (o : Option E) → IsFresh l (open_after_mkdir l ans o)
    open_after_mkdir-IsFresh (some err) = (v, ((λ e. absurd (cc)), refl))
    open_after_mkdir-IsFresh none = rename_old-IsFresh ans.exists_already ans.rename

    open_new-IsFresh : IsFresh l (open_new l ans)
    unfolding open_new
    open_new-IsFresh = open_after_mkdir-IsFresh ans.mkdir_all

  rollover-HasRoom :
      (l : LogFileRollover)
      → IsValid limit l
      → l.chan_closed ≡ false
      → l.file ≡ open_file
      → (l.file ≡ open_file → l.size + n ≤ pos_part limit)
      → Returns HasRoom (rollover l)
  unfolding rollover max_file_size
  rollover-HasRoom l v running is_open room =
      if_intro (λ (r : Run (Reply E)). Returns HasRoom r) l.chan_closed _ _ (λ e. absurd (cc))
        λ e. returns (
          record {
            same_limit = v.same_limit;
            bounded = v.bounded;
            stopped = v.stopped;
            begun = λ e e'. absurd (cc);
          },
          λ e e'. room e',
        )

  -- So a file that could be closed has one.
  pub closed-IsValid :
      (l : LogFileRollover) (f : LogFile) (o : Option E)
      → l.file ≡ f
      → IsValid limit l
      → IsValid limit (record l { file = after_close f })
        × (of_close o f ≡ none → l.chan_closed ≡ false)
  unfolding max_file_size
  closed-IsValid l no_file o e v =
      let running = not_stopped limit l v (λ e'. absurd (cc)) in
      (
        record {
          same_limit = v.same_limit;
          bounded = λ e'. absurd (cc);
          stopped = λ e'. absurd (cc);
          begun = λ e' e''. v.begun e' e;
        },
        λ e'. running,
      )
  closed-IsValid l open_file o e v =
      let running = not_stopped limit l v (λ e'. absurd (cc)) in
      (
        record {
          same_limit = v.same_limit;
          bounded = λ e'. absurd (cc);
          stopped = λ e'. refl;
          begun = λ e' e''. absurd (cc);
        },
        λ e'. running,
      )
  closed-IsValid l closed_file none e v = (
    record {
      same_limit = v.same_limit;
      bounded = λ e'. absurd (cc);
      stopped = λ e'. refl;
      begun = λ e' e''. absurd (cc);
    },
    λ e'. absurd (cc),
  )
  closed-IsValid l closed_file (some err) e v = (
    record {
      same_limit = v.same_limit;
      bounded = λ e'. absurd (cc);
      stopped = λ e'. refl;
      begun = λ e' e''. absurd (cc);
    },
    λ e'. absurd (cc),
  )

  pub rotate-HasRoom :
      (l : LogFileRollover) (ans : Answers E) → IsValid limit l → Returns HasRoom (rotate l ans)
  unfolding rotate close_file
  rotate-HasRoom l ans v =
      let (closed, running) = closed-IsValid l l.file ans.close refl v in
      or_else-HasRoom (close_file l ans) _ closed λ e.
        let (v', more) =
          open_new-IsFresh (record l { file = after_close l.file }) ans closed (running e) in
        let (fresh, same) = more in
        or_else-HasRoom (open_new (record l { file = after_close l.file }) ans) _ v' λ e'.
          rollover-HasRoom _ v' (same ∙ running e) (fresh e').1
            (λ e''. omega (arith, small, (fresh e').0))

  -- Where openNew is not followed by rollover.
  pub only_new-HasRoom :
      (l : LogFileRollover) (ans : Answers E)
      → IsValid limit l
      → l.chan_closed ≡ false
      → Returns HasRoom (ok (open_new l ans))
  only_new-HasRoom l ans v running =
      let (v', more) = open_new-IsFresh l ans v running in
      returns (v', λ e e'. omega (arith, small, (more.0 e).0))

  pub append_to-HasRoom :
      (l : LogFileRollover) (ans : Answers E) (old : ℕ) (o : Option E)
      → IsValid limit l
      → l.chan_closed ≡ false
      → old + n ≤ pos_part limit
      → Returns HasRoom (append_to l ans old o)
  unfolding max_file_size
  append_to-HasRoom l ans old (some err) v running room = only_new-HasRoom l ans v running
  append_to-HasRoom l ans old none v running room =
      rollover-HasRoom (record l { file = open_file; size = old })
        (record {
          same_limit = v.same_limit;
          bounded = λ e. omega arith;
          stopped = λ e. absurd (cc);
          begun = λ e e'. absurd (cc);
        })
        running refl (λ e. room)

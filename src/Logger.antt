-- ===== src/Logger.antt =====
-- common/logger/log_rollover.go: LogFileRollover, the file that a logger writes to.
-- The calls of the operating system are foreign: `Answers` holds what they answer within one call of a
-- method, in which each of them is made at most once. Contents are counted, not kept.
pub mod Sizes
pub mod Writes
pub mod Calls
pub mod Broken
pub mod Backups
pub mod Names
mod Examples
use go_tools.Base.{
  ℕ, ◌+◌, ◌*◌, ◌%◌, Bool, true, false, Option, some, none, if◌then◌else◌, Run, ok, panic, ◌>>=◌,
}
use go_tools.Base.Int.{ℤ, pos, ltb_ℤ, leb_ℤ, eqb_ℤ, add64, to_bits, of_bits, two_pow_64}

abbrev pub mega_byte : ℕ
mega_byte = 1024 * 1024

abbrev pub default_max_file_size : ℕ
default_max_file_size = mega_byte * 100

-- The errors of a method; `err_file_closed` is that of a file that was closed, `err_invalid` that of nil.
pub data LogError {ℓ} (E : Type ℓ) : Type ℓ where
  write_too_large : LogError E
  err_file_closed : LogError E
  err_invalid : LogError E
  foreign : E → LogError E

-- The field `file`: nil, an open file, or one whose Close was called.
pub data LogFile : Type 0 where
  no_file : LogFile
  open_file : LogFile
  closed_file : LogFile

-- `started` says that `once` has run, so that `ctxCancel` is there; `signalled` and `chan_closed` are the
-- state of `rolloverChan`.
pub record LogFileRollover : Type 0 where
  pub max_size : ℤ
  pub max_backups : ℤ
  pub max_age : ℤ
  pub compress : Bool
  pub file : LogFile
  pub size : ℕ
  pub started : Bool
  pub signalled : Bool
  pub chan_closed : Bool

pub data Stat {ℓ} (E : Type ℓ) : Type ℓ where
  has_size : ℕ → Stat E
  not_exist : Stat E
  stat_fails : E → Stat E

pub record Answers {ℓ} (E : Type ℓ) : Type ℓ where
  pub stat : Stat E
  pub open_append : Option E
  pub close : Option E
  pub mkdir_all : Option E
  pub exists_already : Bool
  pub rename : Option E
  pub open_create : Option E
  pub write : ℕ × Option E

unfoldable pub new_log_file_rollover : ℤ → ℤ → ℤ → Bool → LogFileRollover
new_log_file_rollover max_size max_backups max_age compress = record {
  max_size = max_size;
  max_backups = max_backups;
  max_age = max_age;
  compress = compress;
  file = no_file;
  size = 0;
  started = false;
  signalled = false;
  chan_closed = false;
}

-- `int64(l.MaxSize * megaByte)`, or the default
unfoldable pub max_file_size : LogFileRollover → ℤ
unfolding to_bits of_bits
max_file_size l =
    if eqb_ℤ l.max_size (pos 0)
    then pos default_max_file_size
    else of_bits (to_bits l.max_size * mega_byte % two_pow_64)

abbrev pub Reply {ℓ} : Type ℓ → Type ℓ
Reply E = Option (LogError E) × LogFileRollover

-- The number of bytes, and the error.
abbrev pub WriteReply {ℓ} : Type ℓ → Type ℓ
WriteReply E = (ℕ × Option (LogError E)) × LogFileRollover

abbrev after_close : LogFile → LogFile
after_close no_file = no_file
after_close _ = closed_file

abbrev if_nil {ℓ} : {A : Type ℓ} → LogFile → A → A → A
if_nil no_file yes_case no_case = yes_case
if_nil _ yes_case no_case = no_case

module _ {ℓ} {E : Type ℓ} where
  abbrev of_close : Option E → LogFile → Option (LogError E)
  of_close none open_file = none
  of_close (some err) open_file = some (foreign err)
  of_close _ no_file = none
  of_close _ closed_file = some err_file_closed

  -- A file is closed after Close, whatever it returns, and a second Close fails.
  unfoldable pub close_file : LogFileRollover → Answers E → Reply E
  close_file l ans = (of_close ans.close l.file, record l { file = after_close l.file })

  -- openNew from the opening of the new file on
  abbrev create : LogFileRollover → Option E → Reply E
  create l none = (none, record l { file = open_file; size = 0 })
  create l (some err) = (some (foreign err), l)

  -- openNew from the renaming of the old file on
  abbrev rename_old : LogFileRollover → Answers E → Bool → Option E → Reply E
  rename_old l ans true (some err) = (some (foreign err), l)
  rename_old l ans true none = create l ans.open_create
  rename_old l ans false _ = create l ans.open_create

  abbrev open_after_mkdir : LogFileRollover → Answers E → Option E → Reply E
  open_after_mkdir l ans (some err) = (some (foreign err), l)
  open_after_mkdir l ans none = rename_old l ans ans.exists_already ans.rename

  unfoldable pub open_new : LogFileRollover → Answers E → Reply E
  open_new l ans = open_after_mkdir l ans ans.mkdir_all

  -- The channel is made on the first call. A send on a closed channel panics.
  unfoldable pub rollover : LogFileRollover → Run (Reply E)
  rollover l =
      if l.chan_closed then panic else ok (none, record l { started = true; signalled = true })

  -- `if err != nil { return err }`, and what follows.
  abbrev or_else : Reply E → (LogFileRollover → Run (Reply E)) → Run (Reply E)
  or_else (some err, l) next = ok (some err, l)
  or_else (none, l) next = next l

  unfoldable pub rotate : LogFileRollover → Answers E → Run (Reply E)
  unfolding close_file open_new rollover
  rotate l ans = or_else (close_file l ans) λ l'. or_else (open_new l' ans) λ l''. rollover l''

  -- The end of tryOpenOrCreateFile: the file is there and has room.
  abbrev append_to : LogFileRollover → Answers E → ℕ → Option E → Run (Reply E)
  append_to l ans old (some err) = ok (open_new l ans)
  append_to l ans old none = rollover (record l { file = open_file; size = old })

  abbrev try_stat : LogFileRollover → ℕ → Answers E → Stat E → Run (Reply E)
  try_stat l rewrite_size ans not_exist = ok (open_new l ans)
  try_stat l rewrite_size ans (stat_fails err) = ok (some (foreign err), l)
  try_stat l rewrite_size ans (has_size old) =
      if leb_ℤ (max_file_size l) (add64 (pos old) (pos rewrite_size))
      then rotate l ans
      else append_to l ans old ans.open_append

  unfoldable pub try_open_or_create_file : LogFileRollover → ℕ → Answers E → Run (Reply E)
  unfolding open_new rollover rotate max_file_size add64
  try_open_or_create_file l rewrite_size ans = try_stat l rewrite_size ans ans.stat

  abbrev or_fail : Reply E → (LogFileRollover → Run (WriteReply E)) → Run (WriteReply E)
  or_fail (some err, l) next = ok ((0, some err), l)
  or_fail (none, l) next = next l

  abbrev foreign_of : Option E → Option (LogError E)
  foreign_of none = none
  foreign_of (some err) = some (foreign err)

  -- `l.file.Write(p)` and the addition to the size
  abbrev write_to : LogFileRollover → Answers E → LogFile → WriteReply E
  write_to l ans no_file = ((0, some err_invalid), l)
  write_to l ans closed_file = ((0, some err_file_closed), l)
  write_to l ans open_file =
      ((ans.write.0, foreign_of ans.write.1), record l { size = l.size + ans.write.0 })

  -- Write of `rewrite_size` bytes
  unfoldable pub write : LogFileRollover → ℕ → Answers E → Run (WriteReply E)
  unfolding max_file_size add64 rotate try_open_or_create_file
  write l rewrite_size ans =
      if ltb_ℤ (max_file_size l) (pos rewrite_size)
      then ok ((0, some write_too_large), l)
      else if_nil l.file (try_open_or_create_file l rewrite_size ans) (ok (none, l))
        >>= λ (opened : Reply E). or_fail opened λ l'.
          (if ltb_ℤ (max_file_size l') (add64 (pos rewrite_size) (pos l'.size))
            then rotate l' ans
            else ok (none, l'))
          >>= λ (rotated : Reply E). or_fail rotated λ l''. ok (write_to l'' ans l''.file)

  -- The end of Close: closing a closed channel panics.
  abbrev stop : LogFileRollover → Run (Reply E)
  stop l =
      if l.started
      then (if l.chan_closed then panic else ok (none, record l { chan_closed = true }))
      else ok (none, l)

  unfoldable pub close : LogFileRollover → Answers E → Run (Reply E)
  unfolding close_file
  close l ans = or_else (close_file l ans) stop

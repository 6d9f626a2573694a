-- ===== src/Logger/Examples.antt =====
-- Runs of common/logger/log_rollover.go on small inputs.
use go_tools.Base.{
  leb, ◌&&◌, if◌then◌else◌, ℕ, ◌+◌, ◌*◌, ◌≡◌, ◌≤◌, true, false, List, [], ◌∷◌, ◌++◌, Option, some,
  none, arith, refl, ◌⊎◌, ok, panic, Returns,
}
use go_tools.Base.Int.{pos, ltb_ℤ}
use go_tools.Base.Bytes.{Bytes, bytes_eq}
use go_tools.Base.Threads.{total}
use go_tools.Container.Set.{Set, size, contains}
use go_tools.Logger.{
  LogFileRollover, LogError, open_file, no_file, not_exist, Answers, Reply, max_file_size, rotate,
}
use go_tools.Logger.Sizes.{IsValid, AreSane}
use go_tools.Logger.Calls.{Call, write_call, close_call, run, file_stays_small}
use go_tools.Logger.Broken.{AreAllRefused, failed_rotation_is_final}
use go_tools.Logger.Backups.{LogFileMeta, backup_of, rollover_exec, compress_suffix}
use go_tools.Logger.Backups.Retention.{rollover_loses_none}
use go_tools.Logger.Backups.Limits.{Fate, backups_limited}
use go_tools.Logger.Names.{time_of_backup, get_backup_name_by_time}
use go_tools.Logger.Names.RoundTrip.{backup_is_found}

-- Files of one megabyte, and two backups.
abbrev fresh : LogFileRollover
fresh = record {
  max_size = pos 1;
  max_backups = pos 2;
  max_age = pos 0;
  compress = true;
  file = no_file;
  size = 0;
  started = false;
  signalled = false;
  chan_closed = false;
}

abbrev all_well : ℕ → Answers ℕ
all_well n = record {
  stat = not_exist;
  open_append = none;
  close = none;
  mkdir_all = none;
  exists_already = true;
  rename = none;
  open_create = none;
  write = (n, none);
}

abbrev the_calls : List (Call ℕ)
the_calls =
    write_call 1000000 (all_well 1000000)
    ∷ write_call 50000 (all_well 50000)
    ∷ write_call 2000000 (all_well 2000000)
    ∷ close_call (all_well 0)
    ∷ write_call 1 (all_well 1)
    ∷ []

fresh-IsValid : IsValid (pos (1024 * 1024)) fresh
unfolding max_file_size
fresh-IsValid = record {
  same_limit = refl;
  bounded = λ e. absurd (cc);
  stopped = λ e. absurd (cc);
  begun = λ e. absurd (cc);
}

sane : (n : ℕ) → AreSane n (all_well n)
sane n = record { write_most = omega arith; stat_small = omega arith }

file_stays_small_example :
    Returns
      (λ (r : List (ℕ × Option (LogError ℕ)) × LogFileRollover). IsValid (pos (1024 * 1024)) r.1)
      (run the_calls fresh)
file_stays_small_example =
    file_stays_small (pos (1024 * 1024)) (omega arith) the_calls fresh fresh-IsValid
      (sane 1000000, (sane 50000, (sane 2000000, (tt, (sane 1, tt)))))

abbrev writing : LogFileRollover
writing = record fresh { file = open_file; size = 1000 }

abbrev no_space : Answers ℕ
no_space = record (all_well 0) { mkdir_all = some 28 }

failed_rotation_is_final_example :
    Returns
      (λ (r : Reply ℕ).
        Returns
          (λ (s : List (ℕ × Option (LogError ℕ)) × LogFileRollover). AreAllRefused s.0)
          (run the_calls r.1))
      (rotate writing no_space)
failed_rotation_is_final_example = failed_rotation_is_final writing no_space 28 the_calls refl refl

-- "a", "a.gz", "b", "c", from the newest on
abbrev the_backups : List LogFileMeta
the_backups =
    record { time = pos 40; name = 97 ∷ [] }
    ∷ record { time = pos 40; name = 97 ∷ compress_suffix }
    ∷ record { time = pos 30; name = 98 ∷ [] }
    ∷ record { time = pos 20; name = 99 ∷ [] }
    ∷ []

abbrev one : LogFileMeta → ℕ
one m = 1

rollover_loses_none_example :
    total one (rollover_exec fresh (pos 0) the_backups).0.removed
      + total one (rollover_exec fresh (pos 0) the_backups).0.remained
    ≡ 4
rollover_loses_none_example = rollover_loses_none one fresh (pos 0) the_backups

backups_limited_example :
    (saved : Set Bytes) × ((size saved ≤ 2)
      × Fate
          (λ m.
            (contains bytes_eq saved (backup_of m) ≡ true)
            × (ltb_ℤ (pos 0) (pos 0) ≡ true → ltb_ℤ m.time (pos 0) ≡ false))
          (λ m. (contains bytes_eq saved (backup_of m) ≡ false) ⊎ (ltb_ℤ m.time (pos 0) ≡ true))
          (rollover_exec fresh (pos 0) the_backups).0)
backups_limited_example = backups_limited fresh (pos 0) the_backups refl

test_backups :
    (rollover_exec fresh (pos 0) the_backups).0.removed
    ≡ record { time = pos 20; name = 99 ∷ [] } ∷ []
unfolding rollover_exec
test_backups = refl

-- "a.log"
abbrev a_log : Bytes
a_log = 97 ∷ 46 ∷ 108 ∷ 111 ∷ 103 ∷ []

-- A time is one or two digits, and stands for their number.
abbrev digits : Bytes → Option ℕ
digits (a ∷ []) = if leb 48 a && leb a 57 then some 1 else none
digits (a ∷ b ∷ []) = if leb 48 a && leb a 57 && leb 48 b && leb b 57 then some 2 else none
digits _ = none

backup_is_found_example :
    (time_of_backup digits a_log (get_backup_name_by_time a_log (49 ∷ 50 ∷ [])) ≡ ok (some 2))
    × (time_of_backup digits a_log (get_backup_name_by_time a_log (49 ∷ 50 ∷ []) ++ compress_suffix)
        ≡ ok (some 2))
backup_is_found_example = backup_is_found digits a_log (49 ∷ 50 ∷ []) 2 refl refl

-- A log "a.._" and a file "a._": the prefix and the suffix overlap.
test_overlap : time_of_backup digits (97 ∷ 46 ∷ 46 ∷ 95 ∷ []) (97 ∷ 46 ∷ 95 ∷ []) ≡ panic
unfolding time_of_backup
test_overlap = refl

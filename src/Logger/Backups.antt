-- ===== src/Logger/Backups.antt =====
-- common/logger/log_rollover.go: rolloverExec, which chooses the backups that are removed and those that are
-- compressed. The list of backups is an argument, and so is the time before which a backup is too old; the
-- removal and the compression of a file are foreign.
pub mod Retention
pub mod Limits
use go_tools.Base.{
  ◌-◌, Bool, not, ◌&&◌, List, [], ◌∷◌, ◌++◌, length, take, drop, leb, if◌then◌else◌,
}
use go_tools.Base.Int.{ℤ, pos, ltb_ℤ, leb_ℤ, eqb_ℤ}
use go_tools.Base.Bytes.{Bytes, bytes_beq, bytes_eq}
use go_tools.Container.Set.{Set, new_set, size, contains, add}
use go_tools.Logger.{LogFileRollover}

-- The time of a backup, and the name of its file.
pub record LogFileMeta : Type 0 where
  pub time : ℤ
  pub name : Bytes

-- ".gz"
abbrev pub compress_suffix : Bytes
compress_suffix = 46 ∷ 103 ∷ 122 ∷ []

-- `strings.HasSuffix` and `strings.TrimSuffix`
abbrev pub has_suffix : Bytes → Bytes → Bool
has_suffix s suffix =
    leb (length suffix) (length s) && bytes_beq (drop (length s - length suffix) s) suffix

abbrev pub trim_suffix : Bytes → Bytes → Bytes
trim_suffix s suffix = if has_suffix s suffix then take (length s - length suffix) s else s

-- A log and its compressed form are one backup.
abbrev pub backup_of : LogFileMeta → Bytes
backup_of meta = trim_suffix meta.name compress_suffix

-- The variables of the two loops.
pub record Choice : Type 0 where
  pub saved_set : Set Bytes
  pub removed : List LogFileMeta
  pub remained : List LogFileMeta

-- The body of the loop on the number of backups.
unfoldable pub save : ℤ → LogFileMeta → Choice → Choice
unfolding size contains add
save max_backups meta c =
    if contains bytes_eq c.saved_set (backup_of meta)
    then record c { remained = c.remained ++ meta ∷ [] }
    else if leb_ℤ max_backups (pos (size c.saved_set))
    then record c { removed = c.removed ++ meta ∷ [] }
    else record c {
      saved_set = add bytes_eq c.saved_set (backup_of meta ∷ []);
      remained = c.remained ++ meta ∷ [];
    }

unfoldable pub save_loop : ℤ → List LogFileMeta → Choice → Choice
unfolding save
save_loop max_backups [] c = c
save_loop max_backups (meta ∷ metas) c = save_loop max_backups metas (save max_backups meta c)

-- The body of the loop on the age.
unfoldable pub expire : ℤ → LogFileMeta → Choice → Choice
expire cut_off_time meta c =
    if ltb_ℤ meta.time cut_off_time
    then record c { removed = c.removed ++ meta ∷ [] }
    else record c { remained = c.remained ++ meta ∷ [] }

unfoldable pub expire_loop : ℤ → List LogFileMeta → Choice → Choice
unfolding expire
expire_loop cut_off_time [] c = c
expire_loop cut_off_time (meta ∷ metas) c =
    expire_loop cut_off_time metas (expire cut_off_time meta c)

-- The files that are compressed are those that remain and are not yet.
unfoldable pub to_compress : List LogFileMeta → List LogFileMeta
to_compress [] = []
to_compress (meta ∷ metas) =
    let rest = to_compress metas in
    if has_suffix meta.name compress_suffix then rest else meta ∷ rest

-- The first loop, if there is a limit on the number, and the second, if there is one on the age.
unfoldable pub by_number : LogFileRollover → List LogFileMeta → Choice
unfolding save_loop new_set
by_number l metas =
    if ltb_ℤ (pos 0) l.max_backups
    then save_loop l.max_backups metas (record { saved_set = new_set; removed = []; remained = [] })
    else record { saved_set = new_set; removed = []; remained = metas }

unfoldable pub by_age : LogFileRollover → ℤ → Choice → Choice
unfolding expire_loop
by_age l cut_off_time c =
    if ltb_ℤ (pos 0) l.max_age
    then expire_loop cut_off_time c.remained (record c { remained = [] })
    else c

-- rolloverExec: the backups that are removed and those that remain, and of the latter those to compress.
unfoldable pub rollover_exec : LogFileRollover → ℤ → List LogFileMeta → Choice × List LogFileMeta
unfolding by_number by_age to_compress new_set
rollover_exec l cut_off_time metas =
    if eqb_ℤ l.max_age (pos 0) && eqb_ℤ l.max_backups (pos 0) && not l.compress
    then (record { saved_set = new_set; removed = []; remained = metas }, [])
    else let c = by_age l cut_off_time (by_number l metas) in
      (c, if l.compress then to_compress c.remained else [])

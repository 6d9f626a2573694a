-- ===== src/Logger/Names.antt =====
-- The names of the backups of common/logger/log_rollover.go: getBackupNameByTime gives them, and
-- timeFromFileName reads them. A name is the last part of a path, and `ts` is a time in the layout of the
-- backups; what `time.ParseInLocation` makes of it is a parameter.
pub mod RoundTrip
use go_tools.Base.{
  ◌-◌, ◌==◌, Bool, ◌&&◌, [], ◌∷◌, ◌++◌, Option, none, length, take, drop, leb, if◌then◌else◌, Run,
  ok, check,
}
use go_tools.Base.Bytes.{Bytes, bytes_beq}
use go_tools.Logger.Backups.{has_suffix, trim_suffix, compress_suffix}

-- `filepath.Ext`: from the last dot on, or nothing.
abbrev pub ext_or : Bytes → Bytes → Bytes
ext_or found [] = found
ext_or found (b ∷ bs) = ext_or (if b == 46 then b ∷ bs else found) bs

abbrev pub ext : Bytes → Bytes
ext filename = ext_or [] filename

-- `strings.HasPrefix`
abbrev pub has_prefix : Bytes → Bytes → Bool
has_prefix s prefix = leb (length prefix) (length s) && bytes_beq (take (length prefix) s) prefix

-- getBackupNameByTime: the underscore is 95.
unfoldable pub get_backup_name_by_time : Bytes → Bytes → Bytes
get_backup_name_by_time filename ts =
    trim_suffix filename (ext filename) ++ (95 ∷ ts) ++ ext filename

-- The prefix that loadFileList looks for.
unfoldable pub backup_prefix : Bytes → Bytes
backup_prefix filename = trim_suffix filename (ext filename) ++ 95 ∷ []

module _ {ℓ} {T : Type ℓ} (parse_in_location : Bytes → Option T) where
  -- timeFromFileName: the slice panics where the prefix and the suffix overlap.
  unfoldable pub time_from_file_name : Bytes → Bytes → Bytes → Run (Option T)
  time_from_file_name name prefix suffix =
      if has_prefix name prefix
      then if has_suffix name suffix
        then check (leb (length prefix) (length name - length suffix)) (
            ok (parse_in_location (drop (length prefix) (take (length name - length suffix) name))))
        else ok none
      else ok none

  -- `if err == nil`, and the second try.
  abbrev or_compressed : Run (Option T) → Run (Option T) → Run (Option T)
  or_compressed (ok none) second = second
  or_compressed first second = first

  -- What the loop of loadFileList makes of a file.
  unfoldable pub time_of_backup : Bytes → Bytes → Run (Option T)
  unfolding time_from_file_name backup_prefix
  time_of_backup filename name =
      or_compressed (time_from_file_name name (backup_prefix filename) (ext filename))
        (time_from_file_name name (backup_prefix filename) (ext filename ++ compress_suffix))

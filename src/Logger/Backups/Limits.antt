-- ===== src/Logger/Backups/Limits.antt =====
-- The limits on the backups of common/logger/log_rollover.go, on their number and on their age.
use go_tools.Base.{
  ◌≡◌, ◌≤◌, Bool, true, false, not, ◌&&◌, List, [], ◌∷◌, arith, ◌⊎◌, inl, inr, if_intro, if_true,
}
use go_tools.Base.Int.{ℤ, pos, pos_part, ltb_ℤ, eqb_ℤ}
use go_tools.Base.Bytes.{Bytes, bytes_eq}
use go_tools.Container.Set.{Set, new_set, size, contains}
use go_tools.Logger.{LogFileRollover}
use go_tools.Logger.Backups.{
  LogFileMeta, backup_of, Choice, save_loop, expire, expire_loop, by_number, by_age, rollover_exec,
}
use go_tools.Logger.Backups.Retention.{All, All-append, All-map, AreSaved, save_loop-AreSaved}

-- What became of the files: `P` holds of those that remain, and `Q` of those that were removed.
pub record Fate (P Q : LogFileMeta → Type 0) (c : Choice) : Type 0 where
  pub kept : All P c.remained
  pub gone : All Q c.removed

module _ (P Q : LogFileMeta → Type 0) (cut : ℤ) where
  -- After the second loop the files that remain are not old, and those that it removed are.
  abbrev IsRecent : LogFileMeta → Type 0
  IsRecent m = P m × (ltb_ℤ m.time cut ≡ false)

  abbrev IsGone : LogFileMeta → Type 0
  IsGone m = Q m ⊎ (ltb_ℤ m.time cut ≡ true)

  expire-Fate :
      (m : LogFileMeta) (c : Choice)
      → P m
      → Fate IsRecent IsGone c
      → Fate IsRecent IsGone (expire cut m c)
  unfolding expire
  expire-Fate m c p v =
      if_intro (Fate IsRecent IsGone) (ltb_ℤ m.time cut) _ _
        (λ e. record {
          kept = v.kept;
          gone = All-append IsGone c.removed (m ∷ []) v.gone (inr e, tt);
        })
        (λ e. record {
          kept = All-append IsRecent c.remained (m ∷ []) v.kept ((p, e), tt);
          gone = v.gone;
        })

  expire_loop-Fate :
      (ms : List LogFileMeta) (c : Choice)
      → All P ms
      → Fate IsRecent IsGone c
      → Fate IsRecent IsGone (expire_loop cut ms c)
  unfolding expire_loop
  expire_loop-Fate [] c ps v = v
  expire_loop-Fate (m ∷ ms) c (p, ps) v =
      expire_loop-Fate ms (expire cut m c) ps (expire-Fate m c p v)

  by_age-Fate :
      (l : LogFileRollover) (c : Choice)
      → Fate P Q c
      → Fate
          (λ m. P m × (ltb_ℤ (pos 0) l.max_age ≡ true → ltb_ℤ m.time cut ≡ false))
          IsGone
          (by_age l cut c)
  unfolding by_age
  by_age-Fate l c v =
      if_intro
        (Fate (λ m. P m × (ltb_ℤ (pos 0) l.max_age ≡ true → ltb_ℤ m.time cut ≡ false)) IsGone)
        (ltb_ℤ (pos 0) l.max_age) _ _
        (λ e.
          let w =
            expire_loop-Fate c.remained (record c { remained = [] }) v.kept
              (record { kept = tt; gone = All-map Q IsGone (λ m q. inl q) c.removed v.gone }) in
          record {
            kept =
                All-map _ _ (λ m h. (h.0, λ e'. h.1))
                  (expire_loop cut c.remained (record c { remained = [] })).remained w.kept;
            gone = w.gone;
          })
        (λ e. record {
          kept = All-map _ _ (λ m p. (p, λ e'. absurd (cc))) c.remained v.kept;
          gone = All-map Q IsGone (λ m q. inl q) c.removed v.gone;
        })

abbrev start : Choice
start = record { saved_set = new_set; removed = []; remained = [] }

start-AreSaved : (limit : ℤ) → AreSaved limit start
unfolding new_set size
start-AreSaved limit = record {
  few = omega arith;
  kept = tt;
  extra = tt;
  full = λ p. absurd (omega arith);
}

limited_not_zero :
    (n : ℤ) (b b' : Bool) → ltb_ℤ (pos 0) n ≡ true → (b && eqb_ℤ n (pos 0) && b') ≡ true → ⊥
limited_not_zero n b b' h e = ground arith

by_number-limited :
    (l : LogFileRollover) (ms : List LogFileMeta)
    → ltb_ℤ (pos 0) l.max_backups ≡ true
    → by_number l ms ≡ save_loop l.max_backups ms start
unfolding by_number
by_number-limited l ms h = if_true (ltb_ℤ (pos 0) l.max_backups) _ _ h

-- With a limit on their number, the backups that remain are at most so many, a log and its compressed form
-- counting as one; a file is removed only if its backup is none of them, or if it is too old.
pub backups_limited :
    (l : LogFileRollover) (cut : ℤ) (ms : List LogFileMeta)
    → ltb_ℤ (pos 0) l.max_backups ≡ true
    → (saved : Set Bytes) × ((size saved ≤ pos_part l.max_backups)
        × Fate
            (λ m.
              (contains bytes_eq saved (backup_of m) ≡ true)
              × (ltb_ℤ (pos 0) l.max_age ≡ true → ltb_ℤ m.time cut ≡ false))
            (λ m. (contains bytes_eq saved (backup_of m) ≡ false) ⊎ (ltb_ℤ m.time cut ≡ true))
            (rollover_exec l cut ms).0)
unfolding rollover_exec
backups_limited l cut ms limited =
    let v = save_loop-AreSaved l.max_backups ms start (start-AreSaved l.max_backups) in
    let saved = (save_loop l.max_backups ms start).saved_set in
    let in_set = λ (m : LogFileMeta). contains bytes_eq saved (backup_of m) ≡ true in
    let not_in_set = λ (m : LogFileMeta). contains bytes_eq saved (backup_of m) ≡ false in
    let chosen : Fate in_set not_in_set (by_number l ms) =
      rw (by_number-limited l ms limited) (record { kept = v.kept; gone = v.extra }) in
    (
      saved,
      (
        v.few,
        if_intro
            (λ (r : Choice × List LogFileMeta).
              Fate (λ m. in_set m × (ltb_ℤ (pos 0) l.max_age ≡ true → ltb_ℤ m.time cut ≡ false))
                (λ m. not_in_set m ⊎ (ltb_ℤ m.time cut ≡ true)) r.0)
            (eqb_ℤ l.max_age (pos 0) && eqb_ℤ l.max_backups (pos 0) && not l.compress) _ _
            (λ e.
              absurd (
                limited_not_zero l.max_backups (eqb_ℤ l.max_age (pos 0)) (not l.compress) limited
                  e))
            (λ e. by_age-Fate in_set not_in_set cut l (by_number l ms) chosen),
      ),
    )

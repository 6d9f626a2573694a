-- ===== src/Logger/Backups/Retention.antt =====
-- Which backups rolloverExec of common/logger/log_rollover.go removes.
use go_tools.Base.{
  ℕ, ◌+◌, ◌≡◌, ◌≤◌, ◌<◌, Bool, true, false, not, ◌&&◌, List, [], ◌∷◌, ◌++◌, arith, refl, length,
  if_intro,
}
use go_tools.Base.Int.{ℤ, pos, pos_part, ltb_ℤ, leb_ℤ, eqb_ℤ}
use go_tools.Base.Bytes.{Bytes, bytes_eq}
use go_tools.Base.Maps
use go_tools.Base.Threads.{total, total-append}
use go_tools.Container.Set.{Set, new_set, size, contains, add}
use go_tools.Logger.{LogFileRollover}
use go_tools.Logger.Backups.{
  LogFileMeta, backup_of, Choice, save, save_loop, expire, expire_loop, by_number, by_age,
  rollover_exec,
}

-- Every file has the property.
abbrev pub All : (LogFileMeta → Type 0) → List LogFileMeta → Type 0
All P [] = Unit
All P (m ∷ ms) = P m × All P ms

pub All-append :
    (P : LogFileMeta → Type 0) (ms ms' : List LogFileMeta)
    → All P ms
    → All P ms'
    → All P (ms ++ ms')
All-append P [] ms' h h' = h'
All-append P (m ∷ ms) ms' (h, hs) h' = (h, All-append P ms ms' hs h')

pub All-map :
    (P Q : LogFileMeta → Type 0)
    → ((m : LogFileMeta) → P m → Q m)
    → (ms : List LogFileMeta) → All P ms
    → All Q ms
All-map P Q f [] h = tt
All-map P Q f (m ∷ ms) (h, hs) = (f m h, All-map P Q f ms hs)

-- The backups in the set are few, those that remain are in it, and those that were removed are not; none is
-- removed before the set is full.
pub record AreSaved (limit : ℤ) (c : Choice) : Type 0 where
  pub few : size c.saved_set ≤ pos_part limit
  pub kept : All (λ m. contains bytes_eq c.saved_set (backup_of m) ≡ true) c.remained
  pub extra : All (λ m. contains bytes_eq c.saved_set (backup_of m) ≡ false) c.removed
  pub full : 0 < length c.removed → leb_ℤ limit (pos (size c.saved_set)) ≡ true

add-kept :
    (s : Set Bytes) (b q : Bytes)
    → contains bytes_eq s q ≡ true
    → contains bytes_eq (add bytes_eq s (b ∷ [])) q ≡ true
unfolding contains add
add-kept s b q h = ground (arith, Maps.lookup-insert bytes_eq b q tt s.members)

add_self : (s : Set Bytes) (b : Bytes) → contains bytes_eq (add bytes_eq s (b ∷ [])) b ≡ true
unfolding contains add
add_self s b = ground (arith, Maps.lookup-insert bytes_eq b b tt s.members, bytes_eq.beq_iff b b)

add-size :
    (s : Set Bytes) (b : Bytes)
    → contains bytes_eq s b ≡ false
    → size (add bytes_eq s (b ∷ [])) ≡ size s + 1
unfolding contains add size
add-size s b h = ground (arith, Maps.length-insert bytes_eq b tt s.members)

pub true-false : {b : Bool} → b ≡ true → b ≡ false → ⊥
true-false e f = cc

none_removed : (ms : List LogFileMeta) (P : LogFileMeta → Type 0) → (0 < length ms → ⊥) → All P ms
none_removed [] P h = tt
none_removed (m ∷ ms) P h = absurd (h (omega arith))

save-AreSaved :
    (limit : ℤ) (m : LogFileMeta) (c : Choice) → AreSaved limit c → AreSaved limit (save limit m c)
unfolding save
save-AreSaved limit m c v =
    if_intro (AreSaved limit) (contains bytes_eq c.saved_set (backup_of m)) _ _
      (λ e. record {
        few = v.few;
        kept = All-append _ c.remained (m ∷ []) v.kept (e, tt);
        extra = v.extra;
        full = v.full;
      })
      λ e.
        if_intro (AreSaved limit) (leb_ℤ limit (pos (size c.saved_set))) _ _
          (λ f. record {
            few = v.few;
            kept = v.kept;
            extra = All-append _ c.removed (m ∷ []) v.extra (e, tt);
            full = λ p. f;
          })
          λ f.
            let bigger = add-size c.saved_set (backup_of m) e in
            let none_yet : 0 < length c.removed → ⊥ = λ p. absurd (true-false (v.full p) f) in
            record {
              few = ground (arith, v.few, bigger);
              kept =
                  All-append _ c.remained (m ∷ [])
                    (All-map _ _ (λ m' h. add-kept c.saved_set (backup_of m) (backup_of m') h)
                      c.remained v.kept)
                    (add_self c.saved_set (backup_of m), tt);
              extra = none_removed c.removed _ none_yet;
              full = λ p. absurd (none_yet p);
            }

pub save_loop-AreSaved :
    (limit : ℤ) (ms : List LogFileMeta) (c : Choice)
    → AreSaved limit c
    → AreSaved limit (save_loop limit ms c)
unfolding save_loop
save_loop-AreSaved limit [] c v = v
save_loop-AreSaved limit (m ∷ ms) c v =
    save_loop-AreSaved limit ms (save limit m c) (save-AreSaved limit m c v)

-- Each file is removed or remains, and none is lost.
save-total :
    (f : LogFileMeta → ℕ) (limit : ℤ) (m : LogFileMeta) (c : Choice)
    → total f (save limit m c).removed + total f (save limit m c).remained
      ≡ f m + (total f c.removed + total f c.remained)
unfolding save
save-total f limit m c =
    let same = λ (d : Choice).
      total f d.removed + total f d.remained ≡ f m + (total f c.removed + total f c.remained) in
    if_intro same (contains bytes_eq c.saved_set (backup_of m)) _ _
      (λ e. omega (arith, total-append f c.remained (m ∷ [])))
      λ e.
        if_intro same (leb_ℤ limit (pos (size c.saved_set))) _ _
          (λ h. omega (arith, total-append f c.removed (m ∷ [])))
          (λ h. omega (arith, total-append f c.remained (m ∷ [])))

save_loop-total :
    (f : LogFileMeta → ℕ) (limit : ℤ) (ms : List LogFileMeta) (c : Choice)
    → total f (save_loop limit ms c).removed + total f (save_loop limit ms c).remained
      ≡ total f ms + (total f c.removed + total f c.remained)
unfolding save_loop
save_loop-total f limit [] c = omega arith
save_loop-total f limit (m ∷ ms) c =
    omega (arith, save_loop-total f limit ms (save limit m c), save-total f limit m c)

expire-total :
    (f : LogFileMeta → ℕ) (cut : ℤ) (m : LogFileMeta) (c : Choice)
    → total f (expire cut m c).removed + total f (expire cut m c).remained
      ≡ f m + (total f c.removed + total f c.remained)
unfolding expire
expire-total f cut m c =
    if_intro
      (λ (d : Choice).
        total f d.removed + total f d.remained ≡ f m + (total f c.removed + total f c.remained))
      (ltb_ℤ m.time cut) _ _ (λ e. omega (arith, total-append f c.removed (m ∷ [])))
      (λ e. omega (arith, total-append f c.remained (m ∷ [])))

expire_loop-total :
    (f : LogFileMeta → ℕ) (cut : ℤ) (ms : List LogFileMeta) (c : Choice)
    → total f (expire_loop cut ms c).removed + total f (expire_loop cut ms c).remained
      ≡ total f ms + (total f c.removed + total f c.remained)
unfolding expire_loop expire
expire_loop-total f cut [] c = omega arith
expire_loop-total f cut (m ∷ ms) c =
    omega (arith, expire_loop-total f cut ms (expire cut m c), expire-total f cut m c)

by_number-total :
    (f : LogFileMeta → ℕ) (l : LogFileRollover) (ms : List LogFileMeta)
    → total f (by_number l ms).removed + total f (by_number l ms).remained ≡ total f ms
unfolding by_number
by_number-total f l ms =
    if_intro (λ (d : Choice). total f d.removed + total f d.remained ≡ total f ms)
      (ltb_ℤ (pos 0) l.max_backups) _ _
      (λ e. omega (
        arith,
        save_loop-total f l.max_backups ms
            (record { saved_set = new_set; removed = []; remained = [] }),
      ))
      (λ e. omega arith)

by_age-total :
    (f : LogFileMeta → ℕ) (l : LogFileRollover) (cut : ℤ) (c : Choice)
    → total f (by_age l cut c).removed + total f (by_age l cut c).remained
      ≡ total f c.removed + total f c.remained
unfolding by_age
by_age-total f l cut c =
    if_intro
      (λ (d : Choice).
        total f d.removed + total f d.remained ≡ total f c.removed + total f c.remained)
      (ltb_ℤ (pos 0) l.max_age) _ _
      (λ e. omega (arith, expire_loop-total f cut c.remained (record c { remained = [] })))
      (λ e. refl)

-- Every backup is removed or remains, as often as it was listed: whatever is counted of the files is what
-- is counted of those removed and of those that remain.
pub rollover_loses_none :
    (f : LogFileMeta → ℕ) (l : LogFileRollover) (cut : ℤ) (ms : List LogFileMeta)
    → total f (rollover_exec l cut ms).0.removed + total f (rollover_exec l cut ms).0.remained
      ≡ total f ms
unfolding rollover_exec
rollover_loses_none f l cut ms =
    if_intro
      (λ (r : Choice × List LogFileMeta). total f r.0.removed + total f r.0.remained ≡ total f ms)
      (eqb_ℤ l.max_age (pos 0) && eqb_ℤ l.max_backups (pos 0) && not l.compress) _ _
      (λ e. omega arith)
      (λ e. omega (arith, by_age-total f l cut (by_number l ms), by_number-total f l ms))

-- ===== src/Logger/Names/RoundTrip.antt =====
-- A backup of common/logger/log_rollover.go is found again by its name.
use go_tools.Base.{
  ℕ, suc, ◌+◌, Bool-cases, inl, inr, none, ◌-◌, ◌≡◌, true, [], ◌∷◌, ◌++◌, Option, some, arith, refl,
  sym, ap, ◌∙◌, length, length-append, take, drop, le→leb, ok,
}
use mathlib.Core.List.{append_assoc, append-nil}
use go_tools.Base.Bytes.{Bytes, bytes_beq_refl}
use go_tools.Logger.Backups.{has_suffix, trim_suffix, compress_suffix}
use go_tools.Logger.Names.{
  ext, has_prefix, time_of_backup, get_backup_name_by_time, backup_prefix, time_from_file_name,
}

take-append : (xs ys : Bytes) → take (length xs) (xs ++ ys) ≡ xs
take-append [] ys = refl
take-append (x ∷ xs) ys = ap (◌∷◌ x) (take-append xs ys)

unary : (a n : ℕ) → suc a + n ≡ suc (a + n)
unary a n = omega arith

take-past : (xs ys : Bytes) (n : ℕ) → take (length xs + n) (xs ++ ys) ≡ xs ++ take n ys
take-past [] ys n = ap (λ k. take k ys) (omega arith)
take-past (x ∷ xs) ys n = rw (unary (length xs) n) (ap (◌∷◌ x) (take-past xs ys n))

drop-append : (xs ys : Bytes) → drop (length xs) (xs ++ ys) ≡ ys
drop-append [] ys = refl
drop-append (x ∷ xs) ys = drop-append xs ys

has_prefix-append : (xs ys : Bytes) → has_prefix (xs ++ ys) xs ≡ true
has_prefix-append xs ys =
    rw
      (
        take-append xs ys,
        bytes_beq_refl xs,
        le→leb (length xs) (length (xs ++ ys)) (omega (arith, length-append xs ys)),
      )
      refl

before_end : (xs ys : Bytes) → length (xs ++ ys) - length ys ≡ length xs
before_end xs ys = omega (arith, length-append xs ys)

has_suffix-append : (xs ys : Bytes) → has_suffix (xs ++ ys) ys ≡ true
has_suffix-append xs ys =
    rw
      (
        before_end xs ys,
        drop-append xs ys,
        bytes_beq_refl ys,
        le→leb (length ys) (length (xs ++ ys)) (omega (arith, length-append xs ys)),
      )
      refl

module _ {ℓ} {T : Type ℓ} (parse_in_location : Bytes → Option T) where
  between :
      (prefix ts suffix : Bytes)
      → time_from_file_name parse_in_location ((prefix ++ ts) ++ suffix) prefix suffix
        ≡ ok (parse_in_location ts)
  unfolding time_from_file_name
  between prefix ts suffix =
      rw
        (
          has_suffix-append (prefix ++ ts) suffix,
          before_end (prefix ++ ts) suffix,
          take-append (prefix ++ ts) suffix,
          drop-append prefix ts,
          append_assoc prefix ts suffix,
          has_prefix-append prefix (ts ++ suffix),
          le→leb (length prefix) (length (prefix ++ ts)) (omega (arith, length-append prefix ts)),
        )
        refl

  name_parts :
      (filename ts rest : Bytes)
      → get_backup_name_by_time filename ts ++ rest
        ≡ (backup_prefix filename ++ ts) ++ (ext filename ++ rest)
  unfolding get_backup_name_by_time backup_prefix
  name_parts filename ts rest =
      let stem = trim_suffix filename (ext filename) in
      rw (append_assoc (stem ++ (95 ∷ ts)) (ext filename) rest, append_assoc stem (95 ∷ []) ts) refl

  -- With the suffix of a file that is not compressed, the time of a compressed one would have a rest.
  not_plain :
      (prefix ts suffix rest : Bytes)
      → parse_in_location (ts ++ take (length rest) (suffix ++ rest)) ≡ none
      → time_from_file_name parse_in_location ((prefix ++ ts) ++ (suffix ++ rest)) prefix suffix
        ≡ ok none
  unfolding time_from_file_name
  not_plain prefix ts suffix rest h =
      let name = (prefix ++ ts) ++ (suffix ++ rest) in
      let starts : has_prefix name prefix ≡ true =
        rw (append_assoc prefix ts (suffix ++ rest)) (has_prefix-append prefix _) in
      let long : length name - length suffix ≡ length (prefix ++ ts) + length rest =
        omega (arith, length-append (prefix ++ ts) (suffix ++ rest), length-append suffix rest) in
      elim (Bool-cases (has_suffix name suffix)) [
        | inr e ↦ rw (starts, e) refl
        | inl e ↦
            rw
              (
                starts,
                e,
                long,
                take-past (prefix ++ ts) (suffix ++ rest) (length rest),
                append_assoc prefix ts (take (length rest) (suffix ++ rest)),
                drop-append prefix (ts ++ take (length rest) (suffix ++ rest)),
                h,
                le→leb (length prefix) (length (prefix ++ ts) + length rest)
                    (omega (arith, length-append prefix ts)),
              )
              refl
      ]

  -- loadFileList finds a backup again under its name, with the time in it, and so it does a compressed one
  -- under that name with ".gz" behind it, where the text of a time is no time with what follows it there.
  pub backup_is_found :
      (filename ts : Bytes) (t : T)
      → parse_in_location ts ≡ some t
      → parse_in_location (ts ++ take (length compress_suffix) (ext filename ++ compress_suffix))
        ≡ none
      → (time_of_backup parse_in_location filename (get_backup_name_by_time filename ts)
          ≡ ok (some t))
        × (time_of_backup parse_in_location filename
              (get_backup_name_by_time filename ts ++ compress_suffix)
            ≡ ok (some t))
  unfolding time_of_backup
  backup_is_found filename ts t e rest_fails =
      let plain : time_from_file_name parse_in_location (get_backup_name_by_time filename ts)
            (backup_prefix filename) (ext filename)
          ≡ ok (some t) =
        rw
          (
            sym (append-nil (get_backup_name_by_time filename ts)),
            name_parts filename ts [],
            append-nil (ext filename),
          )
          (between (backup_prefix filename) ts (ext filename) ∙ ap ok e) in
      let first_try =
        not_plain (backup_prefix filename) ts (ext filename) compress_suffix rest_fails in
      let second_try =
        between (backup_prefix filename) ts (ext filename ++ compress_suffix) ∙ ap ok e in
      (rw plain refl, rw (name_parts filename ts compress_suffix, first_try) second_try)

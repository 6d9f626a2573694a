-- ===== src/Container/Queue/Slices.antt =====
-- Slices of common/container/queue.go: what `copy`, a slice expression and a write give in range.
use go_tools.Base.{
  ℕ, zero, suc, ◌+◌, ◌-◌, ◌≤◌, ◌<◌, ◌≡◌, refl, ap, List, [], ◌∷◌, ◌++◌, ok, arith, length, set,
  take, drop, length-take, length-drop, take-set, drop-set, drop_uncons, le→leb, lt→ltb,
}
use go_tools.Container.Queue.{copy, slice, store, value_loop}

module _ {ℓ} {A : Type ℓ} where
  pub length-copy : (dst src : List A) → length (copy dst src) ≡ length dst
  unfolding copy
  length-copy [] src = refl
  length-copy (d ∷ dst) [] = refl
  length-copy (d ∷ dst) (s ∷ src) = ap suc (length-copy dst src)

  pub take-copy :
      (n : ℕ) (dst src : List A) → length src ≡ n → n ≤ length dst → take n (copy dst src) ≡ src
  unfolding copy
  take-copy zero dst [] e h = refl
  take-copy zero dst (s ∷ src) e h = absurd (omega arith)
  take-copy (suc n) [] src e h = absurd (omega arith)
  take-copy (suc n) (d ∷ dst) [] e h = absurd (omega arith)
  take-copy (suc n) (d ∷ dst) (s ∷ src) e h =
      ap (◌∷◌ s) (take-copy n dst src (omega arith) (omega arith))

  pub slice-ok :
      (xs : List A) (b e : ℕ) → b ≤ e → e ≤ length xs → slice xs b e ≡ ok (take (e - b) (drop b xs))
  unfolding slice
  slice-ok xs b e h k = rw (le→leb _ _ h, le→leb _ _ k)

  pub length-window :
      (xs : List A) (b e : ℕ) → e ≤ length xs → length (take (e - b) (drop b xs)) ≡ e - b
  length-window xs b e h = omega (arith, length-take (e - b) (drop b xs), length-drop b xs)

  pub store-ok : (xs : List A) (i : ℕ) (v : A) → i < length xs → store xs i v ≡ ok (set xs i v)
  unfolding store
  store-ok xs i v h = rw (lt→ltb _ _ h)

  -- Writing behind the last element of a window puts it at the end.
  pub window-set :
      (xs : List A) (b e : ℕ) (v : A)
      → b ≤ e
      → e < length xs
      → take (e + 1 - b) (drop b (set xs e v)) ≡ take (e - b) (drop b xs) ++ v ∷ []
  window-set xs b e v h k =
      let s : e + 1 - b ≡ suc (e - b) = omega arith in
      rw (s, drop-set b e xs v h) (take-set (e - b) (drop b xs) v (omega (arith, length-drop b xs)))

  pub value_loop-ok :
      (xs : List A) (n i : ℕ) → i + n ≤ length xs → value_loop xs n i ≡ ok (take n (drop i xs))
  unfolding value_loop
  value_loop-ok xs zero i h = refl
  value_loop-ok xs (suc n) i h =
      let (x, got, e) = drop_uncons i xs (omega arith) in
      let s : i + 1 ≡ suc i = omega arith in
      rw (got, value_loop-ok xs n (i + 1) (omega arith), e, s)

-- ===== src/Container/SortedMap/Chain.antt =====
-- The chain of common/container/sorted_map.go: with enough rounds the loops are plain insertion into
-- and removal from an ascending list.
use mathlib.Core.Path.{ap₂, subst}
use go_tools.Base.{
  ℕ, zero, suc, ◌+◌, ◌≤◌, ◌<◌, ◌≡◌, refl, ap, Bool, true, false, ◌||◌, List, [], ◌∷◌, length,
  if◌then◌else◌, arith, Bool-cases, inl, inr, ◌⊎◌, ◌++◌, Returns, returns, Returns-inv, sym,
}
use go_tools.Base.Keys.{Ordered, beq_refl}
use go_tools.Container.SortedMap.{
  find_loop, delete_loop, unlink, insert_loop, link, ge, on_chain, IsBelow, IsAscending,
}

module _ {ℓ} {K : Type ℓ} (o : Ordered K) where
  -- Insertion in front of the first key that is not below.
  unfoldable pub insert_sorted : K → List K → List K
  insert_sorted key [] = key ∷ []
  insert_sorted key (c ∷ next) = if ge o c key then key ∷ c ∷ next else c ∷ insert_sorted key next

  unfoldable pub remove_first : K → List K → List K
  remove_first key [] = []
  remove_first key (c ∷ next) = if o.eq.beq c key then next else c ∷ remove_first key next

  insert_loop-sorted :
      (n : ℕ) (key c : K) (next : List K)
      → length next < n
      → insert_loop o n key c next ≡ c ∷ insert_sorted key next
  unfolding insert_loop insert_sorted
  insert_loop-sorted zero key c next h = absurd (omega arith)
  insert_loop-sorted (suc n) key c [] h = refl
  insert_loop-sorted (suc n) key c (d ∷ next) h = ground (arith, insert_loop-sorted n key d next)

  pub link-insert_sorted :
      (n : ℕ) (key : K) (l : List K) → length l ≤ n → link o n key l ≡ insert_sorted key l
  unfolding link insert_sorted
  link-insert_sorted n key [] h = refl
  link-insert_sorted n key (c ∷ next) h = ground (arith, insert_loop-sorted n key c next)

  delete_loop-remove :
      (n : ℕ) (key c : K) (next : List K)
      → length next ≤ n
      → delete_loop o n key c next ≡ c ∷ remove_first key next
  unfolding delete_loop remove_first
  delete_loop-remove zero key c [] h = refl
  delete_loop-remove zero key c (d ∷ next) h = absurd (omega arith)
  delete_loop-remove (suc n) key c [] h = refl
  delete_loop-remove (suc n) key c (d ∷ next) h = ground (arith, delete_loop-remove n key d next)

  pub unlink-remove_first :
      (n : ℕ) (key : K) (l : List K) → length l ≤ n + 1 → unlink o n key l ≡ remove_first key l
  unfolding unlink remove_first
  unlink-remove_first n key [] h = refl
  unlink-remove_first n key (c ∷ next) h = ground (arith, delete_loop-remove n key c next)

  pub length-insert_sorted : (key : K) (l : List K) → length (insert_sorted key l) ≡ length l + 1
  unfolding insert_sorted
  length-insert_sorted key [] = omega arith
  length-insert_sorted key (c ∷ next) = ground (arith, length-insert_sorted key next)

  pub on_chain-insert_sorted :
      (key q : K) (l : List K)
      → on_chain o q (insert_sorted key l) ≡ (o.eq.beq key q || on_chain o q l)
  unfolding insert_sorted
  on_chain-insert_sorted key q [] = refl
  on_chain-insert_sorted key q (c ∷ next) = ground (arith, on_chain-insert_sorted key q next)

  IsBelow-trans : (a b : K) (l : List K) → o.lt a b ≡ true → IsBelow o b l → IsBelow o a l
  IsBelow-trans a b [] h k = tt
  IsBelow-trans a b (c ∷ l) h k = (o.lt_trans a b c h k.0, IsBelow-trans a b l h k.1)

  IsBelow-insert_sorted :
      (k key : K) (l : List K)
      → o.lt k key ≡ true
      → IsBelow o k l
      → IsBelow o k (insert_sorted key l)
  unfolding insert_sorted
  IsBelow-insert_sorted k key [] h b = (h, tt)
  IsBelow-insert_sorted k key (c ∷ l) h b = elim (Bool-cases (o.lt c key)) [
    | inl e ↦ rw e (b.0, IsBelow-insert_sorted k key l h b.1)
    | inr e ↦ rw e (h, b)
  ]

  -- A new key keeps the chain ascending.
  pub insert_sorted-IsAscending :
      (key : K) (l : List K)
      → on_chain o key l ≡ false
      → IsAscending o l
      → IsAscending o (insert_sorted key l)
  unfolding insert_sorted
  insert_sorted-IsAscending key [] h a = (tt, tt)
  insert_sorted-IsAscending key (c ∷ l) h a = elim (Bool-cases (o.lt c key)) [
    | inl e ↦
        rw e
          (IsBelow-insert_sorted c key l e a.0, insert_sorted-IsAscending key l (ground arith) a.1)
    | inr e ↦
        let above : o.lt key c ≡ true = ground (arith, o.lt_total c key, o.eq.beq_iff c key) in
        rw e ((above, IsBelow-trans key c l above a.0), a)
  ]

  below_absent : (k : K) (l : List K) → IsBelow o k l → on_chain o k l ≡ false
  below_absent k [] b = refl
  below_absent k (c ∷ l) b = ground (arith, o.lt_irrefl k, o.eq.beq_iff c k, below_absent k l b.1)

  pub length-remove_first :
      (key : K) (l : List K) → on_chain o key l ≡ true → length (remove_first key l) + 1 ≡ length l
  unfolding remove_first
  length-remove_first key [] h = cc
  length-remove_first key (c ∷ l) h = ground (arith, length-remove_first key l)

  pub on_chain-remove_first :
      (key q : K) (l : List K)
      → IsAscending o l
      → on_chain o q (remove_first key l) ≡ (if o.eq.beq key q then false else on_chain o q l)
  unfolding remove_first
  on_chain-remove_first key q [] a = ground arith
  on_chain-remove_first key q (c ∷ l) a = ground (
    arith,
    o.eq.beq_iff c key,
    o.eq.beq_iff key q,
    o.eq.beq_iff c q,
    below_absent c l a.0,
    on_chain-remove_first key q l a.1,
  )

  IsBelow-remove_first : (k key : K) (l : List K) → IsBelow o k l → IsBelow o k (remove_first key l)
  unfolding remove_first
  IsBelow-remove_first k key [] b = b
  IsBelow-remove_first k key (c ∷ l) b = elim (Bool-cases (o.eq.beq c key)) [
    | inl e ↦ rw e b.1
    | inr e ↦ rw e (b.0, IsBelow-remove_first k key l b.1)
  ]

  pub remove_first-IsAscending :
      (key : K) (l : List K) → IsAscending o l → IsAscending o (remove_first key l)
  unfolding remove_first
  remove_first-IsAscending key [] a = a
  remove_first-IsAscending key (c ∷ l) a = elim (Bool-cases (o.eq.beq c key)) [
    | inl e ↦ rw e a.1
    | inr e ↦ rw e (IsBelow-remove_first c key l a.0, remove_first-IsAscending key l a.1)
  ]

  -- What Find is to return for a chain that holds the key or not: nil, or the node of the key.
  abbrev pub Found : K → Bool → List K → List K → Type ℓ
  Found key present l node =
      ((present ≡ false) × (node ≡ []))
      ⊎ ((before : List K) × (after : List K) × (present ≡ true)
          × (node ≡ key ∷ after)
          × (l ≡ before ++ node))

  Found-cons :
      (key c : K) (present : Bool) (l node : List K)
      → Found key present l node
      → Found key present (c ∷ l) node
  Found-cons key c present l node (inl nowhere) = inl nowhere
  Found-cons key c present l node (inr (before, after, held, here, split)) =
      inr (c ∷ before, after, held, here, ap (◌∷◌ c) split)

  pub find_loop_correct :
      (n : ℕ) (key : K) (l : List K)
      → length l ≡ n
      → Returns (Found key (on_chain o key l) l) (find_loop o n key l)
  unfolding find_loop
  find_loop_correct zero key [] h = returns (inl (refl, refl))
  find_loop_correct zero key (c ∷ l) h = absurd (omega arith)
  find_loop_correct (suc n) key [] h = absurd (omega arith)
  find_loop_correct (suc n) key (c ∷ l) h = elim (Bool-cases (o.eq.beq c key)) [
    | inl e ↦ rw e (returns (inr ([], l, refl, ap (λ k. k ∷ l) ((o.eq.beq_iff c key).0 e), refl)))
    | inr e ↦
        let ih = Returns-inv (find_loop_correct n key l (omega arith)) in
        rw (e, ih.1) (returns (Found-cons key c (on_chain o key l) l ih.0 ih.2))
  ]

  -- The first key of an ascending chain is the least that it holds.
  least_first :
      (c d : K) (l m : List K)
      → IsAscending o (d ∷ m)
      → on_chain o c (c ∷ l) ≡ on_chain o c (d ∷ m)
      → o.lt c d ≡ false
  least_first c d l m a same = elim (Bool-cases (o.lt c d)) [
    | inl e ↦
        let absent = below_absent c m (IsBelow-trans c d m e a.0) in
        absurd (ground (arith, same, absent, e, beq_refl o.eq c, o.eq.beq_iff d c, o.lt_irrefl c))
    | inr e ↦ e
  ]

  tails_same :
      (c : K) (l m : List K)
      → IsBelow o c l
      → IsBelow o c m
      → ((q : K) → on_chain o q (c ∷ l) ≡ on_chain o q (c ∷ m))
      → (q : K) → on_chain o q l ≡ on_chain o q m
  tails_same c l m a b same q =
      ground (arith, same q, o.eq.beq_iff c q, below_absent c l a, below_absent c m b)

  pub ascending_unique :
      (l m : List K)
      → IsAscending o l
      → IsAscending o m
      → ((q : K) → on_chain o q l ≡ on_chain o q m)
      → l ≡ m
  ascending_unique [] [] a b same = refl
  ascending_unique [] (d ∷ m) a b same = ground (arith, same d, beq_refl o.eq d)
  ascending_unique (c ∷ l) [] a b same = ground (arith, same c, beq_refl o.eq c)
  ascending_unique (c ∷ l) (d ∷ m) a b same =
      let e : c ≡ d =
        o.lt_total c d (least_first c d l m b (same c)) (least_first d c m l a (sym (same d))) in
      let b' : IsBelow o c m = subst (λ k. IsBelow o k m) (sym e) b.0 in
      let same' : (q : K) → on_chain o q (c ∷ l) ≡ on_chain o q (c ∷ m) =
        subst (λ k. (q : K) → on_chain o q (c ∷ l) ≡ on_chain o q (k ∷ m)) (sym e) same in
      ap₂ ◌∷◌ e (ascending_unique l m a.1 b.1 (tails_same c l m a.0 b' same'))

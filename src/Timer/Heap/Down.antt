-- ===== src/Timer/Heap/Down.antt =====
-- `down` on the heap of common/timer/timer.go.
use native.Mathlib.Numerals.{add-one}
use go_tools.Base.{
  ℕ, zero, suc, ◌+◌, ◌-◌, ◌*◌, ◌≡◌, ◌≢◌, ◌≤◌, ◌<◌, refl, ◌∙◌, ◌⊎◌, List, length, true, false,
  Returns, returns, Returns-bind, Returns-map, Bool-cases, inl, inr, ltb, leb, arith,
}
use go_tools.Base.Int.{ltb_ℤ}
use go_tools.Timer.{Timer, smaller_child, down_loop, down}
use go_tools.Timer.Heap.Access.{key, ◌≤ℤ◌, less-ok, swap_correct, Exchanged}
use go_tools.Timer.Heap.Order.{parent, IsHeap, IsHeapBut}
use go_tools.Timer.Heap.Up.{UpInvariant, Rearranged, Rearranged-refl, Rearranged-step, SameBeyond}

only_two : (i c : ℕ) → 0 < c → parent c ≡ i → (c ≡ 2 * i + 1) ⊎ (c ≡ 2 * i + 1 + 1)
only_two i c h e = omega arith

module _ {κ} {C : Type κ} (n : ℕ) where
  -- Only the edges below `i` may be out of order.
  record DownInvariant (a : List (Timer C)) (i : ℕ) : Type 0 where
    edges : (c : ℕ) → 0 < c → c < n → parent c ≢ i → key a (parent c) ≤ℤ key a c
    across : (c : ℕ) → 0 < c → c < n → parent c ≡ i → 0 < i → key a (parent i) ≤ℤ key a c

  -- `j` is a child of `i` that ends first.
  record IsLeastChild (a : List (Timer C)) (i j : ℕ) : Type 0 where
    child : parent j ≡ i
    after : 0 < j
    inside : j < n
    least : (c : ℕ) → 0 < c → c < n → parent c ≡ i → key a j ≤ℤ key a c

  smaller_child-IsLeastChild :
      (a : List (Timer C)) (i : ℕ)
      → n ≤ length a
      → 2 * i + 1 < n
      → Returns (IsLeastChild a i) (smaller_child a i n)
  unfolding smaller_child
  smaller_child-IsLeastChild a i fits left = elim (Bool-cases (ltb (2 * i + 1 + 1) n)) [
    | inl two ↦
        rw (two, less-ok a (2 * i + 1 + 1) (2 * i + 1) (ground arith) (omega arith))
          (elim (Bool-cases (ltb_ℤ (key a (2 * i + 1 + 1)) (key a (2 * i + 1)))) [
            | inl right ↦ rw right (
                returns (record {
                  child = omega arith;
                  after = omega arith;
                  inside = ground arith;
                  least = λ c p q r. ground (arith, only_two i c);
                }))
            | inr kept ↦ rw kept (
                returns (record {
                  child = omega arith;
                  after = omega arith;
                  inside = left;
                  least = λ c p q r. ground (arith, only_two i c);
                }))
          ])
    | inr one ↦ rw one (
        returns (record {
          child = omega arith;
          after = omega arith;
          inside = left;
          least = λ c p q r. ground (arith, only_two i c);
        }))
  ]

  sink-DownInvariant :
      (a b : List (Timer C)) (i j : ℕ)
      → DownInvariant a i
      → IsLeastChild a i j
      → ltb_ℤ (key a j) (key a i) ≡ true
      → Exchanged a i j b
      → DownInvariant b j
  sink-DownInvariant a b i j v l below x = record {
    edges = λ c p q r. ground (
      arith,
      v.edges c,
      v.across j,
      l.least c,
      l.child,
      l.after,
      l.inside,
      x.keys c,
      x.keys (parent c),
    );
    across = λ c p q r s.
        ground
          (arith, v.edges c, l.least c, l.child, l.after, l.inside, x.keys c, x.keys (parent j));
  }

  down_loop_restores :
      (fuel : ℕ) (a : List (Timer C)) (i : ℕ)
      → n - i < fuel
      → n ≤ length a
      → i < n
      → DownInvariant a i
      → Returns
          (λ (b, i'). IsHeap n b × (i ≤ i') × SameBeyond n a b × Rearranged a b)
          (down_loop fuel a i n)
  unfolding down_loop
  down_loop_restores zero a i f fits p v = absurd (omega arith)
  down_loop_restores (suc fuel) a i f fits p v = elim (Bool-cases (leb n (2 * i + 1))) [
    | inl leaf ↦ rw leaf (
        returns
          ((λ c p q. ground (arith, v.edges c)), omega arith, (λ c h. refl), Rearranged-refl a))
    | inr inner ↦ rw inner (
        Returns-bind (smaller_child-IsLeastChild a i fits (ground arith)) λ j l.
          rw (less-ok a j i (omega (arith, l.inside)) (omega arith))
            (elim (Bool-cases (ltb_ℤ (key a j) (key a i))) [
              | inl below ↦ rw below (
                  Returns-bind (swap_correct a i j (omega arith) (omega (arith, l.inside))) λ b x.
                    Returns-map
                      (down_loop_restores fuel b j (omega (arith, l.child, l.after))
                        (rw x.sized fits) l.inside (sink-DownInvariant a b i j v l below x))
                      λ (c, i') (h, le, beyond, r). (
                        h,
                        omega (arith, l.child, l.after),
                        (λ d q. beyond d q ∙ x.others d (omega arith) (omega (arith, l.inside))),
                        Rearranged-step x r,
                      ))
              | inr above ↦ rw above (
                  returns (
                    (λ c p q. ground (arith, v.edges c, l.least c)),
                    omega arith,
                    (λ c h. refl),
                    Rearranged-refl a,
                  ))
            ]))
  ]

  first_sink :
      (a b : List (Timer C)) (i j : ℕ)
      → IsHeapBut n a i
      → IsLeastChild a i j
      → ltb_ℤ (key a j) (key a i) ≡ true
      → Exchanged a i j b
      → DownInvariant b j
  first_sink a b i j v l below x = record {
    edges = λ c p q r. ground (
      arith,
      v.edges c,
      v.across j,
      l.least c,
      l.child,
      l.after,
      l.inside,
      x.keys c,
      x.keys (parent c),
    );
    across = λ c p q r s.
        ground
          (arith, v.edges c, l.least c, l.child, l.after, l.inside, x.keys c, x.keys (parent j));
  }

  -- What `down` leaves, and where the timer at `i` went: the heap is in order if it went further down,
  -- and otherwise only the edge above it may be out of order.
  abbrev pub Settled : List (Timer C) → ℕ → List (Timer C) × ℕ → Type κ
  Settled a i (b, i') =
      SameBeyond n a b × Rearranged a b × (((i < i') × IsHeap n b) ⊎ ((i' ≡ i) × UpInvariant n b i))

  down_loop_settles :
      (fuel : ℕ) (a : List (Timer C)) (i : ℕ)
      → n ≤ fuel
      → n ≤ length a
      → i < n
      → IsHeapBut n a i
      → Returns (Settled a i) (down_loop (suc fuel) a i n)
  unfolding down_loop
  down_loop_settles fuel a i f fits p v = elim (Bool-cases (leb n (2 * i + 1))) [
    | inl leaf ↦
        let w : UpInvariant n a i = record {
          inside = p;
          edges = λ c p q r. ground (arith, v.edges c);
          across = v.across;
        } in
        rw leaf (returns ((λ c h. refl), Rearranged-refl a, inr (refl, w)))
    | inr inner ↦ rw inner (
        Returns-bind (smaller_child-IsLeastChild a i fits (ground arith)) λ j l.
          rw (less-ok a j i (omega (arith, l.inside)) (omega arith))
            (elim (Bool-cases (ltb_ℤ (key a j) (key a i))) [
              | inl below ↦ rw below (
                  Returns-bind (swap_correct a i j (omega arith) (omega (arith, l.inside))) λ b x.
                    Returns-map
                      (down_loop_restores fuel b j (omega (arith, l.child, l.after))
                        (rw x.sized fits) l.inside (first_sink a b i j v l below x))
                      λ (c, i') (h, le, beyond, r). (
                        (λ d q. beyond d q ∙ x.others d (omega arith) (omega (arith, l.inside))),
                        Rearranged-step x r,
                        inl (omega (arith, l.child, l.after), h),
                      ))
              | inr above ↦
                  let w : UpInvariant n a i = record {
                    inside = p;
                    edges = λ c p q r. ground (arith, v.edges c, l.least c);
                    across = v.across;
                  } in
                  rw above (returns ((λ c h. refl), Rearranged-refl a, inr (refl, w)))
            ]))
  ]

  -- `down` from `i`, where only the edges that meet `i` may be out of order.
  pub down_correct :
      (a : List (Timer C)) (i : ℕ)
      → n ≤ length a
      → i < n
      → IsHeapBut n a i
      → Returns
          (λ (b, moved).
            SameBeyond n a b
            × Rearranged a b
            × (((moved ≡ true) × IsHeap n b) ⊎ ((moved ≡ false) × UpInvariant n b i)))
          (down a i n)
  unfolding down
  down_correct a i fits p v = rw add-one (
      Returns-bind (down_loop_settles n a i (omega arith) fits p v) λ (b, i') s. returns (
        s.0,
        s.1,
        (elim s.2 [ inl (lt, h) ↦ inl (ground arith, h) | inr (e, w) ↦ inr (ground arith, w) ]),
      ))

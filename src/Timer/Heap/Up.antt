-- ===== src/Timer/Heap/Up.antt =====
-- `up` on the heap of common/timer/timer.go.
use go_tools.Base.{
  ℕ, zero, suc, ◌+◌, ◌≡◌, ◌≢◌, ◌≤◌, ◌<◌, refl, ◌∙◌, List, length, get_elem?, true, Returns, returns,
  Returns-bind, Returns-map, Bool-cases, inl, inr, ◌==◌, arith,
}
use go_tools.Base.Int.{ltb_ℤ}
use go_tools.Timer.{Timer, up_loop, up}
use go_tools.Timer.Heap.Access.{key, ◌≤ℤ◌, less-ok, swap_correct, Exchanged, SameTimers, IsPlaced}
use go_tools.Timer.Heap.Order.{parent, IsHeap}

module _ {κ} {C : Type κ} where
  -- Only the edge above `j` may be out of order.
  pub record UpInvariant (n : ℕ) (a : List (Timer C)) (j : ℕ) : Type 0 where
    pub inside : j < n
    pub edges : (c : ℕ) → 0 < c → c < n → c ≢ j → key a (parent c) ≤ℤ key a c
    pub across : (c : ℕ) → 0 < c → c < n → parent c ≡ j → 0 < j → key a (parent j) ≤ℤ key a c

  -- Nothing at `n` or beyond has changed.
  abbrev pub SameBeyond : ℕ → List (Timer C) → List (Timer C) → Type κ
  SameBeyond n a b = (c : ℕ) → n ≤ c → get_elem? b c ≡ get_elem? a c

  -- The same timers, placed if they were.
  pub record Rearranged (a b : List (Timer C)) : Type κ where
    pub sized : length b ≡ length a
    pub same : SameTimers b a
    pub placed : IsPlaced a → IsPlaced b

  pub Rearranged-refl : (a : List (Timer C)) → Rearranged a a
  Rearranged-refl a = record { sized = refl; same = λ p. refl; placed = λ h. h }

  pub Rearranged-trans : {a b c : List (Timer C)} → Rearranged a b → Rearranged b c → Rearranged a c
  Rearranged-trans r s = record {
    sized = s.sized ∙ r.sized;
    same = λ p. s.same p ∙ r.same p;
    placed = λ h. s.placed (r.placed h);
  }

  pub Rearranged-step :
      {a b c : List (Timer C)} {i j : ℕ} → Exchanged a i j b → Rearranged b c → Rearranged a c
  Rearranged-step x r = record {
    sized = r.sized ∙ x.sized;
    same = λ p. r.same p ∙ x.same p;
    placed = λ h. r.placed (x.placed h);
  }

  rise-UpInvariant :
      (n : ℕ) (a b : List (Timer C)) (j : ℕ)
      → UpInvariant n a j
      → 0 < j
      → ltb_ℤ (key a j) (key a (parent j)) ≡ true
      → Exchanged a (parent j) j b
      → UpInvariant n b (parent j)
  rise-UpInvariant n a b j v pos below x = record {
    inside = omega (arith, v.inside);
    edges = λ c p q r. ground (arith, v.edges c, v.across c, v.inside, x.keys c, x.keys (parent c));
    across = λ c p q r s.
        ground
          (arith, v.edges c, v.edges (parent j), v.across c, x.keys c, x.keys (parent (parent j)));
  }

  up_loop_restores :
      (fuel n : ℕ) (a : List (Timer C)) (j : ℕ)
      → j < fuel
      → n ≤ length a
      → UpInvariant n a j
      → Returns (λ b. IsHeap n b × SameBeyond n a b × Rearranged a b) (up_loop fuel a j)
  unfolding up_loop
  up_loop_restores zero n a j f e v = absurd (omega arith)
  up_loop_restores (suc fuel) n a j f e v = elim (Bool-cases (parent j == j)) [
    | inl root ↦
        rw root (returns ((λ c p q. ground (arith, v.edges c)), (λ c h. refl), Rearranged-refl a))
    | inr inner ↦
        rw (inner, less-ok a j (parent j) (omega (arith, v.inside)) (omega (arith, v.inside)))
          (elim (Bool-cases (ltb_ℤ (key a j) (key a (parent j)))) [
            | inl below ↦ rw below (
                Returns-bind
                  (swap_correct a (parent j) j (omega (arith, v.inside)) (omega (arith, v.inside)))
                  λ b x.
                    Returns-map
                      (up_loop_restores fuel n b (parent j) (ground arith) (rw x.sized e)
                        (rise-UpInvariant n a b j v (ground arith) below x))
                      λ c (h, beyond, r). (
                        h,
                        (λ d q.
                            beyond d q
                            ∙ x.others d (omega (arith, v.inside)) (omega (arith, v.inside))),
                        Rearranged-step x r,
                      ))
            | inr above ↦
                rw above
                  (returns ((λ c p q. ground (arith, v.edges c)), (λ c h. refl), Rearranged-refl a))
          ])
  ]

  -- `up` puts the first `n` timers in order and keeps the timers.
  pub up_restores :
      (n : ℕ) (a : List (Timer C)) (j : ℕ)
      → n ≤ length a
      → UpInvariant n a j
      → Returns (λ b. IsHeap n b × SameBeyond n a b × Rearranged a b) (up a j)
  unfolding up
  up_restores n a j e v = up_loop_restores (j + 1) n a j (omega arith) e v

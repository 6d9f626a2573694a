-- ===== src/Container/Queue/Methods.antt =====
-- Methods of common/container/queue.go: what each does to the elements, and the invariant.
use go_tools.Base.{
  ℕ, suc, ◌+◌, ◌-◌, ◌/◌, ◌≤◌, ◌<◌, ◌≡◌, refl, ap, ◌∙◌, ◌⊎◌, inl, inr, List, [], ◌∷◌, ◌++◌, ok,
  arith, ◌>>=◌, Returns, returns, Returns-bind, Bool-cases, get_elem?, some, if◌then◌else◌, sym,
  ltb, leb, ltb→lt, le→leb, length, set, take, drop, replicate, length-set, length-replicate,
  drop_uncons, drop-set_before, ◌&&◌, false,
}
use native.Mathlib.Nat.{sub-zero}
use go_tools.Container.Queue.{
  Queue, new_queue, clear, copy, slice, store, size, value, grown, expend, shrunk, shrink, push,
  pop, IsValid, contents, init_capacity,
}
use go_tools.Container.Queue.Slices.{
  length-copy, take-copy, slice-ok, length-window, store-ok, window-set, value_loop-ok,
}

-- `q` is valid and holds exactly `xs`, in order.
abbrev pub Holds {ℓ} : {A : Type ℓ} → List A → Queue A → Type ℓ
Holds xs q = IsValid q × (contents q ≡ xs)

grown_gt : (c : ℕ) → init_capacity ≤ c → c < grown c
grown_gt c h = ground arith

module _ {ℓ} {A : Type ℓ} where
  module _ (q : Queue A) (v : IsValid q) where
    window-ok : slice q.slots q.begin q.end ≡ ok (contents q)
    window-ok = slice-ok q.slots q.begin q.end v.ordered (omega (arith, v.sized, v.within))

    pub length-contents : length (contents q) ≡ q.end - q.begin
    length-contents = length-window q.slots q.begin q.end (omega (arith, v.sized, v.within))

    -- Copying the elements to the front of a slice that has room for them keeps them.
    moved-Holds :
        (dst : List A) (n m : ℕ)
        → length dst ≡ n
        → init_capacity ≤ n
        → length (contents q) ≡ m
        → m ≤ n
        → Holds
            (contents q)
            (record { slots = copy dst (contents q); begin = 0; end = m; capacity = n })
    moved-Holds dst n m e r f h = (
      record {
        sized = length-copy dst (contents q) ∙ e;
        ordered = omega arith;
        within = h;
        roomy = r;
      },
      rw sub-zero (take-copy m dst (contents q) f (omega arith)),
    )

  module _ (z : A) where
    -- Growing keeps the elements, and leaves room for one more behind them.
    pub expend-Holds :
        (q : Queue A)
        → IsValid q
        → q.capacity ≤ q.end
        → Returns (λ r. Holds (contents q) r × (r.end < r.capacity)) (expend z q)
    unfolding expend
    expend-Holds q v full =
        let size : length (contents q) ≡ q.end - q.begin = length-contents q v in
        let room : length (contents q) ≤ q.capacity = omega (arith, v.within) in
        let more = grown_gt q.capacity v.roomy in
        rw (window-ok q v) (elim (Bool-cases (ltb 0 q.begin)) [
          | inl e ↦ rw e (
              returns (
                moved-Holds q v q.slots q.capacity _ v.sized v.roomy size (omega arith),
                omega (arith, v.within, v.ordered, v.roomy, ltb→lt 0 q.begin e),
              ))
          | inr e ↦
              let start : q.begin ≡ 0 = ground arith in
              let whole =
                slice-ok q.slots (length (contents q)) q.end (omega arith)
                  (omega (arith, v.sized, v.within)) in
              rw (e, whole)
                (returns (
                  moved-Holds q v (replicate (grown q.capacity) z) (grown q.capacity) _
                      (length-replicate _ z) (omega (arith, v.roomy)) refl (omega arith),
                  omega arith,
                ))
        ])

    shrunk_fits :
        (c n : ℕ)
        → n ≤ c / 4
        → init_capacity < c
        → (init_capacity ≤ shrunk c) × (n ≤ shrunk c) × (shrunk c < c)
    shrunk_fits c n h k = ground arith

    pub shrink-Holds : (q : Queue A) → IsValid q → Returns (λ r. Holds (contents q) r) (shrink z q)
    unfolding shrink
    shrink-Holds q v =
        elim (Bool-cases (leb (q.end - q.begin) (q.capacity / 4) && ltb init_capacity q.capacity)) [
          | inl e ↦
              let fits = shrunk_fits q.capacity (q.end - q.begin) (ground arith) (ground arith) in
              rw (e, window-ok q v)
                (returns (
                  moved-Holds q v (replicate (shrunk q.capacity) z) (shrunk q.capacity) _
                    (length-replicate _ z) fits.0 (length-contents q v) fits.1))
          | inr e ↦ rw e (returns (v, refl))
        ]

    -- Push returns, and puts the value behind all others.
    pub push_correct :
        (q : Queue A) (x : A) → IsValid q → Returns (Holds (contents q ++ x ∷ [])) (push z q x)
    unfolding push
    push_correct q x v = Returns-bind room λ r (h, free). stored r h free
      where
        room :
            Returns
              (λ r. Holds (contents q) r × (r.end < r.capacity))
              (if leb q.capacity q.end then expend z q else ok q)
        room = elim (Bool-cases (leb q.capacity q.end)) [
          | inl e ↦ rw e (expend-Holds q v (ground arith))
          | inr e ↦ rw e (returns ((v, refl), ground arith))
        ]

        stored :
            (r : Queue A)
            → Holds (contents q) r
            → r.end < r.capacity
            → Returns (Holds (contents q ++ x ∷ [])) (
                store r.slots r.end x >>= λ slots. ok (record r { slots = slots; end = r.end + 1 }))
        stored r (w, same) free =
            let inside : r.end < length r.slots = omega (arith, w.sized) in
            rw (store-ok r.slots r.end x inside) (
              returns (
                record {
                  sized = length-set r.slots r.end x ∙ w.sized;
                  ordered = omega (arith, w.ordered);
                  within = omega arith;
                  roomy = w.roomy;
                },
                rw (window-set r.slots r.begin r.end x w.ordered inside, same),
              ))

    -- Pop of an empty queue gives the zero value and changes nothing.
    pub pop-empty : (q : Queue A) → IsValid q → contents q ≡ [] → pop z q ≡ ok (z, q)
    unfolding pop size
    pop-empty q v e =
        let none_left : q.end - q.begin ≡ 0 = sym (length-contents q v) ∙ ap length e in
        rw (none_left)

    -- What Pop leaves before it shrinks.
    abbrev popped : Queue A → Queue A
    popped q = record q { slots = set q.slots q.begin z; begin = q.begin + 1 }

    popped-Holds :
        (q : Queue A) (x : A) (xs : List A)
        → IsValid q
        → contents q ≡ x ∷ xs
        → (get_elem? q.slots q.begin ≡ some x) × Holds xs (popped q)
    popped-Holds q x xs v e =
        let some_left : q.end - q.begin ≡ suc (length xs) =
          sym (length-contents q v) ∙ ap length e in
        let inside : q.begin < length q.slots = omega (arith, v.sized, v.within) in
        let (y, got, split) = drop_uncons q.begin q.slots inside in
        let both : y ∷ take (length xs) (drop (suc q.begin) q.slots) ≡ x ∷ xs =
          rw (split, some_left) at e in
        let next : q.begin + 1 ≡ suc q.begin = omega arith in
        let fewer : q.end - suc q.begin ≡ length xs = omega arith in
        (
          got ∙ cc,
          (
            record {
              sized = length-set q.slots q.begin z ∙ v.sized;
              ordered = omega arith;
              within = v.within;
              roomy = v.roomy;
            },
            rw (next, fewer, drop-set_before) (cc),
          ),
        )

    -- Pop of any other queue returns, with the first value, and leaves the others in order.
    pub pop_correct :
        (q : Queue A) (x : A) (xs : List A)
        → IsValid q
        → contents q ≡ x ∷ xs
        → Returns (λ (y, r). (y ≡ x) × Holds xs r) (pop z q)
    unfolding pop size
    pop_correct q x xs v e =
        let some_left : q.end - q.begin ≡ suc (length xs) =
          sym (length-contents q v) ∙ ap length e in
        let inside : q.begin < length q.slots = omega (arith, v.sized, v.within) in
        let (got, h) = popped-Holds q x xs v e in
        let busy : leb (q.end - q.begin) 0 ≡ false = ground arith in
        rw (busy, got, store-ok q.slots q.begin z inside)
          (elim (Bool-cases (leb (q.capacity / 2) (q.begin + 1))) [
            | inl e ↦ rw e (
                Returns-bind (shrink-Holds (popped q) h.0)
                  λ r (w, same). returns (refl, (w, same ∙ h.1)))
            | inr e ↦ rw e (returns (refl, h))
          ])

    -- The memory rule: after a Pop that took a value, the queue has the smallest capacity, or fills
    -- more than a quarter of it, or has its first element in the first half.
    pub pop_compact :
        (q : Queue A) (x : A) (xs : List A)
        → IsValid q
        → contents q ≡ x ∷ xs
        → Returns
            (λ (_, r).
              (r.capacity ≡ init_capacity)
              ⊎ ((r.capacity / 4 < size r) ⊎ (r.begin < r.capacity / 2)))
            (pop z q)
    unfolding pop shrink
    pop_compact q x xs v e =
        let some_left : q.end - q.begin ≡ suc (length xs) =
          sym (length-contents q v) ∙ ap length e in
        let inside : q.begin < length q.slots = omega (arith, v.sized, v.within) in
        let busy : leb (q.end - q.begin) 0 ≡ false = ground arith in
        let (got, (w, _)) = popped-Holds q x xs v e in
        rw (busy, got, store-ok q.slots q.begin z inside)
          (elim (Bool-cases (leb (q.capacity / 2) (q.begin + 1))) [
            | inr e ↦ rw e (returns (inr (inr (ground arith))))
            | inl e ↦
                rw e
                  (elim (Bool-cases (
                    leb (q.end - (q.begin + 1)) (q.capacity / 4) && ltb init_capacity q.capacity)) [
                      | inl f ↦
                          rw (f, window-ok (popped q) w)
                            (returns (inr (inr (ground (arith, v.roomy)))))
                      | inr f ↦ rw f (returns (ground (arith, v.roomy)))
                    ])
          ])

  -- Value lists the elements, and Size counts them.
  pub value_correct :
      (q : Queue A) → IsValid q → (value q ≡ ok (contents q)) × (size q ≡ length (contents q))
  unfolding value
  value_correct q v = (
    rw (le→leb _ _ v.ordered) (
        value_loop-ok q.slots (q.end - q.begin) q.begin
          (omega (arith, v.ordered, v.sized, v.within))),
    sym (length-contents q v),
  )

  -- NewQueue and Clear give an empty queue.
  pub new_queue-Holds : (z : A) → Holds [] (new_queue z)
  unfolding new_queue
  new_queue-Holds z = (omega arith, refl)

  pub clear-Holds : (z : A) (q : Queue A) → Holds [] (clear z q)
  unfolding clear
  clear-Holds z q = (omega arith, refl)

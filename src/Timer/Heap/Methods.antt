-- ===== src/Timer/Heap/Methods.antt =====
-- container/heap on the timers of common/timer/timer.go: Push, Pop and Remove.
use go_tools.Base.{
  Option, true, ℕ, zero, suc, ◌+◌, ◌-◌, ◌≡◌, ◌≤◌, ◌<◌, refl, sym, ◌∙◌, List, [], ◌∷◌, ◌++◌, length,
  get_elem?, take, false, some, panic, Returns, returns, Returns-bind, Returns-map, Bool-cases, inl,
  inr, ltb, leb, le→leb, ◌==◌, arith, length-append, length-take,
}
use go_tools.Base.Int.{pos, negsuc}
use go_tools.Timer.{
  Timer, TimerQueue, push_back, pop_back, down, down_loop, heap_push, heap_pop, unseat, heap_remove,
}
use go_tools.Timer.Heap.Access.{core, key, ◌≤ℤ◌, swap_correct, Exchanged, SameTimers, IsPlaced}
use go_tools.Timer.Heap.Order.{parent, IsHeap, IsHeapBut, root-least}
use go_tools.Timer.Heap.Up.{
  UpInvariant, up_restores, Rearranged, Rearranged-refl, Rearranged-step, Rearranged-trans,
  SameBeyond,
}
use go_tools.Timer.Heap.Down.{down_correct}
use go_tools.Timer.Heap.Ends.{
  get_elem?_inside, get_elem?-append_last, count-append_last, get_elem?-take, count-take,
}

add-sub_one : (n : ℕ) → n + 1 - 1 ≡ n
add-sub_one n = omega arith

module _ {κ} {C : Type κ} where
  -- The timers are in the order of a heap, each knows its place, and they fit in the slice.
  pub record IsValid (tq : TimerQueue C) : Type κ where
    pub ordered : IsHeap (length tq.items) tq.items
    pub placed : IsPlaced tq.items
    pub fits : length tq.items ≤ tq.room

  -- What a push leaves.
  abbrev pub Added : TimerQueue C → Timer C → TimerQueue C → Type κ
  Added tq timer tq' =
      IsValid tq'
      × SameTimers tq'.items (timer ∷ tq.items)
      × (length tq'.items ≡ length tq.items + 1)
      × (tq'.room ≡ tq.room)

  appended-UpInvariant :
      (a : List (Timer C)) (t : Timer C)
      → IsHeap (length a) a
      → UpInvariant (length a + 1) (a ++ t ∷ []) (length a)
  appended-UpInvariant a t h = record {
    inside = omega arith;
    edges = λ c p q r.
        ground (arith, h c, get_elem?-append_last a t c, get_elem?-append_last a t (parent c));
    across = λ c p q r s. absurd (omega arith);
  }

  -- A push into a valid heap that has room returns: the heap holds the timers and the new one, in heap
  -- order, and each knows its place.
  pub heap_push_correct :
      (tq : TimerQueue C) (timer : Timer C)
      → IsValid tq
      → length tq.items < tq.room
      → Returns (Added tq timer) (heap_push tq timer)
  unfolding heap_push push_back
  heap_push_correct tq timer v room =
      let t : Timer C = record timer { index = pos (length tq.items) } in
      let a : List (Timer C) = tq.items ++ t ∷ [] in
      let size : length a ≡ length tq.items + 1 = length-append tq.items (t ∷ []) in
      let invariant : UpInvariant (length a) a (length a - 1) =
        rw (size, add-sub_one) (appended-UpInvariant tq.items t v.ordered) in
      let known : IsPlaced a =
        λ i u e. ground (arith, get_elem?-append_last tq.items t i, v.placed i u) in
      rw (le→leb (length tq.items + 1) tq.room (omega arith)) (
        Returns-bind (up_restores (length a) a (length a - 1) (omega arith) invariant)
          λ b (h, beyond, r). returns (
            record {
              ordered = rw r.sized h;
              placed = r.placed known;
              fits = omega (arith, r.sized);
            },
            (λ p. r.same p ∙ count-append_last p tq.items t),
            r.sized ∙ size,
            refl,
          ))

  -- A push beyond the capacity panics.
  pub heap_push_full :
      (tq : TimerQueue C) (timer : Timer C) → tq.room ≤ length tq.items → heap_push tq timer ≡ panic
  unfolding heap_push push_back
  heap_push_full tq timer full =
      let no : leb (length tq.items + 1) tq.room ≡ false = ground arith in rw no refl

  -- What a removal leaves, where `x` was taken out.
  abbrev pub Removed : TimerQueue C → Timer C → Timer C × TimerQueue C → Type κ
  Removed tq x (t, tq') =
      IsValid tq'
      × (core t ≡ core x)
      × (t.index ≡ negsuc 0)
      × SameTimers (t ∷ tq'.items) tq.items
      × (length tq'.items + 1 ≡ length tq.items)
      × (tq'.room ≡ tq.room)

  -- The same, of a result that may be nil.
  pub data Yields (P : Timer C × TimerQueue C → Type κ)
      : Option (Timer C) × TimerQueue C → Type κ where
    yields : {t : Timer C} {tq : TimerQueue C} → P (t, tq) → Yields P (some t, tq)

  pub yielded :
      (P : Timer C × TimerQueue C → Type κ) (r : Option (Timer C) × TimerQueue C)
      → Yields P r
      → (t : Timer C) × (r.0 ≡ some t) × P (t, r.1)
  yielded P r (yields {t} {tq} h) = (t, refl, h)

  -- The last timer is dropped after the others are in order.
  pop_back_correct :
      (tq : TimerQueue C) (b : List (Timer C)) (n : ℕ) (x last : Timer C)
      → length tq.items ≡ suc n
      → IsValid tq
      → IsHeap n b
      → Rearranged tq.items b
      → get_elem? b n ≡ some last
      → core last ≡ core x
      → Returns (Yields (Removed tq x)) (pop_back (record tq { items = b }))
  unfolding pop_back
  pop_back_correct tq b n x last size v h r at_n same =
      let width : length b ≡ suc n = r.sized ∙ size in
      let at : length b - 1 ≡ n = omega arith in
      let short : length (take n b) ≡ n = omega (arith, length-take n b) in
      let busy : (length b == 0) ≡ false = ground arith in
      rw (busy, at, at_n)
        (returns (
          yields (
            record {
              ordered = rw short (λ c p q.
                  ground (arith, h c, get_elem?-take n b c, get_elem?-take n b (parent c)));
              placed = λ i t e. ground (arith, get_elem?-take n b i, r.placed v.placed i t, e);
              fits = omega (arith, v.fits);
            },
            same,
            refl,
            (λ p. omega (arith, count-take p n b last width at_n, r.same p)),
            omega arith,
            refl,
          )))

  order_kept_elsewhere :
      (a b : List (Timer C)) (i n : ℕ)
      → IsHeap (suc n) a
      → i ≤ n
      → Exchanged a i n b
      → IsHeapBut n b i
  order_kept_elsewhere a b i n h le x = record {
    edges = λ c p q r s. ground (arith, h c, x.keys c, x.keys (parent c));
    across = λ c p q r s. ground (arith, h c, h i, x.keys c, x.keys (parent i));
  }

  settled_root : (n : ℕ) (b : List (Timer C)) → UpInvariant n b 0 → IsHeap n b
  settled_root n b v c p q = v.edges c p q (omega arith)

  -- `down` from the root, of any number of timers.
  down_root :
      (n : ℕ) (b : List (Timer C))
      → n ≤ length b
      → IsHeapBut n b 0
      → Returns (λ (d, _). IsHeap n d × SameBeyond n b d × Rearranged b d) (down b 0 n)
  unfolding down down_loop
  down_root zero b e h = returns ((λ c p q. absurd (omega arith)), (λ c q. refl), Rearranged-refl b)
  down_root (suc n) b e h =
      Returns-map (down_correct (suc n) b 0 e (omega arith) h) λ (d, moved) (beyond, r, s).
        (elim s [ inl (m, w) ↦ w | inr (m, w) ↦ settled_root (suc n) d w ], beyond, r)

  -- The timer ends first among those of the queue.
  abbrev pub EndsFirst : TimerQueue C → Timer C → Type 0
  EndsFirst tq t = (i : ℕ) → i < length tq.items → t.end ≤ℤ key tq.items i

  first_yielded :
      (tq : TimerQueue C) (x : Timer C)
      → IsValid tq
      → get_elem? tq.items 0 ≡ some x
      → (r : Option (Timer C) × TimerQueue C) → Yields (Removed tq x) r
      → Yields (λ (t, tq'). EndsFirst tq t × Removed tq x (t, tq')) r
  first_yielded tq x v at_0 r (yields {t} {tq = tq'} d) =
      let first : key tq.items 0 ≡ t.end = cc in
      yields ((λ i p. rw (sym first) (root-least (length tq.items) tq.items i v.ordered p)), d)

  -- A pop of a valid heap with a first timer returns that timer, which ends first and has index -1, and
  -- leaves the others in heap order, each with its place.
  pub heap_pop_correct :
      (tq : TimerQueue C) (x : Timer C)
      → IsValid tq
      → get_elem? tq.items 0 ≡ some x
      → Returns (Yields (λ (t, tq'). EndsFirst tq t × Removed tq x (t, tq'))) (heap_pop tq)
  unfolding heap_pop
  heap_pop_correct tq x v at_0 =
      let n = length tq.items - 1 in
      let some_left : length tq.items ≡ suc n = omega (arith, get_elem?_inside tq.items 0 x at_0) in
      Returns-bind (swap_correct tq.items 0 n (omega arith) (omega arith)) λ a ex.
        let (last, at_n, same) = ex.carried x at_0 in
        let h =
          order_kept_elsewhere tq.items a 0 n (rw (sym some_left) v.ordered) (omega arith) ex in
        Returns-bind (down_root n a (omega (arith, ex.sized)) h) λ (b, m) (w, beyond, r).
          Returns-map
            (pop_back_correct tq b n x last some_left v w (Rearranged-step ex r)
              (beyond n (omega arith) ∙ at_n) same)
            (first_yielded tq x v at_0)

  unseat_correct :
      (a : List (Timer C)) (x : Timer C) (i n : ℕ)
      → length a ≡ suc n
      → IsHeap (suc n) a
      → i < n
      → get_elem? a i ≡ some x
      → Returns
          (λ b.
            IsHeap n b
            × Rearranged a b
            × (last : Timer C) × (get_elem? b n ≡ some last)
            × (core last ≡ core x))
          (unseat a i n)
  unfolding unseat
  unseat_correct a x i n size h lt at_i =
      Returns-bind (swap_correct a i n (omega arith) (omega arith)) λ b ex.
        let (last, at_n, same) = ex.carried x at_i in
        let but = order_kept_elsewhere a b i n h (omega arith) ex in
        Returns-bind (down_correct n b i (omega (arith, ex.sized)) lt but)
          λ (d, moved) (beyond, r, s). elim s [
            | inl (m, w) ↦
                rw m (returns (w, Rearranged-step ex r, last, beyond n (omega arith) ∙ at_n, same))
            | inr (m, w) ↦ rw m (
                Returns-map (up_restores n d i (omega (arith, ex.sized, r.sized)) w)
                  λ f (o, beyond', r'). (
                    o,
                    Rearranged-step ex (Rearranged-trans r r'),
                    last,
                    beyond' n (omega arith) ∙ beyond n (omega arith) ∙ at_n,
                    same,
                  ))
          ]

  -- A removal at a place of a valid heap where a timer stands returns that timer, with index -1, and
  -- leaves the others in heap order, each with its place.
  pub heap_remove_correct :
      (tq : TimerQueue C) (i : ℕ) (x : Timer C)
      → IsValid tq
      → get_elem? tq.items i ≡ some x
      → Returns (Yields (Removed tq x)) (heap_remove tq i)
  unfolding heap_remove
  heap_remove_correct tq i x v at_i =
      let n = length tq.items - 1 in
      let inside = get_elem?_inside tq.items i x at_i in
      let some_left : length tq.items ≡ suc n = omega arith in
      let busy : ltb 0 (length tq.items) ≡ true = ground arith in
      rw busy (elim (Bool-cases (n == i)) [
        | inl e ↦
            let same_place : n ≡ i = ground arith in
            let at : get_elem? tq.items n ≡ some x = rw same_place at_i in
            rw e (
              pop_back_correct tq tq.items n x x some_left v (λ c p q. v.ordered c p (omega arith))
                (Rearranged-refl tq.items) at refl)
        | inr e ↦ rw e (
            Returns-bind
              (unseat_correct tq.items x i n some_left (rw (sym some_left) v.ordered) (ground arith)
                at_i)
              λ b (w, r, last, at_n, same).
                pop_back_correct tq b n x last some_left v w r at_n same)
      ])

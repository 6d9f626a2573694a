-- ===== src/Timer/Manager/Collect.antt =====
-- The first loop of Run in common/timer/timer_manager.go.
use go_tools.Base.{
  or_panic, ℕ, suc, ◌+◌, ◌%◌, ◌≡◌, ◌≤◌, ◌<◌, refl, ◌⊎◌, List, [], ◌∷◌, ◌++◌, map, length, get_elem?,
  Bool, true, false, ◌&&◌, Option, some, none, ok, ◌>>=◌, Returns, returns, Returns-map, Bool-cases,
  inl, inr, if◌then◌else◌, arith,
}
use mathlib.Core.List.{append-nil}
use go_tools.Base.Int.{ℤ, pos, ltb_ℤ, leb_ℤ, add64, pos_part}
use go_tools.Container.Queue.{Queue, contents, push, size}
use go_tools.Timer.{Timer, TimerQueue, heap_pop}
use go_tools.Timer.Heap.Access.{Core, core, count, weight, ◌≤ℤ◌}
use go_tools.Timer.Heap.Methods
use go_tools.Timer.Heap.Order.{IsHeap, root-least}
use go_tools.Timer.Heap.Ends.{get_elem?_inside}
use go_tools.Timer.Heap.Methods.{heap_push_correct, EndsFirst}
use go_tools.Timer.Manager.{TimerManager, renew, collect, two_pow_32}
use go_tools.Timer.Manager.Laws.{IsValid}

module _ {κ} {C : Type κ} where
  abbrev pub is_due : ℤ → Core C → Bool
  is_due now c = leb_ℤ c.end now

  abbrev pub is_early : ℤ → Core C → Bool
  is_early m c = ltb_ℤ c.end m

  -- Counted from now, the interval of the timer does not lead into the future.
  abbrev pub is_stuck : ℤ → Core C → Bool
  is_stuck now c = ltb_ℤ (pos 0) c.interval && leb_ℤ (add64 now c.interval) now

  -- The timers that go back into the heap, with their new ends.
  abbrev pub renewals : ℤ → List (Timer C) → List (Timer C)
  renewals now [] = []
  renewals now (t ∷ l) =
      if ltb_ℤ (pos 0) t.interval
      then record t { end = add64 now t.interval } ∷ renewals now l
      else renewals now l

  -- In the order of their ends, from `m` on.
  abbrev pub Ascends : ℤ → List (Timer C) → Type 0
  Ascends m [] = Unit
  Ascends m (t ∷ l) = (m ≤ℤ t.end) × Ascends t.end l

  -- What the loop makes of a manager: it moves the timers `fired` behind those that waited.
  pub record Collected (now limit : ℤ) (tm : TimerManager C) (waiting fired : List (Timer C))
      (tm' : TimerManager C) : Type κ where
    pub valid : IsValid tm'
    pub same_id : tm'.id ≡ tm.id
    pub line : contents tm'.queue ≡ map some (waiting ++ fired)
    pub all_due : count (is_due now) fired ≡ length fired
    pub few : length fired ≤ count (is_due now) tm.tq.items
    pub kept :
        (p : Core C → Bool)
        → count p fired + count p tm'.tq.items ≡ count p (renewals now fired) + count p tm.tq.items
    pub stopped :
        (count (is_due now) tm'.tq.items ≡ 0)
        ⊎ ((ltb_ℤ (pos 0) limit ≡ true) × (leb_ℤ limit (pos (length (waiting ++ fired))) ≡ true))
    pub within : length waiting < pos_part limit → length (waiting ++ fired) ≤ pos_part limit
    pub ordered : (m : ℤ) → count (is_early m) tm.tq.items ≡ 0 → Ascends m fired

  count_none :
      (p : Core C → Bool) (a : List (Timer C))
      → ((i : ℕ) (t : Timer C) → get_elem? a i ≡ some t → p (core t) ≡ false)
      → count p a ≡ 0
  count_none p [] h = refl
  count_none p (t ∷ a) h =
      let first : p (core t) ≡ false = h 0 t refl in
      let rest = count_none p a (λ i u e. h (suc i) u e) in rw first (omega arith)

  pub renewals-append :
      (p : Core C → Bool) (now : ℤ) (t : Timer C) (l : List (Timer C))
      → count p (renewals now (t ∷ l)) ≡ count p (renewals now (t ∷ [])) + count p (renewals now l)
  renewals-append p now t l = elim (Bool-cases (ltb_ℤ (pos 0) t.interval)) [
    | inl e ↦ rw e (omega arith)
    | inr e ↦ rw e (omega arith)
  ]

  pub renew_correct :
      (now : ℤ) (tq : TimerQueue C) (t : Timer C)
      → Methods.IsValid tq
      → length tq.items < tq.room
      → Returns
          (λ tq'.
            Methods.IsValid tq'
            × ((p : Core C → Bool)
                → count p tq'.items ≡ count p (renewals now (t ∷ [])) + count p tq.items))
          (renew now tq t)
  unfolding renew
  renew_correct now tq t v room = elim (Bool-cases (ltb_ℤ (pos 0) t.interval)) [
    | inl e ↦ rw e (
        Returns-map (heap_push_correct tq (record t { end = add64 now t.interval }) v room)
          λ tq' (w, same, _, _). (w, λ p. omega (arith, same p)))
    | inr e ↦ rw e (returns (v, λ p. omega arith))
  ]

  -- What one round finds and leaves, where the first timer is due.
  module _ (now : ℤ) (t : Timer C) (due : leb_ℤ t.end now ≡ true)
      (runs : weight (is_stuck now) t ≡ 0) where
    pub renewed-waits : count (is_due now) (renewals now (t ∷ [])) ≡ 0
    renewed-waits = elim (Bool-cases (ltb_ℤ (pos 0) t.interval)) [
      | inl e ↦ rw e (ground arith)
      | inr e ↦ rw e refl
    ]

    pub renewed-runs : count (is_stuck now) (renewals now (t ∷ [])) ≡ 0
    renewed-runs = elim (Bool-cases (ltb_ℤ (pos 0) t.interval)) [
      | inl e ↦ rw e (ground arith)
      | inr e ↦ rw e refl
    ]

    pub renewed-late : count (is_early t.end) (renewals now (t ∷ [])) ≡ 0
    renewed-late = elim (Bool-cases (ltb_ℤ (pos 0) t.interval)) [
      | inl e ↦ rw e (ground arith)
      | inr e ↦ rw e refl
    ]

  -- Nothing is due where the first timer of the heap is not.
  pub root_waits :
      (now : ℤ) (a : List (Timer C)) (x : Timer C)
      → IsHeap (length a) a
      → get_elem? a 0 ≡ some x
      → ltb_ℤ now x.end ≡ true
      → count (is_due now) a ≡ 0
  root_waits now a x h at_0 late = count_none (is_due now) a λ i t at_i.
      ground (arith, root-least (length a) a i h (get_elem?_inside a i t at_i), at_0, at_i)

  pub root_early :
      (tq : TimerQueue C) (t : Timer C) → EndsFirst tq t → count (is_early t.end) tq.items ≡ 0
  root_early tq t first =
      count_none (is_early t.end) tq.items
        λ i u at_i. ground (arith, first i (get_elem?_inside tq.items i u at_i), at_i)

  -- The loop ends here: nothing is due, or the limit is reached.
  pub Collected-end :
      (now limit : ℤ) (tm : TimerManager C) (waiting : List (Timer C))
      → IsValid tm
      → contents tm.queue ≡ map some waiting
      → ((count (is_due now) tm.tq.items ≡ 0)
          ⊎ ((ltb_ℤ (pos 0) limit ≡ true) × (leb_ℤ limit (pos (length waiting)) ≡ true)))
      → Collected now limit tm waiting [] tm
  Collected-end now limit tm waiting v line reason = record {
    valid = v;
    same_id = refl;
    line = rw append-nil line;
    all_due = refl;
    few = omega arith;
    kept = λ p. refl;
    stopped = rw append-nil reason;
    within = λ h. rw append-nil (omega arith);
    ordered = λ m h. tt;
  }

  pub collect_empty :
      (fuel : ℕ) (now limit : ℤ) (check_count : ℕ) (tm : TimerManager C)
      → tm.tq.items ≡ []
      → collect (suc fuel) now limit check_count tm ≡ ok (check_count, tm)
  unfolding collect
  collect_empty fuel now limit check_count tm e = rw e refl

  pub collect_waits :
      (fuel : ℕ) (now limit : ℤ) (check_count : ℕ) (tm : TimerManager C) (x : Timer C)
      (rest : List (Timer C))
      → tm.tq.items ≡ x ∷ rest
      → ltb_ℤ now x.end ≡ true
      → collect (suc fuel) now limit check_count tm ≡ ok ((check_count + 1) % two_pow_32, tm)
  unfolding collect
  collect_waits fuel now limit check_count tm x rest e late = rw (e, late) refl

  -- The manager after a timer has been moved.
  abbrev pub moved : TimerManager C → TimerQueue C → Queue (Option (Timer C)) → TimerManager C
  moved tm tq queue = record tm { tq = tq; queue = queue }

  pub collect_moves :
      (fuel : ℕ) (now limit : ℤ) (check_count : ℕ) (tm : TimerManager C) (x : Timer C)
      (rest : List (Timer C))
      → tm.tq.items ≡ x ∷ rest
      → ltb_ℤ now x.end ≡ false
      → collect (suc fuel) now limit check_count tm ≡ (
          heap_pop tm.tq >>= λ (popped, tq). or_panic popped >>= λ timer.
          push none tm.queue (some timer) >>= λ queue. renew now tq timer >>= λ tq'.
          if ltb_ℤ (pos 0) limit && leb_ℤ limit (pos (size queue))
          then ok ((check_count + 1) % two_pow_32, moved tm tq' queue)
          else collect fuel now limit ((check_count + 1) % two_pow_32) (moved tm tq' queue))
  unfolding collect
  collect_moves fuel now limit check_count tm x rest e late = rw (e, late) refl

-- ===== src/Timer/Manager/Schedule.antt =====
-- Which timers the first loop of Run in common/timer/timer_manager.go moves, and in which order.
use mathlib.Core.List.{append_assoc, map-append}
use go_tools.Base.{
  none, Bool, ℕ, zero, suc, ◌+◌, ◌%◌, ◌≡◌, ◌≤◌, ◌<◌, refl, sym, ◌∙◌, ap, ◌⊎◌, List, [], ◌∷◌, ◌++◌,
  map, length, get_elem?, Bool, true, false, ◌&&◌, Option, some, none, Returns, returns,
  Returns-bind, Returns-map, Bool-cases, inl, inr, arith, length-append,
}
use go_tools.Base.Int.{ℤ, pos, ltb_ℤ, leb_ℤ, pos_part}
use go_tools.Container.Queue
use go_tools.Container.Queue.{Queue, contents, size}
use go_tools.Container.Queue.Methods.{Holds, push_correct, length-contents}
use go_tools.Timer.{Timer, TimerQueue}
use go_tools.Timer.Heap.Access.{Core, count, weight}
use go_tools.Timer.Heap.Methods
use go_tools.Timer.Heap.Methods.{yielded, heap_pop_correct, EndsFirst}
use go_tools.Timer.Manager.{TimerManager, collect, two_pow_32}
use go_tools.Timer.Manager.Laws.{IsValid}
use go_tools.Timer.Manager.Collect.{
  is_due, is_early, is_stuck, renewals, Collected, Collected-end, moved, root_waits, root_early,
  collect_empty, collect_waits, collect_moves, renew_correct, renewed-waits, renewed-runs,
  renewed-late, renewals-append,
}

length-map {κ} : {X Y : Type κ} (f : X → Y) (a : List X) → length (map f a) ≡ length a
length-map f [] = refl
length-map f (x ∷ a) = ap suc (length-map f a)

module _ {κ} {C : Type κ} where
  -- One round moved `t`, and left `tq` after its removal and `tq'` after its renewal.
  record Round (now : ℤ) (tm : TimerManager C) (t : Timer C) (tq tq' : TimerQueue C) : Type κ where
    due : leb_ℤ t.end now ≡ true
    runs : weight (is_stuck now) t ≡ 0
    first : EndsFirst tm.tq t
    taken : (p : Core C → Bool) → weight p t + count p tq.items ≡ count p tm.tq.items
    put_back :
        (p : Core C → Bool) → count p tq'.items ≡ count p (renewals now (t ∷ [])) + count p tq.items

  Collected-cons :
      (now limit : ℤ) (tm : TimerManager C) (t : Timer C) (tq tq' : TimerQueue C)
      (queue : Queue (Option (Timer C))) (waiting fired : List (Timer C)) (tm' : TimerManager C)
      → Round now tm t tq tq'
      → count (is_due now) tq'.items + 1 ≡ count (is_due now) tm.tq.items
      → Collected now limit (moved tm tq' queue) (waiting ++ t ∷ []) fired tm'
      → (length waiting < pos_part limit → length (waiting ++ t ∷ fired) ≤ pos_part limit)
      → Collected now limit tm waiting (t ∷ fired) tm'
  Collected-cons now limit tm t tq tq' queue waiting fired tm' r fewer_due d bound =
      let same : (waiting ++ t ∷ []) ++ fired ≡ waiting ++ t ∷ fired =
        append_assoc waiting (t ∷ []) fired in
      record {
        valid = d.valid;
        same_id = d.same_id;
        line = rw same at (d.line);
        all_due = let e = r.due in rw e (omega (arith, d.all_due));
        few = omega (arith, d.few);
        kept = λ p. omega (arith, renewals-append p now t fired, d.kept p, r.taken p, r.put_back p);
        stopped = rw same at (d.stopped);
        within = bound;
        ordered = λ m h. (
          ground (arith, r.taken (is_early m)),
          d.ordered t.end (
              omega (
                arith,
                r.taken (is_early t.end),
                r.put_back (is_early t.end),
                renewed-late now t r.due r.runs,
                root_early tm.tq t r.first,
              )),
        );
      }

  -- The fuel of the next round, and its freedom from timers that are due again at once.
  fewer_due_left :
      (now : ℤ) (tm : TimerManager C) (t : Timer C) (tq tq' : TimerQueue C)
      → Round now tm t tq tq'
      → count (is_stuck now) tm.tq.items ≡ 0
      → (count (is_stuck now) tq'.items ≡ 0)
        × (count (is_due now) tq'.items + 1 ≡ count (is_due now) tm.tq.items)
  fewer_due_left now tm t tq tq' r free =
      let e = r.due in
      let one : weight (is_due now) t ≡ 1 = rw e refl in
      (
        omega (
          arith,
          r.taken (is_stuck now),
          r.put_back (is_stuck now),
          renewed-runs now t r.due r.runs,
        ),
        omega (
          arith,
          one,
          r.taken (is_due now),
          r.put_back (is_due now),
          renewed-waits now t r.due r.runs,
        ),
      )

  pub size-length :
      (q : Queue (Option (Timer C))) (a : List (Timer C))
      → Queue.IsValid q
      → contents q ≡ map some a
      → size q ≡ length a
  unfolding size
  size-length q a v e = sym (length-contents q v) ∙ ap length e ∙ length-map some a

  -- The bound on what waits, where the loop goes on.
  room_left :
      (limit : ℤ) (queue : Queue (Option (Timer C))) (waiting : List (Timer C)) (t : Timer C)
      (fired : List (Timer C))
      → size queue ≡ length (waiting ++ t ∷ [])
      → (ltb_ℤ (pos 0) limit && leb_ℤ limit (pos (size queue))) ≡ false
      → (length (waiting ++ t ∷ []) < pos_part limit
          → length ((waiting ++ t ∷ []) ++ fired) ≤ pos_part limit)
      → length waiting < pos_part limit
      → length (waiting ++ t ∷ fired) ≤ pos_part limit
  room_left limit queue waiting t fired long go bound h =
      let more = length-append waiting (t ∷ []) in
      let less : length (waiting ++ t ∷ []) < pos_part limit = ground arith in
      rw (sym (append_assoc waiting (t ∷ []) fired)) (bound less)

  items_cases :
      (a : List (Timer C)) → (a ≡ []) ⊎ ((x : Timer C) × (rest : List (Timer C)) × (a ≡ x ∷ rest))
  items_cases [] = inl refl
  items_cases (x ∷ rest) = inr (x, rest, refl)

  -- What the pop of a timer shows.
  abbrev FirstRemoved : TimerQueue C → Timer C → Timer C × TimerQueue C → Type κ
  FirstRemoved tq x (t, tq') = EndsFirst tq t × Methods.Removed tq x (t, tq')

  -- What a round that moved `t` leaves.
  record RoundOutcome (now : ℤ) (tm : TimerManager C) (t : Timer C) (tq tq' : TimerQueue C)
      (queue : Queue (Option (Timer C))) (waiting : List (Timer C)) : Type κ where
    round : Round now tm t tq tq'
    line : contents queue ≡ map some (waiting ++ t ∷ [])
    valid : IsValid (moved tm tq' queue)
    long : size queue ≡ length (waiting ++ t ∷ [])

  round_outcome :
      (now : ℤ) (tm : TimerManager C) (x t : Timer C) (tq tq' : TimerQueue C)
      (queue : Queue (Option (Timer C))) (waiting : List (Timer C))
      → contents tm.queue ≡ map some waiting
      → count (is_stuck now) tm.tq.items ≡ 0
      → leb_ℤ x.end now ≡ true
      → EndsFirst tm.tq t
      → Methods.Removed tm.tq x (t, tq)
      → Holds (contents tm.queue ++ some t ∷ []) queue
      → Methods.IsValid tq'
        × ((p : Core C → Bool)
            → count p tq'.items ≡ count p (renewals now (t ∷ [])) + count p tq.items)
      → RoundOutcome now tm t tq tq' queue waiting
  round_outcome now tm x t tq tq' queue waiting line free due first (w, same, _, taken, _, _)
        (u, held) (w', put) =
      let same_end : t.end ≡ x.end = ap (λ c. c.end) same in
      let line' : contents queue ≡ map some (waiting ++ t ∷ []) =
        held ∙ ap (λ l. l ++ some t ∷ []) line ∙ sym (map-append some waiting (t ∷ [])) in
      record {
        round = record {
          due = rw same_end due;
          runs = omega (arith, taken (is_stuck now));
          first = first;
          taken = taken;
          put_back = put;
        };
        line = line';
        valid = record { heap = w'; line = u };
        long = size-length queue (waiting ++ t ∷ []) u line';
      }

  -- The first loop of Run on a valid manager ends, where the fuel exceeds the number of timers that are
  -- due and none of them is due again as soon as it is renewed. It moves only timers that are due, in the
  -- order of their ends, behind those that waited; renews those with an interval; loses no other; and
  -- stops only where none is due or the limit is reached, which it does not exceed.
  pub collect_correct :
      (fuel : ℕ) (now limit : ℤ) (check_count : ℕ) (tm : TimerManager C) (waiting : List (Timer C))
      → IsValid tm
      → contents tm.queue ≡ map some waiting
      → count (is_stuck now) tm.tq.items ≡ 0
      → count (is_due now) tm.tq.items < fuel
      → Returns
          (λ (_, tm'). (fired : List (Timer C)) × Collected now limit tm waiting fired tm')
          (collect fuel now limit check_count tm)
  collect_correct zero now limit check_count tm waiting v line free f = absurd (omega arith)
  collect_correct (suc fuel) now limit check_count tm waiting v line free f =
      elim (items_cases tm.tq.items) [
        | inl e ↦
            let none_due : count (is_due now) tm.tq.items ≡ 0 = rw e refl in
            rw (collect_empty fuel now limit check_count tm e)
              (returns ([], Collected-end now limit tm waiting v line (inl none_due)))
        | inr (x, rest, e) ↦
            let at_0 : get_elem? tm.tq.items 0 ≡ some x = rw e refl in
            elim (Bool-cases (ltb_ℤ now x.end)) [
              | inl late ↦ rw (collect_waits fuel now limit check_count tm x rest e late) (
                  returns (
                    [],
                    Collected-end now limit tm waiting v line
                        (inl (root_waits now tm.tq.items x v.heap.ordered at_0 late)),
                  ))
              | inr due ↦ rw (collect_moves fuel now limit check_count tm x rest e due) (
                  Returns-bind (heap_pop_correct tm.tq x v.heap at_0) λ (popped, tq) y.
                    let (t, found, both) = yielded (FirstRemoved tm.tq x) (popped, tq) y in
                    let (first, d) = both in
                    rw found (
                      Returns-bind (push_correct none tm.queue (some t) v.line) λ queue h.
                        Returns-bind
                          (renew_correct now tq t d.0 (omega (arith, v.heap.fits, d.4, d.5)))
                          λ tq' n.
                            let o =
                              round_outcome now tm x t tq tq' queue waiting line free (ground arith)
                                first d h n in
                            let (free', fewer_due) = fewer_due_left now tm t tq tq' o.round free in
                            let more = length-append waiting (t ∷ []) in
                            elim (Bool-cases
                              (ltb_ℤ (pos 0) limit && leb_ℤ limit (pos (size queue)))) [
                                | inl stop ↦ rw stop (
                                    returns (
                                      t ∷ [],
                                      Collected-cons now limit tm t tq tq' queue waiting [] _
                                          o.round fewer_due
                                          (Collected-end now limit _ _ o.valid o.line
                                            (inr (ground arith, rw (sym o.long) (ground arith))))
                                          (λ h. omega arith),
                                    ))
                                | inr go ↦ rw go (
                                    Returns-map
                                      (collect_correct fuel now limit
                                        ((check_count + 1) % two_pow_32) (moved tm tq' queue)
                                        (waiting ++ t ∷ []) o.valid o.line free' (omega arith))
                                      λ (c, tm') (fired, d). (
                                        t ∷ fired,
                                        Collected-cons now limit tm t tq tq' queue waiting fired tm'
                                            o.round fewer_due d
                                            (λ h.
                                              room_left limit queue waiting t fired o.long go
                                                d.within h),
                                      ))
                              ]))
            ]
      ]

-- ===== src/Timer/Manager/Laws.antt =====
-- AddTimer and RemoveTimer of common/timer/timer_manager.go.
use go_tools.Base.{
  ℕ, zero, suc, ◌≡◌, ◌≤◌, ◌<◌, refl, ap, ◌⊎◌, List, [], ◌∷◌, length, get_elem?, true, false, some,
  none, Returns, returns, Returns-bind, Bool-cases, inl, inr, leb, arith,
}
use go_tools.Base.Int.{ℤ, pos, eqb_ℤ, add64}
use go_tools.Container.Queue
use go_tools.Container.Queue.{Queue}
use go_tools.Container.Queue.Methods.{new_queue-Holds}
use go_tools.Timer.{Timer}
use go_tools.Timer.Heap.Access.{SameTimers}
use go_tools.Timer.Heap.Methods
use go_tools.Timer.Heap.Methods.{yielded, Removed, heap_push_correct, heap_remove_correct}
use go_tools.Timer.Manager.{
  TimerManager, add_timer, find_timer, remove_timer, remove_found, new_timer_manager,
}

module _ {κ} {C : Type κ} where
  -- The heap and the queue are well formed.
  pub record IsValid (tm : TimerManager C) : Type κ where
    pub heap : Methods.IsValid tm.tq
    pub line : Queue.IsValid tm.queue

  -- A new manager is well formed, holds nothing, and has room.
  pub new_timer_manager-IsValid :
      (size : ℤ)
      → IsValid (new_timer_manager {C = C} size) × (0 < (new_timer_manager {C = C} size).tq.room)
  unfolding new_timer_manager
  new_timer_manager-IsValid size = (
    record {
      heap = record {
        ordered = λ c p q. absurd (omega arith);
        placed = λ i t e. absurd (cc);
        fits = omega arith;
      };
      line = (new_queue-Holds none).0;
    },
    ground arith,
  )

  abbrev pub new_timer : ℤ → C → ℤ → ℤ → Timer C
  new_timer id time_outer end interval = record {
    time_outer = time_outer;
    id = id;
    end = end;
    interval = interval;
    index = pos 0;
  }

  -- What AddTimer leaves: nothing new where the heap is full.
  abbrev pub AddTimerResult : TimerManager C → C → ℤ → ℤ → ℤ × TimerManager C → Type κ
  AddTimerResult tm time_outer end interval (id, tm') =
      IsValid tm'
      × (tm'.queue ≡ tm.queue)
      × (((tm.tq.room ≤ length tm.tq.items) × (id ≡ pos 0) × (tm' ≡ tm))
          ⊎ ((length tm.tq.items < tm.tq.room)
              × (id ≡ add64 tm.id (pos 1))
              × (tm'.id ≡ id)
              × SameTimers tm'.tq.items (new_timer id time_outer end interval ∷ tm.tq.items)))

  -- AddTimer on a valid manager returns and keeps it valid: a full heap stays as it was and the reply is
  -- 0; otherwise the timer joins the heap under the next number, which is the reply.
  pub add_timer_correct :
      (tm : TimerManager C) (time_outer : C) (end interval : ℤ)
      → IsValid tm
      → Returns (AddTimerResult tm time_outer end interval) (add_timer tm time_outer end interval)
  unfolding add_timer
  add_timer_correct tm time_outer end interval v =
      elim (Bool-cases (leb tm.tq.room (length tm.tq.items))) [
        | inl full ↦ rw full (returns (v, refl, inl (ground arith, refl, refl)))
        | inr room ↦ rw room (
            Returns-bind
              (heap_push_correct tm.tq (new_timer (add64 tm.id (pos 1)) time_outer end interval)
                v.heap (ground arith))
              λ tq (w, same, _, _).
                returns
                  (record { heap = w; line = v.line }, refl, inr (ground arith, refl, refl, same)))
      ]

  -- No timer of the list has the id.
  abbrev pub NoneHas : ℤ → List (Timer C) → Type κ
  NoneHas timer_id a = (i : ℕ) (t : Timer C) → get_elem? a i ≡ some t → eqb_ℤ t.id timer_id ≡ false

  NoneHas-cons :
      (timer_id : ℤ) (t : Timer C) (a : List (Timer C))
      → eqb_ℤ t.id timer_id ≡ false
      → NoneHas timer_id a
      → NoneHas timer_id (t ∷ a)
  NoneHas-cons timer_id t a miss h zero u e = cc
  NoneHas-cons timer_id t a miss h (suc i) u e = h i u e

  find_timer_cases :
      (timer_id : ℤ) (a : List (Timer C))
      → ((find_timer timer_id a ≡ none) × NoneHas timer_id a)
        ⊎ ((i : ℕ) × (t : Timer C) × (find_timer timer_id a ≡ some t)
            × (get_elem? a i ≡ some t)
            × (eqb_ℤ t.id timer_id ≡ true))
  unfolding find_timer
  find_timer_cases timer_id [] = inl (refl, λ i t e. absurd (cc))
  find_timer_cases timer_id (t ∷ a) = elim (Bool-cases (eqb_ℤ t.id timer_id)) [
    | inl hit ↦ inr (0, t, rw hit refl, refl, hit)
    | inr miss ↦ elim (find_timer_cases timer_id a) [
      | inl (e, h) ↦ inl (rw (miss, e) refl, NoneHas-cons timer_id t a miss h)
      | inr (i, u, e, w, hit) ↦ inr (suc i, u, rw (miss, e) refl, w, hit)
    ]
  ]

  -- What RemoveTimer leaves: the heap without one timer of that id, if there is any.
  abbrev pub RemoveTimerResult : TimerManager C → ℤ → TimerManager C → Type κ
  RemoveTimerResult tm timer_id tm' =
      IsValid tm'
      × (tm'.id ≡ tm.id)
      × (tm'.queue ≡ tm.queue)
      × ((NoneHas timer_id tm.tq.items × (tm' ≡ tm))
          ⊎ ((t : Timer C) × (eqb_ℤ t.id timer_id ≡ true)
              × SameTimers (t ∷ tm'.tq.items) tm.tq.items))

  -- RemoveTimer on a valid manager returns and keeps it valid: it takes out one timer with that number, if
  -- there is one, and otherwise changes nothing.
  pub remove_timer_correct :
      (tm : TimerManager C) (timer_id : ℤ)
      → IsValid tm
      → Returns (RemoveTimerResult tm timer_id) (remove_timer tm timer_id)
  unfolding remove_timer remove_found
  remove_timer_correct tm timer_id v = elim (find_timer_cases timer_id tm.tq.items) [
    | inl (e, h) ↦ rw e (returns (v, refl, refl, inl (h, refl)))
    | inr (i, t, e, at_i, hit) ↦
        rw (e, v.heap.placed i t at_i)
          (Returns-bind (heap_remove_correct tm.tq i t v.heap at_i) λ (popped, tq) y.
            let (u, _, d) = yielded (Removed tm.tq t) (popped, tq) y in
            let (w, same, _, kept, _, _) = d in
            returns (
              record { heap = w; line = v.line },
              refl,
              refl,
              inr (u, rw (ap (λ c. c.id) same) hit, kept),
            ))
  ]

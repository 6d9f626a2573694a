-- ===== src/Timer/Manager/Fire.antt =====
-- The second loop of Run in common/timer/timer_manager.go, and Run.
use go_tools.Base.{
  ℕ, zero, suc, ◌+◌, ◌%◌, ◌≡◌, ◌≤◌, ◌<◌, refl, List, [], ◌∷◌, ◌++◌, map, length, Bool, true, false,
  Option, some, none, ok, ◌>>=◌, or_panic, Returns, returns, Returns-bind, Returns-map, leb,
  if◌then◌else◌, arith, length-append,
}
use go_tools.Base.Int.{ℤ}
use go_tools.Container.Queue.{Queue, contents, pop, size}
use go_tools.Container.Queue.Methods.{pop_correct}
use go_tools.Timer.{Timer}
use go_tools.Timer.Heap.Access.{Core, count}
use go_tools.Timer.Manager.{TimerManager, Called, Ran, fire, run, two_pow_32}
use go_tools.Timer.Manager.Laws.{IsValid}
use go_tools.Timer.Manager.Collect.{is_due, is_stuck, Collected}
use go_tools.Timer.Manager.Schedule.{collect_correct, size-length}

module _ {κ ℓ} {C : Type κ} {W : Type ℓ} (time_out : C → ℤ → W → TimerManager C → Called C W) where
  -- A callback may add and remove timers; it leaves the manager well formed, and does not run it.
  pub record IsRespectful : Type (κ ⊔ ℓ) where
    pub valid :
        (c : C) (now : ℤ) (w : W) (tm : TimerManager C)
        → IsValid tm
        → IsValid (time_out c now w tm).manager
    pub same_queue :
        (c : C) (now : ℤ) (w : W) (tm : TimerManager C)
        → IsValid tm
        → (time_out c now w tm).manager.queue ≡ tm.queue
    pub calm :
        (c : C) (now : ℤ) (w : W) (tm : TimerManager C) → (time_out c now w tm).panicked ≡ false

  -- The callbacks of the timers called one after the other, each on what the one before it left.
  -- Every timer is off the queue when its callback is called.
  pub data CalledInOrder (now : ℤ)
      : List (Timer C) → W → TimerManager C → W → TimerManager C → Type (κ ⊔ ℓ) where
    all_called : {w : W} {tm : TimerManager C} → CalledInOrder now [] w tm w tm
    call_next :
        {t : Timer C} {l : List (Timer C)} {w w' : W} {tm tm' : TimerManager C}
        {queue : Queue (Option (Timer C))}
        → contents queue ≡ map some l
        → CalledInOrder now l
            (time_out t.time_outer now w (record tm { queue = queue })).world
            (time_out t.time_outer now w (record tm { queue = queue })).manager
            w'
            tm'
        → CalledInOrder now (t ∷ l) w tm w' tm'

  -- What the loop leaves after it has called `l`.
  pub record Fired (now : ℤ) (l : List (Timer C)) (checked called : ℕ) (w : W) (tm : TimerManager C)
      (r : Ran C W) : Type (κ ⊔ ℓ) where
    pub valid : IsValid r.manager
    pub none_left : contents r.manager.queue ≡ []
    pub check_count : r.check_count ≡ checked
    pub call_count : r.call_count ≡ (called + length l) % two_pow_32
    pub in_order : CalledInOrder now l w tm r.world r.manager

  fire_done :
      (fuel : ℕ) (now : ℤ) (checked called : ℕ) (w : W) (tm : TimerManager C)
      → leb (size tm.queue) 0 ≡ true
      → fire time_out (suc fuel) now checked called w tm
        ≡ ok (record { check_count = checked; call_count = called; world = w; manager = tm })
  unfolding fire
  fire_done fuel now checked called w tm e = rw e refl

  fire_calls :
      (fuel : ℕ) (now : ℤ) (checked called : ℕ) (w : W) (tm : TimerManager C)
      → leb (size tm.queue) 0 ≡ false
      → fire time_out (suc fuel) now checked called w tm ≡ (
          pop none tm.queue >>= λ (timer, queue). or_panic timer >>= λ t.
          let after = time_out t.time_outer now w (record tm { queue = queue }) in
          if after.panicked
          then ok (record {
            check_count = 0;
            call_count = 0;
            world = after.world;
            manager = after.manager;
          })
          else fire time_out fuel now checked ((called + 1) % two_pow_32) after.world after.manager)
  unfolding fire
  fire_calls fuel now checked called w tm e = rw e refl

  pub fire_correct :
      (fuel : ℕ) (now : ℤ) (check_count call_count : ℕ) (w : W) (tm : TimerManager C)
      (l : List (Timer C))
      → IsRespectful
      → IsValid tm
      → contents tm.queue ≡ map some l
      → call_count < two_pow_32
      → length l < fuel
      → Returns
          (Fired now l check_count call_count w tm)
          (fire time_out fuel now check_count call_count w tm)
  fire_correct zero now check_count call_count w tm l h v line small f = absurd (omega arith)
  fire_correct (suc fuel) now check_count call_count w tm [] h v line small f =
      let none_left : leb (size tm.queue) 0 ≡ true =
        ground (arith, size-length tm.queue [] v.line line) in
      rw (fire_done fuel now check_count call_count w tm none_left) (
        returns (record {
          valid = v;
          none_left = line;
          check_count = refl;
          call_count = omega arith;
          in_order = all_called;
        }))
  fire_correct (suc fuel) now check_count call_count w tm (t ∷ l) h v line small f =
      let some_left : leb (size tm.queue) 0 ≡ false =
        ground (arith, size-length tm.queue (t ∷ l) v.line line) in
      rw (fire_calls fuel now check_count call_count w tm some_left) (
        Returns-bind (pop_correct none tm.queue (some t) (map some l) v.line line)
          λ (u, queue) (same, (w', rest)).
            let after = time_out t.time_outer now w (record tm { queue = queue }) in
            let before : IsValid (record tm { queue = queue }) = record {
              heap = v.heap;
              line = w';
            } in
            let kept = h.same_queue t.time_outer now w (record tm { queue = queue }) before in
            let ready = h.valid t.time_outer now w (record tm { queue = queue }) before in
            rw (same, h.calm)
              (Returns-map
                (fire_correct fuel now check_count ((call_count + 1) % two_pow_32) after.world
                  after.manager l h ready (rw kept rest) (omega arith) (omega arith))
                λ r d. record {
                  valid = d.valid;
                  none_left = d.none_left;
                  check_count = d.check_count;
                  call_count = omega (arith, d.call_count);
                  in_order = call_next rest d.in_order;
                }))

  count-le : (p : Core C → Bool) (a : List (Timer C)) → count p a ≤ length a
  count-le p [] = omega arith
  count-le p (t ∷ a) = ground (arith, count-le p a)

  -- What Run does: it calls those that waited and then those that are due, and leaves none of them.
  abbrev pub RunResult : ℤ → ℤ → W → TimerManager C → List (Timer C) → Ran C W → Type (κ ⊔ ℓ)
  RunResult now limit w tm waiting r =
      (fired : List (Timer C)) × (tm' : TimerManager C) × Collected now limit tm waiting fired tm'
      × IsValid r.manager
      × (contents r.manager.queue ≡ [])
      × (r.call_count ≡ length (waiting ++ fired) % two_pow_32)
      × CalledInOrder now (waiting ++ fired) w tm' r.world r.manager

  -- Run of a valid manager returns, where the fuel exceeds the timers that wait and those of the heap, no
  -- timer is due again as soon as it is renewed, and the callbacks neither panic nor run the manager. It
  -- moves what is due to the queue, calls those that waited and then those, each once and in that order,
  -- counts the calls, and leaves the queue empty and the manager valid, whatever timers the callbacks
  -- add or remove.
  pub run_calls_due :
      (fuel : ℕ) (now limit : ℤ) (w : W) (tm : TimerManager C) (waiting : List (Timer C))
      → IsRespectful
      → IsValid tm
      → contents tm.queue ≡ map some waiting
      → count (is_stuck now) tm.tq.items ≡ 0
      → length waiting + length tm.tq.items < fuel
      → Returns (RunResult now limit w tm waiting) (run time_out fuel now limit w tm)
  unfolding run
  run_calls_due fuel now limit w tm waiting h v line free f =
      Returns-bind
        (collect_correct fuel now limit 0 tm waiting v line free
          (omega (arith, count-le (is_due now) tm.tq.items)))
        λ (checked, tm') (fired, d).
          Returns-map
            (fire_correct fuel now checked 0 w tm' (waiting ++ fired) h d.valid d.line (omega arith)
              (omega
                (arith, d.few, count-le (is_due now) tm.tq.items, length-append waiting fired)))
            λ r e. (fired, tm', d, e.valid, e.none_left, omega (arith, e.call_count), e.in_order)

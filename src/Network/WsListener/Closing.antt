-- ===== src/Network/WsListener/Closing.antt =====
-- The invariant of the listener of common/network/ws_impl.go, and what Close leaves.
use go_tools.Base.{ℕ, ◌+◌, ◌≡◌, ◌≤◌, ◌<◌, List, [], ◌∷◌, ◌++◌, arith, refl, ap}
use go_tools.Base.Int.{ℤ}
use go_tools.Base.Threads.{bit, total, total-le, others, total-one, total-among, step, Steps-keep}
use go_tools.Base.Threads
use go_tools.Network.Conn.{finished}
use go_tools.Network.Conn.Counts.{begun, over, begun-le}
use go_tools.Network.WsListener.{
  WsListenerImpl, new_ws_listener_impl, Thread, handle_upgrade, accept, close_with_cause, Move,
}
use go_tools.Network.WsListener.Counts.{
  in_slot, handles, crashes, offers_one, holds_one, to_set, closes, past, Move-slots, Move-limit,
  Move-handles, Move-crashes, Move-offers, Move-transports, Move-closes, Move-to_set, Move-past,
}

abbrev pub World {ℓ} : Type ℓ → Type ℓ
World E = WsListenerImpl E × List (Thread E)

module _ {ℓ} {E : Type ℓ} where
  -- The calls: requests, Accept, Close, and the end of the HTTP server, which closes too.
  pub data IsCall : Thread E → Type ℓ where
    calls_upgrade : IsCall handle_upgrade
    calls_accept : IsCall accept
    calls_close : (cause : E) → IsCall (close_with_cause cause)

  abbrev pub AreCalls : List (Thread E) → Type ℓ
  AreCalls [] = Unit
  AreCalls (t ∷ ts) = IsCall t × AreCalls ts

  abbrev weights : Thread E → ℕ
  weights t =
      handles t
      + (in_slot t
          + (crashes t + (offers_one t + (holds_one t + (to_set t + (closes t + past t))))))

  IsCall-weights : {t : Thread E} → IsCall t → weights t ≡ 0
  IsCall-weights calls_upgrade = refl
  IsCall-weights calls_accept = refl
  IsCall-weights (calls_close cause) = refl

  AreCalls-weights : (ts : List (Thread E)) → AreCalls ts → total weights ts ≡ 0
  AreCalls-weights [] calls = refl
  AreCalls-weights (t ∷ ts) (call, calls) =
      omega (arith, IsCall-weights call, AreCalls-weights ts calls)

  -- A goroutine past the Wait has set the mark.
  past-le : (t : Thread E) → past t + to_set t ≤ closes t
  past-le accept = omega arith
  past-le _ = omega arith

  pub record IsValid (w : World E) : Type ℓ where
    pub slots : w.0.pending_slots ≡ total in_slot w.1
    pub limited : w.0.pending_slots ≤ w.0.max_pending
    pub counted : w.0.upgrade_wg ≡ total handles w.1
    pub no_crash : total crashes w.1 ≡ 0
    pub offered : w.0.offers + w.0.handed ≡ total offers_one w.1
    pub none_lost : w.0.offers + total holds_one w.1 + w.0.accepted + w.0.shut ≡ w.0.upgraded
    pub one_close : total closes w.1 + over w.0.close_once ≡ begun w.0.close_once
    pub marked : total to_set w.1 + bit w.0.closed ≡ begun w.0.close_once
    pub waited : 0 < total past w.1 + over w.0.close_once → w.0.upgrade_wg ≡ 0

  new-IsValid :
      (max : ℤ) (ts : List (Thread E)) → AreCalls ts → IsValid (new_ws_listener_impl max, ts)
  unfolding new_ws_listener_impl
  new-IsValid max ts calls =
      let none_of : (f : Thread E → ℕ) → ((t : Thread E) → f t ≤ weights t) → total f ts ≡ 0 =
        λ f le. omega (arith, total-le f weights ts le, AreCalls-weights ts calls) in
      record {
        slots = omega (arith, none_of in_slot (λ t. omega arith));
        limited = omega arith;
        counted = omega (arith, none_of handles (λ t. omega arith));
        no_crash = none_of crashes (λ t. omega arith);
        offered = omega (arith, none_of offers_one (λ t. omega arith));
        none_lost = omega (arith, none_of holds_one (λ t. omega arith));
        one_close = omega (arith, none_of closes (λ t. omega arith));
        marked = omega (arith, none_of to_set (λ t. omega arith));
        waited = λ p. refl;
      }

  past_marked : (f : List (Thread E)) → total past f + total to_set f ≤ total closes f
  past_marked [] = omega arith
  past_marked (t ∷ ts) = omega (arith, past-le t, past_marked ts)

  module _ {ln ln' : WsListenerImpl E} {next : List (Thread E)} (before : List (Thread E))
      (t : Thread E) (after : List (Thread E)) where
    step-IsValid :
        Move ln t ln' next
        → IsValid (ln, before ++ t ∷ after)
        → IsValid (ln', before ++ (next ++ after))
    step-IsValid m v =
        let old = λ (f : Thread E → ℕ). total-one f before after t in
        let new = λ (f : Thread E → ℕ). total-among f before after next in
        let slot : in_slot t ≤ ln.pending_slots = omega (arith, v.slots, old in_slot) in
        let one : handles t ≤ ln.upgrade_wg = omega (arith, v.counted, old handles) in
        let closing : closes t + over ln.close_once ≤ begun ln.close_once =
          omega (arith, v.one_close, old closes) in
        let setting : to_set t + bit ln.closed ≤ 1 =
          omega (arith, v.marked, old to_set, begun-le ln.close_once) in
        let shut : past t + others past before after + over ln.close_once ≤ bit ln.closed =
          omega (arith, past_marked (before ++ t ∷ after), v.one_close, v.marked, old past) in
        record {
          slots = omega (arith, Move-slots m slot, v.slots, old in_slot, new in_slot);
          limited = Move-limit m v.limited;
          counted = omega (arith, Move-handles m one, v.counted, old handles, new handles);
          no_crash = omega (arith, Move-crashes m one, v.no_crash, old crashes, new crashes);
          offered = omega (arith, Move-offers m, v.offered, old offers_one, new offers_one);
          none_lost = omega (arith, Move-transports m, v.none_lost, old holds_one, new holds_one);
          one_close = omega (arith, Move-closes m closing, v.one_close, old closes, new closes);
          marked = omega (arith, Move-to_set m setting closing, v.marked, old to_set, new to_set);
          waited = λ p.
              Move-past m (others past before after) shut
                (λ q. v.waited (omega (arith, q, old past))) (omega (arith, p, new past));
        }

  Step-IsValid : {w w' : World E} → Threads.Step Move w w' → IsValid w → IsValid w'
  Step-IsValid (step before t after m) v = step-IsValid before t after m v

  -- What a program comes to that makes a listener.
  pub record IsReachable (w : World E) : Type ℓ where
    pub max : ℤ
    pub calls : List (Thread E)
    pub are_calls : AreCalls calls
    pub steps : Threads.Steps Move (new_ws_listener_impl max, calls) w

  IsReachable-IsValid : (w : World E) → IsReachable w → IsValid w
  IsReachable-IsValid w r =
      Steps-keep Move IsValid (λ w w' s. Step-IsValid s) r.steps
        (new-IsValid r.max r.calls r.are_calls)

  -- At most as many requests as the limit are in an upgrade or wait for Accept; the WaitGroup counts the
  -- handlers, and none of them panics on it.
  pub pending_limited :
      (w : World E)
      → IsReachable w
      → (total in_slot w.1 ≤ w.0.max_pending) × (total crashes w.1 ≡ 0)
  pending_limited w r =
      let v = IsReachable-IsValid w r in (omega (arith, v.slots, v.limited), v.no_crash)

  offers-le : (t : Thread E) → offers_one t ≤ handles t
  offers-le accept = omega arith
  offers-le _ = omega arith

  offers-handles : (ts : List (Thread E)) → total offers_one ts ≤ total handles ts
  offers-handles ts = total-le offers_one handles ts offers-le

  -- When Close has returned, no handler is left, and each transport that was made was returned by Accept, was
  -- closed, or is in the hands of an Accept that is about to do one or the other.
  pub close_loses_none :
      (w : World E)
      → IsReachable w
      → w.0.close_once ≡ finished
      → (total handles w.1 ≡ 0) × (total holds_one w.1 + w.0.accepted + w.0.shut ≡ w.0.upgraded)
  close_loses_none w r e =
      let v = IsReachable-IsValid w r in
      let none_left : total handles w.1 ≡ 0 =
        omega (arith, v.counted, v.waited (omega (arith, ap over e))) in
      (none_left, omega (arith, v.none_lost, v.offered, offers-handles w.1, none_left))

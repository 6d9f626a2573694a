-- ===== src/Network/Conn/Invariant.antt =====
-- The invariant of a connection and its goroutines, common/network/conn_impl.go, and what it says of the
-- end of a connection.
use go_tools.Base.{
  ℕ, ◌+◌, ◌≡◌, ◌≤◌, ◌<◌, List, [], ◌∷◌, ◌++◌, none, arith, refl, ap, ◌∙◌, sym, length,
  length-append,
}
use go_tools.Base.Threads.{bit, bit-le, total, others, total-le, total-one, total-among}
use go_tools.Network.Conn.{
  Conn, ConnDependencies, not_begun, by_caller, Thread, run, send, try_send, close,
}
use go_tools.Network.Conn.Moves.{Move, World, Step, Steps}
use go_tools.Base.Threads.{step, Steps-keep}
use mathlib.Core.List.{append_assoc, append-nil}
use go_tools.Network.Conn.Counts.{
  over, begun, has, shuts, crashes, loop, Move-loop, Move-crashes, Move-once, Move-cause,
}
use go_tools.Network.Conn.Lifecycle.{
  writing, past, early, ended, Move-once_run, Move-past, Move-ended, Move-writing,
}
use go_tools.Network.Conn.Order.{
  hand, hands, hands-append, length-hands, InOrder, AreCounted, Move-InOrder, Move-AreCounted, swap,
  empty,
}

module _ {ℓ κ} {P : Type ℓ} {E : Type κ} where
  -- The calls that a program makes of a connection.
  pub data IsCall : Thread P E → Type (ℓ ⊔ κ) where
    calls_run : IsCall run
    calls_close : IsCall close
    calls_send : {packet : P} → IsCall (send by_caller packet)
    calls_try : {packet : P} → IsCall (try_send packet)

  abbrev pub AreCalls : List (Thread P E) → Type (ℓ ⊔ κ)
  AreCalls [] = Unit
  AreCalls (t ∷ ts) = IsCall t × AreCalls ts

  -- All that the invariant counts.
  abbrev weights : Thread P E → ℕ
  weights t = loop t + (crashes t + (shuts t + (early t + (past t + (ended t + writing t)))))

  IsCall-weights : {t : Thread P E} → IsCall t → weights t ≡ 0
  IsCall-weights calls_run = refl
  IsCall-weights calls_close = refl
  IsCall-weights calls_send = refl
  IsCall-weights calls_try = refl

  AreCalls-weights : (ts : List (Thread P E)) → AreCalls ts → total weights ts ≡ 0
  AreCalls-weights [] calls = refl
  AreCalls-weights (t ∷ ts) (call, calls) =
      omega (arith, IsCall-weights call, AreCalls-weights ts calls)

  pub record IsValid (w : World P E) : Type (ℓ ⊔ κ) where
    pub loops : w.0.wg ≡ total loop w.1
    pub no_crash : total crashes w.1 ≡ 0
    pub shut_once : total shuts w.1 + over w.0.close_once ≡ begun w.0.close_once
    pub closed_once : w.0.closes ≡ over w.0.close_once
    pub cancelled : has w.0.cause ≡ begun w.0.close_once
    pub one_run : w.0.ends + total early w.1 + total past w.1 ≤ bit w.0.started
    pub waited : 0 < w.0.ends + total past w.1 → w.0.wg ≡ 0
    pub shut_first : 0 < w.0.ends + total ended w.1 → over w.0.close_once ≡ 1
    pub one_writer : length w.0.dropped + total writing w.1 ≤ bit w.0.started
    pub in_order : InOrder w.0 (hands w.1)
    pub counted : AreCounted w.0

  -- A connection that nothing has happened to, with calls that have not begun.
  pub idle-IsValid :
      (c : Conn E) (ts : List (Thread P E))
      → AreCalls ts
      → c.wg ≡ 0
      → c.close_once ≡ not_begun
      → c.closes ≡ 0
      → c.cause ≡ none
      → c.ends ≡ 0
      → c.dropped ≡ []
      → c.accepted ≡ c.written ++ c.send_queue
      → AreCounted c
      → IsValid (c, ts)
  idle-IsValid c ts calls no_wg not_closed no_closes no_cause no_ends no_drops order counted =
      let none_of : (f : Thread P E → ℕ) → ((t : Thread P E) → f t ≤ weights t) → total f ts ≡ 0 =
        λ f le. omega (arith, total-le f weights ts le, AreCalls-weights ts calls) in
      let no_loop = none_of loop (λ t. omega arith) in
      let no_past = none_of past (λ t. omega arith) in
      let no_early = none_of early (λ t. omega arith) in
      let no_end = none_of ended (λ t. omega arith) in
      let no_shut = none_of shuts (λ t. omega arith) in
      let no_writing = none_of writing (λ t. omega arith) in
      let no_hands = empty (hands ts) (omega (arith, length-hands ts, no_writing)) in
      record {
        loops = omega (arith, no_loop);
        no_crash = none_of crashes (λ t. omega arith);
        shut_once = omega (arith, no_shut, ap over not_closed, ap begun not_closed);
        closed_once = rw not_closed no_closes;
        cancelled = rw (no_cause, not_closed) refl;
        one_run = omega (arith, no_early, no_past);
        waited = λ p. no_wg;
        shut_first = λ p. absurd (omega (arith, p, no_end));
        one_writer = omega (arith, no_writing, ap length no_drops);
        in_order = rw (no_drops, no_hands) order;
        counted = counted;
      }

  module _ (d : ConnDependencies P E) where
    hands-among :
        (before next after : List (Thread P E))
        → total writing next + others writing before after ≤ 1
        → hands (before ++ (next ++ after)) ≡ hands next ++ (hands before ++ hands after)
    hands-among before next after h =
        let short : length (hands before) + length (hands next) ≤ 1 =
          omega (arith, length-hands before, length-hands next) in
        rw
          (
            hands-append before (next ++ after),
            hands-append next after,
            sym (append_assoc (hands before) (hands next) (hands after)),
            swap (hands before) (hands next) short,
            append_assoc (hands next) (hands before) (hands after),
          )
          refl

    -- The part of the step on the messages.
    Step-InOrder :
        {c c' : Conn E} {next : List (Thread P E)} (before : List (Thread P E)) (t : Thread P E)
        (after : List (Thread P E))
        → Move d c t c' next
        → length c.dropped + (writing t + others writing before after) ≤ 1
        → length c'.dropped + (total writing next + others writing before after) ≤ 1
        → InOrder c (hands (before ++ t ∷ after))
        → InOrder c' (hands (before ++ (next ++ after)))
    Step-InOrder {c = c} {c' = c'} {next = next} before t after m one one' h =
        let rest = hands before ++ hands after in
        let old =
          hands-among before (t ∷ []) after (omega arith) ∙ ap (◌++ rest) (append-nil (hand t)) in
        rw (hands-among before next after (omega arith)) (
          Move-InOrder d m rest
            (omega (
              arith,
              length-append (hands before) (hands after),
              length-hands before,
              length-hands after,
            ))
            (rw old at h))

    module _ {c c' : Conn E} {next : List (Thread P E)} (before : List (Thread P E))
        (t : Thread P E) (after : List (Thread P E)) where
      step-IsValid :
          Move d c t c' next
          → IsValid (c, before ++ t ∷ after)
          → IsValid (c', before ++ (next ++ after))
      step-IsValid m v =
          let old = λ (f : Thread P E → ℕ). total-one f before after t in
          let new = λ (f : Thread P E → ℕ). total-among f before after next in
          let one : loop t ≤ c.wg = omega (arith, v.loops, old loop) in
          let shut_one : shuts t + over c.close_once ≤ begun c.close_once =
            omega (arith, v.shut_once, old shuts) in
          let (shut_after, rest_after) = Move-once d m shut_one in
          let (closes_after, later) = rest_after in
          let one_run : c'.ends
                + total early (before ++ (next ++ after))
                + total past (before ++ (next ++ after))
              ≤ bit c'.started =
            omega (arith, Move-once_run d m, v.one_run, old early, old past, new early, new past) in
          let one_writer : length c'.dropped + total writing (before ++ (next ++ after))
              ≤ bit c'.started =
            omega (arith, Move-writing d m, v.one_writer, old writing, new writing) in
          record {
            loops = omega (arith, Move-loop d m one, v.loops, old loop, new loop);
            no_crash = omega (arith, Move-crashes d m one, v.no_crash, old crashes, new crashes);
            shut_once = omega (arith, shut_after, v.shut_once, old shuts, new shuts);
            closed_once = omega (arith, closes_after, v.closed_once);
            cancelled = Move-cause d m shut_one v.cancelled;
            one_run = one_run;
            waited = λ p.
                Move-past d m (others past before after)
                  (omega (arith, v.one_run, old early, old past, bit-le c.started))
                  (λ q. v.waited (omega (arith, q, old past))) (omega (arith, p, new past));
            shut_first = λ p.
                Move-ended d m (others ended before after)
                  (λ q. v.shut_first (omega (arith, q, old ended))) (omega (arith, p, new ended));
            one_writer = one_writer;
            in_order =
                Step-InOrder before t after m
                  (omega (arith, v.one_writer, old writing, bit-le c.started))
                  (omega (arith, one_writer, new writing, bit-le c'.started)) v.in_order;
            counted = Move-AreCounted d m v.counted;
          }

    pub Step-IsValid : {w w' : World P E} → Step d w w' → IsValid w → IsValid w'
    Step-IsValid (step before t after m) v = step-IsValid before t after m v

    pub Steps-IsValid : {w w' : World P E} → Steps d w w' → IsValid w → IsValid w'
    Steps-IsValid ws v = Steps-keep (Move d) IsValid (λ w w' s. Step-IsValid s) ws v

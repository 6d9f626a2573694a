-- ===== src/Network/SessionClient/Invariant.antt =====
-- The invariant of a client and its goroutines, common/network/session_client.go, and what it says of the
-- client's end.
use go_tools.Base.{ℕ, ◌+◌, ◌≡◌, ◌≤◌, true, List, [], ◌∷◌, ◌++◌, arith, refl}
use go_tools.Base.Threads.{
  bit, bit-le, total, total-le, others, total-one, total-among, step, done, Steps-keep,
}
use go_tools.Base.Threads
use go_tools.Network.Conn.Counts.{has, begun, over, begun-le}
use go_tools.Network.SessionClient.{
  SessionClient, new_session_client, made, not_made, Made, Thread, dial_context, dialing, wait,
  close, close_cancels, close_conn,
}
use go_tools.Network.SessionClient.Moves.{Move}
use go_tools.Network.SessionClient.Counts.{
  started, started-le, swapped, owes, written, crashes, dials, in_dial, closes, locks, to_cancel,
  to_close_conn, Move-owes, Move-crashes, Move-written,
}
use go_tools.Network.SessionClient.Reach.{
  Move-in_dial, Move-closes, Move-swapped, Move-dials, Move-dial_cancel, Move-conn,
}

abbrev IfMade {ℓ} : {E : Type ℓ} → (SessionClient E → Type ℓ) → Made E → Type ℓ
IfMade P (made c) = P c
IfMade P (not_made err) = Unit

if_made {ℓ} :
    {E : Type ℓ} (P : SessionClient E → Type ℓ) {m : Made E} {c : SessionClient E}
    → m ≡ made c
    → IfMade P m
    → P c
if_made P e h = rw e at h

abbrev pub World {ℓ} : Type ℓ → Type ℓ
World E = SessionClient E × List (Thread E)

module _ {ℓ} {E : Type ℓ} where
  -- The calls that a program makes of a client.
  pub data IsCall : Thread E → Type ℓ where
    calls_dial : IsCall dial_context
    calls_wait : IsCall wait
    calls_close : IsCall close

  abbrev pub AreCalls : List (Thread E) → Type ℓ
  AreCalls [] = Unit
  AreCalls (t ∷ ts) = IsCall t × AreCalls ts

  abbrev weights : Thread E → ℕ
  weights t = owes t + (written t + (crashes t + (dials t + (in_dial t + (closes t + locks t)))))

  IsCall-weights : {t : Thread E} → IsCall t → weights t ≡ 0
  IsCall-weights calls_dial = refl
  IsCall-weights calls_wait = refl
  IsCall-weights calls_close = refl

  AreCalls-weights : (ts : List (Thread E)) → AreCalls ts → total weights ts ≡ 0
  AreCalls-weights [] calls = refl
  AreCalls-weights (t ∷ ts) (call, calls) =
      omega (arith, IsCall-weights call, AreCalls-weights ts calls)

  written-le : (t : Thread E) → written t ≤ owes t
  written-le dialing = omega arith
  written-le _ = omega arith

  dials-le : (t : Thread E) → dials t ≤ in_dial t
  dials-le dialing = omega arith
  dials-le _ = omega arith

  pub locks-le : (t : Thread E) → locks t ≤ closes t
  locks-le dialing = omega arith
  locks-le _ = omega arith

  pub to_cancel-le : (t : Thread E) → to_cancel t ≤ closes t
  to_cancel-le (close_cancels prev_state cancel conn) = bit-le cancel
  to_cancel-le _ = omega arith

  pub to_close_conn-le : (t : Thread E) → to_close_conn t ≤ closes t
  to_close_conn-le (close_cancels prev_state cancel conn) = bit-le conn
  to_close_conn-le (close_conn prev_state conn) = bit-le conn
  to_close_conn-le _ = omega arith

  pub record IsValid (w : World E) : Type ℓ where
    pub owed : total owes w.1 + bit w.0.done ≡ started w.0.state
    pub no_crash : total crashes w.1 ≡ 0
    pub result : bit w.0.done + total written w.1 ≤ has w.0.wait_err
    pub one_dial : total in_dial w.1 ≤ started w.0.state
    pub one_close : total closes w.1 + over w.0.close_once ≡ begun w.0.close_once
    pub closed : total locks w.1 + swapped w.0.state ≡ begun w.0.close_once
    pub reached :
        total dials w.1 ≤ bit w.0.dial_cancel + total to_cancel w.1 + bit w.0.dial_cancelled
    pub no_cancel : bit w.0.dial_cancel + swapped w.0.state ≤ 1
    pub conn_reached :
        bit w.0.conn + swapped w.0.state ≤ 1 + total to_close_conn w.1 + bit w.0.conn_closed

  new-IsValid :
      (ts : List (Thread E))
      → AreCalls ts
      → IfMade (λ (c : SessionClient E). IsValid (c, ts)) (new_session_client true true)
  unfolding new_session_client
  new-IsValid ts calls =
      let none_of : (f : Thread E → ℕ) → ((t : Thread E) → f t ≤ weights t) → total f ts ≡ 0 =
        λ f le. omega (arith, total-le f weights ts le, AreCalls-weights ts calls) in
      record {
        owed = omega (arith, none_of owes (λ t. omega arith));
        no_crash = none_of crashes (λ t. omega arith);
        result = omega (arith, none_of written (λ t. omega arith));
        one_dial = omega (arith, none_of in_dial (λ t. omega arith));
        one_close = omega (arith, none_of closes (λ t. omega arith));
        closed = omega (arith, none_of locks (λ t. omega arith));
        reached = omega (arith, none_of dials (λ t. omega arith));
        no_cancel = omega arith;
        conn_reached = omega arith;
      }

  module _ {c c' : SessionClient E} {next : List (Thread E)} (before : List (Thread E))
      (t : Thread E) (after : List (Thread E)) where
    step-IsValid :
        Move c t c' next
        → IsValid (c, before ++ t ∷ after)
        → IsValid (c', before ++ (next ++ after))
    step-IsValid m v =
        let old = λ (f : Thread E → ℕ). total-one f before after t in
        let new = λ (f : Thread E → ℕ). total-among f before after next in
        let le : (f g : Thread E → ℕ)
            → ((t : Thread E) → f t ≤ g t)
            → others f before after ≤ others g before after =
          λ f g h. omega (arith, total-le f g before h, total-le f g after h) in
        let one = started-le c.state in
        let owed : owes t + others owes before after + bit c.done ≤ 1 =
          omega (arith, v.owed, old owes, one) in
        let owed' : owes t + bit c.done ≤ 1 = omega arith in
        let closing : closes t + over c.close_once ≤ begun c.close_once =
          omega (arith, v.one_close, old closes) in
        let locking : locks t + swapped c.state ≤ 1 =
          omega (arith, v.closed, old locks, begun-le c.close_once) in
        record {
          owed = omega (arith, Move-owes m owed', v.owed, old owes, new owes);
          no_crash = omega (arith, Move-crashes m owed', v.no_crash, old crashes, new crashes);
          result = omega (
            arith,
            Move-written m (others written before after)
                (omega (arith, owed, le written owes written-le))
                (omega (arith, v.result, old written)),
            new written,
          );
          one_dial = omega (arith, Move-in_dial m, v.one_dial, old in_dial, new in_dial);
          one_close =
              omega (arith, Move-closes m owed' closing, v.one_close, old closes, new closes);
          closed = omega (arith, Move-swapped m locking closing, v.closed, old locks, new locks);
          reached = omega (
            arith,
            Move-dials m (others dials before after) (others to_cancel before after) one
                (omega (arith, v.one_dial, old in_dial, le dials in_dial dials-le))
                (omega (arith, v.reached, old dials, old to_cancel)),
            new dials,
            new to_cancel,
          );
          no_cancel = Move-dial_cancel m v.no_cancel;
          conn_reached = omega (
            arith,
            Move-conn m (others to_close_conn before after)
                (omega (arith, v.conn_reached, old to_close_conn)),
            new to_close_conn,
          );
        }

  pub Step-IsValid : {w w' : World E} → Threads.Step Move w w' → IsValid w → IsValid w'
  Step-IsValid (step before t after m) v = step-IsValid before t after m v

  -- What a program comes to that makes a client and calls it.
  pub record IsReachable (w : World E) : Type ℓ where
    pub start : SessionClient E
    pub has_made : new_session_client true true ≡ made start
    pub calls : List (Thread E)
    pub are_calls : AreCalls calls
    pub steps : Threads.Steps Move (start, calls) w

  pub IsReachable-IsValid : (w : World E) → IsReachable w → IsValid w
  IsReachable-IsValid w r =
      Steps-keep Move IsValid (λ w w' s. Step-IsValid s) r.steps
        (if_made (λ (c : SessionClient E). IsValid (c, r.calls)) r.has_made
          (new-IsValid r.calls r.are_calls))

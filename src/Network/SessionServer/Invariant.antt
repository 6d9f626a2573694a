-- ===== src/Network/SessionServer/Invariant.antt =====
-- The invariant of a server and its goroutines, common/network/session_server.go.
use go_tools.Base.{
  ℕ, ◌+◌, ◌≡◌, ◌≤◌, ◌<◌, ltb, true, false, List, [], ◌∷◌, ◌++◌, Option, arith, refl, ap,
}
use go_tools.Base.Keys.{nat_eq}
use go_tools.Base.Maps
use go_tools.Base.Threads.{
  bit, bit-le, total, total-le, others, total-one, total-among, step, Steps-keep,
}
use go_tools.Base.Threads
use go_tools.Network.Conn.Counts.{begun, over, begun-le}
use go_tools.Network.SessionClient.Counts.{started, swapped, started-le}
use go_tools.Network.SessionManager.{SessionManager}
use go_tools.Network.SessionServer.{
  SessionServer, new_session_server, manager_of, made, not_made, Made, by_caller, Thread, serve,
  close,
}
use go_tools.Network.SessionServer.Moves.{Move}
use go_tools.Network.SessionServer.Counts.{
  accepts, serve_ends, past, runs_any, crashes, to_set, to_stop, to_close_listener, closes,
  Move-runs_any, Move-crashes, Move-serve, Move-past, Move-closes, Move-to_set, Move-to_stop,
  Move-to_close_listener,
}
use go_tools.Network.SessionServer.Registry.{
  occurs, registered, holds, runs, pending, Move-holds, Move-runs, Move-pending,
}

abbrev IfMade {ℓ} : {E : Type ℓ} → (SessionServer E → Type ℓ) → Made E → Type ℓ
IfMade P (made s) = P s
IfMade P (not_made err) = Unit

if_made {ℓ} :
    {E : Type ℓ} (P : SessionServer E → Type ℓ) {m : Made E} {s : SessionServer E}
    → m ≡ made s
    → IfMade P m
    → P s
if_made P e h = rw e at h

abbrev pub World {ℓ} : Type ℓ → Type ℓ
World E = SessionServer E × List (Thread E)

module _ {ℓ} {E : Type ℓ} where
  -- The calls that a program makes of a server.
  pub data IsCall : Thread E → Type ℓ where
    calls_serve : IsCall serve
    calls_close : IsCall (close by_caller)

  abbrev pub AreCalls : List (Thread E) → Type ℓ
  AreCalls [] = Unit
  AreCalls (t ∷ ts) = IsCall t × AreCalls ts

  -- Nothing counts a call that has not begun.
  total-AreCalls :
      (f : Thread E → ℕ)
      → f serve ≡ 0
      → f (close by_caller) ≡ 0
      → (ts : List (Thread E)) → AreCalls ts
      → total f ts ≡ 0
  total-AreCalls f a b [] calls = refl
  total-AreCalls f a b (_ ∷ ts) (calls_serve, calls) =
      omega (arith, a, total-AreCalls f a b ts calls)
  total-AreCalls f a b (_ ∷ ts) (calls_close, calls) =
      omega (arith, b, total-AreCalls f a b ts calls)

  runs-le : (i : ℕ) (t : Thread E) → runs i t ≤ holds i t
  runs-le i serve = omega arith
  runs-le i _ = omega arith

  pub record IsValid (w : World E) : Type ℓ where
    pub counted : w.0.wg ≡ total runs_any w.1
    pub no_crash : total crashes w.1 ≡ 0
    pub one_serve : total accepts w.1 + total serve_ends w.1 + total past w.1 ≤ started w.0.state
    pub waited : 0 < total past w.1 → w.0.wg ≡ 0
    pub one_close : total closes w.1 + over w.0.close_once ≡ begun w.0.close_once
    pub state_set : total to_set w.1 + swapped w.0.state ≡ begun w.0.close_once
    pub stopped : total to_stop w.1 + bit w.0.session_mgr.closed ≡ begun w.0.close_once
    pub listener : total to_close_listener w.1 + bit w.0.listener_closed ≡ begun w.0.close_once
    pub held : (i : ℕ) → total (holds i) w.1 + bit (ltb w.0.next_id i) ≤ 1
    pub in_table : (i : ℕ) → total (runs i) w.1 ≤ registered i w.0.session_mgr.conns
    pub reached :
        (i : ℕ)
        → bit w.0.session_mgr.closed + registered i w.0.session_mgr.conns
          ≤ 1 + total (pending i) w.1 + occurs i w.0.closed_conns

  new-IsValid :
      (manager : Option (SessionManager ℕ E)) (next_id : ℕ) (ts : List (Thread E))
      → (manager_of manager).closed ≡ false
      → AreCalls ts
      → IfMade
          (λ (s : SessionServer E). IsValid (s, ts))
          (new_session_server true true manager next_id)
  unfolding new_session_server
  new-IsValid manager next_id ts open_ calls = record {
    counted = omega (arith, total-AreCalls runs_any refl refl ts calls);
    no_crash = total-AreCalls crashes refl refl ts calls;
    one_serve = omega (
      arith,
      total-AreCalls accepts refl refl ts calls,
      total-AreCalls serve_ends refl refl ts calls,
      total-AreCalls past refl refl ts calls,
    );
    waited = λ p. refl;
    one_close = omega (arith, total-AreCalls closes refl refl ts calls);
    state_set = omega (arith, total-AreCalls to_set refl refl ts calls);
    stopped = omega (arith, total-AreCalls to_stop refl refl ts calls, ap bit open_);
    listener = omega (arith, total-AreCalls to_close_listener refl refl ts calls);
    held = λ i. omega (arith, total-AreCalls (holds i) refl refl ts calls, bit-le (ltb next_id i));
    in_table = λ i. omega (arith, total-AreCalls (runs i) refl refl ts calls);
    reached =
        λ i. omega (arith, ap bit open_, bit-le (Maps.has nat_eq i (manager_of manager).conns));
  }

  module _ {s s' : SessionServer E} {next : List (Thread E)} (before : List (Thread E))
      (t : Thread E) (after : List (Thread E)) where
    step-IsValid :
        Move s t s' next
        → IsValid (s, before ++ t ∷ after)
        → IsValid (s', before ++ (next ++ after))
    step-IsValid m v =
        let old = λ (f : Thread E → ℕ). total-one f before after t in
        let new = λ (f : Thread E → ℕ). total-among f before after next in
        let le : (f g : Thread E → ℕ)
            → ((t : Thread E) → f t ≤ g t)
            → others f before after ≤ others g before after =
          λ f g h. omega (arith, total-le f g before h, total-le f g after h) in
        let one : runs_any t ≤ s.wg = omega (arith, v.counted, old runs_any) in
        let closing : closes t + over s.close_once ≤ begun s.close_once =
          omega (arith, v.one_close, old closes) in
        let begun_once = begun-le s.close_once in
        record {
          counted = omega (arith, Move-runs_any m one, v.counted, old runs_any, new runs_any);
          no_crash = omega (arith, Move-crashes m one, v.no_crash, old crashes, new crashes);
          one_serve = omega (
            arith,
            Move-serve m,
            v.one_serve,
            old accepts,
            new accepts,
            old serve_ends,
            new serve_ends,
            old past,
            new past,
          );
          waited = λ p.
              Move-past m (others past before after)
                (omega
                  (arith, v.one_serve, old accepts, old serve_ends, old past, started-le s.state))
                (λ q. v.waited (omega (arith, q, old past))) (omega (arith, p, new past));
          one_close = omega (arith, Move-closes m closing, v.one_close, old closes, new closes);
          state_set = omega (
            arith,
            Move-to_set m (omega (arith, v.state_set, old to_set, begun_once)) closing,
            v.state_set,
            old to_set,
            new to_set,
          );
          stopped = omega (
            arith,
            Move-to_stop m (omega (arith, v.stopped, old to_stop, begun_once)) closing,
            v.stopped,
            old to_stop,
            new to_stop,
          );
          listener = omega (
            arith,
            Move-to_close_listener m (omega (arith, v.listener, old to_close_listener, begun_once))
                closing,
            v.listener,
            old to_close_listener,
            new to_close_listener,
          );
          held = λ i. omega (
            arith,
            Move-holds i m (others (holds i) before after) (omega (arith, v.held i, old (holds i))),
            new (holds i),
          );
          in_table = λ i. omega (
            arith,
            Move-runs i m (others (runs i) before after)
                (omega (arith, v.held i, old (holds i), le (runs i) (holds i) (runs-le i)))
                (omega (arith, v.in_table i, old (runs i))),
            new (runs i),
          );
          reached = λ i. omega (
            arith,
            Move-pending i m (others (pending i) before after)
                (omega (arith, v.reached i, old (pending i))),
            new (pending i),
          );
        }

  Step-IsValid : {w w' : World E} → Threads.Step Move w w' → IsValid w → IsValid w'
  Step-IsValid (step before t after m) v = step-IsValid before t after m v

  -- What a program comes to that makes a server, with a manager that is not closed, and calls it.
  pub record IsReachable (w : World E) : Type ℓ where
    pub manager : Option (SessionManager ℕ E)
    pub next_id : ℕ
    pub start : SessionServer E
    pub is_open : (manager_of manager).closed ≡ false
    pub has_made : new_session_server true true manager next_id ≡ made start
    pub calls : List (Thread E)
    pub are_calls : AreCalls calls
    pub steps : Threads.Steps Move (start, calls) w

  pub IsReachable-IsValid : (w : World E) → IsReachable w → IsValid w
  IsReachable-IsValid w r =
      Steps-keep Move IsValid (λ w w' s. Step-IsValid s) r.steps
        (if_made (λ (s : SessionServer E). IsValid (s, r.calls)) r.has_made
          (new-IsValid r.manager r.next_id r.calls r.is_open r.are_calls))

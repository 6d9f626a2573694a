-- ===== src/Network/Conn/Liveness.antt =====
-- The end of every goroutine of a cancelled connection, common/network/conn_impl.go.
use go_tools.Base.{
  ◌+◌, ◌≡◌, ◌≤◌, ◌<◌, List, [], ◌∷◌, ◌++◌, some, none, arith, refl, ap, sym, ◌⊎◌, inl, inr,
  Bool-cases, ltb,
}
use go_tools.Base.Threads.{total, total-sum, total-le, total-one, total-among, Among, find_positive}
use go_tools.Network.Conn.{
  Conn, shut_down, ConnDependencies, ConnError, Once, not_begun, running, finished, Thread, run,
  send, send_checks, send_waits, sent, closing, shutting, closed, crashed,
}
use go_tools.Network.Conn.Moves.{Move, move_calls, World, Step, Steps}
use go_tools.Base.Threads.{step, done, and_then, count}
use mathlib.Core.Path.{subst}
use go_tools.Network.Conn.Counts.{over, begun, has, shuts, crashes, loop, of_loop-le, to_loop-le}
use go_tools.Network.Conn.Invariant.{IsValid, Steps-IsValid}
use go_tools.Network.Conn.Moves.Calls.{shut}
use go_tools.Network.Conn.Shutdown.{rank, going, Move-rank}
use go_tools.Network.Conn.Ready.{CanMove, can_move}
use go_tools.Network.Conn.Closing.{IsReachable, IsReachable-IsValid, Steps-keeps_cause}

module _ {ℓ κ} {P : Type ℓ} {E : Type κ} (d : ConnDependencies P E) where
  Step-rank :
      {w w' : World P E} → Step d w w' → has w.0.cause ≡ 1 → total rank w'.1 < total rank w.1
  Step-rank (step {next = next} before t after m) h =
      omega
        (arith, Move-rank d m h, total-one rank before after t, total-among rank before after next)

  Steps-rank :
      {w w' : World P E} {err : ConnError E} (s : Steps d w w')
      → IsValid w
      → w.0.cause ≡ some err
      → count (Move d) s + total rank w'.1 ≤ total rank w.1
  Steps-rank done v cause = omega arith
  Steps-rank (and_then ws s) v cause =
      omega (arith, Step-rank s (ap has (Steps-keeps_cause d ws v cause)), Steps-rank ws v cause)

  going-le : (t : Thread P E) → going t ≤ rank t + crashes t
  going-le run = omega arith
  going-le crashed = omega arith
  going-le _ = omega arith

  -- A goroutine of a program can move.
  abbrev pub CanStep : World P E → Type (ℓ ⊔ κ)
  CanStep w = (w' : World P E) × Step d w w'

  step_of :
      (c : Conn E) (ts : List (Thread P E)) (t : Thread P E)
      → Among t ts
      → CanMove d c t
      → CanStep (c, ts)
  step_of c ts t a m = (
    (m.after, a.before ++ (m.next ++ a.after)),
    subst (λ (l : List (Thread P E)). Step d (c, l) (m.after, a.before ++ (m.next ++ a.after)))
        (sym a.split) (step a.before t a.after m.move),
  )

  shut_step : (c : Conn E) (t : Thread P E) → 0 < shuts t → CanMove d c t
  shut_step c (shutting k) p = record {
    after = shut_down c none;
    next = closed k ∷ [];
    move = move_calls (shut none);
  }
  shut_step c run p = absurd (omega arith)
  shut_step c _ p = absurd (omega arith)

  loop-rank : (t : Thread P E) → loop t ≤ rank t
  loop-rank (send s packet) = omega (arith, of_loop-le s)
  loop-rank (send_checks s packet) = omega (arith, of_loop-le s)
  loop-rank (send_waits s packet) = omega (arith, of_loop-le s)
  loop-rank (sent s packet) = omega (arith, of_loop-le s)
  loop-rank (closing err k) = omega (arith, to_loop-le k)
  loop-rank (shutting k) = omega (arith, to_loop-le k)
  loop-rank (closed k) = omega (arith, to_loop-le k)
  loop-rank _ = omega arith

  -- Once cancelled, some goroutine can move as long as one has not returned.
  goes_on :
      (w : World P E) {err : ConnError E}
      → IsValid w
      → w.0.cause ≡ some err
      → 0 < total rank w.1
      → (o : Once) → w.0.close_once ≡ o
      → CanStep w
  goes_on (c, ts) v late p not_begun e =
      absurd (omega (arith, ap has late, ap begun e, v.cancelled))
  goes_on (c, ts) v late p running e =
      let (t, a, q) = find_positive shuts ts (omega (arith, v.shut_once, ap begun e, ap over e)) in
      step_of c ts t a (shut_step c t q)
  goes_on (c, ts) v late p finished e = elim (Bool-cases (ltb 0 c.wg)) [
    | inl busy ↦
        let (t, a, q) = find_positive loop ts (ground (arith, v.loops)) in
        step_of c ts t a (can_move d c late t e (inl q) (omega (arith, q, loop-rank t)))
    | inr idle ↦
        let (t, a, q) = find_positive rank ts p in
        step_of c ts t a (can_move d c late t e (inr (ground arith)) q)
  ]

  -- Once the context of a connection is cancelled, its goroutines make a bounded number of steps, whatever
  -- the foreign code answers, and until all of them have returned one of them can move.
  pub shutdown_ends :
      (w w' : World P E) (err : ConnError E)
      → IsReachable d w
      → w.0.cause ≡ some err
      → (s : Steps d w w')
      → (count (Move d) s ≤ total rank w.1) × ((total going w'.1 ≡ 0) ⊎ CanStep w')
  shutdown_ends w w' err r late s =
      let v = IsReachable-IsValid d w r in
      let v' = Steps-IsValid d s v in
      (
        omega (arith, Steps-rank s v late),
        elim (Bool-cases (ltb 0 (total rank w'.1))) [
          | inl more ↦
              inr (goes_on w' v' (Steps-keeps_cause d s v late) (ground arith) w'.0.close_once refl)
          | inr none_left ↦ inl (
              ground (
                arith,
                total-le going (λ t. rank t + crashes t) w'.1 going-le,
                total-sum rank crashes w'.1,
                v'.no_crash,
              ))
        ],
      )

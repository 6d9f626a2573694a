-- ===== src/Network/Conn/Closing.antt =====
-- A connection from newConn to OnClose, common/network/conn_impl.go.
use go_tools.Base.{ℕ, ◌≡◌, ◌≤◌, ◌<◌, true, List, ◌++◌, some, arith, refl, ap, length, ◌%◌}
use go_tools.Base.Threads.{bit-le, total, if_some, IfSome}
use go_tools.Network.Conn.{Conn, ConnConfig, new_conn, ConnDependencies, ConnError, Thread}
use go_tools.Network.Conn.Moves.{Move, move_calls, move_loops, move_calls_back, World, Step, Steps}
use go_tools.Base.Threads.{step, done, and_then}
use go_tools.Base.Int.{two_pow_64}
use go_tools.Base.Bytes.{Bytes}
use go_tools.Network.Conn.Counts.{begun, has, crashes, loop}
use go_tools.Network.Conn.Lifecycle.{early}
use go_tools.Network.Conn.Order.{size_of, hands}
use go_tools.Network.Conn.Invariant.{AreCalls, IsValid, idle-IsValid, Steps-IsValid}
use go_tools.Network.Conn.Moves.Calls.{close_first}
use go_tools.Network.Conn.Moves.Calls.{no_on_open}
use go_tools.Network.Conn.Moves.Loops.{write_done}

module _ {ℓ κ} {P : Type ℓ} {E : Type κ} (d : ConnDependencies P E) where
  -- What a program comes to that makes a connection and calls it.
  pub record IsReachable (w : World P E) : Type (ℓ ⊔ κ) where
    pub id : ℕ
    pub conf : ConnConfig
    pub start : Conn E
    pub made : new_conn true id conf ≡ some start
    pub calls : List (Thread P E)
    pub are_calls : AreCalls calls
    pub steps : Steps d (start, calls) w

  new_conn-IsValid :
      (id : ℕ) (conf : ConnConfig) (calls : List (Thread P E))
      → AreCalls calls
      → IfSome (λ (c : Conn E). IsValid (c, calls)) (new_conn true id conf)
  unfolding new_conn
  new_conn-IsValid id conf calls are =
      idle-IsValid _ calls are refl refl refl refl refl refl refl (refl, refl)

  pub IsReachable-IsValid : (w : World P E) → IsReachable w → IsValid w
  IsReachable-IsValid w r = Steps-IsValid d r.steps (
      if_some (λ c. IsValid (c, r.calls)) r.made (new_conn-IsValid r.id r.conf r.calls r.are_calls))

  -- The WaitGroup of a connection counts the goroutines of its loops, and none of them panics on it.
  pub wg_counts_loops :
      (w : World P E) → IsReachable w → (w.0.wg ≡ total loop w.1) × (total crashes w.1 ≡ 0)
  wg_counts_loops w r = let v = IsReachable-IsValid w r in (v.loops, v.no_crash)

  Move-keeps_cause :
      {c c' : Conn E} {t : Thread P E} {next : List (Thread P E)} {err : ConnError E}
      → Move d c t c' next
      → has c.cause ≡ begun c.close_once
      → c.cause ≡ some err
      → c'.cause ≡ some err
  Move-keeps_cause (move_calls (close_first e)) h cause =
      absurd (omega (arith, ap has cause, ap begun e))
  Move-keeps_cause (move_calls _) h cause = cause
  Move-keeps_cause (move_loops (write_done e)) h cause = cause
  Move-keeps_cause (move_loops _) h cause = cause
  Move-keeps_cause (move_calls_back (no_on_open e)) h cause = cause
  Move-keeps_cause (move_calls_back _) h cause = cause

  Step-keeps_cause :
      {w w' : World P E} {err : ConnError E}
      → Step d w w'
      → IsValid w
      → w.0.cause ≡ some err
      → w'.0.cause ≡ some err
  Step-keeps_cause (step before t after m) v cause = Move-keeps_cause m v.cancelled cause

  pub Steps-keeps_cause :
      {w w' : World P E} {err : ConnError E}
      → Steps d w w'
      → IsValid w
      → w.0.cause ≡ some err
      → w'.0.cause ≡ some err
  Steps-keeps_cause done v cause = cause
  Steps-keeps_cause (and_then ws s) v cause =
      Step-keeps_cause s (Steps-IsValid d ws v) (Steps-keeps_cause ws v cause)

  -- The first cause of the end of a connection stays its cause, whoever closes it later and why.
  pub first_cause_kept :
      (w w' : World P E) (err : ConnError E)
      → IsReachable w
      → w.0.cause ≡ some err
      → Steps d w w'
      → w'.0.cause ≡ some err
  first_cause_kept w w' err r cause steps = Steps-keeps_cause steps (IsReachable-IsValid w r) cause

  -- The transport is closed at most once, and after a cause was recorded; OnClose is called at most once.
  pub closed_at_most_once :
      (w : World P E) → IsReachable w → (w.0.closes ≤ has w.0.cause) × (w.0.ends ≤ 1)
  closed_at_most_once w r =
      let v = IsReachable-IsValid w r in
      (
        omega (arith, v.closed_once, v.cancelled, v.shut_once),
        omega (arith, v.one_run, bit-le w.0.started),
      )

  -- When OnClose has been called, the transport has been closed, no goroutine of a loop is left and none
  -- will be started.
  pub on_close_last :
      (w : World P E)
      → IsReachable w
      → 0 < w.0.ends
      → (w.0.closes ≡ 1) × ((total loop w.1 ≡ 0) × (total early w.1 ≡ 0))
  on_close_last w r called =
      let v = IsReachable-IsValid w r in
      (
        omega (arith, v.closed_once, v.shut_first (omega arith)),
        (
          omega (arith, v.loops, v.waited (omega arith)),
          omega (arith, v.one_run, bit-le w.0.started),
        ),
      )

  -- The messages that were written whole are the first that joined the queue, in the same order, and the
  -- statistics count them and their bytes modulo 2^64.
  pub written_in_order :
      (w : World P E)
      → IsReachable w
      → ((rest : List Bytes) × (w.0.accepted ≡ w.0.written ++ rest))
        × ((w.0.statistics.write_messages ≡ length w.0.written % two_pow_64)
            × (w.0.statistics.write_bytes ≡ size_of w.0.written % two_pow_64))
  written_in_order w r =
      let v = IsReachable-IsValid w r in
      ((w.0.dropped ++ (hands w.1 ++ w.0.send_queue), v.in_order), v.counted)

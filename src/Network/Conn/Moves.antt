-- ===== src/Network/Conn/Moves.antt =====
-- The moves of the goroutines of common/network/conn_impl.go, and the runs of a program of them.
pub mod Calls
pub mod Loops
use go_tools.Base.{List}
use go_tools.Network.Conn.{Conn, ConnDependencies, Thread}
use go_tools.Base.Threads
use go_tools.Network.Conn.Moves.Calls.{CallMove, CallbackMove}
use go_tools.Network.Conn.Moves.Loops.{LoopMove}

-- A connection and the goroutines that use it.
abbrev pub World {ℓ κ} : Type ℓ → Type κ → Type (ℓ ⊔ κ)
World P E = Conn E × List (Thread P E)

module _ {ℓ κ} {P : Type ℓ} {E : Type κ} (d : ConnDependencies P E) where
  -- `Move c t c' next`: the goroutine at `t` moves, and `next` takes its place.
  pub data Move (c : Conn E) : Thread P E → Conn E → List (Thread P E) → Type (ℓ ⊔ κ) where
    move_calls :
        {t : Thread P E} {c' : Conn E} {next : List (Thread P E)}
        → CallMove d c t c' next
        → Move c t c' next
    move_loops :
        {t : Thread P E} {c' : Conn E} {next : List (Thread P E)}
        → LoopMove d c t c' next
        → Move c t c' next
    move_calls_back :
        {t : Thread P E} {c' : Conn E} {next : List (Thread P E)}
        → CallbackMove d c t c' next
        → Move c t c' next

  abbrev pub Step : World P E → World P E → Type (ℓ ⊔ κ)
  Step = Threads.Step Move

  abbrev pub Steps : World P E → World P E → Type (ℓ ⊔ κ)
  Steps = Threads.Steps Move

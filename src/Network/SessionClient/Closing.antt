-- ===== src/Network/SessionClient/Closing.antt =====
-- The end of a client, common/network/session_client.go: Wait gets one result, and Close leaves nothing open.
use go_tools.Base.{◌+◌, ◌≡◌, ◌≤◌, true, List, [], ◌∷◌, Option, arith, refl, sym, ap, ◌∙◌}
use go_tools.Base.Threads.{bit, total, total-le, total-one, step, done, Steps-keep}
use go_tools.Base.Threads
use go_tools.Network.Conn.{finished}
use go_tools.Network.Conn.Counts.{has, begun, over}
use go_tools.Network.SessionClient.{ClientError, SessionClient, Thread, waiting, returned}
use go_tools.Network.SessionClient.Moves.{Move, move_dial, move_end, wait_over}
use go_tools.Network.SessionClient.Counts.{
  started, started-le, swapped, owes, crashes, dials, closes, locks, to_cancel, to_close_conn,
  Move-wait_err,
}
use go_tools.Network.SessionClient.Invariant.{
  World, IsValid, IsReachable, IsReachable-IsValid, Step-IsValid, locks-le, to_cancel-le,
  to_close_conn-le,
}

module _ {ℓ} {E : Type ℓ} where
  -- A client that was dialed or closed has one goroutine that is to close `done`, until it is closed; it is
  -- never closed twice, which would panic.
  pub finish_once :
      (w : World E)
      → IsReachable w
      → (total owes w.1 + bit w.0.done ≡ started w.0.state) × (total crashes w.1 ≡ 0)
  finish_once w r = let v = IsReachable-IsValid w r in (v.owed, v.no_crash)

  Step-wait_err :
      (err : Option (ClientError E)) (w w' : World E)
      → Threads.Step Move w w'
      → IsValid w × ((w.0.done ≡ true) × (w.0.wait_err ≡ err))
      → IsValid w' × ((w'.0.done ≡ true) × (w'.0.wait_err ≡ err))
  Step-wait_err err _ _ (step {c = c} before t after m) (v, over) =
      let (ready, result) = over in
      let (ready', same) =
        Move-wait_err m (omega (arith, v.owed, total-one owes before after t, started-le c.state))
          ready in
      (Step-IsValid (step before t after m) v, (ready', same ∙ result))

  result_kept :
      (w w' : World E)
      → IsReachable w
      → w.0.done ≡ true
      → Threads.Steps Move w w'
      → ((w'.0.done ≡ true) × (w'.0.wait_err ≡ w.0.wait_err)) × (1 ≤ has w.0.wait_err)
  result_kept w w' r ready s =
      let v = IsReachable-IsValid w r in
      let (v', kept) =
        Steps-keep Move
          (λ (u : World E). IsValid u × ((u.0.done ≡ true) × (u.0.wait_err ≡ w.0.wait_err)))
          (Step-wait_err w.0.wait_err) s (v, (ready, refl)) in
      (kept, omega (arith, v.result, ap bit ready))

  waits :
      {c c' : SessionClient E} {next : List (Thread E)}
      → Move c waiting c' next
      → (c.done ≡ true) × (next ≡ returned c.wait_err ∷ [])
  waits (move_end (wait_over ready)) = (ready, refl)
  waits (move_dial m) = elim m [ ]

  -- In every reachable state a Wait that goes on returns an error that `finish` has set; and a Wait that
  -- goes on after any more steps returns the same one.
  pub wait_result_kept :
      (w w' : World E) {c c' : SessionClient E} {next next' : List (Thread E)}
      → IsReachable w
      → Move w.0 waiting c next
      → Threads.Steps Move w w'
      → Move w'.0 waiting c' next'
      → (next ≡ returned w.0.wait_err ∷ []) × (1 ≤ has w.0.wait_err) × (next' ≡ next)
  wait_result_kept w w' r first s second =
      let (ready, result) = waits first in
      let ((still, same), there) = result_kept w w' r ready s in
      let (_, result') = waits second in
      (result, there, result' ∙ (ap (λ err. returned err ∷ []) same ∙ sym result))

  -- When Close has returned, a connection that was published has been closed, and the context of a dial
  -- that goes on has been cancelled.
  pub close_reaches_all :
      (w : World E)
      → IsReachable w
      → w.0.close_once ≡ finished
      → (bit w.0.conn ≤ bit w.0.conn_closed) × (total dials w.1 ≤ bit w.0.dial_cancelled)
  close_reaches_all w r e =
      let v = IsReachable-IsValid w r in
      let none_left : total closes w.1 ≡ 0 = omega (arith, v.one_close, ap over e, ap begun e) in
      let locked = total-le locks closes w.1 locks-le in
      let shut : swapped w.0.state ≡ 1 = omega (arith, v.closed, ap begun e) in
      (
        omega (arith, v.conn_reached, total-le to_close_conn closes w.1 to_close_conn-le),
        omega (arith, v.reached, v.no_cancel, total-le to_cancel closes w.1 to_cancel-le),
      )

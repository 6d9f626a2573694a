-- ===== src/Network/WsListener/Counts.antt =====
-- The counters of the listener of common/network/ws_impl.go, against the goroutines that they count.
use go_tools.Base.{ℕ, ◌+◌, ◌≡◌, ◌≤◌, ◌<◌, List, arith, ap}
use go_tools.Base.Threads.{bit, total}
use go_tools.Network.Conn.Counts.{begun, over, begun-le}
use go_tools.Network.WsListener.{
  WsListenerImpl, Thread, wants_slot, upgrading, offering, frees_slot, wg_done, holds, close_sets,
  close_server, close_waits, close_over, crashed, Move, move_upgrade, move_close, refused, counted,
  takes_slot, offer_taken, offer_late, handler_leaves, handler_crashes, accept_takes, close_first,
  close_later, waited, close_done,
}

module _ {ℓ} {E : Type ℓ} where
  -- The handlers that hold a slot.
  abbrev pub in_slot : Thread E → ℕ
  in_slot upgrading = 1
  in_slot offering = 1
  in_slot frees_slot = 1
  in_slot _ = 0

  -- The handlers that the WaitGroup counts.
  abbrev pub handles : Thread E → ℕ
  handles wants_slot = 1
  handles upgrading = 1
  handles offering = 1
  handles frees_slot = 1
  handles wg_done = 1
  handles _ = 0

  abbrev pub crashes : Thread E → ℕ
  crashes crashed = 1
  crashes _ = 0

  -- The handlers at the queue, and the transports in the hands of Accept.
  abbrev pub offers_one : Thread E → ℕ
  offers_one offering = 1
  offers_one _ = 0

  abbrev pub holds_one : Thread E → ℕ
  holds_one holds = 1
  holds_one _ = 0

  -- The goroutine in the function of closeOnce: before it sets the mark, at all, and after its Wait.
  abbrev pub to_set : Thread E → ℕ
  to_set (close_sets _) = 1
  to_set _ = 0

  abbrev pub closes : Thread E → ℕ
  closes (close_sets _) = 1
  closes close_server = 1
  closes close_waits = 1
  closes close_over = 1
  closes _ = 0

  abbrev pub past : Thread E → ℕ
  past close_over = 1
  past _ = 0

  pub Move-slots :
      {ln ln' : WsListenerImpl E} {t : Thread E} {next : List (Thread E)}
      → Move ln t ln' next
      → in_slot t ≤ ln.pending_slots
      → ln'.pending_slots + in_slot t ≡ ln.pending_slots + total in_slot next
  Move-slots (move_upgrade (refused e)) h = omega arith
  Move-slots (move_upgrade _) h = omega arith
  Move-slots (move_close (close_later e)) h = omega arith
  Move-slots (move_close _) h = omega arith

  pub Move-limit :
      {ln ln' : WsListenerImpl E} {t : Thread E} {next : List (Thread E)}
      → Move ln t ln' next
      → ln.pending_slots ≤ ln.max_pending
      → ln'.pending_slots ≤ ln'.max_pending
  Move-limit (move_upgrade (refused e)) h = omega arith
  Move-limit (move_upgrade (takes_slot e)) h = omega arith
  Move-limit (move_upgrade _) h = omega arith
  Move-limit (move_close (close_later e)) h = omega arith
  Move-limit (move_close _) h = omega arith

  pub Move-handles :
      {ln ln' : WsListenerImpl E} {t : Thread E} {next : List (Thread E)}
      → Move ln t ln' next
      → handles t ≤ ln.upgrade_wg
      → ln'.upgrade_wg + handles t ≡ ln.upgrade_wg + total handles next
  Move-handles (move_upgrade (handler_crashes e)) h = absurd (omega arith)
  Move-handles (move_upgrade (refused e)) h = omega arith
  Move-handles (move_upgrade _) h = omega arith
  Move-handles (move_close (close_later e)) h = omega arith
  Move-handles (move_close _) h = omega arith

  pub Move-crashes :
      {ln ln' : WsListenerImpl E} {t : Thread E} {next : List (Thread E)}
      → Move ln t ln' next
      → handles t ≤ ln.upgrade_wg
      → total crashes next ≤ crashes t
  Move-crashes (move_upgrade (handler_crashes e)) h = absurd (omega arith)
  Move-crashes (move_upgrade (refused e)) h = omega arith
  Move-crashes (move_upgrade _) h = omega arith
  Move-crashes (move_close (close_later e)) h = omega arith
  Move-crashes (move_close _) h = omega arith

  -- A handler at the queue has a transport on offer, or one that was taken.
  pub Move-offers :
      {ln ln' : WsListenerImpl E} {t : Thread E} {next : List (Thread E)}
      → Move ln t ln' next
      → ln'.offers + ln'.handed + offers_one t ≡ ln.offers + ln.handed + total offers_one next
  Move-offers (move_upgrade (offer_taken e)) = omega arith
  Move-offers (move_upgrade (offer_late e e')) = omega arith
  Move-offers (move_close (accept_takes e)) = omega arith
  Move-offers (move_upgrade (refused e)) = omega arith
  Move-offers (move_upgrade _) = omega arith
  Move-offers (move_close (close_later e)) = omega arith
  Move-offers (move_close _) = omega arith

  -- No transport is lost.
  pub Move-transports :
      {ln ln' : WsListenerImpl E} {t : Thread E} {next : List (Thread E)}
      → Move ln t ln' next
      → ln'.offers + total holds_one next + ln'.accepted + ln'.shut + ln.upgraded
        ≡ ln.offers + holds_one t + ln.accepted + ln.shut + ln'.upgraded
  Move-transports (move_upgrade (offer_late e e')) = omega arith
  Move-transports (move_close (accept_takes e)) = omega arith
  Move-transports (move_upgrade (refused e)) = omega arith
  Move-transports (move_upgrade _) = omega arith
  Move-transports (move_close (close_later e)) = omega arith
  Move-transports (move_close _) = omega arith

  pub Move-closes :
      {ln ln' : WsListenerImpl E} {t : Thread E} {next : List (Thread E)}
      → Move ln t ln' next
      → closes t + over ln.close_once ≤ begun ln.close_once
      → total closes next + over ln'.close_once + begun ln.close_once
        ≡ closes t + over ln.close_once + begun ln'.close_once
  Move-closes (move_close (close_first e)) h = omega (arith, ap over e, ap begun e)
  Move-closes {ln = ln} (move_close close_done) h = omega (arith, begun-le ln.close_once)
  Move-closes (move_upgrade (refused e)) h = omega arith
  Move-closes (move_upgrade _) h = omega arith
  Move-closes (move_close (close_later e)) h = omega arith
  Move-closes (move_close _) h = omega arith

  pub Move-to_set :
      {ln ln' : WsListenerImpl E} {t : Thread E} {next : List (Thread E)}
      → Move ln t ln' next
      → to_set t + bit ln.closed ≤ 1
      → closes t + over ln.close_once ≤ begun ln.close_once
      → total to_set next + bit ln'.closed + begun ln.close_once
        ≡ to_set t + bit ln.closed + begun ln'.close_once
  Move-to_set (move_close (close_first e)) h h' = omega (arith, ap begun e)
  Move-to_set {ln = ln} (move_close close_done) h h' = omega (arith, begun-le ln.close_once)
  Move-to_set (move_upgrade (refused e)) h h' = omega arith
  Move-to_set (move_upgrade _) h h' = omega arith
  Move-to_set (move_close (close_later e)) h h' = omega arith
  Move-to_set (move_close _) h h' = omega arith

  -- After the Wait no handler is counted: `rest` are the others past it.
  pub Move-past :
      {ln ln' : WsListenerImpl E} {t : Thread E} {next : List (Thread E)}
      → Move ln t ln' next
      → (rest : ℕ) → past t + rest + over ln.close_once ≤ bit ln.closed
      → (0 < past t + rest + over ln.close_once → ln.upgrade_wg ≡ 0)
      → 0 < total past next + rest + over ln'.close_once
      → ln'.upgrade_wg ≡ 0
  Move-past (move_upgrade (counted e)) rest shut h p = absurd (omega (arith, ap bit e))
  Move-past (move_upgrade (handler_leaves e)) rest shut h p = omega (arith, h (omega arith))
  Move-past (move_close (close_first e)) rest shut h p = h (omega (arith, ap over e))
  Move-past (move_close (waited e)) rest shut h p = e
  Move-past (move_upgrade (refused e)) rest shut h p = h (omega arith)
  Move-past (move_upgrade _) rest shut h p = h (omega arith)
  Move-past (move_close (close_later e)) rest shut h p = h (omega arith)
  Move-past (move_close _) rest shut h p = h (omega arith)

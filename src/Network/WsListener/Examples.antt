-- ===== src/Network/WsListener/Examples.antt =====
-- A run of a listener: two requests, one Accept, and Close while the second waits for another.
use go_tools.Base.{ℕ, ◌+◌, ◌≡◌, ◌≤◌, true, false, List, [], ◌∷◌, some, none, arith, refl}
use go_tools.Base.Int.{pos}
use go_tools.Base.Threads.{total, step, done, and_then}
use go_tools.Base.Threads
use go_tools.Network.Conn.{not_begun, finished}
use go_tools.Network.WsListener.{
  WsListenerImpl, new_ws_listener_impl, Thread, handle_upgrade, wants_slot, upgrading, offering,
  frees_slot, wg_done, accept, holds, close_with_cause, close_sets, close_server, close_waits,
  close_over, returned, Move, move_upgrade, move_close, counted, takes_slot, upgrades, offer_taken,
  offer_late, slot_freed, handler_leaves, accept_takes, accepts, close_first, sets_closed,
  closes_server, waited, close_done,
}
use go_tools.Network.WsListener.Counts.{in_slot, handles, crashes, holds_one}
use go_tools.Network.WsListener.Closing.{
  World, calls_upgrade, calls_accept, calls_close, IsReachable, pending_limited, close_loses_none,
}

abbrev fresh : WsListenerImpl ℕ
fresh = record {
  max_pending = 2;
  pending_slots = 0;
  upgrade_wg = 0;
  closed = false;
  accept_err = none;
  close_once = not_begun;
  offers = 0;
  handed = 0;
  upgraded = 0;
  accepted = 0;
  shut = 0;
}

abbrev the_calls : List (Thread ℕ)
the_calls = handle_upgrade ∷ handle_upgrade ∷ accept ∷ close_with_cause 9 ∷ []

-- Both transports are on offer.
abbrev offered_world : World ℕ
offered_world = (
  record fresh { pending_slots = 2; upgrade_wg = 2; offers = 2; upgraded = 2 },
  offering ∷ offering ∷ accept ∷ close_with_cause 9 ∷ [],
)

abbrev last_two : List (Thread ℕ)
last_two = accept ∷ close_with_cause 9 ∷ []

offered_steps : Threads.Steps Move (fresh, the_calls) offered_world
offered_steps =
    and_then
      (and_then
        (and_then
          (and_then
            (and_then
              (and_then done
                (step [] handle_upgrade (handle_upgrade ∷ last_two) (move_upgrade (counted refl))))
              (step [] wants_slot (handle_upgrade ∷ last_two)
                (move_upgrade (takes_slot (omega arith)))))
            (step [] upgrading (handle_upgrade ∷ last_two) (move_upgrade upgrades)))
          (step (offering ∷ []) handle_upgrade last_two (move_upgrade (counted refl))))
        (step (offering ∷ []) wants_slot last_two (move_upgrade (takes_slot (omega arith)))))
      (step (offering ∷ []) upgrading last_two (move_upgrade upgrades))

-- One was accepted, the other closed, and Close has returned.
abbrev over_world : World ℕ
over_world = (
  record fresh {
    closed = true;
    accept_err = some 9;
    close_once = finished;
    upgraded = 2;
    accepted = 1;
    shut = 1;
  },
  returned ∷ returned ∷ [],
)

over_steps : Threads.Steps Move (fresh, the_calls) over_world
over_steps =
    and_then
      (and_then
        (and_then
          (and_then
            (and_then
              (and_then
                (and_then
                  (and_then
                    (and_then
                      (and_then
                        (and_then
                          (and_then
                            (and_then offered_steps (
                              step (offering ∷ offering ∷ []) accept (close_with_cause 9 ∷ [])
                                (move_close (accept_takes (omega arith)))))
                            (step (offering ∷ offering ∷ []) holds (close_with_cause 9 ∷ [])
                              (move_close (accepts refl))))
                          (step (offering ∷ offering ∷ returned ∷ []) (close_with_cause 9) []
                            (move_close (close_first refl))))
                        (step (offering ∷ offering ∷ returned ∷ []) (close_sets 9) []
                          (move_close sets_closed)))
                      (step [] offering (offering ∷ returned ∷ close_server ∷ [])
                        (move_upgrade (offer_taken (omega arith)))))
                    (step [] frees_slot (offering ∷ returned ∷ close_server ∷ [])
                      (move_upgrade slot_freed)))
                  (step [] wg_done (offering ∷ returned ∷ close_server ∷ [])
                    (move_upgrade (handler_leaves (omega arith)))))
                (step [] offering (returned ∷ close_server ∷ [])
                  (move_upgrade (offer_late refl (omega arith)))))
              (step [] frees_slot (returned ∷ close_server ∷ []) (move_upgrade slot_freed)))
            (step [] wg_done (returned ∷ close_server ∷ [])
              (move_upgrade (handler_leaves (omega arith)))))
          (step (returned ∷ []) close_server [] (move_close closes_server)))
        (step (returned ∷ []) close_waits [] (move_close (waited refl))))
      (step (returned ∷ []) close_over [] (move_close close_done))

reached : (w : World ℕ) → Threads.Steps Move (fresh, the_calls) w → IsReachable w
unfolding new_ws_listener_impl
reached w steps = record {
  max = pos 2;
  calls = the_calls;
  are_calls = (calls_upgrade, (calls_upgrade, (calls_accept, (calls_close 9, tt))));
  steps = steps;
}

pending_limited_example :
    (total (in_slot {E = ℕ}) offered_world.1 ≤ 2) × (total (crashes {E = ℕ}) offered_world.1 ≡ 0)
pending_limited_example = pending_limited offered_world (reached offered_world offered_steps)

close_loses_none_example :
    (total (handles {E = ℕ}) over_world.1 ≡ 0)
    × (total (holds_one {E = ℕ}) over_world.1 + 1 + 1 ≡ 2)
close_loses_none_example = close_loses_none over_world (reached over_world over_steps) refl

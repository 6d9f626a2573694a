-- ===== src/Network/SessionServer/Examples.antt =====
-- A run of a server: one connection is accepted, Close is called while it runs, and Serve waits for it.
use go_tools.Base.{ℕ, ◌≡◌, ◌≤◌, true, false, List, [], ◌∷◌, none, arith, refl}
use go_tools.Base.Int.{pos}
use go_tools.Base.Maps
use go_tools.Base.Threads.{bit, total, step, done, and_then}
use go_tools.Base.Threads
use go_tools.Network.Conn.{not_begun, finished}
use go_tools.Network.SessionClient.{session_state_new, session_state_running, session_state_closed}
use go_tools.Network.SessionClient.Counts.{swapped}
use go_tools.Network.SessionManager.{SessionManager, add, remove, new_session_manager}
use go_tools.Network.SessionServer.{
  SessionServer, new_session_server, by_serve, by_caller, Thread, serve, accept_checks, accepting,
  accepted, creating, making, adding, starting, serve_waits, serve_over, runs_conn, removes,
  wg_done, close, close_sets, close_manager, close_conns, close_over, closed,
}
use go_tools.Network.SessionServer.Moves.{
  check_open, check_closed, accept_gives, accepted_open, creates, conn_ends, close_waits, Move,
  move_serve, move_close, serve_first, makes, adds, starts, removed, leaves, waited, close_first,
  close_later, sets_state, stops_manager, closes_conn, closes_listener, close_done,
}
use go_tools.Network.SessionServer.Counts.{accepts, runs_any, crashes}
use go_tools.Network.SessionServer.Registry.{occurs, registered, runs}
use go_tools.Network.SessionServer.Invariant.{World, calls_serve, calls_close, IsReachable}
use go_tools.Network.SessionServer.Closing.{
  serve_returns_last, running_is_registered, close_reaches_connections,
}

abbrev no_conns : SessionManager ℕ ℕ
no_conns = record {
  conns = [];
  max_conns = pos 5000;
  closed = false;
  close_once = false;
  close_err = [];
}

abbrev fresh : SessionServer ℕ
fresh = record {
  session_mgr = no_conns;
  state = session_state_new;
  wg = 0;
  close_once = not_begun;
  close_err = [];
  next_id = 0;
  listener_closed = false;
  closed_conns = [];
}

abbrev the_calls : List (Thread ℕ)
the_calls = serve ∷ close by_caller ∷ []

-- One connection runs.
abbrev running_world : World ℕ
running_world = (
  record fresh {
    session_mgr = record no_conns { conns = (1, 1) ∷ [] };
    state = session_state_running;
    wg = 1;
    next_id = 1;
  },
  accept_checks ∷ runs_conn 1 ∷ close by_caller ∷ [],
)

running_steps : Threads.Steps Move (fresh, the_calls) running_world
unfolding add Maps.lookup Maps.insert
running_steps =
    and_then
      (and_then
        (and_then
          (and_then
            (and_then
              (and_then
                (and_then
                  (and_then done
                    (step [] serve (close by_caller ∷ []) (move_serve (serve_first refl))))
                  (step [] accept_checks (close by_caller ∷ []) (move_serve (check_open refl))))
                (step [] accepting (close by_caller ∷ []) (move_serve accept_gives)))
              (step [] accepted (close by_caller ∷ []) (move_serve (accepted_open refl))))
            (step [] creating (close by_caller ∷ []) (move_serve creates)))
          (step [] making (close by_caller ∷ []) (move_serve (makes 1 (omega arith)))))
        (step [] (adding 1) (close by_caller ∷ []) (move_serve (adds refl))))
      (step [] (starting 1) (close by_caller ∷ []) (move_serve starts))

-- Close has returned, and the connection is about to end.
abbrev closed_world : World ℕ
closed_world = (
  record fresh {
    session_mgr = record no_conns { conns = (1, 1) ∷ []; closed = true; close_once = true };
    state = session_state_closed;
    wg = 1;
    close_once = finished;
    next_id = 1;
    listener_closed = true;
    closed_conns = 1 ∷ [];
  },
  accept_checks ∷ runs_conn 1 ∷ closed by_caller ∷ [],
)

closed_steps : Threads.Steps Move (fresh, the_calls) closed_world
closed_steps =
    and_then
      (and_then
        (and_then
          (and_then
            (and_then
              (and_then running_steps (
                step (accept_checks ∷ runs_conn 1 ∷ []) (close by_caller) []
                  (move_close (close_first refl))))
              (step (accept_checks ∷ runs_conn 1 ∷ []) (close_sets by_caller) []
                (move_close sets_state)))
            (step (accept_checks ∷ runs_conn 1 ∷ []) (close_manager by_caller) []
              (move_close stops_manager)))
          (step (accept_checks ∷ runs_conn 1 ∷ []) (close_conns (1 ∷ []) by_caller) []
            (move_close (closes_conn none))))
        (step (accept_checks ∷ runs_conn 1 ∷ []) (close_conns [] by_caller) []
          (move_close (closes_listener none))))
      (step (accept_checks ∷ runs_conn 1 ∷ []) (close_over by_caller) [] (move_close close_done))

-- Serve has returned.
abbrev over_world : World ℕ
over_world = (
  record closed_world.0 { session_mgr = record closed_world.0.session_mgr { conns = [] }; wg = 0 },
  serve_over none ∷ closed by_caller ∷ [],
)

over_steps : Threads.Steps Move (fresh, the_calls) over_world
unfolding remove Maps.erase
over_steps =
    and_then
      (and_then
        (and_then
          (and_then
            (and_then
              (and_then
                (and_then closed_steps (
                  step [] accept_checks (runs_conn 1 ∷ closed by_caller ∷ [])
                    (move_serve (check_closed refl))))
                (step [] (close (by_serve none)) (runs_conn 1 ∷ closed by_caller ∷ [])
                  (move_close (close_later refl))))
              (step [] (closed (by_serve none)) (runs_conn 1 ∷ closed by_caller ∷ [])
                (move_close close_waits)))
            (step (serve_waits none ∷ []) (runs_conn 1) (closed by_caller ∷ [])
              (move_serve conn_ends)))
          (step (serve_waits none ∷ []) (removes 1) (closed by_caller ∷ []) (move_serve removed)))
        (step (serve_waits none ∷ []) wg_done (closed by_caller ∷ [])
          (move_serve (leaves (omega arith)))))
      (step [] (serve_waits none) (closed by_caller ∷ []) (move_serve (waited refl)))

reached : (w : World ℕ) → Threads.Steps Move (fresh, the_calls) w → IsReachable w
unfolding new_session_server new_session_manager
reached w steps = record {
  manager = none;
  next_id = 0;
  start = fresh;
  is_open = refl;
  has_made = refl;
  calls = the_calls;
  are_calls = (calls_serve, (calls_close, tt));
  steps = steps;
}

serve_returns_last_example :
    (total (runs_any {E = ℕ}) over_world.1 ≡ 0) × (total (accepts {E = ℕ}) over_world.1 ≡ 0)
serve_returns_last_example =
    serve_returns_last over_world (reached over_world over_steps) (omega arith)

running_is_registered_example :
    (total (runs {E = ℕ} 1) running_world.1 ≤ registered 1 running_world.0.session_mgr.conns)
    × ((1 ≡ total (runs_any {E = ℕ}) running_world.1)
        × (total (crashes {E = ℕ}) running_world.1 ≡ 0))
running_is_registered_example =
    running_is_registered running_world 1 (reached running_world running_steps)

close_reaches_connections_example :
    (swapped session_state_closed ≡ 1)
    × ((bit true ≡ 1) × (total (runs {E = ℕ} 1) closed_world.1 ≤ occurs 1 (1 ∷ [])))
close_reaches_connections_example =
    close_reaches_connections closed_world 1 (reached closed_world closed_steps) refl

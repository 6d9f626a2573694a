-- ===== src/Network/SessionServer/Moves.antt =====
-- common/network/session_server.go: a move for each branch of Serve, acceptLoop, runConn and Close.
use go_tools.Base.{ℕ, ◌+◌, ◌-◌, ◌<◌, ◌≡◌, true, false, List, [], ◌∷◌, ◌++◌, Option, some, none}
use go_tools.Network.Conn.{not_begun, running, finished}
use go_tools.Network.SessionClient.{
  session_state_new, session_state_running, session_state_closed, is_closed,
}
use go_tools.Network.SessionManager.{
  SessionManager, SessionError, err_session_limit_reached, err_session_id_exists, conn_is_nil, add,
  remove,
}
use go_tools.Network.SessionManager
use go_tools.Network.SessionServer.{
  SessionServer, ServerError, err_closed, err_already_started, err_nil_transport, not_added,
  foreign, Closer, by_serve, by_caller, Thread, serve, accept_checks, accepting, accept_failed,
  accepted, creating, making, adding, refusing, refused, starting, serve_waits, serve_over,
  runs_conn, removes, wg_done, close, close_sets, close_manager, close_conns, close_over, closed,
  returned, close_returned, crashed,
}

-- The ID of a connection.
abbrev pub id_of : ℕ → ℕ
id_of conn = conn

-- The copy of the table that Close of the manager makes under its lock.
abbrev pub ids {κ} : {C : Type κ} → List (ℕ × C) → List ℕ
ids [] = []
ids ((id, conn) ∷ conns) = id ∷ ids conns

-- `errors.Join`
abbrev pub joined {ℓ} : {E : Type ℓ} → List E → Option E → List E
joined errs none = errs
joined errs (some err) = errs ++ err ∷ []

module _ {ℓ} {E : Type ℓ} where
  -- Serve, acceptLoop and runConn.
  pub data ServeMove (s : SessionServer E)
      : Thread E → SessionServer E → List (Thread E) → Type ℓ where
    serve_first :
        s.state ≡ session_state_new
        → ServeMove s serve (record s { state = session_state_running }) (accept_checks ∷ [])
    serve_closed :
        s.state ≡ session_state_closed → ServeMove s serve s (returned (some err_closed) ∷ [])
    serve_again :
        s.state ≡ session_state_running
        → ServeMove s serve s (returned (some err_already_started) ∷ [])
    check_closed :
        is_closed s.state ≡ true → ServeMove s accept_checks s (close (by_serve none) ∷ [])
    check_open : is_closed s.state ≡ false → ServeMove s accept_checks s (accepting ∷ [])
    accept_fails : (err : E) → ServeMove s accepting s (accept_failed err ∷ [])
    fails_closed :
        {err : E}
        → is_closed s.state ≡ true
        → ServeMove s (accept_failed err) s (close (by_serve none) ∷ [])
    fails_open :
        {err : E}
        → is_closed s.state ≡ false
        → ServeMove s (accept_failed err) s (close (by_serve (some (foreign err))) ∷ [])
    accept_gives : ServeMove s accepting s (accepted ∷ [])
    accepted_late : is_closed s.state ≡ true → ServeMove s accepted s (close (by_serve none) ∷ [])
    accepted_open : is_closed s.state ≡ false → ServeMove s accepted s (creating ∷ [])
    create_fails : ServeMove s creating s (accept_checks ∷ [])
    creates : ServeMove s creating s (making ∷ [])
    make_fails : ServeMove s making s (close (by_serve (some err_nil_transport)) ∷ [])
    makes :
        (id : ℕ) → s.next_id < id → ServeMove s making (record s { next_id = id }) (adding id ∷ [])
    adds :
        {id : ℕ}
        → (add id_of s.session_mgr (some id)).0 ≡ none
        → ServeMove s
            (adding id)
            (record s { session_mgr = (add id_of s.session_mgr (some id)).1 })
            (starting id ∷ [])
    add_refuses :
        {id : ℕ} {err : SessionError}
        → (add id_of s.session_mgr (some id)).0 ≡ some err
        → ServeMove s
            (adding id)
            (record s { session_mgr = (add id_of s.session_mgr (some id)).1 })
            (refusing id err ∷ [])
    refuses :
        {id : ℕ} {err : SessionError}
        → ServeMove s
            (refusing id err)
            (record s { closed_conns = id ∷ s.closed_conns })
            (refused err ∷ [])
    refused_closed : ServeMove s (refused SessionManager.err_closed) s (close (by_serve none) ∷ [])
    refused_full : ServeMove s (refused err_session_limit_reached) s (accept_checks ∷ [])
    refused_nil :
        ServeMove s (refused conn_is_nil) s (close (by_serve (some (not_added conn_is_nil))) ∷ [])
    refused_twice :
        ServeMove s
          (refused err_session_id_exists)
          s
          (close (by_serve (some (not_added err_session_id_exists))) ∷ [])
    starts :
        {id : ℕ}
        → ServeMove s (starting id) (record s { wg = s.wg + 1 }) (accept_checks ∷ runs_conn id ∷ [])
    conn_ends : {id : ℕ} → ServeMove s (runs_conn id) s (removes id ∷ [])
    removed :
        {id : ℕ}
        → ServeMove s
            (removes id)
            (record s { session_mgr = remove s.session_mgr id })
            (wg_done ∷ [])
    leaves : 0 < s.wg → ServeMove s wg_done (record s { wg = s.wg - 1 }) []
    leave_crashes : s.wg ≡ 0 → ServeMove s wg_done s (crashed ∷ [])
    waited :
        {result : Option (ServerError E)}
        → s.wg ≡ 0
        → ServeMove s (serve_waits result) s (serve_over result ∷ [])

  -- Close, with Close of the manager.
  pub data CloseMove (s : SessionServer E)
      : Thread E → SessionServer E → List (Thread E) → Type ℓ where
    close_first :
        {k : Closer E}
        → s.close_once ≡ not_begun
        → CloseMove s (close k) (record s { close_once = running }) (close_sets k ∷ [])
    close_later : {k : Closer E} → s.close_once ≡ finished → CloseMove s (close k) s (closed k ∷ [])
    sets_state :
        {k : Closer E}
        → CloseMove s
            (close_sets k)
            (record s { state = session_state_closed })
            (close_manager k ∷ [])
    stops_manager :
        {k : Closer E}
        → CloseMove s
            (close_manager k)
            (record s { session_mgr = record s.session_mgr { closed = true; close_once = true } })
            (close_conns (ids s.session_mgr.conns) k ∷ [])
    closes_conn :
        {id : ℕ} {conns : List ℕ} {k : Closer E} (result : Option E)
        → CloseMove s
            (close_conns (id ∷ conns) k)
            (record s {
              session_mgr = record s.session_mgr {
                close_err = joined s.session_mgr.close_err result;
              };
              closed_conns = id ∷ s.closed_conns;
            })
            (close_conns conns k ∷ [])
    closes_listener :
        {k : Closer E} (result : Option E)
        → CloseMove s
            (close_conns [] k)
            (record s { listener_closed = true; close_err = joined s.session_mgr.close_err result })
            (close_over k ∷ [])
    close_done :
        {k : Closer E}
        → CloseMove s (close_over k) (record s { close_once = finished }) (closed k ∷ [])
    close_waits :
        {result : Option (ServerError E)}
        → CloseMove s (closed (by_serve result)) s (serve_waits result ∷ [])
    close_returns : CloseMove s (closed by_caller) s (close_returned s.close_err ∷ [])

  -- `Move s t s' next`: the goroutine at `t` moves, and `next` takes its place.
  pub data Move (s : SessionServer E) : Thread E → SessionServer E → List (Thread E) → Type ℓ where
    move_serve :
        {t : Thread E} {s' : SessionServer E} {next : List (Thread E)}
        → ServeMove s t s' next
        → Move s t s' next
    move_close :
        {t : Thread E} {s' : SessionServer E} {next : List (Thread E)}
        → CloseMove s t s' next
        → Move s t s' next

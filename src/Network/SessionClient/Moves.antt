-- ===== src/Network/SessionClient/Moves.antt =====
-- common/network/session_client.go: a move for each branch of DialContext, Wait, Close, runConn and finish.
use go_tools.Base.{◌≡◌, Bool, true, false, List, [], ◌∷◌, Option, some, none}
use go_tools.Network.Conn.{not_begun, running, finished}
use go_tools.Network.SessionClient.{
  SessionClient, SessionState, session_state_new, session_state_running, session_state_closed,
  is_new, is_closed, ClientError, err_closed, err_dial_called, err_dial_not_called,
  err_nil_transport, foreign, After, to_dial, to_close, to_exit, Thread, dial_context, dialing,
  dialed, rejecting, dial_leaves, runs_conn, finishing, closing_done, finish_ends, wait, waiting,
  close, close_locks, close_cancels, close_conn, close_last, close_ends, returned, close_returned,
  crashed,
}

module _ {ℓ} {E : Type ℓ} where
  -- DialContext and runConn.
  pub data DialMove (c : SessionClient E)
      : Thread E → SessionClient E → List (Thread E) → Type ℓ where
    dial_first :
        c.state ≡ session_state_new
        → DialMove c dial_context
            (record c { state = session_state_running; dial_cancel = true })
            (dialing ∷ [])
    dial_again :
        c.state ≡ session_state_running
        → DialMove c dial_context c (returned (some err_dial_called) ∷ [])
    dial_closed :
        c.state ≡ session_state_closed → DialMove c dial_context c (returned (some err_closed) ∷ [])
    dial_fails :
        (err : E) → DialMove c dialing c (finishing (foreign err) (to_dial (foreign err)) ∷ [])
    dial_gives_nil :
        DialMove c dialing c (finishing err_nil_transport (to_dial err_nil_transport) ∷ [])
    dial_gives : DialMove c dialing c (dialed ∷ [])
    publish_closed :
        is_closed c.state ≡ true
        → DialMove c dialed (record c { dial_cancel = false }) (rejecting err_closed ∷ [])
    publish_late :
        (err : E)
        → is_closed c.state ≡ false
        → DialMove c dialed (record c { dial_cancel = false }) (rejecting (foreign err) ∷ [])
    published :
        is_closed c.state ≡ false
        → c.dial_cancelled ≡ false
        → DialMove c dialed
            (record c { dial_cancel = false; conn = true })
            (runs_conn ∷ dial_leaves none ∷ [])
    rejects :
        {err : ClientError E} → DialMove c (rejecting err) c (finishing err (to_dial err) ∷ [])
    dial_returns :
        {result : Option (ClientError E)}
        → DialMove c
            (dial_leaves result)
            (record c { dial_cancel = false; dial_cancelled = true })
            (returned result ∷ [])
    conn_ends : (err : E) → DialMove c runs_conn c (finishing (foreign err) to_exit ∷ [])

  -- Wait, Close and finish.
  pub data EndMove (c : SessionClient E)
      : Thread E → SessionClient E → List (Thread E) → Type ℓ where
    wait_early : is_new c.state ≡ true → EndMove c wait c (returned (some err_dial_not_called) ∷ [])
    wait_begins : is_new c.state ≡ false → EndMove c wait c (waiting ∷ [])
    wait_over : c.done ≡ true → EndMove c waiting c (returned c.wait_err ∷ [])
    close_first :
        c.close_once ≡ not_begun
        → EndMove c close (record c { close_once = running }) (close_locks ∷ [])
    close_later : c.close_once ≡ finished → EndMove c close c (close_returned c.close_err ∷ [])
    close_swaps :
        EndMove c close_locks
          (record c { state = session_state_closed; dial_cancel = false })
          (close_cancels c.state c.dial_cancel c.conn ∷ [])
    close_no_dial :
        {prev_state : SessionState} {conn : Bool}
        → EndMove c (close_cancels prev_state false conn) c (close_conn prev_state conn ∷ [])
    close_dial :
        {prev_state : SessionState} {conn : Bool}
        → EndMove c
            (close_cancels prev_state true conn)
            (record c { dial_cancelled = true })
            (close_conn prev_state conn ∷ [])
    close_no_conn :
        {prev_state : SessionState}
        → EndMove c (close_conn prev_state false) c (close_last prev_state ∷ [])
    close_a_conn :
        {prev_state : SessionState} (result : Option E)
        → EndMove c
            (close_conn prev_state true)
            (record c { conn_closed = true; close_err = result })
            (close_last prev_state ∷ [])
    close_finishes :
        {prev_state : SessionState}
        → is_new prev_state ≡ true
        → EndMove c (close_last prev_state) c (finishing err_closed to_close ∷ [])
    close_leaves :
        {prev_state : SessionState}
        → is_new prev_state ≡ false
        → EndMove c (close_last prev_state) c (close_ends ∷ [])
    close_over :
        EndMove c close_ends (record c { close_once = finished }) (close_returned c.close_err ∷ [])
    finish_writes :
        {err : ClientError E} {k : After E}
        → EndMove c (finishing err k) (record c { wait_err = some err }) (closing_done k ∷ [])
    finish_closes :
        {k : After E}
        → c.done ≡ false
        → EndMove c (closing_done k) (record c { done = true }) (finish_ends k ∷ [])
    finish_crashes : {k : After E} → c.done ≡ true → EndMove c (closing_done k) c (crashed ∷ [])
    finish_dial :
        {err : ClientError E}
        → EndMove c (finish_ends (to_dial err)) c (dial_leaves (some err) ∷ [])
    finish_close : EndMove c (finish_ends to_close) c (close_ends ∷ [])
    finish_exits : EndMove c (finish_ends to_exit) c []

  -- `Move c t c' next`: the goroutine at `t` moves, and `next` takes its place.
  pub data Move (c : SessionClient E) : Thread E → SessionClient E → List (Thread E) → Type ℓ where
    move_dial :
        {t : Thread E} {c' : SessionClient E} {next : List (Thread E)}
        → DialMove c t c' next
        → Move c t c' next
    move_end :
        {t : Thread E} {c' : SessionClient E} {next : List (Thread E)}
        → EndMove c t c' next
        → Move c t c' next

-- ===== src/Network/Conn/Moves/Calls.antt =====
-- common/network/conn_impl.go: a move for each branch of Send, TrySend, Close, Run, closeWithCause and of
-- the two callbacks.
use go_tools.Base.{
  ℕ, ◌+◌, ◌-◌, ◌≡◌, ◌≤◌, ◌<◌, true, false, List, [], ◌∷◌, ◌++◌, Option, some, none, length,
}
use go_tools.Base.Int.{pos, pos_part, ltb_ℤ}
use go_tools.Base.Bytes.{Bytes}
use go_tools.Network.Conn.{
  Conn, ConnDependencies, ConnError, encoded, not_encoded, Heartbeator, not_begun, running,
  finished, Sender, by_caller, by_reader, by_beater, After, to_leave, to_opened, to_ended,
  to_caller, err_closed, err_send_queue_full, err_canceled, err_deadline_exceeded, foreign, Thread,
  run, run_started, run_opening, run_opened, run_reads, run_beats, run_waits, run_ended,
  write_waits, read_checks, beat_waits, send, send_checks, send_waits, sent, try_send, try_checks,
  try_waits, close, closing, shutting, closed, leaves, returned, crashed, foreign_of, shut_down,
}

-- The capacity of the send queue.
abbrev pub room {κ} : {E : Type κ} → Conn E → ℕ
room c = pos_part c.conn_conf.send_queue_size

-- `closeWithCause(c.Err())`
abbrev pub or_closed {κ} : {E : Type κ} → Option (ConnError E) → ConnError E
or_closed none = err_closed
or_closed (some err) = err

-- The error of the context that a Send is given: the reader's is that of the connection, the heartbeat's
-- has a deadline besides, and a caller's is foreign.
pub data CtxErr {κ} {E : Type κ} (c : Conn E) : Sender → ConnError E → Type κ where
  caller_ctx : {err : ConnError E} → CtxErr c by_caller err
  reader_ctx : {err : ConnError E} → c.cause ≡ some err → CtxErr c by_reader err_canceled
  beater_ctx :
      {err : ConnError E} {seq : ℕ} → c.cause ≡ some err → CtxErr c (by_beater seq) err_canceled
  beater_late : {seq : ℕ} → CtxErr c (by_beater seq) err_deadline_exceeded

module _ {ℓ κ} {P : Type ℓ} {E : Type κ} (d : ConnDependencies P E) where
  -- The moves in Send, TrySend, Close, Run and closeWithCause, and of a loop that is over.
  pub data CallMove (c : Conn E) : Thread P E → Conn E → List (Thread P E) → Type (ℓ ⊔ κ) where
    -- Send.
    send_unencoded :
        {s : Sender} {packet : P} {err : E}
        → d.encode packet ≡ not_encoded err
        → CallMove c (send s packet) c (sent s (some (foreign err)) ∷ [])
    send_encoded :
        {s : Sender} {packet : P} {m : Bytes}
        → d.encode packet ≡ encoded m
        → CallMove c (send s packet) c (send_checks s m ∷ [])
    check_closed :
        {s : Sender} {m : Bytes} {err : ConnError E}
        → c.cause ≡ some err
        → CallMove c (send_checks s m) c (sent s (some err) ∷ [])
    check_ctx :
        {s : Sender} {m : Bytes} {err : ConnError E}
        → c.cause ≡ none
        → CtxErr c s err
        → CallMove c (send_checks s m) c (sent s (some err) ∷ [])
    check_ok :
        {s : Sender} {m : Bytes}
        → c.cause ≡ none
        → CallMove c (send_checks s m) c (send_waits s m ∷ [])
    wait_ctx :
        {s : Sender} {m : Bytes} {err : ConnError E}
        → CtxErr c s err
        → CallMove c (send_waits s m) c (sent s (some err) ∷ [])
    wait_closed :
        {s : Sender} {m : Bytes} {err : ConnError E}
        → c.cause ≡ some err
        → CallMove c (send_waits s m) c (sent s (some err) ∷ [])
    wait_joins :
        {s : Sender} {m : Bytes}
        → length c.send_queue < room c
        → CallMove c
            (send_waits s m)
            (record c { send_queue = c.send_queue ++ m ∷ []; accepted = c.accepted ++ m ∷ [] })
            (sent s none ∷ [])
    send_returns :
        {err : Option (ConnError E)} → CallMove c (sent by_caller err) c (returned err ∷ [])
    -- TrySend.
    try_unencoded :
        {packet : P} {err : E}
        → d.encode packet ≡ not_encoded err
        → CallMove c (try_send packet) c (returned (some (foreign err)) ∷ [])
    try_encoded :
        {packet : P} {m : Bytes}
        → d.encode packet ≡ encoded m
        → CallMove c (try_send packet) c (try_checks m ∷ [])
    try_closed :
        {m : Bytes} {err : ConnError E}
        → c.cause ≡ some err
        → CallMove c (try_checks m) c (returned (some err) ∷ [])
    try_open : {m : Bytes} → c.cause ≡ none → CallMove c (try_checks m) c (try_waits m ∷ [])
    try_late :
        {m : Bytes} {err : ConnError E}
        → c.cause ≡ some err
        → CallMove c (try_waits m) c (returned (some err) ∷ [])
    try_joins :
        {m : Bytes}
        → length c.send_queue < room c
        → CallMove c
            (try_waits m)
            (record c { send_queue = c.send_queue ++ m ∷ []; accepted = c.accepted ++ m ∷ [] })
            (returned none ∷ [])
    try_full :
        {m : Bytes}
        → c.cause ≡ none
        → room c ≤ length c.send_queue
        → CallMove c (try_waits m) c (returned (some err_send_queue_full) ∷ [])
    -- closeWithCause and Close.
    close_first :
        {err : ConnError E} {k : After}
        → c.close_once ≡ not_begun
        → CallMove c
            (closing err k)
            (record c { close_once = running; cause = some err })
            (shutting k ∷ [])
    close_later :
        {err : ConnError E} {k : After}
        → c.close_once ≡ finished
        → CallMove c (closing err k) c (closed k ∷ [])
    shut :
        {k : After} (result : Option E)
        → CallMove c (shutting k) (shut_down c result) (closed k ∷ [])
    close_called : CallMove c close c (closing err_closed to_caller ∷ [])
    close_leaves : CallMove c (closed to_leave) c (leaves ∷ [])
    close_opened : CallMove c (closed to_opened) c (run_opened ∷ [])
    close_ended : CallMove c (closed to_ended) c (run_ended ∷ [])
    close_returns : CallMove c (closed to_caller) c (returned (foreign_of c.close_err) ∷ [])
    -- Run, and the WaitGroup's Done of the loops, which panics on a counter of 0.
    run_again : c.started ≡ true → CallMove c run c (returned none ∷ [])
    run_first : c.started ≡ false → CallMove c run (record c { started = true }) (run_started ∷ [])
    start_writer :
        CallMove c run_started (record c { wg = c.wg + 1 }) (write_waits ∷ run_opening ∷ [])
    opened_closed :
        {err : ConnError E} → c.cause ≡ some err → CallMove c run_opened c (run_waits ∷ [])
    opened :
        (now : ℕ)
        → c.cause ≡ none
        → CallMove c run_opened (record c { last_active_time = now }) (run_reads ∷ [])
    start_reader : CallMove c run_reads (record c { wg = c.wg + 1 }) (read_checks ∷ run_beats ∷ [])
    start_beater :
        {h : Heartbeator P}
        → d.heartbeat ≡ some h
        → ltb_ℤ (pos 0) c.conn_conf.heartbeat_interval ≡ true
        → CallMove c run_beats (record c { wg = c.wg + 1 }) (beat_waits 0 ∷ run_waits ∷ [])
    no_heartbeat : d.heartbeat ≡ none → CallMove c run_beats c (run_waits ∷ [])
    no_interval :
        ltb_ℤ (pos 0) c.conn_conf.heartbeat_interval ≡ false
        → CallMove c run_beats c (run_waits ∷ [])
    waited : c.wg ≡ 0 → CallMove c run_waits c (closing (or_closed c.cause) to_ended ∷ [])
    leave : 0 < c.wg → CallMove c leaves (record c { wg = c.wg - 1 }) []
    leave_crashes : c.wg ≡ 0 → CallMove c leaves c (crashed ∷ [])

  -- The moves in the callbacks.
  pub data CallbackMove (c : Conn E) : Thread P E → Conn E → List (Thread P E) → Type (ℓ ⊔ κ) where
    -- callOnOpen and callOnClose.
    no_on_open : d.has_on_open ≡ false → CallbackMove c run_opening c (run_opened ∷ [])
    on_open_ok : d.has_on_open ≡ true → CallbackMove c run_opening c (run_opened ∷ [])
    on_open_fails :
        (err : ConnError E)
        → d.has_on_open ≡ true
        → CallbackMove c run_opening c (closing err to_opened ∷ [])
    no_on_close : d.has_on_close ≡ false → CallbackMove c run_ended c (returned none ∷ [])
    on_close :
        d.has_on_close ≡ true
        → CallbackMove c run_ended (record c { ends = c.ends + 1 }) (returned none ∷ [])

-- ===== src/Network/Conn/Moves/Loops.antt =====
-- common/network/conn_impl.go: a move for each branch of the three loops and of deliverPacket.
use go_tools.Base.{ℕ, ◌%◌, ◌≡◌, ◌≢◌, true, false, List, [], ◌∷◌, ◌++◌, Option, some, none, length}
use go_tools.Base.Int.{two_pow_64}
use go_tools.Base.Bytes.{Bytes}
use go_tools.Network.Traffic.{incr_read, incr_write}
use go_tools.Network.Conn.{
  Conn, ConnDependencies, ConnError, Heartbeator, heartbeat_kind_ping, heartbeat_kind_pong,
  heartbeat_kind_invalid, err_invalid_kind, by_reader, by_beater, to_leave, err_heartbeat_timeout,
  err_short_write, err_panic, foreign, Thread, write_waits, write_holds, write_sends, read_checks,
  read_decodes, read_has, delivers, receives, beat_waits, beat_due, send, sent, closing, leaves,
  timed_out, is_deadline, next_seq,
}

module _ {ℓ κ} {P : Type ℓ} {E : Type κ} (d : ConnDependencies P E) where
  -- The moves in the three loops.
  pub data LoopMove (c : Conn E) : Thread P E → Conn E → List (Thread P E) → Type (ℓ ⊔ κ) where
    -- writeLoop.
    write_done : {err : ConnError E} → c.cause ≡ some err → LoopMove c write_waits c (leaves ∷ [])
    write_takes :
        {m : Bytes} {queue : List Bytes}
        → c.send_queue ≡ m ∷ queue
        → LoopMove c write_waits (record c { send_queue = queue }) (write_holds m ∷ [])
    write_late :
        {m : Bytes} {err : ConnError E}
        → c.cause ≡ some err
        → LoopMove c (write_holds m) (record c { dropped = c.dropped ++ m ∷ [] }) (leaves ∷ [])
    write_begins : {m : Bytes} → c.cause ≡ none → LoopMove c (write_holds m) c (write_sends m ∷ [])
    write_panics :
        {m : Bytes}
        → LoopMove c
            (write_sends m)
            (record c { dropped = c.dropped ++ m ∷ [] })
            (closing err_panic to_leave ∷ [])
    write_fails :
        {m : Bytes} (err : E)
        → LoopMove c
            (write_sends m)
            (record c { dropped = c.dropped ++ m ∷ [] })
            (closing (foreign err) to_leave ∷ [])
    write_short :
        {m : Bytes} (n : ℕ)
        → n ≢ length m
        → LoopMove c
            (write_sends m)
            (record c { dropped = c.dropped ++ m ∷ [] })
            (closing err_short_write to_leave ∷ [])
    write_whole :
        {m : Bytes}
        → LoopMove c
            (write_sends m)
            (record c {
              written = c.written ++ m ∷ [];
              statistics = incr_write c.statistics (length m);
            })
            (write_waits ∷ [])
    -- readLoop.
    read_done : {err : ConnError E} → c.cause ≡ some err → LoopMove c read_checks c (leaves ∷ [])
    read_goes_on : c.cause ≡ none → LoopMove c read_checks c (read_decodes ∷ [])
    decode_panics : LoopMove c read_decodes c (closing err_panic to_leave ∷ [])
    decode_fails : (err : E) → LoopMove c read_decodes c (closing (foreign err) to_leave ∷ [])
    decodes :
        (packet : P) (n : ℕ)
        → LoopMove c read_decodes
            (record c { statistics = incr_read c.statistics (n % two_pow_64) })
            (read_has packet ∷ [])
    packet_late :
        {packet : P} {err : ConnError E}
        → c.cause ≡ some err
        → LoopMove c (read_has packet) c (leaves ∷ [])
    packet_taken :
        {packet : P} (now : ℕ)
        → c.cause ≡ none
        → LoopMove c (read_has packet) (record c { last_active_time = now }) (delivers packet ∷ [])
    reply_sent : LoopMove c (sent by_reader none) c (read_checks ∷ [])
    reply_fails :
        {err : ConnError E} → LoopMove c (sent by_reader (some err)) c (closing err to_leave ∷ [])
    -- deliverPacket.
    no_heartbeater :
        {packet : P} → d.heartbeat ≡ none → LoopMove c (delivers packet) c (receives packet ∷ [])
    no_beat :
        {packet : P} {h : Heartbeator P}
        → d.heartbeat ≡ some h
        → h.inspect packet ≡ none
        → LoopMove c (delivers packet) c (receives packet ∷ [])
    ping :
        {packet : P} {h : Heartbeator P} {seq : ℕ}
        → d.heartbeat ≡ some h
        → h.inspect packet ≡ some (heartbeat_kind_ping, seq)
        → LoopMove c (delivers packet) c (send by_reader (h.pong seq) ∷ [])
    pong :
        {packet : P} {h : Heartbeator P} {seq : ℕ}
        → d.heartbeat ≡ some h
        → h.inspect packet ≡ some (heartbeat_kind_pong, seq)
        → LoopMove c (delivers packet) c (read_checks ∷ [])
    invalid_beat :
        {packet : P} {h : Heartbeator P} {seq : ℕ}
        → d.heartbeat ≡ some h
        → h.inspect packet ≡ some (heartbeat_kind_invalid, seq)
        → LoopMove c (delivers packet) c (closing err_invalid_kind to_leave ∷ [])
    -- Inspect or Pong panics, or Encode does in the Send of a loop.
    inspect_panics :
        {packet : P} {h : Heartbeator P}
        → d.heartbeat ≡ some h
        → LoopMove c (delivers packet) c (closing err_panic to_leave ∷ [])
    reply_panics :
        {packet : P} → LoopMove c (send by_reader packet) c (closing err_panic to_leave ∷ [])
    beat_panics :
        {seq : ℕ} {packet : P}
        → LoopMove c (send (by_beater seq) packet) c (closing err_panic to_leave ∷ [])
    discards :
        {packet : P} → d.has_receiver ≡ false → LoopMove c (receives packet) c (read_checks ∷ [])
    receive_ok :
        {packet : P} → d.has_receiver ≡ true → LoopMove c (receives packet) c (read_checks ∷ [])
    receive_panics :
        {packet : P}
        → d.has_receiver ≡ true
        → LoopMove c (receives packet) c (closing err_panic to_leave ∷ [])
    -- heartbearLoop.
    beat_done :
        {seq : ℕ} {err : ConnError E}
        → c.cause ≡ some err
        → LoopMove c (beat_waits seq) c (leaves ∷ [])
    beat_ticks : {seq : ℕ} → LoopMove c (beat_waits seq) c (beat_due seq ∷ [])
    due_late :
        {seq : ℕ} {err : ConnError E}
        → c.cause ≡ some err
        → LoopMove c (beat_due seq) c (leaves ∷ [])
    due_timeout :
        {seq : ℕ} (now : ℕ)
        → c.cause ≡ none
        → timed_out c now ≡ true
        → LoopMove c (beat_due seq) c (closing err_heartbeat_timeout to_leave ∷ [])
    due_pings :
        {seq : ℕ} (now : ℕ) {h : Heartbeator P}
        → c.cause ≡ none
        → timed_out c now ≡ false
        → d.heartbeat ≡ some h
        → LoopMove c (beat_due seq) c (send (by_beater (next_seq seq)) (h.ping (next_seq seq)) ∷ [])
    ping_panics :
        {seq : ℕ} (now : ℕ) {h : Heartbeator P}
        → c.cause ≡ none
        → timed_out c now ≡ false
        → d.heartbeat ≡ some h
        → LoopMove c (beat_due seq) c (closing err_panic to_leave ∷ [])
    due_panics :
        {seq : ℕ}
        → c.cause ≡ none
        → d.heartbeat ≡ none
        → LoopMove c (beat_due seq) c (closing err_panic to_leave ∷ [])
    sent_late :
        {seq : ℕ} {result : Option (ConnError E)} {err : ConnError E}
        → c.cause ≡ some err
        → LoopMove c (sent (by_beater seq) result) c (leaves ∷ [])
    sent_ok :
        {seq : ℕ} → c.cause ≡ none → LoopMove c (sent (by_beater seq) none) c (beat_waits seq ∷ [])
    sent_deadline :
        {seq : ℕ} {err : ConnError E}
        → c.cause ≡ none
        → is_deadline err ≡ true
        → LoopMove c (sent (by_beater seq) (some err)) c (beat_waits seq ∷ [])
    sent_fails :
        {seq : ℕ} {err : ConnError E}
        → c.cause ≡ none
        → is_deadline err ≡ false
        → LoopMove c (sent (by_beater seq) (some err)) c (closing err to_leave ∷ [])

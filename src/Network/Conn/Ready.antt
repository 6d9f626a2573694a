-- ===== src/Network/Conn/Ready.antt =====
-- Which goroutines of common/network/conn_impl.go can move once the transport is closed.
use go_tools.Base.{
  ℕ, zero, suc, ◌≡◌, ◌<◌, List, Option, some, none, arith, refl, ◌⊎◌, inl, inr, Bool-cases,
}
use go_tools.Network.Conn.{
  Conn, Encoded, encoded, not_encoded, ConnDependencies, ConnError, Heartbeator, HeartbeatKind,
  heartbeat_kind_ping, heartbeat_kind_pong, heartbeat_kind_invalid, finished, Sender, by_caller,
  by_reader, by_beater, After, to_leave, to_opened, to_ended, to_caller, Thread, run, run_started,
  run_opening, run_opened, run_reads, run_beats, run_waits, run_ended, write_waits, write_holds,
  write_sends, read_checks, read_decodes, read_has, delivers, receives, beat_waits, beat_due, send,
  send_checks, send_waits, sent, try_send, try_checks, try_waits, close, closing, shutting, closed,
  leaves, returned, crashed,
}
use go_tools.Network.Conn.Moves.{Move, move_calls, move_loops, move_calls_back}
use go_tools.Network.Conn.Moves.Calls.{
  run_again, run_first, start_writer, opened_closed, start_reader, start_beater, no_heartbeat,
  no_interval, waited, leave, leave_crashes, no_on_open, on_open_ok, no_on_close, on_close,
  close_later, shut, close_called, close_leaves, close_opened, close_ended, close_returns,
  send_unencoded, send_encoded, check_closed, wait_closed, send_returns, try_unencoded, try_encoded,
  try_closed, try_late,
}
use go_tools.Network.Conn.Moves.Loops.{
  write_done, write_late, write_panics, read_done, decode_panics, packet_late, reply_sent,
  reply_fails, no_heartbeater, no_beat, ping, pong, invalid_beat, discards, receive_ok, beat_done,
  due_late, sent_late,
}
use go_tools.Base.Int.{ltb_ℤ, pos}
use go_tools.Network.Conn.Counts.{over, loop}
use go_tools.Network.Conn.Shutdown.{rank}

module _ {ℓ κ} {P : Type ℓ} {E : Type κ} (d : ConnDependencies P E) where
  -- A goroutine that can move.
  pub record CanMove (c : Conn E) (t : Thread P E) : Type (ℓ ⊔ κ) where
    pub after : Conn E
    pub next : List (Thread P E)
    pub move : Move d c t after next

  can :
      {c c' : Conn E} {t : Thread P E} {next : List (Thread P E)} → Move d c t c' next → CanMove c t
  can {c' = c'} {next = next} m = record { after = c'; next = next; move = m }

  module _ (c : Conn E) {err : ConnError E} (late : c.cause ≡ some err) where
    can_run : CanMove c run
    can_run = elim (Bool-cases c.started) [
      | inl e ↦ can (move_calls (run_again e))
      | inr e ↦ can (move_calls (run_first e))
    ]

    can_open : CanMove c run_opening
    can_open = elim (Bool-cases d.has_on_open) [
      | inl e ↦ can (move_calls_back (on_open_ok e))
      | inr e ↦ can (move_calls_back (no_on_open e))
    ]

    can_end : CanMove c run_ended
    can_end = elim (Bool-cases d.has_on_close) [
      | inl e ↦ can (move_calls_back (on_close e))
      | inr e ↦ can (move_calls_back (no_on_close e))
    ]

    can_beat : (o : Option (Heartbeator P)) → d.heartbeat ≡ o → CanMove c run_beats
    can_beat none e = can (move_calls (no_heartbeat e))
    can_beat (some h) e = elim (Bool-cases (ltb_ℤ (pos 0) c.conn_conf.heartbeat_interval)) [
      | inl e' ↦ can (move_calls (start_beater e e'))
      | inr e' ↦ can (move_calls (no_interval e'))
    ]

    can_answer :
        (packet : P) (h : Heartbeator P) (o : Option (HeartbeatKind × ℕ))
        → d.heartbeat ≡ some h
        → h.inspect packet ≡ o
        → CanMove c (delivers packet)
    can_answer packet h none e e' = can (move_loops (no_beat e e'))
    can_answer packet h (some (heartbeat_kind_ping, seq)) e e' = can (move_loops (ping e e'))
    can_answer packet h (some (heartbeat_kind_pong, seq)) e e' = can (move_loops (pong e e'))
    can_answer packet h (some (heartbeat_kind_invalid, seq)) e e' =
        can (move_loops (invalid_beat e e'))

    can_deliver :
        (packet : P) (o : Option (Heartbeator P)) → d.heartbeat ≡ o → CanMove c (delivers packet)
    can_deliver packet none e = can (move_loops (no_heartbeater e))
    can_deliver packet (some h) e = can_answer packet h (h.inspect packet) e refl

    can_receive : (packet : P) → CanMove c (receives packet)
    can_receive packet = elim (Bool-cases d.has_receiver) [
      | inl e ↦ can (move_loops (receive_ok e))
      | inr e ↦ can (move_loops (discards e))
    ]

    can_send :
        (s : Sender) (packet : P) (o : Encoded E) → d.encode packet ≡ o → CanMove c (send s packet)
    can_send s packet (encoded m) e = can (move_calls (send_encoded e))
    can_send s packet (not_encoded err) e = can (move_calls (send_unencoded e))

    can_try : (packet : P) (o : Encoded E) → d.encode packet ≡ o → CanMove c (try_send packet)
    can_try packet (encoded m) e = can (move_calls (try_encoded e))
    can_try packet (not_encoded err) e = can (move_calls (try_unencoded e))

    can_sent : (s : Sender) (result : Option (ConnError E)) → CanMove c (sent s result)
    can_sent by_caller result = can (move_calls send_returns)
    can_sent by_reader none = can (move_loops reply_sent)
    can_sent by_reader (some err) = can (move_loops reply_fails)
    can_sent (by_beater seq) result = can (move_loops (sent_late late))

    can_leave : (n : ℕ) → c.wg ≡ n → CanMove c leaves
    can_leave zero e = can (move_calls (leave_crashes e))
    can_leave (suc n) e = can (move_calls (leave (omega (arith, e))))

    can_go_on : (k : After) → CanMove c (closed k)
    can_go_on to_leave = can (move_calls close_leaves)
    can_go_on to_opened = can (move_calls close_opened)
    can_go_on to_ended = can (move_calls close_ended)
    can_go_on to_caller = can (move_calls close_returns)

    -- When the transport is closed, nothing but the Wait of Run can hold a goroutine up.
    pub can_move :
        (t : Thread P E)
        → c.close_once ≡ finished
        → (0 < loop t) ⊎ (c.wg ≡ 0)
        → 0 < rank t
        → CanMove c t
    can_move run over no_wait going = can_run
    can_move run_started over no_wait going = can (move_calls start_writer)
    can_move run_opening over no_wait going = can_open
    can_move run_opened over no_wait going = can (move_calls (opened_closed late))
    can_move run_reads over no_wait going = can (move_calls start_reader)
    can_move run_beats over no_wait going = can_beat d.heartbeat refl
    can_move run_waits over (inl p) going = absurd (omega arith)
    can_move run_waits over (inr e) going = can (move_calls (waited e))
    can_move run_ended over no_wait going = can_end
    can_move write_waits over no_wait going = can (move_loops (write_done late))
    can_move (write_holds m) over no_wait going = can (move_loops (write_late late))
    can_move (write_sends m) over no_wait going = can (move_loops write_panics)
    can_move read_checks over no_wait going = can (move_loops (read_done late))
    can_move read_decodes over no_wait going = can (move_loops decode_panics)
    can_move (read_has packet) over no_wait going = can (move_loops (packet_late late))
    can_move (delivers packet) over no_wait going = can_deliver packet d.heartbeat refl
    can_move (receives packet) over no_wait going = can_receive packet
    can_move (beat_waits seq) over no_wait going = can (move_loops (beat_done late))
    can_move (beat_due seq) over no_wait going = can (move_loops (due_late late))
    can_move (send s packet) over no_wait going = can_send s packet (d.encode packet) refl
    can_move (send_checks s m) over no_wait going = can (move_calls (check_closed late))
    can_move (send_waits s m) over no_wait going = can (move_calls (wait_closed late))
    can_move (sent s result) over no_wait going = can_sent s result
    can_move (try_send packet) over no_wait going = can_try packet (d.encode packet) refl
    can_move (try_checks m) over no_wait going = can (move_calls (try_closed late))
    can_move (try_waits m) over no_wait going = can (move_calls (try_late late))
    can_move close over no_wait going = can (move_calls close_called)
    can_move (closing err k) over no_wait going = can (move_calls (close_later over))
    can_move (shutting k) over no_wait going = can (move_calls (shut none))
    can_move (closed k) over no_wait going = can_go_on k
    can_move leaves over no_wait going = can_leave c.wg refl
    can_move (returned result) over no_wait going = absurd (omega arith)
    can_move crashed over no_wait going = absurd (omega arith)

-- ===== src/Network/Conn/Order.antt =====
-- The order of the messages of a connection, writeLoop of common/network/conn_impl.go: through the queue to
-- the transport.
use go_tools.Base.{
  ℕ, ◌+◌, ◌≡◌, ◌≤◌, List, [], ◌∷◌, ◌++◌, arith, refl, sym, length, length-append, ◌%◌,
}
use go_tools.Base.Threads.{total}
use go_tools.Network.Conn.{Conn, ConnDependencies, Thread, write_holds, write_sends}
use go_tools.Network.Conn.Moves.{Move, move_calls, move_loops, move_calls_back}
use mathlib.Core.List.{append_assoc, append-nil}
use go_tools.Base.Int.{two_pow_64}
use go_tools.Base.Bytes.{Bytes}
use go_tools.Network.Traffic.{incr_read, incr_write}
use go_tools.Network.Conn.Lifecycle.{writing}
use go_tools.Network.Conn.Moves.Calls.{run_again, wait_joins, try_joins, no_on_open}
use go_tools.Network.Conn.Moves.Loops.{
  write_done, write_takes, write_late, write_panics, write_fails, write_short, write_whole, decodes,
}

-- The bytes of all messages.
abbrev pub size_of : List Bytes → ℕ
size_of [] = 0
size_of (m ∷ ms) = length m + size_of ms

size_of-append : (ms ms' : List Bytes) → size_of (ms ++ ms') ≡ size_of ms + size_of ms'
size_of-append [] ms' = omega arith
size_of-append (m ∷ ms) ms' = omega (arith, size_of-append ms ms')

-- The messages that left the queue and those in it, in the order in which they joined; `held` are those
-- that are in the writer's hand.
abbrev pub InOrder {κ} : {E : Type κ} → Conn E → List Bytes → Type 0
InOrder c held = c.accepted ≡ c.written ++ (c.dropped ++ (held ++ c.send_queue))

drop_lem {κ} :
    {E : Type κ} (c : Conn E) (m : Bytes) (rest : List Bytes)
    → InOrder c (m ∷ rest)
    → InOrder (record c { dropped = c.dropped ++ m ∷ [] }) rest
drop_lem c m rest h = rw (append_assoc c.dropped (m ∷ []) (rest ++ c.send_queue)) h

write_lem {κ} :
    {E : Type κ} (c : Conn E) (m : Bytes) (rest : List Bytes)
    → c.dropped ≡ []
    → InOrder c (m ∷ rest)
    → InOrder
        (record c {
          written = c.written ++ m ∷ [];
          statistics = incr_write c.statistics (length m);
        })
        rest
write_lem c m rest e h = rw (e, append_assoc c.written (m ∷ []) (rest ++ c.send_queue)) (rw e at h)

join_lem {κ} :
    {E : Type κ} (c : Conn E) (m : Bytes) (rest : List Bytes)
    → InOrder c rest
    → InOrder
        (record c { send_queue = c.send_queue ++ m ∷ []; accepted = c.accepted ++ m ∷ [] })
        rest
join_lem c m rest h =
    rw
      (
        h,
        append_assoc c.written (c.dropped ++ (rest ++ c.send_queue)) (m ∷ []),
        append_assoc c.dropped (rest ++ c.send_queue) (m ∷ []),
        append_assoc rest c.send_queue (m ∷ []),
      )
      refl

-- The statistics count the messages and the bytes that were written.
abbrev pub AreCounted {κ} : {E : Type κ} → Conn E → Type 0
AreCounted c =
    (c.statistics.write_messages ≡ length c.written % two_pow_64)
    × (c.statistics.write_bytes ≡ size_of c.written % two_pow_64)

pub empty {ℓ} : {A : Type ℓ} (xs : List A) → length xs ≡ 0 → xs ≡ []
empty [] e = refl
empty (x ∷ xs) e = absurd (omega arith)

pub swap {ℓ} : {A : Type ℓ} (xs ys : List A) → length xs + length ys ≤ 1 → xs ++ ys ≡ ys ++ xs
swap [] ys h = sym (append-nil ys)
swap (x ∷ xs) ys h = rw (empty ys (omega arith)) (append-nil (x ∷ xs))

module _ {ℓ κ} {P : Type ℓ} {E : Type κ} where
  -- The message that the writer has taken from the queue.
  abbrev pub hand : Thread P E → List Bytes
  hand (write_holds m) = m ∷ []
  hand (write_sends m) = m ∷ []
  hand _ = []

  abbrev pub hands : List (Thread P E) → List Bytes
  hands [] = []
  hands (t ∷ ts) = hand t ++ hands ts

  pub hands-append : (ts ts' : List (Thread P E)) → hands (ts ++ ts') ≡ hands ts ++ hands ts'
  hands-append [] ts' = refl
  hands-append (t ∷ ts) ts' =
      rw (hands-append ts ts') (sym (append_assoc (hand t) (hands ts) (hands ts')))

  length-hand : (t : Thread P E) → length (hand t) ≤ writing t
  length-hand (write_holds m) = omega arith
  length-hand (write_sends m) = omega arith
  length-hand _ = omega arith

  pub length-hands : (ts : List (Thread P E)) → length (hands ts) ≤ total writing ts
  length-hands [] = omega arith
  length-hands (t ∷ ts) =
      omega (arith, length-hand t, length-hands ts, length-append (hand t) (hands ts))

  module _ (d : ConnDependencies P E) where
    -- `rest` are the hands of the others.
    pub Move-InOrder :
        {c c' : Conn E} {t : Thread P E} {next : List (Thread P E)}
        → Move d c t c' next
        → (rest : List Bytes) → length c.dropped + writing t + length rest ≤ 1
        → InOrder c (hand t ++ rest)
        → InOrder c' (hands next ++ rest)
    Move-InOrder (move_loops (write_takes e)) rest one h =
        rw (empty rest (omega arith)) (rw (empty rest (omega arith), e) at h)
    Move-InOrder {c = c} (move_loops (write_late {m = m} e)) rest one h = drop_lem c m rest h
    Move-InOrder {c = c} (move_loops (write_panics {m = m})) rest one h = drop_lem c m rest h
    Move-InOrder {c = c} (move_loops (write_fails {m = m} err)) rest one h = drop_lem c m rest h
    Move-InOrder {c = c} (move_loops (write_short {m = m} n e)) rest one h = drop_lem c m rest h
    Move-InOrder {c = c} (move_loops (write_whole {m = m})) rest one h =
        write_lem c m rest (empty c.dropped (omega arith)) h
    Move-InOrder {c = c} (move_calls (wait_joins {m = m} e)) rest one h = join_lem c m rest h
    Move-InOrder {c = c} (move_calls (try_joins {m = m} e)) rest one h = join_lem c m rest h
    Move-InOrder (move_calls (run_again e)) rest one h = h
    Move-InOrder (move_calls _) rest one h = h
    Move-InOrder (move_loops (write_done e)) rest one h = h
    Move-InOrder (move_loops _) rest one h = h
    Move-InOrder (move_calls_back (no_on_open e)) rest one h = h
    Move-InOrder (move_calls_back _) rest one h = h

    pub Move-AreCounted :
        {c c' : Conn E} {t : Thread P E} {next : List (Thread P E)}
        → Move d c t c' next
        → AreCounted c
        → AreCounted c'
    unfolding incr_read incr_write
    Move-AreCounted {c = c} (move_loops (write_whole {m = m})) h = (
      omega (arith, h.0, length-append c.written (m ∷ [])),
      omega (arith, h.1, size_of-append c.written (m ∷ [])),
    )
    Move-AreCounted (move_loops (decodes packet n)) h = h
    Move-AreCounted (move_calls (run_again e)) h = h
    Move-AreCounted (move_calls _) h = h
    Move-AreCounted (move_loops (write_done e)) h = h
    Move-AreCounted (move_loops _) h = h
    Move-AreCounted (move_calls_back (no_on_open e)) h = h
    Move-AreCounted (move_calls_back _) h = h

-- ===== src/Network/Conn.antt =====
-- common/network/conn_impl.go: Conn, and the interfaces of net_interface.go that it calls.
-- A goroutine is a program counter, and a move is a step of one of them (Network/Conn/Moves). Foreign
-- code (the transport, the codec's reads, the callbacks, the contexts of callers, the clock) answers each
-- call as it likes. Encoding has no state, as the interface demands, and is a function.
pub mod Moves
pub mod Counts
pub mod Lifecycle
pub mod Order
pub mod Invariant
pub mod Shutdown
pub mod Ready
pub mod Closing
pub mod Liveness
mod Examples
use go_tools.Base.{
  ℕ, ◌+◌, ◌-◌, ◌*◌, ◌%◌, Bool, true, false, List, [], Option, some, none, leb, if◌then◌else◌,
}
use go_tools.Base.Int.{ℤ, pos, negsuc, leb_ℤ, to_bits, of_bits, two_pow_64}
use go_tools.Base.Bytes.{Bytes}
use go_tools.Network.Traffic.{TrafficStatistics, no_traffic}

abbrev pub default_conn_send_queue_size : ℕ
default_conn_send_queue_size = 256

abbrev pub default_conn_read_buffer_size : ℕ
default_conn_read_buffer_size = 4096

-- The reasons for which a connection or a call ends; `foreign` are those of foreign code.
pub data ConnError {ℓ} (E : Type ℓ) : Type ℓ where
  err_closed : ConnError E
  err_send_queue_full : ConnError E
  err_heartbeat_timeout : ConnError E
  err_short_write : ConnError E
  err_invalid_kind : ConnError E
  err_panic : ConnError E
  err_canceled : ConnError E
  err_deadline_exceeded : ConnError E
  foreign : E → ConnError E

pub data HeartbeatKind : Type 0 where
  heartbeat_kind_invalid : HeartbeatKind
  heartbeat_kind_ping : HeartbeatKind
  heartbeat_kind_pong : HeartbeatKind

pub record Heartbeator {ℓ} (P : Type ℓ) : Type ℓ where
  pub ping : ℕ → P
  pub pong : ℕ → P
  pub inspect : P → Option (HeartbeatKind × ℕ)

pub data Encoded {ℓ} (E : Type ℓ) : Type ℓ where
  encoded : Bytes → Encoded E
  not_encoded : E → Encoded E

-- The dependencies. Of the receiver and the callbacks only their presence is a value.
pub record ConnDependencies {ℓ κ} (P : Type ℓ) (E : Type κ) : Type (ℓ ⊔ κ) where
  pub encode : P → Encoded E
  pub heartbeat : Option (Heartbeator P)
  pub has_receiver : Bool
  pub has_on_open : Bool
  pub has_on_close : Bool

pub record ConnConfig : Type 0 where
  pub send_queue_size : ℤ
  pub read_buffer_size : ℤ
  pub heartbeat_interval : ℤ
  pub heartbeat_timeout : ℤ

-- The state of a `sync.Once`.
pub data Once : Type 0 where
  not_begun : Once
  running : Once
  finished : Once

-- `cause` is the cause of the cancelled context. The last five fields keep what was done to foreign code:
-- the messages that joined the queue, those that were written whole, those that left the queue and were
-- not, and the number of calls of the transport's Close and of OnClose.
pub record Conn {ℓ} (E : Type ℓ) : Type ℓ where
  pub id : ℕ
  pub conn_conf : ConnConfig
  pub statistics : TrafficStatistics
  pub cause : Option (ConnError E)
  pub send_queue : List Bytes
  pub wg : ℕ
  pub started : Bool
  pub close_once : Once
  pub close_err : Option E
  pub last_active_time : ℕ
  pub accepted : List Bytes
  pub written : List Bytes
  pub dropped : List Bytes
  pub closes : ℕ
  pub ends : ℕ

abbrev pub or_default : ℤ → ℕ → ℤ
or_default size default = if leb_ℤ size (pos 0) then pos default else size

-- A new connection on a transport, under the next number; without a transport there is none.
unfoldable pub new_conn {ℓ} : {E : Type ℓ} → Bool → ℕ → ConnConfig → Option (Conn E)
new_conn false id conf = none
new_conn true id conf = some (record {
  id = id;
  conn_conf = record conf {
    send_queue_size = or_default conf.send_queue_size default_conn_send_queue_size;
    read_buffer_size = or_default conf.read_buffer_size default_conn_read_buffer_size;
  };
  statistics = no_traffic;
  cause = none;
  send_queue = [];
  wg = 0;
  started = false;
  close_once = not_begun;
  close_err = none;
  last_active_time = 0;
  accepted = [];
  written = [];
  dropped = [];
  closes = 0;
  ends = 0;
})

-- `3 * interval` on `int64`
unfoldable pub triple : ℤ → ℤ
unfolding to_bits of_bits
triple interval = of_bits (3 * to_bits interval % two_pow_64)

-- The timeout of the heartbeat, three intervals where none is set.
unfoldable pub timeout_of : ConnConfig → ℤ
unfolding triple
timeout_of conf =
    if leb_ℤ conf.heartbeat_timeout (pos 0)
    then triple conf.heartbeat_interval
    else conf.heartbeat_timeout

-- `time.Since(last)`
unfoldable pub since : ℕ → ℕ → ℤ
since now last = if leb last now then pos (now - last) else negsuc (last - now - 1)

-- `time.Since(lastActiveTime) >= timeout`
unfoldable pub timed_out {ℓ} : {E : Type ℓ} → Conn E → ℕ → Bool
unfolding timeout_of since
timed_out c now = leb_ℤ (timeout_of c.conn_conf) (since now c.last_active_time)

-- `ctx.Err() == context.DeadlineExceeded && errors.Is(err, context.DeadlineExceeded)`: a Send returns that
-- error only from its context. The errors of a codec are others.
abbrev pub is_deadline {ℓ} : {E : Type ℓ} → ConnError E → Bool
is_deadline err_deadline_exceeded = true
is_deadline _ = false

-- Who called Send, and goes on after it.
pub data Sender : Type 0 where
  by_caller : Sender
  by_reader : Sender
  by_beater : ℕ → Sender

-- What follows a call of closeWithCause.
pub data After : Type 0 where
  to_leave : After
  to_opened : After
  to_ended : After
  to_caller : After

-- Where a goroutine stands.
pub data Thread {ℓ κ} (P : Type ℓ) (E : Type κ) : Type (ℓ ⊔ κ) where
  run : Thread P E
  run_started : Thread P E
  run_opening : Thread P E
  run_opened : Thread P E
  run_reads : Thread P E
  run_beats : Thread P E
  run_waits : Thread P E
  run_ended : Thread P E
  write_waits : Thread P E
  write_holds : Bytes → Thread P E
  write_sends : Bytes → Thread P E
  read_checks : Thread P E
  read_decodes : Thread P E
  read_has : P → Thread P E
  delivers : P → Thread P E
  receives : P → Thread P E
  beat_waits : ℕ → Thread P E
  beat_due : ℕ → Thread P E
  send : Sender → P → Thread P E
  send_checks : Sender → Bytes → Thread P E
  send_waits : Sender → Bytes → Thread P E
  sent : Sender → Option (ConnError E) → Thread P E
  try_send : P → Thread P E
  try_checks : Bytes → Thread P E
  try_waits : Bytes → Thread P E
  close : Thread P E
  closing : ConnError E → After → Thread P E
  shutting : After → Thread P E
  closed : After → Thread P E
  leaves : Thread P E
  returned : Option (ConnError E) → Thread P E
  crashed : Thread P E

abbrev pub foreign_of {κ} : {E : Type κ} → Option E → Option (ConnError E)
foreign_of none = none
foreign_of (some err) = some (foreign err)

-- `c.closeErr = c.rwc.Close()`, which ends the call of closeOnce.
abbrev pub shut_down {κ} : {E : Type κ} → Conn E → Option E → Conn E
shut_down c result = record c { close_once = finished; closes = c.closes + 1; close_err = result }

-- `seq++`
abbrev pub next_seq : ℕ → ℕ
next_seq seq = (seq + 1) % two_pow_64

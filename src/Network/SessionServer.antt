-- ===== src/Network/SessionServer.antt =====
-- common/network/session_server.go: SessionServer, which accepts connections, registers them with a session
-- manager (Network/SessionManager) and runs them.
-- A goroutine is a program counter, as in Network/Conn. A connection is its number. The listener, the
-- factory of the dependencies and the connections are foreign: they answer each call as they like. The
-- numbers come from one counter of the process, of which others take numbers too.
pub mod Moves
pub mod Counts
pub mod Registry
pub mod Invariant
pub mod Closing
mod Examples
use go_tools.Base.{ℕ, Bool, true, false, List, [], Option, some, none}
use go_tools.Base.Int.{pos}
use go_tools.Network.Conn.{Once, not_begun}
use go_tools.Network.SessionClient.{SessionState, session_state_new}
use go_tools.Network.SessionManager.{SessionManager, SessionError, new_session_manager}

abbrev pub default_max_connection_count : ℕ
default_max_connection_count = 5000

pub data ServerError {ℓ} (E : Type ℓ) : Type ℓ where
  err_nil_listener : ServerError E
  err_nil_factory : ServerError E
  err_closed : ServerError E
  err_already_started : ServerError E
  err_nil_transport : ServerError E
  not_added : SessionError → ServerError E
  foreign : E → ServerError E

-- `next_id` is connIdGenerator. The last two fields keep what was done to foreign code: whether the
-- listener was closed, and the connections of which Close was called.
pub record SessionServer {ℓ} (E : Type ℓ) : Type ℓ where
  pub session_mgr : SessionManager ℕ E
  pub state : SessionState
  pub wg : ℕ
  pub close_once : Once
  pub close_err : List E
  pub next_id : ℕ
  pub listener_closed : Bool
  pub closed_conns : List ℕ

pub data Made {ℓ} (E : Type ℓ) : Type ℓ where
  made : SessionServer E → Made E
  not_made : ServerError E → Made E

-- The manager that WithSessionManager has set, or one of the default size.
abbrev pub manager_of {ℓ} : {E : Type ℓ} → Option (SessionManager ℕ E) → SessionManager ℕ E
manager_of none = new_session_manager (pos default_max_connection_count)
manager_of (some manager) = manager

unfoldable pub new_session_server {ℓ} :
    {E : Type ℓ} → Bool → Bool → Option (SessionManager ℕ E) → ℕ → Made E
new_session_server false has_factory manager next_id = not_made err_nil_listener
new_session_server true false manager next_id = not_made err_nil_factory
new_session_server true true manager next_id = made (record {
  session_mgr = manager_of manager;
  state = session_state_new;
  wg = 0;
  close_once = not_begun;
  close_err = [];
  next_id = next_id;
  listener_closed = false;
  closed_conns = [];
})

-- Who called Close: the deferred call of Serve, with the result of acceptLoop, or another.
pub data Closer {ℓ} (E : Type ℓ) : Type ℓ where
  by_serve : Option (ServerError E) → Closer E
  by_caller : Closer E

-- Where a goroutine stands.
pub data Thread {ℓ} (E : Type ℓ) : Type ℓ where
  serve : Thread E
  accept_checks : Thread E
  accepting : Thread E
  accept_failed : E → Thread E
  accepted : Thread E
  creating : Thread E
  making : Thread E
  adding : ℕ → Thread E
  refusing : ℕ → SessionError → Thread E
  refused : SessionError → Thread E
  starting : ℕ → Thread E
  serve_waits : Option (ServerError E) → Thread E
  serve_over : Option (ServerError E) → Thread E
  runs_conn : ℕ → Thread E
  removes : ℕ → Thread E
  wg_done : Thread E
  close : Closer E → Thread E
  close_sets : Closer E → Thread E
  close_manager : Closer E → Thread E
  close_conns : List ℕ → Closer E → Thread E
  close_over : Closer E → Thread E
  closed : Closer E → Thread E
  returned : Option (ServerError E) → Thread E
  close_returned : List E → Thread E
  crashed : Thread E

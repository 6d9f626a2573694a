-- ===== src/Network/SessionClient.antt =====
-- common/network/session_client.go: SessionClient, one dial and the life of its connection.
-- A goroutine is a program counter, as in Network/Conn; a section under the lock is one move. The dialer,
-- the caller's context and the connection (Network/Conn) are foreign: they answer each call as they like.
pub mod Moves
pub mod Counts
pub mod Reach
pub mod Invariant
pub mod Closing
mod Examples
use go_tools.Base.{Bool, true, false, Option, none}
use go_tools.Network.Conn.{Once, not_begun}

-- SessionState of net_interface.go
pub data SessionState : Type 0 where
  session_state_new : SessionState
  session_state_running : SessionState
  session_state_closed : SessionState

abbrev pub is_new : SessionState → Bool
is_new session_state_new = true
is_new _ = false

-- isClosed
abbrev pub is_closed : SessionState → Bool
is_closed session_state_closed = true
is_closed _ = false

pub data ClientError {ℓ} (E : Type ℓ) : Type ℓ where
  err_closed : ClientError E
  err_nil_dialer : ClientError E
  err_nil_codec : ClientError E
  err_dial_called : ClientError E
  err_dial_not_called : ClientError E
  err_nil_transport : ClientError E
  foreign : E → ClientError E

-- `dial_cancel` says whether the function to cancel the dial is there, `conn` whether a connection is, and
-- `done` whether the channel is closed. The last two fields keep what was done to foreign code: the context
-- of the dial was cancelled, and the connection was closed.
pub record SessionClient {ℓ} (E : Type ℓ) : Type ℓ where
  pub state : SessionState
  pub dial_cancel : Bool
  pub conn : Bool
  pub done : Bool
  pub wait_err : Option (ClientError E)
  pub close_once : Once
  pub close_err : Option E
  pub dial_cancelled : Bool
  pub conn_closed : Bool

pub data Made {ℓ} (E : Type ℓ) : Type ℓ where
  made : SessionClient E → Made E
  not_made : ClientError E → Made E

unfoldable pub new_session_client {ℓ} : {E : Type ℓ} → Bool → Bool → Made E
new_session_client false has_codec = not_made err_nil_dialer
new_session_client true false = not_made err_nil_codec
new_session_client true true = made (record {
  state = session_state_new;
  dial_cancel = false;
  conn = false;
  done = false;
  wait_err = none;
  close_once = not_begun;
  close_err = none;
  dial_cancelled = false;
  conn_closed = false;
})

-- What follows a call of finish.
pub data After {ℓ} (E : Type ℓ) : Type ℓ where
  to_dial : ClientError E → After E
  to_close : After E
  to_exit : After E

-- Where a goroutine stands.
pub data Thread {ℓ} (E : Type ℓ) : Type ℓ where
  dial_context : Thread E
  dialing : Thread E
  dialed : Thread E
  rejecting : ClientError E → Thread E
  dial_leaves : Option (ClientError E) → Thread E
  runs_conn : Thread E
  finishing : ClientError E → After E → Thread E
  closing_done : After E → Thread E
  finish_ends : After E → Thread E
  wait : Thread E
  waiting : Thread E
  close : Thread E
  close_locks : Thread E
  close_cancels : SessionState → Bool → Bool → Thread E
  close_conn : SessionState → Bool → Thread E
  close_last : SessionState → Thread E
  close_ends : Thread E
  returned : Option (ClientError E) → Thread E
  close_returned : Option E → Thread E
  crashed : Thread E

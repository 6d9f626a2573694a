-- ===== src/Network/SessionManager/Examples.antt =====
-- Runs of common/network/session_manager.go on small inputs.
use go_tools.Base.{
  ℕ, ◌≡◌, ◌≢◌, ◌==◌, if◌then◌else◌, refl, true, false, List, [], ◌∷◌, Option, some, none, arith,
}
use go_tools.Base.Int.{pos}
use go_tools.Base.Keys.{nat_eq}
use go_tools.Base.Maps
use go_tools.Network.SessionManager.{
  SessionManager, new_session_manager, err_closed, err_session_id_exists, err_session_limit_reached,
  close,
}
use go_tools.Network.SessionManager.Laws.{
  Call, add_call, close_call, Reply, add_reply, close_reply, run, IsValid, sessions_limited, IsOver,
  close_is_final,
}

-- A connection is its number. Close logs it, and fails for the connection 4.
abbrev number : ℕ → ℕ
number c = c

abbrev log_close : ℕ → List ℕ → Option ℕ × List ℕ
log_close c w = (if c == 4 then some 40 else none, c ∷ w)

abbrev two_at_most : SessionManager ℕ ℕ
two_at_most = new_session_manager (pos 2)

none_found : (k c : ℕ) → Maps.lookup nat_eq k two_at_most.conns ≢ some c
unfolding new_session_manager Maps.lookup
none_found k c e = cc

two_at_most-IsValid : IsValid number log_close two_at_most
unfolding new_session_manager
two_at_most-IsValid = record {
  in_step = refl;
  distinct = tt;
  own = λ k c e. absurd (none_found k c e);
  limited = λ h. omega arith;
}

abbrev history : List (Call ℕ)
history =
    add_call (some 3)
    ∷ add_call (some 3)
    ∷ add_call (some 4)
    ∷ add_call (some 5)
    ∷ close_call
    ∷ add_call (some 6)
    ∷ []

test_history : run number log_close history two_at_most [] ≡ (
  add_reply none
      ∷ add_reply (some err_session_id_exists)
      ∷ add_reply none
      ∷ add_reply (some err_session_limit_reached)
      ∷ close_reply (40 ∷ [])
      ∷ add_reply (some err_closed)
      ∷ [],
  record {
    conns = (3, 3) ∷ (4, 4) ∷ [];
    max_conns = pos 2;
    closed = true;
    close_once = true;
    close_err = 40 ∷ [];
  },
  4 ∷ 3 ∷ [],
)
unfolding run new_session_manager
test_history = refl

sessions_limited_example : IsValid number log_close (run number log_close history two_at_most []).1
sessions_limited_example =
    sessions_limited number log_close history two_at_most [] two_at_most-IsValid

abbrev two_in : SessionManager ℕ ℕ
two_in = record {
  conns = (3, 3) ∷ (4, 4) ∷ [];
  max_conns = pos 2;
  closed = false;
  close_once = false;
  close_err = [];
}

two_in-IsValid : IsValid number log_close two_in
unfolding run new_session_manager
two_in-IsValid =
    sessions_limited number log_close (add_call (some 3) ∷ add_call (some 4) ∷ []) two_at_most []
      two_at_most-IsValid

-- What Close leaves of the two connections.
abbrev closed_two : List ℕ × SessionManager ℕ ℕ × List ℕ
closed_two = close log_close two_in []

abbrev later : List (Reply ℕ) × SessionManager ℕ ℕ × List ℕ
later = run number log_close history closed_two.1 closed_two.2

close_is_final_example :
    IsOver number log_close closed_two.0 closed_two.1 closed_two.2 later.0 later.1 later.2
close_is_final_example = close_is_final number log_close history two_in [] two_in-IsValid

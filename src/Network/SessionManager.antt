-- ===== src/Network/SessionManager.antt =====
-- common/network/session_manager.go: SessionManagerImpl.
-- A connection is an interface: its number, `id`, and what its Close does, `close_conn`, are parameters.
-- Close acts on a world and may reply with an error. Add, Remove, Get and Len hold the lock from start to
-- end. Range and Close work on a copy of the table after the lock is released; `closed` was set under it,
-- so that no connection joins in between. Session numbers are those of `uint64`.
pub mod Adding
pub mod Laws
mod Examples
use go_tools.Base.{
  ℕ, Bool, true, false, ◌&&◌, List, [], ◌∷◌, ◌++◌, Option, some, none, length, if◌then◌else◌,
}
use go_tools.Base.Int.{ℤ, pos, ltb_ℤ, leb_ℤ}
use go_tools.Base.Keys.{nat_eq}
use go_tools.Base.Maps

-- The replies of Add.
pub data SessionError : Type 0 where
  conn_is_nil : SessionError
  err_closed : SessionError
  err_session_id_exists : SessionError
  err_session_limit_reached : SessionError

-- `close_once` tells whether the function of the `sync.Once` has run; `close_err` lists the errors that
-- were joined.
pub record SessionManager {κ ℓ} (C : Type κ) (E : Type ℓ) : Type (κ ⊔ ℓ) where
  pub conns : List (ℕ × C)
  pub max_conns : ℤ
  pub closed : Bool
  pub close_once : Bool
  pub close_err : List E

module _ {κ} {C : Type κ} where
  -- The loop of Range, for a function that changes a state and says whether to go on.
  unfoldable pub range_loop {σ} : {S : Type σ} → (C → S → S × Bool) → List (ℕ × C) → S → S
  range_loop fn [] st = st
  range_loop fn ((_, conn) ∷ conns) st =
      let (st', more) = fn conn st in
      let rest = range_loop fn conns st' in if more then rest else st'

module _ {κ ℓ} {C : Type κ} {E : Type ℓ} where
  unfoldable pub new_session_manager : ℤ → SessionManager C E
  new_session_manager max_conns = record {
    conns = [];
    max_conns = max_conns;
    closed = false;
    close_once = false;
    close_err = [];
  }

  unfoldable pub add :
      (C → ℕ) → SessionManager C E → Option C → Option SessionError × SessionManager C E
  unfolding Maps.lookup Maps.insert
  add id s none = (some conn_is_nil, s)
  add id s (some conn) =
      if s.closed
      then (some err_closed, s)
      else if Maps.has nat_eq (id conn) s.conns
      then (some err_session_id_exists, s)
      else if ltb_ℤ (pos 0) s.max_conns && leb_ℤ s.max_conns (pos (length s.conns))
      then (some err_session_limit_reached, s)
      else (none, record s { conns = Maps.insert nat_eq (id conn) conn s.conns })

  unfoldable pub remove : SessionManager C E → ℕ → SessionManager C E
  unfolding Maps.erase
  remove s id = record s { conns = Maps.erase nat_eq id s.conns }

  unfoldable pub get : SessionManager C E → ℕ → Option C
  unfolding Maps.lookup
  get s id = Maps.lookup nat_eq id s.conns

  unfoldable pub len : SessionManager C E → ℕ
  len s = length s.conns

  unfoldable pub range {σ} : {S : Type σ} → SessionManager C E → Option (C → S → S × Bool) → S → S
  unfolding range_loop
  range s none st = st
  range s (some fn) st = range_loop fn s.conns st

  module _ {ω} {W : Type ω} (close_conn : C → W → Option E × W) where
    -- `errors.Join(closeErr, err)` of an error that is not nil.
    abbrev pub joined : List E → Option E → List E
    joined errs none = errs
    joined errs (some err) = errs ++ err ∷ []

    -- The loop of Close over the copy of the table.
    unfoldable pub close_loop : List (ℕ × C) → List E → W → List E × W
    close_loop [] errs w = (errs, w)
    close_loop ((_, conn) ∷ conns) errs w =
        let (err, w') = close_conn conn w in close_loop conns (joined errs err) w'

    unfoldable pub close : SessionManager C E → W → List E × SessionManager C E × W
    unfolding close_loop
    close s w =
        if s.close_once
        then (s.close_err, s, w)
        else let (errs, w') = close_loop s.conns s.close_err w in
          (errs, record s { closed = true; close_once = true; close_err = errs }, w')

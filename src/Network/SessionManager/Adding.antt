-- ===== src/Network/SessionManager/Adding.antt =====
-- The cases of Add of common/network/session_manager.go, for a connection.
use go_tools.Base.{ℕ, ◌≡◌, false, ◌&&◌, Option, some, none, length, if_intro}
use go_tools.Base.Int.{pos, ltb_ℤ, leb_ℤ}
use go_tools.Base.Keys.{nat_eq}
use go_tools.Base.Maps
use go_tools.Network.SessionManager.{
  SessionManager, SessionError, err_closed, err_session_id_exists, err_session_limit_reached, add,
}

module _ {κ ℓ} {C : Type κ} {E : Type ℓ} (id : C → ℕ) (s : SessionManager C E) (conn : C) where
  -- A connection is refused and nothing changes, or the manager is open and registers it.
  pub add_intro {ν} :
      (P : Option SessionError × SessionManager C E → Type ν)
      → ((err : SessionError) → P (some err, s))
      → (s.closed ≡ false
          → Maps.has nat_eq (id conn) s.conns ≡ false
          → P (none, record s { conns = Maps.insert nat_eq (id conn) conn s.conns }))
      → P (add id s (some conn))
  unfolding add
  add_intro P refused added =
      if_intro P s.closed _ _ (λ e. refused err_closed)
        λ e.
          if_intro P (Maps.has nat_eq (id conn) s.conns) _ _ (λ h. refused err_session_id_exists)
            λ h.
              if_intro P (ltb_ℤ (pos 0) s.max_conns && leb_ℤ s.max_conns (pos (length s.conns))) _ _
                (λ f. refused err_session_limit_reached) (λ f. added e h)

-- ===== src/Network/SessionManager/Laws.antt =====
-- What holds of every history of a SessionManagerImpl of common/network/session_manager.go.
use go_tools.Base.{
  if_true, ℕ, ◌≡◌, ◌≤◌, refl, sym, ◌∙◌, true, ◌&&◌, List, [], ◌∷◌, Option, some, none, length,
  if_intro, arith,
}
use go_tools.Base.Int.{pos, pos_part, ltb_ℤ, leb_ℤ}
use go_tools.Base.Keys.{nat_eq}
use go_tools.Base.Maps
use go_tools.Network.SessionManager.{
  SessionManager, SessionError, conn_is_nil, err_closed, add, remove, close,
}

-- A call, and its reply.
pub data Call {κ} (C : Type κ) : Type κ where
  add_call : Option C → Call C
  remove_call : ℕ → Call C
  close_call : Call C

pub data Reply {ℓ} (E : Type ℓ) : Type ℓ where
  add_reply : Option SessionError → Reply E
  remove_reply : Reply E
  close_reply : List E → Reply E

-- Every reply of a list satisfies `P`.
abbrev pub AllReplies {ℓ κ} : {E : Type ℓ} → (Reply E → Type κ) → List (Reply E) → Type κ
AllReplies P [] = Unit
AllReplies P (r ∷ rs) = P r × AllReplies P rs

length-erase_le {κ} :
    {C : Type κ} (k : ℕ) (m : List (ℕ × C)) → length (Maps.erase nat_eq k m) ≤ length m
unfolding Maps.erase
length-erase_le k [] = omega arith
length-erase_le k ((j, c) ∷ m) = ground (arith, length-erase_le k m)

module _ {κ ℓ ω} {C : Type κ} {E : Type ℓ} {W : Type ω} (id : C → ℕ)
    (close_conn : C → W → Option E × W) where
  unfoldable pub apply : Call C → SessionManager C E → W → Reply E × SessionManager C E × W
  unfolding add remove close
  apply (add_call conn) s w = let (err, s') = add id s conn in (add_reply err, s', w)
  apply (remove_call k) s w = (remove_reply, remove s k, w)
  apply close_call s w = let (errs, s', w') = close close_conn s w in (close_reply errs, s', w')

  unfoldable pub run :
      List (Call C) → SessionManager C E → W → List (Reply E) × SessionManager C E × W
  unfolding apply
  run [] s w = ([], s, w)
  run (c ∷ cs) s w =
      let (r, s', w') = apply c s w in let (rs, s'', w'') = run cs s' w' in (r ∷ rs, s'', w'')

  -- Each connection stands once, under its own number, and there are no more than the limit, if one is
  -- set; the manager is closed if and only if Close has run.
  pub record IsValid (s : SessionManager C E) : Type κ where
    pub in_step : s.close_once ≡ s.closed
    pub distinct : Maps.Distinct nat_eq s.conns
    pub own : (k : ℕ) (c : C) → Maps.lookup nat_eq k s.conns ≡ some c → id c ≡ k
    pub limited : ltb_ℤ (pos 0) s.max_conns ≡ true → length s.conns ≤ pos_part s.max_conns

  add-IsValid : (s : SessionManager C E) (conn : Option C) → IsValid s → IsValid (add id s conn).1
  unfolding add
  add-IsValid s none v = v
  add-IsValid s (some c) v =
      if_intro (λ (r : Option SessionError × SessionManager C E). IsValid r.1) s.closed _ _ (λ e. v)
        λ e.
          if_intro (λ (r : Option SessionError × SessionManager C E). IsValid r.1)
            (Maps.has nat_eq (id c) s.conns) _ _ (λ h. v)
            λ h.
              if_intro (λ (r : Option SessionError × SessionManager C E). IsValid r.1)
                (ltb_ℤ (pos 0) s.max_conns && leb_ℤ s.max_conns (pos (length s.conns))) _ _ (λ f. v)
                λ f. record {
                  in_step = v.in_step;
                  distinct = Maps.Distinct-insert nat_eq (id c) c s.conns v.distinct;
                  own = λ k d q.
                      ground (arith, Maps.lookup-insert nat_eq (id c) k c s.conns, v.own k d, q);
                  limited =
                      λ l. ground (arith, Maps.length-insert nat_eq (id c) c s.conns, v.limited);
                }

  apply-IsValid :
      (c : Call C) (s : SessionManager C E) (w : W) → IsValid s → IsValid (apply c s w).1
  unfolding apply remove close
  apply-IsValid (add_call conn) s w v = add-IsValid s conn v
  apply-IsValid (remove_call k) s w v = record {
    in_step = v.in_step;
    distinct = Maps.Distinct-erase nat_eq k s.conns v.distinct;
    own = λ j c e. ground (arith, Maps.lookup-erase nat_eq k j s.conns, v.own j c, e);
    limited = λ h. omega (arith, v.limited h, length-erase_le k s.conns);
  }
  apply-IsValid close_call s w v =
      if_intro (λ (r : List E × SessionManager C E × W). IsValid r.1) s.close_once _ _ (λ e. v)
        (λ e. record { in_step = refl; distinct = v.distinct; own = v.own; limited = v.limited })

  -- After any series of calls on a valid manager, each connection stands once, under its own number, and
  -- there are no more of them than the limit, if one is set.
  pub sessions_limited :
      (cs : List (Call C)) (s : SessionManager C E) (w : W) → IsValid s → IsValid (run cs s w).1
  unfolding run
  sessions_limited [] s w v = v
  sessions_limited (c ∷ cs) s w v =
      sessions_limited cs (apply c s w).1 (apply c s w).2 (apply-IsValid c s w v)

  -- The reply of a closed manager: Add is refused, and Close replies as the first time.
  pub data IsFinal (errs : List E) : Reply E → Type ℓ where
    refused : {err : SessionError} → IsFinal errs (add_reply (some err))
    removed : IsFinal errs remove_reply
    same_reply : {errs' : List E} → errs' ≡ errs → IsFinal errs (close_reply errs')

  -- Nothing is left to do after Close: the world stays, and no connection joins.
  pub record IsOver (errs : List E) (s : SessionManager C E) (w : W) (rs : List (Reply E))
      (s' : SessionManager C E) (w' : W) : Type (κ ⊔ ℓ ⊔ ω) where
    pub replies : AllReplies (IsFinal errs) rs
    pub same_world : w' ≡ w
    pub none_joins :
        (k : ℕ) (c : C)
        → Maps.lookup nat_eq k s'.conns ≡ some c
        → Maps.lookup nat_eq k s.conns ≡ some c

  refuse :
      (s : SessionManager C E) (conn : Option C)
      → s.closed ≡ true
      → (err : SessionError) × (add id s conn ≡ (some err, s))
  unfolding add
  refuse s none e = (conn_is_nil, refl)
  refuse s (some c) e = (err_closed, if_true s.closed _ _ e)

  closed_again :
      (s : SessionManager C E) (w : W)
      → s.close_once ≡ true
      → close close_conn s w ≡ (s.close_err, s, w)
  unfolding close
  closed_again s w o = if_true s.close_once _ _ o

  one_over :
      (c : Call C) (s : SessionManager C E) (w : W)
      → s.closed ≡ true
      → s.close_once ≡ true
      → IsFinal s.close_err (apply c s w).0
        × ((apply c s w).2 ≡ w)
        × ((apply c s w).1.closed ≡ true)
        × ((apply c s w).1.close_once ≡ true)
        × ((apply c s w).1.close_err ≡ s.close_err)
        × ((k : ℕ) (d : C)
            → Maps.lookup nat_eq k (apply c s w).1.conns ≡ some d
            → Maps.lookup nat_eq k s.conns ≡ some d)
  unfolding apply remove
  one_over (add_call conn) s w e o =
      let (err, same) = refuse s conn e in simp same (refused, refl, e, o, refl, (λ k d h. h))
  one_over (remove_call k) s w e o = (
    removed,
    refl,
    e,
    o,
    refl,
    (λ j d h. ground (arith, Maps.lookup-erase nat_eq k j s.conns, h)),
  )
  one_over close_call s w e o =
      simp (closed_again s w o) (same_reply refl, refl, e, o, refl, (λ k d h. h))

  closed_for_good :
      (cs : List (Call C)) (s : SessionManager C E) (w : W)
      → s.closed ≡ true
      → s.close_once ≡ true
      → IsOver s.close_err s w (run cs s w).0 (run cs s w).1 (run cs s w).2
  unfolding run
  closed_for_good [] s w e o = record { replies = tt; same_world = refl; none_joins = λ k c h. h }
  closed_for_good (c ∷ cs) s w e o =
      let (final, still, e', o', kept, fewer) = one_over c s w e o in
      let rest = closed_for_good cs (apply c s w).1 (apply c s w).2 e' o' in
      record {
        replies = (final, rw kept at (rest.replies));
        same_world = rest.same_world ∙ still;
        none_joins = λ k d h. fewer k d (rest.none_joins k d h);
      }

  close_closes :
      (s : SessionManager C E) (w : W)
      → s.close_once ≡ s.closed
      → ((close close_conn s w).1.closed ≡ true)
        × ((close close_conn s w).1.close_once ≡ true)
        × ((close close_conn s w).1.close_err ≡ (close close_conn s w).0)
  unfolding close
  close_closes s w h =
      if_intro
        (λ (r : List E × SessionManager C E × W).
          (r.1.closed ≡ true) × (r.1.close_once ≡ true) × (r.1.close_err ≡ r.0))
        s.close_once _ _ (λ e. (sym h ∙ e, e, refl)) (λ e. (refl, refl, refl))

  -- Close of a valid manager is final: in any series of calls after it every Add is refused, every Close
  -- replies as the first one, no connection is closed again, and no connection joins.
  pub close_is_final :
      (cs : List (Call C)) (s : SessionManager C E) (w : W)
      → IsValid s
      → let after = close close_conn s w in
        let later = run cs after.1 after.2 in IsOver after.0 after.1 after.2 later.0 later.1 later.2
  close_is_final cs s w v =
      let (e, o, same) = close_closes s w v.in_step in
      rw same at (closed_for_good cs (close close_conn s w).1 (close close_conn s w).2 e o)

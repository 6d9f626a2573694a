-- ===== src/Container/Set/Laws.antt =====
-- The methods of Set in common/container/set.go, against membership.
use native.Mathlib.Nat.{sub-zero}
use go_tools.Base.{
  ◌<◌, ◌-◌, take, ℕ, suc, ◌+◌, ◌≡◌, refl, ap, ◌∙◌, sym, Bool, false, ◌||◌, not, ◌&&◌, List, [], ◌∷◌,
  ◌++◌, length, leb, arith, Bool-cases, inl, inr,
}
use mathlib.Core.List.{append-nil, append_assoc}
use go_tools.Base.Keys.{Eq}
use go_tools.Base.Maps
use go_tools.Container.Set.{
  None, Set, size, clear, value_loop, value, iter_loop, iter, push, contains, add, remove, IsValid,
}

-- A call that changes the set.
pub data Edit {ℓ} (T : Type ℓ) : Type ℓ where
  push_edit : T → Edit T
  add_edit : List T → Edit T
  remove_edit : T → Edit T
  clear_edit : Edit T

module _ {ℓ} {T : Type ℓ} (e : Eq T) where
  abbrev pub is_in : T → List T → Bool
  is_in q [] = false
  is_in q (x ∷ l) = e.beq x q || is_in q l

  unfoldable pub apply : Set T → Edit T → Set T
  apply s (push_edit val) = push e s val
  apply s (add_edit values) = add e s values
  apply s (remove_edit val) = remove e s val
  apply s clear_edit = clear s

  unfoldable pub run : Set T → List (Edit T) → Set T
  run s [] = s
  run s (c ∷ cs) = run (apply s c) cs

  -- What the calls make of membership.
  abbrev pub after_edit : Edit T → Bool → T → Bool
  after_edit (push_edit val) b q = e.beq val q || b
  after_edit (add_edit values) b q = is_in q values || b
  after_edit (remove_edit val) b q = not (e.beq val q) && b
  after_edit clear_edit b q = false

  abbrev pub after_edits : List (Edit T) → Bool → T → Bool
  after_edits [] b q = b
  after_edits (c ∷ cs) b q = after_edits cs (after_edit c b q) q

  contains-add :
      (values : List T) (s : Set T) (q : T)
      → contains e (add e s values) q ≡ (is_in q values || contains e s q)
  unfolding contains add
  contains-add [] s q = refl
  contains-add (val ∷ values) s q = ground (
    arith,
    contains-add values (record { members = Maps.insert e val tt s.members }) q,
    Maps.lookup-insert e val q tt s.members,
  )

  contains-apply :
      (c : Edit T) (s : Set T) (q : T) → contains e (apply s c) q ≡ after_edit c (contains e s q) q
  unfolding apply contains push remove clear Maps.lookup
  contains-apply (push_edit val) s q = ground (arith, Maps.lookup-insert e val q tt s.members)
  contains-apply (add_edit values) s q = contains-add values s q
  contains-apply (remove_edit val) s q = ground (arith, Maps.lookup-erase e val q s.members)
  contains-apply clear_edit s q = refl

  add-IsValid : (values : List T) (s : Set T) → IsValid e s → IsValid e (add e s values)
  unfolding add
  add-IsValid [] s v = v
  add-IsValid (val ∷ values) s v = add-IsValid values _ (Maps.Distinct-insert e val tt s.members v)

  apply-IsValid : (c : Edit T) (s : Set T) → IsValid e s → IsValid e (apply s c)
  unfolding apply push remove clear
  apply-IsValid (push_edit val) s v = Maps.Distinct-insert e val tt s.members v
  apply-IsValid (add_edit values) s v = add-IsValid values s v
  apply-IsValid (remove_edit val) s v = Maps.Distinct-erase e val s.members v
  apply-IsValid clear_edit s v = tt

  -- After any series of calls on a valid set it is valid, and Contains answers as the calls say.
  pub set_run :
      (cs : List (Edit T)) (s : Set T)
      → IsValid e s
      → IsValid e (run s cs)
        × ((q : T) → contains e (run s cs) q ≡ after_edits cs (contains e s q) q)
  unfolding run
  set_run [] s v = (v, λ q. refl)
  set_run (c ∷ cs) s v =
      let (w, h) = set_run cs (apply s c) (apply-IsValid c s v) in
      (w, λ q. h q ∙ ap (λ b. after_edits cs b q) (contains-apply c s q))

  -- No element stands twice.
  abbrev pub IsDistinct : List T → Type 0
  IsDistinct [] = Unit
  IsDistinct (x ∷ l) = (is_in x l ≡ false) × IsDistinct l

  abbrev names : List (T × None) → List T
  names [] = []
  names ((k, _) ∷ m) = k ∷ names m

  value_loop-names : (m : List (T × None)) (out : List T) → value_loop m out ≡ out ++ names m
  unfolding value_loop
  value_loop-names [] out = sym (append-nil out)
  value_loop-names ((k, u) ∷ m) out =
      value_loop-names m (out ++ k ∷ []) ∙ append_assoc out (k ∷ []) (names m)

  is_in-names : (q : T) (m : List (T × None)) → is_in q (names m) ≡ Maps.has e q m
  unfolding Maps.lookup
  is_in-names q [] = refl
  is_in-names q ((k, u) ∷ m) = ground (arith, is_in-names q m)

  length-names : (m : List (T × None)) → length (names m) ≡ length m
  length-names [] = refl
  length-names ((k, u) ∷ m) = ap suc (length-names m)

  IsDistinct-names : (m : List (T × None)) → Maps.Distinct e m → IsDistinct (names m)
  IsDistinct-names [] d = tt
  IsDistinct-names ((k, u) ∷ m) d = (is_in-names k m ∙ ap Maps.is_some d.0, IsDistinct-names m d.1)

  -- Value lists each member of a valid set once and nothing else, and Size counts what it lists.
  pub value_correct :
      (s : Set T)
      → IsValid e s
      → ((q : T) → is_in q (value s) ≡ contains e s q)
        × IsDistinct (value s)
        × (length (value s) ≡ size s)
  unfolding value contains size
  value_correct s v =
      rw (value_loop-names s.members [])
        ((λ q. is_in-names q s.members), IsDistinct-names s.members v, length-names s.members)

  -- A consumer that keeps what it is given, and stops after `n` elements.
  abbrev pub collect : ℕ → T → ℕ × List T → (ℕ × List T) × Bool
  collect n x (seen, out) = ((seen + 1, out ++ x ∷ []), not (leb n (seen + 1)))

  iter_loop-collect :
      (n : ℕ) (m : List (T × None)) (seen : ℕ) (out : List T)
      → seen < n
      → (iter_loop (collect n) m (seen, out)).1 ≡ out ++ take (n - seen) (names m)
  unfolding iter_loop
  iter_loop-collect n [] seen out h =
      let e : n - seen ≡ suc (n - seen - 1) = omega arith in rw e (sym (append-nil out))
  iter_loop-collect n ((k, u) ∷ m) seen out h =
      let e : n - seen ≡ suc (n - (seen + 1)) = omega arith in
      elim (Bool-cases (leb n (seen + 1))) [
        | inl last ↦ let f : n - (seen + 1) ≡ 0 = ground arith in rw (last, e, f) refl
        | inr more ↦
            rw (more, e)
              (iter_loop-collect n m (seen + 1) (out ++ k ∷ []) (ground arith)
                ∙ append_assoc out (k ∷ []) (take (n - (seen + 1)) (names m)))
      ]

  -- A consumer of Iter that stops after `n` elements, one at least, is given the first `n` of those
  -- that Value lists, or all where there are fewer.
  pub iter_stops : (s : Set T) (n : ℕ) → 0 < n → (iter s (collect n) (0, [])).1 ≡ take n (value s)
  unfolding iter value
  iter_stops s n h =
      iter_loop-collect n s.members 0 [] h ∙ rw (value_loop-names s.members [], sub-zero)

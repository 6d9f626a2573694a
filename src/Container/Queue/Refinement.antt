-- ===== src/Container/Queue/Refinement.antt =====
-- common/container/queue.go against a plain list: whatever is called, the replies are those of a
-- first-in first-out list.
use mathlib.Core.Path.{ap₂}
use go_tools.Base.{
  ℕ, ◌≡◌, refl, ap, ◌∙◌, Bool, List, [], ◌∷◌, ◌++◌, Run, ok, ◌>>=◌, Returns, returns, Returns-bind,
  length, leb,
}
use go_tools.Container.Queue.{Queue, clear, value, size, is_empty, push, pop}
use go_tools.Container.Queue.Methods.{
  Holds, push_correct, pop-empty, pop_correct, value_correct, clear-Holds,
}

pub data Call {ℓ} (A : Type ℓ) : Type ℓ where
  push_call : A → Call A
  pop_call : Call A
  clear_call : Call A
  value_call : Call A
  size_call : Call A
  empty_call : Call A

pub data Reply {ℓ} (A : Type ℓ) : Type ℓ where
  done : Reply A
  one : A → Reply A
  many : List A → Reply A
  count : ℕ → Reply A
  answer : Bool → Reply A

module _ {ℓ} {A : Type ℓ} (z : A) where
  -- One call on the queue of the code.
  unfoldable pub step : Queue A → Call A → Run (Reply A × Queue A)
  step q (push_call x) = do r ← push z q x; ok (done, r)
  step q pop_call = do (x, r) ← pop z q; ok (one x, r)
  step q clear_call = ok (done, clear z q)
  step q value_call = do xs ← value q; ok (many xs, q)
  step q size_call = ok (count (size q), q)
  step q empty_call = ok (answer (is_empty q), q)

  -- One call on a list, whose head is the first to leave.
  unfoldable pub list_step : List A → Call A → Reply A × List A
  list_step xs (push_call x) = (done, xs ++ x ∷ [])
  list_step [] pop_call = (one z, [])
  list_step (x ∷ xs) pop_call = (one x, xs)
  list_step xs clear_call = (done, [])
  list_step xs value_call = (many xs, xs)
  list_step xs size_call = (count (length xs), xs)
  list_step xs empty_call = (answer (leb (length xs) 0), xs)

  unfoldable pub run : List (Call A) → Queue A → Run (List (Reply A) × Queue A)
  run [] q = ok ([], q)
  run (c ∷ cs) q = do (r, q') ← step q c; (rs, q'') ← run cs q'; ok (r ∷ rs, q'')

  unfoldable pub list_run : List (Call A) → List A → List (Reply A) × List A
  list_run [] xs = ([], xs)
  list_run (c ∷ cs) xs =
      let (r, ys) = list_step xs c in let (rs, zs) = list_run cs ys in (r ∷ rs, zs)

  -- The reply is the expected one, and the queue holds what the list holds.
  abbrev pub Answers {κ} : {R : Type κ} → R × List A → R × Queue A → Type (κ ⊔ ℓ)
  Answers (r, xs) (r', q) = (r' ≡ r) × Holds xs q

  step_refines :
      (c : Call A) (q : Queue A) (xs : List A)
      → Holds xs q
      → Returns (Answers (list_step xs c)) (step q c)
  unfolding step list_step is_empty
  step_refines (push_call x) q xs (v, e) =
      Returns-bind (push_correct z q x v)
        λ r (w, f). returns (refl, (w, f ∙ ap (λ l. l ++ x ∷ []) e))
  step_refines pop_call q [] (v, e) = rw (pop-empty z q v e) (returns (refl, (v, e)))
  step_refines pop_call q (x ∷ xs) (v, e) =
      Returns-bind (pop_correct z q x xs v e) λ (y, r) (f, h). returns (ap one f, h)
  step_refines clear_call q xs h = returns (refl, clear-Holds z q)
  step_refines value_call q xs (v, e) = rw ((value_correct q v).0) (returns (ap many e, (v, e)))
  step_refines size_call q xs (v, e) =
      returns (ap count ((value_correct q v).1 ∙ ap length e), (v, e))
  step_refines empty_call q xs (v, e) =
      returns (ap (λ n. answer (leb n 0)) ((value_correct q v).1 ∙ ap length e), (v, e))

  -- From any valid queue, every sequence of calls returns (no read or write is out of range), its
  -- replies are those of the list of the queue's elements, and the final queue is valid and holds
  -- what the list holds.
  pub queue_refines :
      (cs : List (Call A)) (q : Queue A) (xs : List A)
      → Holds xs q
      → Returns (Answers (list_run cs xs)) (run cs q)
  unfolding run list_run
  queue_refines [] q xs h = returns (refl, h)
  queue_refines (c ∷ cs) q xs h = Returns-bind (step_refines c q xs h) λ (r, q') (e, h').
      Returns-bind (queue_refines cs q' (list_step xs c).1 h')
        λ (rs, q'') (es, h''). returns (ap₂ ◌∷◌ e es, h'')

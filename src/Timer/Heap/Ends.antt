-- ===== src/Timer/Heap/Ends.antt =====
-- The slice of common/timer/timer.go with a timer added at its end, or without its last.
use go_tools.Base.{
  ℕ, zero, suc, ◌+◌, ◌≡◌, ◌<◌, refl, List, [], ◌∷◌, ◌++◌, length, get_elem?, take, Bool, some, none,
  ltb, ◌==◌, if◌then◌else◌, arith,
}
use go_tools.Timer.{Timer}
use go_tools.Timer.Heap.Access.{Core, count, weight}

pub get_elem?_inside {ℓ} :
    {A : Type ℓ} (xs : List A) (i : ℕ) (x : A) → get_elem? xs i ≡ some x → i < length xs
get_elem?_inside [] i x h = absurd (cc)
get_elem?_inside (y ∷ xs) zero x h = omega arith
get_elem?_inside (y ∷ xs) (suc i) x h = omega (arith, get_elem?_inside xs i x h)

module _ {κ} {C : Type κ} where
  pub get_elem?-append_last :
      (a : List (Timer C)) (t : Timer C) (i : ℕ)
      → get_elem? (a ++ t ∷ []) i
        ≡ (if ltb i (length a) then get_elem? a i else if i == length a then some t else none)
  get_elem?-append_last [] t zero = refl
  get_elem?-append_last [] t (suc i) = ground arith
  get_elem?-append_last (x ∷ a) t zero = ground arith
  get_elem?-append_last (x ∷ a) t (suc i) = ground (arith, get_elem?-append_last a t i)

  pub count-append_last :
      (p : Core C → Bool) (a : List (Timer C)) (t : Timer C)
      → count p (a ++ t ∷ []) ≡ weight p t + count p a
  count-append_last p [] t = refl
  count-append_last p (x ∷ a) t = omega (arith, count-append_last p a t)

  pub get_elem?-take :
      (n : ℕ) (a : List (Timer C)) (i : ℕ)
      → get_elem? (take n a) i ≡ (if ltb i n then get_elem? a i else none)
  get_elem?-take zero a i = ground arith
  get_elem?-take (suc n) [] i = ground arith
  get_elem?-take (suc n) (x ∷ a) zero = ground arith
  get_elem?-take (suc n) (x ∷ a) (suc i) = ground (arith, get_elem?-take n a i)

  pub count-take :
      (p : Core C → Bool) (n : ℕ) (a : List (Timer C)) (x : Timer C)
      → length a ≡ suc n
      → get_elem? a n ≡ some x
      → count p (take n a) + weight p x ≡ count p a
  count-take p n [] x e h = absurd (omega arith)
  count-take p zero (t ∷ []) x e h = let e' : weight p t ≡ weight p x = cc in omega arith
  count-take p zero (t ∷ u ∷ a) x e h = absurd (omega arith)
  count-take p (suc n) (t ∷ a) x e h = omega (arith, count-take p n a x (omega arith) h)

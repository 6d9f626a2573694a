-- ===== src/Timer/Heap/Access.antt =====
-- Reads, comparisons and exchanges of common/timer/timer.go within the slice, and what they keep.
use go_tools.Base.{
  ℕ, zero, suc, ◌+◌, ◌≡◌, ◌≢◌, ◌≤◌, ◌<◌, ◌∙◌, Bool, List, [], ◌∷◌, Option, some, none, ok, length,
  get_elem?, set, ◌==◌, if◌then◌else◌, arith, Returns, returns, length-set, get_elem?_total,
  get_elem?-set,
}
use go_tools.Base.Int.{ℤ, pos, ltb_ℤ, pos_part, neg_part}
use go_tools.Timer.{Timer, less, swap}

infix 50 ◌≤ℤ◌
abbrev pub ◌≤ℤ◌ : ℤ → ℤ → Type 0
a ≤ℤ b = pos_part a + neg_part b ≤ pos_part b + neg_part a

-- What a timer is, apart from its place.
pub record Core {κ} (C : Type κ) : Type κ where
  pub time_outer : C
  pub id : ℤ
  pub end : ℤ
  pub interval : ℤ

module _ {κ} {C : Type κ} where
  abbrev pub core : Timer C → Core C
  core t = record { time_outer = t.time_outer; id = t.id; end = t.end; interval = t.interval }

  abbrev pub end_of : Option (Timer C) → ℤ
  end_of none = pos 0
  end_of (some t) = t.end

  -- The end of the timer at a place.
  abbrev pub key : List (Timer C) → ℕ → ℤ
  key a i = end_of (get_elem? a i)

  -- What an exchange leaves.
  abbrev pub swapped : List (Timer C) → ℕ → ℕ → Timer C → Timer C → List (Timer C)
  swapped a i j x y = set (set a i (record y { index = pos i })) j (record x { index = pos j })

  pub less-ok :
      (a : List (Timer C)) (i j : ℕ)
      → i < length a
      → j < length a
      → less a i j ≡ ok (ltb_ℤ (key a i) (key a j))
  unfolding less
  less-ok a i j hi hj =
      let (x, at_i) = get_elem?_total a i hi in
      let (y, at_j) = get_elem?_total a j hj in rw (at_i, at_j)

  abbrev pub weight : (Core C → Bool) → Timer C → ℕ
  weight p t = if p (core t) then 1 else 0

  -- How many timers satisfy a predicate, which does not read their places.
  abbrev pub count : (Core C → Bool) → List (Timer C) → ℕ
  count p [] = 0
  count p (t ∷ a) = weight p t + count p a

  -- Two lists hold the same timers, as often, in any order.
  abbrev pub SameTimers : List (Timer C) → List (Timer C) → Type κ
  SameTimers a b = (p : Core C → Bool) → count p a ≡ count p b

  -- Each timer knows its place.
  abbrev pub IsPlaced : List (Timer C) → Type κ
  IsPlaced a = (i : ℕ) (t : Timer C) → get_elem? a i ≡ some t → t.index ≡ pos i

  count-set :
      (p : Core C → Bool) (a : List (Timer C)) (i : ℕ) (x v : Timer C)
      → get_elem? a i ≡ some x
      → count p (set a i v) + weight p x ≡ count p a + weight p v
  count-set p [] i x v h = absurd (cc)
  count-set p (t ∷ a) zero x v h = let e : weight p t ≡ weight p x = cc in omega arith
  count-set p (t ∷ a) (suc i) x v h = omega (arith, count-set p a i x v h)

  -- `b` is `a` with the timers at `i` and `j` exchanged.
  pub record Exchanged (a : List (Timer C)) (i j : ℕ) (b : List (Timer C)) : Type κ where
    pub sized : length b ≡ length a
    pub keys : (c : ℕ) → key b c ≡ (if j == c then key a i else if i == c then key a j else key a c)
    pub same : SameTimers b a
    pub placed : IsPlaced a → IsPlaced b
    pub others : (c : ℕ) → c ≢ i → c ≢ j → get_elem? b c ≡ get_elem? a c
    pub carried :
        (x : Timer C)
        → get_elem? a i ≡ some x
        → (t : Timer C) × (get_elem? b j ≡ some t) × (core t ≡ core x)

  module _ (a : List (Timer C)) (i j : ℕ) (x y : Timer C) (at_i : get_elem? a i ≡ some x)
      (at_j : get_elem? a j ≡ some y) (hi : i < length a) (hj : j < length a) where
    in_first : j < length (set a i (record y { index = pos i }))
    in_first = rw (length-set a i (record y { index = pos i })) hj

    reads :
        (c : ℕ)
        → get_elem? (swapped a i j x y) c ≡ (
            if j == c
            then some (record x { index = pos j })
            else if i == c
            then some (record y { index = pos i })
            else get_elem? a c)
    reads c = ground (
      arith,
      get_elem?-set (set a i (record y { index = pos i })) j c (record x { index = pos j })
          in_first,
      get_elem?-set a i c (record y { index = pos i }) hi,
    )

    swapped-same : SameTimers (swapped a i j x y) a
    swapped-same p =
        let b = set a i (record y { index = pos i }) in
        let kept : (z : Timer C) × (get_elem? b j ≡ some z) × (weight p z ≡ weight p y) = (
          if i == j then record y { index = pos i } else y,
          ground (arith, get_elem?-set a i j (record y { index = pos i }) hi, at_j),
          ground arith,
        ) in
        omega (
          arith,
          count-set p a i x (record y { index = pos i }) at_i,
          count-set p b j kept.0 (record x { index = pos j }) kept.1,
          kept.2,
        )

    swapped-Exchanged : Exchanged a i j (swapped a i j x y)
    swapped-Exchanged = record {
      sized =
          length-set (set a i (record y { index = pos i })) j (record x { index = pos j })
          ∙ length-set a i (record y { index = pos i });
      keys = λ c. ground (arith, reads c, at_i, at_j);
      same = swapped-same;
      placed = λ h c t e. ground (arith, reads c, h c t, e);
      others = λ c p q. ground (arith, reads c);
      carried = λ z e. (record x { index = pos j }, ground (arith, reads j), ground (arith, at_i));
    }

  pub swap_correct :
      (a : List (Timer C)) (i j : ℕ)
      → i < length a
      → j < length a
      → Returns (Exchanged a i j) (swap a i j)
  unfolding swap
  swap_correct a i j hi hj =
      let (x, at_i) = get_elem?_total a i hi in
      let (y, at_j) = get_elem?_total a j hj in
      rw (at_i, at_j) (returns (swapped-Exchanged a i j x y at_i at_j hi hj))

-- ===== src/Base/Threads.antt =====
-- Threads of a concurrent program as a list of program counters, a step of one of them at a time, and
-- counters that sum a weight over the list.
use Prim.Native.Nat.{ℕ, ◌+◌, ◌≤◌, ◌<◌}
use mathlib.Core.Path.{◌≡◌, refl, ap}
use mathlib.Core.Logic.{inl, inr}
use mathlib.Core.Bool.{Bool, true, false}
use mathlib.Core.Option.{Option, none, some}
use mathlib.Core.List.{List, [], ◌∷◌, ◌++◌}
use native.Mathlib.Omega.{arith}
use go_tools.Base.Tests.{ltb, Bool-cases}

abbrev pub bit : Bool → ℕ
bit true = 1
bit false = 0

pub bit-true : (b : Bool) → b ≡ true → bit b ≡ 1
bit-true b e = rw e refl

pub bit-le : (b : Bool) → bit b ≤ 1
bit-le true = omega arith
bit-le false = omega arith

pub bit-false : (b : Bool) → b ≡ false → bit b ≡ 0
bit-false b e = rw e refl

-- Whatever is there satisfies `P`.
abbrev pub IfSome {ℓ κ} : {A : Type ℓ} → (A → Type κ) → Option A → Type κ
IfSome P none = Unit
IfSome P (some a) = P a

pub if_some {ℓ κ} :
    {A : Type ℓ} (P : A → Type κ) {o : Option A} {a : A} → o ≡ some a → IfSome P o → P a
if_some P e h = rw e at h

module _ {ℓ} {T : Type ℓ} where
  abbrev pub total : (T → ℕ) → List T → ℕ
  total f [] = 0
  total f (t ∷ ts) = f t + total f ts

  pub total-append : (f : T → ℕ) (xs ys : List T) → total f (xs ++ ys) ≡ total f xs + total f ys
  total-append f [] ys = omega arith
  total-append f (x ∷ xs) ys = omega (arith, total-append f xs ys)

  -- The others of a list, apart from those in the middle.
  abbrev pub others : (T → ℕ) → List T → List T → ℕ
  others f before after = total f before + total f after

  pub total-one :
      (f : T → ℕ) (before after : List T) (t : T)
      → total f (before ++ t ∷ after) ≡ f t + others f before after
  total-one f before after t = omega (arith, total-append f before (t ∷ after))

  pub total-among :
      (f : T → ℕ) (before after next : List T)
      → total f (before ++ (next ++ after)) ≡ total f next + others f before after
  total-among f before after next =
      omega (arith, total-append f before (next ++ after), total-append f next after)

  -- A step of `t` puts `next` in its place.
  pub total-step :
      (f : T → ℕ) (before after next : List T) (t : T)
      → total f (before ++ (next ++ after)) + f t ≡ total f (before ++ t ∷ after) + total f next
  total-step f before after next t = omega (
    arith,
    total-append f before (next ++ after),
    total-append f next after,
    total-append f before (t ∷ after),
  )

  pub total-le : (f g : T → ℕ) (ts : List T) → ((t : T) → f t ≤ g t) → total f ts ≤ total g ts
  total-le f g [] h = omega arith
  total-le f g (t ∷ ts) h = omega (arith, h t, total-le f g ts h)

  pub total-sum : (f g : T → ℕ) (ts : List T) → total (λ t. f t + g t) ts ≡ total f ts + total g ts
  total-sum f g [] = omega arith
  total-sum f g (t ∷ ts) = omega (arith, total-sum f g ts)

  -- Where a thread stands among the others.
  pub record Among (t : T) (ts : List T) : Type ℓ where
    pub before : List T
    pub after : List T
    pub split : ts ≡ before ++ t ∷ after

  pub find_positive : (f : T → ℕ) (ts : List T) → 0 < total f ts → (t : T) × Among t ts × (0 < f t)
  find_positive f [] h = absurd (omega arith)
  find_positive f (t ∷ ts) h = elim (Bool-cases (ltb 0 (f t))) [
    | inl e ↦ (t, record { before = []; after = ts; split = refl }, ground arith)
    | inr e ↦
        let (u, a, p) = find_positive f ts (ground arith) in
        (u, record { before = t ∷ a.before; after = a.after; split = ap (◌∷◌ t) a.split }, p)
  ]

  pub Among-le : (f : T → ℕ) (ts : List T) (t : T) → Among t ts → f t ≤ total f ts
  Among-le f ts t a = omega (arith, ap (total f) a.split, total-append f a.before (t ∷ a.after))

-- The runs of a program whose goroutines share a state `C`: `Move c t c' next` says that the goroutine at
-- `t` moves, and that `next` takes its place.
module _ {ℓ κ μ} {C : Type ℓ} {T : Type κ} (Move : C → T → C → List T → Type μ) where
  -- A step of the program: any goroutine that can may move.
  pub data Step : C × List T → C × List T → Type (ℓ ⊔ κ ⊔ μ) where
    step :
        {c c' : C} {next : List T} (before : List T) (t : T) (after : List T)
        → Move c t c' next
        → Step (c, before ++ t ∷ after) (c', before ++ (next ++ after))

  pub data Steps : C × List T → C × List T → Type (ℓ ⊔ κ ⊔ μ) where
    done : {w : C × List T} → Steps w w
    and_then : {w w' w'' : C × List T} → Steps w w' → Step w' w'' → Steps w w''

  abbrev pub count : {w w' : C × List T} → Steps w w' → ℕ
  count done = 0
  count (and_then ws s) = count ws + 1

  pub join : {w w' w'' : C × List T} → Steps w w' → Steps w' w'' → Steps w w''
  join ws done = ws
  join ws (and_then ws' s) = and_then (join ws ws') s

  -- What every step keeps, every run keeps.
  pub Steps-keep {ν} :
      (I : C × List T → Type ν)
      → ((w w' : C × List T) → Step w w' → I w → I w')
      → {w w' : C × List T} → Steps w w'
      → I w
      → I w'
  Steps-keep I h done i = i
  Steps-keep I h (and_then ws s) i = h _ _ s (Steps-keep I h ws i)

-- ===== src/Base/Outcome.antt =====
-- How a call of Go code ends: it returns, or it panics at run time.
use mathlib.Core.Path.{◌≡◌, refl}
use mathlib.Core.Bool.{Bool, true, false}
use mathlib.Core.Option.{Option, none, some}

pub data Run {ℓ} (A : Type ℓ) : Type ℓ where
  ok : A → Run A
  panic : Run A

infixl 5 ◌>>=◌
abbrev pub ◌>>=◌ {ℓ κ} : {A : Type ℓ} {B : Type κ} → Run A → (A → Run B) → Run B
ok a >>= f = f a
panic >>= f = panic

-- A read of an index or of a pointer: it panics where there is nothing.
abbrev pub or_panic {ℓ} : {A : Type ℓ} → Option A → Run A
or_panic (some a) = ok a
or_panic none = panic

-- A run-time check.
abbrev pub check {ℓ} : {A : Type ℓ} → Bool → Run A → Run A
check true r = r
check false r = panic

-- The call returns, and what it returns satisfies `P`.
pub data Returns {ℓ κ} {T : Type ℓ} (P : T → Type κ) : Run T → Type (ℓ ⊔ κ) where
  returns : {v : T} → P v → Returns P (ok v)

pub Returns-bind {ℓ κ ℓ' κ'} :
    {T : Type ℓ} {U : Type ℓ'} {P : T → Type κ} {Q : U → Type κ'} {call : Run T} {rest : T → Run U}
    → Returns P call
    → ((v : T) → P v → Returns Q (rest v))
    → Returns Q (call >>= rest)
Returns-bind (returns {v = v} holds) next = next v holds

pub Returns-map {ℓ κ κ'} :
    {T : Type ℓ} {P : T → Type κ} {Q : T → Type κ'} {call : Run T}
    → Returns P call
    → ((v : T) → P v → Q v)
    → Returns Q call
Returns-map (returns {v = v} holds) weaken = returns (weaken v holds)

-- A call that returns is `ok` of some value.
pub Returns-inv {ℓ κ} :
    {T : Type ℓ} {P : T → Type κ} {call : Run T} → Returns P call → (v : T) × (call ≡ ok v) × P v
Returns-inv (returns {v = v} holds) = (v, refl, holds)

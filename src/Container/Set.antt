-- ===== src/Container/Set.antt =====
-- common/container/set.go and define.go: a set as a map to the empty struct. The order in which a map is
-- ranged over is not specified; here it is the order of the association list.
pub mod Laws
mod Examples
use go_tools.Base.{◌++◌, ℕ, Bool, List, [], ◌∷◌, length, leb, if◌then◌else◌}
use go_tools.Base.Keys.{Eq}
use go_tools.Base.Maps

-- The empty struct.
abbrev pub None : Type 0
None = Unit {0}

pub record Set {ℓ} (T : Type ℓ) : Type ℓ where
  pub members : List (T × None)

module _ {ℓ} {T : Type ℓ} where
  unfoldable pub new_set : Set T
  new_set = record { members = [] }

  unfoldable pub size : Set T → ℕ
  size s = length s.members

  unfoldable pub is_empty : Set T → Bool
  is_empty s = leb (length s.members) 0

  unfoldable pub clear : Set T → Set T
  clear s = record { members = [] }

  -- The loop of Value appends each key.
  unfoldable pub value_loop : List (T × None) → List T → List T
  value_loop [] values = values
  value_loop ((k, _) ∷ m) values = value_loop m (values ++ k ∷ [])

  unfoldable pub value : Set T → List T
  unfolding value_loop
  value s = value_loop s.members []

  -- The sequence of Iter, for a consumer that changes a state and says whether to go on.
  unfoldable pub iter_loop {κ} : {S : Type κ} → (T → S → S × Bool) → List (T × None) → S → S
  iter_loop yield [] st = st
  iter_loop yield ((k, _) ∷ m) st =
      let (st', more) = yield k st in let rest = iter_loop yield m st' in if more then rest else st'

  unfoldable pub iter {κ} : {S : Type κ} → Set T → (T → S → S × Bool) → S → S
  unfolding iter_loop
  iter s yield st = iter_loop yield s.members st

module _ {ℓ} {T : Type ℓ} (e : Eq T) where
  unfoldable pub push : Set T → T → Set T
  unfolding Maps.insert
  push s val = record { members = Maps.insert e val tt s.members }

  unfoldable pub contains : Set T → T → Bool
  unfolding Maps.lookup
  contains s val = Maps.has e val s.members

  unfoldable pub add : Set T → List T → Set T
  unfolding Maps.insert
  add s [] = s
  add s (val ∷ values) = add (record { members = Maps.insert e val tt s.members }) values

  unfoldable pub remove : Set T → T → Set T
  unfolding Maps.erase
  remove s val = record { members = Maps.erase e val s.members }

  -- No member stands twice.
  abbrev pub IsValid : Set T → Type 0
  IsValid s = Maps.Distinct e s.members

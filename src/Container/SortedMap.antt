-- ===== src/Container/SortedMap.antt =====
-- common/container/sorted_map.go: a map beside a linked list of its keys in ascending order.
-- A pointer to a `KeyElement` is the chain of keys from that node on, so nil is `[]`; no code changes
-- a node that it hands out except through the map. `z` is the zero value of the value type.
pub mod Chain
pub mod Laws
pub mod History
mod Examples
use go_tools.Base.{
  ℕ, zero, suc, ◌≡◌, Bool, true, false, not, ◌||◌, List, [], ◌∷◌, some, none, Run, ok, panic,
  length, if◌then◌else◌,
}
use go_tools.Base.Keys.{Ordered}
use go_tools.Base.Maps

pub record SortedMap {ℓ κ} (K : Type ℓ) (V : Type κ) : Type (ℓ ⊔ κ) where
  pub elements : List (K × V)
  pub head : List K

-- The loops over the chain, and what a chain is to be.
module _ {ℓ} {K : Type ℓ} (o : Ordered K) where
  -- The loop of Find: it reads the cursor in each of the `n` rounds, and panics on a nil one.
  unfoldable pub find_loop : ℕ → K → List K → Run (List K)
  find_loop zero key cursor = ok []
  find_loop (suc n) key [] = panic
  find_loop (suc n) key (c ∷ next) = if o.eq.beq c key then ok (c ∷ next) else find_loop n key next

  -- The loop of Delete, at the cursor `c` with what follows it.
  unfoldable pub delete_loop : ℕ → K → K → List K → List K
  delete_loop zero key c next = c ∷ next
  delete_loop (suc n) key c [] = c ∷ []
  delete_loop (suc n) key c (d ∷ next) =
      if o.eq.beq d key then c ∷ next else c ∷ delete_loop n key d next

  -- What Delete does to the chain, with `n` entries left in the map.
  unfoldable pub unlink : ℕ → K → List K → List K
  unfolding delete_loop
  unlink n key [] = []
  unlink n key (c ∷ next) = if o.eq.beq c key then next else delete_loop n key c next

  -- `a >= b` of a total order.
  abbrev pub ge : K → K → Bool
  ge a b = not (o.lt a b)

  -- The loop of Insert, at the cursor `c` with what follows it.
  unfoldable pub insert_loop : ℕ → K → K → List K → List K
  insert_loop zero key c next = c ∷ next
  insert_loop (suc n) key c [] = c ∷ key ∷ []
  insert_loop (suc n) key c (d ∷ next) =
      if ge d key then c ∷ key ∷ d ∷ next else c ∷ insert_loop n key d next

  -- What Insert does to the chain, with `n` entries now in the map.
  unfoldable pub link : ℕ → K → List K → List K
  unfolding insert_loop
  link n key [] = key ∷ []
  link n key (c ∷ next) = if ge c key then key ∷ c ∷ next else insert_loop n key c next

  -- `q` stands in the chain.
  abbrev pub on_chain : K → List K → Bool
  on_chain q [] = false
  on_chain q (c ∷ next) = o.eq.beq c q || on_chain q next

  -- `k` is below every key of the chain.
  abbrev pub IsBelow : K → List K → Type 0
  IsBelow k [] = Unit
  IsBelow k (c ∷ next) = (o.lt k c ≡ true) × IsBelow k next

  -- The chain ascends strictly.
  abbrev pub IsAscending : List K → Type 0
  IsAscending [] = Unit
  IsAscending (c ∷ next) = IsBelow c next × IsAscending next

module _ {ℓ κ} {K : Type ℓ} {V : Type κ} (o : Ordered K) where
  abbrev pub new_sorted_map : SortedMap K V
  new_sorted_map = record { elements = []; head = [] }

  abbrev pub map_elements : SortedMap K V → List (K × V)
  map_elements s = s.elements

  abbrev pub size : SortedMap K V → ℕ
  size s = length s.elements

  abbrev pub clear : SortedMap K V → SortedMap K V
  clear s = record s { elements = []; head = [] }

  abbrev pub begin : SortedMap K V → List K
  begin s = s.head

  abbrev pub exist : SortedMap K V → K → Bool
  exist s key = Maps.has o.eq key s.elements

  unfoldable pub find : SortedMap K V → K → Run (List K)
  unfolding find_loop
  find s key = elim s.head [ [] ↦ ok [] | c ∷ next ↦ find_loop o (size s) key (c ∷ next) ]

  -- An absent key reads as the zero value.
  unfoldable pub get : V → SortedMap K V → K → V
  get z s key = elim (Maps.lookup o.eq key s.elements) [ none ↦ z | some v ↦ v ]

  unfoldable pub delete : SortedMap K V → K → SortedMap K V
  unfolding unlink
  delete s key =
      let rest = Maps.erase o.eq key s.elements in
      if exist s key
      then record { elements = rest; head = unlink o (length rest) key s.head }
      else s

  unfoldable pub insert : SortedMap K V → K → V → SortedMap K V
  unfolding link
  insert s key val =
      let more = Maps.insert o.eq key val s.elements in
      if exist s key
      then record s { elements = more }
      else record { elements = more; head = link o (length more) key s.head }

  -- The chain ascends, and lists exactly the keys of the map.
  pub record IsValid (s : SortedMap K V) : Type (ℓ ⊔ κ) where
    pub distinct : Maps.Distinct o.eq s.elements
    pub ascending : IsAscending o s.head
    pub same_keys : (q : K) → on_chain o q s.head ≡ Maps.has o.eq q s.elements
    pub same_size : length s.head ≡ length s.elements

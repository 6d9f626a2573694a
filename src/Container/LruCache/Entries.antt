-- ===== src/Container/LruCache/Entries.antt =====
-- What common/container/lru_cache.go promises of LruCache: a list of entries, most recent first.
use go_tools.Base.{
  ℕ, ◌≡◌, refl, List, [], ◌∷◌, Option, some, none, length, leb, if◌then◌else◌, arith,
}
use go_tools.Base.Int.{ℤ}
use go_tools.Base.Keys.{Eq}
use go_tools.Container.LruCache.{Entry, is_live}

module _ {ℓ} {A : Type ℓ} where
  -- All but the last.
  unfoldable pub drop_last : List A → List A
  drop_last [] = []
  drop_last (x ∷ []) = []
  drop_last (x ∷ y ∷ l) = x ∷ drop_last (y ∷ l)

  pub length-drop_last : (x : A) (l : List A) → length (drop_last (x ∷ l)) ≡ length l
  unfolding drop_last
  length-drop_last x [] = refl
  length-drop_last x (y ∷ l) = omega (arith, length-drop_last y l)

  -- What a full cache keeps when a new key comes.
  abbrev pub make_room : ℕ → List A → List A
  make_room capacity l = if leb capacity (length l) then drop_last l else l

module _ {ℓ κ} {K : Type ℓ} {V : Type κ} (e : Eq K) where
  unfoldable pub find_entry : K → List (Entry K V) → Option (Entry K V)
  find_entry k [] = none
  find_entry k (x ∷ l) = if e.beq x.key k then some x else find_entry k l

  unfoldable pub remove_entry : K → List (Entry K V) → List (Entry K V)
  remove_entry k [] = []
  remove_entry k (x ∷ l) = if e.beq x.key k then l else x ∷ remove_entry k l

  -- No key stands twice.
  abbrev pub DistinctKeys : List (Entry K V) → Type (ℓ ⊔ κ)
  DistinctKeys [] = Unit
  DistinctKeys (x ∷ l) = (find_entry x.key l ≡ none) × DistinctKeys l

  unfoldable pub put_entry : ℕ → K → V → ℤ → List (Entry K V) → List (Entry K V)
  unfolding find_entry remove_entry drop_last
  put_entry capacity key val expire_at l =
      let x : Entry K V = record { key = key; value = val; expire_at = expire_at } in
      elim (find_entry key l) [ some _ ↦ x ∷ remove_entry key l | none ↦ x ∷ make_room capacity l ]

  -- The reply of a read at the time `now`, and the entries after it.
  unfoldable pub get_entry : ℤ → K → List (Entry K V) → Option V × List (Entry K V)
  unfolding find_entry remove_entry
  get_entry now key l = elim (find_entry key l) [
    | none ↦ (none, l)
    | some x ↦ (
      if is_live now x then some x.value else none,
      if is_live now x then x ∷ remove_entry key l else remove_entry key l,
    )
  ]

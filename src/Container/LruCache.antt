-- ===== src/Container/LruCache.antt =====
-- common/container/lru_cache.go, LruCache: a `list.List` of entries, most recent first, beside a map
-- from keys to elements of the list. An element is a `Node`; its `id` stands for the pointer, which
-- the map holds. A pointer to an element that left the list is a panic of the model; no valid cache
-- holds one. Times are `int64` nanoseconds, and `now` is what a method reads off the clock. The lock
-- makes each exported method one step.
pub mod Nodes
pub mod Entries
pub mod Refinement
pub mod Lookup
pub mod Recency
pub mod Calls
mod Examples
use go_tools.Base.{
  ℕ, ◌+◌, ◌≡◌, ◌≤◌, ◌<◌, Bool, ◌||◌, List, [], ◌∷◌, Option, some, none, Run, ok, ◌>>=◌, or_panic,
  length, leb, ◌==◌, if◌then◌else◌,
}
use go_tools.Base.Int.{ℤ, pos, leb_ℤ, ltb_ℤ, pos_part}
use go_tools.Base.Keys.{Eq}
use go_tools.Base.Maps

abbrev pub default_capacity : ℕ
default_capacity = 1000

pub record Entry {ℓ κ} (K : Type ℓ) (V : Type κ) : Type (ℓ ⊔ κ) where
  pub key : K
  pub value : V
  pub expire_at : ℤ

-- An element of the list.
pub record Node {ℓ κ} (K : Type ℓ) (V : Type κ) : Type (ℓ ⊔ κ) where
  pub id : ℕ
  pub entry : Entry K V

pub record LruCache {ℓ κ} (K : Type ℓ) (V : Type κ) : Type (ℓ ⊔ κ) where
  pub nodes : List (Node K V)
  pub index_map : List (K × ℕ)
  pub capacity : ℕ
  pub next_id : ℕ

module _ {ℓ κ} {K : Type ℓ} {V : Type κ} where
  -- What a pointer points to.
  unfoldable pub find_node : ℕ → List (Node K V) → Option (Node K V)
  find_node i [] = none
  find_node i (n ∷ l) = if n.id == i then some n else find_node i l

  -- `list.Remove(element)`
  unfoldable pub remove_node : ℕ → List (Node K V) → List (Node K V)
  remove_node i [] = []
  remove_node i (n ∷ l) = if n.id == i then l else n ∷ remove_node i l

  -- `list.MoveToFront(element)`
  unfoldable pub move_to_front : ℕ → List (Node K V) → List (Node K V)
  move_to_front i l = elim (find_node i l) [ none ↦ l | some n ↦ n ∷ remove_node i l ]

  -- A write to the entry that an element holds.
  unfoldable pub update_node : ℕ → (Entry K V → Entry K V) → List (Node K V) → List (Node K V)
  update_node i f [] = []
  update_node i f (n ∷ l) =
      if n.id == i then record n { entry = f n.entry } ∷ l else n ∷ update_node i f l

  -- `list.Back()`
  unfoldable pub back : List (Node K V) → Option (Node K V)
  back [] = none
  back (n ∷ []) = some n
  back (n ∷ m ∷ l) = back (m ∷ l)

  -- NewLruCache
  unfoldable pub new_lru_cache : ℤ → LruCache K V
  new_lru_cache capacity = record {
    nodes = [];
    index_map = [];
    capacity = if leb_ℤ capacity (pos 0) then default_capacity else pos_part capacity;
    next_id = 0;
  }

  -- `entry.expireAt <= 0 || now < entry.expireAt`
  abbrev pub is_live : ℤ → Entry K V → Bool
  is_live now e = leb_ℤ e.expire_at (pos 0) || ltb_ℤ now e.expire_at

module _ {ℓ κ} {K : Type ℓ} {V : Type κ} (e : Eq K) where
  -- `put` where the key is in the map, at the element `i`.
  unfoldable pub put_old : LruCache K V → ℕ → V → ℤ → Run (LruCache K V)
  unfolding find_node update_node move_to_front remove_node
  put_old lru i val expire_at = do
    _ ← or_panic (find_node i lru.nodes)
    let written =
        update_node i (λ entry. record entry { value = val; expire_at = expire_at }) lru.nodes
    ok (record lru { nodes = move_to_front i written })

  -- The eviction of the last element where the cache is full.
  unfoldable pub evict : LruCache K V → LruCache K V
  unfolding back remove_node Maps.erase
  evict lru =
      if leb lru.capacity (length lru.index_map)
      then elim (back lru.nodes) [
        | none ↦ lru
        | some last ↦ record lru {
          index_map = Maps.erase e last.entry.key lru.index_map;
          nodes = remove_node last.id lru.nodes;
        }
      ]
      else lru

  -- `put` where the key is new.
  unfoldable pub put_new : LruCache K V → K → V → ℤ → LruCache K V
  unfolding evict Maps.insert
  put_new lru key val expire_at =
      let kept = evict lru in
      let entry : Entry K V = record { key = key; value = val; expire_at = expire_at } in
      record kept {
        nodes = record { id = kept.next_id; entry = entry } ∷ kept.nodes;
        index_map = Maps.insert e key kept.next_id kept.index_map;
        next_id = kept.next_id + 1;
      }

  unfoldable pub put : LruCache K V → K → V → ℤ → Run (LruCache K V)
  unfolding put_old put_new Maps.lookup
  put lru key val expire_at = elim (Maps.lookup e key lru.index_map) [
    | some i ↦ put_old lru i val expire_at
    | none ↦ ok (put_new lru key val expire_at)
  ]

  -- `get`: the value if there is one that has not expired, and the cache.
  unfoldable pub get : ℤ → LruCache K V → K → Run (Option V × LruCache K V)
  unfolding find_node move_to_front remove_node Maps.lookup Maps.erase
  get now lru key = elim (Maps.lookup e key lru.index_map) [
    | none ↦ ok (none, lru)
    | some i ↦ do
      n ← or_panic (find_node i lru.nodes)
      if is_live now n.entry
          then ok (some n.entry.value, record lru { nodes = move_to_front i lru.nodes })
          else ok (
            none,
            record lru {
              index_map = Maps.erase e key lru.index_map;
              nodes = remove_node i lru.nodes;
            },
          )
  ]

  unfoldable pub remove : LruCache K V → K → LruCache K V
  unfolding remove_node Maps.lookup Maps.erase
  remove lru key = elim (Maps.lookup e key lru.index_map) [
    | none ↦ lru
    | some i ↦ record lru {
      index_map = Maps.erase e key lru.index_map;
      nodes = remove_node i lru.nodes;
    }
  ]

  -- The element that holds a key.
  unfoldable pub id_of : K → List (Node K V) → Option ℕ
  id_of k [] = none
  id_of k (n ∷ l) = if e.beq n.entry.key k then some n.id else id_of k l

  -- No key and no element stands twice.
  abbrev pub DistinctNodes : List (Node K V) → Type (ℓ ⊔ κ)
  DistinctNodes [] = Unit
  DistinctNodes (n ∷ l) = (id_of n.entry.key l ≡ none) × (find_node n.id l ≡ none) × DistinctNodes l

  -- The map and the list agree, no key and no element stands twice, and there is room.
  pub record IsValid (lru : LruCache K V) : Type (ℓ ⊔ κ) where
    pub agrees : (k : K) → Maps.lookup e k lru.index_map ≡ id_of k lru.nodes
    pub nodes_distinct : DistinctNodes lru.nodes
    pub fresh : (i : ℕ) → lru.next_id ≤ i → find_node i lru.nodes ≡ none
    pub keys_distinct : Maps.Distinct e lru.index_map
    pub same_size : length lru.index_map ≡ length lru.nodes
    pub positive : 0 < lru.capacity
    pub bounded : length lru.nodes ≤ lru.capacity

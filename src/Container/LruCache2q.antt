-- ===== src/Container/LruCache2q.antt =====
-- common/container/lru_cache.go, LruCache2Q: a first-in first-out queue of the keys that were seen once,
-- in front of an LruCache of those that were seen again. The queue is a list of entries, the newest
-- first, and a cursor on it is found by its key. A method that reads the clock more than once takes
-- a time for each: `now` inside `lru.get`, `now'` and `now''` for the later ones.
pub mod Parts
pub mod Refinement
pub mod Promotion
mod Examples
use go_tools.Base.{
  ◌≡◌, ◌≤◌, Bool, ◌&&◌, List, [], ◌∷◌, Option, some, none, Run, ok, ◌>>=◌, length, leb,
  if◌then◌else◌,
}
use go_tools.Base.Int.{ℤ, pos, leb_ℤ, ltb_ℤ, add64}
use go_tools.Base.Keys.{Eq}
use go_tools.Container.LruCache.{Entry, LruCache, IsValid}
use go_tools.Container.LruCache
use go_tools.Container.LruCache.Entries.{find_entry, drop_last, DistinctKeys}
use go_tools.Container.LruCache.Nodes.{entries}

pub record LruCache2q {ℓ κ} (K : Type ℓ) (V : Type κ) : Type (ℓ ⊔ κ) where
  pub lru : LruCache K V
  pub fifo : List (Entry K V)
  pub expiration : ℤ

-- `if lru.expiration > 0 { expireAt = now + expiration }`
unfoldable pub expire_from : ℤ → ℤ → ℤ
expire_from expiration now = if ltb_ℤ (pos 0) expiration then add64 now expiration else pos 0

module _ {ℓ κ} {K : Type ℓ} {V : Type κ} where
  unfoldable pub new_lru_cache_2q : ℤ → ℤ → LruCache2q K V
  unfolding LruCache.new_lru_cache
  new_lru_cache_2q capacity expiration = record {
    lru = LruCache.new_lru_cache capacity;
    fifo = [];
    expiration = expiration;
  }

  -- The entry has expired: `entry.expireAt > 0 && now >= entry.expireAt`.
  abbrev pub is_dead : ℤ → Entry K V → Bool
  is_dead now x = ltb_ℤ (pos 0) x.expire_at && leb_ℤ x.expire_at now

module _ {ℓ κ} {K : Type ℓ} {V : Type κ} (e : Eq K) where
  -- The loop over the queue: the entry at the cursor where it stops, and the queue without it.
  unfoldable pub scan : K → List (Entry K V) → Option (Entry K V × List (Entry K V))
  scan key [] = none
  scan key (x ∷ l) =
      if e.beq x.key key
      then some (x, l)
      else elim (scan key l) [ none ↦ none | some (y, rest) ↦ some (y, x ∷ rest) ]

  -- A first access: the key joins the queue, which gives up its oldest entry, `Remove(Back())`, where
  -- it is full.
  unfoldable pub admit : LruCache2q K V → K → V → ℤ → LruCache2q K V
  unfolding drop_last expire_from
  admit c key value now =
      let kept = if leb c.lru.capacity (length c.fifo) then drop_last c.fifo else c.fifo in
      record c {
        fifo = record { key = key; value = value; expire_at = expire_from c.expiration now } ∷ kept;
      }

  unfoldable pub put : ℤ → ℤ → LruCache2q K V → K → V → Run (LruCache2q K V)
  unfolding scan admit LruCache.put LruCache.get
  put now now' c key value = do
    (hit, lru) ← LruCache.get e now c.lru key
    elim hit [
      | some _ ↦ do
        lru' ← LruCache.put e lru key value (add64 now' c.expiration)
        ok (record c { lru = lru' })
      | none ↦ elim (scan key c.fifo) [
        | some (entry, rest) ↦ do
          lru' ← LruCache.put e lru key value (add64 entry.expire_at c.expiration)
          ok (record c { lru = lru'; fifo = rest })
        | none ↦ ok (admit (record c { lru = lru }) key value now')
      ]
    ]

  unfoldable pub get : ℤ → ℤ → ℤ → LruCache2q K V → K → Run (Option V × LruCache2q K V)
  unfolding scan expire_from LruCache.put LruCache.get
  get now now' now'' c key = do
    (hit, lru) ← LruCache.get e now c.lru key
    elim hit [
      | some value ↦ ok (some value, record c { lru = lru })
      | none ↦ elim (scan key c.fifo) [
        | none ↦ ok (none, record c { lru = lru })
        | some (entry, rest) ↦
            if is_dead now' entry then ok (none, record c { lru = lru; fifo = rest }) else do
              lru' ← LruCache.put e lru key entry.value (expire_from c.expiration now'')
              ok (some entry.value, record c { lru = lru'; fifo = rest })
      ]
    ]

  unfoldable pub remove : LruCache2q K V → K → LruCache2q K V
  unfolding scan LruCache.remove
  remove c key =
      let lru = LruCache.remove e c.lru key in
      elim (scan key c.fifo) [
        | none ↦ record c { lru = lru }
        | some (_, rest) ↦ record c { lru = lru; fifo = rest }
      ]

  -- Both parts are valid and bounded, and no key is in both.
  pub record IsValid2q (c : LruCache2q K V) : Type (ℓ ⊔ κ) where
    pub cached : IsValid e c.lru
    pub queued : DistinctKeys e c.fifo
    pub bounded : length c.fifo ≤ c.lru.capacity
    pub apart :
        (k : K) (x : Entry K V)
        → find_entry e k c.fifo ≡ some x
        → find_entry e k (entries c.lru.nodes) ≡ none

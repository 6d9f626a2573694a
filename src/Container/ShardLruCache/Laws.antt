-- ===== src/Container/ShardLruCache/Laws.antt =====
-- The methods of ShardLruCache in common/container/lru_cache.go: each returns, keeps every shard valid,
-- and touches no shard but that of its key.
use mathlib.Core.Path.{subst}
use go_tools.Base.{
  ok, ℕ, zero, suc, ◌≡◌, ◌≢◌, ◌<◌, refl, ◌∙◌, some, length, get_elem?, replicate, length-set,
  length-replicate, get_elem?_total, get_elem?-set, ◌==◌, if◌then◌else◌, arith, Bool-cases, inl,
  inr, Returns, returns, Returns-bind,
}
use go_tools.Base.Int.{ℤ, pos, leb_ℤ}
use go_tools.Base.Bytes.{Bytes, bytes_eq}
use go_tools.Container.LruCache.{LruCache, IsValid}
use go_tools.Container.LruCache
use go_tools.Container.LruCache.Entries.{put_entry, get_entry, remove_entry}
use go_tools.Container.LruCache.Nodes.{entries}
use go_tools.Container.LruCache.Refinement.{
  Holds, put_correct, get_correct, remove_correct, new_lru_cache-Holds,
}
use go_tools.Container.LruCache2q.{expire_from}
use go_tools.Container.ShardLruCache.{
  ShardLruCache, IsValidSharded, shard_of, get_shard, set_shard, put, get, remove,
  new_shard_lru_cache,
}
use go_tools.Container.ShardLruCache.Index.{shard_index-lt}

module _ {κ} {T : Type κ} (c : ShardLruCache T) (key : Bytes) where
  -- `c'` is valid and has the settings and the shards of `c`, but for that of `key`, which satisfies `P`.
  pub record Changes (P : LruCache Bytes T → Type κ) (c' : ShardLruCache T) : Type κ where
    pub valid : IsValidSharded c'
    pub here : LruCache Bytes T
    pub held : get_elem? c'.shards (shard_of c key) ≡ some here
    pub changed : P here
    pub others : (i : ℕ) → i ≢ shard_of c key → get_elem? c'.shards i ≡ get_elem? c.shards i
    pub same_hash : c'.hash_func ≡ c.hash_func
    pub same_count : c'.shard_count ≡ c.shard_count
    pub same_expiration : c'.expiration ≡ c.expiration

module _ {κ} {T : Type κ} (c : ShardLruCache T) (v : IsValidSharded c) (key : Bytes) where
  shard-in-range : shard_of c key < length c.shards
  shard-in-range = rw v.counted (shard_index-lt (c.hash_func key) c.shard_count v.positive).1

  set_shard-Changes :
      {P : LruCache Bytes T → Type κ} (shard : LruCache Bytes T)
      → IsValid bytes_eq shard
      → P shard
      → Changes c key P (set_shard c key shard)
  set_shard-Changes shard w p =
      let at = λ (j : ℕ). get_elem?-set c.shards (shard_of c key) j shard shard-in-range in
      record {
        valid = record {
          positive = v.positive;
          counted = length-set c.shards (shard_of c key) shard ∙ v.counted;
          each = λ i other h. elim (Bool-cases (shard_of c key == i)) [
            | inl e ↦ subst (IsValid bytes_eq) (ground (arith, at i)) w
            | inr e ↦ v.each i other (ground (arith, at i))
          ];
        };
        here = shard;
        held = ground (arith, at (shard_of c key));
        changed = p;
        others = λ i ne. ground (arith, at i);
        same_hash = refl;
        same_count = refl;
        same_expiration = refl;
      }

  the_shard : (shard : LruCache Bytes T) × (get_elem? c.shards (shard_of c key) ≡ some shard)
  the_shard = get_elem?_total c.shards (shard_of c key) shard-in-range

  get_shard-ok :
      (shard : LruCache Bytes T)
      → get_elem? c.shards (shard_of c key) ≡ some shard
      → get_shard c key ≡ ok shard
  unfolding get_shard
  get_shard-ok shard got =
      rw ((shard_index-lt (c.hash_func key) c.shard_count v.positive).0, got) refl

  -- Put on a valid sharded cache finds the shard of its key and returns: whatever the hash function gives,
  -- no index is out of range. It puts the entry there, with the expiration of the cache, and keeps every
  -- shard valid and every other shard as it was.
  pub put_sharded :
      (now : ℤ) (val : T)
      → (shard : LruCache Bytes T) × (get_elem? c.shards (shard_of c key) ≡ some shard)
        × Returns
            (Changes c key (
              Holds bytes_eq shard.capacity (
                put_entry bytes_eq shard.capacity key val
                  (expire_from c.expiration now)
                  (entries shard.nodes))))
            (put now c key val)
  unfolding put
  put_sharded now val =
      let (shard, got) = the_shard in
      (
        shard,
        got,
        rw (get_shard-ok shard got) (
            Returns-bind
              (put_correct bytes_eq shard (v.each (shard_of c key) shard got) key val
                (expire_from c.expiration now))
              λ shard' h. returns (set_shard-Changes shard' h.0 h)),
      )

  -- Get finds the shard of its key and returns, with the reply of that shard, and keeps every shard
  -- valid and every other shard as it was.
  pub get_sharded :
      (now : ℤ)
      → (shard : LruCache Bytes T) × (get_elem? c.shards (shard_of c key) ≡ some shard)
        × Returns
            (λ (reply, c').
              (reply ≡ (get_entry bytes_eq now key (entries shard.nodes)).0)
              × Changes c key
                  (Holds bytes_eq shard.capacity
                    (get_entry bytes_eq now key (entries shard.nodes)).1)
                  c')
            (get now c key)
  unfolding get
  get_sharded now =
      let (shard, got) = the_shard in
      (
        shard,
        got,
        rw (get_shard-ok shard got) (
            Returns-bind (get_correct bytes_eq shard (v.each (shard_of c key) shard got) now key)
              λ (reply, shard') (eq, h). returns (eq, set_shard-Changes shard' h.0 h)),
      )

  -- Remove finds the shard of its key and returns, takes the key out of that shard, and keeps every
  -- shard valid and every other shard as it was.
  pub remove_sharded :
      (shard : LruCache Bytes T) × (get_elem? c.shards (shard_of c key) ≡ some shard)
      × Returns
          (Changes c key
            (Holds bytes_eq shard.capacity (remove_entry bytes_eq key (entries shard.nodes))))
          (remove c key)
  unfolding remove
  remove_sharded =
      let (shard, got) = the_shard in
      let h = remove_correct bytes_eq shard (v.each (shard_of c key) shard got) key in
      (
        shard,
        got,
        rw (get_shard-ok shard got)
            (returns (set_shard-Changes (LruCache.remove bytes_eq shard key) h.0 h)),
      )

get_elem?-replicate {ℓ} :
    {A : Type ℓ} (n i : ℕ) (a b : A) → get_elem? (replicate n a) i ≡ some b → b ≡ a
get_elem?-replicate zero i a b h = absurd (cc)
get_elem?-replicate (suc n) zero a b h = cc
get_elem?-replicate (suc n) (suc i) a b h = get_elem?-replicate n i a b h

-- A new sharded cache is valid, whatever sizes it is given.
pub new_shard_lru_cache-IsValidSharded {κ} :
    {T : Type κ} (bucket_count bucket_capacity expiration : ℤ)
    → IsValidSharded (new_shard_lru_cache {T = T} bucket_count bucket_capacity expiration)
unfolding new_shard_lru_cache
new_shard_lru_cache-IsValidSharded {T} bucket_count bucket_capacity expiration = record {
  positive = ground arith;
  counted = length-replicate _ _;
  each = λ i shard h.
      rw (get_elem?-replicate _ i _ shard h)
        (new_lru_cache-Holds bytes_eq (
          if leb_ℤ bucket_capacity (pos 0)
          then pos LruCache.default_capacity
          else bucket_capacity)).0;
}

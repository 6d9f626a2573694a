-- ===== src/Container/ShardLruCache.antt =====
-- common/container/lru_cache.go, ShardLruCache: caches side by side, one of which a hash of the key
-- chooses. Strings are their bytes. A hash is a 64-bit `int` of either sign; `shard_count` is positive
-- by construction, and indexes `shards`, where an index out of range would panic.
pub mod Index
pub mod Laws
mod Examples
use Prim.Native.Nat.{bit_xor}
use go_tools.Base.{
  ℕ, suc, ◌-◌, ◌*◌, ◌%◌, ◌^◌, ◌≡◌, ◌<◌, List, [], ◌∷◌, Option, some, none, Run, ok, panic, ◌>>=◌,
  or_panic, length, get_elem?, set, replicate, ◌==◌, if◌then◌else◌,
}
use go_tools.Base.Int.{ℤ, pos, negsuc, leb_ℤ, ltb_ℤ, pos_part, neg_part}
use go_tools.Base.Bytes.{Bytes, bytes_eq}
use go_tools.Container.LruCache.{LruCache, IsValid, default_capacity}
use go_tools.Container.LruCache
use go_tools.Container.LruCache2q.{expire_from}

abbrev pub default_bucket_count : ℕ
default_bucket_count = 10

pub record ShardLruCache {κ} (T : Type κ) : Type κ where
  pub shards : List (LruCache Bytes T)
  pub shard_count : ℕ
  pub expiration : ℤ
  pub hash_func : Bytes → ℤ

-- `fnv.New32a`: for each byte, exclusive or, then the product modulo 2^32.
unfoldable pub fnv32a_from : ℕ → Bytes → ℕ
fnv32a_from h [] = h
fnv32a_from h (b ∷ s) = fnv32a_from (bit_xor h b * 16777619 % 2 ^ 32) s

unfoldable pub fnv32a : Bytes → ℕ
unfolding fnv32a_from
fnv32a s = fnv32a_from 2166136261 s

-- `a % n` of Go, which has the sign of `a`, for a positive `n`.
unfoldable pub rem : ℤ → ℕ → ℤ
rem (pos a) n = pos (a % n)
rem (negsuc a) n = if suc a % n == 0 then pos 0 else negsuc (suc a % n - 1)

-- The index that `getShard` computes: the remainder, negated where it is negative.
unfoldable pub shard_index : ℤ → ℕ → ℤ
unfolding rem
shard_index hash n = let r = rem hash n in if ltb_ℤ r (pos 0) then pos (neg_part r) else r

-- `shards[i]`, which panics on a negative index as on one past the end.
abbrev pub elem_at {κ} : {A : Type κ} → List A → ℤ → Run A
elem_at shards (pos i) = or_panic (get_elem? shards i)
elem_at shards (negsuc i) = panic

module _ {κ} {T : Type κ} where
  -- The loop that fills `shards`.
  unfoldable pub new_shards : ℕ → ℤ → List (LruCache Bytes T)
  unfolding LruCache.new_lru_cache
  new_shards n bucket_capacity = replicate n (LruCache.new_lru_cache bucket_capacity)

  unfoldable pub new_shard_lru_cache : ℤ → ℤ → ℤ → ShardLruCache T
  unfolding new_shards fnv32a
  new_shard_lru_cache bucket_count bucket_capacity expiration =
      let n = if leb_ℤ bucket_count (pos 0) then default_bucket_count else pos_part bucket_count in
      let capacity =
        if leb_ℤ bucket_capacity (pos 0) then pos default_capacity else bucket_capacity in
      record {
        shards = new_shards n capacity;
        shard_count = n;
        expiration = expiration;
        hash_func = λ s. pos (fnv32a s);
      }

  -- A nil function is ignored.
  unfoldable pub set_hash_func : ShardLruCache T → Option (Bytes → ℤ) → ShardLruCache T
  set_hash_func c none = c
  set_hash_func c (some fn) = record c { hash_func = fn }

  -- The place of the shard of a key.
  abbrev pub shard_of : ShardLruCache T → Bytes → ℕ
  shard_of c key = pos_part (shard_index (c.hash_func key) c.shard_count)

  unfoldable pub get_shard : ShardLruCache T → Bytes → Run (LruCache Bytes T)
  get_shard c key = elem_at c.shards (shard_index (c.hash_func key) c.shard_count)

  -- A shard is changed in place.
  abbrev pub set_shard : ShardLruCache T → Bytes → LruCache Bytes T → ShardLruCache T
  set_shard c key shard = record c { shards = set c.shards (shard_of c key) shard }

  unfoldable pub put : ℤ → ShardLruCache T → Bytes → T → Run (ShardLruCache T)
  unfolding get_shard expire_from LruCache.put
  put now c key val = do
    shard ← get_shard c key
    shard' ← LruCache.put bytes_eq shard key val (expire_from c.expiration now)
    ok (set_shard c key shard')

  unfoldable pub get : ℤ → ShardLruCache T → Bytes → Run (Option T × ShardLruCache T)
  unfolding get_shard LruCache.get
  get now c key = do
    shard ← get_shard c key
    (reply, shard') ← LruCache.get bytes_eq now shard key
    ok (reply, set_shard c key shard')

  unfoldable pub remove : ShardLruCache T → Bytes → Run (ShardLruCache T)
  unfolding get_shard LruCache.remove
  remove c key = do
    shard ← get_shard c key
    ok (set_shard c key (LruCache.remove bytes_eq shard key))

  -- There are as many shards as the index expects, each of them valid.
  pub record IsValidSharded (c : ShardLruCache T) : Type κ where
    pub positive : 0 < c.shard_count
    pub counted : length c.shards ≡ c.shard_count
    pub each :
        (i : ℕ) (shard : LruCache Bytes T)
        → get_elem? c.shards i ≡ some shard
        → IsValid bytes_eq shard

-- ===== src/Container/ShardLruCache/Examples.antt =====
-- ShardLruCache of common/container/lru_cache.go at work, with the default hash and with a negative one.
use go_tools.Base.{
  ℕ, ◌≡◌, refl, [], ◌∷◌, Option, some, Run, ok, ◌>>=◌, Returns, arith, get_elem?, suc,
}
use go_tools.Base.Int.{pos, negsuc, add64}
use go_tools.Base.Bytes.{Bytes, bytes_eq}
use go_tools.Container.LruCache.{LruCache}
use go_tools.Container.LruCache.Entries.{put_entry}
use go_tools.Container.LruCache.Nodes.{entries}
use go_tools.Container.LruCache.Refinement.{Holds}
use go_tools.Container.LruCache2q.{expire_from}
use go_tools.Container.ShardLruCache.{
  ShardLruCache, IsValidSharded, shard_of, shard_index, fnv32a, new_shard_lru_cache, set_hash_func,
  put, get,
}
use go_tools.Container.ShardLruCache.Index.{shard_index-neg}
use go_tools.Container.ShardLruCache.Laws.{Changes, put_sharded, new_shard_lru_cache-IsValidSharded}

-- The published hash of "a" is 0xe40c292c.
fnv32a_letter : fnv32a (b'a' ∷ []) ≡ 0xe40c292c
unfolding fnv32a
fnv32a_letter = refl

abbrev three_shards : ShardLruCache ℕ
three_shards = new_shard_lru_cache (pos 3) (pos 2) (pos 100)

abbrev key : Bytes
key = b'k' ∷ b'1' ∷ []

three_shards-IsValid : IsValidSharded three_shards
three_shards-IsValid = new_shard_lru_cache-IsValidSharded (pos 3) (pos 2) (pos 100)

abbrev session : Run (Option ℕ)
session = do
  c ← put (pos 5) (set_hash_func three_shards (some (λ s. negsuc 6))) key 9
  (reply, c') ← get (pos 6) c key
  ok reply

session_reply : session ≡ ok (some 9)
unfolding put get set_hash_func new_shard_lru_cache shard_index add64
session_reply = refl

shard_index-neg_example : shard_index (negsuc 6) 5 ≡ shard_index (pos (suc 6)) 5
shard_index-neg_example = shard_index-neg 6 5 (omega arith)

-- A hash function that gives a negative number.
abbrev negative_hash : ShardLruCache ℕ
negative_hash = record three_shards { hash_func = λ s. negsuc 6 }

negative_hash-IsValid : IsValidSharded negative_hash
negative_hash-IsValid = record {
  positive = three_shards-IsValid.positive;
  counted = three_shards-IsValid.counted;
  each = three_shards-IsValid.each;
}

put_sharded_example :
    (shard : LruCache Bytes ℕ) × (get_elem? negative_hash.shards (shard_of negative_hash key)
      ≡ some shard)
    × Returns
        (Changes negative_hash key (
          Holds bytes_eq shard.capacity (
            put_entry bytes_eq shard.capacity key 9
              (expire_from negative_hash.expiration (pos 5))
              (entries shard.nodes))))
        (put (pos 5) negative_hash key 9)
put_sharded_example = put_sharded negative_hash negative_hash-IsValid key (pos 5) 9

-- ===== src/Container/ShardLruCache/Index.antt =====
-- The index that `getShard` of common/container/lru_cache.go computes from a hash.
use go_tools.Base.{ℕ, suc, ◌≡◌, ◌<◌, arith}
use go_tools.Base.Int.{ℤ, pos, negsuc, pos_part}
use go_tools.Container.ShardLruCache.{shard_index}

-- The index is in range for every hash, of either sign: it is not negative, and less than the count.
pub shard_index-lt :
    (hash : ℤ) (n : ℕ)
    → 0 < n
    → (shard_index hash n ≡ pos (pos_part (shard_index hash n)))
      × (pos_part (shard_index hash n) < n)
unfolding shard_index
shard_index-lt (pos a) n h = (grind arith, grind arith)
shard_index-lt (negsuc a) n h = (grind arith, grind arith)

-- A hash and its opposite choose the same shard.
pub shard_index-neg : (a n : ℕ) → 0 < n → shard_index (negsuc a) n ≡ shard_index (pos (suc a)) n
unfolding shard_index
shard_index-neg a n h = grind arith

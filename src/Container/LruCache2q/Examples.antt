-- ===== src/Container/LruCache2q/Examples.antt =====
-- LruCache2Q of common/container/lru_cache.go at work: a key that is queued, promoted and renewed.
use go_tools.Base.{ℕ, ◌≡◌, refl, List, [], ◌∷◌, none, Run, ok, ◌>>=◌, Returns, arith}
use go_tools.Base.Int.{pos, add64}
use go_tools.Base.Keys.{nat_eq as e}
use go_tools.Base.Maps
use go_tools.Container.LruCache.{Entry, find_node, id_of}
use go_tools.Container.LruCache.Entries.{find_entry, remove_entry, get_entry}
use go_tools.Container.LruCache.Nodes.{entries}
use go_tools.Container.LruCache2q.{LruCache2q, IsValid2q, put, get, remove, new_lru_cache_2q}
use go_tools.Container.LruCache2q.Parts.{Consists, get_parts}
use go_tools.Container.LruCache2q.Refinement.{get_refines, remove_refines}
use go_tools.Container.LruCache2q.Promotion.{put_renewal_lost}

-- Key 1 is cached, key 2 is queued.
abbrev both : LruCache2q ℕ ℕ
both = record {
  lru = record {
    nodes = record { id = 0; entry = record { key = 1; value = 10; expire_at = pos 0 } } ∷ [];
    index_map = (1, 0) ∷ [];
    capacity = 2;
    next_id = 1;
  };
  fifo = record { key = 2; value = 20; expire_at = pos 0 } ∷ [];
  expiration = pos 0;
}

both-IsValid : IsValid2q e both
unfolding find_node id_of Maps.lookup find_entry
both-IsValid = record {
  cached = record {
    agrees = λ k. ground arith;
    nodes_distinct = (refl, refl, tt);
    fresh = λ i h. ground arith;
    keys_distinct = (refl, tt);
    same_size = refl;
    positive = omega arith;
    bounded = omega arith;
  };
  queued = (refl, tt);
  bounded = omega arith;
  apart = λ k x h. ground arith;
}

-- Two Puts of a new key bring it into the cache.
abbrev twice : Run (List (Entry ℕ ℕ) × List (Entry ℕ ℕ))
twice = do
  c ← put e (pos 5) (pos 5) (new_lru_cache_2q (pos 2) (pos 0)) 7 70
  c' ← put e (pos 6) (pos 6) c 7 71
  ok (entries c'.lru.nodes, c'.fifo)

put_twice : twice ≡ ok (record { key = 7; value = 71; expire_at = pos 0 } ∷ [], [])
unfolding put new_lru_cache_2q add64
put_twice = refl

-- The same entries in a cache with an expiration.
abbrev lasting : LruCache2q ℕ ℕ
lasting = record both { expiration = pos 100 }

get_refines_example :
    Returns
      (λ (reply, c').
        (reply
          ≡ (get_parts e 2 (pos 0) (pos 5) (pos 6) (pos 7) 2 (entries both.lru.nodes, both.fifo)).0)
        × Consists e 2
            (pos 0)
            (get_parts e 2 (pos 0) (pos 5) (pos 6) (pos 7) 2 (entries both.lru.nodes, both.fifo)).1
            c')
      (get e (pos 5) (pos 6) (pos 7) both 2)
get_refines_example = get_refines e both both-IsValid (pos 5) 2 (pos 6) (pos 7)

remove_refines_example :
    Consists e 2
      (pos 0)
      (remove_entry e 2 (entries both.lru.nodes), remove_entry e 2 both.fifo)
      (remove e both 2)
remove_refines_example = remove_refines e both both-IsValid 2

put_renewal_lost_example :
    Returns
      (λ (reply, _). reply ≡ none)
      (put e (pos 5) (pos 6) both 1 11 >>= λ c'. get e (pos 6) (pos 7) (pos 8) c' 1)
unfolding get_entry
put_renewal_lost_example =
    put_renewal_lost e both both-IsValid (pos 5) 6 1 11 {a = 10} refl (omega arith) (omega arith)
      refl 6 (pos 7) (pos 8) (omega arith)

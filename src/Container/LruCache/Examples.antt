-- ===== src/Container/LruCache/Examples.antt =====
-- LruCache of common/container/lru_cache.go at work: a cache of two entries.
use go_tools.Base.{ℕ, ◌≡◌, refl, List, [], ◌∷◌, some, none, ok, ◌>>=◌, Returns, arith}
use go_tools.Base.Int.{pos}
use go_tools.Base.Keys.{nat_eq as e}
use go_tools.Base.Maps
use go_tools.Container.LruCache.{
  Entry, LruCache, IsValid, put, get, remove, new_lru_cache, find_node, id_of,
}
use go_tools.Container.LruCache.Nodes.{entries}
use go_tools.Container.LruCache.Entries.{remove_entry, find_entry}
use go_tools.Container.LruCache.Refinement.{Holds, new_lru_cache-Holds, remove_correct}
use go_tools.Container.LruCache.Calls.{
  Call, put_call, get_call, run, step, entry_run, Answers, cache_refines,
}
use go_tools.Container.LruCache.Recency.{put_all, put_survives}

abbrev calls : List (Call ℕ ℕ)
calls =
    put_call 1 10 (pos 0)
    ∷ put_call 2 20 (pos 50)
    ∷ get_call (pos 5) 1
    ∷ put_call 3 30 (pos 0)
    ∷ get_call (pos 5) 2
    ∷ get_call (pos 5) 1
    ∷ []

abbrev fresh : LruCache ℕ ℕ
fresh = record { nodes = []; index_map = []; capacity = 2; next_id = 0 }

-- The state that the calls lead to: 2 is evicted, since 1 was read before 3 came.
abbrev full : LruCache ℕ ℕ
full = record {
  nodes =
      record { id = 0; entry = record { key = 1; value = 10; expire_at = pos 0 } }
      ∷ record { id = 2; entry = record { key = 3; value = 30; expire_at = pos 0 } }
      ∷ [];
  index_map = (1, 0) ∷ (3, 2) ∷ [];
  capacity = 2;
  next_id = 3;
}

calls_outcome : run e fresh calls ≡ ok (none ∷ none ∷ some 10 ∷ none ∷ none ∷ some 10 ∷ [], full)
unfolding run step put get
calls_outcome = refl

fresh-Holds : Holds e 2 [] fresh
unfolding new_lru_cache
fresh-Holds = new_lru_cache-Holds e (pos 2)

full-IsValid : IsValid e full
unfolding find_node id_of Maps.lookup
full-IsValid = record {
  agrees = λ k. ground arith;
  nodes_distinct = (refl, refl, (refl, refl, tt));
  fresh = λ i h. ground arith;
  keys_distinct = (refl, (refl, tt));
  same_size = refl;
  positive = omega arith;
  bounded = omega arith;
}

remove_correct_example : Holds e 2 (remove_entry e 3 (entries full.nodes)) (remove e full 3)
remove_correct_example = remove_correct e full full-IsValid 3

cache_refines_example : Returns (Answers e 2 (entry_run e 2 [] calls)) (run e fresh calls)
cache_refines_example = cache_refines e calls fresh 2 [] fresh-Holds

put_survives_example :
    Returns
      (λ c. (x : Entry ℕ ℕ) × (find_entry e 4 (entries c.nodes) ≡ some x))
      (put e full 4 40 (pos 9) >>= λ lru'. put_all e lru' ((5, 50, pos 0) ∷ []))
put_survives_example =
    put_survives e full 4 40 (pos 9) ((5, 50, pos 0) ∷ []) full-IsValid (omega arith)

-- ===== src/Container/LruCache2q/Promotion.antt =====
-- What LruCache2Q of common/container/lru_cache.go is for: keys seen once do not disturb the cache, keys
-- seen twice enter it. And where a renewal goes wrong.
use go_tools.Base.{
  ℕ, ◌≡◌, ◌≤◌, ◌<◌, ap, ◌∙◌, List, ◌∷◌, some, none, arith, ◌>>=◌, Returns, Returns-bind,
  Returns-map,
}
use go_tools.Base.Int.{ℤ, pos, add64, add64_pos, two_pow_63}
use go_tools.Base.Keys.{Eq}
use go_tools.Container.LruCache.{Entry}
use go_tools.Container.LruCache.Entries.{find_entry, remove_entry, put_entry, get_entry, make_room}
use go_tools.Container.LruCache.Nodes.{entries}
use go_tools.Container.LruCache.Lookup.{get_entry-unheld}
use go_tools.Container.LruCache.Recency.{put_entry-find, get_entry-reply}
use go_tools.Container.LruCache2q.{LruCache2q, IsValid2q, put, get, expire_from}
use go_tools.Container.LruCache2q.Parts.{put_parts, put_stamped, get_parts}
use go_tools.Container.LruCache2q.Refinement.{put_follows, get_refines, hit-unqueued}

module _ {ℓ κ} {K : Type ℓ} {V : Type κ} (e : Eq K) where
  put_parts-new :
      (n : ℕ) (expiration now now' : ℤ) (key : K) (value : V) (l q : List (Entry K V))
      → find_entry e key l ≡ none
      → find_entry e key q ≡ none
      → put_parts e n expiration now now' key value (l, q) ≡ (
        l,
        record { key = key; value = value; expire_at = expire_from expiration now' }
            ∷ make_room n q,
      )
  unfolding put_stamped
  put_parts-new n expiration now now' key value l q h k =
      rw (ap (λ r. r.0) (get_entry-unheld e now key l h), k, put_stamped)
        (rw (ap (λ r. r.1) (get_entry-unheld e now key l h)))

  -- A key that is queued goes on to the cache.
  put_parts-queued :
      (n : ℕ) (expiration now now' : ℤ) (key : K) (value : V) (l q : List (Entry K V))
      (x : Entry K V)
      → find_entry e key l ≡ none
      → find_entry e key q ≡ some x
      → put_parts e n expiration now now' key value (l, q)
        ≡ (put_entry e n key value (add64 x.expire_at expiration) l, remove_entry e key q)
  unfolding put_stamped
  put_parts-queued n expiration now now' key value l q x h k =
      rw (ap (λ r. r.0) (get_entry-unheld e now key l h), k, put_stamped)
        (rw (ap (λ r. r.1) (get_entry-unheld e now key l h)))

  -- A live key of the cache is renewed.
  put_parts-cached :
      (n : ℕ) (expiration now now' : ℤ) (key : K) (value : V) (l q : List (Entry K V)) {a : V}
      → (get_entry e now key l).0 ≡ some a
      → put_parts e n expiration now now' key value (l, q)
        ≡ (put_entry e n key value (add64 now' expiration) (get_entry e now key l).1, q)
  unfolding put_stamped
  put_parts-cached n expiration now now' key value l q h = rw (h, put_stamped)

  get_parts-none :
      (n : ℕ) (expiration now now' now'' : ℤ) (key : K) (l q : List (Entry K V))
      → (get_entry e now key l).0 ≡ none
      → find_entry e key q ≡ none
      → (get_parts e n expiration now now' now'' key (l, q)).0 ≡ none
  unfolding get_parts
  get_parts-none n expiration now now' now'' key l q h k = rw (h, k, get_parts)

module _ {ℓ κ} {K : Type ℓ} {V : Type κ} (e : Eq K) (c : LruCache2q K V) (v : IsValid2q e c) where
  -- Scan resistance: a Put of a key that is in neither part leaves every entry of the cache in its
  -- place, and the new entry stands first in the queue.
  pub put_new_key :
      (now now' : ℤ) (key : K) (value : V)
      → find_entry e key (entries c.lru.nodes) ≡ none
      → find_entry e key c.fifo ≡ none
      → Returns
          (λ c'.
            (entries c'.lru.nodes ≡ entries c.lru.nodes)
            × (c'.fifo
                ≡ record { key = key; value = value; expire_at = expire_from c.expiration now' }
                  ∷ make_room c.lru.capacity c.fifo))
          (put e now now' c key value)
  put_new_key now now' key value h k =
      let parts =
        put_parts-new e c.lru.capacity c.expiration now now' key value (entries c.lru.nodes) c.fifo
          h k in
      Returns-map (put_follows e c v now key now' value)
        λ c' w. (w.cache_part ∙ ap (λ s. s.0) parts, w.queue_part ∙ ap (λ s. s.1) parts)

  -- Promotion: a Put of a queued key makes it the most recent entry of the cache, with the new value,
  -- and takes it out of the queue.
  pub put_promotes :
      (now now' : ℤ) (key : K) (value : V) (x : Entry K V)
      → find_entry e key c.fifo ≡ some x
      → Returns
          (λ c'.
            (find_entry e key (entries c'.lru.nodes)
              ≡ some
                  (record { key = key; value = value; expire_at = add64 x.expire_at c.expiration }))
            × (c'.fifo ≡ remove_entry e key c.fifo))
          (put e now now' c key value)
  put_promotes now now' key value x k =
      let h = v.apart key x k in
      let parts =
        put_parts-queued e c.lru.capacity c.expiration now now' key value (entries c.lru.nodes)
          c.fifo x h k in
      Returns-map (put_follows e c v now key now' value) λ c' w. (
        ap (find_entry e key) (w.cache_part ∙ ap (λ s. s.0) parts)
            ∙ put_entry-find e c.lru.capacity key value (add64 x.expire_at c.expiration)
                (entries c.lru.nodes),
        w.queue_part ∙ ap (λ s. s.1) parts,
      )

  -- A cache without expiration loses what is put at a key that its cache part holds: the renewal is
  -- stamped with the time of the Put, so a Get of the key that comes next, whenever it comes, finds it expired
  -- and replies with nothing.
  pub put_renewal_lost :
      (now : ℤ) (t : ℕ) (key : K) (value : V) {a : V}
      → c.expiration ≡ pos 0
      → 0 < t
      → t < two_pow_63
      → (get_entry e now key (entries c.lru.nodes)).0 ≡ some a
      → (later : ℕ) (now' now'' : ℤ) → t ≤ later
      → Returns
          (λ (reply, _). reply ≡ none)
          (put e now (pos t) c key value >>= λ c'. get e (pos later) now' now'' c' key)
  put_renewal_lost now t key value none_set positive small held later now' now'' after =
      Returns-bind (put_follows e c v now key (pos t) value) λ c' w.
        Returns-map (get_refines e c' w.valid (pos later) key now' now'') λ (reply, c'') (eq, _).
          let parts =
            put_parts-cached e c.lru.capacity c.expiration now (pos t) key value
              (entries c.lru.nodes) c.fifo held in
          let stamp : add64 (pos t) c.expiration ≡ pos t =
            ap (add64 (pos t)) none_set ∙ (add64_pos t 0 (omega arith) ∙ ap pos (omega arith)) in
          let found =
            ap (find_entry e key) (w.cache_part ∙ ap (λ s. s.0) parts)
            ∙ put_entry-find e c.lru.capacity key value (add64 (pos t) c.expiration)
                (get_entry e now key (entries c.lru.nodes)).1 in
          let missed =
            get_entry-reply e (pos later) key (entries c'.lru.nodes) _ found
            ∙ rw stamp (ground arith) in
          let unqueued =
            ap (find_entry e key) (w.queue_part ∙ ap (λ s. s.1) parts)
            ∙ hit-unqueued e c v now key held in
          eq
          ∙ get_parts-none e c'.lru.capacity c'.expiration (pos later) now' now'' key
              (entries c'.lru.nodes) c'.fifo missed unqueued

-- ===== src/Container/LruCache2q/Refinement.antt =====
-- The methods of LruCache2Q in common/container/lru_cache.go do to its two parts what they should, keep
-- both valid and apart, and follow no dangling pointer.
use mathlib.Core.Path.{subst}
use go_tools.Base.{
  ◌≡◌, ◌≤◌, refl, ◌∙◌, sym, List, ◌∷◌, some, none, length, arith, Bool-cases, Option-cases, inl,
  inr, Returns, returns, Returns-bind, Returns-map,
}
use go_tools.Base.Int.{ℤ, add64}
use go_tools.Base.Keys.{Eq, beq_refl}
use go_tools.Container.LruCache.{Entry, LruCache}
use go_tools.Container.LruCache
use go_tools.Container.LruCache.Entries.{
  find_entry, remove_entry, put_entry, get_entry, make_room, DistinctKeys,
}
use go_tools.Container.LruCache.Nodes.{entries}
use go_tools.Container.LruCache.Refinement.{Holds, put_correct, get_correct, remove_correct}
use go_tools.Container.LruCache.Lookup.{
  find_entry-remove_entry, make_room-absent, DistinctKeys-make_room, remove_entry-absent,
  remove_entry-same, DistinctKeys-remove_entry, get_entry-miss, DistinctKeys-entries,
}
use go_tools.Container.LruCache2q.{
  LruCache2q, IsValid2q, admit, put, get, remove, expire_from, is_dead,
}
use go_tools.Container.LruCache2q.Parts.{
  Consists, put_parts, put_stamped, get_parts, scan-none, scan-some, length-remove_entry-le,
  length-make_room, get_entry-none, Apart, Apart-get, Apart-put, Apart-remove, Apart-admit,
}

module _ {ℓ κ} {K : Type ℓ} {V : Type κ} (e : Eq K) (c : LruCache2q K V) (v : IsValid2q e c) where
  abbrev held : List (Entry K V)
  held = entries c.lru.nodes

  held-distinct : DistinctKeys e held
  held-distinct = DistinctKeys-entries e c.lru.nodes v.cached.nodes_distinct

  module _ (key : K) where
    -- Without the key the queue is still valid and apart from the cache.
    trimmed-facts :
        DistinctKeys e (remove_entry e key c.fifo)
        × (length (remove_entry e key c.fifo) ≤ c.lru.capacity)
        × Apart e (remove_entry e key c.fifo) held
        × (find_entry e key (remove_entry e key c.fifo) ≡ none)
    trimmed-facts = (
      DistinctKeys-remove_entry e key c.fifo v.queued,
      omega (arith, length-remove_entry-le e key c.fifo, v.bounded),
      Apart-remove e key c.fifo held v.apart,
      ground (arith, find_entry-remove_entry e key key c.fifo v.queued, beq_refl e key),
    )

    -- Remove takes the key out of both parts, which stay valid and apart.
    pub remove_refines :
        Consists e c.lru.capacity c.expiration
          (remove_entry e key held, remove_entry e key c.fifo)
          (remove e c key)
    unfolding remove
    remove_refines =
        let (w, same, size) = remove_correct e c.lru v.cached key in
        let (d, b, a, free) = trimmed-facts in
        let kept : Consists e c.lru.capacity c.expiration
            (remove_entry e key held, remove_entry e key c.fifo)
            (record c { lru = LruCache.remove e c.lru key; fifo = remove_entry e key c.fifo }) =
          record {
            valid = record {
              cached = w;
              queued = d;
              bounded = rw size b;
              apart = rw same (λ k x h. remove_entry-absent e key k held (a k x h));
            };
            cache_part = same;
            queue_part = refl;
            sized = size;
            lasting = refl;
          } in
        elim (Option-cases (find_entry e key c.fifo)) [
          | inr (x, queued) ↦ rw (scan-some e key c.fifo x queued, remove) kept
          | inl free ↦
              rw (scan-none e key c.fifo free, remove, remove_entry-same e key c.fifo free)
                (rw (remove_entry-same e key c.fifo free) at kept)
        ]

  module _ (now : ℤ) (key : K) where
    -- The entries of the cache after its own Get.
    abbrev after : List (Entry K V)
    after = (get_entry e now key held).1

    -- A Put into the cache part of a key that is not in the queue `q`, which is a part of the old one.
    put_cache :
        (lru : LruCache K V) (q : List (Entry K V)) (value : V) (t : ℤ)
        → Holds e c.lru.capacity after lru
        → DistinctKeys e q
        → length q ≤ c.lru.capacity
        → Apart e q held
        → find_entry e key q ≡ none
        → Returns
            (λ lru'.
              Consists e c.lru.capacity c.expiration
                (put_entry e c.lru.capacity key value t after, q)
                (record c { lru = lru'; fifo = q }))
            (LruCache.put e lru key value t)
    put_cache lru q value t (w, same, size) d b a free =
        Returns-map (put_correct e lru w key value t) λ lru' (w', same', size'). record {
          valid = record {
            cached = w';
            queued = d;
            bounded = rw (size', size) b;
            apart = λ k x h.
                rw (same', same, size)
                  (Apart-put e c.lru.capacity key value t q after free
                    (Apart-get e now key q held a) k x h);
          };
          cache_part = rw (same', same, size) refl;
          queue_part = refl;
          sized = size' ∙ size;
          lasting = refl;
        }

    -- The cache part after its own Get, beside a part of the old queue.
    keep_cache :
        (lru : LruCache K V) (q : List (Entry K V))
        → Holds e c.lru.capacity after lru
        → DistinctKeys e q
        → length q ≤ c.lru.capacity
        → Apart e q after
        → Consists e c.lru.capacity c.expiration (after, q) (record c { lru = lru; fifo = q })
    keep_cache lru q (w, same, size) d b a = record {
      valid = record { cached = w; queued = d; bounded = rw size b; apart = rw same a };
      cache_part = same;
      queue_part = refl;
      sized = size;
      lasting = refl;
    }

    -- A Get that finds a value finds a key that is not queued.
    pub hit-unqueued :
        {a : V} → (get_entry e now key held).0 ≡ some a → find_entry e key c.fifo ≡ none
    hit-unqueued hit = elim (Option-cases (find_entry e key c.fifo)) [
      | inl free ↦ free
      | inr (x, queued) ↦
          absurd (ground (arith, hit, get_entry-none e now key held (v.apart key x queued)))
    ]

    admit-Consists :
        (lru : LruCache K V) (value : V) (now' : ℤ)
        → Holds e c.lru.capacity after lru
        → (get_entry e now key held).0 ≡ none
        → find_entry e key c.fifo ≡ none
        → Consists e c.lru.capacity c.expiration
            (
              after,
              record { key = key; value = value; expire_at = expire_from c.expiration now' }
                  ∷ make_room c.lru.capacity c.fifo,
            )
            (admit e (record c { lru = lru }) key value now')
    unfolding admit
    admit-Consists lru value now' h miss free =
        let new : Entry K V = record {
          key = key;
          value = value;
          expire_at = expire_from c.expiration now';
        } in
        let room = length-make_room e c.lru.capacity c.fifo v.cached.positive v.bounded in
        let absent = get_entry-miss e now key held held-distinct miss in
        let distinct : DistinctKeys e (new ∷ make_room c.lru.capacity c.fifo) = (
          make_room-absent e c.lru.capacity key c.fifo free,
          DistinctKeys-make_room e c.lru.capacity c.fifo v.queued,
        ) in
        subst
          (λ n.
            Consists e c.lru.capacity c.expiration (after, new ∷ make_room c.lru.capacity c.fifo)
              (record c { lru = lru; fifo = new ∷ make_room n c.fifo }))
          (sym h.2)
          (keep_cache lru (new ∷ make_room c.lru.capacity c.fifo) h distinct (omega (arith, room)) (
            Apart-admit e c.lru.capacity new c.fifo after absent
              (Apart-get e now key c.fifo held v.apart)))

    -- Put returns, and does to the parts what `put_parts` says.
    pub put_follows :
        (now' : ℤ) (value : V)
        → Returns
            (Consists e c.lru.capacity c.expiration
              (put_parts e c.lru.capacity c.expiration now now' key value (held, c.fifo)))
            (put e now now' c key value)
    unfolding put put_stamped
    put_follows now' value =
        Returns-bind (get_correct e c.lru v.cached now key) λ (hit, lru) (eq, h).
          elim (Option-cases (get_entry e now key held).0) [
            | inr (a, found) ↦
                rw (eq, found, put_stamped)
                  (Returns-bind
                    (put_cache lru c.fifo value (add64 now' c.expiration) h v.queued v.bounded
                      v.apart (hit-unqueued found))
                    λ lru' w. returns w)
            | inl miss ↦ elim (Option-cases (find_entry e key c.fifo)) [
              | inr (x, queued) ↦
                  let (d, b, a, free) = trimmed-facts key in
                  rw (eq, miss, scan-some e key c.fifo x queued, queued, put_stamped)
                    (Returns-bind
                      (put_cache lru (remove_entry e key c.fifo) value
                        (add64 x.expire_at c.expiration) h d b a free)
                      λ lru' w. returns w)
              | inl free ↦
                  rw (eq, miss, scan-none e key c.fifo free, free, put_stamped)
                    (returns (admit-Consists lru value now' h miss free))
            ]
          ]

    -- Get returns. It replies from the cache, or with the live entry of the queue, which then moves to
    -- the cache; an expired entry is dropped from either. The parts stay valid and apart.
    pub get_refines :
        (now' now'' : ℤ)
        → Returns
            (λ (reply, c').
              (reply
                ≡ (get_parts e c.lru.capacity c.expiration now now' now'' key (held, c.fifo)).0)
              × Consists e c.lru.capacity c.expiration
                  (get_parts e c.lru.capacity c.expiration now now' now'' key (held, c.fifo)).1
                  c')
            (get e now now' now'' c key)
    unfolding get get_parts
    get_refines now' now'' =
        Returns-bind (get_correct e c.lru v.cached now key) λ (hit, lru) (eq, h).
          elim (Option-cases (get_entry e now key held).0) [
            | inr (a, found) ↦
                rw (eq, found, get_parts)
                  (returns (
                    refl,
                    keep_cache lru c.fifo h v.queued v.bounded
                        (Apart-get e now key c.fifo held v.apart),
                  ))
            | inl miss ↦ elim (Option-cases (find_entry e key c.fifo)) [
              | inr (x, queued) ↦
                  let (d, b, a, free) = trimmed-facts key in
                  rw (eq, miss, scan-some e key c.fifo x queued, queued, get_parts)
                    (elim (Bool-cases (is_dead now' x)) [
                      | inl dead ↦ rw dead (
                          returns (
                            refl,
                            keep_cache lru (remove_entry e key c.fifo) h d b
                                (Apart-get e now key _ held a),
                          ))
                      | inr live ↦ rw live (
                          Returns-bind
                            (put_cache lru (remove_entry e key c.fifo) x.value
                              (expire_from c.expiration now'') h d b a free)
                            λ lru' w. returns (refl, w))
                    ])
              | inl free ↦
                  rw (eq, miss, scan-none e key c.fifo free, free, get_parts)
                    (returns (
                      refl,
                      keep_cache lru c.fifo h v.queued v.bounded
                          (Apart-get e now key c.fifo held v.apart),
                    ))
            ]
          ]

-- ===== src/Container/LruCache/Refinement.antt =====
-- Each method of LruCache in common/container/lru_cache.go does to the entries what its contract says,
-- keeps the list and the map in step, and follows no dangling pointer.
use go_tools.Base.{
  ℕ, suc, ◌+◌, ◌≡◌, ◌<◌, refl, ap, ◌∙◌, sym, true, false, List, [], ◌∷◌, some, none, length, leb,
  if◌then◌else◌, arith, Bool-cases, inl, inr, Returns, returns, Option-cases,
}
use go_tools.Base.Int.{ℤ, pos, leb_ℤ, pos_part}
use go_tools.Base.Keys.{Eq, beq_refl}
use go_tools.Base.Maps
use go_tools.Container.LruCache.{
  Entry, Node, LruCache, find_node, remove_node, back, id_of, IsValid, put, put_old, put_new, evict,
  get, remove, new_lru_cache, default_capacity, is_live,
}
use go_tools.Container.LruCache.Entries.{find_entry, remove_entry, put_entry, get_entry, make_room}
use go_tools.Container.LruCache.Nodes.{
  entries, Located, locate, id_of-remove_node, find_node-remove_node, remove_node-DistinctNodes,
  moved, written, last_correct,
}

module _ {ℓ κ} {K : Type ℓ} {V : Type κ} (e : Eq K) where
  -- A valid cache of the given capacity that holds exactly the entries `l`, most recent first.
  abbrev pub Holds : ℕ → List (Entry K V) → LruCache K V → Type (ℓ ⊔ κ)
  Holds capacity l lru = IsValid e lru × (entries lru.nodes ≡ l) × (lru.capacity ≡ capacity)

  pub find_entry-id_of :
      (k : K) (l : List (Node K V)) → id_of e k l ≡ none → find_entry e k (entries l) ≡ none
  unfolding id_of find_entry
  find_entry-id_of k [] h = refl
  find_entry-id_of k (n ∷ l) h = ground (arith, find_entry-id_of k l)

  pub length-entries : (l : List (Node K V)) → length (entries l) ≡ length l
  length-entries [] = refl
  length-entries (n ∷ l) = ap suc (length-entries l)

  module _ (lru : LruCache K V) (v : IsValid e lru) (k : K) (i : ℕ) (n : Node K V)
      (at : Located e k i lru.nodes n) (g : id_of e k lru.nodes ≡ some i) where
    -- The element with a new entry for the same key, at the front.
    abbrev refreshed : Entry K V → LruCache K V
    refreshed x = record lru { nodes = record { id = i; entry = x } ∷ remove_node i lru.nodes }

    refreshed-IsValid : (x : Entry K V) → x.key ≡ k → IsValid e (refreshed x)
    unfolding id_of find_node
    refreshed-IsValid x same = record {
      agrees = λ q.
          ground (
            arith,
            v.agrees q,
            id_of-remove_node e k q i lru.nodes v.nodes_distinct,
            e.beq_iff k q,
          );
      nodes_distinct = (
        ground (arith, id_of-remove_node e k k i lru.nodes v.nodes_distinct, beq_refl e k),
        ground (arith, find_node-remove_node e i i lru.nodes v.nodes_distinct),
        remove_node-DistinctNodes e i lru.nodes v.nodes_distinct,
      );
      fresh = λ j h. ground (
        arith,
        v.fresh j,
        v.fresh i,
        at.found,
        find_node-remove_node e i j lru.nodes v.nodes_distinct,
      );
      keys_distinct = v.keys_distinct;
      same_size = omega (arith, v.same_size, at.shorter);
      positive = v.positive;
      bounded = omega (arith, v.bounded, at.shorter);
    }

    -- The element gone from the list and from the map.
    abbrev dropped : LruCache K V
    dropped = record lru {
      index_map = Maps.erase e k lru.index_map;
      nodes = remove_node i lru.nodes;
    }

    dropped-IsValid : IsValid e dropped
    dropped-IsValid = record {
      agrees = λ q. ground (
        arith,
        v.agrees q,
        id_of-remove_node e k q i lru.nodes v.nodes_distinct,
        Maps.lookup-erase e k q lru.index_map,
      );
      nodes_distinct = remove_node-DistinctNodes e i lru.nodes v.nodes_distinct;
      fresh =
          λ j h. ground (arith, v.fresh j, find_node-remove_node e i j lru.nodes v.nodes_distinct);
      keys_distinct = Maps.Distinct-erase e k lru.index_map v.keys_distinct;
      same_size = omega (
        arith,
        v.same_size,
        at.shorter,
        Maps.length-erase e k lru.index_map v.keys_distinct (ground (arith, v.agrees k)),
      );
      positive = v.positive;
      bounded = omega (arith, v.bounded, at.shorter);
    }

  -- A new element in front, for a key that is not there, where there is room for it.
  pushed-IsValid :
      (c : LruCache K V)
      → IsValid e c
      → (x : Entry K V) → Maps.lookup e x.key c.index_map ≡ none
      → length c.nodes < c.capacity
      → IsValid e (record c {
        nodes = record { id = c.next_id; entry = x } ∷ c.nodes;
        index_map = Maps.insert e x.key c.next_id c.index_map;
        next_id = c.next_id + 1;
      })
  unfolding id_of find_node
  pushed-IsValid c w x gone room = record {
    agrees = λ q. ground (arith, w.agrees q, Maps.lookup-insert e x.key q c.next_id c.index_map);
    nodes_distinct =
        (sym (w.agrees x.key) ∙ gone, w.fresh c.next_id (omega arith), w.nodes_distinct);
    fresh = λ j h. ground (arith, w.fresh j);
    keys_distinct = Maps.Distinct-insert e x.key c.next_id c.index_map w.keys_distinct;
    same_size = ground (arith, w.same_size, Maps.length-insert e x.key c.next_id c.index_map);
    positive = w.positive;
    bounded = omega arith;
  }

  module _ (lru : LruCache K V) (v : IsValid e lru) where
    -- A full cache gives up its last entry, any other cache none: there is room for one more.
    evict_correct :
        IsValid e (evict e lru)
        × (entries (evict e lru).nodes ≡ make_room lru.capacity (entries lru.nodes))
        × ((evict e lru).capacity ≡ lru.capacity)
        × (length (evict e lru).nodes < lru.capacity)
    unfolding evict
    evict_correct = elim (Bool-cases (leb lru.capacity (length lru.index_map))) [
      | inl full ↦
          let busy : leb lru.capacity (length (entries lru.nodes)) ≡ true =
            ground (arith, v.same_size, length-entries lru.nodes) in
          let (n, last, g, rest) =
            last_correct e lru.nodes (ground (arith, v.same_size, v.positive)) v.nodes_distinct in
          let (_, at) = locate e n.entry.key n.id lru.nodes v.nodes_distinct g in
          rw (full, busy, last)
            (
              dropped-IsValid lru v n.entry.key n.id _ at g,
              rest,
              refl,
              omega (arith, at.shorter, v.bounded),
            )
      | inr room ↦
          let free : leb lru.capacity (length (entries lru.nodes)) ≡ false =
            ground (arith, v.same_size, length-entries lru.nodes) in
          rw (room, free) (v, refl, refl, ground (arith, v.same_size))
    ]

    -- Eviction brings no key back.
    evict-absent :
        (k : K)
        → Maps.lookup e k lru.index_map ≡ none
        → Maps.lookup e k (evict e lru).index_map ≡ none
    unfolding evict
    evict-absent k h = elim (Option-cases (back lru.nodes)) [
      | inl nil ↦ ground arith
      | inr (n, last) ↦ ground (arith, Maps.lookup-erase e n.entry.key k lru.index_map)
    ]

    put_new_correct :
        (k : K) (val : V) (expire_at : ℤ)
        → Maps.lookup e k lru.index_map ≡ none
        → Holds lru.capacity
            (put_entry e lru.capacity k val expire_at (entries lru.nodes))
            (put_new e lru k val expire_at)
    unfolding put_new put_entry
    put_new_correct k val expire_at h =
        let absent = find_entry-id_of k lru.nodes (sym (v.agrees k) ∙ h) in
        let (w, kept, same, room) = evict_correct in
        let x : Entry K V = record { key = k; value = val; expire_at = expire_at } in
        let gone : Maps.lookup e k (evict e lru).index_map ≡ none = evict-absent k h in
        rw (absent, put_entry)
          (pushed-IsValid (evict e lru) w x gone (omega (arith, room, same)), ap (◌∷◌ x) kept, same)

    put_old_correct :
        (k : K) (val : V) (expire_at : ℤ) (i : ℕ)
        → Maps.lookup e k lru.index_map ≡ some i
        → Returns
            (Holds lru.capacity (put_entry e lru.capacity k val expire_at (entries lru.nodes)))
            (put_old e lru i val expire_at)
    unfolding put_old put_entry
    put_old_correct k val expire_at i h =
        let g = sym (v.agrees k) ∙ h in
        let (n, at) = locate e k i lru.nodes v.nodes_distinct g in
        let x : Entry K V = record { key = k; value = val; expire_at = expire_at } in
        let same : record n.entry { value = val; expire_at = expire_at } ≡ x =
          ground (arith, at.keyed) in
        let rest = written e lru.nodes at (λ y. record y { value = val; expire_at = expire_at }) in
        rw (at.found, rest, at.seen, put_entry, same)
          (returns (refreshed-IsValid lru v k i n at g x refl, ap (◌∷◌ x) at.removed, refl))

    -- Put at a key that is there renews its entry and makes it the most recent; at a new key it adds
    -- an entry in front, and a full cache gives up its least recent entry.
    pub put_correct :
        (k : K) (val : V) (expire_at : ℤ)
        → Returns
            (Holds lru.capacity (put_entry e lru.capacity k val expire_at (entries lru.nodes)))
            (put e lru k val expire_at)
    unfolding put
    put_correct k val expire_at = elim (Option-cases (Maps.lookup e k lru.index_map)) [
      | inl h ↦ rw (h, put) (returns (put_new_correct k val expire_at h))
      | inr (i, h) ↦ rw (h, put) (put_old_correct k val expire_at i h)
    ]

    -- Get gives the value of a live entry and makes it the most recent, and drops an expired one.
    pub get_correct :
        (now : ℤ) (k : K)
        → Returns
            (λ (reply, lru').
              (reply ≡ (get_entry e now k (entries lru.nodes)).0)
              × Holds lru.capacity (get_entry e now k (entries lru.nodes)).1 lru')
            (get e now lru k)
    unfolding get get_entry
    get_correct now k = elim (Option-cases (Maps.lookup e k lru.index_map)) [
      | inl h ↦
          rw (h, get, find_entry-id_of k lru.nodes (sym (v.agrees k) ∙ h), get_entry)
            (returns (refl, (v, refl, refl)))
      | inr (i, h) ↦
          let g = sym (v.agrees k) ∙ h in
          let (n, at) = locate e k i lru.nodes v.nodes_distinct g in
          rw (h, get, at.found, at.seen, get_entry)
            (elim (Bool-cases (is_live now n.entry)) [
              | inl live ↦
                  rw (live, moved e lru.nodes at)
                    (returns (
                      refl,
                      (
                        refreshed-IsValid lru v k i n at g n.entry at.keyed,
                        ap (◌∷◌ n.entry) at.removed,
                        refl,
                      ),
                    ))
              | inr dead ↦
                  rw (dead) (returns (refl, (dropped-IsValid lru v k i n at g, at.removed, refl)))
            ])
    ]

    remove_absent :
        (k : K) (l : List (Entry K V)) → find_entry e k l ≡ none → remove_entry e k l ≡ l
    unfolding find_entry remove_entry
    remove_absent k [] h = refl
    remove_absent k (x ∷ l) h = ground (arith, remove_absent k l)

    -- Remove takes away the entry of the key, if there is one.
    pub remove_correct :
        (k : K) → Holds lru.capacity (remove_entry e k (entries lru.nodes)) (remove e lru k)
    unfolding remove
    remove_correct k = elim (Option-cases (Maps.lookup e k lru.index_map)) [
      | inl h ↦
          rw (h, remove)
            (
              v,
              sym (
                  remove_absent k (entries lru.nodes)
                    (find_entry-id_of k lru.nodes (sym (v.agrees k) ∙ h))),
              refl,
            )
      | inr (i, h) ↦
          let g = sym (v.agrees k) ∙ h in
          let (n, at) = locate e k i lru.nodes v.nodes_distinct g in
          rw (h, remove) (dropped-IsValid lru v k i n at g, at.removed, refl)
    ]

  -- A new cache is valid and empty, with the default capacity for a capacity that is not positive.
  pub new_lru_cache-Holds :
      (capacity : ℤ)
      → Holds
          (if leb_ℤ capacity (pos 0) then default_capacity else pos_part capacity)
          []
          (new_lru_cache capacity)
  unfolding new_lru_cache find_node id_of Maps.lookup
  new_lru_cache-Holds capacity = (
    record {
      agrees = λ k. refl;
      nodes_distinct = tt;
      fresh = λ i h. refl;
      keys_distinct = tt;
      same_size = refl;
      positive = ground arith;
      bounded = omega arith;
    },
    refl,
    refl,
  )

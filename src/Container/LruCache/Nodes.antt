-- ===== src/Container/LruCache/Nodes.antt =====
-- The list operations of common/container/lru_cache.go by pointer, read as operations by key.
use go_tools.Base.{
  ℕ, ◌+◌, ◌≡◌, ◌<◌, refl, ◌≢◌, false, List, [], ◌∷◌, some, none, length, ◌==◌, if◌then◌else◌, arith,
  map, Bool-cases, inl, inr,
}
use go_tools.Base.Keys.{Eq, beq_refl}
use go_tools.Container.LruCache.{
  Entry, Node, find_node, remove_node, move_to_front, update_node, back, id_of, DistinctNodes,
}
use go_tools.Container.LruCache.Entries.{find_entry, remove_entry, drop_last}

-- The entries of the elements.
abbrev pub entries {ℓ κ} : {K : Type ℓ} {V : Type κ} → List (Node K V) → List (Entry K V)
entries = map (λ n. n.entry)

module _ {ℓ κ} {K : Type ℓ} {V : Type κ} (e : Eq K) where
  -- `n` is the element with the pointer `i` and the key `k`.
  pub record Located (k : K) (i : ℕ) (l : List (Node K V)) (n : Node K V) : Type (ℓ ⊔ κ) where
    pub found : find_node i l ≡ some n
    pub here : n.id ≡ i
    pub keyed : n.entry.key ≡ k
    pub seen : find_entry e k (entries l) ≡ some n.entry
    pub removed : entries (remove_node i l) ≡ remove_entry e k (entries l)
    pub shorter : length (remove_node i l) + 1 ≡ length l

  id_ne :
      (i : ℕ) (k : K) (m : Node K V) (l : List (Node K V))
      → find_node m.id l ≡ none
      → id_of e k l ≡ some i
      → m.id ≢ i
  unfolding find_node id_of
  id_ne i k m [] h g = cc
  id_ne i k m (n ∷ l) h g = λ same. ground (arith, id_ne i k m l)

  pub locate :
      (k : K) (i : ℕ) (l : List (Node K V))
      → DistinctNodes e l
      → id_of e k l ≡ some i
      → (n : Node K V) × Located k i l n
  unfolding find_node remove_node id_of find_entry remove_entry
  locate k i [] d h = cc
  locate k i (m ∷ l) d h = elim (Bool-cases (e.beq m.entry.key k)) [
    | inl b ↦ (
      m,
      record {
        found = ground arith;
        here = ground arith;
        keyed = (e.beq_iff m.entry.key k).0 b;
        seen = ground arith;
        removed = ground arith;
        shorter = ground arith;
      },
    )
    | inr b ↦
        let g : id_of e k l ≡ some i = ground arith in
        let (n, at) = locate k i l d.2 g in
        let other = id_ne i k m l d.1 g in
        (
          n,
          record {
            found = ground (arith, at.found);
            here = at.here;
            keyed = at.keyed;
            seen = ground (arith, at.seen);
            removed = ground (arith, at.removed);
            shorter = ground (arith, at.shorter);
          },
        )
  ]

  pub id_of-remove_node :
      (k q : K) (i : ℕ) (l : List (Node K V))
      → DistinctNodes e l
      → id_of e k l ≡ some i
      → id_of e q (remove_node i l) ≡ (if e.beq k q then none else id_of e q l)
  unfolding find_node remove_node id_of
  id_of-remove_node k q i [] d h = cc
  id_of-remove_node k q i (m ∷ l) d h = ground (
    arith,
    e.beq_iff m.entry.key k,
    e.beq_iff m.entry.key q,
    e.beq_iff k q,
    id_ne i k m l d.1,
    id_of-remove_node k q i l d.2,
  )

  pub find_node-remove_node :
      (i j : ℕ) (l : List (Node K V))
      → DistinctNodes e l
      → find_node j (remove_node i l) ≡ (if i == j then none else find_node j l)
  unfolding find_node remove_node id_of
  find_node-remove_node i j [] d = ground arith
  find_node-remove_node i j (m ∷ l) d = ground (arith, find_node-remove_node i j l d.2)

  remove_node-absent-key :
      (k : K) (i : ℕ) (l : List (Node K V))
      → id_of e k l ≡ none
      → id_of e k (remove_node i l) ≡ none
  unfolding remove_node id_of
  remove_node-absent-key k i [] h = h
  remove_node-absent-key k i (m ∷ l) h = ground (arith, remove_node-absent-key k i l)

  pub remove_node-DistinctNodes :
      (i : ℕ) (l : List (Node K V)) → DistinctNodes e l → DistinctNodes e (remove_node i l)
  unfolding remove_node
  remove_node-DistinctNodes i [] d = d
  remove_node-DistinctNodes i (m ∷ l) d = elim (Bool-cases (m.id == i)) [
    | inl b ↦ rw b d.2
    | inr b ↦ rw b (
      remove_node-absent-key m.entry.key i l d.0,
      ground (arith, find_node-remove_node i m.id l d.2),
      remove_node-DistinctNodes i l d.2,
    )
  ]

  -- A write to the entry of an element shows there, and nowhere else.
  pub find_node-update_node :
      (i : ℕ) (f : Entry K V → Entry K V) (l : List (Node K V)) (n : Node K V)
      → find_node i l ≡ some n
      → (find_node i (update_node i f l) ≡ some (record n { entry = f n.entry }))
        × (remove_node i (update_node i f l) ≡ remove_node i l)
  unfolding find_node update_node remove_node
  find_node-update_node i f [] n h = cc
  find_node-update_node i f (m ∷ l) n h = elim (Bool-cases (m.id == i)) [
    | inl b ↦ ground arith
    | inr b ↦
        let g : find_node i l ≡ some n = ground arith in
        let (found, rest) = find_node-update_node i f l n g in
        (ground (arith, found), ground (arith, rest))
  ]

  -- The last element, and the list without it.
  pub back_correct :
      (m : Node K V) (l : List (Node K V))
      → DistinctNodes e (m ∷ l)
      → (n : Node K V) × (back (m ∷ l) ≡ some n)
        × (id_of e n.entry.key (m ∷ l) ≡ some n.id)
        × (entries (remove_node n.id (m ∷ l)) ≡ drop_last (entries (m ∷ l)))
  unfolding back id_of find_node remove_node drop_last
  back_correct m [] d = (m, refl, ground (arith, beq_refl e m.entry.key), ground arith)
  back_correct m (o ∷ l) d =
      let (n, last, at, rest) = back_correct o l d.2 in
      let key_ne : e.beq m.entry.key n.entry.key ≡ false =
        ground (arith, d.0, at, e.beq_iff m.entry.key n.entry.key) in
      let id_differs = id_ne n.id n.entry.key m (o ∷ l) d.1 at in
      (n, last, ground (arith, at), ground (arith, rest))

  module _ {k : K} {i : ℕ} (l : List (Node K V)) {n : Node K V} (at : Located k i l n) where
    pub moved : move_to_front i l ≡ record { id = i; entry = n.entry } ∷ remove_node i l
    unfolding move_to_front
    moved = ground (arith, at.found, at.here)

    pub written :
        (f : Entry K V → Entry K V)
        → move_to_front i (update_node i f l)
          ≡ record { id = i; entry = f n.entry } ∷ remove_node i l
    unfolding move_to_front
    written f =
        let (found, rest) = find_node-update_node i f l n at.found in
        ground (arith, found, rest, at.here)

  pub last_correct :
      (l : List (Node K V))
      → 0 < length l
      → DistinctNodes e l
      → (n : Node K V) × (back l ≡ some n)
        × (id_of e n.entry.key l ≡ some n.id)
        × (entries (remove_node n.id l) ≡ drop_last (entries l))
  last_correct [] h d = absurd (omega arith)
  last_correct (m ∷ l) h d = back_correct m l d

-- ===== src/Container/LruCache/Lookup.antt =====
-- Which keys the entries of LruCache in common/container/lru_cache.go hold after a change.
use go_tools.Base.{
  ℕ, ◌≡◌, refl, false, List, [], ◌∷◌, some, none, leb, length, if◌then◌else◌, arith, Bool-cases,
  Option-cases, inl, inr,
}
use go_tools.Base.Int.{ℤ}
use go_tools.Base.Keys.{Eq, beq_refl}
use go_tools.Container.LruCache.{Entry, Node, DistinctNodes}
use go_tools.Container.LruCache.Entries.{
  find_entry, remove_entry, put_entry, get_entry, make_room, drop_last, DistinctKeys,
}
use go_tools.Container.LruCache.Nodes.{entries}
use go_tools.Container.LruCache.Refinement.{find_entry-id_of}

module _ {ℓ κ} {K : Type ℓ} {V : Type κ} (e : Eq K) where
  pub find_entry-remove_entry :
      (k q : K) (l : List (Entry K V))
      → DistinctKeys e l
      → find_entry e q (remove_entry e k l) ≡ (if e.beq k q then none else find_entry e q l)
  unfolding find_entry remove_entry
  find_entry-remove_entry k q [] d = ground arith
  find_entry-remove_entry k q (x ∷ l) d = ground (
    arith,
    e.beq_iff x.key k,
    e.beq_iff x.key q,
    e.beq_iff k q,
    find_entry-remove_entry k q l d.1,
  )

  pub remove_entry-absent :
      (k q : K) (l : List (Entry K V))
      → find_entry e q l ≡ none
      → find_entry e q (remove_entry e k l) ≡ none
  unfolding find_entry remove_entry
  remove_entry-absent k q [] h = h
  remove_entry-absent k q (x ∷ l) h = ground (arith, remove_entry-absent k q l)

  pub drop_last-absent :
      (q : K) (l : List (Entry K V)) → find_entry e q l ≡ none → find_entry e q (drop_last l) ≡ none
  unfolding find_entry drop_last
  drop_last-absent q [] h = h
  drop_last-absent q (x ∷ []) h = refl
  drop_last-absent q (x ∷ y ∷ l) h = ground (arith, drop_last-absent q (y ∷ l))

  pub DistinctKeys-remove_entry :
      (k : K) (l : List (Entry K V)) → DistinctKeys e l → DistinctKeys e (remove_entry e k l)
  unfolding remove_entry
  DistinctKeys-remove_entry k [] d = d
  DistinctKeys-remove_entry k (x ∷ l) d = elim (Bool-cases (e.beq x.key k)) [
    | inl b ↦ rw b d.1
    | inr b ↦ rw b (remove_entry-absent k x.key l d.0, DistinctKeys-remove_entry k l d.1)
  ]

  pub DistinctKeys-drop_last :
      (l : List (Entry K V)) → DistinctKeys e l → DistinctKeys e (drop_last l)
  unfolding drop_last
  DistinctKeys-drop_last [] d = d
  DistinctKeys-drop_last (x ∷ []) d = tt
  DistinctKeys-drop_last (x ∷ y ∷ l) d =
      (drop_last-absent x.key (y ∷ l) d.0, DistinctKeys-drop_last (y ∷ l) d.1)

  pub find_entry-key :
      (k : K) (l : List (Entry K V)) {x : Entry K V} → find_entry e k l ≡ some x → x.key ≡ k
  unfolding find_entry
  find_entry-key k [] h = cc
  find_entry-key k (y ∷ l) {x} h = ground (arith, e.beq_iff y.key k, find_entry-key k l {x = x})

  -- A Put brings in no key but its own.
  pub put_entry-absent :
      (capacity : ℕ) (k q : K) (val : V) (expire_at : ℤ) (l : List (Entry K V))
      → e.beq k q ≡ false
      → find_entry e q l ≡ none
      → find_entry e q (put_entry e capacity k val expire_at l) ≡ none
  unfolding put_entry
  put_entry-absent capacity k q val expire_at l b h =
      ground (arith, remove_entry-absent k q l, drop_last-absent q l)

  -- A Get that has nothing to reply leaves nothing at its key.
  pub get_entry-miss :
      (now : ℤ) (k : K) (l : List (Entry K V))
      → DistinctKeys e l
      → (get_entry e now k l).0 ≡ none
      → find_entry e k (get_entry e now k l).1 ≡ none
  unfolding get_entry
  get_entry-miss now k l d h = ground (arith, find_entry-remove_entry k k l d, beq_refl e k)

  pub get_entry-absent :
      (now : ℤ) (k q : K) (l : List (Entry K V))
      → find_entry e q l ≡ none
      → find_entry e q (get_entry e now k l).1 ≡ none
  unfolding get_entry find_entry
  get_entry-absent now k q l h = elim (Option-cases (find_entry e k l)) [
    | inl miss ↦ rw (miss, get_entry) h
    | inr (x, hit) ↦
        rw (hit, get_entry)
          (ground (arith, find_entry-key k l hit, e.beq_iff x.key q, remove_entry-absent k q l))
  ]

  pub DistinctKeys-entries : (l : List (Node K V)) → DistinctNodes e l → DistinctKeys e (entries l)
  DistinctKeys-entries [] d = tt
  DistinctKeys-entries (n ∷ l) d =
      (find_entry-id_of e n.entry.key l d.0, DistinctKeys-entries l d.2)

  pub make_room-absent :
      (n : ℕ) (q : K) (l : List (Entry K V))
      → find_entry e q l ≡ none
      → find_entry e q (make_room n l) ≡ none
  make_room-absent n q l h = ground (arith, drop_last-absent q l)

  pub DistinctKeys-make_room :
      (n : ℕ) (l : List (Entry K V)) → DistinctKeys e l → DistinctKeys e (make_room n l)
  DistinctKeys-make_room n l d = elim (Bool-cases (leb n (length l))) [
    | inl b ↦ rw b (DistinctKeys-drop_last l d)
    | inr b ↦ rw b d
  ]

  pub remove_entry-same :
      (k : K) (l : List (Entry K V)) → find_entry e k l ≡ none → remove_entry e k l ≡ l
  unfolding find_entry remove_entry
  remove_entry-same k [] h = refl
  remove_entry-same k (x ∷ l) h = ground (arith, remove_entry-same k l)

  pub get_entry-unheld :
      (now : ℤ) (k : K) (l : List (Entry K V))
      → find_entry e k l ≡ none
      → get_entry e now k l ≡ (none, l)
  unfolding get_entry
  get_entry-unheld now k l h = rw (h, get_entry)

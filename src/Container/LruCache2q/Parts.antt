-- ===== src/Container/LruCache2q/Parts.antt =====
-- What the methods of LruCache2Q in common/container/lru_cache.go do to the entries of its two parts.
use go_tools.Base.{
  ℕ, ◌+◌, ◌≡◌, ◌≤◌, refl, List, [], ◌∷◌, Option, some, none, length, if◌then◌else◌, arith,
  Option-cases, inl, inr,
}
use go_tools.Base.Int.{ℤ, add64}
use go_tools.Base.Keys.{Eq}
use go_tools.Container.LruCache.{Entry}
use go_tools.Container.LruCache.Entries.{
  find_entry, remove_entry, put_entry, get_entry, make_room, drop_last, length-drop_last,
}
use go_tools.Container.LruCache.Nodes.{entries}
use go_tools.Container.LruCache.Lookup.{
  remove_entry-absent, drop_last-absent, put_entry-absent, get_entry-absent,
}
use go_tools.Container.LruCache2q.{LruCache2q, IsValid2q, scan, expire_from, is_dead}

-- The entries of the cache and of the queue.
abbrev pub TwoParts {ℓ κ} : Type ℓ → Type κ → Type (ℓ ⊔ κ)
TwoParts K V = List (Entry K V) × List (Entry K V)

module _ {ℓ κ} {K : Type ℓ} {V : Type κ} (e : Eq K) where
  pub scan-none : (k : K) (l : List (Entry K V)) → find_entry e k l ≡ none → scan e k l ≡ none
  unfolding scan find_entry
  scan-none k [] h = refl
  scan-none k (x ∷ l) h = ground (arith, scan-none k l)

  pub scan-some :
      (k : K) (l : List (Entry K V)) (x : Entry K V)
      → find_entry e k l ≡ some x
      → scan e k l ≡ some (x, remove_entry e k l)
  unfolding scan find_entry remove_entry
  scan-some k [] x h = cc
  scan-some k (y ∷ l) x h = ground (arith, scan-some k l x)

  -- A valid cache that consists of these entries, with the capacity and the expiration given.
  pub record Consists (capacity : ℕ) (expiration : ℤ) (s : TwoParts K V) (c : LruCache2q K V)
      : Type (ℓ ⊔ κ) where
    pub valid : IsValid2q e c
    pub cache_part : entries c.lru.nodes ≡ s.0
    pub queue_part : c.fifo ≡ s.1
    pub sized : c.lru.capacity ≡ capacity
    pub lasting : c.expiration ≡ expiration

  -- A Put, with the stamp that a renewal gives.
  unfoldable pub put_stamped : ℤ → ℕ → ℤ → ℤ → ℤ → K → V → TwoParts K V → TwoParts K V
  put_stamped stamp capacity expiration now now' key value (l, q) =
      let (hit, l') = get_entry e now key l in
      elim hit [
        | some _ ↦ (put_entry e capacity key value stamp l', q)
        | none ↦ elim (find_entry e key q) [
          | some x ↦ (
            put_entry e capacity key value (add64 x.expire_at expiration) l',
            remove_entry e key q,
          )
          | none ↦ (
            l',
            record { key = key; value = value; expire_at = expire_from expiration now' }
                ∷ make_room capacity q,
          )
        ]
      ]

  -- Put as the code has it, which stamps a renewal with the sum even where there is no expiration.
  abbrev pub put_parts : ℕ → ℤ → ℤ → ℤ → K → V → TwoParts K V → TwoParts K V
  put_parts capacity expiration now now' =
      put_stamped (add64 now' expiration) capacity expiration now now'

  -- Put as it should be: what it renews lasts as long as what it queues.
  abbrev pub put_spec : ℕ → ℤ → ℤ → ℤ → K → V → TwoParts K V → TwoParts K V
  put_spec capacity expiration now now' =
      put_stamped (expire_from expiration now') capacity expiration now now'

  unfoldable pub get_parts : ℕ → ℤ → ℤ → ℤ → ℤ → K → TwoParts K V → Option V × TwoParts K V
  get_parts capacity expiration now now' now'' key (l, q) =
      let (hit, l') = get_entry e now key l in
      elim hit [
        | some value ↦ (some value, (l', q))
        | none ↦ elim (find_entry e key q) [
          | none ↦ (none, (l', q))
          | some x ↦ if is_dead now' x then (none, (l', remove_entry e key q)) else (
            some x.value,
            (
              put_entry e capacity key x.value (expire_from expiration now'') l',
              remove_entry e key q,
            ),
          )
        ]
      ]

  pub length-remove_entry-le :
      (k : K) (l : List (Entry K V)) → length (remove_entry e k l) ≤ length l
  unfolding remove_entry
  length-remove_entry-le k [] = omega arith
  length-remove_entry-le k (x ∷ l) = ground (arith, length-remove_entry-le k l)

  pub length-make_room :
      (n : ℕ) (q : List (Entry K V)) → 1 ≤ n → length q ≤ n → length (make_room n q) + 1 ≤ n
  unfolding drop_last
  length-make_room n [] p h = ground arith
  length-make_room n (x ∷ q) p h = ground (arith, length-drop_last x q)

  -- No key of the queue `q` is among the entries `l`.
  abbrev pub Apart : List (Entry K V) → List (Entry K V) → Type (ℓ ⊔ κ)
  Apart q l = (k : K) (x : Entry K V) → find_entry e k q ≡ some x → find_entry e k l ≡ none

  pub get_entry-none :
      (now : ℤ) (k : K) (l : List (Entry K V))
      → find_entry e k l ≡ none
      → (get_entry e now k l).0 ≡ none
  unfolding get_entry
  get_entry-none now k l h = rw (h, get_entry)

  pub Apart-get :
      (now : ℤ) (key : K) (q l : List (Entry K V)) → Apart q l → Apart q (get_entry e now key l).1
  Apart-get now key q l a k x h = get_entry-absent e now key k l (a k x h)

  -- A Put of a key that is not queued.
  pub Apart-put :
      (n : ℕ) (key : K) (val : V) (t : ℤ) (q l : List (Entry K V))
      → find_entry e key q ≡ none
      → Apart q l
      → Apart q (put_entry e n key val t l)
  Apart-put n key val t q l free a k x h =
      put_entry-absent e n key k val t l (ground (arith, e.beq_iff key k, free, h)) (a k x h)

  pub Apart-remove : (key : K) (q l : List (Entry K V)) → Apart q l → Apart (remove_entry e key q) l
  Apart-remove key q l a k x h = elim (Option-cases (find_entry e k q)) [
    | inl gone ↦ absurd (ground (arith, remove_entry-absent e key k q gone))
    | inr (y, held) ↦ a k y held
  ]

  pub Apart-admit :
      (n : ℕ) (new : Entry K V) (q l : List (Entry K V))
      → find_entry e new.key l ≡ none
      → Apart q l
      → Apart (new ∷ make_room n q) l
  unfolding find_entry
  Apart-admit n new q l free a k x h = elim (Option-cases (find_entry e k q)) [
    | inl gone ↦ ground (arith, e.beq_iff new.key k, drop_last-absent e k q gone)
    | inr (y, held) ↦ a k y held
  ]

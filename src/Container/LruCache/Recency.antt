-- ===== src/Container/LruCache/Recency.antt =====
-- What LruCache of common/container/lru_cache.go keeps: the keys that were used last, and every value
-- until its key is evicted, removed, renewed or expires.
use go_tools.Base.{
  ℕ, zero, suc, ◌+◌, ◌≡◌, ◌≤◌, ◌<◌, ap, ◌∙◌, Bool, true, false, ◌||◌, List, [], ◌∷◌, some, none,
  length, if◌then◌else◌, arith, Bool-cases, inl, inr, Run, ok, ◌>>=◌, Returns, returns,
  Returns-bind, Returns-map,
}
use go_tools.Base.Int.{ℤ}
use go_tools.Base.Keys.{Eq, beq_refl}
use go_tools.Container.LruCache.{Entry, LruCache, IsValid, put, get, is_live}
use go_tools.Container.LruCache.Entries.{find_entry, remove_entry, put_entry, get_entry, drop_last}
use go_tools.Container.LruCache.Nodes.{entries}
use go_tools.Container.LruCache.Refinement.{put_correct, get_correct}

module _ {ℓ κ} {K : Type ℓ} {V : Type κ} (e : Eq K) where
  -- `k` is among the first `p` keys.
  abbrev pub is_recent : ℕ → K → List (Entry K V) → Bool
  is_recent zero k l = false
  is_recent (suc p) k [] = false
  is_recent (suc p) k (x ∷ l) = e.beq x.key k || is_recent p k l

  recent_step :
      (p : ℕ) (k : K) (x : Entry K V) (l : List (Entry K V))
      → is_recent p k (x ∷ l) ≡ true
      → is_recent (suc p) k (x ∷ l) ≡ true
  recent_step zero k x l h = cc
  recent_step (suc zero) k x [] h = ground arith
  recent_step (suc zero) k x (y ∷ l) h = ground arith
  recent_step (suc (suc p)) k x [] h = h
  recent_step (suc (suc p)) k x (y ∷ l) h = ground (arith, recent_step (suc p) k y l)

  recent_mono :
      (p : ℕ) (k : K) (l : List (Entry K V)) → is_recent p k l ≡ true → is_recent (suc p) k l ≡ true
  recent_mono zero k [] h = h
  recent_mono (suc p) k [] h = h
  recent_mono p k (x ∷ l) h = recent_step p k x l h

  recent-remove_entry :
      (p : ℕ) (k j : K) (l : List (Entry K V))
      → e.beq j k ≡ false
      → is_recent p k l ≡ true
      → is_recent p k (remove_entry e j l) ≡ true
  unfolding remove_entry
  recent-remove_entry zero k j l h r = cc
  recent-remove_entry (suc p) k j [] h r = r
  recent-remove_entry (suc p) k j (x ∷ l) h r = ground (
    arith,
    e.beq_iff x.key j,
    e.beq_iff x.key k,
    e.beq_iff j k,
    recent_mono p k l,
    recent-remove_entry p k j l,
  )

  recent-drop_last :
      (p : ℕ) (k : K) (l : List (Entry K V))
      → p < length l
      → is_recent p k l ≡ true
      → is_recent p k (drop_last l) ≡ true
  unfolding drop_last
  recent-drop_last zero k l h r = r
  recent-drop_last (suc p) k [] h r = r
  recent-drop_last (suc p) k (x ∷ []) h r = absurd (omega arith)
  recent-drop_last (suc p) k (x ∷ y ∷ l) h r = ground (arith, recent-drop_last p k (y ∷ l))

  -- A Put of any key moves the others back by one place at most.
  recent-put_entry :
      (p capacity : ℕ) (k j : K) (val : V) (expire_at : ℤ) (l : List (Entry K V))
      → p < capacity
      → is_recent p k l ≡ true
      → is_recent (suc p) k (put_entry e capacity j val expire_at l) ≡ true
  unfolding put_entry
  recent-put_entry p capacity k j val expire_at l h r =
      ground (arith, e.beq_iff j k, recent-remove_entry p k j l, recent-drop_last p k l)

  recent-found :
      (p : ℕ) (k : K) (l : List (Entry K V))
      → is_recent p k l ≡ true
      → (x : Entry K V) × (find_entry e k l ≡ some x)
  unfolding find_entry
  recent-found zero k l h = absurd (cc)
  recent-found (suc p) k [] h = absurd (cc)
  recent-found (suc p) k (x ∷ l) h = elim (Bool-cases (e.beq x.key k)) [
    | inl b ↦ (x, ground arith)
    | inr b ↦ let (y, found) = recent-found p k l (ground arith) in (y, ground (arith, found))
  ]

  -- A series of Puts.
  unfoldable pub put_all : LruCache K V → List (K × V × ℤ) → Run (LruCache K V)
  put_all lru [] = ok lru
  put_all lru ((k, val, expire_at) ∷ more) = do lru' ← put e lru k val expire_at; put_all lru' more

  put_all_recent :
      (more : List (K × V × ℤ)) (p : ℕ) (k : K) (lru : LruCache K V)
      → IsValid e lru
      → p + length more ≤ lru.capacity
      → is_recent p k (entries lru.nodes) ≡ true
      → Returns
          (λ c. (x : Entry K V) × (find_entry e k (entries c.nodes) ≡ some x))
          (put_all lru more)
  unfolding put_all
  put_all_recent [] p k lru v h r = returns (recent-found p k (entries lru.nodes) r)
  put_all_recent ((j, val, expire_at) ∷ more) p k lru v h r =
      Returns-bind (put_correct e lru v j val expire_at) λ c (w, same, size).
        put_all_recent more (suc p) k c w (omega (arith, size)) (
          rw same
            (recent-put_entry p lru.capacity k j val expire_at (entries lru.nodes) (omega arith) r))

  put_entry-first :
      (capacity : ℕ) (k : K) (val : V) (expire_at : ℤ) (l : List (Entry K V))
      → is_recent 1 k (put_entry e capacity k val expire_at l) ≡ true
  unfolding put_entry
  put_entry-first capacity k val expire_at l = ground (arith, beq_refl e k)

  -- Only the least recent keys are evicted: a key that was just put is still there after any series
  -- of fewer Puts than the capacity, whatever their keys.
  pub put_survives :
      (lru : LruCache K V) (k : K) (val : V) (expire_at : ℤ) (more : List (K × V × ℤ))
      → IsValid e lru
      → length more < lru.capacity
      → Returns
          (λ c. (x : Entry K V) × (find_entry e k (entries c.nodes) ≡ some x))
          (put e lru k val expire_at >>= λ lru'. put_all lru' more)
  put_survives lru k val expire_at more v h =
      Returns-bind (put_correct e lru v k val expire_at) λ c (w, same, size).
        put_all_recent more 1 k c w (omega (arith, size))
          (rw same (put_entry-first lru.capacity k val expire_at (entries lru.nodes)))

  pub put_entry-find :
      (capacity : ℕ) (k : K) (val : V) (expire_at : ℤ) (l : List (Entry K V))
      → find_entry e k (put_entry e capacity k val expire_at l)
        ≡ some (record { key = k; value = val; expire_at = expire_at })
  unfolding put_entry
  put_entry-find capacity k val expire_at l = ground (arith, beq_refl e k)

  pub get_entry-reply :
      (now : ℤ) (k : K) (l : List (Entry K V)) (x : Entry K V)
      → find_entry e k l ≡ some x
      → (get_entry e now k l).0 ≡ (if is_live now x then some x.value else none)
  unfolding get_entry
  get_entry-reply now k l x h = rw (h, get_entry)

  -- A Get right after a Put replies with the value, unless it has expired by then.
  pub get-put :
      (lru : LruCache K V) (k : K) (val : V) (expire_at now : ℤ)
      → IsValid e lru
      → Returns
          (λ (reply, _). reply ≡ (
            if is_live {V = V} now (record { key = k; value = val; expire_at = expire_at })
            then some val
            else none))
          (put e lru k val expire_at >>= λ lru'. get e now lru' k)
  unfolding get_entry
  get-put lru k val expire_at now v =
      Returns-bind (put_correct e lru v k val expire_at) λ c (w, same, size).
        Returns-map (get_correct e c w now k) λ (reply, c') (eq, _).
          eq
          ∙ get_entry-reply now k (entries c.nodes) _ (
              ap (find_entry e k) same
              ∙ put_entry-find lru.capacity k val expire_at (entries lru.nodes))

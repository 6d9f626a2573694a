-- ===== src/Container/LruCache/Calls.antt =====
-- LruCache of common/container/lru_cache.go over sequences of calls, against a list of entries.
use mathlib.Core.Path.{ap₂}
use go_tools.Base.{
  ℕ, ◌≡◌, refl, List, [], ◌∷◌, Option, none, Run, ok, ◌>>=◌, Returns, returns, Returns-bind,
}
use go_tools.Base.Int.{ℤ}
use go_tools.Base.Keys.{Eq}
use go_tools.Container.LruCache.{Entry, LruCache, put, get, remove}
use go_tools.Container.LruCache.Entries.{put_entry, get_entry, remove_entry}
use go_tools.Container.LruCache.Refinement.{Holds, put_correct, get_correct, remove_correct}

-- A call of an exported method; a Get carries the time at which it reads the clock.
pub data Call {ℓ κ} (K : Type ℓ) (V : Type κ) : Type (ℓ ⊔ κ) where
  put_call : K → V → ℤ → Call K V
  get_call : ℤ → K → Call K V
  remove_call : K → Call K V

module _ {ℓ κ} {K : Type ℓ} {V : Type κ} (e : Eq K) where
  -- The reply is that of a Get; the other calls have none.
  unfoldable pub step : LruCache K V → Call K V → Run (Option V × LruCache K V)
  step lru (put_call k val expire_at) = do lru' ← put e lru k val expire_at; ok (none, lru')
  step lru (get_call now k) = get e now lru k
  step lru (remove_call k) = ok (none, remove e lru k)

  unfoldable pub entry_step : ℕ → List (Entry K V) → Call K V → Option V × List (Entry K V)
  entry_step capacity l (put_call k val expire_at) = (none, put_entry e capacity k val expire_at l)
  entry_step capacity l (get_call now k) = get_entry e now k l
  entry_step capacity l (remove_call k) = (none, remove_entry e k l)

  unfoldable pub run : LruCache K V → List (Call K V) → Run (List (Option V) × LruCache K V)
  run lru [] = ok ([], lru)
  run lru (c ∷ cs) = do (r, lru') ← step lru c; (rs, lru'') ← run lru' cs; ok (r ∷ rs, lru'')

  unfoldable pub entry_run :
      ℕ → List (Entry K V) → List (Call K V) → List (Option V) × List (Entry K V)
  entry_run capacity l [] = ([], l)
  entry_run capacity l (c ∷ cs) =
      let (r, l') = entry_step capacity l c in
      let (rs, l'') = entry_run capacity l' cs in (r ∷ rs, l'')

  -- The same reply, and a valid cache of the expected entries.
  abbrev pub Answers {μ} :
      {R : Type μ} → ℕ → R × List (Entry K V) → R × LruCache K V → Type (μ ⊔ ℓ ⊔ κ)
  Answers capacity (r, l) (r', lru) = (r' ≡ r) × Holds e capacity l lru

  step_refines :
      (c : Call K V) (lru : LruCache K V) (capacity : ℕ) (l : List (Entry K V))
      → Holds e capacity l lru
      → Returns (Answers capacity (entry_step capacity l c)) (step lru c)
  unfolding step entry_step
  step_refines (put_call k val expire_at) lru capacity l (v, same, size) =
      rw (← same, ← size)
        (Returns-bind (put_correct e lru v k val expire_at) λ lru' h. returns (refl, h))
  step_refines (get_call now k) lru capacity l (v, same, size) =
      rw (← same, ← size) (get_correct e lru v now k)
  step_refines (remove_call k) lru capacity l (v, same, size) =
      rw (← same, ← size) (returns (refl, remove_correct e lru v k))

  -- From any valid cache every sequence of calls returns: no dangling pointer is followed, the
  -- replies are those of the list of entries, and the final cache is valid and holds what it holds.
  pub cache_refines :
      (cs : List (Call K V)) (lru : LruCache K V) (capacity : ℕ) (l : List (Entry K V))
      → Holds e capacity l lru
      → Returns (Answers capacity (entry_run capacity l cs)) (run lru cs)
  unfolding run entry_run
  cache_refines [] lru capacity l h = returns (refl, h)
  cache_refines (c ∷ cs) lru capacity l h =
      Returns-bind (step_refines c lru capacity l h) λ (r, lru') (eq, h').
        Returns-bind (cache_refines cs lru' capacity (entry_step capacity l c).1 h')
          λ (rs, lru'') (eqs, h''). returns (ap₂ ◌∷◌ eq eqs, h'')

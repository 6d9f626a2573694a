-- ===== src/Container/Queue.antt =====
-- common/container/queue.go: a queue over a slice, with room at both ends.
-- `slots` is the field `data` (its length is what the runtime allocated), `z` is the zero value of
-- the element type, and a read, a write or a slice out of range panics. Begin, end and capacity are
-- lengths of an allocated slice, so `int` does not overflow.
pub mod Slices
pub mod Methods
pub mod Refinement
mod Examples
use go_tools.Base.{
  ℕ, zero, suc, ◌+◌, ◌-◌, ◌*◌, ◌/◌, ◌≤◌, ◌≡◌, Bool, List, [], ◌∷◌, Run, ok, ◌>>=◌, or_panic, check,
  length, get_elem?, set, take, drop, replicate, ltb, leb, if◌then◌else◌, ◌&&◌,
}

abbrev pub init_capacity : ℕ
init_capacity = 8

pub record Queue {ℓ} (A : Type ℓ) : Type ℓ where
  pub slots : List A
  pub begin : ℕ
  pub end : ℕ
  pub capacity : ℕ

module _ {ℓ} {A : Type ℓ} where
  -- `copy(dst, src)`: it stops at the shorter of the two.
  unfoldable pub copy : List A → List A → List A
  copy [] src = []
  copy (d ∷ dst) [] = d ∷ dst
  copy (d ∷ dst) (s ∷ src) = s ∷ copy dst src

  -- `data[b:e]`
  unfoldable pub slice : List A → ℕ → ℕ → Run (List A)
  slice xs b e = check (leb b e && leb e (length xs)) (ok (take (e - b) (drop b xs)))

  -- `data[i] = v`
  unfoldable pub store : List A → ℕ → A → Run (List A)
  store xs i v = check (ltb i (length xs)) (ok (set xs i v))

  unfoldable pub size : Queue A → ℕ
  size q = q.end - q.begin

  unfoldable pub is_empty : Queue A → Bool
  unfolding size
  is_empty q = leb (size q) 0

  -- The loop of Value, over the `n` indices from `i`.
  unfoldable pub value_loop : List A → ℕ → ℕ → Run (List A)
  value_loop xs zero i = ok []
  value_loop xs (suc n) i = do
    x ← or_panic (get_elem? xs i)
    rest ← value_loop xs n (i + 1)
    ok (x ∷ rest)

  unfoldable pub value : Queue A → Run (List A)
  unfolding value_loop size
  value q = check (leb q.begin q.end) (value_loop q.slots (size q) q.begin)

-- The capacity that `expend` grows to.
abbrev pub grown : ℕ → ℕ
grown capacity = if leb 1024 capacity then capacity / 4 + capacity else capacity * 2

-- The capacity that `shrink` falls to.
abbrev pub shrunk : ℕ → ℕ
shrunk capacity = if ltb (capacity / 2) init_capacity then init_capacity else capacity / 2

module _ {ℓ} {A : Type ℓ} (z : A) where
  unfoldable pub new_queue : Queue A
  new_queue = record {
    slots = replicate init_capacity z;
    begin = 0;
    end = 0;
    capacity = init_capacity;
  }

  -- Clear forgets the old slice.
  unfoldable pub clear : Queue A → Queue A
  clear q = record q {
    begin = 0;
    end = 0;
    slots = replicate init_capacity z;
    capacity = init_capacity;
  }

  -- The built-in `clear` in the second branch wipes the slice that is given up; what is left of it
  -- is that its bounds are checked.
  unfoldable pub expend : Queue A → Run (Queue A)
  unfolding slice copy size
  expend q = do
    src ← slice q.slots q.begin q.end
    if ltb 0 q.begin
        then ok (record q { slots = copy q.slots src; begin = 0; end = size q })
        else slice q.slots (length src) q.end >>= λ _. ok (record {
          slots = copy (replicate (grown q.capacity) z) src;
          begin = 0;
          end = length src;
          capacity = grown q.capacity;
        })

  unfoldable pub shrink : Queue A → Run (Queue A)
  unfolding slice copy size
  shrink q =
      if leb (size q) (q.capacity / 4) && ltb init_capacity q.capacity
      then (slice q.slots q.begin q.end >>= λ src. ok (record {
        slots = copy (replicate (shrunk q.capacity) z) src;
        begin = 0;
        end = size q;
        capacity = shrunk q.capacity;
      }))
      else ok q

  unfoldable pub push : Queue A → A → Run (Queue A)
  unfolding expend store
  push q v = do
    q ← if leb q.capacity q.end then expend q else ok q
    slots ← store q.slots q.end v
    ok (record q { slots = slots; end = q.end + 1 })

  -- The result is the popped value, or the zero value of an empty queue.
  unfoldable pub pop : Queue A → Run (A × Queue A)
  unfolding is_empty store shrink
  pop q = if is_empty q then ok (z, q) else do
    v ← or_panic (get_elem? q.slots q.begin)
    slots ← store q.slots q.begin z
    let q' = record q { slots = slots; begin = q.begin + 1 }
    q'' ← if leb (q'.capacity / 2) q'.begin then shrink q' else ok q'
    ok (v, q'')

-- The slice has the length that the queue believes it has, and the window lies inside it.
pub record IsValid {ℓ} {A : Type ℓ} (q : Queue A) : Type 0 where
  pub sized : length q.slots ≡ q.capacity
  pub ordered : q.begin ≤ q.end
  pub within : q.end ≤ q.capacity
  pub roomy : init_capacity ≤ q.capacity

-- The elements, first to last.
abbrev pub contents {ℓ} : {A : Type ℓ} → Queue A → List A
contents q = take (q.end - q.begin) (drop q.begin q.slots)

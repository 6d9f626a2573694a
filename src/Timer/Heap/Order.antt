-- ===== src/Timer/Heap/Order.antt =====
-- The order of the heap of common/timer/timer.go, and the least timer at its root.
use go_tools.Base.{ℕ, zero, suc, ◌-◌, ◌/◌, ◌≡◌, ◌≢◌, ◌<◌, List, arith}
use go_tools.Timer.{Timer}
use go_tools.Timer.Heap.Access.{key, ◌≤ℤ◌}

abbrev pub parent : ℕ → ℕ
parent c = (c - 1) / 2

module _ {κ} {C : Type κ} where
  -- Among the first `n` timers no one ends before its parent.
  abbrev pub IsHeap : ℕ → List (Timer C) → Type 0
  IsHeap n a = (c : ℕ) → 0 < c → c < n → key a (parent c) ≤ℤ key a c

  -- The same, but for the edges that meet `i`; those around it are in order across it.
  pub record IsHeapBut (n : ℕ) (a : List (Timer C)) (i : ℕ) : Type 0 where
    pub edges : (c : ℕ) → 0 < c → c < n → c ≢ i → parent c ≢ i → key a (parent c) ≤ℤ key a c
    pub across : (c : ℕ) → 0 < c → c < n → parent c ≡ i → 0 < i → key a (parent i) ≤ℤ key a c

  root-least_below :
      (k n : ℕ) (a : List (Timer C)) (i : ℕ) → IsHeap n a → i < k → i < n → key a 0 ≤ℤ key a i
  root-least_below zero n a i h f p = absurd (omega arith)
  root-least_below (suc k) n a zero h f p = omega arith
  root-least_below (suc k) n a (suc i) h f p =
      let up = h (suc i) (omega arith) p in
      let rest = root-least_below k n a (parent (suc i)) h (omega arith) (omega arith) in
      omega arith

  -- The root ends first.
  pub root-least : (n : ℕ) (a : List (Timer C)) (i : ℕ) → IsHeap n a → i < n → key a 0 ≤ℤ key a i
  root-least n a i h p = root-least_below (suc i) n a i h (omega arith) p

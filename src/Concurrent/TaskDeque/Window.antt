-- ===== src/Concurrent/TaskDeque/Window.antt =====
-- The tasks that stand in a stretch of the ring of slots, and how a write or a longer stretch
-- changes them.
use async_lib.Base.{
  ◌≤◌, ◌-◌, take, drop, ◌∙◌, ℕ, zero, suc, ◌+◌, ◌<◌, ◌≡◌, refl, ap, ap₂, List, [], ◌∷◌, ◌++◌, arith,
  length,
}
use async_lib.Concurrent.TaskDeque.{TaskDeque, Elem, capacity, mask}
use async_lib.Concurrent.TaskDeque.Inv.{used, offset}

module _ {T : Type 0} where
  -- The tasks of the `n` slots from slot `b` on, going round at `capacity`.
  abbrev pub window : (ℕ → Elem T) → ℕ → ℕ → List T
  window a b zero = []
  window a b (suc n) = (a b).task ∷ window a (mask (b + 1)) n

  -- The tasks of a deque, from its back to its front.
  abbrev pub contents : TaskDeque T → List T
  contents q = window q.array (mask q.back) (used q.front q.back)

  pub length-window : (a : ℕ → Elem T) (b n : ℕ) → length (window a b n) ≡ n
  length-window a b zero = refl
  length-window a b (suc n) = ap suc (length-window a (mask (b + 1)) n)

  pub window_snoc :
      (a : ℕ → Elem T) (b n : ℕ)
      → b < capacity
      → window a b (suc n) ≡ window a b n ++ (a (mask (b + n))).task ∷ []
  window_snoc a b zero h = ground (arith)
  window_snoc a b (suc n) h = ground (arith, window_snoc a (mask (b + 1)) n (omega arith))

  -- A stretch depends on the tasks of its own slots only.
  pub window_cong :
      (a a' : ℕ → Elem T) (b n : ℕ)
      → b < capacity
      → ((j : ℕ) → j < capacity → offset b j < n → (a j).task ≡ (a' j).task)
      → window a b n ≡ window a' b n
  window_cong a a' b zero h same = refl
  window_cong a a' b (suc n) h same =
      ap₂ ◌∷◌ (same b h (omega arith))
        (window_cong a a' (mask (b + 1)) n (omega arith) (λ j k l. same j k (omega arith)))

  pub take-window : (a : ℕ → Elem T) (b n k : ℕ) → k ≤ n → take k (window a b n) ≡ window a b k
  take-window a b n zero h = refl
  take-window a b zero (suc k) h = absurd (omega arith)
  take-window a b (suc n) (suc k) h =
      ap (λ l. (a b).task ∷ l) (take-window a (mask (b + 1)) n k (omega arith))

  pub drop-window :
      (a : ℕ → Elem T) (b n k : ℕ)
      → b < capacity
      → k ≤ n
      → drop k (window a b n) ≡ window a (mask (b + k)) (n - k)
  drop-window a b n zero hb h = ground (arith)
  drop-window a b zero (suc k) hb h = absurd (omega arith)
  drop-window a b (suc n) (suc k) hb h =
      drop-window a (mask (b + 1)) n k (omega arith) (omega arith) ∙ ground arith

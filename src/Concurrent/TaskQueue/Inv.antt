-- ===== src/Concurrent/TaskQueue/Inv.antt =====
-- The well-formedness of a `TaskQueue`, and the tasks that it holds.
use async_lib.Base.{
  ℕ, zero, suc, ◌+◌, ◌-◌, ◌%◌, ◌^◌, ◌≤◌, ◌<◌, ◌≡◌, refl, ap₂, arith, List, [], ◌∷◌, ◌++◌, length,
  ltb, if◌then◌else◌,
}
use async_lib.Base.Words.{u32, sub32}
use async_lib.Concurrent.TaskQueue.{TaskQueue, Elem, capacity, init}

-- How many tasks the two indices enclose.
abbrev pub used : ℕ → ℕ → ℕ
used front back = sub32 front back

-- How far slot `j` stands from the back.
abbrev pub offset : ℕ → ℕ → ℕ
offset back j = (j + capacity - back % capacity) % capacity

-- Slot `j` has the turn number of its place, and one more while it holds a task.
pub record Inv {T : Type 0} (q : TaskQueue T) : Type 0 where
  pub front_fits : q.front < 2 ^ 32
  pub back_fits : q.back < 2 ^ 32
  pub bounded : used q.front q.back ≤ capacity
  pub slots :
      (j : ℕ)
      → j < capacity
      → (q.array j).state
        ≡ u32 (
            q.back
            + offset q.back j
            + (if ltb (offset q.back j) (used q.front q.back) then 1 else 0))

module _ {T : Type 0} where
  pub init-Inv : (null : T) → Inv (init null)
  unfolding init
  init-Inv null = record {
    front_fits = omega arith;
    back_fits = omega arith;
    bounded = omega arith;
    slots = λ j h. ground arith;
  }

  -- The tasks of the `n` slots from slot `b` on, going round at the capacity.
  abbrev pub ring : (ℕ → Elem T) → ℕ → ℕ → List T
  ring a b zero = []
  ring a b (suc n) = (a b).task ∷ ring a ((b + 1) % capacity) n

  -- The tasks of a queue, from its back to its front.
  abbrev pub contents : TaskQueue T → List T
  contents q = ring q.array (q.back % capacity) (used q.front q.back)

  pub length-ring : (a : ℕ → Elem T) (b n : ℕ) → length (ring a b n) ≡ n
  length-ring a b zero = refl
  length-ring a b (suc n) = omega (arith, length-ring a ((b + 1) % capacity) n)

  pub ring_longer :
      (a : ℕ → Elem T) (b n : ℕ)
      → b < capacity
      → ring a b (suc n) ≡ ring a b n ++ (a ((b + n) % capacity)).task ∷ []
  ring_longer a b zero h = ground arith
  ring_longer a b (suc n) h = ground (arith, ring_longer a ((b + 1) % capacity) n (omega arith))

  pub ring_same :
      (a a' : ℕ → Elem T) (b n : ℕ)
      → b < capacity
      → ((j : ℕ) → j < capacity → offset b j < n → (a j).task ≡ (a' j).task)
      → ring a b n ≡ ring a' b n
  ring_same a a' b zero h same = refl
  ring_same a a' b (suc n) h same =
      ap₂ (λ x l. x ∷ l) (same b h (omega arith))
        (ring_same a a' ((b + 1) % capacity) n (omega arith) (λ j k l. same j k (omega arith)))

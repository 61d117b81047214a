-- ===== src/Concurrent/TaskPriorityLockDeque.antt =====
-- async/concurrent/task_priority_queue.h: `TaskPriorityLockDeque`, a list for each priority under one
-- mutex, so that each operation runs whole.
pub mod Laws
mod Tests
use async_lib.Base.{
  ℕ, zero, suc, ◌+◌, ◌%◌, ◌^◌, Bool, Option, none, some, List, [], ◌∷◌, ◌++◌, if◌then◌else◌, ◌==◌,
}
use async_lib.Concurrent.TaskDeque.Spec.{unsnoc}
use async_lib.Concurrent.TaskPriorityDeque.{
  TaskPriority, critical, high, default, low, same_priority,
}

-- `queues` has the four `std::list` fields; `elems` is a `size_t`, which no constructor sets.
pub record TaskPriorityLockDeque (T : Type 0) : Type 0 where
  pub queues : TaskPriority → List T
  pub elems : ℕ

-- What a call ends in: its answer, or the end of the body of a function that has no return there.
pub data Outcome (A : Type 0) : Type 0 where
  returns : A → Outcome A
  undefined : Outcome A

module _ {T : Type 0} where
  abbrev pub put : TaskPriority → List T → TaskPriorityLockDeque T → TaskPriorityLockDeque T
  put p l q = record q { queues = λ p'. if same_priority p p' then l else q.queues p' }

  unfoldable pub push_front :
      T → TaskPriority → TaskPriorityLockDeque T → Option T × TaskPriorityLockDeque T
  push_front t p q = (none, record (put p (t ∷ q.queues p) q) { elems = (q.elems + 1) % 2 ^ 64 })

  unfoldable pub push_back :
      T → TaskPriority → TaskPriorityLockDeque T → Option T × TaskPriorityLockDeque T
  push_back t p q =
      (none, record (put p (q.queues p ++ t ∷ []) q) { elems = (q.elems + 1) % 2 ^ 64 })

  -- One `if` of PopFront: take from this list, or go on.
  abbrev pub front_or :
      TaskPriority
      → Outcome (Option T × TaskPriorityLockDeque T)
      → TaskPriorityLockDeque T
      → Outcome (Option T × TaskPriorityLockDeque T)
  front_or p next q = elim (q.queues p) [ [] ↦ next | t ∷ l ↦ returns (some t, put p l q) ]

  unfoldable pub pop_front : TaskPriorityLockDeque T → Outcome (Option T × TaskPriorityLockDeque T)
  pop_front q =
      if q.elems == 0
      then returns (none, q)
      else front_or critical (front_or high (front_or default (front_or low undefined q) q) q) q

  abbrev pub back_or :
      TaskPriority
      → Outcome (Option T × TaskPriorityLockDeque T)
      → TaskPriorityLockDeque T
      → Outcome (Option T × TaskPriorityLockDeque T)
  back_or p next q = elim (unsnoc (q.queues p)) [
    | none ↦ next
    | some (t, l) ↦ returns (some t, put p l q)
  ]

  unfoldable pub pop_back : TaskPriorityLockDeque T → Outcome (Option T × TaskPriorityLockDeque T)
  pop_back q =
      if q.elems == 0
      then returns (none, q)
      else back_or critical (back_or high (back_or default (back_or low undefined q) q) q) q

  abbrev pub is_empty : TaskPriorityLockDeque T → Bool
  is_empty q = q.elems == 0

  -- `Flush` on fuel; `none` is fuel that ran out.
  unfoldable pub flush : ℕ → TaskPriorityLockDeque T → Option (Outcome (TaskPriorityLockDeque T))
  flush zero q = none
  flush (suc fuel) q =
      if is_empty q
      then some (returns q)
      else elim (pop_front q) [ undefined ↦ some undefined | returns (t, q') ↦ flush fuel q' ]

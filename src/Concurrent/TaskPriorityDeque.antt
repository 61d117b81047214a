-- ===== src/Concurrent/TaskPriorityDeque.antt =====
-- async/concurrent/task_priority_queue.h: a ring for each of four priorities, whose indices share
-- one 64-bit word for the front and one for the back. Each operation runs whole.
pub mod Fields
pub mod Level
pub mod Refine
pub mod Run
pub mod Sizes
mod Tests
use Prim.Native.Nat.{bit_xor}
use async_lib.Base.{
  ℕ, zero, suc, ◌+◌, ◌-◌, ◌*◌, ◌/◌, ◌%◌, ◌^◌, Bool, true, false, Option, none, some, List, [], ◌∷◌,
  ltb, ◌==◌, if◌then◌else◌,
}
use async_lib.Base.Words.{sub64}
use async_lib.Base.Family.{update}
use async_lib.Concurrent.TaskDeque.{SlotState, empty, ready, same_state, Elem, capacity}

pub data TaskPriority : Type 0 where
  critical high default low : TaskPriority

-- kTaskPriorities: the order in which a pop looks.
abbrev pub task_priorities : List TaskPriority
task_priorities = critical ∷ high ∷ default ∷ low ∷ []

abbrev pub same_priority : TaskPriority → TaskPriority → Bool
same_priority critical critical = true
same_priority high high = true
same_priority default default = true
same_priority low low = true
same_priority _ _ = false

-- `1 << kIndexShift[priority]`.
abbrev pub place : TaskPriority → ℕ
place critical = 1
place high = 2 ^ 11
place default = 2 ^ 22
place low = 2 ^ 33

-- PointerState: the indices in a word, and its changes. `|` of parts that do not overlap is `+`.
abbrev pub index : TaskPriority → ℕ → ℕ
index p state = state / place p % 2 ^ 10

abbrev pub index_ext : TaskPriority → ℕ → ℕ
index_ext p state = state / place p % 2 ^ 11

abbrev pub with_index_ext : ℕ → TaskPriority → ℕ → ℕ
with_index_ext i p state = i * place p + (state - index_ext p state * place p)

-- `state & ~kIndicesBits` clears bits of the number 44, all of them below the counter's.
abbrev pub inc : TaskPriority → ℕ → ℕ
inc p state =
    let i = index_ext p state in
    let other_indices = state % 2 ^ 44 - i * place p in
    let counter = state / 2 ^ 44 in
    (i + 1) % 2 ^ 11 * place p + (counter + 1) % 2 ^ 20 * 2 ^ 44 + other_indices

-- The size of one priority, with the repairs for overflow and for more than the capacity.
abbrev pub level_size : TaskPriority → ℕ → ℕ → ℕ
level_size p front back =
    let f = index_ext p front in
    let b = index_ext p back in
    let size = (if ltb f b then f + 2 * capacity - b else f - b) in
    if ltb capacity size then capacity else size

pub calculate_size : ℕ → ℕ → ℕ
calculate_size front back =
    level_size critical front back
    + level_size high front back
    + level_size default front back
    + level_size low front back

-- `array` at a priority and an offset below the capacity is `*elem(priority, offset)`.
pub record TaskPriorityDeque (T : Type 0) : Type 0 where
  pub front : ℕ
  pub back : ℕ
  pub array : TaskPriority → ℕ → Elem T

module _ {T : Type 0} where
  pub init : T → TaskPriorityDeque T
  init null = record { front = 0; back = 0; array = λ p i. record { state = empty; task = null } }

  abbrev pub put : TaskPriority → ℕ → Elem T → TaskPriorityDeque T → TaskPriorityDeque T
  put p i e q = record q {
    array = λ p'. if same_priority p p' then update (q.array p) i e else q.array p';
  }

  pub push_front : T → TaskPriority → TaskPriorityDeque T → Option T × TaskPriorityDeque T
  push_front t p q =
      let i = index p q.front in
      if same_state (q.array p i).state empty
      then (none, record (put p i (record { state = ready; task = t }) q) { front = inc p q.front })
      else (some t, q)

  pub push_back : T → TaskPriority → TaskPriorityDeque T → Option T × TaskPriorityDeque T
  push_back t p q =
      let i = index_ext p q.back in
      let offset = sub64 i 1 % 2 ^ 10 in
      if same_state (q.array p offset).state empty
      then (
        none,
        record (put p offset (record { state = ready; task = t }) q) {
          back = with_index_ext (sub64 i 1 % 2 ^ 11) p q.back;
        },
      )
      else (some t, q)

  -- A round of PopFront's loop: `none` goes on to the next priority.
  abbrev pub pop_front_at :
      T → TaskPriority → TaskPriorityDeque T → Option (T × TaskPriorityDeque T)
  pop_front_at null p q =
      let i = index_ext p q.front in
      let offset = sub64 i 1 % 2 ^ 10 in
      if same_state (q.array p offset).state ready
      then some (
        (q.array p offset).task,
        record (put p offset (record { state = empty; task = null }) q) {
          front = with_index_ext (sub64 i 1 % 2 ^ 11) p q.front;
        },
      )
      else none

  abbrev pub pop_back_at : T → TaskPriority → TaskPriorityDeque T → Option (T × TaskPriorityDeque T)
  pop_back_at null p q =
      let i = index p q.back in
      if same_state (q.array p i).state ready
      then some (
        (q.array p i).task,
        record (put p i (record { state = empty; task = null }) q) { back = inc p q.back },
      )
      else none

  pub pop_front_from : T → List TaskPriority → TaskPriorityDeque T → Option T × TaskPriorityDeque T
  pop_front_from null [] q = (none, q)
  pop_front_from null (p ∷ ps) q = elim (pop_front_at null p q) [
    | none ↦ pop_front_from null ps q
    | some (t, q') ↦ (some t, q')
  ]

  pub pop_front : T → TaskPriorityDeque T → Option T × TaskPriorityDeque T
  unfolding pop_front_from
  pop_front null q = pop_front_from null task_priorities q

  -- SizeOrNotEmpty<false>.
  pub maybe_zero : TaskPriorityDeque T → ℕ
  maybe_zero q = bit_xor q.front q.back % 2 ^ 44

  pub is_empty : TaskPriorityDeque T → Bool
  unfolding maybe_zero
  is_empty q = maybe_zero q == 0

  pub pop_back_from : T → List TaskPriority → TaskPriorityDeque T → Option T × TaskPriorityDeque T
  pop_back_from null [] q = (none, q)
  pop_back_from null (p ∷ ps) q = elim (pop_back_at null p q) [
    | none ↦ pop_back_from null ps q
    | some (t, q') ↦ (some t, q')
  ]

  pub pop_back : T → TaskPriorityDeque T → Option T × TaskPriorityDeque T
  unfolding is_empty pop_back_from
  pop_back null q = if is_empty q then (none, q) else pop_back_from null task_priorities q

  pub size : TaskPriorityDeque T → ℕ
  unfolding calculate_size
  size q = calculate_size q.front q.back

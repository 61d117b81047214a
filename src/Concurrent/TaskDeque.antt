-- ===== src/Concurrent/TaskDeque.antt =====
-- async/concurrent/task_deque.h: a bounded deque of tasks in a ring of 1024 slots.
-- Every operation runs to its end before the next one begins: the back operations hold the
-- deque's mutex, and the front belongs to one thread. So a compare-exchange fails only on a slot
-- that holds another state. `T` is `TaskFunction`, and `null` the value that a move leaves behind.
pub mod Inv
pub mod Spec
pub mod Window
pub mod Refine
pub mod Half
pub mod Run
mod Tests
use Prim.Native.Nat.{bit_xor}
use async_lib.Base.{
  ℕ, zero, suc, ◌+◌, ◌-◌, ◌*◌, ◌/◌, ◌%◌, ◌^◌, Bool, true, false, Option, none, some, List, [], ◌∷◌,
  ◌++◌, ltb, leb, ◌==◌, if◌then◌else◌,
}
use async_lib.Base.Words.{u32, sub32}
use async_lib.Base.Family.{update}

abbrev pub capacity : ℕ
capacity = 1024

-- kIncrement: one step of the index, and one of the modification counter above it.
abbrev pub increment : ℕ
increment = capacity * 2 + 1

-- `x & kMask` and `x & kMask2`.
abbrev pub mask : ℕ → ℕ
mask x = x % capacity

abbrev pub mask2 : ℕ → ℕ
mask2 x = x % (capacity * 2)

-- `((x - 1) & kMask2) | (x & ~kMask2)`: the index goes back by one, the counter stays.
abbrev pub step_back : ℕ → ℕ
step_back x = mask2 (sub32 x 1) + x / (capacity * 2) * (capacity * 2)

pub data SlotState : Type 0 where
  empty busy ready : SlotState

abbrev pub same_state : SlotState → SlotState → Bool
same_state empty empty = true
same_state busy busy = true
same_state ready ready = true
same_state _ _ = false

-- `int size = (front & kMask2) - (back & kMask2)`, with the two repairs that follow it.
pub calculate_size : ℕ → ℕ → ℕ
calculate_size f b =
    let size =
      (if ltb (mask2 f) (mask2 b) then mask2 f + 2 * capacity - mask2 b else mask2 f - mask2 b) in
    if ltb capacity size then capacity else size

pub record Elem (T : Type 0) : Type 0 where
  pub state : SlotState
  pub task : T

pub record TaskDeque (T : Type 0) : Type 0 where
  pub front : ℕ
  pub back : ℕ
  pub array : ℕ → Elem T

module _ {T : Type 0} where
  unfoldable pub init : T → TaskDeque T
  init null = record { front = 0; back = 0; array = λ _. record { state = empty; task = null } }

  abbrev pub set_state : ℕ → SlotState → TaskDeque T → TaskDeque T
  set_state i s q = record q {
    array = update q.array i (record { state = s; task = (q.array i).task });
  }

  abbrev pub set_task : ℕ → T → TaskDeque T → TaskDeque T
  set_task i t q = record q {
    array = update q.array i (record { state = (q.array i).state; task = t });
  }

  -- `s != expected || !compare_exchange_strong(s, kBusy)` is `none`.
  abbrev pub claim : ℕ → SlotState → TaskDeque T → Option (TaskDeque T)
  claim i expected q =
      if same_state (q.array i).state expected then some (set_state i busy q) else none

  -- The option is the task handed back by a full deque.
  unfoldable pub push_front : T → TaskDeque T → Option T × TaskDeque T
  push_front t q = elim (claim i empty q) [
    | none ↦ (some t, q)
    | some q' ↦
        (none, set_state i ready (set_task i t (record q' { front = u32 (q.front + increment) })))
  ]
    where
      i : ℕ
      i = mask q.front

  unfoldable pub pop_front : T → TaskDeque T → Option T × TaskDeque T
  pop_front null q = elim (claim i ready q) [
    | none ↦ (none, q)
    | some q' ↦ (
      some (q.array i).task,
      record (set_state i empty (set_task i null q')) { front = step_back q.front },
    )
  ]
    where
      i : ℕ
      i = mask (sub32 q.front 1)

  unfoldable pub push_back : T → TaskDeque T → Option T × TaskDeque T
  push_back t q = elim (claim i empty q) [
    | none ↦ (some t, q)
    | some q' ↦ (none, set_state i ready (set_task i t (record q' { back = step_back q.back })))
  ]
    where
      i : ℕ
      i = mask (sub32 q.back 1)

  -- SizeOrNotEmpty<false>: zero exactly when the two indices agree.
  unfoldable pub maybe_zero : TaskDeque T → ℕ
  maybe_zero q = mask2 (bit_xor q.front q.back)

  unfoldable pub is_empty : TaskDeque T → Bool
  unfolding maybe_zero
  is_empty q = maybe_zero q == 0

  pub size : TaskDeque T → ℕ
  unfolding calculate_size
  size q = calculate_size q.front q.back

  unfoldable pub pop_back : T → TaskDeque T → Option T × TaskDeque T
  unfolding is_empty
  pop_back null q = if is_empty q then (none, q) else elim (claim i ready q) [
    | none ↦ (none, q)
    | some q' ↦ (
      some (q.array i).task,
      record (set_state i empty (set_task i null q')) { back = u32 (q.back + increment) },
    )
  ]
    where
      i : ℕ
      i = mask q.back

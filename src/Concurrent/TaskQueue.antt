-- ===== src/Concurrent/TaskQueue.antt =====
-- async/concurrent/task_queue.h: a queue in a ring of slots, each with a turn number. An operation
-- runs whole. `none` is an operation that reloads its index for ever: no other thread moves it.
mod Tests
pub mod Inv
pub mod Refine
pub mod Run
use async_lib.Base.{
  ℕ, zero, suc, ◌+◌, ◌-◌, ◌%◌, ◌^◌, Bool, true, false, Option, none, some, ltb, ◌==◌, if◌then◌else◌,
  min,
}
use async_lib.Base.Words.{u32, sub32}
use async_lib.Base.Family.{update}

abbrev pub capacity : ℕ
capacity = 1024

pub record Elem (T : Type 0) : Type 0 where
  pub state : ℕ
  pub task : T

pub record TaskQueue (T : Type 0) : Type 0 where
  pub front : ℕ
  pub back : ℕ
  pub array : ℕ → Elem T

module _ {T : Type 0} where
  pub init : T → TaskQueue T
  init null = record { front = 0; back = 0; array = λ i. record { state = i; task = null } }

  -- The option inside is the task handed back by a full queue.
  pub push_front : T → TaskQueue T → Option (Option T × TaskQueue T)
  push_front task q =
      let e = q.array (q.front % capacity) in
      if e.state == q.front
      then some (
        none,
        record q {
          front = u32 (q.front + 1);
          array =
              update q.array (q.front % capacity)
                (record { state = u32 (q.front + 1); task = task });
        },
      )
      else if ltb e.state q.front
      then some (some task, q)
      else none

  -- The slot is left with `null`, the task that was moved out of.
  pub pop_back : T → TaskQueue T → Option (Option T × TaskQueue T)
  pop_back null q =
      let e = q.array (q.back % capacity) in
      if e.state == u32 (q.back + 1)
      then some (
        some e.task,
        record q {
          back = u32 (q.back + 1);
          array =
              update q.array (q.back % capacity)
                (record { state = u32 (q.back + capacity); task = null });
        },
      )
      else if ltb e.state (u32 (q.back + 1))
      then some (none, q)
      else none

  pub size : TaskQueue T → ℕ
  size q = min capacity (sub32 q.front q.back)

  pub is_empty : TaskQueue T → Bool
  unfolding size
  is_empty q = size q == 0

-- ===== src/Concurrent/TaskQueue/Refine.antt =====
-- Each operation of a valid `TaskQueue`, against the bounded list of its tasks.
use async_lib.Base.{ℕ, ◌+◌, ◌%◌, ◌^◌, ◌≤◌, ◌<◌, ◌≡◌, arith, none, some}
use async_lib.Base.Words.{u32}
use async_lib.Base.Family.{update}
use async_lib.Concurrent.TaskQueue.{TaskQueue, capacity, push_front, pop_back}
use async_lib.Concurrent.TaskQueue.Inv.{used, Inv}

module _ {T : Type 0} (q : TaskQueue T) (v : Inv q) where
  abbrev n : ℕ
  n = used q.front q.back

  pub push_front_room :
      (t : T)
      → n < capacity
      → push_front t q
        ≡ some (
          none,
          record {
            front = u32 (q.front + 1);
            back = q.back;
            array =
                update q.array
                  (q.front % capacity)
                  (record { state = u32 (q.front + 1); task = t });
          },
        )
  unfolding push_front
  push_front_room t room = ground (arith, v.slots (q.front % capacity) (omega arith))

  pub push_front_full :
      (t : T) → n ≡ capacity → u32 (q.back + 1) < q.front → push_front t q ≡ some (some t, q)
  unfolding push_front
  push_front_full t full far = ground (arith, v.slots (q.front % capacity) (omega arith))

  pub push_front_stuck : (t : T) → n ≡ capacity → q.front ≤ u32 (q.back + 1) → push_front t q ≡ none
  unfolding push_front
  push_front_stuck t full near = ground (arith, v.slots (q.front % capacity) (omega arith))

  pub pop_back-some :
      (null : T)
      → 0 < n
      → pop_back null q
        ≡ some (
          some (q.array (q.back % capacity)).task,
          record {
            front = q.front;
            back = u32 (q.back + 1);
            array =
                update q.array
                  (q.back % capacity)
                  (record { state = u32 (q.back + capacity); task = null });
          },
        )
  unfolding pop_back
  pop_back-some null pos = ground (arith, v.slots (q.back % capacity) (omega arith))

  pub pop_back_empty : (null : T) → n ≡ 0 → q.back + 1 < 2 ^ 32 → pop_back null q ≡ some (none, q)
  unfolding pop_back
  pop_back_empty null none_left far = ground (arith, v.slots (q.back % capacity) (omega arith))

  pub pop_back_stuck : (null : T) → n ≡ 0 → q.back + 1 ≡ 2 ^ 32 → pop_back null q ≡ none
  unfolding pop_back
  pop_back_stuck null none_left near = ground (arith, v.slots (q.back % capacity) (omega arith))

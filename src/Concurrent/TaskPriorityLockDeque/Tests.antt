-- ===== src/Concurrent/TaskPriorityLockDeque/Tests.antt =====
-- Concrete runs of a `TaskPriorityLockDeque` of numbers, whose count starts at 0.
use async_lib.Base.{ℕ, ◌≡◌, ◌≢◌, arith, none, some, [], ◌==◌, if◌then◌else◌}
use async_lib.Concurrent.TaskDeque.Spec
use async_lib.Concurrent.TaskPriorityDeque.{high, low, task_priorities}
use async_lib.Concurrent.TaskPriorityDeque.Refine.{spec_pop}
use async_lib.Concurrent.TaskPriorityLockDeque.{
  TaskPriorityLockDeque, returns, undefined, push_front, push_back, pop_front, pop_back, flush,
}
use async_lib.Concurrent.TaskPriorityLockDeque.Laws.{answer_of, lock_pops_lem, lock_flush_undefined}

abbrev three_tasks : TaskPriorityLockDeque ℕ
unfolding push_front push_back
three_tasks =
    (push_back 3 high
      (push_front 2 high (push_front 1 low (record { queues = λ p. []; elems = 0 })).1).1).1

three_tasks_some : three_tasks.elems ≢ 0
unfolding three_tasks push_front push_back
three_tasks_some h = ground arith

lock_pops_lem_example :
    (pop_front three_tasks ≡ (
      if three_tasks.elems == 0
      then returns (none, three_tasks)
      else answer_of three_tasks (spec_pop Spec.pop_back task_priorities three_tasks.queues)))
    × (pop_back three_tasks ≡ (
        if three_tasks.elems == 0
        then returns (none, three_tasks)
        else answer_of three_tasks (spec_pop Spec.pop_front task_priorities three_tasks.queues)))
lock_pops_lem_example = lock_pops_lem three_tasks

lock_flush_undefined_example : flush 5 three_tasks ≡ some undefined
unfolding three_tasks push_front push_back
lock_flush_undefined_example = lock_flush_undefined 5 three_tasks three_tasks_some (ground arith)

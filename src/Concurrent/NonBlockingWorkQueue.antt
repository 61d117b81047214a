-- ===== src/Concurrent/NonBlockingWorkQueue.antt =====
-- async/concurrent/non_blocking_work_queue.h: a pool whose workers keep their tasks in deques and
-- steal from each other. Each call runs whole.
mod Tests
pub mod Weigh
pub mod Keep
pub mod Run
use async_lib.Base.{ℕ, zero, suc, ◌+◌, Bool, true, false, Option, none, some, ltb, if◌then◌else◌}
use async_lib.Base.Family.{update}
use async_lib.Concurrent.Coprimes.{fast_reduce}
use async_lib.Concurrent.EventCount
use async_lib.Concurrent.TaskDeque
use async_lib.Concurrent.TaskDeque.{TaskDeque}
use async_lib.Concurrent.WorkQueueBase
use async_lib.Concurrent.WorkQueueBase.{WorkQueueBase, Derived, is_notify_parked_thread_required}

-- A task, with a `PendingTask` attached or not.
pub data Task (T : Type 0) : Type 0 where
  plain with_pending_task : T → Task T

-- Who calls: a worker of the pool, or another thread with the number that it draws.
pub data Caller : Type 0 where
  worker : (thread_id : ℕ) → Caller
  free_standing : (draw : ℕ) → Caller

abbrev pub Pool : Type 0 → Type 0
Pool T = WorkQueueBase (TaskDeque (Task T))

module _ {T : Type 0} (null : T) where
  -- NextTask, Steal and Empty of one queue. A popped slot is left with `null`.
  abbrev pub derived : Derived (TaskDeque (Task T)) (Task T)
  derived = record { steal = TaskDeque.pop_back (plain null); is_empty = TaskDeque.is_empty }

  -- NextTask of worker `i`.
  unfoldable pub next_task : ℕ → Pool T → Option (Task T) × Pool T
  next_task i p =
      let (t, q) = TaskDeque.pop_front (plain null) (p.queue i) in
      (t, record p { queue = update p.queue i q })

  pub steal : ℕ → Pool T → Option (Task T) × Pool T
  steal r p = WorkQueueBase.steal derived r p

module _ {T : Type 0} where
  -- The task to push: while the pool quiesces it counts as pending.
  pub entered : T → Pool T → Task T × Pool T
  entered task p =
      if ltb 0 p.quiescing.num_quiescing
      then (
        with_pending_task task,
        record p {
          quiescing = record {
            num_quiescing = p.quiescing.num_quiescing;
            num_pending_tasks = p.quiescing.num_pending_tasks + 1;
          };
        },
      )
      else (plain task, p)

  notified : Bool × Pool T → Pool T
  notified (true, p) = record p { event_count = EventCount.notify false p.event_count }
  notified (false, p) = p

  -- What follows the push: a task that was taken may call for a notification, and one that was
  -- handed back is for the caller to run.
  pub pushed : Bool → Option (Task T) → Pool T → Option (Task T) × Pool T
  unfolding notified
  pushed skip_notify none p =
      (none, if skip_notify then p else notified (is_notify_parked_thread_required p))
  pushed skip_notify (some task) p = (some task, p)

  pub add_task : Caller → T → Pool T → Option (Task T) × Pool T
  unfolding entered pushed
  add_task caller task p =
      let (t, p1) = entered task p in
      elim caller [
        | worker i ↦
            let (inline_task, q) = TaskDeque.push_front t (p1.queue i) in
            pushed (TaskDeque.is_empty (p1.queue i)) inline_task
              (record p1 { queue = update p1.queue i q })
        | free_standing r ↦
            let i = fast_reduce r p1.num_threads in
            let (inline_task, q) = TaskDeque.push_back t (p1.queue i) in
            pushed false inline_task (record p1 { queue = update p1.queue i q })
      ]

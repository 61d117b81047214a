-- ===== src/Concurrent/BlockingWorkQueue.antt =====
-- async/concurrent/blocking_work_queue.h: the threads that are started on demand for blocking tasks.
-- What a thread does while it holds the mutex is one step. The count of pending tasks, an int64_t in
-- the source, has no bound here.
pub mod Weights
pub mod Threads
pub mod Kept
mod Tests
use async_lib.Base.{
  ℕ, zero, suc, ◌+◌, ◌-◌, ◌≡◌, Bool, true, false, Option, none, some, List, [], ◌∷◌, ◌++◌, length,
  get_elem?, ltb, if◌then◌else◌,
}
use async_lib.Concurrent.NonBlockingWorkQueue.{Task, plain, with_pending_task}
use async_lib.Concurrent.WorkQueueBase.{QuiescingState}

-- Where a dynamic thread is: at a task, in the wait of WaitNextTask, or through with its work.
pub data DynamicThread (T : Type 0) : Type 0 where
  running : Task T → DynamicThread T
  waiting exited : DynamicThread T

-- `finished` records the tasks that were run and destructed, the latest first.
pub record BlockingWorkQueue (T : Type 0) : Type 0 where
  pub max_num_dynamic_threads : ℕ
  pub num_dynamic_threads : ℕ
  pub num_idle_dynamic_threads : ℕ
  pub idle_task_queue : List (Task T)
  pub dynamic_threads : List (DynamicThread T)
  pub stop_waiting : Bool
  pub quiescing : QuiescingState
  pub finished : List T

module _ {T : Type 0} where
  -- No dynamic threads yet.
  abbrev pub init : ℕ → QuiescingState → BlockingWorkQueue T
  init max state = record {
    max_num_dynamic_threads = max;
    num_dynamic_threads = 0;
    num_idle_dynamic_threads = 0;
    idle_task_queue = [];
    dynamic_threads = [];
    stop_waiting = false;
    quiescing = state;
    finished = [];
  }

  -- `wrap`, of a task that a thread is going to run.
  unfoldable pub wrap : T → QuiescingState → Task T × QuiescingState
  wrap t state =
      if ltb 0 state.num_quiescing
      then (with_pending_task t, record state { num_pending_tasks = state.num_pending_tasks + 1 })
      else (plain t, state)

  abbrev pub remove_exited : List (DynamicThread T) → List (DynamicThread T)
  remove_exited [] = []
  remove_exited (exited ∷ ts) = remove_exited ts
  remove_exited (running t ∷ ts) = running t ∷ remove_exited ts
  remove_exited (waiting ∷ ts) = waiting ∷ remove_exited ts

  abbrev pub queue_task : Task T × QuiescingState → BlockingWorkQueue T → BlockingWorkQueue T
  queue_task (t, state) q = record q {
    idle_task_queue = q.idle_task_queue ++ t ∷ [];
    quiescing = state;
  }

  abbrev pub start_thread : Task T × QuiescingState → BlockingWorkQueue T → BlockingWorkQueue T
  start_thread (t, state) q = record q {
    dynamic_threads = remove_exited q.dynamic_threads ++ running t ∷ [];
    num_dynamic_threads = q.num_dynamic_threads + 1;
    quiescing = state;
  }

  -- RunBlockingTask: the task is left for an idle thread, or a new thread runs it, or the caller has
  -- it back.
  unfoldable pub run_blocking_task : T → BlockingWorkQueue T → Option T × BlockingWorkQueue T
  run_blocking_task t q =
      if ltb (length q.idle_task_queue) q.num_idle_dynamic_threads
      then (none, queue_task (wrap t q.quiescing) q)
      else if ltb q.num_dynamic_threads q.max_num_dynamic_threads
      then (none, start_thread (wrap t q.quiescing) q)
      else (some t, record q { dynamic_threads = remove_exited q.dynamic_threads })

  abbrev pub set_thread : ℕ → DynamicThread T → List (DynamicThread T) → List (DynamicThread T)
  set_thread i p [] = []
  set_thread zero p (t ∷ ts) = p ∷ ts
  set_thread (suc i) p (t ∷ ts) = t ∷ set_thread i p ts

  abbrev pub body : Task T → T
  body (plain t) = t
  body (with_pending_task t) = t

  -- The destructor of a task, which ends a pending one.
  abbrev pub reset : Task T → QuiescingState → QuiescingState
  reset (plain t) state = state
  reset (with_pending_task t) state = record state {
    num_pending_tasks = state.num_pending_tasks - 1;
  }

  -- Thread `i` ends its task and goes to wait for the next.
  unfoldable pub finish : ℕ → Task T → BlockingWorkQueue T → BlockingWorkQueue T
  finish i t q = record q {
    dynamic_threads = set_thread i waiting q.dynamic_threads;
    num_idle_dynamic_threads = q.num_idle_dynamic_threads + 1;
    quiescing = reset t q.quiescing;
    finished = body t ∷ q.finished;
  }

  -- Thread `i` leaves the wait of WaitNextTask, with a task or to exit.
  unfoldable pub wake : ℕ → BlockingWorkQueue T → BlockingWorkQueue T
  wake i q = elim q.idle_task_queue [
    | t ∷ ts ↦ record q {
      idle_task_queue = ts;
      dynamic_threads = set_thread i (running t) q.dynamic_threads;
      num_idle_dynamic_threads = q.num_idle_dynamic_threads - 1;
    }
    | [] ↦ record q {
      dynamic_threads = set_thread i exited q.dynamic_threads;
      num_idle_dynamic_threads = q.num_idle_dynamic_threads - 1;
      num_dynamic_threads = q.num_dynamic_threads - 1;
    }
  ]

-- The task that a call accepts, from its answer.
abbrev pub accepted : {T : Type 0} → T → Option T → List T
accepted t none = t ∷ []
accepted t (some _) = []

-- A step of some thread, with the tasks that it accepts. A wait ends at any time, since it has a
-- time limit. Quiesce first tells the idle threads to stop, and ends when no thread is left.
pub data Step {T : Type 0} : BlockingWorkQueue T → List T → BlockingWorkQueue T → Type 0 where
  submits :
      {q : BlockingWorkQueue T} (t : T)
      → Step q (accepted t (run_blocking_task t q).0) (run_blocking_task t q).1
  finishes :
      {q : BlockingWorkQueue T} (i : ℕ) (t : Task T)
      → get_elem? q.dynamic_threads i ≡ some (running t)
      → Step q [] (finish i t q)
  wakes :
      {q : BlockingWorkQueue T} (i : ℕ)
      → get_elem? q.dynamic_threads i ≡ some waiting
      → Step q [] (wake i q)
  quiesce_begins : {q : BlockingWorkQueue T} → Step q [] (record q { stop_waiting = true })
  quiesce_ends :
      {q : BlockingWorkQueue T}
      → q.num_dynamic_threads ≡ 0
      → Step q [] (record q { stop_waiting = false })

-- Steps in any order, with all tasks that they accept.
pub data Steps {T : Type 0} : BlockingWorkQueue T → List T → BlockingWorkQueue T → Type 0 where
  nothing_yet : {q : BlockingWorkQueue T} → Steps q [] q
  and_then :
      {q q' q'' : BlockingWorkQueue T} {ts us : List T}
      → Steps q ts q'
      → Step q' us q''
      → Steps q (us ++ ts) q''

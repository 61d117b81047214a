-- ===== src/Lib.antt =====
-- A verification library for async_lib, a C++ library of asynchronous tasks: work queues over
-- lock-free deques, an event count that parks their threads, asynchronous values with callbacks, and
-- executors of task and kernel graphs.
--
-- The parts and how they interact. A pool (NonBlockingWorkQueue, on WorkQueueBase) has one
-- TaskDeque for each worker thread. A worker takes tasks from the front of its own deque and
-- steals from the back of the others along a random walk (Steal, ComputeCoprimes); with nothing to
-- do it spins for a while and then waits on the EventCount. TaskGraphExecutor runs a graph of tasks
-- on such a pool: each node counts its dependencies down and becomes ready at zero. Blocking tasks
-- have a queue of their own (BlockingWorkQueue), which starts threads on demand. An AsyncValue runs its
-- callbacks when it becomes available, and an AsyncGraph of kernels names the values that its kernels
-- take and give; its kernels count their arguments down in the same way.
--
-- Where each part is modelled.
--   Base: names and lemmas that all share. A w-bit word is a native number with `% 2 ^ w` written
--     out (Base.Words), an array is a family `ℕ → A` (Base.Family).
--   Concurrent.TaskDeque, async/concurrent/task_deque.h: PushFront, PopFront, PushBack, PopBack,
--     PopBackHalf, Size, Empty, Flush are `push_front`, `pop_front` and so on. `mFront` and `mBack`
--     are packed 32-bit words, `mArray` is a family of slots with their states. `Inv` is the
--     well-formedness, `Spec` the bounded list, `Refine` and `Run` the refinement.
--   Concurrent.EventCount, async/concurrent/event_count.h: Prewait, CommitWait, CancelWait, Notify,
--     Unpark on the packed 64-bit word and the linked waiters. `Spec` has the stack of parked
--     waiters and two counters, `Represent` says how the word keeps them.
--   Concurrent.Coprimes, async/concurrent/work_queue_base.h: FastReduce, ComputeCoprimes and the
--     walk over the queues, with the number theory that it rests on.
--   Concurrent.WorkQueueBase, async/concurrent/work_queue_base.h: Steal, NonEmptyQueueIndex,
--     StartSpinning, StopSpinning, IsNotifyParkedThreadRequired. The derived class is the interface
--     `Derived`, what the search needs of it `DerivedLaws`.
--   Concurrent.Workers, async/concurrent/work_queue_base.h: WorkerLoop, WaitForWork, Cancel and the
--     destructor, with the pushes and notifications of AddTask in non_blocking_work_queue.h, as turns
--     of threads in any order (`Turn`, `Step`). A thread's place in the code is its `Stage`. The event
--     count is taken by its specification, `EventCount.Spec`, which EventCount refines. `Inv` has what
--     holds at every moment, `Busy`, `Loop`, `Waiting`, `Parking` and `Outside` one turn, `Rest` runs.
--   Concurrent.NonBlockingWorkQueue, async/concurrent/non_blocking_work_queue.h: AddTask, NextTask,
--     Steal and Empty over the deques, which fill that interface.
--   Concurrent.TaskQueue, async/concurrent/task_queue.h: PushFront, PopBack, Size, Empty on a ring of
--     slots with turn numbers. `none` is an operation that reloads its index for ever.
--   Concurrent.TaskPriorityDeque, async/concurrent/task_priority_queue.h: the same operations on a
--     ring for each of four priorities, whose indices share a 64-bit word (`index`, `with_index_ext`,
--     `inc` are those of PointerState). `Level` takes one priority for a TaskDeque and reuses its
--     theorems, `Refine` and `Run` have the refinement.
--   Concurrent.TaskPriorityLockDeque, the same file: the variant with four lists and a mutex.
--     `undefined` is the end of PopFront or PopBack without a return.
--   Concurrent.BlockingWorkQueue, async/concurrent/blocking_work_queue.h: RunBlockingTask, the loop of
--     a dynamic thread and WaitNextTask as steps that threads take in any order (`Step`).
--   Context.AsyncValue, async/context/async_value.{h,cpp}: AndThen, EnqueueWaiter, NotifyAvailable,
--     RunWaiters, ForwardTo, SetError, emplace, AddRef, DropRef and the readers, on a store of values.
--     RunWaiters with the calls that waiters make is one list of jobs, in depth-first order. `Inv` is
--     the well-formedness, `Moves`, `Forward` and `Steps` have each operation, `Run` and `Once` whole
--     runs.
--   Context.HostContext, async/context/host_context.{h,cpp}: RunWhenReady as the calls of AndThen that
--     it makes on that store, with the closures that count down; CancelExecution and Restart.
--   Context.ProfiledAllocator, async/context/profiled_allocator.cpp: AllocateBytes, DeallocateBytes and
--     the test of LeakCheckAllocator; the wrapped allocator is a pair of functions on a state.
--   Coroutine.SharedTask, async/coroutine/shared_task.h: await_ready, TryAwait and FinalAwaiter as
--     steps that the awaiters take in any order, one for each access to `mWaiters`.
--   Context.SingleThreadedWorkQueue, async/context/single_threaded_work_queue.cpp: AddTask,
--     AddBlockingTask, and the loops of Quiesce and Await over local vectors; `Fifo` has the queue that
--     runs one task at a time. `undefined` is an iterator past the end.
--   Support.Latch, async/support/latch.h: the word with the count and the bit for waiting threads.
--   Support.RefCount, async/support/ref_count.h: the counts of objects and the RCReference handles that
--     point to them, with the references that a program holds as plain pointers (`raw`).
--   Support.ConcurrentVector, async/support/concurrent_vector.h: State, emplace_back, operator[].
--   Runtime.AsyncGraph, async/runtime/graph.{h,cpp}: emplace and SubGraph; its child BuildGraph has
--     BuildGraph, the counts that GraphExecutor::Reset copies, and DecreaseReadyCountAndPush. A name is
--     a number, of which only equality counts.
--   Runtime.TaskGraph, async/runtime/task_graph.{h,cpp}: emplace, AddDependency, AddSuccessor,
--     BuildGraph, and the executor as jobs that take turns at shared memory in any order (`Step`).
--
-- Concurrency. A deque's operations and a pool's calls run whole, one after another. An operation
-- of the event count, or on the spinning state, is the one compare-exchange that it ends with, on
-- the word that it finds. The graph executor is interleaved: a turn of a job is one access to the
-- shared counters, and the next job to move is left open. The dynamic threads of the blocking queue
-- move in any order, and what one does while it holds the mutex is a step. So do the workers of a
-- pool, where the file names the few accesses that are one step together, and the awaiters of a shared
-- task, with a step for each access. A pool is cancelled only in the tests of the workers. A call on
-- asynchronous values runs whole, with the waiters that it wakes, and so does one of the profiled
-- allocator. Weak memory orders are not modelled.
--
-- Fuel. Unpark has 2 ^ 14 rounds, more than there can be waiters; the loop for the greatest common
-- divisor has one more than its second argument, which falls in every round; Flush and PopBackHalf
-- have fuel as an argument, with a bound that is enough, and so have RunWaiters and SubGraph. The
-- single-threaded queue runs tasks that may add tasks for ever; its loops have a bound, and what is
-- proved of them is an equivalence with the same bound, or for all. The
-- other loops have as many rounds as the source gives them.
--
-- Not modelled: the bodies of tasks, kernels and callbacks, which are opaque; the state of each
-- thread's random generator, whose draws are arguments; threads and condition variables, so the wait
-- of Quiesce for all workers, and the join of the destructor; EnqueueBlockingTask; that a freed
-- asynchronous value is never read; the executor of kernel graphs beyond its countdown, with the
-- input and output of graphs; destructors that themselves change handles; the other coroutine types
-- and the reference counts of their handles; the other support templates.
pub mod Base
pub mod Concurrent
pub mod Context
pub mod Coroutine
pub mod Runtime
pub mod Support

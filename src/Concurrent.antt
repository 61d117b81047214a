-- ===== src/Concurrent.antt =====
-- async/concurrent: the queues, the event count and the work queue that stands on them.
pub mod NonBlockingWorkQueue
pub mod Workers
pub mod TaskDeque
pub mod BlockingWorkQueue
pub mod TaskPriorityDeque
pub mod TaskPriorityLockDeque
pub mod TaskQueue
pub mod WorkQueueBase
pub mod Coprimes
pub mod EventCount

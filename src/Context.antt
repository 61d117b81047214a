-- ===== src/Context.antt =====
-- async/context: asynchronous values, the host context, and what it stands on.
pub mod AsyncValue
pub mod HostContext
pub mod SingleThreadedWorkQueue
pub mod ProfiledAllocator

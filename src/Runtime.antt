-- ===== src/Runtime.antt =====
-- async/runtime: graphs of tasks and their executors.
pub mod TaskGraph
pub mod AsyncGraph

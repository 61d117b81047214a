-- ===== src/Coroutine.antt =====
-- async/coroutine: tasks as coroutines.
pub mod SharedTask

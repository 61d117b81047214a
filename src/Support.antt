-- ===== src/Support.antt =====
-- async/support: what the other parts stand on.
pub mod ConcurrentVector
pub mod Latch
pub mod RefCount

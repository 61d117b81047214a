-- ===== src/Concurrent/TaskPriorityDeque/Fields.antt =====
-- What the changes of a word do to the indices in it.
use async_lib.Base.{ℕ, ◌+◌, ◌%◌, ◌^◌, ◌<◌, ◌≡◌, false, arith}
use async_lib.Concurrent.TaskPriorityDeque.{
  TaskPriority, critical, high, default, low, same_priority, index_ext, with_index_ext, inc,
}

-- Stepping one index.
pub inc-same : (p : TaskPriority) (s : ℕ) → index_ext p (inc p s) ≡ (index_ext p s + 1) % 2 ^ 11
inc-same critical s = omega arith
inc-same high s = omega arith
inc-same default s = omega arith
inc-same low s = omega arith

pub inc-other :
    (p p' : TaskPriority) (s : ℕ)
    → same_priority p p' ≡ false
    → index_ext p' (inc p s) ≡ index_ext p' s
inc-other critical critical s h = cc
inc-other critical high s h = omega arith
inc-other critical default s h = omega arith
inc-other critical low s h = omega arith
inc-other high critical s h = omega arith
inc-other high high s h = cc
inc-other high default s h = omega arith
inc-other high low s h = omega arith
inc-other default critical s h = omega arith
inc-other default high s h = omega arith
inc-other default default s h = cc
inc-other default low s h = omega arith
inc-other low critical s h = omega arith
inc-other low high s h = omega arith
inc-other low default s h = omega arith
inc-other low low s h = cc

pub with_index_ext-same :
    (i : ℕ) (p : TaskPriority) (s : ℕ) → i < 2 ^ 11 → index_ext p (with_index_ext i p s) ≡ i
with_index_ext-same i critical s h = omega arith
with_index_ext-same i high s h = omega arith
with_index_ext-same i default s h = omega arith
with_index_ext-same i low s h = omega arith

pub with_index_ext-other :
    (i : ℕ) (p p' : TaskPriority) (s : ℕ)
    → i < 2 ^ 11
    → same_priority p p' ≡ false
    → index_ext p' (with_index_ext i p s) ≡ index_ext p' s
with_index_ext-other i critical critical s b h = cc
with_index_ext-other i critical high s b h = omega arith
with_index_ext-other i critical default s b h = omega arith
with_index_ext-other i critical low s b h = omega arith
with_index_ext-other i high critical s b h = omega arith
with_index_ext-other i high high s b h = cc
with_index_ext-other i high default s b h = omega arith
with_index_ext-other i high low s b h = omega arith
with_index_ext-other i default critical s b h = omega arith
with_index_ext-other i default high s b h = omega arith
with_index_ext-other i default default s b h = cc
with_index_ext-other i default low s b h = omega arith
with_index_ext-other i low critical s b h = omega arith
with_index_ext-other i low high s b h = omega arith
with_index_ext-other i low default s b h = omega arith
with_index_ext-other i low low s b h = cc

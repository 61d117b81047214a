-- ===== src/Runtime/TaskGraph/Finish.antt =====
-- When the finish chain is made available, and how many references the executor has.
use async_lib.Base.{ℕ, ◌≤◌, ◌<◌, ◌≡◌, arith, length}
use async_lib.Runtime.TaskGraph.{TaskGraph, System, Reach}
use async_lib.Base.Words.{u32}
use async_lib.Runtime.TaskGraph.Counting.{count, total-count, total_full}
use async_lib.Runtime.TaskGraph.Inv.{IsBuilt, Inv}
use async_lib.Runtime.TaskGraph.Moves.{Reach-Inv, count-log-le, length-log-le}

-- If no task is left to count, every node of the graph has run.
pub all_run :
    {g : TaskGraph} (b : IsBuilt g) {s : System} (v : Inv g s)
    → s.mem.total_task_count ≡ 0
    → (n : ℕ) → n < g.size
    → count n s.mem.log ≡ 1
all_run {g} b {s} v done n h =
    total_full g.size (λ i. count i s.mem.log) (count-log-le b v)
      (omega (
        arith,
        v.total,
        length-log-le b v,
        total-count g.size s.mem.log (λ i hi. ground (arith, v.tokens i)),
      ))
      n h

-- The finish chain is emplaced at most once, in a graph with no node never, and when it has been
-- emplaced every node has run once.
pub finish_once :
    (g : TaskGraph) (s : System)
    → IsBuilt g
    → Reach g s
    → (s.mem.finished ≤ 1)
      × (g.size ≡ 0 → s.mem.finished ≡ 0)
      × (0 < s.mem.finished → (n : ℕ) → n < g.size → count n s.mem.log ≡ 1)
finish_once g s b r =
    let v = Reach-Inv b r in
    (
      ground (arith, v.finish),
      (λ none. ground (arith, v.finish)),
      (λ done. all_run b v (ground (arith, v.finish))),
    )

-- Every live job holds one reference to the executor, and nothing else does (modulo 2 ^ 32).
pub refs_live :
    (g : TaskGraph) (s : System) → IsBuilt g → Reach g s → s.mem.refs ≡ u32 (length s.jobs)
refs_live g s b r = (Reach-Inv b r).refs

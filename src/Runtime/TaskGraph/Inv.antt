-- ===== src/Runtime/TaskGraph/Inv.antt =====
-- What holds between the executor's counters and its jobs at every moment of a run.
use async_lib.Base.{ℕ, ◌+◌, ◌^◌, ◌≤◌, ◌<◌, ◌≡◌, [], ◌∷◌, length, ltb, ◌==◌, if◌then◌else◌, ◌&&◌}
use async_lib.Base.Words.{u32}
use async_lib.Runtime.TaskGraph.{
  TaskGraph, Job, waiting, entry, ran, releasing, System, deps, succs,
}
use async_lib.Runtime.TaskGraph.Counting.{count, waits}
use async_lib.Base.Sums.{weigh}

-- Edges are noted at both ends, nodes beyond the last have none, and the counts are built.
pub record IsBuilt (g : TaskGraph) : Type 0 where
  pub mirror : (d s : ℕ) → count s (succs g d) ≡ count d (deps g s)
  pub no_deps : (s : ℕ) → g.size ≤ s → deps g s ≡ []
  pub in_range : (d s : ℕ) → g.size ≤ d → count d (deps g s) ≡ 0
  pub counted : (s : ℕ) → g.node_count_info s ≡ length (deps g s)
  pub few : g.size < 2 ^ 31
  pub few_deps : (s : ℕ) → length (deps g s) < 2 ^ 31

-- Notices that a job still owes to node `s`.
abbrev pub owed : TaskGraph → ℕ → Job → ℕ
owed g s (ran k) = count s (succs g k)
owed g s (releasing c left ready) = count s left
owed g s _ = 0

-- Places at which a job holds node `s`, ready to be run.
abbrev pub held : ℕ → Job → ℕ
held s (waiting ready) = count s ready
held s (entry k) = count s (k ∷ [])
held s (releasing c left ready) = count s ready
held s (ran k) = 0

-- A job that has run a node and not yet counted it.
abbrev pub uncounted : Job → ℕ
uncounted (ran k) = 1
uncounted _ = 0

-- A job that found the last task and has not yet finished the chain.
abbrev pub found_last : Job → ℕ
found_last (releasing c left ready) = if c == 1 then 1 else 0
found_last _ = 0

pub record Inv (g : TaskGraph) (s : System) : Type 0 where
  -- A node waits for its dependencies that have not run, and for the notices still owed to it.
  pub counts :
      (n : ℕ) → s.mem.node_count_info n ≡ waits (deps g n) s.mem.log + weigh (owed g n) s.jobs
  -- A node whose count is 0 is held by one job or has run once; any other is nowhere.
  pub tokens :
      (n : ℕ)
      → weigh (held n) s.jobs + count n s.mem.log
        ≡ (if ltb n g.size && s.mem.node_count_info n == 0 then 1 else 0)
  pub outside : (n : ℕ) → g.size ≤ n → s.mem.node_count_info n ≡ 0
  pub small : (n : ℕ) → s.mem.node_count_info n < 2 ^ 31
  pub total : s.mem.total_task_count + length s.mem.log ≡ g.size + weigh uncounted s.jobs
  pub total_small : s.mem.total_task_count < 2 ^ 31
  pub finish :
      s.mem.finished + weigh found_last s.jobs + (if s.mem.total_task_count == 0 then 0 else 1)
      ≡ (if g.size == 0 then 0 else 1)
  pub refs : s.mem.refs ≡ u32 (length s.jobs)

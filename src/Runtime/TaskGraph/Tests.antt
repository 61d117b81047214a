-- ===== src/Runtime/TaskGraph/Tests.antt =====
-- Runs of the task graph on a chain of two nodes and on a graph with none.
use async_lib.Base.{ℕ, zero, suc, ◌+◌, ◌≡◌, ◌<◌, ◌≤◌, refl, some, List, [], ◌∷◌, arith}
use async_lib.Runtime.TaskGraph.{
  TaskGraph, new_graph, emplace, add_dependency, build_graph, Job, waiting, System, advance, turn,
  start, start_nodes, new_executor, Reach, begin, later,
}
use async_lib.Runtime.TaskGraph.Counting.{count}
use async_lib.Runtime.TaskGraph.Build.{
  IsWired, new_graph-IsWired, emplace-IsWired, add_dependency-IsWired, build_graph-IsBuilt,
}
use async_lib.Runtime.TaskGraph.Inv.{IsBuilt}
use async_lib.Runtime.TaskGraph.Order.{InOrder, runs-InOrder}
use async_lib.Runtime.TaskGraph.Finish.{finish_once}
use async_lib.Runtime.TaskGraph.Progress.{
  IsAcyclic, idle_all_run, measure, Step-measure, drain, first_turn, execute_complete,
}

-- Node 1 depends on node 0.
wired : TaskGraph
wired = add_dependency 1 0 (emplace (emplace new_graph))

wired-IsWired : IsWired wired
unfolding wired emplace new_graph
wired-IsWired =
    add_dependency-IsWired 1 0 _ (omega arith) (omega arith)
      (emplace-IsWired _ (emplace-IsWired _ new_graph-IsWired))

chain : TaskGraph
chain = build_graph wired

chain-IsBuilt : IsBuilt chain
unfolding chain wired emplace new_graph add_dependency
chain-IsBuilt = build_graph-IsBuilt wired wired-IsWired (omega arith) (λ s. ground arith)

chain-IsAcyclic : IsAcyclic chain (λ n. n)
unfolding chain wired emplace new_graph add_dependency build_graph
chain-IsAcyclic d n h = ground arith

pub record Run (g : TaskGraph) : Type 0 where
  pub last : System
  pub reach : Reach g last

-- The first job takes its turn.
next : {g : TaskGraph} → Run g → Run g
next {g} r = go r.last.jobs refl
  where
    go : (l : List Job) → r.last.jobs ≡ l → Run g
    go [] e = r
    go (j ∷ js) e = record { last = _; reach = later r.reach (turn [] js j e) }

run : {g : TaskGraph} → ℕ → Run g
unfolding next
run zero = record { last = _; reach = begin }
run (suc n) = next (run n)

chain_idle : (run {g = chain} 11).last.jobs ≡ []
unfolding run chain build_graph wired emplace new_graph add_dependency start start_nodes advance
    new_executor
chain_idle = refl

-- The run of the chain to its end.
ended : System
ended = (run {g = chain} 11).last

ended-Reach : Reach chain ended
unfolding ended
ended-Reach = (run {g = chain} 11).reach

ended_log : (ended.mem.log ≡ 1 ∷ 0 ∷ []) × (ended.mem.finished ≡ 1) × (ended.mem.refs ≡ 0)
unfolding ended run chain build_graph wired emplace new_graph add_dependency start start_nodes
    advance new_executor
ended_log = (refl, refl, refl)

empty_graph-IsBuilt : IsBuilt (build_graph new_graph)
unfolding new_graph
empty_graph-IsBuilt =
    build_graph-IsBuilt new_graph new_graph-IsWired (omega arith) (λ s. omega arith)

runs-InOrder_example :
    ((n : ℕ) → count n ended.mem.log ≤ 1)
    × ((n : ℕ) → chain.size ≤ n → count n ended.mem.log ≡ 0)
    × InOrder chain ended.mem.log
runs-InOrder_example = runs-InOrder chain ended chain-IsBuilt ended-Reach

finish_once_example :
    (ended.mem.finished ≤ 1)
    × (chain.size ≡ 0 → ended.mem.finished ≡ 0)
    × (0 < ended.mem.finished → (n : ℕ) → n < chain.size → count n ended.mem.log ≡ 1)
finish_once_example = finish_once chain ended chain-IsBuilt ended-Reach

idle_all_run_example :
    ((n : ℕ) → n < chain.size → count n ended.mem.log ≡ 1)
    × (0 < chain.size → ended.mem.finished ≡ 1)
unfolding ended
idle_all_run_example =
    idle_all_run chain (λ n. n) ended chain-IsBuilt chain-IsAcyclic ended-Reach chain_idle

Step-measure_example :
    measure chain (first_turn chain (start chain).mem (start chain).jobs)
    < measure chain (start chain)
unfolding chain build_graph wired emplace new_graph add_dependency start start_nodes new_executor
    first_turn
Step-measure_example =
    Step-measure chain (start chain) _ chain-IsBuilt begin (turn [] [] (waiting (0 ∷ [])) refl)

execute_complete_example :
    (t : System) × (drain chain (measure chain (start chain) + 1) (start chain) ≡ some t)
    × ((n : ℕ) → n < chain.size → count n t.mem.log ≡ 1)
    × InOrder chain t.mem.log
    × (0 < chain.size → t.mem.finished ≡ 1)
execute_complete_example =
    execute_complete chain (λ n. n) (measure chain (start chain) + 1) chain-IsBuilt chain-IsAcyclic
      (omega arith)

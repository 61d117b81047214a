-- ===== src/Runtime/TaskGraph.antt =====
-- async/runtime/task_graph.{h,cpp}: a graph of tasks, and the executor that runs it on a pool.
-- A `TaskNode *` is the node's place in `mTaskNodes`, so `mNodeIndexInfo` is the identity. A node's
-- compute function is opaque: the model logs that it has run. Jobs of the pool take turns at the
-- accesses to shared memory; which one moves next is left open.
pub mod Counting
pub mod Build
pub mod Inv
pub mod Moves
pub mod Order
pub mod Finish
pub mod Progress
mod Tests
use async_lib.Base.{ℕ, zero, suc, ◌+◌, ◌≡◌, List, [], ◌∷◌, ◌++◌, length, ◌==◌, if◌then◌else◌}
use async_lib.Base.Words.{u32, sub32}
use async_lib.Base.Family.{update}

pub record TaskNode : Type 0 where
  pub dependencies : List ℕ
  pub successors : List ℕ

pub record TaskGraph : Type 0 where
  pub size : ℕ
  pub node : ℕ → TaskNode
  pub node_count_info : ℕ → ℕ

abbrev pub deps : TaskGraph → ℕ → List ℕ
deps g i = (g.node i).dependencies

abbrev pub succs : TaskGraph → ℕ → List ℕ
succs g i = (g.node i).successors

pub new_graph : TaskGraph
new_graph = record {
  size = 0;
  node = λ _. record { dependencies = []; successors = [] };
  node_count_info = λ _. 0;
}

-- The new node is the last one.
pub emplace : TaskGraph → TaskGraph
emplace g = record g {
  size = g.size + 1;
  node = update g.node g.size (record { dependencies = []; successors = [] });
}

push_successor : ℕ → ℕ → TaskGraph → TaskGraph
push_successor i s g = record g {
  node = update g.node i (record { dependencies = deps g i; successors = succs g i ++ s ∷ [] });
}

push_dependency : ℕ → ℕ → TaskGraph → TaskGraph
push_dependency i d g = record g {
  node = update g.node i (record { dependencies = deps g i ++ d ∷ []; successors = succs g i });
}

-- `this->AddDependency(node)` and `this->AddSuccessor(node)`.
pub add_dependency : ℕ → ℕ → TaskGraph → TaskGraph
unfolding push_successor push_dependency
add_dependency this node g = push_dependency this node (push_successor node this g)

pub add_successor : ℕ → ℕ → TaskGraph → TaskGraph
unfolding push_successor push_dependency
add_successor this node g = push_dependency node this (push_successor this node g)

-- BuildGraph: `for (i = 0; i < e; ++i)`, with the rounds left.
build_from : ℕ → ℕ → TaskGraph → TaskGraph
build_from zero i g = g
build_from (suc left) i g =
    build_from left (i + 1)
      (record g { node_count_info = update g.node_count_info i (length (deps g i)) })

pub build_graph : TaskGraph → TaskGraph
unfolding build_from
build_graph g = build_from g.size 0 g

-- The executor's shared memory. `log` holds the nodes whose function has run, the last first, and
-- `finished` counts the calls of `mFinishChain->emplace`.
pub record Executor : Type 0 where
  pub node_count_info : ℕ → ℕ
  pub total_task_count : ℕ
  pub finished : ℕ
  pub refs : ℕ
  pub log : List ℕ

-- A call of ProcessReadyNodeIndexs: at the head of its loop, about to run a node, back from the
-- node's function, or giving its successors notice, with the total count it found, the successors
-- still to come, and the vector of ready nodes.
pub data Job : Type 0 where
  waiting : (ready : List ℕ) → Job
  entry : (k : ℕ) → Job
  ran : (k : ℕ) → Job
  releasing : (count : ℕ) (left ready : List ℕ) → Job

pub record System : Type 0 where
  pub mem : Executor
  pub jobs : List Job

-- One turn of a job: the memory after it, and the jobs that stand in the job's place.
pub advance : TaskGraph → Executor → Job → Executor × List Job
advance g e (waiting []) = (record e { refs = sub32 e.refs 1 }, [])
advance g e (waiting (k ∷ [])) = (e, entry k ∷ [])
advance g e (waiting (k ∷ r ∷ rest)) =
    (record e { refs = u32 (e.refs + 1) }, waiting (k ∷ rest) ∷ waiting (r ∷ []) ∷ [])
advance g e (entry k) = (record e { log = k ∷ e.log }, ran k ∷ [])
advance g e (ran k) = (
  record e { total_task_count = sub32 e.total_task_count 1 },
  releasing e.total_task_count (succs g k) [] ∷ [],
)
advance g e (releasing count (s ∷ left) ready) = (
  record e { node_count_info = update e.node_count_info s (sub32 (e.node_count_info s) 1) },
  releasing count left (if e.node_count_info s == 1 then ready ++ s ∷ [] else ready) ∷ [],
)
advance g e (releasing count [] ready) =
    (if count == 1 then record e { finished = e.finished + 1 } else e, waiting ready ∷ [])

pub data Step (g : TaskGraph) (s : System) : System → Type 0 where
  turn :
      (xs ys : List Job) (j : Job)
      → s.jobs ≡ xs ++ (j ∷ ys)
      → Step g s
          (record { mem = (advance g s.mem j).0; jobs = xs ++ ((advance g s.mem j).1 ++ ys) })

-- ProcessStartNodeIndex over the nodes from `i` on: those with no dependency.
start_from : TaskGraph → ℕ → ℕ → List ℕ
start_from g zero i = []
start_from g (suc left) i =
    let rest = start_from g left (i + 1) in if length (deps g i) == 0 then i ∷ rest else rest

pub start_nodes : TaskGraph → List ℕ
unfolding start_from
start_nodes g = start_from g g.size 0

-- The constructor of the executor, with the one reference of the call of `Execute`.
pub new_executor : TaskGraph → Executor
new_executor g = record {
  node_count_info = g.node_count_info;
  total_task_count = g.size;
  finished = 0;
  refs = 1;
  log = [];
}

pub start : TaskGraph → System
unfolding new_executor
start g = record { mem = new_executor g; jobs = waiting (start_nodes g) ∷ [] }

pub data Reach (g : TaskGraph) : System → Type 0 where
  begin : Reach g (start g)
  later : {s t : System} → Reach g s → Step g s t → Reach g t

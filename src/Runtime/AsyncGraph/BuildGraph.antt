-- ===== src/Runtime/AsyncGraph/BuildGraph.antt =====
-- async/runtime/graph.cpp: BuildGraph, and the countdown of the arguments that a kernel waits for.
pub mod Users
pub mod Countdown
pub mod Ready
mod Tests
use async_lib.Base.{
  ℕ, zero, suc, ◌+◌, ◌-◌, Bool, true, false, Option, none, some, List, [], ◌∷◌, ◌++◌, length,
  get_elem?, mem, ltb, ◌==◌, if◌then◌else◌, max,
}
use async_lib.Base.Words.{sub32}
use async_lib.Base.Family.{update}
use async_lib.Runtime.AsyncGraph.{AsyncNode, AsyncGraph}

-- The maps that the first loop fills: `arg_count` and `res_count` are 0 at a name that they miss.
-- `used_by` has the `std::set` of the nodes in ascending order.
pub record Pass : Type 0 where
  pub start_id : ℕ
  pub arg_count : ℕ → ℕ
  pub res_count : ℕ → ℕ
  pub index : ℕ → Option ℕ
  pub used_by : ℕ → List ℕ
  pub node_id : ℕ → Option ℕ

abbrev pub no_names : Pass
no_names = record {
  start_id = 0;
  arg_count = λ _. 0;
  res_count = λ _. 0;
  index = λ _. none;
  used_by = λ _. [];
  node_id = λ _. none;
}

abbrev pub insert : ℕ → List ℕ → List ℕ
insert k [] = k ∷ []
insert k (j ∷ js) =
    let rest = insert k js in if k == j then j ∷ js else if ltb k j then k ∷ j ∷ js else j ∷ rest

-- The two parts of ProcessNameAndRefCount.
abbrev pub count_name : ℕ → (ℕ → ℕ) → ℕ → ℕ
count_name x counts = update counts x (counts x + 1)

abbrev pub index_name : ℕ → Pass → Pass
index_name x p = elim (p.index x) [
  | some i ↦ p
  | none ↦ record p { index = update p.index x (some p.start_id); start_id = p.start_id + 1 }
]

abbrev pub process_input : ℕ → ℕ → Pass → Pass
process_input k x p =
    let q = index_name x p in
    record q {
      arg_count = count_name x p.arg_count;
      used_by = update p.used_by x (insert k (p.used_by x));
    }

abbrev pub process_output : ℕ → ℕ → Pass → Pass
process_output k x p =
    let q = index_name x p in
    record q { res_count = count_name x p.res_count; node_id = update p.node_id x (some k) }

abbrev pub process_inputs : ℕ → List ℕ → Pass → Pass
process_inputs k [] p = p
process_inputs k (x ∷ xs) p = process_inputs k xs (process_input k x p)

abbrev pub process_outputs : ℕ → List ℕ → Pass → Pass
process_outputs k [] p = p
process_outputs k (x ∷ xs) p = process_outputs k xs (process_output k x p)

-- The first loop, from node `k`.
abbrev pub process_nodes : ℕ → List AsyncNode → Pass → Pass
process_nodes k [] p = p
process_nodes k (n ∷ ns) p =
    process_nodes (suc k) ns (process_outputs k n.output_names (process_inputs k n.input_names p))

abbrev pub num_inputs : List AsyncNode → ℕ → ℕ
num_inputs nodes i = elim (get_elem? nodes i) [ none ↦ 0 | some n ↦ length n.input_names ]

-- The second loop, for `mArgumentsNotReady`, and its inner one over the results of a node.
abbrev pub set_not_ready : List AsyncNode → Pass → List ℕ → (ℕ → ℕ) → ℕ → ℕ
set_not_ready nodes p [] counts = counts
set_not_ready nodes p (x ∷ xs) counts =
    set_not_ready nodes p xs
      (elim (p.node_id x) [ none ↦ counts | some k ↦ update counts k (num_inputs nodes k) ])

abbrev pub not_ready_from : List AsyncNode → Pass → List AsyncNode → (ℕ → ℕ) → ℕ → ℕ
not_ready_from nodes p [] counts = counts
not_ready_from nodes p (n ∷ ns) counts =
    not_ready_from nodes p ns (set_not_ready nodes p n.output_names counts)

-- What BuildGraph leaves, but for the names of the outputs: `used_by` stands for the result tables, which list it for each result.
pub record Built : Type 0 where
  pub used_by : ℕ → List ℕ
  pub arguments_not_ready : ℕ → ℕ
  pub index : ℕ → Option ℕ
  pub num_values : ℕ
  pub user_count : ℕ → ℕ

unfoldable pub build_graph : AsyncGraph → Built
build_graph graph =
    let nodes = graph.async_nodes in
    let p = process_nodes 0 nodes no_names in
    record {
      used_by = p.used_by;
      arguments_not_ready = not_ready_from nodes p nodes (λ _. 0);
      index = p.index;
      num_values = p.start_id;
      user_count = λ x. sub32 (p.arg_count x + p.res_count x) 1;
    }

-- The counts that GraphExecutor::Reset starts from.
unfoldable pub reset : Built → ℕ → ℕ
reset b k = max 1 (b.arguments_not_ready k)

-- DecreaseReadyCountAndPush, with the counts as words of 32 bits.
abbrev pub decrease_ready_count_and_push : List ℕ → (ℕ → ℕ) × List ℕ → (ℕ → ℕ) × List ℕ
decrease_ready_count_and_push [] s = s
decrease_ready_count_and_push (u ∷ us) (counts, ready) =
    decrease_ready_count_and_push us
      (update counts u (sub32 (counts u) 1), if counts u == 1 then ready ++ u ∷ [] else ready)

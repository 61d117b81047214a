-- ===== src/Runtime/AsyncGraph.antt =====
-- async/runtime/graph.{h,cpp}: a graph of kernels that name their arguments and results, and its
-- part that some results need. Names are numbers: only their equality counts.
pub mod Walk
pub mod Owner
pub mod SubGraph
pub mod BuildGraph
mod Tests
use async_lib.Base.{
  ℕ, zero, suc, ◌+◌, Bool, true, false, Option, none, some, List, [], ◌∷◌, ◌++◌, length, get_elem?,
  mem,
}
use async_lib.Base.Family.{update}

-- The kernel function is opaque, and so is its name.
pub record AsyncNode : Type 0 where
  pub func : ℕ
  pub func_name : ℕ
  pub input_names : List ℕ
  pub output_names : List ℕ

-- `mAsyncNodes`. A pointer to a node is its position.
pub record AsyncGraph : Type 0 where
  pub async_nodes : List AsyncNode

abbrev pub empty_graph : AsyncGraph
empty_graph = record { async_nodes = [] }

unfoldable pub emplace : List ℕ → List ℕ → ℕ → ℕ → AsyncGraph → AsyncGraph
emplace inputs outputs fn name graph = record {
  async_nodes =
      graph.async_nodes
      ++ record { func = fn; func_name = name; input_names = inputs; output_names = outputs } ∷ [];
}

-- `nameNodeMap`: a name belongs to the last node that puts it out.
abbrev pub name_outputs : ℕ → List ℕ → (ℕ → Option ℕ) → ℕ → Option ℕ
name_outputs i [] m = m
name_outputs i (x ∷ xs) m = name_outputs i xs (update m x (some i))

abbrev pub name_nodes : ℕ → List AsyncNode → (ℕ → Option ℕ) → ℕ → Option ℕ
name_nodes i [] m = m
name_nodes i (n ∷ ns) m = name_nodes (suc i) ns (name_outputs i n.output_names m)

-- The loop over `queuedNames`, on fuel, with `traveledNodes`, the latest first. `none` is a null
-- pointer, where no node puts a name out, or fuel that ran out.
module _ (nodes : List AsyncNode) (m : ℕ → Option ℕ) where
  unfoldable pub travel : ℕ → List ℕ → List ℕ → AsyncGraph → Option (List ℕ × AsyncGraph)
  unfolding emplace
  travel zero queue traveled graph = none
  travel (suc fuel) [] traveled graph = some (traveled, graph)
  travel (suc fuel) (name ∷ queue) traveled graph = elim (m name) [
    | none ↦ none
    | some i ↦ elim (mem i traveled) [
      | true ↦ travel fuel queue traveled graph
      | false ↦ elim (get_elem? nodes i) [
        | none ↦ none
        | some n ↦
            travel fuel (queue ++ n.input_names) (i ∷ traveled)
              (emplace n.input_names n.output_names n.func n.func_name graph)
      ]
    ]
  ]

abbrev pub part_of : Option (List ℕ × AsyncGraph) → Option AsyncGraph
part_of none = none
part_of (some (traveled, part)) = some part

unfoldable pub sub_graph : ℕ → List ℕ → AsyncGraph → Option AsyncGraph
sub_graph fuel outputs graph = part_of (
    travel graph.async_nodes (name_nodes 0 graph.async_nodes (λ _. none)) fuel outputs []
      empty_graph)

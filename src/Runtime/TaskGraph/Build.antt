-- ===== src/Runtime/TaskGraph/Build.antt =====
-- Building a graph: emplace, AddDependency, AddSuccessor and BuildGraph.
use async_lib.Base.{
  dec_lt, ◌∙◌, ℕ, zero, suc, ◌+◌, ◌^◌, ◌≤◌, ◌<◌, ◌≡◌, refl, ap, [], ◌∷◌, arith, length, ltb, ◌==◌,
  if◌then◌else◌, ◌&&◌, leb,
}
use async_lib.Runtime.TaskGraph.{
  TaskGraph, TaskNode, deps, succs, new_graph, emplace, add_dependency, add_successor, build_graph,
  build_from,
}
use async_lib.Runtime.TaskGraph.Counting.{count, count-append}
use async_lib.Runtime.TaskGraph.Inv.{IsBuilt}

-- Every edge is noted at both of its ends, as often, and only between nodes of the graph.
pub record IsWired (g : TaskGraph) : Type 0 where
  pub mirror : (d s : ℕ) → count s (succs g d) ≡ count d (deps g s)
  pub no_deps : (s : ℕ) → g.size ≤ s → deps g s ≡ []
  pub in_range : (d s : ℕ) → g.size ≤ d → count d (deps g s) ≡ 0
  pub no_count : (s : ℕ) → g.size ≤ s → g.node_count_info s ≡ 0

pub new_graph-IsWired : IsWired new_graph
unfolding new_graph
new_graph-IsWired = record {
  mirror = λ d s. refl;
  no_deps = λ s h. refl;
  in_range = λ d s h. refl;
  no_count = λ s h. refl;
}

pub emplace-IsWired : (g : TaskGraph) → IsWired g → IsWired (emplace g)
unfolding emplace
emplace-IsWired g w = record {
  mirror = λ d s. ground (
    arith,
    w.mirror d s,
    w.mirror d g.size,
    w.mirror g.size s,
    w.in_range g.size s,
    w.no_deps g.size,
    w.in_range d g.size,
  );
  no_deps = λ s h. ground (arith, w.no_deps s);
  in_range = λ d s h. ground (arith, w.in_range d s);
  no_count = λ s h. w.no_count s (omega arith);
}

pub add_dependency-IsWired :
    (this node : ℕ) (g : TaskGraph)
    → this < g.size
    → node < g.size
    → IsWired g
    → IsWired (add_dependency this node g)
unfolding add_dependency
add_dependency-IsWired this node g ht hn w = record {
  mirror = λ d s. ground (
    arith,
    w.mirror d s,
    count-append s (succs g d) (this ∷ []),
    count-append d (deps g s) (node ∷ []),
  );
  no_deps = λ s h. ground (arith, w.no_deps s);
  in_range = λ d s h. ground (arith, w.in_range d s, count-append d (deps g s) (node ∷ []));
  no_count = λ s h. w.no_count s h;
}

-- AddSuccessor notes the edge that AddDependency notes with the nodes exchanged.
add_successor-eq :
    (this node : ℕ) (g : TaskGraph) → add_successor this node g ≡ add_dependency node this g
unfolding add_successor add_dependency
add_successor-eq this node g = refl

-- The calls that build a graph keep every edge noted at both ends.
pub calls-IsWired :
    (this node : ℕ) (g : TaskGraph)
    → this < g.size
    → node < g.size
    → IsWired g
    → IsWired (emplace g)
      × IsWired (add_dependency this node g)
      × IsWired (add_successor this node g)
calls-IsWired this node g ht hn w = (
  emplace-IsWired g w,
  add_dependency-IsWired this node g ht hn w,
  rw (add_successor-eq this node g) (add_dependency-IsWired node this g hn ht w),
)

build_from-count :
    (left i : ℕ) (g : TaskGraph) (s : ℕ)
    → (build_from left i g).node_count_info s
      ≡ (if leb i s && ltb s (i + left) then length (deps g s) else g.node_count_info s)
unfolding build_from
build_from-count zero i g s = ground arith
build_from-count (suc left) i g s = ground (
  arith,
  build_from-count left (i + 1)
      (record g {
        node_count_info = λ j. if i == j then length (deps g i) else g.node_count_info j;
      })
      s,
)

build_from-same :
    (left i : ℕ) (g : TaskGraph)
    → ((build_from left i g).size ≡ g.size) × ((build_from left i g).node ≡ g.node)
unfolding build_from
build_from-same zero i g = (refl, refl)
build_from-same (suc left) i g = build_from-same left (i + 1) _

-- BuildGraph gives a wired graph with fewer than 2 ^ 31 nodes, and as few dependencies at each, the
-- counts that its executor starts from.
pub build_graph-IsBuilt :
    (g : TaskGraph)
    → IsWired g
    → g.size < 2 ^ 31
    → ((s : ℕ) → length (deps g s) < 2 ^ 31)
    → IsBuilt (build_graph g)
unfolding build_graph
build_graph-IsBuilt g w few few_deps = record {
  mirror = λ d s. rw (same_succs d, same_deps s) (w.mirror d s);
  no_deps = λ s h. same_deps s ∙ w.no_deps s (rw (← size_same) h);
  in_range = λ d s h. rw (same_deps s) (w.in_range d s (rw (← size_same) h));
  counted = λ s. rw (same_deps s) (count_built s);
  few = rw (size_same) few;
  few_deps = λ s. rw (same_deps s) (few_deps s);
}
  where
    size_same : (build_from g.size 0 g).size ≡ g.size
    size_same = (build_from-same g.size 0 g).0

    same_deps : (s : ℕ) → deps (build_from g.size 0 g) s ≡ deps g s
    same_deps s = ap (λ f. TaskNode.dependencies (f s)) (build_from-same g.size 0 g).1

    same_succs : (s : ℕ) → succs (build_from g.size 0 g) s ≡ succs g s
    same_succs s = ap (λ f. TaskNode.successors (f s)) (build_from-same g.size 0 g).1

    count_built : (s : ℕ) → (build_from g.size 0 g).node_count_info s ≡ length (deps g s)
    count_built s = elim (dec_lt s g.size) [
      | yes h ↦ ground (arith, build_from-count g.size 0 g s)
      | no h ↦ ground (
        arith,
        build_from-count g.size 0 g s,
        w.no_count s (omega arith),
        ap length (w.no_deps s (omega arith)),
      )
    ]

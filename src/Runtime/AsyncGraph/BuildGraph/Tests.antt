-- ===== src/Runtime/AsyncGraph/BuildGraph/Tests.antt =====
-- Concrete graphs: kernel 1 takes 10 and 11 from kernel 0, and kernel 2 takes 10 twice.
use async_lib.Base.{ℕ, ◌≡◌, ◌≢◌, refl, arith, some, List, [], ◌∷◌, if◌then◌else◌}
use async_lib.Runtime.AsyncGraph.{AsyncNode, AsyncGraph}
use async_lib.Runtime.AsyncGraph.Owner.{owner}
use async_lib.Runtime.AsyncGraph.BuildGraph.{build_graph, reset}
use async_lib.Runtime.AsyncGraph.BuildGraph.Countdown.{pushes, no_repeats}
use async_lib.Runtime.AsyncGraph.BuildGraph.Ready.{announce, ready_once, resultless_ready_early}

abbrev node : List ℕ → List ℕ → AsyncNode
node inputs outputs = record {
  func = 0;
  func_name = 0;
  input_names = inputs;
  output_names = outputs;
}

abbrev kernels : AsyncGraph
kernels = record {
  async_nodes =
      node [] (10 ∷ 11 ∷ [])
      ∷ node (11 ∷ 10 ∷ []) (12 ∷ [])
      ∷ node (10 ∷ 10 ∷ []) (13 ∷ [])
      ∷ node (10 ∷ 12 ∷ []) []
      ∷ [];
}

counts : (build_graph kernels).arguments_not_ready 1 ≡ 2
unfolding build_graph
counts = refl

-- Kernel 2 never becomes ready.
twice_named :
    pushes 2 (announce (build_graph kernels) (10 ∷ 11 ∷ []) (reset (build_graph kernels), [])).1 ≡ 0
unfolding build_graph reset
twice_named = refl

ready_once_example :
    pushes 1
      (announce (build_graph kernels) (10 ∷ 13 ∷ 11 ∷ []) (reset (build_graph kernels), [])).1
    ≡ (if no_repeats (11 ∷ 10 ∷ []) then 1 else 0)
ready_once_example =
    ready_once kernels 1 12 (node (11 ∷ 10 ∷ []) (12 ∷ [])) (10 ∷ 13 ∷ 11 ∷ []) refl refl
      (ground arith) (ground arith) refl refl

no_results : (y : ℕ) → owner kernels y ≢ some 3
no_results y e = ground arith

resultless_ready_early_example :
    pushes 3 (announce (build_graph kernels) (10 ∷ []) (reset (build_graph kernels), [])).1 ≡ 1
resultless_ready_early_example = resultless_ready_early kernels 3 10 no_results refl

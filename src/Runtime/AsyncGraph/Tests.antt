-- ===== src/Runtime/AsyncGraph/Tests.antt =====
-- A part of a concrete graph: 0 gives 10, 1 turns 10 into 11, 2 turns 10 into 12.
use async_lib.Base.{
  Option, get_elem?, mem, true, ap, sym, ◌∙◌, ◌≢◌, ◌⊎◌, inl, inr, ℕ, ◌≡◌, refl, arith, none, some,
  List, [], ◌∷◌,
}
use async_lib.Runtime.AsyncGraph.{AsyncNode, AsyncGraph, empty_graph, emplace, travel, sub_graph}
use async_lib.Runtime.AsyncGraph.Walk.{Wanted, asked, needed, Met}
use async_lib.Runtime.AsyncGraph.Owner.{owner}
use async_lib.Runtime.AsyncGraph.SubGraph.{sub_graph_lem}

abbrev three_kernels : AsyncGraph
unfolding emplace
three_kernels =
    emplace (10 ∷ []) (12 ∷ []) 2 2
      (emplace (10 ∷ []) (11 ∷ []) 1 1 (emplace [] (10 ∷ []) 0 0 empty_graph))

part :
    sub_graph 9 (11 ∷ []) three_kernels
    ≡ some (emplace [] (10 ∷ []) 0 0 (emplace (10 ∷ []) (11 ∷ []) 1 1 empty_graph))
unfolding sub_graph travel emplace
part = refl

abbrev inputs_of : Option AsyncNode → List ℕ
inputs_of none = []
inputs_of (some n) = n.input_names

two_names :
    (x : ℕ)
    → Wanted three_kernels.async_nodes (owner three_kernels) (11 ∷ []) x
    → (x ≡ 11) ⊎ (x ≡ 10)
unfolding three_kernels emplace
two_names _ (asked x a) = inl (ground arith)
two_names _ (needed y i n x w f e a) = elim (two_names y w) [
  | inl here ↦
      let g : owner three_kernels 11 ≡ some i = ap (owner three_kernels) (sym here) ∙ f in
      let h : 1 ≡ i = cc in
      let k : get_elem? three_kernels.async_nodes 1 ≡ some n =
        ap (get_elem? three_kernels.async_nodes) h ∙ e in
      inr (input n k x a)
  | inr here ↦
      let g : owner three_kernels 10 ≡ some i = ap (owner three_kernels) (sym here) ∙ f in
      let h : 0 ≡ i = cc in
      let k : get_elem? three_kernels.async_nodes 0 ≡ some n =
        ap (get_elem? three_kernels.async_nodes) h ∙ e in
      absurd (no_input n k x a)
]
  where
    input :
        (n : AsyncNode)
        → get_elem? three_kernels.async_nodes 1 ≡ some n
        → (x : ℕ) → mem x n.input_names ≡ true
        → x ≡ 10
    input n k x a = let l : mem x (10 ∷ []) ≡ true = ap (mem x) (ap inputs_of k) ∙ a in ground arith

    no_input :
        (n : AsyncNode)
        → get_elem? three_kernels.async_nodes 0 ≡ some n
        → (x : ℕ) → mem x n.input_names ≢ true
    no_input n k x a = let l : mem x [] ≡ true = ap (mem x) (ap inputs_of k) ∙ a in ground arith

known :
    (x : ℕ)
    → Wanted three_kernels.async_nodes (owner three_kernels) (11 ∷ []) x
    → (i : ℕ) × (owner three_kernels x ≡ some i)
unfolding three_kernels emplace
known x w = elim (two_names x w) [
  | inl e ↦ (1, ap (owner three_kernels) e)
  | inr e ↦ (0, ap (owner three_kernels) e)
]

sub_graph_lem_example :
    (part : AsyncGraph) × (traveled : List ℕ) × (sub_graph 9 (11 ∷ []) three_kernels ≡ some part)
    × Met three_kernels.async_nodes (owner three_kernels) (11 ∷ []) traveled part
unfolding three_kernels emplace
sub_graph_lem_example = sub_graph_lem 9 (11 ∷ []) three_kernels known (ground arith)

-- ===== src/Runtime/AsyncGraph/SubGraph.antt =====
-- SubGraph of graph.cpp against the nodes that the results need.
use async_lib.Base.{
  ℕ, zero, suc, ◌+◌, ◌<◌, ◌≡◌, ◌≢◌, refl, ap, sym, ◌∙◌, arith, true, false, Option, some, List, [],
  ◌∷◌, ◌++◌, length, length-append, get_elem?, mem, ==_iff, ==_refl, if◌then◌else◌, Bool-cases, inl,
  inr,
}
use async_lib.Base.Sums.{total_at}
use async_lib.Runtime.AsyncGraph.{
  AsyncNode, AsyncGraph, empty_graph, emplace, travel, part_of, sub_graph,
}
use async_lib.Runtime.AsyncGraph.Walk.{
  Wanted, asked, Going, Met, picked, to_meet, inputs_at, done, again, first,
}
use async_lib.Runtime.AsyncGraph.Owner.{owner, owner_lem}

module _ (nodes : List AsyncNode) (m : ℕ → Option ℕ) where
  below : (ns : List AsyncNode) (i : ℕ) (n : AsyncNode) → get_elem? ns i ≡ some n → i < length ns
  below [] i n e = absurd (ground arith)
  below (x ∷ ns) zero n e = omega arith
  below (x ∷ ns) (suc i) n e = omega (arith, below ns i n e)

  -- A node that is met now takes its arguments off those to meet.
  to_meet-cons :
      (traveled : List ℕ) (i : ℕ) (n : AsyncNode)
      → mem i traveled ≡ false
      → get_elem? nodes i ≡ some n
      → to_meet nodes m (i ∷ traveled) + length n.input_names ≡ to_meet nodes m traveled
  to_meet-cons traveled i n t e = omega (
    arith,
    total_at (length nodes) i (left traveled) (left (i ∷ traveled)) (below nodes i n e)
        (λ j ne. rw (other j ne) refl),
    at_i,
    at_i',
  )
    where
      left : List ℕ → ℕ → ℕ
      left traveled j = if mem j traveled then 0 else inputs_at nodes m j

      other : (j : ℕ) → j ≢ i → mem j (i ∷ traveled) ≡ mem j traveled
      other j ne = ground (arith, ==_iff j i)

      inputs_here : inputs_at nodes m i ≡ length n.input_names
      inputs_here = rw (e, inputs_at) refl

      at_i : left traveled i ≡ length n.input_names
      at_i = rw t inputs_here

      at_i' : left (i ∷ traveled) i ≡ 0
      at_i' = rw (==_refl i) refl

  picked-cons :
      (traveled : List ℕ) (i : ℕ) (n : AsyncNode)
      → get_elem? nodes i ≡ some n
      → picked nodes m (i ∷ traveled) ≡ picked nodes m traveled ++ n ∷ []
  picked-cons traveled i n e = rw (e, picked) refl

  module _ (fuel : ℕ) (queue traveled : List ℕ) (graph : AsyncGraph) (x i : ℕ)
      (f : m x ≡ some i) where
    travel_again :
        mem i traveled ≡ true
        → travel nodes m (suc fuel) (x ∷ queue) traveled graph
          ≡ travel nodes m fuel queue traveled graph
    unfolding travel
    travel_again t = rw (f, t, travel) refl

    travel_first :
        (n : AsyncNode)
        → mem i traveled ≡ false
        → get_elem? nodes i ≡ some n
        → travel nodes m (suc fuel) (x ∷ queue) traveled graph
          ≡ travel nodes m fuel
              (queue ++ n.input_names)
              (i ∷ traveled)
              (emplace n.input_names n.output_names n.func n.func_name graph)
    unfolding travel
    travel_first n t e = rw (f, t, e, travel) refl

  travel-Met :
      (fuel : ℕ) (outputs queue traveled : List ℕ) (graph : AsyncGraph)
      → Going nodes m outputs queue traveled
      → graph.async_nodes ≡ picked nodes m traveled
      → length queue + to_meet nodes m traveled < fuel
      → (r : List ℕ × AsyncGraph) × (travel nodes m fuel queue traveled graph ≡ some r)
        × Met nodes m outputs r.0 r.1
  unfolding travel emplace
  travel-Met zero outputs queue traveled graph g e enough = absurd (omega arith)
  travel-Met (suc fuel) outputs [] traveled graph g e enough =
      ((traveled, graph), refl, done nodes m outputs traveled graph g e)
  travel-Met (suc fuel) outputs (x ∷ queue) traveled graph g e enough =
      let (i, n, f, here) = g.named x (g.queued x (ground (arith, ==_refl x))) in
      elim (Bool-cases (mem i traveled)) [
        | inl t ↦
            let (r, eq, k) =
              travel-Met fuel outputs queue traveled graph
                (again nodes m outputs queue traveled x i g f t) e (omega arith) in
            (r, travel_again fuel queue traveled graph x i f t ∙ eq, k)
        | inr t ↦
            let (r, eq, k) =
              travel-Met fuel outputs (queue ++ n.input_names) (i ∷ traveled)
                (emplace n.input_names n.output_names n.func n.func_name graph)
                (first nodes m outputs queue traveled x i n g f t here)
                (ap (λ l. l ++ n ∷ []) e ∙ sym (picked-cons traveled i n here))
                (omega
                  (arith, length-append queue n.input_names, to_meet-cons traveled i n t here)) in
            (r, travel_first fuel queue traveled graph x i f n t here ∙ eq, k)
      ]

-- Where every name that `outputs` need belongs to a node, SubGraph ends within one round more than
-- there are such names and arguments in the graph. Its nodes are copies of exactly the nodes that a
-- needed name belongs to, each once, in the order in which they are met.
pub sub_graph_lem :
    (fuel : ℕ) (outputs : List ℕ) (graph : AsyncGraph)
    → ((x : ℕ)
        → Wanted graph.async_nodes (owner graph) outputs x
        → (i : ℕ) × (owner graph x ≡ some i))
    → length outputs + to_meet graph.async_nodes (owner graph) [] < fuel
    → (part : AsyncGraph) × (traveled : List ℕ) × (sub_graph fuel outputs graph ≡ some part)
      × Met graph.async_nodes (owner graph) outputs traveled part
unfolding sub_graph
sub_graph_lem fuel outputs graph known enough =
    let ((traveled, part), e, k) =
      travel-Met graph.async_nodes (owner graph) fuel outputs outputs [] empty_graph start refl
        enough in
    (part, traveled, ap part_of e, k)
  where
    start : Going graph.async_nodes (owner graph) outputs outputs []
    start = record {
      named = λ x w.
          let (i, e) = known x w in let (n, here, h) = owner_lem graph x i e in (i, n, e, here);
      queued = λ x a. asked x a;
      sound = λ i h. absurd (ground arith);
      complete_outputs = λ x i a f. ground arith;
      complete_inputs = λ j n x i h. absurd (ground arith);
      distinct = tt;
    }

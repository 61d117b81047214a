-- ===== src/Runtime/AsyncGraph/BuildGraph/Ready.antt =====
-- When a kernel becomes ready: the counts of BuildGraph against the values that become available.
use async_lib.Base.{
  ℕ, zero, suc, ◌+◌, ◌^◌, ◌≤◌, ◌<◌, ◌≡◌, ◌≢◌, refl, ap, ap₂, sym, ◌∙◌, subst, arith, Bool, true,
  false, Option, none, some, List, [], ◌∷◌, length, get_elem?, mem, ltb, ◌==◌, ◌&&◌, if◌then◌else◌,
  Bool-cases, Option-cases, ℕ_discrete, inl, inr,
}
use async_lib.Base.Sums.{weigh}
use async_lib.Base.Family.{update, update_self, update_ne}
use async_lib.Runtime.AsyncGraph.{AsyncNode, AsyncGraph, name_outputs, name_nodes}
use async_lib.Runtime.AsyncGraph.Owner.{owner, owner_lem}
use async_lib.Runtime.AsyncGraph.BuildGraph.{
  Pass, Built, no_names, index_name, process_input, process_output, process_inputs, process_outputs,
  process_nodes, num_inputs, set_not_ready, not_ready_from, build_graph, reset,
  decrease_ready_count_and_push,
}
use async_lib.Runtime.AsyncGraph.BuildGraph.Users.{takes, built_users}
use async_lib.Runtime.AsyncGraph.BuildGraph.Countdown.{
  pushes, bit, decrease_lem, no_repeats, all_in, match_count, match_lem,
}

index_name-node_id : (x : ℕ) (p : Pass) → (index_name x p).node_id ≡ p.node_id
index_name-node_id x p = elim (Option-cases (p.index x)) [
  | inl e ↦ rw (e, index_name) refl
  | inr (i, e) ↦ rw (e, index_name) refl
]

inputs-node_id : (k : ℕ) (xs : List ℕ) (p : Pass) → (process_inputs k xs p).node_id ≡ p.node_id
inputs-node_id k [] p = refl
inputs-node_id k (x ∷ xs) p = inputs-node_id k xs (process_input k x p) ∙ index_name-node_id x p

outputs-node_id :
    (k : ℕ) (xs : List ℕ) (p : Pass)
    → (process_outputs k xs p).node_id ≡ name_outputs k xs p.node_id
outputs-node_id k [] p = refl
outputs-node_id k (x ∷ xs) p = outputs-node_id k xs (process_output k x p)

-- BuildGraph and SubGraph find the same owner of a name.
nodes-node_id :
    (k : ℕ) (ns : List AsyncNode) (p : Pass)
    → (process_nodes k ns p).node_id ≡ name_nodes k ns p.node_id
nodes-node_id k [] p = refl
nodes-node_id k (n ∷ ns) p =
    let q = process_inputs k n.input_names p in
    nodes-node_id (suc k) ns (process_outputs k n.output_names q)
    ∙ ap (name_nodes (suc k) ns) (
        outputs-node_id k n.output_names q
        ∙ ap (name_outputs k n.output_names) (inputs-node_id k n.input_names p))

module _ (nodes : List AsyncNode) (p : Pass) (k : ℕ) where
  abbrev Set : (ℕ → ℕ) → Type 0
  Set counts = counts k ≡ num_inputs nodes k

  abbrev write : ℕ → (ℕ → ℕ) → ℕ → ℕ
  write x counts = elim (p.node_id x) [
    | none ↦ counts
    | some k ↦ update counts k (num_inputs nodes k)
  ]

  write-keeps : (x : ℕ) (counts : ℕ → ℕ) → Set counts → Set (write x counts)
  write-keeps x counts s = elim (Option-cases (p.node_id x)) [
    | inl e ↦ rw (e, write) s
    | inr (j, e) ↦
        rw (e, write)
          (elim (ℕ_discrete j k) [
            | yes same ↦
                subst (λ k. update counts j (num_inputs nodes j) k ≡ num_inputs nodes k) same
                  (update_self counts j (num_inputs nodes j))
            | no ne ↦ update_ne counts j (num_inputs nodes j) k ne ∙ s
          ])
  ]

  write-sets : (x : ℕ) (counts : ℕ → ℕ) → p.node_id x ≡ some k → Set (write x counts)
  write-sets x counts e = rw (e, write) (update_self counts k (num_inputs nodes k))

  set-keeps : (xs : List ℕ) (counts : ℕ → ℕ) → Set counts → Set (set_not_ready nodes p xs counts)
  set-keeps [] counts s = s
  set-keeps (x ∷ xs) counts s = set-keeps xs (write x counts) (write-keeps x counts s)

  set-sets :
      (xs : List ℕ) (counts : ℕ → ℕ) (x : ℕ)
      → mem x xs ≡ true
      → p.node_id x ≡ some k
      → Set (set_not_ready nodes p xs counts)
  set-sets [] counts x h e = absurd (ground arith)
  set-sets (y ∷ xs) counts x h e = elim (ℕ_discrete x y) [
    | yes same ↦ set-keeps xs (write y counts) (write-sets y counts (ap p.node_id (sym same) ∙ e))
    | no ne ↦ set-sets xs (write y counts) x (ground arith) e
  ]

  from-keeps :
      (ns : List AsyncNode) (counts : ℕ → ℕ) → Set counts → Set (not_ready_from nodes p ns counts)
  from-keeps [] counts s = s
  from-keeps (n ∷ ns) counts s =
      from-keeps ns (set_not_ready nodes p n.output_names counts)
        (set-keeps n.output_names counts s)

  -- The count of a kernel that owns a name is the number of its arguments.
  from-sets :
      (ns : List AsyncNode) (counts : ℕ → ℕ) (i : ℕ) (n : AsyncNode) (x : ℕ)
      → get_elem? ns i ≡ some n
      → mem x n.output_names ≡ true
      → p.node_id x ≡ some k
      → Set (not_ready_from nodes p ns counts)
  from-sets [] counts i n x g h e = absurd (ground arith)
  from-sets (n' ∷ ns) counts zero n x g h e =
      from-keeps ns (set_not_ready nodes p n'.output_names counts)
        (set-sets n'.output_names counts x (ap outputs_of g ∙ h) e)
    where
      outputs_of : Option AsyncNode → Bool
      outputs_of none = false
      outputs_of (some n) = mem x n.output_names
  from-sets (n' ∷ ns) counts (suc i) n x g h e =
      from-sets ns (set_not_ready nodes p n'.output_names counts) i n x g h e

  -- The count of a kernel that owns no name is not set.
  module _ (none_owned : (x : ℕ) → p.node_id x ≢ some k) where
    write-other : (x : ℕ) (counts : ℕ → ℕ) → write x counts k ≡ counts k
    write-other x counts = elim (Option-cases (p.node_id x)) [
      | inl e ↦ rw (e, write) refl
      | inr (j, e) ↦
          rw (e, write)
            (update_ne counts j (num_inputs nodes j) k
              (λ same. none_owned x (e ∙ ap (λ j. some j) same)))
    ]

    set-other : (xs : List ℕ) (counts : ℕ → ℕ) → set_not_ready nodes p xs counts k ≡ counts k
    set-other [] counts = refl
    set-other (x ∷ xs) counts = set-other xs (write x counts) ∙ write-other x counts

    from-other :
        (ns : List AsyncNode) (counts : ℕ → ℕ) → not_ready_from nodes p ns counts k ≡ counts k
    from-other [] counts = refl
    from-other (n ∷ ns) counts =
        from-other ns (set_not_ready nodes p n.output_names counts)
        ∙ set-other n.output_names counts

pub built_count :
    (graph : AsyncGraph) (k x : ℕ)
    → owner graph x ≡ some k
    → (build_graph graph).arguments_not_ready k ≡ num_inputs graph.async_nodes k
unfolding build_graph
built_count graph k x e =
    let nodes = graph.async_nodes in
    let p = process_nodes 0 nodes no_names in
    let (n, g, h) = owner_lem graph x k e in
    from-sets nodes p k nodes (λ _. 0) k n x g h
      (ap (λ f. f x) (nodes-node_id 0 nodes no_names) ∙ e)

-- The calls of DecreaseReadyCountAndPush with the users of a name, in the order in which they are
-- made. The executor makes one for each name: for the first result of the start node at once, and for
-- any other when its value is available.
abbrev pub announce : Built → List ℕ → (ℕ → ℕ) × List ℕ → (ℕ → ℕ) × List ℕ
announce b [] s = s
announce b (x ∷ xs) s = announce b xs (decrease_ready_count_and_push (b.used_by x) s)

-- How many of the names kernel `k` takes.
abbrev taken : AsyncGraph → ℕ → List ℕ → ℕ
taken graph k xs = weigh (λ x. bit (takes graph.async_nodes k x)) xs

-- A count that the names do not exceed is hit at most once, and exactly if there are as many.
announce_lem :
    (graph : AsyncGraph) (k : ℕ) (xs : List ℕ) (counts : ℕ → ℕ) (ready : List ℕ)
    → counts k < 2 ^ 32
    → taken graph k xs ≤ counts k
    → pushes k (announce (build_graph graph) xs (counts, ready)).1
      ≡ pushes k ready + bit (ltb 0 (counts k) && taken graph k xs == counts k)
announce_lem graph k [] counts ready b h = ground arith
announce_lem graph k (x ∷ xs) counts ready b h =
    let us = (build_graph graph).used_by x in
    let (sorted, users) = built_users graph x in
    let (c, p) = decrease_lem k us counts ready sorted in
    let s = decrease_ready_count_and_push us (counts, ready) in
    let user = users k in
    let rest = announce_lem graph k xs s.0 s.1 in
    elim (Bool-cases (takes graph.async_nodes k x)) [
      | inl t ↦ ground (arith, user, c, p, rest)
      | inr f ↦ ground (arith, user, c, p, rest)
    ]

-- A kernel that BuildGraph records as the producer of some name, and that has arguments, fewer than
-- 2 ^ 32, is pushed exactly once after DecreaseReadyCountAndPush has been called for each of a list
-- of different names, in whatever order, that has all its arguments, if it names no argument twice;
-- and if it names one twice, it is never pushed.
pub ready_once :
    (graph : AsyncGraph) (k x : ℕ) (n : AsyncNode) (available : List ℕ)
    → owner graph x ≡ some k
    → get_elem? graph.async_nodes k ≡ some n
    → 0 < length n.input_names
    → length n.input_names < 2 ^ 32
    → no_repeats available ≡ true
    → all_in n.input_names available ≡ true
    → pushes k (announce (build_graph graph) available (reset (build_graph graph), [])).1
      ≡ (if no_repeats n.input_names then 1 else 0)
unfolding reset
ready_once graph k x n available e g some_inputs bound distinct covered =
    let (le, all) = match_lem n.input_names available distinct covered in
    let count = built_count graph k x e ∙ inputs_here in
    let same = taken_here available in
    let r =
      announce_lem graph k available (reset (build_graph graph)) [] (ground arith) (ground arith) in
    ground (arith, r)
  where
    inputs_here : num_inputs graph.async_nodes k ≡ length n.input_names
    inputs_here = rw (g, num_inputs) refl

    taken_here : (xs : List ℕ) → taken graph k xs ≡ match_count n.input_names xs
    taken_here [] = refl
    taken_here (y ∷ xs) = ap₂ (λ a b. a + b) (rw (g, takes) refl) (taken_here xs)

-- A kernel that is recorded as the producer of no name, such as one without results, is pushed by the
-- first call of DecreaseReadyCountAndPush for one of its arguments, however many it has.
pub resultless_ready_early :
    (graph : AsyncGraph) (k x : ℕ)
    → ((y : ℕ) → owner graph y ≢ some k)
    → takes graph.async_nodes k x ≡ true
    → pushes k (announce (build_graph graph) (x ∷ []) (reset (build_graph graph), [])).1 ≡ 1
unfolding reset build_graph
resultless_ready_early graph k x none_owned t =
    let nodes = graph.async_nodes in
    let p = process_nodes 0 nodes no_names in
    let count : (build_graph graph).arguments_not_ready k ≡ 0 =
      from-other nodes p k
        (λ y e. none_owned y (sym (ap (λ f. f y) (nodes-node_id 0 nodes no_names)) ∙ e)) nodes
        (λ _. 0) in
    let r =
      announce_lem graph k (x ∷ []) (reset (build_graph graph)) [] (ground arith) (ground arith) in
    ground (arith, r)

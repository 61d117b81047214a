-- ===== src/Runtime/AsyncGraph/BuildGraph/Users.antt =====
-- What BuildGraph records for the names: who uses them, in ascending order.
use async_lib.Base.{
  ℕ, suc, ◌-◌, ◌<◌, ◌≡◌, refl, ap, ap₂, sym, subst, dec_lt, leb, ◌∙◌, arith, Bool, false, none,
  some, List, [], ◌∷◌, get_elem?, mem, ltb, ◌==◌, ◌||◌, ◌&&◌, Bool-cases, Option-cases, ℕ_discrete,
  inl, inr,
}
use async_lib.Base.Family.{update, update_self, update_ne}
use async_lib.Runtime.AsyncGraph.{AsyncNode, AsyncGraph}
use async_lib.Runtime.AsyncGraph.BuildGraph.{
  Pass, no_names, insert, index_name, process_input, process_output, process_inputs,
  process_outputs, process_nodes, build_graph,
}

mem-insert : (j k : ℕ) (l : List ℕ) → mem j (insert k l) ≡ (j == k || mem j l)
mem-insert j k [] = refl
mem-insert j k (i ∷ l) = ground (arith, mem-insert j k l)

-- Every number of the list exceeds `x`.
abbrev pub Above : ℕ → List ℕ → Type 0
Above x [] = Unit {0}
Above x (y ∷ l) = (x < y) × Above x l

-- In ascending order, so no number twice.
abbrev pub Sorted : List ℕ → Type 0
Sorted [] = Unit {0}
Sorted (x ∷ l) = Above x l × Sorted l

Above-lower : (x y : ℕ) (l : List ℕ) → x < y → Above y l → Above x l
Above-lower x y [] h a = a
Above-lower x y (z ∷ l) h (b, a) = (omega arith, Above-lower x y l h a)

insert-Above : (x k : ℕ) (l : List ℕ) → x < k → Above x l → Above x (insert k l)
insert-Above x k [] h a = (h, a)
insert-Above x k (j ∷ l) h (b, a) = elim (Bool-cases (k == j)) [
  | inl e ↦ rw e (b, a)
  | inr ne ↦ elim (Bool-cases (ltb k j)) [
    | inl lt ↦ rw (ne, lt) (h, (b, a))
    | inr ge ↦ rw (ne, ge) (b, insert-Above x k l h a)
  ]
]

insert-Sorted : (k : ℕ) (l : List ℕ) → Sorted l → Sorted (insert k l)
insert-Sorted k [] s = (tt, tt)
insert-Sorted k (j ∷ l) (a, s) = elim (Bool-cases (k == j)) [
  | inl e ↦ rw e (a, s)
  | inr ne ↦ elim (Bool-cases (ltb k j)) [
    | inl lt ↦ rw (ne, lt) ((ground arith, Above-lower k j l (ground arith) a), (a, s))
    | inr ge ↦ rw (ne, ge) (insert-Above j k l (ground arith) a, insert-Sorted k l s)
  ]
]

index_name-used_by : (x : ℕ) (p : Pass) → (index_name x p).used_by ≡ p.used_by
index_name-used_by x p = elim (Option-cases (p.index x)) [
  | inl e ↦ rw (e, index_name) refl
  | inr (i, e) ↦ rw (e, index_name) refl
]

outputs-used_by : (k : ℕ) (xs : List ℕ) (p : Pass) → (process_outputs k xs p).used_by ≡ p.used_by
outputs-used_by k [] p = refl
outputs-used_by k (x ∷ xs) p = outputs-used_by k xs (process_output k x p) ∙ index_name-used_by x p

inputs-used_by :
    (k : ℕ) (xs : List ℕ) (p : Pass) (j x : ℕ)
    → mem j ((process_inputs k xs p).used_by x) ≡ (mem j (p.used_by x) || (j == k && mem x xs))
inputs-used_by k [] p j x = ground arith
inputs-used_by k (y ∷ xs) p j x = elim (ℕ_discrete y x) [
  | yes same ↦ ground (
    arith,
    inputs-used_by k xs (process_input k y p) j x,
    ap (mem j) here,
    mem-insert j k (p.used_by y),
    ap (λ x. mem j (p.used_by x)) same,
  )
  | no ne ↦ ground (
    arith,
    inputs-used_by k xs (process_input k y p) j x,
    ap (mem j) (update_ne p.used_by y (insert k (p.used_by y)) x ne),
  )
]
  where
    here : update p.used_by y (insert k (p.used_by y)) y ≡ insert k (p.used_by y)
    here = update_self p.used_by y (insert k (p.used_by y))

-- Whether node `i` of the list takes the name.
abbrev pub takes : List AsyncNode → ℕ → ℕ → Bool
takes nodes i x = elim (get_elem? nodes i) [ none ↦ false | some n ↦ mem x n.input_names ]

nodes-used_by :
    (k : ℕ) (ns : List AsyncNode) (p : Pass) (j x : ℕ)
    → mem j ((process_nodes k ns p).used_by x)
      ≡ (mem j (p.used_by x) || (leb k j && takes ns (j - k) x))
nodes-used_by k [] p j x = ground arith
nodes-used_by k (n ∷ ns) p j x =
    nodes-used_by (suc k) ns (process_outputs k n.output_names q) j x
    ∙ ap₂ either
        (ap (λ f. mem j (f x)) (outputs-used_by k n.output_names q)
          ∙ inputs-used_by k n.input_names p j x)
        refl
    ∙ by_place
  where
    q : Pass
    q = process_inputs k n.input_names p

    either : Bool → Bool → Bool
    either a b = a || b

    by_place :
        ((mem j (p.used_by x) || (j == k && mem x n.input_names))
          || (leb (suc k) j && takes ns (j - suc k) x))
        ≡ (mem j (p.used_by x) || (leb k j && takes (n ∷ ns) (j - k) x))
    by_place = elim (ℕ_discrete j k) [
      | yes same ↦ let e : j - k ≡ 0 = omega arith in ground (arith, ap (λ d. takes (n ∷ ns) d x) e)
      | no ne ↦ elim (dec_lt j k) [
        | yes lt ↦ ground arith
        | no ge ↦
            let e : j - k ≡ suc (j - suc k) = omega arith in
            ground (arith, ap (λ d. takes (n ∷ ns) d x) e)
      ]
    ]

inputs-Sorted :
    (k : ℕ) (xs : List ℕ) (p : Pass) (x : ℕ)
    → ((x : ℕ) → Sorted (p.used_by x))
    → Sorted ((process_inputs k xs p).used_by x)
inputs-Sorted k [] p x s = s x
inputs-Sorted k (y ∷ xs) p x s = inputs-Sorted k xs (process_input k y p) x λ z.
    elim (ℕ_discrete y z) [
      | yes same ↦
          subst (λ z. Sorted (update p.used_by y l z)) same
            (subst Sorted (sym (update_self p.used_by y l)) (insert-Sorted k (p.used_by y) (s y)))
      | no ne ↦ subst Sorted (sym (update_ne p.used_by y l z ne)) (s z)
    ]
  where
    l : List ℕ
    l = insert k (p.used_by y)

nodes-Sorted :
    (k : ℕ) (ns : List AsyncNode) (p : Pass) (x : ℕ)
    → ((x : ℕ) → Sorted (p.used_by x))
    → Sorted ((process_nodes k ns p).used_by x)
nodes-Sorted k [] p x s = s x
nodes-Sorted k (n ∷ ns) p x s = nodes-Sorted (suc k) ns (process_outputs k n.output_names q) x λ z.
    subst (λ f. Sorted (f z)) (sym (outputs-used_by k n.output_names q))
      (inputs-Sorted k n.input_names p z s)
  where
    q : Pass
    q = process_inputs k n.input_names p

-- The users that BuildGraph records for a name are the nodes that take it, in ascending order.
pub built_users :
    (graph : AsyncGraph) (x : ℕ)
    → Sorted ((build_graph graph).used_by x)
      × ((j : ℕ) → mem j ((build_graph graph).used_by x) ≡ takes graph.async_nodes j x)
unfolding build_graph
built_users graph x = (
  nodes-Sorted 0 graph.async_nodes no_names x (λ _. tt),
  λ j. nodes-used_by 0 graph.async_nodes no_names j x ∙ ground arith,
)

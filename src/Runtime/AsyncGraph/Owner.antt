-- ===== src/Runtime/AsyncGraph/Owner.antt =====
-- The node that a name belongs to.
use async_lib.Base.{
  ℕ, suc, ◌+◌, ◌≡◌, ◌⊎◌, refl, ap, sym, ◌∙◌, arith, true, Option, none, some, List, [], ◌∷◌,
  get_elem?, mem, ℕ_discrete, inl, inr,
}
use async_lib.Base.Family.{update, update_self, update_ne}
use async_lib.Runtime.AsyncGraph.{AsyncNode, AsyncGraph, name_outputs, name_nodes}

-- What `name_outputs` and `name_nodes` find puts the name out.
name_outputs-found :
    (i : ℕ) (xs : List ℕ) (m : ℕ → Option ℕ) (x : ℕ)
    → (name_outputs i xs m x ≡ m x) ⊎ ((name_outputs i xs m x ≡ some i) × (mem x xs ≡ true))
name_outputs-found i [] m x = inl refl
name_outputs-found i (y ∷ xs) m x = elim (name_outputs-found i xs (update m y (some i)) x) [
  | inr (e, h) ↦ inr (e, ground arith)
  | inl e ↦ elim (ℕ_discrete y x) [
    | yes same ↦
        inr (e ∙ ap (update m y (some i)) (sym same) ∙ update_self m y (some i), ground arith)
    | no ne ↦ inl (e ∙ update_ne m y (some i) x ne)
  ]
]

name_nodes-found :
    (i : ℕ) (ns : List AsyncNode) (m : ℕ → Option ℕ) (x : ℕ)
    → (name_nodes i ns m x ≡ m x)
      ⊎ ((k : ℕ) × (n : AsyncNode) × (name_nodes i ns m x ≡ some (i + k))
          × (get_elem? ns k ≡ some n)
          × (mem x n.output_names ≡ true))
name_nodes-found i [] m x = inl refl
name_nodes-found i (n ∷ ns) m x =
    elim (name_nodes-found (suc i) ns (name_outputs i n.output_names m) x) [
      | inr (k, n', e, here, h) ↦ inr (suc k, n', e ∙ ap (λ k. some k) (omega arith), here, h)
      | inl e ↦ elim (name_outputs-found i n.output_names m x) [
        | inl f ↦ inl (e ∙ f)
        | inr (f, h) ↦ inr (0, n, e ∙ f ∙ ap (λ k. some k) (omega arith), refl, h)
      ]
    ]

-- The node that a name belongs to.
abbrev pub owner : AsyncGraph → ℕ → Option ℕ
owner graph = name_nodes 0 graph.async_nodes (λ _. none)

-- A name that belongs to a node is put out by it.
pub owner_lem :
    (graph : AsyncGraph) (x i : ℕ)
    → owner graph x ≡ some i
    → (n : AsyncNode) × (get_elem? graph.async_nodes i ≡ some n) × (mem x n.output_names ≡ true)
owner_lem graph x i e = elim (name_nodes-found 0 graph.async_nodes (λ _. none) x) [
  | inl f ↦ absurd (ground (arith, sym f ∙ e))
  | inr (k, n, f, here, h) ↦
      let e' : 0 + k ≡ i = some-inj (sym f ∙ e) in
      let same : k ≡ i = omega arith in (n, ap (get_elem? graph.async_nodes) (sym same) ∙ here, h)
]
  where
    some-inj : {a b : ℕ} → some a ≡ some b → a ≡ b
    some-inj h = cc

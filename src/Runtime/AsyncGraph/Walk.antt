-- ===== src/Runtime/AsyncGraph/Walk.antt =====
-- The walk of SubGraph: what is wanted, and what the loop keeps.
use async_lib.Base.{
  ℕ, ◌≡◌, ◌↔◌, refl, ap, sym, ◌∙◌, arith, true, false, Option, none, some, List, [], ◌∷◌, ◌++◌,
  length, get_elem?, mem, ◌||◌, ◌==◌, ==_iff, ==_refl, if◌then◌else◌, Bool-cases, inl, inr,
}
use async_lib.Base.Sums.{total}
use async_lib.Runtime.AsyncGraph.{AsyncNode, AsyncGraph}

mem-append : (i : ℕ) (xs ys : List ℕ) → mem i (xs ++ ys) ≡ (mem i xs || mem i ys)
mem-append i [] ys = refl
mem-append i (x ∷ xs) ys = ground (arith, mem-append i xs ys)

-- No number twice.
abbrev pub Distinct : List ℕ → Type 0
Distinct [] = Unit {0}
Distinct (i ∷ is) = (mem i is ≡ false) × Distinct is

module _ (nodes : List AsyncNode) (m : ℕ → Option ℕ) where
  -- The names that the results `outputs` need, directly or through the arguments of nodes.
  pub data Wanted (outputs : List ℕ) : ℕ → Type 0 where
    asked : (x : ℕ) → mem x outputs ≡ true → Wanted outputs x
    needed :
        (y i : ℕ) (n : AsyncNode) (x : ℕ)
        → Wanted outputs y
        → m y ≡ some i
        → get_elem? nodes i ≡ some n
        → mem x n.input_names ≡ true
        → Wanted outputs x

  -- Some node puts the name out.
  abbrev pub Named : ℕ → Type 0
  Named x = (i : ℕ) × (n : AsyncNode) × (m x ≡ some i) × (get_elem? nodes i ≡ some n)

  -- The nodes at the positions listed, the latest first.
  abbrev pub picked : List ℕ → List AsyncNode
  picked [] = []
  picked (i ∷ is) = elim (get_elem? nodes i) [ none ↦ picked is | some n ↦ picked is ++ n ∷ [] ]

  abbrev pub inputs_at : ℕ → ℕ
  inputs_at i = elim (get_elem? nodes i) [ none ↦ 0 | some n ↦ length n.input_names ]

  -- The arguments of the nodes that were not met yet.
  abbrev pub to_meet : List ℕ → ℕ
  to_meet traveled = total (length nodes) (λ i. if mem i traveled then 0 else inputs_at i)

  pub record Going (outputs queue traveled : List ℕ) : Type 0 where
    pub named : (x : ℕ) → Wanted outputs x → Named x
    pub queued : (x : ℕ) → mem x queue ≡ true → Wanted outputs x
    pub sound : (i : ℕ) → mem i traveled ≡ true → (x : ℕ) × Wanted outputs x × (m x ≡ some i)
    pub complete_outputs :
        (x i : ℕ) → mem x outputs ≡ true → m x ≡ some i → (mem i traveled || mem x queue) ≡ true
    pub complete_inputs :
        (j : ℕ) (n : AsyncNode) (x i : ℕ)
        → mem j traveled ≡ true
        → get_elem? nodes j ≡ some n
        → mem x n.input_names ≡ true
        → m x ≡ some i
        → (mem i traveled || mem x queue) ≡ true
    pub distinct : Distinct traveled

  -- What the loop leaves.
  pub record Met (outputs traveled : List ℕ) (graph : AsyncGraph) : Type 0 where
    pub met : (i : ℕ) → (mem i traveled ≡ true) ↔ ((x : ℕ) × Wanted outputs x × (m x ≡ some i))
    pub once : Distinct traveled
    pub nodes_met : graph.async_nodes ≡ picked traveled

  pub done :
      (outputs traveled : List ℕ) (graph : AsyncGraph)
      → Going outputs [] traveled
      → graph.async_nodes ≡ picked traveled
      → Met outputs traveled graph
  done outputs traveled graph g e = record {
    met = λ i. (g.sound i, λ (x, w, f). all x w i f);
    once = g.distinct;
    nodes_met = e;
  }
    where
      all : (x : ℕ) → Wanted outputs x → (i : ℕ) → m x ≡ some i → mem i traveled ≡ true
      all _ (asked x a) i f = ground (arith, g.complete_outputs x i a f)
      all _ (needed y j n x w f e a) i f' =
          ground (arith, g.complete_inputs j n x i (all y w j f) e a f')

  same_node : (x y i j : ℕ) → (y == x) ≡ true → m x ≡ some i → m y ≡ some j → j ≡ i
  same_node x y i j e f f' = some-inj (sym f' ∙ ap m ((==_iff y x).0 e) ∙ f)
    where
      some-inj : {a b : ℕ} → some a ≡ some b → a ≡ b
      some-inj h = cc

  -- What was to be met through the name `x` of node `i` is met once `i` is.
  moved_on :
      (queue queue' traveled traveled' : List ℕ) (x i y j : ℕ)
      → m x ≡ some i
      → m y ≡ some j
      → mem i traveled' ≡ true
      → (mem j traveled ≡ true → mem j traveled' ≡ true)
      → (mem y queue ≡ true → mem y queue' ≡ true)
      → (mem j traveled || mem y (x ∷ queue)) ≡ true
      → (mem j traveled' || mem y queue') ≡ true
  moved_on queue queue' traveled traveled' x i y j f f' t old wait h = elim (Bool-cases (y == x)) [
    | inl e ↦ let s = same_node x y i j e f f' in ground (arith, ap (λ k. mem k traveled') s)
    | inr ne ↦ elim (Bool-cases (mem j traveled)) [
      | inl a ↦ ground (arith, old a)
      | inr b ↦ ground (arith, wait)
    ]
  ]

  -- A name whose node was met before.
  pub again :
      (outputs queue traveled : List ℕ) (x i : ℕ)
      → Going outputs (x ∷ queue) traveled
      → m x ≡ some i
      → mem i traveled ≡ true
      → Going outputs queue traveled
  again outputs queue traveled x i g f t = record {
    named = g.named;
    queued = λ y w. g.queued y (ground arith);
    sound = g.sound;
    complete_outputs = λ y j a f'.
        moved_on queue queue traveled traveled x i y j f f' t (λ h. h) (λ h. h)
          (g.complete_outputs y j a f');
    complete_inputs = λ k n y j b e a f'.
        moved_on queue queue traveled traveled x i y j f f' t (λ h. h) (λ h. h)
          (g.complete_inputs k n y j b e a f');
    distinct = g.distinct;
  }

  -- A name whose node is met now.
  pub first :
      (outputs queue traveled : List ℕ) (x i : ℕ) (n : AsyncNode)
      → Going outputs (x ∷ queue) traveled
      → m x ≡ some i
      → mem i traveled ≡ false
      → get_elem? nodes i ≡ some n
      → Going outputs (queue ++ n.input_names) (i ∷ traveled)
  first outputs queue traveled x i n g f t e = record {
    named = g.named;
    queued = λ y w. elim (Bool-cases (mem y queue)) [
      | inl a ↦ g.queued y (ground arith)
      | inr b ↦ needed x i n y wanted f e (ground (arith, mem-append y queue n.input_names))
    ];
    sound = λ k h. elim (Bool-cases (k == i)) [
      | inl same ↦ (x, wanted, f ∙ ap (λ k. some k) (sym ((==_iff k i).0 same)))
      | inr other ↦ g.sound k (ground arith)
    ];
    complete_outputs = λ y j a f'. moved (g.complete_outputs y j a f') f';
    complete_inputs = λ k n' y j b e' a f'. elim (Bool-cases (k == i)) [
      | inl same ↦
          let s = (==_iff k i).0 same in
          let h = input n' (sym e' ∙ ap (get_elem? nodes) s ∙ e) y a in ground arith
      | inr other ↦ moved (g.complete_inputs k n' y j (ground arith) e' a f') f'
    ];
    distinct = (t, g.distinct);
  }
    where
      wanted : Wanted outputs x
      wanted = g.queued x (ground (arith, ==_refl x))

      moved :
          {y j : ℕ}
          → (mem j traveled || mem y (x ∷ queue)) ≡ true
          → m y ≡ some j
          → (mem j (i ∷ traveled) || mem y (queue ++ n.input_names)) ≡ true
      moved {y = y} {j = j} h f' =
          moved_on queue (queue ++ n.input_names) traveled (i ∷ traveled) x i y j f f'
            (ground (arith, ==_refl i)) (λ h. ground arith)
            (λ h. ground (arith, mem-append y queue n.input_names)) h

      input :
          (n' : AsyncNode)
          → some n' ≡ some n
          → (y : ℕ) → mem y n'.input_names ≡ true
          → mem y (queue ++ n.input_names) ≡ true
      input n' s y a =
          let same : n' ≡ n = cc in
          let b = ap (λ n. mem y n.input_names) (sym same) ∙ a in
          ground (arith, mem-append y queue n.input_names)

-- ===== src/Concurrent/WorkQueueBase/Steal.antt =====
-- Steal and NonEmptyQueueIndex of work_queue_base.h: the search over the queues of a pool.
use async_lib.Base.{
  mem, subst, ℕ, zero, suc, ◌+◌, ◌^◌, ◌≤◌, ◌<◌, ◌≡◌, refl, ap, sym, ◌∙◌, arith, ◌⊎◌, inl, inr, true,
  false, Bool-cases, Option, none, some, length, get_elem, mem-get_elem,
}
use async_lib.Base.Family.{update}
use async_lib.Concurrent.Coprimes.{fast_reduce, next_victim, compute_coprimes}
use async_lib.Concurrent.Coprimes.Bezout.{Coprime, gcd_loop-Neighbours, gcd_loop_iff}
use async_lib.Concurrent.Coprimes.Members.{
  mem-compute_coprimes, compute_coprimes_some, length-compute_coprimes,
}
use async_lib.Concurrent.Coprimes.Walk.{victim_at, walk_meets, next_victim_lem, fast_reduce_lt}
use async_lib.Concurrent.WorkQueueBase.{Derived, WorkQueueBase, steal, steal_from}

-- What the search relies on: on a valid queue, an empty one has nothing to steal and stays as it
-- is, and any other yields a task.
pub record DerivedLaws {Q T : Type 0} (derived : Derived Q T) (IsValid : Q → Type 0) : Type 0 where
  pub steal_empty : (q : Q) → IsValid q → derived.is_empty q ≡ true → derived.steal q ≡ (none, q)
  pub steal_some :
      (q : Q) → IsValid q → derived.is_empty q ≡ false → (t : T) × ((derived.steal q).0 ≡ some t)

-- A pool as its constructor leaves it, with whatever valid queues.
pub record IsReady {Q : Type 0} (IsValid : Q → Type 0) (p : WorkQueueBase Q) : Type 0 where
  pub positive : 0 < p.num_threads
  pub bound : p.num_threads < 2 ^ 31
  pub coprimes_built : p.coprimes ≡ compute_coprimes p.num_threads
  pub valid : (i : ℕ) → i < p.num_threads → IsValid (p.queue i)

update_same : {A : Type 0} (f : ℕ → A) (i j : ℕ) → update f i (f i) j ≡ f j
update_same f i j = ground arith

module _ {Q T : Type 0} (derived : Derived Q T) (p : WorkQueueBase Q) where
  -- The task of one queue has been taken, and the others are untouched.
  pub record Stolen (r : Option T × WorkQueueBase Q) : Type 0 where
    pub from : ℕ
    pub inside : from < p.num_threads
    pub not_empty : derived.is_empty (p.queue from) ≡ false
    pub task : T
    pub found : (derived.steal (p.queue from)).0 ≡ some task
    pub result :
        r ≡ (some task, record p { queue = update p.queue from (derived.steal (p.queue from)).1 })

  -- Every queue of the pool is empty.
  abbrev pub AllEmpty : Type 0
  AllEmpty = (i : ℕ) → i < p.num_threads → derived.is_empty (p.queue i) ≡ true

  same_pool : (i : ℕ) → record p { queue = update p.queue i (p.queue i) } ≡ p
  same_pool i = λ k. record p { queue = λ j. update_same p.queue i j k }

module _ {Q T : Type 0} (derived : Derived Q T) (IsValid : Q → Type 0)
    (laws : DerivedLaws derived IsValid) (p : WorkQueueBase Q) (ready : IsReady IsValid p) where
  -- The round of the loop at queue `v`, from what the queue yields.
  abbrev round : ℕ → ℕ → ℕ → Option T × Q → Option T × WorkQueueBase Q
  round left inc v r =
      let p' = record p { queue = update p.queue v r.1 } in
      elim r.0 [
        | none ↦ steal_from derived left inc (next_victim p.num_threads inc v) p'
        | some t ↦ (some t, p')
      ]

  steal_from_skip :
      (left inc v : ℕ)
      → v < p.num_threads
      → derived.is_empty (p.queue v) ≡ true
      → steal_from derived (suc left) inc v p
        ≡ steal_from derived left inc (next_victim p.num_threads inc v) p
  unfolding steal_from
  steal_from_skip left inc v h e =
      ap (round left inc v) (laws.steal_empty (p.queue v) (ready.valid v h) e)
      ∙ ap (steal_from derived left inc (next_victim p.num_threads inc v)) (same_pool derived p v)

  steal_from_hit :
      (left inc v : ℕ)
      → v < p.num_threads
      → derived.is_empty (p.queue v) ≡ false
      → Stolen derived p (steal_from derived (suc left) inc v p)
  unfolding steal_from
  steal_from_hit left inc v h e =
      let (t, f) = laws.steal_some (p.queue v) (ready.valid v h) e in
      record {
        from = v;
        inside = h;
        not_empty = e;
        task = t;
        found = f;
        result = rw (f, steal_from) refl;
      }

  abbrev n : ℕ
  n = p.num_threads

  -- How `left` rounds from `v` on end.
  abbrev Searched : ℕ → ℕ → ℕ → Type 0
  Searched left inc v =
      (((j : ℕ) → j < left → derived.is_empty (p.queue (victim_at n inc v j)) ≡ true)
        × (steal_from derived left inc v p ≡ (none, p)))
      ⊎ Stolen derived p (steal_from derived left inc v p)

  pub met_next :
      (left inc v : ℕ)
      → derived.is_empty (p.queue v) ≡ true
      → ((j : ℕ)
          → j < left
          → derived.is_empty (p.queue (victim_at n inc (next_victim n inc v) j)) ≡ true)
      → (j : ℕ) → j < suc left
      → derived.is_empty (p.queue (victim_at n inc v j)) ≡ true
  met_next left inc v e a zero h = e
  met_next left inc v e a (suc j) h = a j (omega arith)

  steal_from-Searched : (left inc v : ℕ) → v < n → inc ≤ n → Searched left inc v
  unfolding steal_from
  steal_from-Searched zero inc v h k = inl (λ j l. absurd (omega arith), refl)
  steal_from-Searched (suc left) inc v h k = elim (Bool-cases (derived.is_empty (p.queue v))) [
    | inl e ↦
        elim (steal_from-Searched left inc (next_victim n inc v)
          (next_victim_lem n inc v h k ready.bound).0 k) [
            | inl (a, b) ↦ inl (met_next left inc v e a, steal_from_skip left inc v h e ∙ b)
            | inr s ↦ inr (rw (steal_from_skip left inc v h e) s)
          ]
    | inr e ↦ inr (steal_from_hit left inc v h e)
  ]

  -- A draw of the walk's step.
  pub step_lem :
      (i : ℕ)
      → i < length p.coprimes
      → (0 < get_elem p.coprimes i)
        × (get_elem p.coprimes i ≤ n)
        × Coprime (get_elem p.coprimes i) n
  step_lem i h = (mem-compute_coprimes n ready.positive (get_elem p.coprimes i)).0 (
      subst (λ l. mem (get_elem p.coprimes i) l ≡ true) ready.coprimes_built
        (mem-get_elem p.coprimes i h))

  pub coprimes_bounds : (0 < length p.coprimes) × (length p.coprimes < 2 ^ 32)
  coprimes_bounds = rw ready.coprimes_built (
    compute_coprimes_some n ready.positive,
    omega (arith, length-compute_coprimes n, ready.bound),
  )

  pub all_met :
      (inc v : ℕ)
      → v < n
      → 0 < inc
      → inc ≤ n
      → Coprime inc n
      → ((j : ℕ) → j < n → derived.is_empty (p.queue (victim_at n inc v j)) ≡ true)
      → AllEmpty derived p
  all_met inc v h pi k c a i hi =
      let nb =
        gcd_loop-Neighbours (n + 1) inc n pi ready.positive (omega arith)
          ((gcd_loop_iff inc n pi ready.positive).1 c) in
      let (j, hj, e) = walk_meets n inc v i h hi k ready.bound nb in
      ap (λ w. derived.is_empty (p.queue w)) (sym e) ∙ a j hj

  -- Steal finds a task whenever some queue of the pool holds one. It takes it from one queue and
  -- leaves the others untouched; where every queue is empty it answers with none and changes nothing.
  pub steal_lem :
      (r : ℕ)
      → r < 2 ^ 32
      → (AllEmpty derived p × (steal derived r p ≡ (none, p)))
        ⊎ Stolen derived p (steal derived r p)
  unfolding steal
  steal_lem r h =
      let (some_coprime, few) = coprimes_bounds in
      let i = fast_reduce r (length p.coprimes) in
      let (pi, k, c) = step_lem i (fast_reduce_lt r (length p.coprimes) h some_coprime few) in
      let hv = fast_reduce_lt r n h ready.positive (omega (arith, ready.bound)) in
      elim (steal_from-Searched n (get_elem p.coprimes i) (fast_reduce r n) hv k) [
        | inl (a, e) ↦ inl (all_met (get_elem p.coprimes i) (fast_reduce r n) hv pi k c a, e)
        | inr s ↦ inr s
      ]

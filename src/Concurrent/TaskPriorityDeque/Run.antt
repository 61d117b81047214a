-- ===== src/Concurrent/TaskPriorityDeque/Run.antt =====
-- A client's calls on a `TaskPriorityDeque` in order, against the four lists; Flush.
use async_lib.Base.{
  ℕ, zero, suc, ◌+◌, ◌<◌, ◌≡◌, refl, ap, ap₂, sym, ◌∙◌, subst, arith, Option, none, some, List, [],
  ◌∷◌, length, if◌then◌else◌, Bool-cases, Option-cases, List-cases, dec_lt, ◌⊎◌, inl, inr,
}
use async_lib.Concurrent.TaskDeque.{capacity}
use async_lib.Concurrent.TaskDeque.Spec
use async_lib.Concurrent.TaskDeque.Spec.{eq_nil_of_length, length-pop_front, unsnoc}
use async_lib.Concurrent.TaskPriorityDeque.{
  TaskPriority, critical, high, default, low, task_priorities, TaskPriorityDeque, push_front,
  push_back, pop_front, pop_back, is_empty,
}
use async_lib.Concurrent.TaskPriorityDeque.Refine.{
  Holds, Meets, set, spec_pop, push_front-Meets, push_back-Meets, pop_front_from-Meets,
  pop_back_from-Meets,
}
use async_lib.Concurrent.TaskPriorityDeque.Sizes.{size-lengths, is_empty_iff}

pub data Call (T : Type 0) : Type 0 where
  pushes_front pushes_back : T → TaskPriority → Call T
  pops_front pops_back : Call T

abbrev pub total : {T : Type 0} → (TaskPriority → List T) → ℕ
total v = length (v critical) + length (v high) + length (v default) + length (v low)

module _ {T : Type 0} (null : T) where
  unfoldable pub call : Call T → TaskPriorityDeque T → Option T × TaskPriorityDeque T
  call (pushes_front t p) q = push_front t p q
  call (pushes_back t p) q = push_back t p q
  call pops_front q = pop_front null q
  call pops_back q = pop_back null q

  pub spec_call : Call T → (TaskPriority → List T) → Option T × (TaskPriority → List T)
  unfolding spec_pop
  spec_call (pushes_front t p) v =
      ((Spec.push_front capacity t (v p)).0, set p (Spec.push_front capacity t (v p)).1 v)
  spec_call (pushes_back t p) v =
      ((Spec.push_back capacity t (v p)).0, set p (Spec.push_back capacity t (v p)).1 v)
  spec_call pops_front v = spec_pop Spec.pop_front task_priorities v
  spec_call pops_back v = spec_pop Spec.pop_back task_priorities v

  unfoldable pub run : TaskPriorityDeque T → List (Call T) → List (Option T)
  run q [] = []
  run q (c ∷ cs) = (call c q).0 ∷ run (call c q).1 cs

  pub spec_run : (TaskPriority → List T) → List (Call T) → List (Option T)
  spec_run v [] = []
  spec_run v (c ∷ cs) = (spec_call c v).0 ∷ spec_run (spec_call c v).1 cs

  spec_pop_skip :
      (p : TaskPriority) (ps : List TaskPriority) (v : TaskPriority → List T)
      → v p ≡ []
      → spec_pop Spec.pop_back (p ∷ ps) v ≡ spec_pop Spec.pop_back ps v
  unfolding spec_pop
  spec_pop_skip p ps v e = rw (e, spec_pop) refl

  spec_pop_nothing :
      (v : TaskPriority → List T)
      → v critical ≡ []
      → v high ≡ []
      → v default ≡ []
      → v low ≡ []
      → spec_pop Spec.pop_back task_priorities v ≡ (none, v)
  unfolding spec_pop
  spec_pop_nothing v h0 h1 h2 h3 =
      spec_pop_skip critical (high ∷ default ∷ low ∷ []) v h0
      ∙ spec_pop_skip high (default ∷ low ∷ []) v h1
      ∙ spec_pop_skip default (low ∷ []) v h2
      ∙ spec_pop_skip low [] v h3

  pub call-Meets :
      (c : Call T) (q : TaskPriorityDeque T) (v : TaskPriority → List T)
      → Holds q v
      → Meets (call c q) (spec_call c v)
  unfolding call spec_call pop_front pop_back
  call-Meets (pushes_front t p) q v h = push_front-Meets t p q v h
  call-Meets (pushes_back t p) q v h = push_back-Meets t p q v h
  call-Meets pops_front q v h = pop_front_from-Meets null task_priorities q v h
  call-Meets pops_back q v h = elim (Bool-cases (is_empty q)) [
    | inl e ↦
        let z = (is_empty_iff q v h).0 e in
        let l = size-lengths q v h in
        rw e (
          subst (Meets (none, q))
            (sym (
              spec_pop_nothing v (eq_nil_of_length (v critical) (omega arith))
                (eq_nil_of_length (v high) (omega arith))
                (eq_nil_of_length (v default) (omega arith))
                (eq_nil_of_length (v low) (omega arith))))
            (record { answer = refl; holds = h }))
    | inr ne ↦ rw ne (pop_back_from-Meets null task_priorities q v h)
  ]

  -- No sequence of pushes and pops, at either end and at any priority, tells a valid deque from
  -- four lists of at most `capacity` tasks, where a pop takes from the first list in the order of
  -- the priorities that is not empty.
  pub priority_run_refines :
      (cs : List (Call T)) (q : TaskPriorityDeque T) (v : TaskPriority → List T)
      → Holds q v
      → run q cs ≡ spec_run v cs
  unfolding run spec_run
  priority_run_refines [] q v h = refl
  priority_run_refines (c ∷ cs) q v h =
      let m = call-Meets c q v h in
      ap₂ (λ a l. a ∷ l) m.answer (priority_run_refines cs (call c q).1 (spec_call c v).1 m.holds)

  -- `Flush`, on fuel.
  pub flush : ℕ → TaskPriorityDeque T → Option (TaskPriorityDeque T)
  flush zero q = none
  flush (suc fuel) q =
      let rest = flush fuel (pop_front null q).1 in if is_empty q then some q else rest

  unsnoc_some : (x : T) (l : List T) → (t : T) × ((Spec.pop_front (x ∷ l)).0 ≡ some t)
  unsnoc_some x [] = (x, refl)
  unsnoc_some x (y ∷ l) = elim (Option-cases (unsnoc (y ∷ l))) [
    | inl e ↦ (x, ground arith)
    | inr ((t, ys), e) ↦ (t, ground arith)
  ]

  taken :
      (p : TaskPriority) (ps : List TaskPriority) (v : TaskPriority → List T) (t : T)
      → (Spec.pop_front (v p)).0 ≡ some t
      → (spec_pop Spec.pop_front (p ∷ ps) v).1 ≡ set p (Spec.pop_front (v p)).1 v
  unfolding spec_pop
  taken p ps v t e = rw (e, spec_pop) refl

  -- Where a pop finds its task.
  found_or_not :
      (p : TaskPriority) (ps : List TaskPriority) (v : TaskPriority → List T)
      → (v p ≡ []) × (spec_pop Spec.pop_front (p ∷ ps) v ≡ spec_pop Spec.pop_front ps v)
        ⊎ (0 < length (v p))
          × ((spec_pop Spec.pop_front (p ∷ ps) v).1 ≡ set p (Spec.pop_front (v p)).1 v)
  unfolding spec_pop
  found_or_not p ps v = elim (List-cases (v p)) [
    | inl e ↦ inl (e, rw (e, spec_pop) refl)
    | inr (x, l, e) ↦
        let (t, found) = unsnoc_some x l in
        inr (ground arith, taken p ps v t (ap (λ l. (Spec.pop_front l).0) e ∙ found))
  ]

  total-spec_pop :
      (v : TaskPriority → List T)
      → 0 < total v
      → total (spec_pop Spec.pop_front task_priorities v).1 < total v
  total-spec_pop v h = elim (found_or_not critical (high ∷ default ∷ low ∷ []) v) [
    | inr (more, e) ↦ rw e (omega (arith, length-pop_front (v critical)))
    | inl (e0, next0) ↦ elim (found_or_not high (default ∷ low ∷ []) v) [
      | inr (more, e) ↦ rw (next0, e) (omega (arith, length-pop_front (v high)))
      | inl (e1, next1) ↦ elim (found_or_not default (low ∷ []) v) [
        | inr (more, e) ↦ rw (next0, next1, e) (omega (arith, length-pop_front (v default)))
        | inl (e2, next2) ↦ elim (found_or_not low [] v) [
          | inr (more, e) ↦ rw (next0, next1, next2, e) (omega (arith, length-pop_front (v low)))
          | inl (e3, next3) ↦
              absurd (omega (arith, ap length e0, ap length e1, ap length e2, ap length e3))
        ]
      ]
    ]
  ]

  popped-Holds :
      (q : TaskPriorityDeque T) (v : TaskPriority → List T)
      → Holds q v
      → Holds (pop_front null q).1 (spec_pop Spec.pop_front task_priorities v).1
  unfolding pop_front
  popped-Holds q v h = (pop_front_from-Meets null task_priorities q v h).holds

  -- One round of fuel more than there are tasks is enough for `Flush` on a valid deque, and it
  -- leaves a valid deque without tasks.
  pub priority_flush_ends :
      (fuel : ℕ) (q : TaskPriorityDeque T) (v : TaskPriority → List T)
      → Holds q v
      → total v < fuel
      → (q' : TaskPriorityDeque T) × (v' : TaskPriority → List T) × (flush fuel q ≡ some q')
        × Holds q' v'
        × (total v' ≡ 0)
  unfolding flush
  priority_flush_ends zero q v h enough = absurd (omega arith)
  priority_flush_ends (suc fuel) q v h enough = elim (Bool-cases (is_empty q)) [
    | inl done ↦
        (q, v, rw done refl, h, omega (arith, (is_empty_iff q v h).0 done, size-lengths q v h))
    | inr more ↦
        let l = size-lengths q v h in
        let some_left : 0 < total v = elim (dec_lt 0 (total v)) [
          | yes y ↦ y
          | no n ↦ let e = (is_empty_iff q v h).1 (omega arith) in absurd (ground arith)
        ] in
        rw more (
          priority_flush_ends fuel (pop_front null q).1
            (spec_pop Spec.pop_front task_priorities v).1 (popped-Holds q v h)
            (omega (arith, total-spec_pop v some_left)))
  ]

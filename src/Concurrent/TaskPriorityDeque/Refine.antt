-- ===== src/Concurrent/TaskPriorityDeque/Refine.antt =====
-- A `TaskPriorityDeque` behaves as a bounded list for each priority, of which a pop takes the first
-- that is not empty.
use async_lib.Base.{
  ◌≡◌, refl, ap, ◌∙◌, subst, arith, true, false, Option, none, some, List, [], ◌∷◌, if◌then◌else◌,
  Bool-cases, inl, inr,
}
use async_lib.Concurrent.TaskDeque
use async_lib.Concurrent.TaskDeque.{TaskDeque, capacity}
use async_lib.Concurrent.TaskDeque.Inv.{
  Inv, push_front-Inv, push_back-Inv, pop_front-Inv, pop_back-Inv,
}
use async_lib.Concurrent.TaskDeque.Spec
use async_lib.Concurrent.TaskDeque.Window.{contents}
use async_lib.Concurrent.TaskDeque.Refine.{
  push_front_refines, push_back_refines, pop_front_refines, pop_back_refines,
}
use async_lib.Concurrent.TaskPriorityDeque.{
  TaskPriority, critical, high, default, low, same_priority, TaskPriorityDeque, push_front,
  push_back, pop_front_at, pop_back_at, pop_front_from, pop_back_from,
}
use async_lib.Concurrent.TaskPriorityDeque.Level.{
  level, Agrees-Inv, Agrees-contents, At, same_priority_self, push_front-At, push_back-At, tried,
  pop_front_at-At, pop_back_at-At,
}

same_priority→eq : (p p' : TaskPriority) → same_priority p p' ≡ true → p ≡ p'
same_priority→eq critical critical h = refl
same_priority→eq critical high h = cc
same_priority→eq critical default h = cc
same_priority→eq critical low h = cc
same_priority→eq high critical h = cc
same_priority→eq high high h = refl
same_priority→eq high default h = cc
same_priority→eq high low h = cc
same_priority→eq default critical h = cc
same_priority→eq default high h = cc
same_priority→eq default default h = refl
same_priority→eq default low h = cc
same_priority→eq low critical h = cc
same_priority→eq low high h = cc
same_priority→eq low default h = cc
same_priority→eq low low h = refl

module _ {T : Type 0} where
  -- The lists with that of one priority replaced.
  abbrev pub set : TaskPriority → List T → (TaskPriority → List T) → TaskPriority → List T
  set p l v p' = if same_priority p p' then l else v p'

  -- The deque is valid and holds the lists `v`.
  pub record Holds (q : TaskPriorityDeque T) (v : TaskPriority → List T) : Type 0 where
    pub valid : (p : TaskPriority) → Inv (level p q)
    pub lists : (p : TaskPriority) → contents (level p q) ≡ v p

  -- An operation with its answer, against a change of the lists.
  pub record Meets (r : Option T × TaskPriorityDeque T) (x : Option T × (TaskPriority → List T))
      : Type 0 where
    pub answer : r.0 ≡ x.0
    pub holds : Holds r.1 x.1

  -- An operation that does to one level what the bounded list does.
  At-Meets :
      (p : TaskPriority) (q : TaskPriorityDeque T) (v : TaskPriority → List T)
      (r : Option T × TaskPriorityDeque T) (d : Option T × TaskDeque T) (x : Option T × List T)
      → Holds q v
      → At p q r d
      → Inv d.1
      → ◌≡◌ {A = Option T × List T} (d.0, contents d.1) x
      → Meets r (x.0, set p x.1 v)
  At-Meets p q v r d x h a i e = record {
    answer = a.answer ∙ ap (λ y. y.0) e;
    holds = record {
      valid = λ p'. elim (Bool-cases (same_priority p p')) [
        | inl same ↦
            subst (λ p'. Inv (level p' r.1)) (same_priority→eq p p' same)
              (Agrees-Inv (level p r.1) d.1 a.here i)
        | inr other ↦ Agrees-Inv (level p' r.1) (level p' q) (a.there p' other) (h.valid p')
      ];
      lists = λ p'. elim (Bool-cases (same_priority p p')) [
        | inl same ↦
            subst (λ p'. contents (level p' r.1) ≡ set p x.1 v p') (same_priority→eq p p' same)
              (Agrees-contents (level p r.1) d.1 a.here ∙ ap (λ y. y.1) e ∙ set_self x.1)
        | inr other ↦
            Agrees-contents (level p' r.1) (level p' q) (a.there p' other)
            ∙ h.lists p'
            ∙ set_other x.1 other
      ];
    };
  }
    where
      set_self : (l : List T) → l ≡ set p l v p
      set_self l = rw (same_priority_self p) refl

      set_other :
          (l : List T) {p' : TaskPriority} → same_priority p p' ≡ false → v p' ≡ set p l v p'
      set_other l other = rw other refl

  pub push_front-Meets :
      (t : T) (p : TaskPriority) (q : TaskPriorityDeque T) (v : TaskPriority → List T)
      → Holds q v
      → Meets
          (push_front t p q)
          ((Spec.push_front capacity t (v p)).0, set p (Spec.push_front capacity t (v p)).1 v)
  push_front-Meets t p q v h =
      At-Meets p q v (push_front t p q) (TaskDeque.push_front t (level p q))
        (Spec.push_front capacity t (v p)) h (push_front-At t p q)
        (push_front-Inv t (level p q) (h.valid p))
        (push_front_refines (level p q) (h.valid p) t ∙ ap (Spec.push_front capacity t) (h.lists p))

  pub push_back-Meets :
      (t : T) (p : TaskPriority) (q : TaskPriorityDeque T) (v : TaskPriority → List T)
      → Holds q v
      → Meets
          (push_back t p q)
          ((Spec.push_back capacity t (v p)).0, set p (Spec.push_back capacity t (v p)).1 v)
  push_back-Meets t p q v h =
      At-Meets p q v (push_back t p q) (TaskDeque.push_back t (level p q))
        (Spec.push_back capacity t (v p)) h (push_back-At t p q)
        (push_back-Inv t (level p q) (h.valid p))
        (push_back_refines (level p q) (h.valid p) t ∙ ap (Spec.push_back capacity t) (h.lists p))

  -- A pop from the first list that is not empty, in the order given.
  unfoldable pub spec_pop :
      (List T → Option T × List T)
      → List TaskPriority
      → (TaskPriority → List T)
      → Option T × (TaskPriority → List T)
  spec_pop op [] v = (none, v)
  spec_pop op (p ∷ ps) v = elim (op (v p)).0 [
    | none ↦ spec_pop op ps v
    | some t ↦ (some t, set p (op (v p)).1 v)
  ]

  next_round :
      (q : TaskPriorityDeque T) (o : Option (T × TaskPriorityDeque T)) (x : Option T)
      (v' : TaskPriority → List T) (rest : Option T × TaskPriorityDeque T)
      (spec_rest : Option T × (TaskPriority → List T))
      → Meets (tried o q) (x, v')
      → Meets rest spec_rest
      → Meets
          (elim o [ none ↦ rest | some (t, q') ↦ (some t, q') ])
          (elim x [ none ↦ spec_rest | some t ↦ (some t, v') ])
  next_round q none none v' rest spec_rest m k = k
  next_round q none (some t) v' rest spec_rest m k = absurd (ground (arith, m.answer))
  next_round q (some (t, q')) none v' rest spec_rest m k = absurd (ground (arith, m.answer))
  next_round q (some (t, q')) (some t') v' rest spec_rest m k = m

  pub pop_front_from-Meets :
      (null : T) (ps : List TaskPriority) (q : TaskPriorityDeque T) (v : TaskPriority → List T)
      → Holds q v
      → Meets (pop_front_from null ps q) (spec_pop Spec.pop_front ps v)
  unfolding pop_front_from spec_pop
  pop_front_from-Meets null [] q v h = record { answer = refl; holds = h }
  pop_front_from-Meets null (p ∷ ps) q v h =
      next_round q (pop_front_at null p q) (Spec.pop_front (v p)).0
        (set p (Spec.pop_front (v p)).1 v) (pop_front_from null ps q) (spec_pop Spec.pop_front ps v)
        (At-Meets p q v (tried (pop_front_at null p q) q) (TaskDeque.pop_front null (level p q))
          (Spec.pop_front (v p)) h (pop_front_at-At null p q)
          (pop_front-Inv null (level p q) (h.valid p))
          (pop_front_refines (level p q) (h.valid p) null ∙ ap Spec.pop_front (h.lists p)))
        (pop_front_from-Meets null ps q v h)

  pub pop_back_from-Meets :
      (null : T) (ps : List TaskPriority) (q : TaskPriorityDeque T) (v : TaskPriority → List T)
      → Holds q v
      → Meets (pop_back_from null ps q) (spec_pop Spec.pop_back ps v)
  unfolding pop_back_from spec_pop
  pop_back_from-Meets null [] q v h = record { answer = refl; holds = h }
  pop_back_from-Meets null (p ∷ ps) q v h =
      next_round q (pop_back_at null p q) (Spec.pop_back (v p)).0 (set p (Spec.pop_back (v p)).1 v)
        (pop_back_from null ps q) (spec_pop Spec.pop_back ps v)
        (At-Meets p q v (tried (pop_back_at null p q) q) (TaskDeque.pop_back null (level p q))
          (Spec.pop_back (v p)) h (pop_back_at-At null p q (h.valid p))
          (pop_back-Inv null (level p q) (h.valid p))
          (pop_back_refines (level p q) (h.valid p) null ∙ ap Spec.pop_back (h.lists p)))
        (pop_back_from-Meets null ps q v h)

-- ===== src/Concurrent/TaskPriorityLockDeque/Laws.antt =====
-- `TaskPriorityLockDeque` against a list for each priority, and its count of the tasks.
use async_lib.Base.{
  ℕ, zero, suc, ◌+◌, ◌<◌, ◌≡◌, ◌≢◌, ◌⊎◌, refl, ap, sym, arith, false, Option, none, some, List, [],
  ◌∷◌, length, ◌==◌, if◌then◌else◌, ℕ_discrete, List-cases, Option-cases, inl, inr,
}
use async_lib.Concurrent.TaskDeque.Spec
use async_lib.Concurrent.TaskDeque.Spec.{unsnoc, length-pop_front}
use async_lib.Concurrent.TaskPriorityDeque.{
  TaskPriority, critical, high, default, low, task_priorities,
}
use async_lib.Concurrent.TaskPriorityDeque.Refine.{spec_pop}
use async_lib.Concurrent.TaskPriorityLockDeque.{
  TaskPriorityLockDeque, Outcome, returns, undefined, put, pop_front, pop_back, front_or, back_or,
  flush,
}

module _ {T : Type 0} where
  abbrev pub total : TaskPriorityLockDeque T → ℕ
  total q =
      length (q.queues critical)
      + length (q.queues high)
      + length (q.queues default)
      + length (q.queues low)

  -- A pop of a list, as an outcome of the deque: nothing to take is the missing return.
  abbrev pub answer_of :
      TaskPriorityLockDeque T
      → Option T × (TaskPriority → List T)
      → Outcome (Option T × TaskPriorityLockDeque T)
  answer_of q (none, v) = undefined
  answer_of q (some t, v) = returns (some t, record q { queues = v })

  pop_front_rest :
      {t : T} {r : List T} (l : List T) → unsnoc l ≡ some (t, r) → (Spec.pop_front l).1 ≡ r
  pop_front_rest l e = rw (e, Spec.pop_front) refl

  -- One `if` of a pop is a round of the abstract one.
  front_or-round :
      (p : TaskPriority) (ps : List TaskPriority) (q : TaskPriorityLockDeque T)
      (next : Outcome (Option T × TaskPriorityLockDeque T))
      → next ≡ answer_of q (spec_pop Spec.pop_back ps q.queues)
      → front_or p next q ≡ answer_of q (spec_pop Spec.pop_back (p ∷ ps) q.queues)
  unfolding spec_pop
  front_or-round p ps q next e = elim (List-cases (q.queues p)) [
    | inl l ↦ rw (l, front_or, spec_pop) e
    | inr (t, ts, l) ↦
        rw (l, front_or, spec_pop)
          (ap (λ r. returns (some t, put p r q)) (sym (ap (λ x. (Spec.pop_back x).1) l)))
  ]

  back_or-round :
      (p : TaskPriority) (ps : List TaskPriority) (q : TaskPriorityLockDeque T)
      (next : Outcome (Option T × TaskPriorityLockDeque T))
      → next ≡ answer_of q (spec_pop Spec.pop_front ps q.queues)
      → back_or p next q ≡ answer_of q (spec_pop Spec.pop_front (p ∷ ps) q.queues)
  unfolding spec_pop
  back_or-round p ps q next e = elim (Option-cases (unsnoc (q.queues p))) [
    | inl l ↦ rw (l, back_or, spec_pop) e
    | inr ((t, r), l) ↦
        rw (l, back_or, spec_pop)
          (ap (λ r. returns (some t, put p r q)) (sym (pop_front_rest (q.queues p) l)))
  ]

  nonzero : (q : TaskPriorityLockDeque T) → q.elems ≢ 0 → (q.elems == 0) ≡ false
  nonzero q h = ground arith

  -- With the count 0 both pops answer nothing and change nothing, whatever the lists hold. With
  -- another count, PopFront takes the head of the first list that is not empty, in the order of the
  -- priorities, and PopBack takes the end of it; where all are empty, both run off the end without a
  -- return.
  pub lock_pops_lem :
      (q : TaskPriorityLockDeque T)
      → (pop_front q ≡ (
          if q.elems == 0
          then returns (none, q)
          else answer_of q (spec_pop Spec.pop_back task_priorities q.queues)))
        × (pop_back q ≡ (
            if q.elems == 0
            then returns (none, q)
            else answer_of q (spec_pop Spec.pop_front task_priorities q.queues)))
  unfolding pop_front pop_back spec_pop
  lock_pops_lem q = elim (ℕ_discrete q.elems 0) [
    | yes e ↦ rw e (refl, refl)
    | no ne ↦ rw (nonzero q ne) (
      front_or-round critical (high ∷ default ∷ low ∷ []) q _ (
          front_or-round high (default ∷ low ∷ []) q _
            (front_or-round default (low ∷ []) q _ (front_or-round low [] q undefined refl))),
      back_or-round critical (high ∷ default ∷ low ∷ []) q _ (
          back_or-round high (default ∷ low ∷ []) q _
            (back_or-round default (low ∷ []) q _ (back_or-round low [] q undefined refl))),
    )
  ]

  -- What a pop with a count other than 0 leaves: fewer tasks and the same count.
  abbrev Progress : TaskPriorityLockDeque T → Outcome (Option T × TaskPriorityLockDeque T) → Type 0
  Progress q r =
      (r ≡ undefined)
      ⊎ ((x : Option T × TaskPriorityLockDeque T) × (r ≡ returns x)
          × (x.1.elems ≡ q.elems)
          × (total x.1 < total q))

  front_or-Progress :
      (p : TaskPriority) (next : Outcome (Option T × TaskPriorityLockDeque T))
      (q : TaskPriorityLockDeque T)
      → Progress q next
      → Progress q (front_or p next q)
  front_or-Progress p next q h = elim (List-cases (q.queues p)) [
    | inl l ↦ rw (l, front_or) h
    | inr (t, ts, l) ↦ inr ((some t, put p ts q), rw (l, front_or) refl, refl, less p l)
  ]
    where
      less :
          {t : T} {ts : List T} (p : TaskPriority)
          → q.queues p ≡ t ∷ ts
          → total (put p ts q) < total q
      less critical l = omega (arith, ap length l)
      less high l = omega (arith, ap length l)
      less default l = omega (arith, ap length l)
      less low l = omega (arith, ap length l)

  progress : (q : TaskPriorityLockDeque T) → q.elems ≢ 0 → Progress q (pop_front q)
  unfolding pop_front
  progress q h = rw (nonzero q h) (
      front_or-Progress critical _ q (
        front_or-Progress high _ q
          (front_or-Progress default _ q (front_or-Progress low undefined q (inl refl)))))

  -- Flush of a deque with a count other than 0 reaches the missing return, with one round of fuel
  -- more than there are tasks.
  pub lock_flush_undefined :
      (fuel : ℕ) (q : TaskPriorityLockDeque T)
      → q.elems ≢ 0
      → total q < fuel
      → flush fuel q ≡ some undefined
  unfolding flush
  lock_flush_undefined zero q h enough = absurd (omega arith)
  lock_flush_undefined (suc fuel) q h enough = elim (progress q h) [
    | inl e ↦ rw (nonzero q h, e) refl
    | inr ((t, q'), e, same, less) ↦
        rw (nonzero q h, e) (lock_flush_undefined fuel q' (rw same h) (omega arith))
  ]

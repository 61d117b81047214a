-- ===== src/Concurrent/TaskDeque/Run.antt =====
-- A client's calls on a `TaskDeque` in order, against the bounded list; Size, Empty and Flush.
use async_lib.Base.{
  true, false, List-cases, ◌∙◌, ℕ, zero, suc, ◌<◌, ◌≡◌, ap, refl, Option, none, some, List, [], ◌∷◌,
  arith, length, ◌==◌, if◌then◌else◌, Bool-cases, inl, inr,
}
use async_lib.Concurrent.TaskDeque.{
  TaskDeque, capacity, mask, push_front, pop_front, push_back, pop_back, is_empty, size,
}
use async_lib.Concurrent.TaskDeque.Inv.{
  used, Inv, is_empty-eq, size-eq-used, push_front-Inv, pop_front-Inv, push_back-Inv, pop_back-Inv,
}
use async_lib.Concurrent.TaskDeque.Spec
use async_lib.Concurrent.TaskDeque.Spec.{length-pop_front, eq_nil_of_length}
use async_lib.Concurrent.TaskDeque.Window.{contents, length-window}
use async_lib.Concurrent.TaskDeque.Refine.{
  push_front_refines, pop_front_refines, push_back_refines, pop_back_refines,
}

pub data Call (T : Type 0) : Type 0 where
  pushes_front pushes_back : T → Call T
  pops_front pops_back : Call T

module _ {T : Type 0} (null : T) where
  unfoldable pub call : Call T → TaskDeque T → Option T × TaskDeque T
  call (pushes_front t) q = push_front t q
  call (pushes_back t) q = push_back t q
  call pops_front q = pop_front null q
  call pops_back q = pop_back null q

  pub spec_call : Call T → List T → Option T × List T
  spec_call (pushes_front t) l = Spec.push_front capacity t l
  spec_call (pushes_back t) l = Spec.push_back capacity t l
  spec_call pops_front l = Spec.pop_front l
  spec_call pops_back l = Spec.pop_back l

  -- What each call of a sequence returns.
  unfoldable pub run : TaskDeque T → List (Call T) → List (Option T)
  run q [] = []
  run q (c ∷ cs) = (call c q).0 ∷ run (call c q).1 cs

  pub spec_run : List T → List (Call T) → List (Option T)
  spec_run l [] = []
  spec_run l (c ∷ cs) = (spec_call c l).0 ∷ spec_run (spec_call c l).1 cs

  -- Each of the four calls keeps the invariant of the deque.
  pub call-Inv : (c : Call T) (q : TaskDeque T) → Inv q → Inv (call c q).1
  unfolding call
  call-Inv (pushes_front t) q v = push_front-Inv t q v
  call-Inv (pushes_back t) q v = push_back-Inv t q v
  call-Inv pops_front q v = pop_front-Inv null q v
  call-Inv pops_back q v = pop_back-Inv null q v

  call_refines :
      (c : Call T) (q : TaskDeque T)
      → Inv q
      → ◌≡◌ {A = Option T × List T} ((call c q).0, contents (call c q).1) (spec_call c (contents q))
  unfolding call spec_call
  call_refines (pushes_front t) q v = push_front_refines q v t
  call_refines (pushes_back t) q v = push_back_refines q v t
  call_refines pops_front q v = pop_front_refines q v null
  call_refines pops_back q v = pop_back_refines q v null

  -- No sequence of pushes and pops at the two ends tells a valid deque from the list of at most
  -- `capacity` tasks that it holds.
  pub run_refines :
      (cs : List (Call T)) (q : TaskDeque T) → Inv q → run q cs ≡ spec_run (contents q) cs
  unfolding run spec_run
  run_refines [] q v = refl
  run_refines (c ∷ cs) q v = rw (run_refines cs (call c q).1 (call-Inv c q v), ← call_refines c q v)

  -- `size` is the number of tasks held, and `is_empty` holds exactly when there is none.
  pub size-contents :
      (q : TaskDeque T)
      → Inv q
      → (size q ≡ length (contents q)) × (is_empty q ≡ (length (contents q) == 0))
  size-contents q v = ground (
    arith,
    size-eq-used q v,
    is_empty-eq q,
    length-window q.array (mask q.back) (used q.front q.back),
  )

  -- A pop at the back fails exactly on a deque that Empty finds empty.
  pub pop_back_when_empty : (q : TaskDeque T) → is_empty q ≡ true → pop_back null q ≡ (none, q)
  unfolding pop_back
  pop_back_when_empty q e = rw e refl

  pub pop_back_when_not_empty :
      (q : TaskDeque T) → Inv q → is_empty q ≡ false → (t : T) × ((pop_back null q).0 ≡ some t)
  pop_back_when_not_empty q v e = elim (List-cases (contents q)) [
    | inl nil ↦ absurd (ground (arith, (size-contents q v).1))
    | inr (t, l, cons) ↦
        (t, ap (λ r. r.0) (pop_back_refines q v null) ∙ ap (λ l. (Spec.pop_back l).0) cons)
  ]

  -- `Flush`, on fuel: `while (!Empty()) PopFront()`.
  pub flush : ℕ → TaskDeque T → Option (TaskDeque T)
  flush zero q = none
  flush (suc fuel) q =
      let rest = flush fuel (pop_front null q).1 in if is_empty q then some q else rest

  -- One round of fuel more than there are tasks is enough for `flush`: it ends with a valid, empty deque.
  pub flush_ends :
      (fuel : ℕ) (q : TaskDeque T)
      → Inv q
      → length (contents q) < fuel
      → (q' : TaskDeque T) × (flush fuel q ≡ some q') × (contents q' ≡ []) × Inv q'
  unfolding flush
  flush_ends zero q v enough = absurd (omega arith)
  flush_ends (suc fuel) q v enough = elim (Bool-cases (is_empty q)) [
    | inl done ↦
        (q, rw done, eq_nil_of_length (contents q) (ground (arith, (size-contents q v).1)), v)
    | inr more ↦ rw more (
        flush_ends fuel (pop_front null q).1 (pop_front-Inv null q v) (
          ground (
            arith,
            (size-contents q v).1,
            ap (λ r. r.1) (pop_front_refines q v null),
            length-pop_front (contents q),
          )))
  ]

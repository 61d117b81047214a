-- ===== src/Concurrent/NonBlockingWorkQueue/Weigh.antt =====
-- The weight of the tasks that a deque holds, before and after each of its operations.
use async_lib.Base.{◌∙◌, ℕ, ◌+◌, ◌≡◌, refl, ap, arith, Option, none, some, List, [], ◌∷◌}
use async_lib.Base.Sums.{weigh, weigh-append}
use async_lib.Concurrent.TaskDeque
use async_lib.Concurrent.TaskDeque.{TaskDeque, capacity}
use async_lib.Concurrent.TaskDeque.Inv.{Inv}
use async_lib.Concurrent.TaskDeque.Spec
use async_lib.Concurrent.TaskDeque.Spec.{unsnoc}
use async_lib.Concurrent.TaskDeque.Window.{contents}
use async_lib.Concurrent.TaskDeque.Refine.{
  push_front_refines, pop_front_refines, push_back_refines, pop_back_refines,
}

module _ {T : Type 0} (f : T → ℕ) where
  -- The weight of an answer.
  abbrev pub handed : Option T → ℕ
  handed none = 0
  handed (some t) = f t

  weigh-push_front :
      (t : T) (l : List T)
      → weigh f (Spec.push_front capacity t l).1 + handed (Spec.push_front capacity t l).0
        ≡ weigh f l + f t
  weigh-push_front t l = ground (arith, weigh-append f l (t ∷ []))

  weigh-push_back :
      (t : T) (l : List T)
      → weigh f (Spec.push_back capacity t l).1 + handed (Spec.push_back capacity t l).0
        ≡ weigh f l + f t
  weigh-push_back t l = ground arith

  weigh-pop_front :
      (l : List T) → weigh f (Spec.pop_front l).1 + handed (Spec.pop_front l).0 ≡ weigh f l
  weigh-pop_front [] = refl
  weigh-pop_front (x ∷ l) = ground (arith, weigh-pop_front l)

  weigh-pop_back :
      (l : List T) → weigh f (Spec.pop_back l).1 + handed (Spec.pop_back l).0 ≡ weigh f l
  weigh-pop_back [] = refl
  weigh-pop_back (x ∷ l) = omega arith

  -- The weight that an operation leaves in the deque, with that of its answer.
  abbrev pub after : Option T × TaskDeque T → ℕ
  after r = weigh f (contents r.1) + handed r.0

  abbrev spec_after : Option T × List T → ℕ
  spec_after r = weigh f r.1 + handed r.0

  module _ (q : TaskDeque T) (v : Inv q) where
    pub push_front_weight : (t : T) → after (TaskDeque.push_front t q) ≡ weigh f (contents q) + f t
    push_front_weight t = ap spec_after (push_front_refines q v t) ∙ weigh-push_front t (contents q)

    pub push_back_weight : (t : T) → after (TaskDeque.push_back t q) ≡ weigh f (contents q) + f t
    push_back_weight t = ap spec_after (push_back_refines q v t) ∙ weigh-push_back t (contents q)

    pub pop_front_weight : (null : T) → after (TaskDeque.pop_front null q) ≡ weigh f (contents q)
    pop_front_weight null =
        ap spec_after (pop_front_refines q v null) ∙ weigh-pop_front (contents q)

    pub pop_back_weight : (null : T) → after (TaskDeque.pop_back null q) ≡ weigh f (contents q)
    pop_back_weight null = ap spec_after (pop_back_refines q v null) ∙ weigh-pop_back (contents q)

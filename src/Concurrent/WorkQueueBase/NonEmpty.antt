-- ===== src/Concurrent/WorkQueueBase/NonEmpty.antt =====
-- NonEmptyQueueIndex of work_queue_base.h, as a check on all the queues of a pool.
use async_lib.Base.{
  ℕ_discrete, ℕ, zero, suc, ◌%◌, ◌^◌, ◌≤◌, ◌<◌, ◌≡◌, ◌≢◌, arith, inl, inr, true, false, Bool-cases,
  Option, none, some, length, get_elem, ◌==◌, if◌then◌else◌,
}
use async_lib.Concurrent.Coprimes.{fast_reduce, next_victim}
use async_lib.Concurrent.Coprimes.Bezout.{Coprime, divides_one}
use async_lib.Concurrent.Coprimes.Walk.{victim_at, next_victim_lem, fast_reduce_lt}
use async_lib.Concurrent.WorkQueueBase.{
  Derived, WorkQueueBase, non_empty_from, non_empty_queue_index,
}
use async_lib.Concurrent.WorkQueueBase.Steal.{
  DerivedLaws, IsReady, AllEmpty, step_lem, coprimes_bounds, all_met, met_next,
}

mod_lt : (a b : ℕ) → 0 < b → a % b < b
mod_lt a b h = grind arith

==_true : (a b : ℕ) → a ≡ b → (a == b) ≡ true
==_true a b e = ground arith

==_false : (a b : ℕ) → a ≢ b → (a == b) ≡ false
==_false a b e = ground arith

module _ {Q T : Type 0} (derived : Derived Q T) (p : WorkQueueBase Q) where
  -- What the answer says: an index of a queue that holds a task, or that none does.
  abbrev pub Answered : Option ℕ → Type 0
  Answered none = AllEmpty derived p
  Answered (some i) = (i < p.num_threads) × (derived.is_empty (p.queue i) ≡ false)

  -- The same of a search that is under way.
  abbrev Searched : ℕ → ℕ → ℕ → Option ℕ → Type 0
  Searched left inc v none =
      (j : ℕ) → j < left → derived.is_empty (p.queue (victim_at p.num_threads inc v j)) ≡ true
  Searched left inc v (some i) = (i < p.num_threads) × (derived.is_empty (p.queue i) ≡ false)

module _ {Q T : Type 0} (derived : Derived Q T) (IsValid : Q → Type 0)
    (laws : DerivedLaws derived IsValid) (p : WorkQueueBase Q) (ready : IsReady IsValid p) where
  abbrev n : ℕ
  n = p.num_threads

  next_Searched :
      (left inc v : ℕ) (o : Option ℕ)
      → derived.is_empty (p.queue v) ≡ true
      → Searched derived p left inc (next_victim n inc v) o
      → Searched derived p (suc left) inc v o
  next_Searched left inc v none e s = met_next derived IsValid laws p ready left inc v e s
  next_Searched left inc v (some i) e s = s

  non_empty_from-Searched :
      (left inc v : ℕ)
      → v < n
      → inc ≤ n
      → Searched derived p left inc v (non_empty_from derived left inc v p)
  unfolding non_empty_from
  non_empty_from-Searched zero inc v h k = λ j l. absurd (omega arith)
  non_empty_from-Searched (suc left) inc v h k = elim (Bool-cases (derived.is_empty (p.queue v))) [
    | inl e ↦
        rw (non_empty_from, e)
          (next_Searched left inc v (non_empty_from derived left inc (next_victim n inc v) p) e (
            non_empty_from-Searched left inc (next_victim n inc v)
              (next_victim_lem n inc v h k ready.bound).0 k))
    | inr e ↦ rw (non_empty_from, e) (h, e)
  ]

  -- The step that the walk takes.
  abbrev step : ℕ → ℕ
  step r = if n == 1 then 1 else get_elem p.coprimes (r % length p.coprimes)

  step-Coprime : (r : ℕ) → (0 < step r) × (step r ≤ n) × Coprime (step r) n
  step-Coprime r =
      let (pos, few) = coprimes_bounds derived IsValid laws p ready in
      let drawn =
        step_lem derived IsValid laws p ready (r % length p.coprimes)
          (mod_lt r (length p.coprimes) pos) in
      elim (ℕ_discrete n 1) [
        | yes e ↦
            rw (==_true n 1 e)
              (omega arith, omega arith, λ d (k, e) _. divides_one d k 0 (omega (arith, e)))
        | no ne ↦ rw (==_false n 1 ne) drawn
      ]

  answered :
      (r : ℕ) (o : Option ℕ)
      → r < 2 ^ 32
      → Searched derived p n (step r) (fast_reduce r n) o
      → Answered derived p o
  answered r none h s =
      let (pos, k, c) = step-Coprime r in
      all_met derived IsValid laws p ready (step r) (fast_reduce r n)
        (fast_reduce_lt r n h ready.positive (omega (arith, ready.bound))) pos k c s
  answered r (some i) h s = s

  -- NonEmptyQueueIndex answers with the index of a queue that holds a task, or with -1 exactly
  -- because every queue of the pool is empty.
  pub non_empty_queue_index-Answered :
      (r : ℕ) → r < 2 ^ 32 → Answered derived p (non_empty_queue_index derived r p)
  unfolding non_empty_queue_index
  non_empty_queue_index-Answered r h =
      answered r (non_empty_from derived n (step r) (fast_reduce r n) p) h (
        non_empty_from-Searched n (step r) (fast_reduce r n)
          (fast_reduce_lt r n h ready.positive (omega (arith, ready.bound))) (step-Coprime r).1)

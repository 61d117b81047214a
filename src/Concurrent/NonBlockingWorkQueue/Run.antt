-- ===== src/Concurrent/NonBlockingWorkQueue/Run.antt =====
-- The calls on a pool in any order: adding tasks, taking the next one, and stealing.
use async_lib.Base.{
  ℕ, ◌+◌, ◌<◌, ◌≡◌, ◌^◌, refl, ap, sym, subst, arith, Option, List, [], ◌∷◌, inl, inr,
}
use async_lib.Base.Sums.{weigh}
use async_lib.Concurrent.TaskDeque
use async_lib.Concurrent.TaskDeque.{TaskDeque}
use async_lib.Concurrent.TaskDeque.Inv.{init-Inv, Inv, pop_front-Inv, pop_back-Inv}
use async_lib.Concurrent.TaskDeque.Run.{pop_back_when_empty, pop_back_when_not_empty}
use async_lib.Concurrent.WorkQueueBase
use async_lib.Concurrent.WorkQueueBase.Steal.{DerivedLaws, IsReady, steal_lem}
use async_lib.Concurrent.NonBlockingWorkQueue.{
  Task, plain, Caller, Pool, derived, next_task, steal, add_task,
}
use async_lib.Concurrent.NonBlockingWorkQueue.Weigh.{handed, pop_front_weight, pop_back_weight}
use async_lib.Concurrent.NonBlockingWorkQueue.Keep.{
  w, weight, Kept, put-Ready, weight_put, IsCaller, add_task-Kept,
}

pub data Call (T : Type 0) : Type 0 where
  adds : Caller → T → Call T
  nexts : (thread_id : ℕ) → Call T
  steals : (draw : ℕ) → Call T

module _ {T : Type 0} (null : T) where
  -- The operations of the deque that the pool relies on.
  pub derived-Laws : DerivedLaws (derived null) Inv
  derived-Laws = record {
    steal_empty = λ q v e. pop_back_when_empty (plain null) q e;
    steal_some = λ q v e. pop_back_when_not_empty (plain null) q v e;
  }

  pub next_task-Kept :
      (f : T → ℕ) (i : ℕ) (p : Pool T)
      → IsReady Inv p
      → i < p.num_threads
      → Kept f 0 p (next_task null i p)
  unfolding next_task
  next_task-Kept f i p ready h =
      let v = ready.valid i h in
      let q = TaskDeque.pop_front (plain null) (p.queue i) in
      (
        put-Ready p i q.1 ready (pop_front-Inv (plain null) (p.queue i) v),
        omega (arith, pop_front_weight (w f) (p.queue i) v (plain null), weight_put f p i q.1 h),
      )

  steal-Kept :
      (f : T → ℕ) (r : ℕ) (p : Pool T) → IsReady Inv p → r < 2 ^ 32 → Kept f 0 p (steal null r p)
  unfolding steal
  steal-Kept f r p ready h = elim (steal_lem (derived null) Inv derived-Laws p ready r h) [
    | inl (a, e) ↦ subst (Kept f 0 p) (sym e) (ready, omega arith)
    | inr s ↦
        let v = ready.valid s.from s.inside in
        let q = TaskDeque.pop_back (plain null) (p.queue s.from) in
        subst (Kept f 0 p) (sym s.result) (
          put-Ready p s.from q.1 ready (pop_back-Inv (plain null) (p.queue s.from) v),
          omega (
            arith,
            pop_back_weight (w f) (p.queue s.from) v (plain null),
            weight_put f p s.from q.1 s.inside,
            ap (handed (w f)) s.found,
          ),
        )
  ]

  unfoldable pub call : Call T → Pool T → Option (Task T) × Pool T
  call (adds caller t) p = add_task caller t p
  call (nexts i) p = next_task null i p
  call (steals r) p = steal null r p

  -- A known caller; the calls of a sequence keep the number of threads.
  abbrev pub IsAllowed : Call T → Pool T → Type 0
  IsAllowed (adds caller t) p = IsCaller p caller
  IsAllowed (nexts i) p = i < p.num_threads
  IsAllowed (steals r) p = r < 2 ^ 32

  abbrev pub AllAllowed : List (Call T) → Pool T → Type 0
  AllAllowed [] p = Unit
  AllAllowed (c ∷ cs) p = IsAllowed c p × AllAllowed cs (call c p).1

  -- The tasks that the calls hand out to be run, and the pool at the end.
  unfoldable pub run : List (Call T) → Pool T → List (Option (Task T)) × Pool T
  run [] p = ([], p)
  run (c ∷ cs) p = let (t, p1) = call c p in let (ts, p2) = run cs p1 in (t ∷ ts, p2)

  -- The weight of the tasks that are added.
  abbrev pub added : (T → ℕ) → List (Call T) → ℕ
  added f [] = 0
  added f (adds caller t ∷ cs) = f t + added f cs
  added f (nexts i ∷ cs) = added f cs
  added f (steals r ∷ cs) = added f cs

  abbrev added_by : (T → ℕ) → Call T → ℕ
  added_by f (adds caller t) = f t
  added_by f _ = 0

  added-cons :
      (f : T → ℕ) (c : Call T) (cs : List (Call T)) → added f (c ∷ cs) ≡ added_by f c + added f cs
  added-cons f (adds caller t) cs = refl
  added-cons f (nexts i) cs = omega arith
  added-cons f (steals r) cs = omega arith

  call-Kept :
      (f : T → ℕ) (c : Call T) (p : Pool T)
      → IsReady Inv p
      → IsAllowed c p
      → Kept f (added_by f c) p (call c p)
  unfolding call
  call-Kept f (adds caller t) p ready ok = add_task-Kept f caller t p ready ok
  call-Kept f (nexts i) p ready ok = next_task-Kept f i p ready ok
  call-Kept f (steals r) p ready ok = steal-Kept f r p ready ok

  -- Over any sequence of calls, whatever the weight `f` of a task, the tasks handed out to be run
  -- and those left in the queues weigh as much together as those added and those there before. So
  -- no task is lost, and none is handed out twice.
  pub run-weight :
      (f : T → ℕ) (cs : List (Call T)) (p : Pool T)
      → IsReady Inv p
      → AllAllowed cs p
      → let (ts, p') = run cs p in weigh (handed (w f)) ts + weight f p' ≡ added f cs + weight f p
  unfolding run
  run-weight f [] p ready ok = refl
  run-weight f (c ∷ cs) p ready (ok, oks) =
      let (ready1, e) = call-Kept f c p ready ok in
      omega (arith, e, run-weight f cs (call c p).1 ready1 oks, added-cons f c cs)

  pub run-Ready :
      (cs : List (Call T)) (p : Pool T) → IsReady Inv p → AllAllowed cs p → IsReady Inv (run cs p).1
  unfolding run
  run-Ready [] p ready ok = ready
  run-Ready (c ∷ cs) p ready (ok, oks) =
      run-Ready cs (call c p).1 (call-Kept (λ _. 0) c p ready ok).0 oks

-- A new pool of `n` workers.
pub new_pool-Ready :
    {T : Type 0} (null : T) (n : ℕ)
    → 0 < n
    → n < 2 ^ 31
    → IsReady Inv (WorkQueueBase.init n (λ _. TaskDeque.init (plain null)))
unfolding WorkQueueBase.init
new_pool-Ready null n h k = record {
  positive = h;
  bound = k;
  coprimes_built = refl;
  valid = λ i l. init-Inv (plain null);
}

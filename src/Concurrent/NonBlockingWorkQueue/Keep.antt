-- ===== src/Concurrent/NonBlockingWorkQueue/Keep.antt =====
-- The tasks of a pool before and after each of its operations, by a weight for each task.
use async_lib.Base.{
  ℕ, ◌+◌, ◌<◌, ◌≡◌, ◌^◌, refl, ap, sym, ◌∙◌, arith, Option, none, some, Bool, true, false,
  ℕ_discrete,
}
use async_lib.Base.Family.{update, update_self, update_ne}
use async_lib.Base.Sums.{weigh, total, total_at}
use async_lib.Concurrent.Coprimes.{fast_reduce, compute_coprimes}
use async_lib.Concurrent.Coprimes.Walk.{fast_reduce_lt}
use async_lib.Concurrent.TaskDeque
use async_lib.Concurrent.TaskDeque.{TaskDeque}
use async_lib.Concurrent.TaskDeque.Inv.{Inv, push_front-Inv, push_back-Inv}
use async_lib.Concurrent.TaskDeque.Window.{contents}
use async_lib.Concurrent.WorkQueueBase.{is_notify_parked_thread_required}
use async_lib.Concurrent.WorkQueueBase.Steal.{IsReady}
use async_lib.Concurrent.NonBlockingWorkQueue.{
  Task, plain, with_pending_task, Caller, worker, free_standing, Pool, entered, pushed, notified,
  add_task,
}
use async_lib.Concurrent.NonBlockingWorkQueue.Weigh.{
  handed, after, push_front_weight, push_back_weight,
}

module _ {T : Type 0} where
  -- What a task runs, whether it counts as pending or not.
  abbrev pub body : Task T → T
  body (plain t) = t
  body (with_pending_task t) = t

  module _ (f : T → ℕ) where
    abbrev pub w : Task T → ℕ
    w t = f (body t)

    -- The weight of the tasks in the queues.
    abbrev pub weight : Pool T → ℕ
    weight p = total p.num_threads (λ i. weigh w (contents (p.queue i)))

    -- Replacing one queue by what an operation leaves.
    pub weight_put :
        (p : Pool T) (i : ℕ) (q : TaskDeque (Task T))
        → i < p.num_threads
        → weight (record p { queue = update p.queue i q }) + weigh w (contents (p.queue i))
          ≡ weight p + weigh w (contents q)
    weight_put p i q h =
        total_at p.num_threads i (λ j. weigh w (contents (p.queue j)))
          (λ j. weigh w (contents (update p.queue i q j))) h
          (λ j ne. ap (λ r. weigh w (contents r)) (sym (update_ne p.queue i q j (λ e. ne (sym e)))))
        ∙ ap (λ r. weight p + weigh w (contents r)) (update_self p.queue i q)

  -- Two pools with the same threads and queues.
  record Same (p p' : Pool T) : Type 0 where
    threads : p'.num_threads ≡ p.num_threads
    queues : p'.queue ≡ p.queue
    coprimes : p'.coprimes ≡ p.coprimes

  Same-Ready : (p p' : Pool T) → Same p p' → IsReady Inv p → IsReady Inv p'
  Same-Ready p p' s r = record {
    positive = omega (arith, s.threads, r.positive);
    bound = omega (arith, s.threads, r.bound);
    coprimes_built = s.coprimes ∙ r.coprimes_built ∙ ap compute_coprimes (sym s.threads);
    valid = λ i h. rw s.queues (r.valid i (omega (arith, s.threads)));
  }

  weight-Same : (f : T → ℕ) (p p' : Pool T) → Same p p' → weight f p' ≡ weight f p
  weight-Same f p p' s = rw (s.threads, s.queues) refl

  pub put-Ready :
      (p : Pool T) (i : ℕ) (q : TaskDeque (Task T))
      → IsReady Inv p
      → Inv q
      → IsReady Inv (record p { queue = update p.queue i q })
  put-Ready p i q r v = record {
    positive = r.positive;
    bound = r.bound;
    coprimes_built = r.coprimes_built;
    valid = λ j h. elim (ℕ_discrete i j) [
      | yes e ↦ rw (sym e, update_self p.queue i q) v
      | no ne ↦ rw (update_ne p.queue i q j ne) (r.valid j h)
    ];
  }

  notify-Same : (p : Pool T) → Same p (notified (is_notify_parked_thread_required p))
  unfolding notified is_notify_parked_thread_required
  notify-Same p = record { threads = ground arith; queues = ground arith; coprimes = ground arith }

  pushed-Same :
      (skip : Bool) (o : Option (Task T)) (p : Pool T)
      → ((pushed skip o p).0 ≡ o) × Same p (pushed skip o p).1
  unfolding pushed
  pushed-Same true none p = (refl, record { threads = refl; queues = refl; coprimes = refl })
  pushed-Same false none p = (refl, notify-Same p)
  pushed-Same skip (some t) p = (refl, record { threads = refl; queues = refl; coprimes = refl })

  entered-Same : (t : T) (p : Pool T) → (body (entered t p).0 ≡ t) × Same p (entered t p).1
  unfolding entered
  entered-Same t p = (
    ground arith,
    record { threads = ground arith; queues = ground arith; coprimes = ground arith },
  )

  -- After a call the pool is ready, and the task that was added stands in a queue or is handed to
  -- the caller to run.
  abbrev pub Kept : (f : T → ℕ) → ℕ → Pool T → Option (Task T) × Pool T → Type 0
  Kept f added p r = IsReady Inv r.1 × (weight f r.1 + handed (w f) r.0 ≡ weight f p + added)

  -- The end of a call that has replaced queue `i` by what an operation on it leaves.
  pushed-Kept :
      (f : T → ℕ) (added : ℕ) (skip : Bool) (p : Pool T) (i : ℕ)
      (r : Option (Task T) × TaskDeque (Task T))
      → IsReady Inv p
      → i < p.num_threads
      → Inv r.1
      → after (w f) r ≡ weigh (w f) (contents (p.queue i)) + added
      → Kept f added p (pushed skip r.0 (record p { queue = update p.queue i r.1 }))
  pushed-Kept f added skip p i r ready h v e =
      let p' = record p { queue = update p.queue i r.1 } in
      let (a, s) = pushed-Same skip r.0 p' in
      (
        Same-Ready p' (pushed skip r.0 p').1 s (put-Ready p i r.1 ready v),
        omega (
          arith,
          e,
          ap (handed (w f)) a,
          weight-Same f p' (pushed skip r.0 p').1 s,
          weight_put f p i r.1 h,
        ),
      )

  -- A caller that the pool knows, or that draws a 32-bit number.
  abbrev pub IsCaller : Pool T → Caller → Type 0
  IsCaller p (worker i) = i < p.num_threads
  IsCaller p (free_standing r) = r < 2 ^ 32

  pub add_task-Kept :
      (f : T → ℕ) (caller : Caller) (t : T) (p : Pool T)
      → IsReady Inv p
      → IsCaller p caller
      → Kept f (f t) p (add_task caller t p)
  unfolding add_task
  add_task-Kept f (worker i) t p ready ok =
      let (b, s) = entered-Same t p in
      let p1 = (entered t p).1 in
      let ready1 = Same-Ready p p1 s ready in
      let h : i < p1.num_threads = omega (arith, s.threads, ok) in
      let v = ready1.valid i h in
      let (c, e) =
        pushed-Kept f (f t) (TaskDeque.is_empty (p1.queue i)) p1 i
          (TaskDeque.push_front (entered t p).0 (p1.queue i)) ready1 h
          (push_front-Inv (entered t p).0 (p1.queue i) v)
          (omega (arith, push_front_weight (w f) (p1.queue i) v (entered t p).0, ap f b)) in
      (c, omega (arith, e, weight-Same f p p1 s))
  add_task-Kept f (free_standing r) t p ready ok =
      let (b, s) = entered-Same t p in
      let p1 = (entered t p).1 in
      let ready1 = Same-Ready p p1 s ready in
      let i = fast_reduce r p1.num_threads in
      let h = fast_reduce_lt r p1.num_threads ok ready1.positive (omega (arith, ready1.bound)) in
      let v = ready1.valid i h in
      let (c, e) =
        pushed-Kept f (f t) false p1 i (TaskDeque.push_back (entered t p).0 (p1.queue i)) ready1 h
          (push_back-Inv (entered t p).0 (p1.queue i) v)
          (omega (arith, push_back_weight (w f) (p1.queue i) v (entered t p).0, ap f b)) in
      (c, omega (arith, e, weight-Same f p p1 s))

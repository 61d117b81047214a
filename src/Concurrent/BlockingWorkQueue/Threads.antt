-- ===== src/Concurrent/BlockingWorkQueue/Threads.antt =====
-- One step of a dynamic thread of blocking_work_queue.h: RunBlockingTask, its loop, WaitNextTask.
use async_lib.Base.{
  ℕ, ◌+◌, ◌≤◌, ◌<◌, ◌≡◌, refl, ap, subst, arith, some, List, [], ◌∷◌, ◌++◌, length, length-append,
  get_elem?, ltb, Bool-cases, List-cases, inl, inr,
}
use async_lib.Base.Sums.{weigh, weigh-append}
use async_lib.Concurrent.NonBlockingWorkQueue.{Task, plain, with_pending_task}
use async_lib.Concurrent.WorkQueueBase.{QuiescingState}
use async_lib.Concurrent.BlockingWorkQueue.{
  DynamicThread, running, waiting, exited, BlockingWorkQueue, wrap, queue_task, start_thread, body,
  accepted, remove_exited, run_blocking_task, set_thread, reset, finish, wake, Step, submits,
  finishes, wakes, quiesce_begins, quiesce_ends,
}
use async_lib.Concurrent.BlockingWorkQueue.Weights.{
  thread_weight, one, zero_each, pends, held, Inv, weigh-remove_exited, weigh-set_thread,
}

module _ {T : Type 0} where
  -- What a step does: the tasks that it accepts are held, and what it ends is finished.
  pub record Stepped (q : BlockingWorkQueue T) (ts : List T) (q' : BlockingWorkQueue T)
      : Type 0 where
    pub inv : Inv q'
    pub kept :
        (f : T → ℕ)
        → weigh f q'.finished + held (λ t. f (body t)) q'
          ≡ weigh f q.finished + held (λ t. f (body t)) q + weigh f ts
    pub pending_kept :
        q'.quiescing.num_pending_tasks + held pends q
        ≡ q.quiescing.num_pending_tasks + held pends q'

  -- Threads that weigh as before.
  queued-Stepped :
      (q : BlockingWorkQueue T) (t : Task T) (state : QuiescingState)
      → Inv q
      → length q.idle_task_queue < q.num_idle_dynamic_threads
      → state.num_pending_tasks ≡ q.quiescing.num_pending_tasks + pends t
      → Stepped q (body t ∷ []) (queue_task (t, state) q)
  queued-Stepped q t state v lt e = record {
    inv = record {
      counted = v.counted;
      idle = v.idle;
      enough = omega (arith, length-append q.idle_task_queue (t ∷ []));
      limit = v.limit;
    };
    kept = λ f. omega (arith, weigh-append (λ t. f (body t)) q.idle_task_queue (t ∷ []));
    pending_kept = omega (arith, weigh-append pends q.idle_task_queue (t ∷ []), e);
  }

  started-Stepped :
      (q : BlockingWorkQueue T) (t : Task T) (state : QuiescingState)
      → Inv q
      → q.num_dynamic_threads < q.max_num_dynamic_threads
      → state.num_pending_tasks ≡ q.quiescing.num_pending_tasks + pends t
      → Stepped q (body t ∷ []) (start_thread (t, state) q)
  started-Stepped q t state v lt e = record {
    inv = record {
      counted = omega (arith, v.counted, more 1 one);
      idle = omega (arith, v.idle, more 1 zero_each);
      enough = v.enough;
      limit = omega arith;
    };
    kept = λ f. omega (arith, more 0 (λ t. f (body t)));
    pending_kept = omega (arith, more 0 pends, e);
  }
    where
      more :
          (n : ℕ) (w : Task T → ℕ)
          → weigh (thread_weight n w) (remove_exited q.dynamic_threads ++ running t ∷ [])
            ≡ weigh (thread_weight n w) q.dynamic_threads + w t
      more n w = omega (
        arith,
        weigh-append (thread_weight n w) (remove_exited q.dynamic_threads) (running t ∷ []),
        weigh-remove_exited n w q.dynamic_threads,
      )

  -- `wrap` counts the task as pending or leaves it plain.
  wrap_lem :
      (t : T) (state : QuiescingState)
      → (body (wrap t state).0 ≡ t)
        × ((wrap t state).1.num_pending_tasks ≡ state.num_pending_tasks + pends (wrap t state).0)
  unfolding wrap
  wrap_lem t state = elim (Bool-cases (ltb 0 state.num_quiescing)) [
    | inl e ↦ rw e (refl, omega arith)
    | inr e ↦ rw e (refl, omega arith)
  ]

  submitted-Stepped :
      (q : BlockingWorkQueue T) (t : T)
      → Inv q
      → Stepped q (accepted t (run_blocking_task t q).0) (run_blocking_task t q).1
  unfolding run_blocking_task
  submitted-Stepped q t v =
      elim (Bool-cases (ltb (length q.idle_task_queue) q.num_idle_dynamic_threads)) [
        | inl e ↦ rw e (
            subst (λ x. Stepped q (x ∷ []) (queue_task w q)) (wrap_lem t q.quiescing).0
              (queued-Stepped q w.0 w.1 v (ground arith) (wrap_lem t q.quiescing).1))
        | inr e ↦ elim (Bool-cases (ltb q.num_dynamic_threads q.max_num_dynamic_threads)) [
          | inl e' ↦
              rw (e, e')
                (subst (λ x. Stepped q (x ∷ []) (start_thread w q)) (wrap_lem t q.quiescing).0
                  (started-Stepped q w.0 w.1 v (ground arith) (wrap_lem t q.quiescing).1))
          | inr e' ↦
              rw (e, e')
                (record {
                  inv = record {
                    counted = omega (arith, v.counted, weigh-remove_exited 1 one q.dynamic_threads);
                    idle = omega (arith, v.idle, weigh-remove_exited 1 zero_each q.dynamic_threads);
                    enough = v.enough;
                    limit = v.limit;
                  };
                  kept =
                      λ f. omega (arith, weigh-remove_exited 0 (λ t. f (body t)) q.dynamic_threads);
                  pending_kept = omega (arith, weigh-remove_exited 0 pends q.dynamic_threads);
                })
        ]
      ]
    where
      w : Task T × QuiescingState
      w = wrap t q.quiescing

  reset_lem :
      (t : Task T) (state : QuiescingState)
      → pends t ≤ state.num_pending_tasks
      → (reset t state).num_pending_tasks + pends t ≡ state.num_pending_tasks
  reset_lem (plain t) state le = omega arith
  reset_lem (with_pending_task t) state le = omega arith

  finished-Stepped :
      (q : BlockingWorkQueue T) (i : ℕ) (t : Task T)
      → Inv q
      → held pends q ≤ q.quiescing.num_pending_tasks
      → get_elem? q.dynamic_threads i ≡ some (running t)
      → Stepped q [] (finish i t q)
  unfolding finish
  finished-Stepped q i t v p e = record {
    inv = record {
      counted = omega (arith, v.counted, change 1 one);
      idle = omega (arith, v.idle, change 1 zero_each);
      enough = omega (arith, v.enough);
      limit = v.limit;
    };
    kept = λ f. omega (arith, change 0 (λ t. f (body t)));
    pending_kept =
        omega (arith, change 0 pends, reset_lem t q.quiescing (omega (arith, change 0 pends)));
  }
    where
      change :
          (n : ℕ) (w : Task T → ℕ)
          → weigh (thread_weight n w) (set_thread i waiting q.dynamic_threads) + w t
            ≡ weigh (thread_weight n w) q.dynamic_threads + n
      change n w = weigh-set_thread n w i (running t) waiting q.dynamic_threads e

  woken-Stepped :
      (q : BlockingWorkQueue T) (i : ℕ)
      → Inv q
      → get_elem? q.dynamic_threads i ≡ some waiting
      → Stepped q [] (wake i q)
  unfolding wake
  woken-Stepped q i v e = elim (List-cases q.idle_task_queue) [
    | inl l ↦ rw l (record {
      inv = record {
        counted = omega (arith, v.counted, change 1 one exited);
        idle = omega (arith, v.idle, change 1 zero_each exited);
        enough = omega arith;
        limit = omega (arith, v.limit);
      };
      kept = λ f. omega (arith, change 0 (λ t. f (body t)) exited);
      pending_kept = omega (arith, change 0 pends exited);
    })
    | inr (t, ts, l) ↦ rw l (record {
      inv = record {
        counted = omega (arith, v.counted, change 1 one (running t));
        idle = omega (arith, v.idle, change 1 zero_each (running t));
        enough = omega (arith, v.enough, ap length l);
        limit = v.limit;
      };
      kept = λ f. omega (arith, change 0 (λ t. f (body t)) (running t));
      pending_kept = omega (arith, change 0 pends (running t));
    })
  ]
    where
      change :
          (n : ℕ) (w : Task T → ℕ) (p : DynamicThread T)
          → weigh (thread_weight n w) (set_thread i p q.dynamic_threads) + n
            ≡ weigh (thread_weight n w) q.dynamic_threads + thread_weight n w p
      change n w p = weigh-set_thread n w i waiting p q.dynamic_threads e

  pub Step-Stepped :
      (q q' : BlockingWorkQueue T) (ts : List T)
      → Inv q
      → held pends q ≤ q.quiescing.num_pending_tasks
      → Step q ts q'
      → Stepped q ts q'
  Step-Stepped q _ _ v p (submits t) = submitted-Stepped q t v
  Step-Stepped q _ _ v p (finishes i t e) = finished-Stepped q i t v p e
  Step-Stepped q _ _ v p (wakes i e) = woken-Stepped q i v e
  Step-Stepped q _ _ v p quiesce_begins = record {
    inv = record { counted = v.counted; idle = v.idle; enough = v.enough; limit = v.limit };
    kept = λ f. omega arith;
    pending_kept = omega arith;
  }
  Step-Stepped q _ _ v p (quiesce_ends e) = record {
    inv = record { counted = v.counted; idle = v.idle; enough = v.enough; limit = v.limit };
    kept = λ f. omega arith;
    pending_kept = omega arith;
  }

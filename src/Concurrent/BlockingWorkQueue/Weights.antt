-- ===== src/Concurrent/BlockingWorkQueue/Weights.antt =====
-- Sums over the dynamic threads and their tasks, and the invariant of the counts.
use async_lib.Base.{
  ℕ, zero, suc, ◌+◌, ◌≤◌, ◌≡◌, refl, ap, arith, Option, none, some, List, [], ◌∷◌, length,
  get_elem?,
}
use async_lib.Base.Sums.{weigh}
use async_lib.Concurrent.NonBlockingWorkQueue.{Task, plain, with_pending_task}
use async_lib.Concurrent.BlockingWorkQueue.{
  DynamicThread, running, waiting, exited, BlockingWorkQueue, remove_exited, set_thread,
}

module _ {T : Type 0} where
  -- A weight for each thread, from one for each task; an exited thread weighs nothing.
  abbrev pub thread_weight : ℕ → (Task T → ℕ) → DynamicThread T → ℕ
  thread_weight n w (running t) = w t
  thread_weight n w waiting = n
  thread_weight n w exited = 0

  abbrev pub one : Task T → ℕ
  one _ = 1

  abbrev pub zero_each : Task T → ℕ
  zero_each _ = 0

  -- How many tasks count as pending.
  abbrev pub pends : Task T → ℕ
  pends (plain t) = 0
  pends (with_pending_task t) = 1

  abbrev threads : BlockingWorkQueue T → ℕ → (Task T → ℕ) → ℕ
  threads q n w = weigh (thread_weight n w) q.dynamic_threads

  -- The tasks in the queue and in the threads, weighed by `w`.
  abbrev pub held : (Task T → ℕ) → BlockingWorkQueue T → ℕ
  held w q = weigh w q.idle_task_queue + weigh (thread_weight 0 w) q.dynamic_threads

  pub record Inv (q : BlockingWorkQueue T) : Type 0 where
    pub counted : q.num_dynamic_threads ≡ weigh (thread_weight 1 (λ _. 1)) q.dynamic_threads
    pub idle : q.num_idle_dynamic_threads ≡ weigh (thread_weight 1 (λ _. 0)) q.dynamic_threads
    -- The queue does not keep more tasks than there are idle threads.
    pub enough : length q.idle_task_queue ≤ q.num_idle_dynamic_threads
    pub limit : q.num_dynamic_threads ≤ q.max_num_dynamic_threads

  pub weigh-remove_exited :
      (n : ℕ) (w : Task T → ℕ) (ts : List (DynamicThread T))
      → weigh (thread_weight n w) (remove_exited ts) ≡ weigh (thread_weight n w) ts
  weigh-remove_exited n w [] = refl
  weigh-remove_exited n w (exited ∷ ts) = omega (arith, weigh-remove_exited n w ts)
  weigh-remove_exited n w (running t ∷ ts) = omega (arith, weigh-remove_exited n w ts)
  weigh-remove_exited n w (waiting ∷ ts) = omega (arith, weigh-remove_exited n w ts)

  pub weigh-set_thread :
      (n : ℕ) (w : Task T → ℕ) (i : ℕ) (p p' : DynamicThread T) (ts : List (DynamicThread T))
      → get_elem? ts i ≡ some p
      → weigh (thread_weight n w) (set_thread i p' ts) + thread_weight n w p
        ≡ weigh (thread_weight n w) ts + thread_weight n w p'
  weigh-set_thread n w i p p' [] e = absurd (ground arith)
  weigh-set_thread n w zero p p' (t ∷ ts) e = omega (arith, ap at_head e)
    where
      at_head : Option (DynamicThread T) → ℕ
      at_head none = 0
      at_head (some x) = thread_weight n w x
  weigh-set_thread n w (suc i) p p' (t ∷ ts) e = omega (arith, weigh-set_thread n w i p p' ts e)

  pub idle_at_most :
      (ts : List (DynamicThread T))
      → weigh (thread_weight 1 zero_each) ts ≤ weigh (thread_weight 1 one) ts
  idle_at_most [] = omega arith
  idle_at_most (running t ∷ ts) = omega (arith, idle_at_most ts)
  idle_at_most (waiting ∷ ts) = omega (arith, idle_at_most ts)
  idle_at_most (exited ∷ ts) = omega (arith, idle_at_most ts)

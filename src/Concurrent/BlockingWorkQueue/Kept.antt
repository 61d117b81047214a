-- ===== src/Concurrent/BlockingWorkQueue/Kept.antt =====
-- Runs of the dynamic threads of blocking_work_queue.h, in any order: their counts and their tasks.
use async_lib.Base.{
  ℕ, suc, ◌+◌, ◌<◌, ◌≡◌, refl, ap, ◌∙◌, arith, some, List, [], ◌∷◌, length, get_elem?,
}
use async_lib.Base.Sums.{weigh, weigh-append}
use async_lib.Concurrent.NonBlockingWorkQueue.{Task}
use async_lib.Concurrent.WorkQueueBase.{QuiescingState}
use async_lib.Concurrent.BlockingWorkQueue.{
  DynamicThread, running, waiting, exited, BlockingWorkQueue, init, body, set_thread, wake, Steps,
  nothing_yet, and_then, wakes,
}
use async_lib.Concurrent.BlockingWorkQueue.Weights.{
  thread_weight, one, zero_each, pends, held, Inv, idle_at_most, weigh-set_thread,
}
use async_lib.Concurrent.BlockingWorkQueue.Threads.{Stepped, Step-Stepped}

module _ {T : Type 0} where
  empty : (l : List (Task T)) → length l ≡ 0 → l ≡ []
  empty [] e = refl
  empty (x ∷ l) e = absurd (omega arith)

  light :
      (w : Task T → ℕ) (ps : List (DynamicThread T))
      → weigh (thread_weight 1 one) ps ≡ 0
      → weigh (thread_weight 0 w) ps ≡ 0
  light w [] e = refl
  light w (running t ∷ ps) e = absurd (omega arith)
  light w (waiting ∷ ps) e = absurd (omega arith)
  light w (exited ∷ ps) e = omega (arith, light w ps (omega arith))

  -- From a queue without dynamic threads, in any order of steps: the counts are those of the
  -- threads, the queue never keeps more tasks than there are idle threads, the threads stay within
  -- the limit, every accepted task has run once or is held once, and exactly the held ones that
  -- count as pending do so.
  pub steps_keep :
      (max : ℕ) (state : QuiescingState) (q : BlockingWorkQueue T) (ts : List T)
      → Steps (init max state) ts q
      → Inv q
        × ((f : T → ℕ) → weigh f q.finished + held (λ t. f (body t)) q ≡ weigh f ts)
        × (q.quiescing.num_pending_tasks ≡ state.num_pending_tasks + held pends q)
  steps_keep max state q ts s =
      let k = go q ts s in (k.inv, λ f. omega (arith, k.kept f), omega (arith, k.pending_kept))
    where
      go :
          (q : BlockingWorkQueue T) (ts : List T)
          → Steps (init max state) ts q
          → Stepped (init max state) ts q
      go q ts nothing_yet = record {
        inv = record { counted = refl; idle = refl; enough = omega arith; limit = omega arith };
        kept = λ f. omega arith;
        pending_kept = omega arith;
      }
      go q _ (and_then {q' = q'} {ts = ts} {us = us} s t) =
          let k = go q' ts s in
          let k' = Step-Stepped q' q us k.inv (omega (arith, k.pending_kept)) t in
          record {
            inv = k'.inv;
            kept = λ f. omega (arith, k.kept f, k'.kept f, weigh-append f us ts);
            pending_kept = omega (arith, k.pending_kept, k'.pending_kept);
          }

  -- Where Quiesce finds no dynamic thread left, no task is queued, and every accepted task has run.
  pub drained_lem :
      (max : ℕ) (state : QuiescingState) (q : BlockingWorkQueue T) (ts : List T)
      → Steps (init max state) ts q
      → q.num_dynamic_threads ≡ 0
      → (q.idle_task_queue ≡ []) × ((f : T → ℕ) → weigh f q.finished ≡ weigh f ts)
  drained_lem max state q ts s none_left =
      let (inv, kept, pending_kept) = steps_keep max state q ts s in
      let e =
        empty q.idle_task_queue
          (omega (arith, idle_at_most q.dynamic_threads, inv.enough, inv.idle, inv.counted)) in
      (
        e,
        λ f. omega (
          arith,
          kept f,
          ap (weigh (λ t. f (body t))) e,
          light (λ t. f (body t)) q.dynamic_threads (omega (arith, inv.counted)),
        ),
      )

  some_waiting :
      (ps : List (DynamicThread T))
      → 0 < weigh (thread_weight 1 zero_each) ps
      → (i : ℕ) × (get_elem? ps i ≡ some waiting)
  some_waiting [] h = absurd (omega arith)
  some_waiting (waiting ∷ ps) h = (0, refl)
  some_waiting (running t ∷ ps) h = let (i, e) = some_waiting ps (omega arith) in (suc i, e)
  some_waiting (exited ∷ ps) h = let (i, e) = some_waiting ps (omega arith) in (suc i, e)

  -- A thread that leaves its wait takes the first task and runs it, and nothing else changes.
  record Taken (q : BlockingWorkQueue T) (i : ℕ) (t : Task T) (ts : List (Task T)) : Type 0 where
    rest : (wake i q).idle_task_queue ≡ ts
    threads : (wake i q).dynamic_threads ≡ set_thread i (running t) q.dynamic_threads
    same_finished : (wake i q).finished ≡ q.finished

  taken :
      (q : BlockingWorkQueue T) (i : ℕ) (t : Task T) (ts : List (Task T))
      → q.idle_task_queue ≡ t ∷ ts
      → Taken q i t ts
  unfolding wake
  taken q i t ts e = record { rest = rw e refl; threads = rw e refl; same_finished = rw e refl }

  -- After `q`, the tasks of `l` too are in the hands of threads, and no task has ended.
  pub record Started (q q' : BlockingWorkQueue T) (l : List (Task T)) : Type 0 where
    pub emptied : q'.idle_task_queue ≡ []
    pub same_finished : q'.finished ≡ q.finished
    pub run_by_threads :
        (f : Task T → ℕ)
        → weigh (thread_weight 0 f) q'.dynamic_threads
          ≡ weigh (thread_weight 0 f) q.dynamic_threads + weigh f l

  -- Whatever steps a queue without dynamic threads has taken, there are further steps, in which no
  -- task ends and none is accepted, after which no task is queued and every task that was is run by a
  -- thread.
  pub idle_tasks_start :
      (max : ℕ) (state : QuiescingState) (q : BlockingWorkQueue T) (ts : List T)
      → Steps (init max state) ts q
      → (q' : BlockingWorkQueue T) × Steps q [] q' × Started q q' q.idle_task_queue
  idle_tasks_start max state q ts s = go q.idle_task_queue q s nothing_yet refl
    where
      go :
          (l : List (Task T)) (q1 : BlockingWorkQueue T)
          → Steps (init max state) ts q1
          → Steps q [] q1
          → q1.idle_task_queue ≡ l
          → (q' : BlockingWorkQueue T) × Steps q [] q' × Started q1 q' l
      go [] q1 s1 r e =
          (q1, r, record { emptied = e; same_finished = refl; run_by_threads = λ f. omega arith })
      go (t ∷ l) q1 s1 r e =
          let (inv, _, _) = steps_keep max state q1 ts s1 in
          let (i, w) =
            some_waiting q1.dynamic_threads (omega (arith, inv.idle, inv.enough, ap length e)) in
          let k = taken q1 i t l e in
          let (q', r', k') =
            go l (wake i q1) (and_then s1 (wakes i w)) (and_then r (wakes i w)) k.rest in
          (
            q',
            r',
            record {
              emptied = k'.emptied;
              same_finished = k'.same_finished ∙ k.same_finished;
              run_by_threads = λ f. omega (
                arith,
                k'.run_by_threads f,
                ap (weigh (thread_weight 0 f)) k.threads,
                weigh-set_thread 0 f i waiting (running t) q1.dynamic_threads w,
              );
            },
          )

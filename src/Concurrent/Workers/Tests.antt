-- ===== src/Concurrent/Workers/Tests.antt =====
-- Concrete runs of worker threads on deques of numbers.
use async_lib.Base.{ℕ, zero, suc, ◌<◌, ◌≡◌, refl, arith, true, [], ◌∷◌}
use async_lib.Concurrent.TaskDeque
use async_lib.Concurrent.TaskDeque.{TaskDeque}
use async_lib.Concurrent.EventCount.Spec.{after, woken}
use async_lib.Concurrent.WorkQueueBase.{
  init, all_blocked, start_spinning, stop_spinning, is_notify_parked_thread_required,
}
use async_lib.Concurrent.Workers.{
  Queues, Workers, parked, dropped, exited, start, notify, start_spin, give_up_spin, prewait,
  cancel_wait, decide_wait, commit_wait, decide_notify_outside, cancel, IsWalk, Steps, here,
  and_then, turns, goes_on, finds_nothing, spins_in_vain, prepares, sees_empty, counts,
  decides_wait, commits_wait, adds, decides_outside, alerts_outside, unblocks, takes, ends_task,
  closes, notifies_all, finishes, still_empty, exits, sees_cancelled,
}
use async_lib.Concurrent.Workers.Inv.{at_rest, counted, prewaiting, spins, is_parked}
use async_lib.Base.Sums.{total}
use async_lib.Runtime.TaskGraph.Counting.{count}
use async_lib.Concurrent.WorkQueueBase.Spinning.{Spins}
use async_lib.Concurrent.Workers.Rest.{rest_lem, counts_lem}

abbrev deque : Queues (TaskDeque ℕ) ℕ
deque = record {
  next_task = TaskDeque.pop_front 0;
  steal = TaskDeque.pop_back 0;
  is_empty = TaskDeque.is_empty;
  push_front = TaskDeque.push_front;
  push_back = TaskDeque.push_back;
}

abbrev empty : ℕ → TaskDeque ℕ
empty i = TaskDeque.init 0

one-IsWalk : IsWalk 1 (0 ∷ [])
one-IsWalk zero h = refl
one-IsWalk (suc q) h = absurd (omega arith)

two-IsWalk : IsWalk 2 (0 ∷ 1 ∷ [])
two-IsWalk zero h = refl
two-IsWalk (suc zero) h = refl
two-IsWalk (suc (suc q)) h = absurd (omega arith)

-- A run of the pool from its start.
abbrev Ran : ℕ → Type 0
Ran n = (s : Workers (TaskDeque ℕ)) × Steps deque (start n empty) s

-- The only worker finds nothing, spins in vain, and parks.
parks : Ran 1
unfolding TaskDeque.init TaskDeque.is_empty TaskDeque.maybe_zero TaskDeque.push_back
    TaskDeque.pop_front start_spin start_spinning give_up_spin stop_spinning prewait decide_wait
    all_blocked commit_wait cancel_wait notify after woken init decide_notify_outside
    is_notify_parked_thread_required cancel
parks = (
  _,
  and_then
      (and_then
        (and_then
          (and_then
            (and_then
              (and_then
                (and_then (and_then (here) (turns 0 (omega arith) (goes_on refl refl)))
                  (turns 0 (omega arith) (finds_nothing refl)))
                (turns 0 (omega arith) (spins_in_vain refl)))
              (turns 0 (omega arith) (prepares (0 ∷ []) refl one-IsWalk)))
            (turns 0 (omega arith) (sees_empty 0 [] refl refl)))
          (turns 0 (omega arith) (counts refl)))
        (turns 0 (omega arith) (decides_wait refl)))
      (turns 0 (omega arith) (commits_wait refl)),
)

-- Another thread adds a task and wakes the worker, which runs it and parks again.
works : Ran 1
unfolding parks TaskDeque.init TaskDeque.is_empty TaskDeque.maybe_zero TaskDeque.push_back
    TaskDeque.pop_front start_spin start_spinning give_up_spin stop_spinning prewait decide_wait
    all_blocked commit_wait cancel_wait notify after woken init decide_notify_outside
    is_notify_parked_thread_required cancel
works = (
  _,
  and_then
      (and_then
        (and_then
          (and_then
            (and_then
              (and_then
                (and_then
                  (and_then
                    (and_then
                      (and_then
                        (and_then
                          (and_then
                            (and_then
                              (and_then (and_then (parks.1) (adds 7 0 refl (omega arith) refl))
                                (decides_outside (omega arith)))
                              (alerts_outside (omega arith)))
                            (turns 0 (omega arith) (unblocks refl)))
                          (turns 0 (omega arith) (goes_on refl refl)))
                        (turns 0 (omega arith) (takes refl refl)))
                      (turns 0 (omega arith) (ends_task refl)))
                    (turns 0 (omega arith) (goes_on refl refl)))
                  (turns 0 (omega arith) (finds_nothing refl)))
                (turns 0 (omega arith) (spins_in_vain refl)))
              (turns 0 (omega arith) (prepares (0 ∷ []) refl one-IsWalk)))
            (turns 0 (omega arith) (sees_empty 0 [] refl refl)))
          (turns 0 (omega arith) (counts refl)))
        (turns 0 (omega arith) (decides_wait refl)))
      (turns 0 (omega arith) (commits_wait refl)),
)

-- The destructor begins and notifies, and the worker returns.
returns : Ran 1
unfolding works parks TaskDeque.init TaskDeque.is_empty TaskDeque.maybe_zero TaskDeque.push_back
    TaskDeque.pop_front start_spin start_spinning give_up_spin stop_spinning prewait decide_wait
    all_blocked commit_wait cancel_wait notify after woken init decide_notify_outside
    is_notify_parked_thread_required cancel
returns = (
  _,
  and_then
      (and_then
        (and_then
          (and_then
            (and_then
              (and_then
                (and_then
                  (and_then
                    (and_then
                      (and_then
                        (and_then
                          (and_then (and_then (works.1) (closes refl refl))
                            (notifies_all refl refl))
                          (turns 0 (omega arith) (unblocks refl)))
                        (turns 0 (omega arith) (goes_on refl refl)))
                      (turns 0 (omega arith) (finds_nothing refl)))
                    (turns 0 (omega arith) (spins_in_vain refl)))
                  (turns 0 (omega arith) (prepares (0 ∷ []) refl one-IsWalk)))
                (turns 0 (omega arith) (sees_empty 0 [] refl refl)))
              (turns 0 (omega arith) (counts refl)))
            (turns 0 (omega arith) (decides_wait refl)))
          (turns 0 (omega arith) (finishes (0 ∷ []) refl one-IsWalk)))
        (turns 0 (omega arith) (still_empty 0 [] refl refl)))
      (turns 0 (omega arith) (exits refl)),
)

returns-at_rest : (i : ℕ) → i < 1 → at_rest (returns.0.stage i) ≡ true
unfolding returns works parks TaskDeque.init TaskDeque.is_empty TaskDeque.maybe_zero
    TaskDeque.push_back TaskDeque.pop_front start_spin start_spinning give_up_spin stop_spinning
    prewait decide_wait all_blocked commit_wait cancel_wait notify after woken init
    decide_notify_outside is_notify_parked_thread_required cancel
returns-at_rest zero h = refl
returns-at_rest (suc i) h = absurd (omega arith)

rest_lem_example :
    ((q : ℕ) → q < 1 → deque.is_empty (returns.0.pool.queue q) ≡ true)
    × (returns.0.notified ≡ true → (i : ℕ) → i < 1 → returns.0.stage i ≡ exited)
unfolding returns works parks TaskDeque.init TaskDeque.is_empty TaskDeque.maybe_zero
    TaskDeque.push_back TaskDeque.pop_front start_spin start_spinning give_up_spin stop_spinning
    prewait decide_wait all_blocked commit_wait cancel_wait notify after woken init
    decide_notify_outside is_notify_parked_thread_required cancel
rest_lem_example =
    rest_lem deque 1 empty returns.0 (omega arith) (omega arith) returns.1 refl refl returns-at_rest

returns-notified : returns.0.notified ≡ true
unfolding returns
returns-notified = refl

counts_lem_example :
    (works.0.pool.blocked ≡ total 1 (λ j. counted (works.0.stage j)))
    × (works.0.waits.pre ≡ total 1 (λ j. prewaiting (works.0.stage j)))
    × ((j : ℕ) → count j works.0.waits.parked ≡ is_parked (works.0.stage j))
    × ((skipped : ℕ) × Spins works.0.pool (total 1 (λ j. spins (works.0.stage j))) skipped)
counts_lem_example = counts_lem deque 1 empty works.0 (omega arith) (omega arith) works.1

-- Two workers, of which the first has found nothing when the pool is cancelled: it parks after the
-- notification, the second returns at the head of its loop, and nobody is left to wake the first.
cancel_leaves_parked :
    (s t : Workers (TaskDeque ℕ)) × Steps deque (start 2 empty) s
    × Steps deque (cancel s) t
    × (t.stage 0 ≡ parked)
    × (t.stage 1 ≡ dropped)
unfolding TaskDeque.init TaskDeque.is_empty TaskDeque.maybe_zero TaskDeque.push_back
    TaskDeque.pop_front start_spin start_spinning give_up_spin stop_spinning prewait decide_wait
    all_blocked commit_wait cancel_wait notify after woken init decide_notify_outside
    is_notify_parked_thread_required cancel
cancel_leaves_parked = (
  _,
  _,
  and_then
      (and_then (and_then (here) (turns 0 (omega arith) (goes_on refl refl)))
        (turns 0 (omega arith) (finds_nothing refl)))
      (turns 0 (omega arith) (spins_in_vain refl)),
  and_then
      (and_then
        (and_then
          (and_then
            (and_then
              (and_then
                (and_then (here) (turns 0 (omega arith) (prepares (0 ∷ 1 ∷ []) refl two-IsWalk)))
                (turns 0 (omega arith) (sees_empty 0 (1 ∷ []) refl refl)))
              (turns 0 (omega arith) (sees_empty 1 [] refl refl)))
            (turns 0 (omega arith) (counts refl)))
          (turns 0 (omega arith) (decides_wait refl)))
        (turns 0 (omega arith) (commits_wait refl)))
      (turns 1 (omega arith) (sees_cancelled refl refl)),
  refl,
  refl,
)

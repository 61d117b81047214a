-- ===== src/Concurrent/Workers/Rest.antt =====
-- Where no worker thread of work_queue_base.h goes on by itself.
use async_lib.Base.{
  Bool-cases, ℕ, ◌<◌, ◌≡◌, inl, inr, sym, ap, ◌∙◌, arith, Bool, true, false, [], ◌^◌,
}
use async_lib.Base.Sums.{total, total_same}
use async_lib.Runtime.TaskGraph.Counting.{count, total_ones}
use async_lib.Concurrent.WorkQueueBase.Spinning.{Spins}
use async_lib.Concurrent.Workers.{Queues, Stage, exited, Workers, start, Steps}
use async_lib.Concurrent.Workers.Inv.{
  prewaiting, counted, spins, is_parked, covers, is_late, at_rest, Covered, Noticed, Inv,
}
use async_lib.Concurrent.Workers.Kept.{total_none, Steps-Inv}

rest-prewaiting : (x : Stage) → at_rest x ≡ true → prewaiting x ≡ 0
rest-prewaiting x h = ground arith

rest-counted : (x : Stage) → at_rest x ≡ true → counted x ≡ 1
rest-counted x h = ground arith

rest-covers : (x : Stage) (q : ℕ) → at_rest x ≡ true → covers x q ≡ false
rest-covers x q h = ground arith

rest-late : (x : Stage) → at_rest x ≡ true → is_late x ≡ false
rest-late x h = ground arith

rest_exited : (x : Stage) → at_rest x ≡ true → is_parked x ≡ 0 → x ≡ exited
rest_exited x h k = ground arith

module _ {Q : Type 0} {n : ℕ} {is_empty : Q → Bool} (s : Workers Q) (inv : Inv n s is_empty)
    (no_adds : s.adding ≡ 0) (no_alerts : s.alerting ≡ 0)
    (resting : (i : ℕ) → i < n → at_rest (s.stage i) ≡ true) where
  no_pre : s.waits.pre ≡ 0
  no_pre =
      inv.numbers.pre_count
      ∙ total_same n (λ j. prewaiting (s.stage j)) (λ _. 0)
          (λ j l. rest-prewaiting (s.stage j) (resting j l))
      ∙ total_none n

  all_counted : s.pool.blocked ≡ n
  all_counted =
      inv.numbers.blocked_count
      ∙ total_ones n (λ j. counted (s.stage j)) (λ j l. rest-counted (s.stage j) (resting j l))

  not-Covered : (q : ℕ) → ¬ (Covered n s q)
  not-Covered q (inl h) = absurd (omega (arith, h, no_pre, inv.numbers.signals_le))
  not-Covered q (inr (inl h)) = absurd (omega (arith, h, no_adds, no_alerts))
  not-Covered q (inr (inr (j, l, c))) = cc (rest-covers (s.stage j) q (resting j l), c)

  pub rest_empty : (q : ℕ) → q < n → is_empty (s.pool.queue q) ≡ true
  rest_empty q l = elim (Bool-cases (is_empty (s.pool.queue q))) [
    | inl e ↦ e
    | inr e ↦ absurd (not-Covered q (inv.covered q l e))
  ]

  none_parked : Noticed n s → s.waits.parked ≡ []
  none_parked (inl (j, l, c)) = cc (rest-late (s.stage j) (resting j l), c)
  none_parked (inr (x, y)) = y

  pub rest_exits : s.notified ≡ true → (i : ℕ) → i < n → s.stage i ≡ exited
  rest_exits told i l =
      rest_exited (s.stage i) (resting i l) (
        sym (inv.numbers.parked_count i)
        ∙ ap (count i) (none_parked (inv.noticed told all_counted)))

-- No wake-up is lost. From the start of a pool that is not cancelled, whatever its workers, of
-- which there are some, fewer than 2 ^ 32, the free-standing threads and the destructor do in any
-- order: where no thread is in AddTask and every worker is parked or has returned, every queue is
-- empty, and if the destructor has notified, every worker has returned.
pub rest_lem :
    {Q T : Type 0} (queues : Queues Q T) (n : ℕ) (queue : ℕ → Q) (s : Workers Q)
    → 0 < n
    → n < 2 ^ 32
    → Steps queues (start n queue) s
    → s.adding ≡ 0
    → s.alerting ≡ 0
    → ((i : ℕ) → i < n → at_rest (s.stage i) ≡ true)
    → ((q : ℕ) → q < n → queues.is_empty (s.pool.queue q) ≡ true)
      × (s.notified ≡ true → (i : ℕ) → i < n → s.stage i ≡ exited)
rest_lem queues n queue s positive few r no_adds no_alerts resting =
    let inv = Steps-Inv queues n queue positive few r in
    (rest_empty s inv no_adds no_alerts resting, rest_exits s inv no_adds no_alerts resting)

-- In any order of steps from the start of a pool that is not cancelled, the count of blocked
-- threads, the announced waits, the stack of parked waiters and the packed count of spinning
-- threads are those of the stages that the threads are in.
pub counts_lem :
    {Q T : Type 0} (queues : Queues Q T) (n : ℕ) (queue : ℕ → Q) (s : Workers Q)
    → 0 < n
    → n < 2 ^ 32
    → Steps queues (start n queue) s
    → (s.pool.blocked ≡ total n (λ j. counted (s.stage j)))
      × (s.waits.pre ≡ total n (λ j. prewaiting (s.stage j)))
      × ((j : ℕ) → count j s.waits.parked ≡ is_parked (s.stage j))
      × ((skipped : ℕ) × Spins s.pool (total n (λ j. spins (s.stage j))) skipped)
counts_lem queues n queue s positive few r =
    let c = (Steps-Inv queues n queue positive few r).numbers in
    (c.blocked_count, c.pre_count, c.parked_count, (c.skipped, c.spinning_count))

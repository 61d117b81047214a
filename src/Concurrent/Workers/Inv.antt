-- ===== src/Concurrent/Workers/Inv.antt =====
-- What holds of the worker threads of work_queue_base.h at every moment, while they are not
-- cancelled.
use async_lib.Base.{ℕ, ◌+◌, ◌≤◌, ◌<◌, ◌≡◌, ◌⊎◌, Bool, true, false, [], mem, ◌^◌}
use async_lib.Base.Sums.{total}
use async_lib.Runtime.TaskGraph.Counting.{count}
use async_lib.Concurrent.WorkQueueBase.Spinning.{Spins}
use async_lib.Concurrent.Workers.{
  Stage, spinning, stopping, scanning, found, blocking, committing, finishing, leaving, parked,
  woken, exited, dropped, Workers,
}

-- Threads that have announced a wait and neither cancelled nor committed it.
abbrev pub prewaiting : Stage → ℕ
prewaiting (scanning l) = 1
prewaiting (found v) = 1
prewaiting blocking = 1
prewaiting committing = 1
prewaiting finishing = 1
prewaiting _ = 0

-- Threads that are counted as blocked.
abbrev pub counted : Stage → ℕ
counted blocking = 1
counted committing = 1
counted finishing = 1
counted (leaving l) = 1
counted parked = 1
counted woken = 1
counted exited = 1
counted _ = 0

abbrev pub spins : Stage → ℕ
spins spinning = 1
spins stopping = 1
spins _ = 0

abbrev pub is_parked : Stage → ℕ
is_parked parked = 1
is_parked _ = 0

-- Whether a thread is going to look at queue `q` before it parks or exits.
abbrev pub covers : Stage → ℕ → Bool
covers (scanning l) q = mem q l
covers (leaving l) q = mem q l
covers blocking q = false
covers committing q = false
covers parked q = false
covers exited q = false
covers dropped q = false
covers _ q = true

-- Whether a blocked thread is going to notice that all are blocked, or that it is not.
abbrev pub is_late : Stage → Bool
is_late blocking = true
is_late finishing = true
is_late (leaving l) = true
is_late woken = true
is_late _ = false

-- Whether a thread is shutting down.
abbrev pub is_closing : Stage → Bool
is_closing finishing = true
is_closing (leaving l) = true
is_closing exited = true
is_closing dropped = true
is_closing _ = false

-- Threads that do nothing more by themselves.
abbrev pub at_rest : Stage → Bool
at_rest parked = true
at_rest exited = true
at_rest _ = false

module _ {Q : Type 0} (n : ℕ) (s : Workers Q) where
  -- Somebody is going to look at queue `q`, or to wake somebody who does.
  abbrev pub Covered : ℕ → Type 0
  Covered q =
      (0 < s.waits.signals)
      ⊎ (0 < s.adding + s.alerting)
      ⊎ ((j : ℕ) × (j < n) × (covers (s.stage j) q ≡ true))

  -- Some blocked thread is going to notice, or every thread that waits has been released.
  abbrev pub Noticed : Type 0
  Noticed =
      ((j : ℕ) × (j < n) × (is_late (s.stage j) ≡ true))
      ⊎ ((s.waits.signals ≡ s.waits.pre) × (s.waits.parked ≡ []))

  -- The counts are those of the stages.
  pub record Counts : Type 0 where
    pub pre_count : s.waits.pre ≡ total n (λ j. prewaiting (s.stage j))
    pub signals_le : s.waits.signals ≤ s.waits.pre
    pub blocked_count : s.pool.blocked ≡ total n (λ j. counted (s.stage j))
    pub skipped : ℕ
    pub spinning_count : Spins s.pool (total n (λ j. spins (s.stage j))) skipped
    pub parked_count : (j : ℕ) → count j s.waits.parked ≡ is_parked (s.stage j)
    pub parked_lt : (j : ℕ) → 0 < is_parked (s.stage j) → j < n

  pub record Inv (is_empty : Q → Bool) : Type 0 where
    pub few : n < 2 ^ 32
    pub threads : s.pool.num_threads ≡ n
    pub active : s.pool.cancelled ≡ false
    pub numbers : Counts
    pub covered : (q : ℕ) → q < n → is_empty (s.pool.queue q) ≡ false → Covered q
    pub closing : (j : ℕ) → is_closing (s.stage j) ≡ true → s.pool.done ≡ true
    pub quiet : s.pool.done ≡ true → s.adding + s.alerting ≡ 0
    pub told : s.notified ≡ true → s.pool.done ≡ true
    pub noticed : s.notified ≡ true → s.pool.blocked ≡ n → Noticed

-- ===== src/Concurrent/Workers.antt =====
-- async/concurrent/work_queue_base.h: the worker threads of a pool, from WorkerLoop through
-- WaitForWork, with the threads that add tasks, and the destructor. An access to shared memory is a
-- step, and these are one step together: StartSpinning with the loads before its compare-exchange,
-- the tests of mDone and mBlocked, a worker's test of its own queue and its push, and the test of
-- mCancelled and the Steal after it. The event count answers as its specification says.
pub mod Inv
pub mod Turns
pub mod Notified
pub mod Busy
pub mod Loop
pub mod Waiting
pub mod Parking
pub mod Outside
pub mod Kept
pub mod Rest
mod Tests
use async_lib.Base.{
  ℕ, zero, suc, ◌+◌, ◌-◌, ◌<◌, ◌≡◌, Bool, true, false, ◌&&◌, Option, none, some, List, [], ◌∷◌, mem,
  ◌==◌, if◌then◌else◌,
}
use async_lib.Base.Family.{update}
use async_lib.Concurrent.EventCount.Spec.{
  Waits, Call, prewaits, cancels, commits, notifies, after, woken as woken_by,
}
use async_lib.Concurrent.WorkQueueBase.{
  WorkQueueBase, init, all_blocked, start_spinning, stop_spinning, is_notify_parked_thread_required,
}

-- What the loop and AddTask call on the queue of a worker.
pub record Queues (Q T : Type 0) : Type 0 where
  pub next_task : Q → Option T × Q
  pub steal : Q → Option T × Q
  pub is_empty : Q → Bool
  pub push_front : T → Q → Option T × Q
  pub push_back : T → Q → Option T × Q

-- Where a worker is. In WorkerLoop: at the head of the loop, at NextTask and Steal, in a task, in
-- AddTask after the push and after the decision to notify, in the spin loop, at StopSpinning with a
-- task, at the Steal after the spin loop, before WaitForWork. In WaitForWork: with the queues that
-- the check has still to look at, at a queue that holds a task before and after CancelWait, after
-- the count of blocked threads, before CommitWait, before CancelWait, in the second check, parked,
-- before the count falls again. `exited` has returned from WaitForWork for good, `dropped` has
-- found the pool cancelled.
pub data Stage : Type 0 where
  looping searching running notifying alerting spinning stopping retrying preparing : Stage
  scanning : List ℕ → Stage
  found robbing : ℕ → Stage
  blocking committing finishing : Stage
  leaving : List ℕ → Stage
  parked woken exited dropped : Stage

-- `adding` and `alerting` count the free-standing threads in AddTask, before and after the decision
-- to notify. `notified` says that the destructor has notified all.
pub record Workers (Q : Type 0) : Type 0 where
  pub pool : WorkQueueBase Q
  pub waits : Waits
  pub stage : ℕ → Stage
  pub adding : ℕ
  pub alerting : ℕ
  pub notified : Bool

-- A list that NonEmptyQueueIndex may walk: it has every queue.
abbrev pub IsWalk : ℕ → List ℕ → Type 0
IsWalk n l = (q : ℕ) → q < n → mem q l ≡ true

-- Those that a notification wakes.
abbrev pub wake : List ℕ → (ℕ → Stage) → ℕ → Stage
wake l stage j = if mem j l then woken else stage j

module _ {Q : Type 0} where
  abbrev pub start : ℕ → (ℕ → Q) → Workers Q
  start n queue = record {
    pool = init n queue;
    waits = record { parked = []; pre = 0; signals = 0 };
    stage = λ _. looping;
    adding = 0;
    alerting = 0;
    notified = false;
  }

  -- Thread `i` goes on to a stage.
  abbrev pub go : ℕ → Stage → Workers Q → Workers Q
  go i next s = record s { stage = update s.stage i next }

  abbrev pub set_queue : ℕ → Q → Workers Q → Workers Q
  set_queue v q s = record s { pool = record s.pool { queue = update s.pool.queue v q } }

  unfoldable pub notify : Bool → Workers Q → Workers Q
  notify all s = record s {
    waits = after (notifies all) s.waits;
    stage = wake (woken_by (notifies all) s.waits) s.stage;
  }

  -- StartSpinning, and where its answer leads.
  unfoldable pub start_spin : ℕ → Workers Q → Workers Q
  start_spin i s =
      let (allowed, p) = start_spinning s.pool in
      go i (if allowed then spinning else preparing) (record s { pool = p })

  -- StopSpinning of a thread that has stolen a task.
  unfoldable pub stop_spin : ℕ → Workers Q → Workers Q
  stop_spin i s = go i running (record s { pool = (stop_spinning s.pool).1 })

  -- StopSpinning of a thread that has none, which may have to steal once more.
  unfoldable pub give_up_spin : ℕ → Workers Q → Workers Q
  give_up_spin i s =
      let (again, p) = stop_spinning s.pool in
      go i (if again then retrying else preparing) (record s { pool = p })

  -- IsNotifyParkedThreadRequired, in a worker's AddTask and in that of a free-standing thread.
  unfoldable pub decide_notify : ℕ → Workers Q → Workers Q
  decide_notify i s =
      let (required, p) = is_notify_parked_thread_required s.pool in
      go i (if required then alerting else running) (record s { pool = p })

  unfoldable pub decide_notify_outside : Workers Q → Workers Q
  decide_notify_outside s =
      let (required, p) = is_notify_parked_thread_required s.pool in
      record s {
        pool = p;
        adding = s.adding - 1;
        alerting = if required then s.alerting + 1 else s.alerting;
      }

  unfoldable pub prewait : ℕ → List ℕ → Workers Q → Workers Q
  prewait i l s = go i (scanning l) (record s { waits = after prewaits s.waits })

  unfoldable pub cancel_wait : ℕ → Stage → Workers Q → Workers Q
  cancel_wait i next s = go i next (record s { waits = after cancels s.waits })

  abbrev pub set_blocked : ℕ → Workers Q → Workers Q
  set_blocked b s = record s { pool = record s.pool { blocked = b } }

  -- The thread has counted itself as blocked: does it shut down, or wait?
  unfoldable pub decide_wait : ℕ → Workers Q → Workers Q
  decide_wait i s = go i (if s.pool.done && all_blocked s.pool then finishing else committing) s

  -- CommitWait: a signal that is there is taken, and the thread does not park.
  unfoldable pub commit_wait : ℕ → Workers Q → Workers Q
  commit_wait i s =
      go i (if s.waits.signals == 0 then parked else woken)
        (record s { waits = after (commits i) s.waits })

  unfoldable pub cancel : Workers Q → Workers Q
  cancel s = notify true (record s { pool = record s.pool { cancelled = true; done = true } })

module _ {Q T : Type 0} (queues : Queues Q T) where
  -- What Steal from the queue that was found leaves: the task to run, or none.
  unfoldable pub rob : ℕ → ℕ → Workers Q → Workers Q
  rob i v s =
      let (t, q) = queues.steal (s.pool.queue v) in
      go i (elim t [ none ↦ looping | some _ ↦ running ]) (set_queue v q s)

  -- A turn of worker `i`. What a task does but for adding tasks is left open, and so is whether a
  -- search that is not the check of WaitForWork comes upon a task.
  pub data Turn (i : ℕ) (s : Workers Q) : Workers Q → Type 0 where
    sees_cancelled : s.stage i ≡ looping → s.pool.cancelled ≡ true → Turn i s (go i dropped s)
    goes_on : s.stage i ≡ looping → s.pool.cancelled ≡ false → Turn i s (go i searching s)
    takes :
        {t : T} {q : Q}
        → s.stage i ≡ searching
        → queues.next_task (s.pool.queue i) ≡ (some t, q)
        → Turn i s (go i running (set_queue i q s))
    steals :
        {t : T} {q : Q} (v : ℕ)
        → s.stage i ≡ searching
        → v < s.pool.num_threads
        → queues.steal (s.pool.queue v) ≡ (some t, q)
        → Turn i s (go i running (set_queue v q s))
    finds_nothing : s.stage i ≡ searching → Turn i s (start_spin i s)
    spin_steals :
        {t : T} {q : Q} (v : ℕ)
        → s.stage i ≡ spinning
        → v < s.pool.num_threads
        → queues.steal (s.pool.queue v) ≡ (some t, q)
        → Turn i s (go i stopping (set_queue v q s))
    stops_spinning : s.stage i ≡ stopping → Turn i s (stop_spin i s)
    spins_in_vain : s.stage i ≡ spinning → Turn i s (give_up_spin i s)
    steals_again :
        {t : T} {q : Q} (v : ℕ)
        → s.stage i ≡ retrying
        → v < s.pool.num_threads
        → queues.steal (s.pool.queue v) ≡ (some t, q)
        → Turn i s (go i running (set_queue v q s))
    retries_in_vain : s.stage i ≡ retrying → Turn i s (go i preparing s)
    -- AddTask in a task: a push onto an empty queue needs no notification.
    pushes :
        {q : Q} (t : T)
        → s.stage i ≡ running
        → queues.push_front t (s.pool.queue i) ≡ (none, q)
        → Turn i s (
            go i
              (if queues.is_empty (s.pool.queue i) then running else notifying)
              (set_queue i q s))
    decides_notify : s.stage i ≡ notifying → Turn i s (decide_notify i s)
    alerts : s.stage i ≡ alerting → Turn i s (go i running (notify false s))
    ends_task : s.stage i ≡ running → Turn i s (go i looping s)
    prepares :
        (l : List ℕ)
        → s.stage i ≡ preparing
        → IsWalk s.pool.num_threads l
        → Turn i s (prewait i l s)
    sees_empty :
        (q : ℕ) (l : List ℕ)
        → s.stage i ≡ scanning (q ∷ l)
        → queues.is_empty (s.pool.queue q) ≡ true
        → Turn i s (go i (scanning l) s)
    sees_task :
        (q : ℕ) (l : List ℕ)
        → s.stage i ≡ scanning (q ∷ l)
        → queues.is_empty (s.pool.queue q) ≡ false
        → Turn i s (go i (found q) s)
    cancels_wait : (v : ℕ) → s.stage i ≡ found v → Turn i s (cancel_wait i (robbing v) s)
    drops : (v : ℕ) → s.stage i ≡ robbing v → s.pool.cancelled ≡ true → Turn i s (go i dropped s)
    robs : (v : ℕ) → s.stage i ≡ robbing v → s.pool.cancelled ≡ false → Turn i s (rob i v s)
    counts : s.stage i ≡ scanning [] → Turn i s (go i blocking (set_blocked (s.pool.blocked + 1) s))
    decides_wait : s.stage i ≡ blocking → Turn i s (decide_wait i s)
    commits_wait : s.stage i ≡ committing → Turn i s (commit_wait i s)
    finishes :
        (l : List ℕ)
        → s.stage i ≡ finishing
        → IsWalk s.pool.num_threads l
        → Turn i s (cancel_wait i (leaving l) s)
    still_empty :
        (q : ℕ) (l : List ℕ)
        → s.stage i ≡ leaving (q ∷ l)
        → queues.is_empty (s.pool.queue q) ≡ true
        → Turn i s (go i (leaving l) s)
    stays :
        (q : ℕ) (l : List ℕ)
        → s.stage i ≡ leaving (q ∷ l)
        → queues.is_empty (s.pool.queue q) ≡ false
        → Turn i s (go i woken s)
    exits : s.stage i ≡ leaving [] → Turn i s (go i exited (notify true s))
    unblocks : s.stage i ≡ woken → Turn i s (go i looping (set_blocked (s.pool.blocked - 1) s))

  -- A step of some thread. A free-standing thread adds a task, or steals one in Quiesce, while the
  -- pool is open. The destructor begins when no such thread is left in AddTask.
  pub data Step (s : Workers Q) : Workers Q → Type 0 where
    turns : {s' : Workers Q} (i : ℕ) → i < s.pool.num_threads → Turn i s s' → Step s s'
    adds :
        {q : Q} (t : T) (v : ℕ)
        → s.pool.done ≡ false
        → v < s.pool.num_threads
        → queues.push_back t (s.pool.queue v) ≡ (none, q)
        → Step s (record (set_queue v q s) { adding = s.adding + 1 })
    decides_outside : 0 < s.adding → Step s (decide_notify_outside s)
    alerts_outside : 0 < s.alerting → Step s (record (notify false s) { alerting = s.alerting - 1 })
    quiesce_steals :
        {t : T} {q : Q} (v : ℕ)
        → s.pool.done ≡ false
        → v < s.pool.num_threads
        → queues.is_empty (s.pool.queue v) ≡ false
        → queues.steal (s.pool.queue v) ≡ (some t, q)
        → Step s (set_queue v q s)
    closes :
        s.adding ≡ 0 → s.alerting ≡ 0 → Step s (record s { pool = record s.pool { done = true } })
    notifies_all :
        s.pool.done ≡ true
        → s.pool.cancelled ≡ false
        → Step s (record (notify true s) { notified = true })

  -- Steps in any order.
  pub data Steps (s : Workers Q) : Workers Q → Type 0 where
    here : Steps s s
    and_then : {t u : Workers Q} → Steps s t → Step t u → Steps s u

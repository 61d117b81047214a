-- ===== src/Concurrent/WorkQueueBase.antt =====
-- async/concurrent/work_queue_base.h: the part of a pool that all its work queues share. `Q` is the
-- queue of a worker; the operations of the derived class on it are an interface, `Derived`.
pub mod NonEmpty
pub mod Spinning
pub mod Steal
mod Tests
use async_lib.Base.{
  ℕ, zero, suc, ◌+◌, ◌-◌, ◌*◌, ◌/◌, ◌%◌, ◌^◌, Bool, true, false, not, Option, none, some, ltb, leb,
  ◌==◌, if◌then◌else◌, get_elem, length, List,
}
use async_lib.Base.Words.{u32, u64, sub32, sub64}
use async_lib.Base.Family.{update}
use async_lib.Concurrent.EventCount
use async_lib.Concurrent.EventCount.{EventCount}
use async_lib.Concurrent.Coprimes.{fast_reduce, next_random, next_victim, compute_coprimes}

-- What the base class calls of the derived class.
pub record Derived (Q T : Type 0) : Type 0 where
  pub steal : Q → Option T × Q
  pub is_empty : Q → Bool

-- The counters that work queues composed together share.
pub record QuiescingState : Type 0 where
  pub num_quiescing : ℕ
  pub num_pending_tasks : ℕ

-- The number that a calling thread draws from its `PerThread::rng` is an argument of the operations.
pub record WorkQueueBase (Q : Type 0) : Type 0 where
  pub num_threads : ℕ
  pub queue : ℕ → Q
  pub coprimes : List ℕ
  pub blocked : ℕ
  pub done : Bool
  pub cancelled : Bool
  pub spinning_state : ℕ
  pub event_count : EventCount
  pub quiescing : QuiescingState

pub record SpinningState : Type 0 where
  pub num_spinning : ℕ
  pub num_no_notification : ℕ

abbrev pub decode : ℕ → SpinningState
decode state = record {
  num_spinning = state % 2 ^ 32;
  num_no_notification = state / 2 ^ 32 % 2 ^ 32;
}

-- `|` of the two halves, where the count of spinning threads fits in its own.
abbrev pub encode : SpinningState → ℕ
encode s = u64 (s.num_no_notification * 2 ^ 32) + s.num_spinning

module _ {Q : Type 0} where
  unfoldable pub init : ℕ → (ℕ → Q) → WorkQueueBase Q
  init n queue = record {
    num_threads = n;
    queue = queue;
    coprimes = compute_coprimes n;
    blocked = 0;
    done = false;
    cancelled = false;
    spinning_state = 0;
    event_count = EventCount.init;
    quiescing = record { num_quiescing = 0; num_pending_tasks = 0 };
  }

  unfoldable pub all_blocked : WorkQueueBase Q → Bool
  all_blocked p = p.blocked == p.num_threads

  abbrev pub num_active_threads : WorkQueueBase Q → ℕ
  num_active_threads p = sub32 p.num_threads p.blocked

  unfoldable pub start_spinning : WorkQueueBase Q → Bool × WorkQueueBase Q
  start_spinning p =
      let state = decode p.spinning_state in
      if ltb 4 (num_active_threads p)
      then (false, p)
      else if leb 1 (sub64 state.num_spinning state.num_no_notification)
      then (false, p)
      else (
        true,
        record p {
          spinning_state = encode (record state { num_spinning = u64 (state.num_spinning + 1) });
        },
      )

  unfoldable pub stop_spinning : WorkQueueBase Q → Bool × WorkQueueBase Q
  stop_spinning p =
      let state = decode p.spinning_state in
      let has_no_notify_task = ltb 0 state.num_no_notification in
      (
        has_no_notify_task,
        record p {
          spinning_state = encode (record {
            num_spinning = sub64 state.num_spinning 1;
            num_no_notification =
                if has_no_notify_task
                then state.num_no_notification - 1
                else state.num_no_notification;
          });
        },
      )

  unfoldable pub is_notify_parked_thread_required : WorkQueueBase Q → Bool × WorkQueueBase Q
  is_notify_parked_thread_required p =
      let state = decode p.spinning_state in
      if state.num_no_notification == state.num_spinning then (true, p) else (
        false,
        record p {
          spinning_state =
              encode (record state { num_no_notification = u64 (state.num_no_notification + 1) });
        },
      )

  module _ {T : Type 0} (derived : Derived Q T) where
    -- The loop of Steal, with the rounds left.
    pub steal_from : ℕ → ℕ → ℕ → WorkQueueBase Q → Option T × WorkQueueBase Q
    steal_from zero inc victim p = (none, p)
    steal_from (suc left) inc victim p =
        let (t, q) = derived.steal (p.queue victim) in
        let p' = record p { queue = update p.queue victim q } in
        let rest = steal_from left inc (next_victim p.num_threads inc victim) p' in
        elim t [ none ↦ rest | some task ↦ (some task, p') ]

    -- Steal, for the number `r` that the calling thread draws.
    pub steal : ℕ → WorkQueueBase Q → Option T × WorkQueueBase Q
    unfolding steal_from
    steal r p =
        steal_from p.num_threads (get_elem p.coprimes (fast_reduce r (length p.coprimes)))
          (fast_reduce r p.num_threads) p

    pub non_empty_from : ℕ → ℕ → ℕ → WorkQueueBase Q → Option ℕ
    non_empty_from zero inc victim p = none
    non_empty_from (suc left) inc victim p =
        let rest = non_empty_from left inc (next_victim p.num_threads inc victim) p in
        if not (derived.is_empty (p.queue victim)) then some victim else rest

    -- NonEmptyQueueIndex, where `none` is the answer -1.
    pub non_empty_queue_index : ℕ → WorkQueueBase Q → Option ℕ
    unfolding non_empty_from
    non_empty_queue_index r p =
        non_empty_from p.num_threads
          (if p.num_threads == 1 then 1 else get_elem p.coprimes (r % length p.coprimes))
          (fast_reduce r p.num_threads) p

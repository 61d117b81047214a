-- ===== src/Concurrent/EventCount/Cases.antt =====
-- The event count that Notify leaves in each of its cases.
use async_lib.Base.{ℕ, ◌+◌, ◌*◌, ◌^◌, ◌<◌, ◌≡◌, ◌≢◌, Bool, true, false, arith}
use async_lib.Base.Words.{u64}
use async_lib.Base.Family.{update}
use async_lib.Concurrent.EventCount.{
  EventCount, stack_mask, stack_of, waiters_of, signals_of, notify, unpark, signal_inc,
}

module _ (c : EventCount) where
  pub notify_nobody :
      (all : Bool)
      → stack_of c.state ≡ 16383
      → waiters_of c.state ≡ signals_of c.state
      → notify all c ≡ c
  unfolding notify
  notify_nobody all e f = ground arith

  pub notify_prewaiting :
      signals_of c.state < waiters_of c.state
      → notify false c ≡ record c { state = u64 (c.state + signal_inc) }
  unfolding notify
  notify_prewaiting lt = ground arith

  abbrev pub all_state : ℕ
  all_state = waiters_of c.state * 2 ^ 14 + waiters_of c.state * 2 ^ 28 + stack_mask

  pub notify_all_prewaiting :
      stack_of c.state ≡ 16383
      → signals_of c.state < waiters_of c.state
      → notify true c ≡ record c { state = all_state }
  unfolding notify
  notify_all_prewaiting e lt = ground arith

  pub notify_all_parked :
      stack_of c.state ≢ 16383
      → notify true c ≡ unpark (2 ^ 14) (stack_of c.state) (record c { state = all_state })
  unfolding notify
  notify_all_parked ne = ground arith

  abbrev pub one_popped : EventCount
  one_popped = record {
    state =
        waiters_of c.state * 2 ^ 14
        + signals_of c.state * 2 ^ 28
        + (c.waiter (stack_of c.state)).next;
    waiter = update c.waiter (stack_of c.state) (record {
      next = stack_mask;
      epoch = (c.waiter (stack_of c.state)).epoch;
      state = (c.waiter (stack_of c.state)).state;
    });
  }

  pub notify_one_parked :
      stack_of c.state ≢ 16383
      → waiters_of c.state ≡ signals_of c.state
      → notify false c ≡ unpark (2 ^ 14) (stack_of c.state) one_popped
  unfolding notify
  notify_one_parked ne e = ground arith

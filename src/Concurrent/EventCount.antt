-- ===== src/Concurrent/EventCount.antt =====
-- async/concurrent/event_count.h: a condition variable for a pool, packed into one 64-bit word.
-- An operation's loop ends with one successful compare-exchange of the word. The model takes an
-- operation as that one step, on the word that it finds; `or` of fields that do not overlap is `+`.
pub mod Cases
pub mod Fields
pub mod Notify
pub mod Refine
pub mod Represent
pub mod Run
pub mod Spec
mod Tests
pub mod Unpark
use async_lib.Base.{
  ℕ, zero, suc, ◌+◌, ◌-◌, ◌*◌, ◌/◌, ◌%◌, ◌^◌, Bool, true, false, ltb, not, ◌&&◌, ◌==◌,
  if◌then◌else◌,
}
use async_lib.Base.Words.{u64, sub64}
use async_lib.Base.Family.{update}

-- kStackMask: the index that stands for an empty stack.
abbrev pub stack_mask : ℕ
stack_mask = 2 ^ 14 - 1

abbrev pub waiter_inc : ℕ
waiter_inc = 2 ^ 14

abbrev pub signal_inc : ℕ
signal_inc = 2 ^ 28

abbrev pub epoch_inc : ℕ
epoch_inc = 2 ^ 42

-- The fields of a state word.
abbrev pub stack_of : ℕ → ℕ
stack_of s = s % 2 ^ 14

abbrev pub waiters_of : ℕ → ℕ
waiters_of s = s / 2 ^ 14 % 2 ^ 14

abbrev pub signals_of : ℕ → ℕ
signals_of s = s / 2 ^ 28 % 2 ^ 14

-- `s & kEpochMask`, in its place.
abbrev pub epoch_bits : ℕ → ℕ
epoch_bits s = s / 2 ^ 42 % 2 ^ 22 * 2 ^ 42

pub data WaiterState : Type 0 where
  not_signaled waiting signaled : WaiterState

pub record Waiter : Type 0 where
  pub next : ℕ
  pub epoch : ℕ
  pub state : WaiterState

pub record EventCount : Type 0 where
  pub state : ℕ
  pub waiter : ℕ → Waiter

pub init : EventCount
init = record {
  state = stack_mask;
  waiter = λ _. record { next = 0; epoch = 0; state = not_signaled };
}

pub prewait : EventCount → EventCount
prewait c = record c { state = u64 (c.state + waiter_inc) }

pub cancel_wait : EventCount → EventCount
cancel_wait c = record c {
  state =
      let newstate = sub64 c.state waiter_inc in
      if waiters_of c.state == signals_of c.state then sub64 newstate signal_inc else newstate;
}

-- CommitWait of waiter `i`, up to and with the first round of Park. The Boolean says whether the
-- thread parks; if not, it has consumed a signal.
pub commit_wait : ℕ → EventCount → Bool × EventCount
commit_wait i c =
    if not (signals_of c.state == 0)
    then (
      false,
      record {
        state = sub64 (sub64 c.state waiter_inc) signal_inc;
        waiter =
            update c.waiter i (record { next = w.next; epoch = w.epoch; state = not_signaled });
      },
    )
    else (
      true,
      record {
        state = sub64 (waiters_of c.state * 2 ^ 14) waiter_inc + (i + w.epoch);
        waiter = update c.waiter i (record {
          next = stack_of c.state + epoch_bits c.state;
          epoch = u64 (w.epoch + epoch_inc);
          state = waiting;
        });
      },
    )
  where
    w : Waiter
    w = c.waiter i

abbrev pub set_signaled : ℕ → EventCount → EventCount
set_signaled i c = record c {
  waiter =
      update c.waiter i
        (record { next = (c.waiter i).next; epoch = (c.waiter i).epoch; state = signaled });
}

-- Unpark: along the links from waiter `i`, on fuel.
pub unpark : ℕ → ℕ → EventCount → EventCount
unpark zero i c = c
unpark (suc fuel) i c =
    let wnext = stack_of (c.waiter i).next in
    let rest = unpark fuel wnext (set_signaled i c) in
    if wnext == stack_mask then set_signaled i c else rest

-- Notify. There are fewer than 2 ^ 14 waiters, which is fuel for Unpark.
pub notify : Bool → EventCount → EventCount
notify notify_all c =
    if (top == stack_mask) && (waiters == signals)
    then c
    else if notify_all
    then (if top == stack_mask then all_notified else unpark (2 ^ 14) top all_notified)
    else if ltb signals waiters
    then record c { state = u64 (c.state + signal_inc) }
    else if top == stack_mask
    then popped
    else unpark (2 ^ 14) top (record popped {
      waiter = update c.waiter top (record {
        next = stack_mask;
        epoch = (c.waiter top).epoch;
        state = (c.waiter top).state;
      });
    })
  where
    top : ℕ
    top = stack_of c.state

    waiters : ℕ
    waiters = waiters_of c.state

    signals : ℕ
    signals = signals_of c.state

    all_notified : EventCount
    all_notified = record c { state = waiters * 2 ^ 14 + waiters * 2 ^ 28 + stack_mask }

    popped : EventCount
    popped = record c { state = waiters * 2 ^ 14 + signals * 2 ^ 28 + (c.waiter top).next }

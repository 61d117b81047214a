-- ===== src/Context/HostContext/Tests.antt =====
-- Concrete runs: a callee that waits for two values, and an execution that is cancelled twice.
use async_lib.Base.{
  ℕ, ◌<◌, ◌≡◌, ◌≢◌, refl, arith, false, none, some, List, [], ◌∷◌, ◌++◌, ◌==◌, if◌then◌else◌,
}
use async_lib.Base.Sums.{weigh}
use async_lib.Context.AsyncValue.{
  concrete_value, unconstructed, construct, allocate, nothing, Store, run_waiters, step, set_error,
  emplace, and_then, enqueue_waiter, notify_available, forward_to, resolve, add_ref, drop_ref,
}
use async_lib.Context.AsyncValue.Steps.{Call, makes_unconstructed, emplaces, call}
use async_lib.Context.AsyncValue.Run.{of_users, perform}
use async_lib.Context.AsyncValue.Once.{no_values, perform_all, AllAllowed, unavailable_pending}
use async_lib.Context.HostContext.{run_when_ready, callee_runs, unavailable}
use async_lib.Context.HostContext.Ready.{is_closure, run_when_ready_lem}
use async_lib.Context.HostContext.Cancelled
use async_lib.Context.HostContext.Cancelled.{
  cancels, restarts, run, no_execution, cancel_message, message_of, cancel_lem,
}

abbrev before : List (Call ℕ ℕ)
before = makes_unconstructed 1 ∷ makes_unconstructed 1 ∷ []

abbrev later : List (Call ℕ ℕ)
later = emplaces 5 1 ∷ emplaces 6 0 ∷ []

abbrev two_values : Store ℕ ℕ
two_values =
    allocate (construct concrete_value 1 unconstructed nothing)
      (allocate (construct concrete_value 1 unconstructed nothing) no_values)

abbrev all_calls : List (Call ℕ ℕ)
all_calls = before ++ ((run_when_ready 7 (0 ∷ 1 ∷ []) two_values).1 ++ later)

all_calls-AllAllowed : AllAllowed 20 0 all_calls no_values
unfolding perform run_waiters step call set_error emplace and_then enqueue_waiter forward_to resolve
    notify_available add_ref drop_ref run_when_ready unavailable
all_calls-AllAllowed = (
  tt,
  (
    tt,
    (ground arith, (ground arith, ((ground arith, refl, refl), ((ground arith, refl, refl), tt)))),
  ),
)

reached : perform_all 20 0 before no_values ≡ some two_values
unfolding perform_all perform run_waiters call
reached = refl

run_when_ready_lem_example :
    (h' : Store ℕ ℕ) × (perform_all 20 0 all_calls no_values ≡ some h')
    × (callee_runs
          (run_when_ready {E = ℕ} 7 (0 ∷ 1 ∷ []) two_values).0
          (weigh (is_closure 7) h'.log)
        ≡ (if unavailable_pending 20 0 (of_users (is_closure 7)) h' == 0 then 1 else 0))
unfolding run_when_ready unavailable
run_when_ready_lem_example =
    run_when_ready_lem 20 0 7 (0 ∷ 1 ∷ []) before later two_values reached (omega arith) refl refl
      all_calls-AllAllowed (omega arith)

-- The second cancellation is dropped, and so is the first with the restart.
abbrev cancelled_calls : List (Cancelled.Call ℕ)
cancelled_calls = cancels 4 ∷ cancels 5 ∷ restarts ∷ cancels 6 ∷ cancels 7 ∷ []

cancel_lem_example :
    (cancel_message 0 (run {V = ℕ} 0 cancelled_calls (no_execution 0))
      ≡ message_of cancelled_calls none)
    × ((j : ℕ)
        → j < (run {V = ℕ} 0 cancelled_calls (no_execution 0)).store.allocated
        → (run {V = ℕ} 0 cancelled_calls (no_execution 0)).cancel_value ≢ some j
        → ((run {V = ℕ} 0 cancelled_calls (no_execution 0)).store.value j).live ≡ false)
cancel_lem_example = cancel_lem ℕ 0 cancelled_calls

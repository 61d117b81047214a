-- ===== src/Context/HostContext.antt =====
-- async/context/host_context.{h,cpp}: RunWhenReady on asynchronous values, the value of a cancelled
-- execution, and the shared contexts that are created once.
pub mod Ready
pub mod Cancelled
mod Tests
use async_lib.Base.{
  ℕ, zero, suc, ◌+◌, Bool, true, false, not, Option, none, some, List, [], ◌∷◌, map, length, ◌==◌,
  if◌then◌else◌,
}
use async_lib.Base.Words.{sub64}
use async_lib.Context.AsyncValue.{
  is_available, concrete_value, error, fails, Store, construct, allocate, drop_ref,
}
use async_lib.Context.AsyncValue.Steps.{Call, waits_for}

module _ {V E : Type 0} where
  unfoldable pub unavailable : List ℕ → Store V E → List ℕ
  unavailable [] h = []
  unavailable (i ∷ is) h =
      if is_available (h.value i).state then unavailable is h else i ∷ unavailable is h

-- How RunWhenReady has the callee run: at once, by the one closure, or by the last of several, which
-- count down together.
pub data Plan : Type 0 where
  now one_closure : Plan
  counts_down : ℕ → Plan

abbrev pub plan_for : List ℕ → Plan
plan_for [] = now
plan_for (i ∷ []) = one_closure
plan_for (i ∷ j ∷ is) = counts_down (length (i ∷ j ∷ is))

-- `CounterAndCallee`, with how often the callee has run.
pub record CounterAndCallee : Type 0 where
  pub counter : ℕ
  pub runs : ℕ

-- The closure that each of several values runs.
unfoldable pub count_down : CounterAndCallee → CounterAndCallee
count_down d = record {
  counter = sub64 d.counter 1;
  runs = if d.counter == 1 then d.runs + 1 else d.runs;
}

abbrev pub times {ℓ} : {A : Type ℓ} → ℕ → (A → A) → A → A
times zero f a = a
times (suc n) f a = times n f (f a)

-- How often the callee has run when the closures have run `n` times in all.
unfoldable pub callee_runs : Plan → ℕ → ℕ
unfolding count_down
callee_runs now n = 1
callee_runs one_closure n = n
callee_runs (counts_down k) n = (times n count_down (record { counter = k; runs = 0 })).runs

module _ {V E : Type 0} where
  -- RunWhenReady, as the calls of AndThen that it makes with closures of number `c`.
  unfoldable pub run_when_ready : ℕ → List ℕ → Store V E → Plan × List (Call V E)
  unfolding unavailable
  run_when_ready c values h =
      (plan_for (unavailable values h), map (waits_for c) (unavailable values h))

-- What CancelExecution and Restart keep: the values, and `mCancelValue`.
pub record Execution (V E : Type 0) : Type 0 where
  pub store : Store V E
  pub cancel_value : Option ℕ

module _ {V E : Type 0} where
  -- MakeErrorAsyncValueRef, with the type number of error values. The new value is the last.
  unfoldable pub make_error : ℕ → E → Store V E → Store V E
  make_error error_type e h = allocate (construct concrete_value error_type error (fails e)) h

  -- CancelExecution: the value is kept if there was none, and dropped otherwise.
  unfoldable pub cancel_execution : ℕ → E → Execution V E → Execution V E
  unfolding make_error
  cancel_execution error_type msg x =
      let h = make_error error_type msg x.store in
      elim x.cancel_value [
        | none ↦ record { store = h; cancel_value = some x.store.allocated }
        | some i ↦ record { store = drop_ref 1 x.store.allocated h; cancel_value = some i }
      ]

  unfoldable pub restart : Execution V E → Execution V E
  restart x = elim x.cancel_value [
    | none ↦ x
    | some i ↦ record { store = drop_ref 1 i x.store; cancel_value = none }
  ]

  abbrev pub get_cancel_async_value : Execution V E → Option ℕ
  get_cancel_async_value x = x.cancel_value

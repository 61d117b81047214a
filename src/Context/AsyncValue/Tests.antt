-- ===== src/Context/AsyncValue/Tests.antt =====
-- Concrete runs: two callbacks on an indirect value that is forwarded to one that is emplaced later.
use async_lib.Base.Family.{update}
use async_lib.Base.{
  not, ◌||◌, zero, suc, Option, ℕ, ◌+◌, ◌<◌, ◌≡◌, refl, arith, true, some, none, List, [], ◌∷◌,
}
use async_lib.Base.Sums.{weigh}
use async_lib.Context.AsyncValue.{
  is_error, is_concrete, concrete_value, indirect_value, error, construct, fails, nothing, get,
  get_error_if_present, Store, run_waiters, step, set_error, emplace, and_then, enqueue_waiter,
  forward_to, resolve, notify_available, add_ref, drop_ref,
}
use async_lib.Context.AsyncValue.Inv.{Inv, Good}
use async_lib.Context.AsyncValue.Steps.{
  call, Call, makes_unconstructed, makes_indirect, waits_for, forwards_to, emplaces,
}
use async_lib.Context.AsyncValue.Run.{of_users, perform}
use async_lib.Context.AsyncValue.Once.{
  no_values, perform_all, AllAllowed, registered, callbacks_run_once, readers_lem, is_some,
  unavailable_pending,
}

abbrev calls : List (Call ℕ ℕ)
calls =
    makes_indirect
    ∷ makes_unconstructed 1
    ∷ waits_for 7 0
    ∷ forwards_to 0 1
    ∷ waits_for 8 0
    ∷ waits_for 9 1
    ∷ emplaces 5 1
    ∷ waits_for 6 0
    ∷ []

calls-AllAllowed : AllAllowed 20 0 calls no_values
unfolding perform run_waiters step call set_error emplace and_then enqueue_waiter forward_to resolve
    notify_available add_ref drop_ref
calls-AllAllowed = (
  tt,
  (
    tt,
    (
      ground arith,
      (
        (ground arith, refl, ground arith, refl),
        (ground arith, (ground arith, ((ground arith, refl, refl), (ground arith, tt)))),
      ),
    ),
  ),
)

abbrev log_of : Option (Store ℕ ℕ) → List ℕ
log_of none = []
log_of (some h) = h.log

run-calls : log_of (perform_all 20 0 calls no_values) ≡ 6 ∷ 7 ∷ 8 ∷ 9 ∷ []
unfolding perform_all perform run_waiters step call set_error emplace and_then enqueue_waiter
    forward_to resolve notify_available add_ref drop_ref
run-calls = refl

callbacks_run_once_example :
    (h : Store ℕ ℕ) × (perform_all 20 0 calls no_values ≡ some h)
    × Inv h
    × ((f : ℕ → ℕ)
        → weigh f h.log + unavailable_pending 20 0 (of_users f) h ≡ registered 20 0 f calls)
callbacks_run_once_example = callbacks_run_once 20 0 calls calls-AllAllowed (ground arith)

-- An indirect value that reads through to an error.
abbrev two_values : Store ℕ ℕ
two_values = record {
  value =
      update
        (update (no_values {V = ℕ} {E = ℕ}).value 0
          (record (construct indirect_value 0 error nothing) { target = some 1 }))
        1 (construct concrete_value 4 error (fails 3));
  allocated = 2;
  log = [];
}

two_values-Inv : Inv two_values
two_values-Inv = record { good = λ i lt. good i lt; fresh = λ i le. ground arith }
  where
    good : (i : ℕ) → i < 2 → Good two_values i (two_values.value i)
    good zero lt = record {
      quiet = λ _. refl;
      waiting = tt;
      fits = λ k. absurd (ground arith);
      resolved = λ _ _. (1, refl, ground arith, refl, refl);
      unresolved = λ _ un. absurd (ground arith);
    }
    good (suc zero) lt = record {
      quiet = λ _. refl;
      waiting = tt;
      fits = λ _. (3, refl);
      resolved = λ k. absurd (ground arith);
      unresolved = λ k. absurd (ground arith);
    }
    good (suc (suc i)) lt = absurd (omega arith)

readers_lem_example :
    (is_some (get_error_if_present 0 two_values) ≡ is_error error)
    × ((not (is_concrete error) || is_some (get 0 two_values)) ≡ true)
readers_lem_example = readers_lem two_values 0 two_values-Inv (ground arith)

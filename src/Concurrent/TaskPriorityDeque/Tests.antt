-- ===== src/Concurrent/TaskPriorityDeque/Tests.antt =====
-- Concrete runs of a `TaskPriorityDeque` of numbers.
use async_lib.Base.{ℕ, ◌≡◌, refl, arith, none, some, List, [], ◌∷◌}
use async_lib.Concurrent.TaskPriorityDeque.{
  high, default, low, init, push_front, push_back, pop_front, pop_back, is_empty,
}
use async_lib.Concurrent.TaskPriorityDeque.Refine.{Holds}
use async_lib.Concurrent.TaskPriorityDeque.Run.{
  Call, pushes_front, pushes_back, pops_front, pops_back, run, call, spec_run, priority_run_refines,
}

init-Holds : Holds {T = ℕ} (init 0) (λ p. [])
unfolding init
init-Holds = record {
  valid = λ p. record {
    front_fits = ground arith;
    back_fits = ground arith;
    bounded = ground arith;
    slots = λ j h. ground arith;
  };
  lists = λ p. ground arith;
}

abbrev calls : List (Call ℕ)
calls =
    pushes_front 1 low
    ∷ pushes_front 2 high
    ∷ pushes_back 3 high
    ∷ pushes_front 4 default
    ∷ pops_front
    ∷ pops_back
    ∷ pops_back
    ∷ pops_front
    ∷ pops_back
    ∷ []

run-calls :
    run 0 (init 0) calls ≡ none ∷ none ∷ none ∷ none ∷ some 2 ∷ some 3 ∷ some 4 ∷ some 1 ∷ none ∷ []
unfolding run call init push_front push_back pop_front pop_back is_empty
run-calls = refl

priority_run_refines_example : run 0 (init 0) calls ≡ spec_run 0 (λ p. []) calls
priority_run_refines_example = priority_run_refines 0 calls (init 0) (λ p. []) init-Holds

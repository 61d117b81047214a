-- ===== src/Concurrent/TaskQueue/Tests.antt =====
-- Concrete runs of a `TaskQueue` of numbers.
use async_lib.Base.{ℕ, ◌≡◌, refl, arith, none, some, List, [], ◌∷◌, ◌⊎◌, ◌+◌, ◌%◌}
use async_lib.Base.Words.{u32}
use async_lib.Concurrent.TaskQueue.{TaskQueue, init, push_front, pop_back}
use async_lib.Concurrent.TaskQueue.Inv.{Inv, init-Inv, contents}
use async_lib.Concurrent.TaskQueue.Run.{
  Call, pushes, pops, call, run, spec_run, AtWrap, Ends, call_cases, run_ends,
}

abbrev calls : List (Call ℕ)
calls = pushes 7 ∷ pushes 8 ∷ pops ∷ pops ∷ pops ∷ []

run-calls : run 0 calls (init 0) ≡ some (none ∷ none ∷ some 7 ∷ some 8 ∷ none ∷ [])
unfolding run call init push_front pop_back
run-calls = refl

run_ends_example : run 0 calls (init 0) ≡ some (spec_run 0 calls (contents (init 0)))
unfolding init
run_ends_example = run_ends 0 calls (init 0) (init-Inv 0) (omega arith)

-- An empty queue at the last value of its indices.
abbrev at_wrap : TaskQueue ℕ
at_wrap = record {
  front = 4294967295;
  back = 4294967295;
  array = λ i. record { state = u32 (4294967295 + (i + 1) % 1024); task = 0 };
}

at_wrap-Inv : Inv at_wrap
at_wrap-Inv = record {
  front_fits = omega arith;
  back_fits = omega arith;
  bounded = omega arith;
  slots = λ j h. ground arith;
}

call_cases_example :
    (AtWrap 0 pops at_wrap × (call 0 pops at_wrap ≡ none))
    ⊎ (¬ (AtWrap 0 pops at_wrap) × Ends 0 pops at_wrap)
call_cases_example = call_cases 0 pops at_wrap at_wrap-Inv

pop_back-at_wrap : call 0 pops at_wrap ≡ none
unfolding call pop_back
pop_back-at_wrap = refl

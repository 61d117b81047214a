-- ===== src/Concurrent/TaskDeque/Tests.antt =====
-- Runs of `TaskDeque` on small inputs. A task is a number, and 0 is what a move leaves behind.
use async_lib.Base.{ℕ, ◌≡◌, refl, none, some, List, [], ◌∷◌, arith}
use async_lib.Concurrent.TaskDeque.{
  TaskDeque, init, push_front, pop_front, push_back, pop_back, size, is_empty,
}
use async_lib.Concurrent.TaskDeque.Inv.{Inv, init-Inv, push_front-Inv, push_back-Inv}
use async_lib.Concurrent.TaskDeque.Window.{contents}
use async_lib.Concurrent.TaskDeque.Run.{
  Call, pushes_front, pushes_back, pops_front, pops_back, call, run, spec_run, run_refines, flush,
  flush_ends,
}
use async_lib.Concurrent.TaskDeque.Half.{
  pop_back_half, half_step, half_loop, half_start, half_finish, Taken, pop_back_half-Taken,
}

abbrev calls : List (Call ℕ)
calls =
    pushes_front 5
    ∷ pushes_back 6
    ∷ pushes_front 7
    ∷ pops_back
    ∷ pops_front
    ∷ pops_front
    ∷ pops_front
    ∷ []

run-calls : run 0 (init 0) calls ≡ none ∷ none ∷ none ∷ some 6 ∷ some 7 ∷ some 5 ∷ none ∷ []
unfolding run call init push_front pop_front push_back pop_back
run-calls = refl

-- Tasks 6, 5 and 7, the back first.
three : TaskDeque ℕ
three = (push_front 7 (push_back 6 (push_front 5 (init 0)).1).1).1

three-Inv : Inv three
unfolding three
three-Inv = push_front-Inv 7 _ (push_back-Inv 6 _ (push_front-Inv 5 _ (init-Inv 0)))

contents-three : contents three ≡ 6 ∷ 5 ∷ 7 ∷ []
unfolding three push_front push_back init
contents-three = refl

half_runs : ((pop_back_half 0 three).0 ≡ 2) × ((pop_back_half 0 three).1 ≡ 5 ∷ 6 ∷ [])
unfolding three push_front push_back init pop_back_half half_start half_loop half_finish half_step
    size is_empty
half_runs = (refl, refl)

run_refines_example : run 0 three calls ≡ spec_run 0 (contents three) calls
run_refines_example = run_refines 0 calls three three-Inv

flush_ends_example : (q : TaskDeque ℕ) × (flush 0 4 three ≡ some q) × (contents q ≡ []) × Inv q
unfolding three push_front push_back init
flush_ends_example = flush_ends 0 4 three three-Inv (omega arith)

pop_back_half-Taken_example : Taken three three-Inv (pop_back_half 0 three)
pop_back_half-Taken_example = pop_back_half-Taken three three-Inv 0

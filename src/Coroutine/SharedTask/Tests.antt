-- ===== src/Coroutine/SharedTask/Tests.antt =====
-- A run with two awaiters: the first starts the coroutine, which ends after the second has come.
use async_lib.Base.{ℕ, ◌≤◌, ◌≡◌, ◌≢◌, refl, arith, true, [], ◌∷◌, ◌++◌}
use async_lib.Runtime.TaskGraph.Counting.{count}
use async_lib.Coroutine.SharedTask.{
  SharedTask, null, head, waiters, continuing, suspended, await_ready, load, claim, reload, enqueue,
  finish, asks, loads, claims, returns, enqueues, ends, resumes, Steps, here, and_then,
}
use async_lib.Coroutine.SharedTask.Inv.{is_suspended}
use async_lib.Coroutine.SharedTask.Awaited.{awaited_lem}

abbrev Ran : Type 0
Ran = (s : SharedTask) × Steps s

both_wait : Ran
unfolding await_ready load claim reload enqueue
both_wait = (
  _,
  and_then
      (and_then
        (and_then
          (and_then
            (and_then
              (and_then
                (and_then (and_then (and_then (here) (asks 0 refl)) (asks 1 refl)) (loads 0 refl))
                (claims 0 refl))
              (loads 1 refl))
            (returns 0 refl))
          (enqueues 0 null refl))
        (enqueues 1 null refl))
      (enqueues 1 (head 0) refl),
)

both_continue : Ran
unfolding both_wait await_ready load claim reload enqueue finish
both_continue = (
  _,
  and_then (and_then (and_then (both_wait.1) (ends (omega arith) refl)) (resumes 1 (0 ∷ []) refl))
      (resumes 0 [] refl),
)

first_continues : both_continue.0.stage 0 ≡ continuing
unfolding both_continue both_wait await_ready load claim reload enqueue finish
first_continues = refl

awaited_lem_example :
    (both_continue.0.starts ≤ 1)
    × ((i : ℕ) → both_continue.0.stage i ≡ continuing → both_continue.0.finished ≡ true)
    × ((i : ℕ)
        → count i (waiters both_continue.0.word ++ both_continue.0.resuming)
          ≡ is_suspended (both_continue.0.stage i))
    × (both_continue.0.finished ≡ true
        → both_continue.0.resuming ≡ []
        → (i : ℕ) → both_continue.0.stage i ≢ suspended)
awaited_lem_example = awaited_lem both_continue.0 both_continue.1

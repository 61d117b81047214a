-- ===== src/Concurrent/BlockingWorkQueue/Tests.antt =====
-- A concrete run of the dynamic threads: two tasks, of which the second waits for the first thread.
use async_lib.Base.{ℕ, ◌+◌, ◌≡◌, refl, [], ◌∷◌, false}
use async_lib.Base.Sums.{weigh}
use async_lib.Concurrent.NonBlockingWorkQueue.{with_pending_task}
use async_lib.Concurrent.WorkQueueBase.{QuiescingState}
use async_lib.Concurrent.BlockingWorkQueue.{
  BlockingWorkQueue, waiting, exited, init, run_blocking_task, wrap, finish, wake, body, Steps,
  nothing_yet, and_then, submits, finishes, wakes,
}
use async_lib.Concurrent.BlockingWorkQueue.Weights.{Inv, held, pends}
use async_lib.Concurrent.BlockingWorkQueue.Kept.{steps_keep, drained_lem, Started, idle_tasks_start}

abbrev quiet : QuiescingState
quiet = record { num_quiescing = 1; num_pending_tasks = 5 }

abbrev end_state : BlockingWorkQueue ℕ
end_state = record {
  max_num_dynamic_threads = 1;
  num_dynamic_threads = 0;
  num_idle_dynamic_threads = 0;
  idle_task_queue = [];
  dynamic_threads = exited ∷ [];
  stop_waiting = false;
  quiescing = quiet;
  finished = 8 ∷ 7 ∷ [];
}

run_of_two : Steps (init 1 quiet) (8 ∷ 7 ∷ []) end_state
unfolding run_blocking_task wrap finish wake
run_of_two =
    and_then
      (and_then
        (and_then
          (and_then
            (and_then (and_then nothing_yet (submits 7)) (finishes 0 (with_pending_task 7) refl))
            (submits 8))
          (wakes 0 refl))
        (finishes 0 (with_pending_task 8) refl))
      (wakes 0 refl)

steps_keep_example :
    Inv end_state
    × ((f : ℕ → ℕ)
        → weigh f end_state.finished + held (λ t. f (body t)) end_state ≡ weigh f (8 ∷ 7 ∷ []))
    × (end_state.quiescing.num_pending_tasks ≡ quiet.num_pending_tasks + held pends end_state)
steps_keep_example = steps_keep 1 quiet end_state (8 ∷ 7 ∷ []) run_of_two

drained_lem_example :
    (end_state.idle_task_queue ≡ [])
    × ((f : ℕ → ℕ) → weigh f end_state.finished ≡ weigh f (8 ∷ 7 ∷ []))
drained_lem_example = drained_lem 1 quiet end_state (8 ∷ 7 ∷ []) run_of_two refl

-- Task 8 is left for the thread that has run task 7.
abbrev one_queued : BlockingWorkQueue ℕ
one_queued = record end_state {
  num_dynamic_threads = 1;
  num_idle_dynamic_threads = 1;
  idle_task_queue = with_pending_task 8 ∷ [];
  dynamic_threads = waiting ∷ [];
  quiescing = record { num_quiescing = 1; num_pending_tasks = 6 };
  finished = 7 ∷ [];
}

run_to_queued : Steps (init 1 quiet) (8 ∷ 7 ∷ []) one_queued
unfolding run_blocking_task wrap finish
run_to_queued =
    and_then (and_then (and_then nothing_yet (submits 7)) (finishes 0 (with_pending_task 7) refl))
      (submits 8)

idle_tasks_start_example :
    (q' : BlockingWorkQueue ℕ) × Steps one_queued [] q'
    × Started one_queued q' one_queued.idle_task_queue
idle_tasks_start_example = idle_tasks_start 1 quiet one_queued (8 ∷ 7 ∷ []) run_to_queued

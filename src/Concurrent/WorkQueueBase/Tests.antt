-- ===== src/Concurrent/WorkQueueBase/Tests.antt =====
-- Concrete runs of the count of spinning threads.
use async_lib.Base.{ℕ, ◌+◌, ◌≡◌, refl, arith, List, [], ◌∷◌}
use async_lib.Concurrent.WorkQueueBase.{
  WorkQueueBase, init, start_spinning, stop_spinning, is_notify_parked_thread_required,
}
use async_lib.Concurrent.WorkQueueBase.Spinning.{
  Call, starts, stops, submits, Spins, run, call, AllAllowed, run_balanced,
}

-- A pool of two workers; its queues do not matter.
abbrev two : WorkQueueBase ℕ
two = init 2 (λ _. 0)

two-Spins : Spins two 0 0
unfolding init
two-Spins = record {
  fits = omega arith;
  spinning_field = refl;
  skipped_field = refl;
  covered = omega arith;
}

-- A thread starts to spin, one task goes without a notification, the next does not, and the
-- thread stops and is told to steal once more.
abbrev calls : List Call
calls = starts ∷ submits ∷ submits ∷ stops ∷ []

run-calls : ((run calls two).0 ≡ 1) × ((run calls two).1 ≡ 1)
unfolding run call init start_spinning stop_spinning is_notify_parked_thread_required
run-calls = (refl, refl)

calls_allowed : AllAllowed calls two
unfolding call init start_spinning stop_spinning is_notify_parked_thread_required
calls_allowed = ground arith

run_balanced_example :
    let (missed, told, p') = run calls two in
    (s' k' : ℕ) × Spins p' s' k' × (0 + missed ≡ k' + told)
run_balanced_example = run_balanced calls two 0 0 two-Spins calls_allowed

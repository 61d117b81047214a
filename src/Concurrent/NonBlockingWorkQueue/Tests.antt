-- ===== src/Concurrent/NonBlockingWorkQueue/Tests.antt =====
-- Concrete runs of a pool of three workers, whose tasks are numbers.
use async_lib.Base.{ℕ, ◌+◌, ◌≡◌, arith, none, List, [], ◌∷◌, ◌⊎◌}
use async_lib.Base.Sums.{weigh}
use async_lib.Concurrent.TaskDeque
use async_lib.Concurrent.TaskDeque.Inv.{Inv}
use async_lib.Concurrent.WorkQueueBase
use async_lib.Concurrent.WorkQueueBase.{non_empty_queue_index}
use async_lib.Concurrent.WorkQueueBase.Steal.{Stolen, AllEmpty, steal_lem, IsReady}
use async_lib.Concurrent.WorkQueueBase.NonEmpty.{Answered, non_empty_queue_index-Answered}
use async_lib.Concurrent.NonBlockingWorkQueue.{plain, Pool, free_standing, derived}
use async_lib.Concurrent.NonBlockingWorkQueue.Weigh.{handed}
use async_lib.Concurrent.NonBlockingWorkQueue.Keep.{w, weight}
use async_lib.Concurrent.NonBlockingWorkQueue.Run.{
  Call, adds, steals, run, AllAllowed, added, run-weight, run-Ready, new_pool-Ready, derived-Laws,
}

abbrev three : Pool ℕ
three = WorkQueueBase.init 3 (λ _. TaskDeque.init (plain 0))

three-Ready : IsReady Inv three
three-Ready = new_pool-Ready 0 3 (omega arith) (omega arith)

-- Another thread adds 7 to the last queue and 8 to the first, and a thread steals.
abbrev calls : List (Call ℕ)
calls = adds (free_standing 4294967295) 7 ∷ adds (free_standing 0) 8 ∷ steals 5 ∷ []

calls_allowed : AllAllowed 0 calls three
calls_allowed = (omega arith, (omega arith, (omega arith, tt)))

run-weight_example :
    weigh (handed (w (λ x. x))) (run 0 calls three).0 + weight (λ x. x) (run 0 calls three).1
    ≡ added 0 (λ x. x) calls + weight (λ x. x) three
run-weight_example = run-weight 0 (λ x. x) calls three three-Ready calls_allowed

-- The pool with the two tasks in it.
abbrev loaded : Pool ℕ
loaded = (run 0 (adds (free_standing 4294967295) 7 ∷ adds (free_standing 0) 8 ∷ []) three).1

loaded-Ready : IsReady Inv loaded
loaded-Ready =
    run-Ready 0 (adds (free_standing 4294967295) 7 ∷ adds (free_standing 0) 8 ∷ []) three
      three-Ready (omega arith, (omega arith, tt))

steal_lem_example :
    (AllEmpty (derived 0) loaded × (WorkQueueBase.steal (derived 0) 5 loaded ≡ (none, loaded)))
    ⊎ Stolen (derived 0) loaded (WorkQueueBase.steal (derived 0) 5 loaded)
steal_lem_example = steal_lem (derived 0) Inv (derived-Laws 0) loaded loaded-Ready 5 (omega arith)

non_empty_queue_index-Answered_example :
    Answered (derived 0) loaded (non_empty_queue_index (derived 0) 5 loaded)
non_empty_queue_index-Answered_example =
    non_empty_queue_index-Answered (derived 0) Inv (derived-Laws 0) loaded loaded-Ready 5
      (omega arith)

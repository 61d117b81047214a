-- ===== src/Concurrent/EventCount/Tests.antt =====
-- Concrete runs of `EventCount`.
use async_lib.Base.{◌≡◌, true, false, List, [], ◌∷◌, arith}
use async_lib.Concurrent.EventCount.{EventCount, init, notify}
use async_lib.Concurrent.EventCount.Represent.{Keeps, Answers, run, parks}
use async_lib.Concurrent.EventCount.Spec.{Waits, Call, prewaits, commits, notifies, after}
use async_lib.Concurrent.EventCount.Refine.{run-Answers, init-Keeps}
use async_lib.Concurrent.EventCount.Run.{runs, all_parks, after_all, AllAllowed, runs_refines}

-- Nobody waits.
abbrev no_waits : Waits
no_waits = record { parked = []; pre = 0; signals = 0 }

-- Waiters 3 and 5 park, a third thread announces a wait and is signaled, and waiter 5 is woken.
abbrev calls : List Call
calls =
    prewaits
    ∷ commits 3
    ∷ prewaits
    ∷ commits 5
    ∷ prewaits
    ∷ notifies false
    ∷ notifies false
    ∷ commits 5
    ∷ []

calls_allowed : AllAllowed calls no_waits
unfolding after
calls_allowed = ground arith

runs-calls : (runs calls init).0 ≡ false ∷ true ∷ false ∷ true ∷ false ∷ false ∷ false ∷ false ∷ []
unfolding runs run init parks notify after
runs-calls = (runs_refines calls init no_waits init-Keeps calls_allowed).0

runs_refines_example :
    ((runs calls init).0 ≡ all_parks calls no_waits)
    × Keeps (runs calls init).1 (after_all calls no_waits)
runs_refines_example = runs_refines calls init no_waits init-Keeps calls_allowed

-- Two parked waiters, and a thread that has announced a wait.
abbrev two_parked : List Call
two_parked = prewaits ∷ commits 3 ∷ prewaits ∷ commits 5 ∷ prewaits ∷ []

two_parked_allowed : AllAllowed two_parked no_waits
unfolding after
two_parked_allowed = ground arith

abbrev c2 : EventCount
c2 = (runs two_parked init).1

abbrev v2 : Waits
v2 = after_all two_parked no_waits

c2-Keeps : Keeps c2 v2
c2-Keeps = (runs_refines two_parked init no_waits init-Keeps two_parked_allowed).1

run-Answers_example : Answers (notifies true) c2 v2 (run (notifies true) c2)
run-Answers_example = run-Answers (notifies true) c2 v2 c2-Keeps tt

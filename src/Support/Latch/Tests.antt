-- ===== src/Support/Latch/Tests.antt =====
-- A latch of two, on which two threads come to wait, one of them late.
use async_lib.Base.{◌≡◌, refl, List, [], ◌∷◌}
use async_lib.Support.Latch.{init, Call, downs, adds, waits, run, call, count_down, wait, add_count}

abbrev calls : List Call
calls = downs 1 ∷ waits ∷ adds 1 ∷ downs 1 ∷ downs 1 ∷ waits ∷ []

one_blocked : (run calls (init 2, 0)).1 ≡ 1
unfolding run call count_down wait add_count init
one_blocked = refl

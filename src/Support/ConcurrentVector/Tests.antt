-- ===== src/Support/ConcurrentVector/Tests.antt =====
-- A vector of numbers that grows twice while a reader holds its first word.
use async_lib.Base.{ℕ, ◌+◌, ◌≡◌, refl, arith, List, [], ◌∷◌, ◌^◌, ◌++◌}
use async_lib.Support.ConcurrentVector.{State, ConcurrentVector, init, emplace_back, encode, decode}
use async_lib.Support.ConcurrentVector.Laws.{
  encode-decode, Holds, Serves, emplace_all, emplace_all-Holds, numbered, emplace_all_lem,
  init-Holds,
}

abbrev first : List ℕ
first = 4 ∷ []

abbrev more : List ℕ
more = 5 ∷ 6 ∷ 7 ∷ []

abbrev started : ConcurrentVector ℕ
started = (emplace_all first (init 1)).1

started-Holds : Holds started first
started-Holds = (emplace_all-Holds first (init 1) [] (init-Holds 1 (ground arith)) (ground arith)).0

indices : (emplace_all more started).0 ≡ 1 ∷ 2 ∷ 3 ∷ []
unfolding emplace_all emplace_back init encode decode
indices = refl

emplace_all_lem_example :
    Holds (emplace_all more started).1 (first ++ more)
    × ((emplace_all more started).0 ≡ numbered 1 more)
    × Serves (emplace_all more started).1 started.state first
    × Serves (emplace_all more started).1 (emplace_all more started).1.state (first ++ more)
emplace_all_lem_example = emplace_all_lem more started first started-Holds (ground arith)

abbrev third : State
third = record { last_allocated = 2; size = 3 }

encode-decode_example :
    (decode (encode third) ≡ third) × (encode (decode (2 ^ 63 + 5)) ≡ 2 ^ 63 + 5)
encode-decode_example =
    encode-decode third (2 ^ 63 + 5) (ground arith) (ground arith) (ground arith)

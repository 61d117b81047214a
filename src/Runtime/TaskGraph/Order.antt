-- ===== src/Runtime/TaskGraph/Order.antt =====
-- The order in which the executor of task_graph.cpp runs the nodes.
use async_lib.Base.{
  Bool-cases, inl, inr, ℕ, ◌≤◌, ◌<◌, ◌≡◌, List, [], ◌∷◌, ◌++◌, arith, ◌==◌, dec_lt,
}
use async_lib.Runtime.TaskGraph.{
  TaskGraph, Job, waiting, entry, ran, releasing, System, deps, advance, turn, Reach, begin, later,
  start, new_executor,
}
use async_lib.Runtime.TaskGraph.Counting.{count, waits-pos, weigh_split}
use async_lib.Runtime.TaskGraph.Inv.{IsBuilt, held, Inv}
use async_lib.Runtime.TaskGraph.Moves.{Reach-Inv, count-log-le}

-- Every node of the log (the last first) comes after all its dependencies.
abbrev pub InOrder : TaskGraph → List ℕ → Type 0
InOrder g [] = Unit
InOrder g (k ∷ log) = ((d : ℕ) → 0 < count d (deps g k) → 0 < count d log) × InOrder g log

module _ {g : TaskGraph} (b : IsBuilt g) {s : System} (v : Inv g s) where
  -- A node that is about to run has nothing to wait for.
  entry_ready :
      (xs ys : List Job) (k : ℕ)
      → s.jobs ≡ xs ++ (entry k ∷ ys)
      → (d : ℕ) → 0 < count d (deps g k)
      → 0 < count d s.mem.log
  entry_ready xs ys k e d dep = elim (dec_lt 0 (count d s.mem.log)) [
    | yes h ↦ h
    | no h ↦ absurd (
        ground (
          arith,
          v.tokens k,
          v.counts k,
          weigh_split (held k) xs ys (entry k) e,
          waits-pos (deps g k) s.mem.log d dep (omega arith),
        ))
  ]

  turn-InOrder :
      (xs ys : List Job) (j : Job)
      → s.jobs ≡ xs ++ (j ∷ ys)
      → InOrder g s.mem.log
      → InOrder g (advance g s.mem j).0.log
  unfolding advance
  turn-InOrder xs ys (waiting []) e h = h
  turn-InOrder xs ys (waiting (k ∷ [])) e h = h
  turn-InOrder xs ys (waiting (k ∷ r ∷ rest)) e h = h
  turn-InOrder xs ys (entry k) e h = (entry_ready xs ys k e, h)
  turn-InOrder xs ys (ran k) e h = h
  turn-InOrder xs ys (releasing c (x ∷ left) ready) e h = h
  turn-InOrder xs ys (releasing c [] ready) e h = elim (Bool-cases (c == 1)) [
    | inl last ↦ rw last h
    | inr more ↦ rw more h
  ]

Reach-InOrder : {g : TaskGraph} {s : System} → IsBuilt g → Reach g s → InOrder g s.mem.log
unfolding start new_executor
Reach-InOrder b begin = tt
Reach-InOrder b (later r (turn xs ys j e)) =
    turn-InOrder b (Reach-Inv b r) xs ys j e (Reach-InOrder b r)

-- Under every order of turns, a node has run at most once, only nodes of the graph have run, and
-- each ran after all its dependencies.
pub runs-InOrder :
    (g : TaskGraph) (s : System)
    → IsBuilt g
    → Reach g s
    → ((n : ℕ) → count n s.mem.log ≤ 1)
      × ((n : ℕ) → g.size ≤ n → count n s.mem.log ≡ 0)
      × InOrder g s.mem.log
runs-InOrder g s b r = (
  count-log-le b (Reach-Inv b r),
  (λ n h. ground (arith, (Reach-Inv b r).tokens n)),
  Reach-InOrder b r,
)

-- ===== src/Runtime/TaskGraph/Progress.antt =====
-- The end of a run of the executor of task_graph.cpp.
use async_lib.Base.{
  List-cases, subst, sym, ℕ, zero, suc, ◌+◌, ◌*◌, ◌<◌, ◌≡◌, Option, none, some, List, [], ◌∷◌, ◌++◌,
  arith, length, ◌==◌, if◌then◌else◌, dec_lt, false, inl, inr, length-append, ap,
}
use async_lib.Runtime.TaskGraph.{
  TaskGraph, Executor, Job, waiting, entry, ran, releasing, System, deps, succs, advance, Step,
  turn, Reach, begin, later, start,
}
use async_lib.Runtime.TaskGraph.Counting.{
  count, waits, weigh_split, weigh_replaced, total-count, total_ones,
}
use async_lib.Base.Sums.{weigh, total, total_at}
use async_lib.Runtime.TaskGraph.Inv.{IsBuilt, owed, held, uncounted, found_last, Inv}
use async_lib.Runtime.TaskGraph.Moves.{Reach-Inv, count-log-le}
use async_lib.Runtime.TaskGraph.Order.{InOrder, runs-InOrder}

-- A rank that rises along every edge: the graph has no cycle.
abbrev pub IsAcyclic : TaskGraph → (ℕ → ℕ) → Type 0
IsAcyclic g rank = (d n : ℕ) → 0 < count d (deps g n) → rank d < rank n

-- A list that has entries outside the log shows one.
waits_find : (ds log : List ℕ) → 0 < waits ds log → (d : ℕ) × (0 < count d ds) × (count d log ≡ 0)
waits_find [] log h = absurd (omega arith)
waits_find (x ∷ ds) log h = elim (dec_lt 0 (count x log)) [
  | yes here ↦ let (d, p, q) = waits_find ds log (ground arith) in (d, ground arith, q)
  | no missing ↦ (x, ground arith, omega arith)
]

module _ {g : TaskGraph} (b : IsBuilt g) (rank : ℕ → ℕ) (up : IsAcyclic g rank) {s : System}
    (v : Inv g s) (idle : s.jobs ≡ []) where
  ran_below : (r n : ℕ) → rank n < r → n < g.size → 0 < count n s.mem.log
  ran_below zero n lt h = absurd (omega arith)
  ran_below (suc r) n lt h = elim (dec_lt 0 (count n s.mem.log)) [
    | yes done ↦ done
    | no not_yet ↦
        let (d, dep, missing) = waits_find (deps g n) s.mem.log (
          ground (
            arith,
            v.counts n,
            v.tokens n,
            ap (weigh (held n)) idle,
            ap (weigh (owed g n)) idle,
          )) in
        absurd (
          omega (arith, ran_below r d (omega (arith, up d n dep)) (ground (arith, b.in_range d n))))
  ]

-- In any order of turns: once no job is left, every node of a built acyclic graph has run exactly
-- once, and the finish chain of such a graph with a node has been emplaced exactly once.
pub idle_all_run :
    (g : TaskGraph) (rank : ℕ → ℕ) (s : System)
    → IsBuilt g
    → IsAcyclic g rank
    → Reach g s
    → s.jobs ≡ []
    → ((n : ℕ) → n < g.size → count n s.mem.log ≡ 1) × (0 < g.size → s.mem.finished ≡ 1)
idle_all_run g rank s b up r idle =
    let v = Reach-Inv b r in
    let runs =
      λ (n : ℕ) (h : n < g.size). ran_below b rank up v idle (suc (rank n)) n (omega arith) h in
    let once = λ (n : ℕ) (h : n < g.size).
      let e : count n s.mem.log ≡ 1 = omega (arith, count-log-le b v n, runs n h) in e in
    (
      once,
      λ some_node. ground (
        arith,
        v.finish,
        v.total,
        ap (weigh found_last) idle,
        ap (weigh uncounted) idle,
        total_ones g.size (λ i. count i s.mem.log) once,
        total-count g.size s.mem.log (λ i hi. ground (arith, v.tokens i)),
      ),
    )

-- What a job may still cost: its own turns, and those of the jobs that it starts.
abbrev pub cost : TaskGraph → Job → ℕ
cost g (waiting []) = 1
cost g (waiting (k ∷ rest)) = 6 + 7 * length rest
cost g (entry k) = 4
cost g (ran k) = 3 + 8 * length (succs g k)
cost g (releasing c left ready) = 8 * length left + 7 * length ready + 2

-- The cost of the nodes that have not run.
abbrev pub reserve : TaskGraph → List ℕ → ℕ
reserve g log = total g.size (λ n. if count n log == 0 then 8 * length (succs g n) else 0)

pub measure : TaskGraph → System → ℕ
measure g s = reserve g s.mem.log + weigh (cost g) s.jobs

reserve-cons :
    (g : TaskGraph) (log : List ℕ) (k : ℕ)
    → k < g.size
    → count k log ≡ 0
    → reserve g (k ∷ log) + 8 * length (succs g k) ≡ reserve g log
reserve-cons g log k h new = ground (
  arith,
  total_at g.size k (λ n. if count n log == 0 then 8 * length (succs g n) else 0)
      (λ n. if count n (k ∷ log) == 0 then 8 * length (succs g n) else 0) h (λ i ne. ground arith),
)

advance-cost :
    (g : TaskGraph) (e : Executor) (j : Job)
    → ((k : ℕ) → 0 < held k j → (k < g.size) × (count k e.log + held k j ≡ 1))
    → reserve g (advance g e j).0.log + weigh (cost g) (advance g e j).1
      < reserve g e.log + cost g j
unfolding advance
advance-cost g e (waiting []) ok = omega arith
advance-cost g e (waiting (k ∷ [])) ok = omega arith
advance-cost g e (waiting (k ∷ r ∷ rest)) ok = omega arith
advance-cost g e (entry k) ok =
    let (h, new) = ok k (ground arith) in omega (arith, reserve-cons g e.log k h (ground arith))
advance-cost g e (ran k) ok = omega arith
advance-cost g e (releasing c (x ∷ left) ready) ok = ground (arith, length-append ready (x ∷ []))
advance-cost g e (releasing c [] []) ok = ground arith
advance-cost g e (releasing c [] (k ∷ ready)) ok = ground arith

-- Every turn lowers the measure, so a run has no more turns than the measure at its start.
pub Step-measure :
    (g : TaskGraph) (s t : System) → IsBuilt g → Reach g s → Step g s t → measure g t < measure g s
unfolding measure
Step-measure g s t b r (turn xs ys j e) =
    let v = Reach-Inv b r in
    omega (
      arith,
      weigh_split (cost g) xs ys j e,
      weigh_replaced (cost g) xs (advance g s.mem j).1 ys,
      advance-cost g s.mem j (λ k h. ground (arith, v.tokens k, weigh_split (held k) xs ys j e)),
    )

-- A pool with one thread: the first job takes its turns until none is left, on fuel.
unfoldable pub first_turn : TaskGraph → Executor → List Job → System
first_turn g e [] = record { mem = e; jobs = [] }
first_turn g e (j ∷ js) = let (e', new) = advance g e j in record { mem = e'; jobs = new ++ js }

pub drain : TaskGraph → ℕ → System → Option System
drain g zero s = none
drain g (suc fuel) s =
    let rest = drain g fuel (first_turn g s.mem s.jobs) in
    if length s.jobs == 0 then some s else rest

first_turn-Step :
    (g : TaskGraph) (s : System) (j : Job) (js : List Job)
    → s.jobs ≡ j ∷ js
    → Step g s (first_turn g s.mem s.jobs)
unfolding first_turn
first_turn-Step g s j js e = subst (λ l. Step g s (first_turn g s.mem l)) (sym e) (turn [] js j e)

drain_ends :
    (g : TaskGraph) (fuel : ℕ) (s : System)
    → IsBuilt g
    → Reach g s
    → measure g s < fuel
    → (t : System) × (drain g fuel s ≡ some t) × Reach g t × (t.jobs ≡ [])
unfolding drain
drain_ends g zero s b r enough = absurd (omega arith)
drain_ends g (suc fuel) s b r enough = elim (List-cases s.jobs) [
  | inl e ↦ (s, ground (arith, ap length e), r, e)
  | inr (j, js, e) ↦
      let st = first_turn-Step g s j js e in
      let busy : (length s.jobs == 0) ≡ false = ground (arith, ap length e) in
      rw busy (
        drain_ends g fuel (first_turn g s.mem s.jobs) b (later r st)
          (omega (arith, Step-measure g s _ b r st)))
]

-- Execute on a built acyclic graph comes to its end where it is always the first job that has its
-- turn: with more fuel than the measure of the start the run stops, every node has run once, each
-- after its dependencies, and the finish chain of a graph with a node has been emplaced once.
pub execute_complete :
    (g : TaskGraph) (rank : ℕ → ℕ) (fuel : ℕ)
    → IsBuilt g
    → IsAcyclic g rank
    → measure g (start g) < fuel
    → (t : System) × (drain g fuel (start g) ≡ some t)
      × ((n : ℕ) → n < g.size → count n t.mem.log ≡ 1)
      × InOrder g t.mem.log
      × (0 < g.size → t.mem.finished ≡ 1)
execute_complete g rank fuel b up enough =
    let (t, e, r, idle) = drain_ends g fuel (start g) b begin enough in
    let (runs, finish) = idle_all_run g rank t b up r idle in
    (t, e, runs, (runs-InOrder g t b r).2, finish)

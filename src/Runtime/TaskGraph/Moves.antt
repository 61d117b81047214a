-- ===== src/Runtime/TaskGraph/Moves.antt =====
-- A turn of one job keeps each field of `Inv`. `a` is the weight of the other jobs.
use async_lib.Base.{
  ap, sym, ◌∙◌, ℕ, zero, suc, ◌+◌, ◌^◌, ◌≤◌, ◌<◌, ◌≡◌, refl, List, [], ◌∷◌, ◌++◌, arith, length,
  ltb, leb, ◌==◌, if◌then◌else◌, ◌&&◌, length-append,
}
use async_lib.Base.Words.{u32}
use async_lib.Runtime.TaskGraph.{
  TaskGraph, Executor, Job, waiting, entry, ran, releasing, System, deps, advance, Step, turn,
  Reach, begin, later, start, start_nodes, start_from,
}
use async_lib.Runtime.TaskGraph.Counting.{
  count, waits, waits-cons, count-append, waits-nil, weigh_split, weigh_replaced, total-count,
  total-le,
}
use async_lib.Base.Sums.{weigh}
use async_lib.Runtime.TaskGraph.Inv.{IsBuilt, owed, held, uncounted, found_last, Inv}

module _ (g : TaskGraph) (b : IsBuilt g) (e : Executor) where
  counts_step :
      (j : Job) (n a : ℕ)
      → ((k : ℕ) → held k j + count k e.log ≤ 1)
      → ((k : ℕ) → owed g k j ≤ e.node_count_info k)
      → ((k : ℕ) → e.node_count_info k < 2 ^ 31)
      → e.node_count_info n ≡ waits (deps g n) e.log + (owed g n j + a)
      → (advance g e j).0.node_count_info n
        ≡ waits (deps g n) (advance g e j).0.log + (weigh (owed g n) (advance g e j).1 + a)
  unfolding advance
  counts_step (waiting []) n a once due small h = omega arith
  counts_step (waiting (k ∷ [])) n a once due small h = omega arith
  counts_step (waiting (k ∷ r ∷ rest)) n a once due small h = omega arith
  counts_step (entry k) n a once due small h =
      ground (arith, once k, waits-cons (deps g n) e.log k, b.mirror k n)
  counts_step (ran k) n a once due small h = omega arith
  counts_step (releasing c (x ∷ left) ready) n a once due small h = ground (arith, due x, small x)
  counts_step (releasing c [] ready) n a once due small h = ground arith

  tokens_step :
      (j : Job) (n a : ℕ)
      → ((k : ℕ) → g.size ≤ k → e.node_count_info k ≡ 0)
      → ((k : ℕ) → owed g k j ≤ e.node_count_info k)
      → ((k : ℕ) → e.node_count_info k < 2 ^ 31)
      → held n j + a + count n e.log ≡ (if ltb n g.size && e.node_count_info n == 0 then 1 else 0)
      → weigh (held n) (advance g e j).1 + a + count n (advance g e j).0.log
        ≡ (if ltb n g.size && (advance g e j).0.node_count_info n == 0 then 1 else 0)
  unfolding advance
  tokens_step (waiting []) n a out due small h = omega arith
  tokens_step (waiting (k ∷ [])) n a out due small h = ground arith
  tokens_step (waiting (k ∷ r ∷ rest)) n a out due small h = ground arith
  tokens_step (entry k) n a out due small h = ground arith
  tokens_step (ran k) n a out due small h = ground arith
  tokens_step (releasing c (x ∷ left) ready) n a out due small h =
      ground (arith, due x, small x, out x, out n, due n, count-append n ready (x ∷ []))
  tokens_step (releasing c [] ready) n a out due small h = ground arith

  outside_step :
      (j : Job) (n : ℕ)
      → ((k : ℕ) → owed g k j ≤ e.node_count_info k)
      → e.node_count_info n ≡ 0
      → (advance g e j).0.node_count_info n ≡ 0
  unfolding advance
  outside_step (waiting []) n due h = h
  outside_step (waiting (k ∷ [])) n due h = h
  outside_step (waiting (k ∷ r ∷ rest)) n due h = h
  outside_step (entry k) n due h = h
  outside_step (ran k) n due h = h
  outside_step (releasing c (x ∷ left) ready) n due h = ground (arith, due x)
  outside_step (releasing c [] ready) n due h = ground arith

  small_step :
      (j : Job) (n : ℕ)
      → ((k : ℕ) → owed g k j ≤ e.node_count_info k)
      → ((k : ℕ) → e.node_count_info k < 2 ^ 31)
      → (advance g e j).0.node_count_info n < 2 ^ 31
  unfolding advance
  small_step (waiting []) n due small = small n
  small_step (waiting (k ∷ [])) n due small = small n
  small_step (waiting (k ∷ r ∷ rest)) n due small = small n
  small_step (entry k) n due small = small n
  small_step (ran k) n due small = small n
  small_step (releasing c (x ∷ left) ready) n due small = ground (arith, due x, small x, small n)
  small_step (releasing c [] ready) n due small = ground (arith, small n)

  -- The total, its bound, and the finish: at a job that is about to count, the total is positive.
  total_step :
      (j : Job) (a f : ℕ)
      → uncounted j ≤ e.total_task_count
      → e.total_task_count < 2 ^ 31
      → e.total_task_count + length e.log ≡ g.size + (uncounted j + a)
      → e.finished + (found_last j + f) + (if e.total_task_count == 0 then 0 else 1)
        ≡ (if g.size == 0 then 0 else 1)
      → let (e', js) = advance g e j in
        (e'.total_task_count + length e'.log ≡ g.size + (weigh uncounted js + a))
        × (e'.total_task_count < 2 ^ 31)
        × (e'.finished + (weigh found_last js + f) + (if e'.total_task_count == 0 then 0 else 1)
            ≡ (if g.size == 0 then 0 else 1))
  unfolding advance
  total_step (waiting []) a f pos small h fin = ground arith
  total_step (waiting (k ∷ [])) a f pos small h fin = ground arith
  total_step (waiting (k ∷ r ∷ rest)) a f pos small h fin = ground arith
  total_step (entry k) a f pos small h fin = ground arith
  total_step (ran k) a f pos small h fin = ground arith
  total_step (releasing c (x ∷ left) ready) a f pos small h fin = ground arith
  total_step (releasing c [] ready) a f pos small h fin = ground arith

  refs_step :
      (j : Job) (a : ℕ)
      → e.refs ≡ u32 (1 + a)
      → (advance g e j).0.refs ≡ u32 (length (advance g e j).1 + a)
  unfolding advance
  refs_step (waiting []) a h = omega arith
  refs_step (waiting (k ∷ [])) a h = omega arith
  refs_step (waiting (k ∷ r ∷ rest)) a h = omega arith
  refs_step (entry k) a h = omega arith
  refs_step (ran k) a h = omega arith
  refs_step (releasing c (x ∷ left) ready) a h = omega arith
  refs_step (releasing c [] ready) a h = ground arith

module _ {g : TaskGraph} (b : IsBuilt g) {s : System} (v : Inv g s) where
  -- No node has run twice, and only nodes of the graph have run.
  pub count-log-le : (n : ℕ) → count n s.mem.log ≤ 1
  count-log-le n = ground (arith, v.tokens n)

  pub length-log-le : length s.mem.log ≤ g.size
  length-log-le = omega (
    arith,
    total-count g.size s.mem.log (λ i h. ground (arith, v.tokens i)),
    total-le g.size (λ i. count i s.mem.log) count-log-le,
  )

  module _ (xs ys : List Job) (j : Job) (e : s.jobs ≡ xs ++ (j ∷ ys)) where
    once : (n : ℕ) → held n j + count n s.mem.log ≤ 1
    once n = ground (arith, v.tokens n, weigh_split (held n) xs ys j e)

    due : (n : ℕ) → owed g n j ≤ s.mem.node_count_info n
    due n = omega (arith, v.counts n, weigh_split (owed g n) xs ys j e)

    pub turn-Inv :
        Inv g (record { mem = (advance g s.mem j).0; jobs = xs ++ ((advance g s.mem j).1 ++ ys) })
    turn-Inv = record {
      counts = λ n.
          counts_step g b s.mem j n (weigh (owed g n) xs + weigh (owed g n) ys) once due v.small (
            v.counts n
            ∙ ap (λ k. waits (deps g n) s.mem.log + k) (weigh_split (owed g n) xs ys j e))
          ∙ ap (λ k. waits (deps g n) (advance g s.mem j).0.log + k)
              (sym (weigh_replaced (owed g n) xs (advance g s.mem j).1 ys));
      tokens = λ n. omega (
        arith,
        weigh_replaced (held n) xs (advance g s.mem j).1 ys,
        tokens_step g b s.mem j n (weigh (held n) xs + weigh (held n) ys) v.outside due v.small
            (omega (arith, v.tokens n, weigh_split (held n) xs ys j e)),
      );
      outside = λ n h. outside_step g b s.mem j n due (v.outside n h);
      small = λ n. small_step g b s.mem j n due v.small;
      total = omega (arith, weigh_replaced uncounted xs (advance g s.mem j).1 ys, totals);
      total_small = totals.1;
      finish = omega (arith, weigh_replaced found_last xs (advance g s.mem j).1 ys, totals);
      refs =
          refs_step g b s.mem j (length xs + length ys)
            (omega (arith, v.refs, ap length e, length-append xs (j ∷ ys)))
          ∙ ap u32 (
              omega (
                arith,
                length-append xs ((advance g s.mem j).1 ++ ys),
                length-append (advance g s.mem j).1 ys,
              ));
    }
      where
        totals :
            let (e', js) = advance g s.mem j in
            (e'.total_task_count + length e'.log
              ≡ g.size + (weigh uncounted js + (weigh uncounted xs + weigh uncounted ys)))
            × (e'.total_task_count < 2 ^ 31)
            × (e'.finished
                  + (weigh found_last js + (weigh found_last xs + weigh found_last ys))
                  + (if e'.total_task_count == 0 then 0 else 1)
                ≡ (if g.size == 0 then 0 else 1))
        totals =
            total_step g b s.mem j (weigh uncounted xs + weigh uncounted ys)
              (weigh found_last xs + weigh found_last ys)
              (omega (arith, v.total, length-log-le, weigh_split uncounted xs ys j e)) v.total_small
              (omega (arith, v.total, weigh_split uncounted xs ys j e))
              (omega (arith, v.finish, weigh_split found_last xs ys j e))

-- The nodes that can start are those of the stretch with no dependency, once each.
count-start_from :
    (g : TaskGraph) (left i n : ℕ)
    → count n (start_from g left i)
      ≡ (if leb i n && ltb n (i + left) && length (deps g n) == 0 then 1 else 0)
unfolding start_from
count-start_from g zero i n = ground arith
count-start_from g (suc left) i n = ground (arith, count-start_from g left (i + 1) n)

start-Inv : (g : TaskGraph) → IsBuilt g → Inv g (start g)
unfolding start start_nodes
start-Inv g b = record {
  counts = λ n. omega (arith, b.counted n, waits-nil (deps g n));
  tokens = λ n. ground (arith, b.counted n, count-start_from g g.size 0 n);
  outside = λ n h. omega (arith, b.counted n, ap length (b.no_deps n h));
  small = λ n. omega (arith, b.counted n, b.few_deps n);
  total = omega arith;
  total_small = b.few;
  finish = ground arith;
  refs = refl;
}

pub Step-Inv : {g : TaskGraph} {s t : System} → IsBuilt g → Step g s t → Inv g s → Inv g t
Step-Inv b (turn xs ys j e) v = turn-Inv b v xs ys j e

-- Whatever order the jobs take their turns in, the counters and the jobs agree.
pub Reach-Inv : {g : TaskGraph} {s : System} → IsBuilt g → Reach g s → Inv g s
Reach-Inv {g} b begin = start-Inv g b
Reach-Inv b (later r st) = Step-Inv b st (Reach-Inv b r)

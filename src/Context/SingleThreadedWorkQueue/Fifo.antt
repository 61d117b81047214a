-- ===== src/Context/SingleThreadedWorkQueue/Fifo.antt =====
-- Quiesce and Await of single_threaded_work_queue.cpp against a queue that runs one task at a time.
use mathlib.Core.List.{append_assoc, append-nil}
use async_lib.Base.{
  Bool-cases, ℕ, zero, suc, ◌+◌, ◌≤◌, ◌<◌, ◌≡◌, ◌↔◌, refl, sym, ap, ◌∙◌, subst, arith, inl, inr,
  Option, none, some, List, [], ◌∷◌, ◌++◌, length, get_elem?, drop, dec_lt, ==_refl, ◌==◌,
  if◌then◌else◌,
}
use async_lib.Context.SingleThreadedWorkQueue.{
  Outcome, done, waits_forever, run_items, quiesce, leave, wait, await_from, await,
}

-- A list from a position on.
pub drop_at :
    {T : Type 0} (l : List T) (i : ℕ)
    → i < length l
    → (t : T) × (get_elem? l i ≡ some t) × (drop i l ≡ t ∷ drop (suc i) l)
drop_at [] i h = absurd (omega arith)
drop_at (x ∷ l) zero h = (x, refl, ap (λ r. x ∷ r) (sym (drop_zero l)))
  where
    drop_zero : {T : Type 0} (l : List T) → drop 0 l ≡ l
    drop_zero l = refl
drop_at (x ∷ l) (suc i) h = drop_at l i (omega arith)

pub drop_end :
    {T : Type 0} (l : List T) → (drop (length l) l ≡ []) × (get_elem? l (length l) ≡ none)
drop_end [] = (refl, refl)
drop_end (x ∷ l) = drop_end l

module _ {S T : Type 0} (run : T → S → S × List T) where
  -- One queue, whose first task is run and whose additions go to the back.
  pub quiesce_fifo : ℕ → S → List T → Option S
  quiesce_fifo fuel s [] = some s
  quiesce_fifo zero s (t ∷ ts) = none
  quiesce_fifo (suc fuel) s (t ∷ ts) =
      let (s', added) = run t s in quiesce_fifo fuel s' (ts ++ added)

  regroup : (ts items added : List T) → (ts ++ items) ++ added ≡ ts ++ (items ++ added)
  regroup ts items added = append_assoc ts items added

  -- A vector of tasks, run one by one.
  runs_all :
      (ts items : List T) (f : ℕ) (s : S)
      → quiesce_fifo (length ts + f) s (ts ++ items)
        ≡ quiesce_fifo f (run_items run ts s items).0 (run_items run ts s items).1
  unfolding quiesce_fifo run_items
  runs_all [] items f s = let e : 0 + f ≡ f = omega arith in rw e
  runs_all (t ∷ ts) items f s =
      let e : suc (length ts) + f ≡ suc (length ts + f) = omega arith in
      rw e (
        ap (quiesce_fifo (length ts + f) (run t s).0) (regroup ts items (run t s).1)
        ∙ runs_all ts (items ++ (run t s).1) f (run t s).0)

  -- Where the one-by-one run ends, it has run the whole vector.
  ran_all :
      (ts items : List T) (f : ℕ) (s r : S)
      → quiesce_fifo f s (ts ++ items) ≡ some r
      → (f' : ℕ) × (f ≡ length ts + f')
        × (quiesce_fifo f' (run_items run ts s items).0 (run_items run ts s items).1 ≡ some r)
  unfolding quiesce_fifo run_items
  ran_all [] items f s r h = (f, omega arith, h)
  ran_all (t ∷ ts) items zero s r h = cc
  ran_all (t ∷ ts) items (suc f) s r h =
      let (f', e, k) =
        ran_all ts (items ++ (run t s).1) f (run t s).0 r
          (subst (λ l. quiesce_fifo f (run t s).0 l ≡ some r) (regroup ts items (run t s).1) h) in
      (f', omega (arith, e), k)

  more_rounds :
      (f k : ℕ) (s r : S) (items : List T)
      → f ≤ k
      → quiesce run f s items ≡ some r
      → quiesce run k s items ≡ some r
  unfolding quiesce
  more_rounds f k s r [] le h = h
  more_rounds zero k s r (t ∷ ts) le h = cc
  more_rounds (suc f) zero s r (t ∷ ts) le h = absurd (omega arith)
  more_rounds (suc f) (suc k) s r (t ∷ ts) le h =
      more_rounds f k (run_items run (t ∷ ts) s []).0 r (run_items run (t ∷ ts) s []).1
        (omega arith) h

  to_fifo :
      (f : ℕ) (s r : S) (items : List T)
      → quiesce run f s items ≡ some r
      → (f' : ℕ) × (quiesce_fifo f' s items ≡ some r)
  unfolding quiesce quiesce_fifo
  to_fifo f s r [] h = (0, h)
  to_fifo zero s r (t ∷ ts) h = cc
  to_fifo (suc f) s r (t ∷ ts) h =
      let (s', items) = run_items run (t ∷ ts) s [] in
      let (f', k) = to_fifo f s' r items h in
      (
        length (t ∷ ts) + f',
        subst (λ l. quiesce_fifo (length (t ∷ ts) + f') s l ≡ some r) (append-nil (t ∷ ts))
            (runs_all (t ∷ ts) [] f' s ∙ k),
      )

  from_fifo :
      (k f : ℕ) (s r : S) (items : List T)
      → f ≤ k
      → quiesce_fifo f s items ≡ some r
      → quiesce run k s items ≡ some r
  unfolding quiesce quiesce_fifo
  from_fifo k f s r [] le h = h
  from_fifo zero zero s r (t ∷ ts) le h = cc
  from_fifo zero (suc f) s r (t ∷ ts) le h = absurd (omega arith)
  from_fifo (suc k) f s r (t ∷ ts) le h =
      let (f', e, h') =
        ran_all (t ∷ ts) [] f s r
          (subst (λ l. quiesce_fifo f s l ≡ some r) (sym (append-nil (t ∷ ts))) h) in
      from_fifo k f' (run_items run (t ∷ ts) s []).0 r (run_items run (t ∷ ts) s []).1
        (omega (arith, e)) h'

  -- Quiesce, which takes the tasks a vector at a time, ends exactly where a queue that runs one task
  -- at a time does, and in the same state, so that it runs the same tasks in the same order.
  pub quiesce_lem :
      (s r : S) (items : List T)
      → ((f : ℕ) × (quiesce run f s items ≡ some r)) ↔ ((f : ℕ) × (quiesce_fifo f s items ≡ some r))
  quiesce_lem s r items =
      (λ (f, h). to_fifo f s r items h, λ (f, h). (f, from_fifo f f s r items (omega arith) h))

  module _ (remaining : S → ℕ) where
    -- The same queue, until no value is left that is not available. Without other threads a wait
    -- never ends.
    pub await_fifo : ℕ → S → List T → Option (Outcome S T)
    await_fifo zero s queue = if remaining s == 0 then some (done s queue) else none
    await_fifo (suc fuel) s queue = if remaining s == 0 then some (done s queue) else elim queue [
      | [] ↦ some (waits_forever s)
      | t ∷ ts ↦ let (s', added) = run t s in await_fifo fuel s' (ts ++ added)
    ]

    -- What is left of the local vector.
    leave_rest :
        (local : List T) (next : ℕ) (s : S) (items : List T)
        → next ≤ length local
        → leave run remaining local next s items ≡ done s (drop next local ++ items)
    unfolding leave
    leave_rest local next s items le = elim (dec_lt next (length local)) [
      | yes lt ↦ ground arith
      | no last ↦
          let e : next ≡ length local = omega arith in
          rw e (rw ((drop_end local).0, ==_refl (length local)) refl)
    ]

    await_from-fifo :
        (fuel : ℕ) (local : List T) (next : ℕ) (s : S) (items : List T)
        → next ≤ length local
        → await_from run remaining fuel [] local next s items
          ≡ await_fifo fuel s (drop next local ++ items)
    unfolding await_from await_fifo wait
    await_from-fifo zero local next s items le = rw (leave_rest local next s items le)
    await_from-fifo (suc fuel) local next s [] le = elim (Bool-cases (remaining s == 0)) [
      | inl now ↦ rw now (ap some (leave_rest local next s [] le))
      | inr more ↦ rw more (elim (dec_lt next (length local)) [
        | yes lt ↦
            let (t, e, d) = drop_at local next lt in
            rw (e, d)
              (let n1 : next + 1 ≡ suc next = omega arith in
                rw n1 (
                  await_from-fifo fuel local (suc next) (run t s).0 ([] ++ (run t s).1)
                    (omega arith)
                  ∙ ap (await_fifo fuel (run t s).0)
                      (sym (regroup (drop (suc next) local) [] (run t s).1))))
        | no last ↦
            let e : next ≡ length local = omega arith in
            rw e (rw ((drop_end local).0, (drop_end local).1) (rw more refl))
      ])
    ]
    await_from-fifo (suc fuel) local next s (u ∷ us) le = elim (Bool-cases (remaining s == 0)) [
      | inl now ↦ rw now (ap some (leave_rest local next s (u ∷ us) le))
      | inr more ↦ rw more (elim (dec_lt next (length local)) [
        | yes lt ↦
            let (t, e, d) = drop_at local next lt in
            rw (e, d)
              (let n1 : next + 1 ≡ suc next = omega arith in
                rw n1 (
                  await_from-fifo fuel local (suc next) (run t s).0 ((u ∷ us) ++ (run t s).1)
                    (omega arith)
                  ∙ ap (await_fifo fuel (run t s).0)
                      (sym (regroup (drop (suc next) local) (u ∷ us) (run t s).1))))
        | no last ↦
            let e : next ≡ length local = omega arith in
            rw e (
              rw ((drop_end local).0, (drop_end local).1)
                (rw more (await_from-fifo fuel (u ∷ us) 1 (run u s).0 (run u s).1 (omega arith))))
      ])
    ]

    -- Without other threads, Await, which takes the tasks a vector at a time and puts back what is
    -- left of the last, is the queue that runs one task at a time until the values are available:
    -- it ends in the same state with the same tasks left, or waits for ever in the same state.
    pub await_lem :
        (fuel : ℕ) (s : S) (items : List T)
        → await run remaining fuel [] s items ≡ await_fifo fuel s items
    unfolding await
    await_lem fuel s items = await_from-fifo fuel [] 0 s items (omega arith)

-- ===== src/Context/SingleThreadedWorkQueue.antt =====
-- async/context/single_threaded_work_queue.cpp: a queue whose tasks run in the thread that waits.
-- Running a task changes the state `S` of the program and adds tasks; how many of the awaited values
-- a state leaves unavailable, which the callbacks of Await count, is a function of it.
pub mod Fifo
pub mod Undefined
mod Tests
use async_lib.Base.{
  ℕ, zero, suc, ◌+◌, Bool, true, false, Option, none, some, List, [], ◌∷◌, ◌++◌, length, get_elem?,
  drop, ltb, ◌==◌, if◌then◌else◌,
}

module _ {T : Type 0} where
  -- `mWorkItems` after a call, the oldest first.
  unfoldable pub add_task : T → List T → List T
  add_task work items = items ++ work ∷ []

  unfoldable pub add_blocking_task : T → Bool → List T → Option T × List T
  add_blocking_task work allow_queuing items =
      if allow_queuing then (none, items ++ work ∷ []) else (some work, items)

-- How Await ends: with the tasks that are left, in a wait that nothing ends, or at an iterator past
-- the end of a vector.
pub data Outcome (S T : Type 0) : Type 0 where
  done : S → List T → Outcome S T
  waits_forever : S → Outcome S T
  undefined : Outcome S T

module _ {S T : Type 0} (run : T → S → S × List T) where
  -- The tasks of one vector, in order; what they add goes to `mWorkItems`.
  unfoldable pub run_items : List T → S → List T → S × List T
  run_items [] s items = (s, items)
  run_items (t ∷ ts) s items = let (s', added) = run t s in run_items ts s' (items ++ added)

  -- Quiesce, with a bound on the rounds; `none` is a bound that was too small.
  unfoldable pub quiesce : ℕ → S → List T → Option S
  quiesce fuel s [] = some s
  quiesce zero s (t ∷ ts) = none
  quiesce (suc fuel) s (t ∷ ts) = let (s', items) = run_items (t ∷ ts) s [] in quiesce fuel s' items

  module _ (remaining : S → ℕ) where
    -- What is put back: the items of the local vector from the next one on.
    unfoldable pub leave : List T → ℕ → S → List T → Outcome S T
    leave local next s items =
        if next == length local
        then done s items
        else if ltb next (length local)
        then done s (drop next local ++ items)
        else undefined

    -- The wait for a task or for the last value. Each element of `others` is what the other threads
    -- do while it lasts.
    unfoldable pub wait :
        List (S → S × List T) → S → List T → Option (S × List T × List (S → S × List T))
    wait others s (t ∷ ts) = some (s, t ∷ ts, others)
    wait [] s [] = if remaining s == 0 then some (s, [], []) else none
    wait (other ∷ others) s [] =
        let (s', added) = other s in
        let rest = wait others s' added in
        if remaining s == 0 then some (s, [], other ∷ others) else rest

    -- The loop of Await, with a bound on the tasks that it runs. The item at the next index is run,
    -- of the local vector or of the one that a wait has brought.
    unfoldable pub await_from :
        ℕ → List (S → S × List T) → List T → ℕ → S → List T → Option (Outcome S T)
    await_from zero others local next s items =
        if remaining s == 0 then some (leave local next s items) else none
    await_from (suc fuel) others local next s items =
        if remaining s == 0 then some (leave local next s items) else elim (get_elem? local next) [
          | some t ↦
              let (s', added) = run t s in
              await_from fuel others local (next + 1) s' (items ++ added)
          | none ↦ elim (wait others s items) [
            | none ↦ some (waits_forever s)
            | some (s1, items1, others1) ↦
                if remaining s1 == 0 then some (leave [] next s1 items1) else elim items1 [
                  | [] ↦ some (waits_forever s1)
                  | t ∷ ts ↦
                      let (s', added) = run t s1 in await_from fuel others1 (t ∷ ts) 1 s' added
                ]
          ]
        ]

    unfoldable pub await : ℕ → List (S → S × List T) → S → List T → Option (Outcome S T)
    await fuel others s items = await_from fuel others [] 0 s items

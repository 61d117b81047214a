-- ===== src/Context/SingleThreadedWorkQueue/Tests.antt =====
-- Concrete runs. A task is a number that is written down; an even one adds its half, and a value is
-- available once two tasks have run.
use async_lib.Base.{
  ℕ, ◌-◌, ◌/◌, ◌%◌, ◌≡◌, refl, arith, some, List, [], ◌∷◌, ◌==◌, if◌then◌else◌, ◌↔◌, length,
}
use async_lib.Context.SingleThreadedWorkQueue.{
  done, waits_forever, undefined, quiesce, run_items, await, await_from, wait, leave,
}
use async_lib.Context.SingleThreadedWorkQueue.Fifo.{
  quiesce_lem, quiesce_fifo, await_lem, await_fifo,
}
use async_lib.Context.SingleThreadedWorkQueue.Undefined.{await_undefined}

abbrev run : ℕ → List ℕ → List ℕ × List ℕ
run t log = (t ∷ log, if t % 2 == 0 then t / 2 ∷ [] else [])

abbrev remaining : List ℕ → ℕ
remaining log = 2 - length log

quiesce_order : quiesce run 9 [] (4 ∷ 1 ∷ []) ≡ some (1 ∷ 2 ∷ 1 ∷ 4 ∷ [])
unfolding quiesce run_items
quiesce_order = refl

await_order : await run remaining 9 [] [] (4 ∷ 3 ∷ 5 ∷ []) ≡ some (done (3 ∷ 4 ∷ []) (5 ∷ 2 ∷ []))
unfolding await await_from wait leave
await_order = refl

quiesce_lem_example :
    ((f : ℕ) × (quiesce run f [] (4 ∷ 1 ∷ []) ≡ some (1 ∷ 2 ∷ 1 ∷ 4 ∷ [])))
    ↔ ((f : ℕ) × (quiesce_fifo run f [] (4 ∷ 1 ∷ []) ≡ some (1 ∷ 2 ∷ 1 ∷ 4 ∷ [])))
quiesce_lem_example = quiesce_lem run [] (1 ∷ 2 ∷ 1 ∷ 4 ∷ []) (4 ∷ 1 ∷ [])

await_lem_example :
    await run remaining 9 [] [] (4 ∷ 3 ∷ 5 ∷ []) ≡ await_fifo run remaining 9 [] (4 ∷ 3 ∷ 5 ∷ [])
await_lem_example = await_lem run remaining 9 [] (4 ∷ 3 ∷ 5 ∷ [])

-- The values are available once four tasks have run; task 4 leads to three.
abbrev remaining_of_four : List ℕ → ℕ
remaining_of_four log = 4 - length log

-- While Await waits, another thread writes down a task of its own.
abbrev another : List ℕ → List ℕ × List ℕ
another log = (9 ∷ log, [])

waits_alone : await run remaining_of_four 9 [] [] (4 ∷ []) ≡ some (waits_forever (1 ∷ 2 ∷ 4 ∷ []))
unfolding await await_from wait leave
waits_alone = refl

wait_ended :
    wait run remaining_of_four (another ∷ []) (1 ∷ 2 ∷ 4 ∷ []) []
    ≡ some (9 ∷ 1 ∷ 2 ∷ 4 ∷ [], [], [])
unfolding wait
wait_ended = refl

await_undefined_example : await run remaining_of_four 9 (another ∷ []) [] (4 ∷ []) ≡ some undefined
await_undefined_example =
    await_undefined run remaining_of_four 9 (another ∷ []) [] (1 ∷ 2 ∷ 4 ∷ []) (9 ∷ 1 ∷ 2 ∷ 4 ∷ [])
      (4 ∷ []) [] [] (omega arith) waits_alone wait_ended refl

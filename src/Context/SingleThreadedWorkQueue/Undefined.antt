-- ===== src/Context/SingleThreadedWorkQueue/Undefined.antt =====
-- How Await of single_threaded_work_queue.cpp reads beyond the end of a vector, when other threads
-- end its wait.
use async_lib.Base.{
  Bool, true, Bool-cases, ℕ, zero, suc, ◌+◌, ◌≤◌, ◌<◌, ◌≡◌, ◌≢◌, refl, sym, ap, subst, arith, inl,
  inr, false, Option, none, some, List, [], ◌∷◌, ◌++◌, length, dec_lt, ◌==◌,
}
use async_lib.Context.SingleThreadedWorkQueue.{
  Outcome, waits_forever, undefined, leave, wait, await_from, await,
}
use async_lib.Context.SingleThreadedWorkQueue.Fifo.{drop_at, drop_end}

module _ {S T : Type 0} (run : T → S → S × List T) (remaining : S → ℕ) where
  abbrev is_waiting : Option (Outcome S T) → Bool
  is_waiting (some (waits_forever s)) = true
  is_waiting _ = false

  leave_ends :
      (local : List T) (next : ℕ) (s r : S) (items : List T)
      → some (leave run remaining local next s items) ≢ some (waits_forever r)
  unfolding leave
  leave_ends local next s r items e = absurd (ground (arith, ap is_waiting e))

  wait-none : (s : S) → (remaining s == 0) ≡ false → wait run remaining [] s [] ≡ none
  unfolding wait
  wait-none s more = rw more refl

  wait-some :
      (others : List (S → S × List T)) (s : S) (t : T) (ts : List T)
      → wait run remaining others s (t ∷ ts) ≡ some (s, t ∷ ts, others)
  unfolding wait
  wait-some others s t ts = refl

  waits_in : Option (Outcome S T) → S → S
  waits_in (some (waits_forever s)) other = s
  waits_in _ other = other

  past_end :
      (next : ℕ) (s : S) (items : List T)
      → 0 < next
      → leave run remaining [] next s items ≡ undefined
  unfolding leave
  past_end next s items pos = ground (arith, pos)

  module _ (others : List (S → S × List T)) (r r' : S) (left : List T)
      (others' : List (S → S × List T))
      (ends : wait run remaining others r [] ≡ some (r', left, others'))
      (now : remaining r' ≡ 0) where
    await_from_undefined :
        (fuel : ℕ) (local : List T) (next : ℕ) (s : S) (items : List T)
        → next ≤ length local
        → 0 < length local + length items
        → await_from run remaining fuel [] local next s items ≡ some (waits_forever r)
        → await_from run remaining fuel others local next s items ≡ some undefined
    unfolding await_from waits_in
    await_from_undefined zero local next s items le some_items =
        elim (Bool-cases (remaining s == 0)) [
          | inl none_left ↦ rw none_left (λ h. absurd (leave_ends local next s r items h))
          | inr more ↦ rw more (λ h. absurd (ground (arith, ap is_waiting h)))
        ]
    await_from_undefined (suc fuel) local next s [] le some_items =
        elim (Bool-cases (remaining s == 0)) [
          | inl none_left ↦ rw none_left (λ h. absurd (leave_ends local next s r [] h))
          | inr more ↦ rw more (elim (dec_lt next (length local)) [
            | yes lt ↦
                let (t, e, _) = drop_at local next lt in
                rw e (
                  await_from_undefined fuel local (next + 1) (run t s).0 ([] ++ (run t s).1)
                    (omega arith) (omega (arith, lt)))
            | no last ↦
                let e : next ≡ length local = omega arith in
                rw e (
                  rw (drop_end local).1 (
                    rw (wait-none s more) (λ h.
                      let same : r ≡ s = sym (ap (λ o. waits_in o s) h) in
                      rw
                        (subst (λ r. wait run remaining others r [] ≡ some (r', left, others')) same
                          ends)
                        (rw now (ap some (past_end next r' left (omega (arith, some_items, e))))))))
          ])
        ]
    await_from_undefined (suc fuel) local next s (u ∷ us) le some_items =
        elim (Bool-cases (remaining s == 0)) [
          | inl none_left ↦ rw none_left (λ h. absurd (leave_ends local next s r (u ∷ us) h))
          | inr more ↦ rw more (elim (dec_lt next (length local)) [
            | yes lt ↦
                let (t, e, _) = drop_at local next lt in
                rw e (
                  await_from_undefined fuel local (next + 1) (run t s).0 ((u ∷ us) ++ (run t s).1)
                    (omega arith) (omega (arith, lt)))
            | no last ↦
                let e : next ≡ length local = omega arith in
                rw e (
                  rw (drop_end local).1 (
                    rw (wait-some [] s u us, wait-some others s u us)
                      (rw more (
                        await_from_undefined fuel (u ∷ us) 1 (run u s).0 (run u s).1 (omega arith)
                          (omega arith)))))
          ])
        ]

  -- Where Await, called with tasks in the queue, would wait for ever without other threads, and
  -- other threads then make the last value available in that wait, Await copies from beyond the end
  -- of the vector that it has cleared.
  pub await_undefined :
      (fuel : ℕ) (others : List (S → S × List T)) (s r r' : S) (items left : List T)
      (others' : List (S → S × List T))
      → 0 < length items
      → await run remaining fuel [] s items ≡ some (waits_forever r)
      → wait run remaining others r [] ≡ some (r', left, others')
      → remaining r' ≡ 0
      → await run remaining fuel others s items ≡ some undefined
  unfolding await
  await_undefined fuel others s r r' items left others' ne h ends now =
      await_from_undefined others r r' left others' ends now fuel [] 0 s items (omega arith)
        (omega (arith, ne)) h

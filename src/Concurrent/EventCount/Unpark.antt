-- ===== src/Concurrent/EventCount/Unpark.antt =====
-- Unpark of `EventCount`: its loop over the linked waiters.
use async_lib.Base.{mem, ℕ, zero, suc, ◌<◌, ◌≡◌, true, false, List, [], ◌∷◌, arith, length}
use async_lib.Concurrent.EventCount.{EventCount, signaled, unpark, set_signaled}
use async_lib.Concurrent.EventCount.Represent.{Linked, Linked-cong, at_top}

-- What Unpark does to the waiters: those listed are signaled.
pub record Unparked (l : List ℕ) (c c' : EventCount) : Type 0 where
  pub state_same : c'.state ≡ c.state
  pub wakes : (j : ℕ) → mem j l ≡ true → (c'.waiter j).state ≡ signaled
  pub others : (j : ℕ) → mem j l ≡ false → c'.waiter j ≡ c.waiter j
  pub epoch_same : (j : ℕ) → (c'.waiter j).epoch ≡ (c.waiter j).epoch

pub unpark-Unparked :
    (n i : ℕ) (l : List ℕ) (c : EventCount)
    → length l < n
    → Linked c.waiter i (i ∷ l)
    → Unparked (i ∷ l) c (unpark n i c)
unfolding unpark
unpark-Unparked zero i l c h k = absurd (omega arith)
unpark-Unparked (suc n) i [] c h k = record {
  state_same = ground arith;
  wakes = λ j m. ground arith;
  others = λ j m. ground arith;
  epoch_same = λ j. ground arith;
}
unpark-Unparked (suc n) i (i' ∷ l) c h (e, b, s, nx, z, m, r) =
    let c1 = set_signaled i c in
    let same =
      Linked-cong c.waiter c1.waiter i' (i' ∷ l) (λ j hj. ground arith)
        (at_top c.waiter _ i' l r) in
    let ih = unpark-Unparked n i' l c1 (omega arith) same in
    record {
      state_same = ground (arith, ih.state_same);
      wakes = λ j m. ground (arith, ih.wakes j, ih.others j);
      others = λ j m. ground (arith, ih.others j);
      epoch_same = λ j. ground (arith, ih.epoch_same j);
    }

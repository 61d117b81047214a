-- ===== src/Concurrent/Workers/Busy.antt =====
-- The turns of a worker of work_queue_base.h outside of its wait: in the loop, in a task, in the
-- spin loop.
use async_lib.Base.{ℕ, ◌+◌, ◌≤◌, ◌<◌, ◌≡◌, refl, ap, ◌∙◌, subst, arith, Bool, true, false, ◌^◌}
use async_lib.Base.Sums.{total}
use async_lib.Base.Family.{update}
use async_lib.Runtime.TaskGraph.Counting.{count, total-le}
use async_lib.Concurrent.EventCount.Spec.{Waits}
use async_lib.Concurrent.WorkQueueBase.{WorkQueueBase, num_active_threads}
use async_lib.Concurrent.WorkQueueBase.Spinning.{
  Spins, Call, call, spec, IsAllowed, call-Meets, call_rest,
}
use async_lib.Concurrent.Workers.{Stage, spinning, Workers}
use async_lib.Concurrent.Workers.Inv.{
  prewaiting, counted, spins, is_parked, covers, is_closing, Inv,
}
use async_lib.Concurrent.Workers.Turns.{
  spins-le, changed, parked_same, spins_to, spins_same, changed-Counts, self-Covered,
  not_all_blocked, changed-Inv,
}

-- The pools differ at most in the queues and in the counts of blocked and of spinning threads.
pub record Same {Q : Type 0} (p p' : WorkQueueBase Q) : Type 0 where
  pub threads : p'.num_threads ≡ p.num_threads
  pub cancelled : p'.cancelled ≡ p.cancelled
  pub done : p'.done ≡ p.done

pub Same-refl : {Q : Type 0} (p : WorkQueueBase Q) → Same p p
Same-refl p = record { threads = refl; cancelled = refl; done = refl }

-- A thread that is awake, outside of WaitForWork or before it is counted as blocked, and looks at
-- every queue before it parks.
pub record IsBusy (n : ℕ) (b : Stage) : Type 0 where
  pub uncounted : counted b ≡ 0
  pub unparked : is_parked b ≡ 0
  pub staying : is_closing b ≡ false
  pub looks : (q : ℕ) → q < n → covers b q ≡ true

module _ {Q : Type 0} {n : ℕ} {is_empty : Q → Bool} (s : Workers Q) (inv : Inv n s is_empty) (i : ℕ)
    (lt : i < n) (a b : Stage) (e : s.stage i ≡ a) (unparked : is_parked a ≡ 0)
    (busy : IsBusy n b) where
  -- The thread gets busy, and the pool and the waits change with it.
  pub gets_busy :
      (p : WorkQueueBase Q) (v : Waits) (k : ℕ)
      → Same s.pool p
      → v.pre + prewaiting a ≡ s.waits.pre + prewaiting b
      → v.signals ≤ v.pre
      → v.parked ≡ s.waits.parked
      → p.blocked + counted a ≡ s.pool.blocked
      → Spins p (total n (λ j. spins (update s.stage i b j))) k
      → Inv n (changed s inv i lt a b e p v) is_empty
  gets_busy p v k same pre sig park block spun =
      let c =
        changed-Counts s inv i lt a b e p v k pre sig (omega (arith, block, busy.uncounted)) spun
          (λ j. ap (count j) park ∙ parked_same s inv i lt a b e unparked busy.unparked j) in
      changed-Inv s inv i lt a b e p v same.threads same.cancelled same.done c
        (λ q l _. self-Covered s inv i lt a b e p v q (busy.looks q l)) (λ h. cc (h, busy.staying))
        (λ _ full. absurd (not_all_blocked s inv i lt a b e p v busy.uncounted c full))

  -- The same where only a queue changes.
  pub goes_busy :
      (queue : ℕ → Q)
      → prewaiting a ≡ prewaiting b
      → counted a ≡ 0
      → spins a ≡ spins b
      → Inv n (changed s inv i lt a b e (record s.pool { queue = queue }) s.waits) is_empty
  goes_busy queue pre block spun =
      let h = spins_same s inv i lt a b e spun in
      gets_busy (record s.pool { queue = queue }) s.waits inv.numbers.skipped
        (record { threads = refl; cancelled = refl; done = refl }) (omega (arith, pre))
        inv.numbers.signals_le refl (omega (arith, block))
        (record {
          fits = h.fits;
          spinning_field = h.spinning_field;
          skipped_field = h.skipped_field;
          covered = h.covered;
        })

  -- The same where the count of spinning threads changes.
  pub spins_busy :
      (c : Call)
      → prewaiting a ≡ prewaiting b
      → counted a ≡ 0
      → IsAllowed c (total n (λ j. spins (s.stage j)))
      → (spec c
            (num_active_threads s.pool)
            (total n (λ j. spins (s.stage j)))
            inv.numbers.skipped).1
          + spins a
        ≡ total n (λ j. spins (s.stage j)) + spins b
      → Inv n (changed s inv i lt a b e (call c s.pool).1 s.waits) is_empty
  spins_busy c pre block ok count' =
      let m =
        call-Meets c s.pool (total n (λ j. spins (s.stage j))) inv.numbers.skipped
          inv.numbers.spinning_count ok in
      let (threads, cancelled, done, blocked, _) = call_rest c s.pool in
      gets_busy (call c s.pool).1 s.waits _
        (record { threads = threads; cancelled = cancelled; done = done }) (omega (arith, pre))
        inv.numbers.signals_le refl (omega (arith, block, blocked))
        (subst
          (λ t.
            Spins (call c s.pool).1 t
              (spec c (num_active_threads s.pool) (total n (λ j. spins (s.stage j)))
                inv.numbers.skipped).2)
          (omega (arith, count', spins_to s inv i lt a b e)) m.left)

-- A thread that does not spin leaves room for one that does.
pub room_to_spin :
    {Q : Type 0} {n : ℕ} {is_empty : Q → Bool} (s : Workers Q) (inv : Inv n s is_empty) (i : ℕ)
    → i < n
    → (a : Stage) → s.stage i ≡ a
    → spins a ≡ 0
    → total n (λ j. spins (s.stage j)) + 1 < 2 ^ 32
room_to_spin {n} s inv i lt a e free = omega (
  arith,
  spins_to s inv i lt a spinning e,
  total-le n (λ j. spins (update s.stage i spinning j))
      (λ j. spins-le (update s.stage i spinning j)),
  free,
  inv.few,
)

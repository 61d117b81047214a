-- ===== src/Concurrent/Workers/Kept.antt =====
-- Runs of the worker threads of work_queue_base.h, in any order of steps.
use async_lib.Base.{
  Bool-cases, ℕ, zero, suc, ◌<◌, ◌≡◌, inl, inr, refl, sym, subst, arith, false, ◌∷◌, ◌^◌,
}
use async_lib.Base.Sums.{total}
use async_lib.Base.Family.{update}
use async_lib.Concurrent.WorkQueueBase.{init}
use async_lib.Concurrent.WorkQueueBase.Spinning.{Spins}
use async_lib.Concurrent.Workers.{
  Queues, looping, searching, running, notifying, alerting, spinning, stopping, retrying, preparing,
  scanning, found, Workers, start, notify, Turn, Step, Steps,
}
use async_lib.Concurrent.Workers.Inv.{Inv}
use async_lib.Concurrent.Workers.Notified.{notify-Inv, stage_kept}
use async_lib.Concurrent.Workers.Loop.{
  start_spin-Inv, give_up_spin-Inv, stop_spin-Inv, decide_notify-Inv, active-Inv, rob-Inv,
  active-IsBusy,
}
use async_lib.Concurrent.Workers.Busy.{goes_busy}
use async_lib.Concurrent.Workers.Waiting.{
  prewait-Inv, cancel_wait-Inv, unblock-Inv, count-Inv, finish-Inv, still_empty-Inv, stay-Inv,
}
use async_lib.Concurrent.Workers.Parking.{
  sees_empty-Inv, decide_wait-Inv, commit_wait-Inv, exit-Inv,
}
use async_lib.Concurrent.Workers.Outside.{
  add-Inv, quiesce_steal-Inv, close-Inv, notify_all-Inv, alert-Inv, decide-Inv,
}

pub total_none : (n : ℕ) → total n (λ _. 0) ≡ 0
total_none zero = refl
total_none (suc n) = omega (arith, total_none n)

module _ {Q T : Type 0} (queues : Queues Q T) where
  start-Inv : (n : ℕ) (queue : ℕ → Q) → 0 < n → n < 2 ^ 32 → Inv n (start n queue) queues.is_empty
  unfolding init
  start-Inv n queue positive few = record {
    few = few;
    threads = refl;
    active = refl;
    numbers = record {
      pre_count = sym (total_none n);
      signals_le = omega arith;
      blocked_count = sym (total_none n);
      skipped = 0;
      spinning_count =
          subst (λ m. Spins (init n queue) m 0) (sym (total_none n))
            (record {
              fits = omega arith;
              spinning_field = refl;
              skipped_field = refl;
              covered = omega arith;
            });
      parked_count = λ j. refl;
      parked_lt = λ j h. absurd (omega arith);
    };
    covered = λ q l _. inr (inr (0, positive, refl));
    closing = λ j h. cc;
    quiet = λ d. cc;
    told = λ t. cc;
    noticed = λ t _. cc;
  }

  module _ {n : ℕ} (s : Workers Q) (inv : Inv n s queues.is_empty) (i : ℕ) (lt : i < n) where
    Turn-Inv : {s' : Workers Q} → Turn queues i s s' → Inv n s' queues.is_empty
    Turn-Inv (Turn.sees_cancelled e c) = cc (c, inv.active)
    Turn-Inv (Turn.goes_on e c) =
        active-Inv s inv i lt looping searching s.pool.queue e refl refl refl refl
    Turn-Inv (Turn.takes {q} e h) =
        active-Inv s inv i lt searching running (update s.pool.queue i q) e refl refl refl refl
    Turn-Inv (Turn.steals {q} v e l h) =
        active-Inv s inv i lt searching running (update s.pool.queue v q) e refl refl refl refl
    Turn-Inv (Turn.finds_nothing e) = start_spin-Inv s inv i lt e
    Turn-Inv (Turn.spin_steals {q} v e l h) =
        active-Inv s inv i lt spinning stopping (update s.pool.queue v q) e refl refl refl refl
    Turn-Inv (Turn.stops_spinning e) = stop_spin-Inv s inv i lt e
    Turn-Inv (Turn.spins_in_vain e) = give_up_spin-Inv s inv i lt e
    Turn-Inv (Turn.steals_again {q} v e l h) =
        active-Inv s inv i lt retrying running (update s.pool.queue v q) e refl refl refl refl
    Turn-Inv (Turn.retries_in_vain e) =
        active-Inv s inv i lt retrying preparing s.pool.queue e refl refl refl refl
    Turn-Inv (Turn.pushes {q} t e h) = elim (Bool-cases (queues.is_empty (s.pool.queue i))) [
      | inl k ↦
          rw k
            (active-Inv s inv i lt running running (update s.pool.queue i q) e refl refl refl refl)
      | inr k ↦
          rw k (
            active-Inv s inv i lt running notifying (update s.pool.queue i q) e refl refl refl refl)
    ]
    Turn-Inv (Turn.decides_notify e) = decide_notify-Inv s inv i lt e
    Turn-Inv (Turn.alerts e) =
        let s' = notify false s in
        active-Inv s' (notify-Inv false s inv) i lt alerting running s'.pool.queue
          (stage_kept false s inv i alerting e refl) refl refl refl refl
    Turn-Inv (Turn.ends_task e) =
        active-Inv s inv i lt running looping s.pool.queue e refl refl refl refl
    Turn-Inv (Turn.prepares l e w) =
        prewait-Inv s inv i lt l (λ q h. w q (subst (λ m. q < m) (sym inv.threads) h)) e
    Turn-Inv (Turn.sees_empty q l e h) = sees_empty-Inv s inv i lt q l e h
    Turn-Inv (Turn.sees_task q l e h) =
        goes_busy s inv i lt (scanning (q ∷ l)) (found q) e refl (active-IsBusy n (found q) refl)
          s.pool.queue refl refl refl
    Turn-Inv (Turn.cancels_wait v e) = cancel_wait-Inv s inv i lt v e
    Turn-Inv (Turn.drops v e c) = cc (c, inv.active)
    Turn-Inv (Turn.robs v e c) = rob-Inv s inv i lt queues v e
    Turn-Inv (Turn.counts e) = count-Inv s inv i lt e
    Turn-Inv (Turn.decides_wait e) = decide_wait-Inv s inv i lt e
    Turn-Inv (Turn.commits_wait e) = commit_wait-Inv s inv i lt e
    Turn-Inv (Turn.finishes l e w) =
        finish-Inv s inv i lt l (λ q h. w q (subst (λ m. q < m) (sym inv.threads) h)) e
    Turn-Inv (Turn.still_empty q l e h) = still_empty-Inv s inv i lt q l e h
    Turn-Inv (Turn.stays q l e h) = stay-Inv s inv i lt q l e
    Turn-Inv (Turn.exits e) = exit-Inv s inv i lt e
    Turn-Inv (Turn.unblocks e) = unblock-Inv s inv i lt e

  Step-Inv :
      {n : ℕ} {s s' : Workers Q}
      → 0 < n
      → Inv n s queues.is_empty
      → Step queues s s'
      → Inv n s' queues.is_empty
  Step-Inv {s} p inv (Step.turns i l t) = Turn-Inv s inv i (subst (λ m. i < m) inv.threads l) t
  Step-Inv {s} p inv (Step.adds {q} t v o l h) = add-Inv s inv v q o
  Step-Inv {s} p inv (Step.decides_outside h) = decide-Inv s inv h
  Step-Inv {s} p inv (Step.alerts_outside h) = alert-Inv s inv p h
  Step-Inv {s} p inv (Step.quiesce_steals {q} v o l f h) = quiesce_steal-Inv s inv v q f
  Step-Inv {s} p inv (Step.closes a b) = close-Inv s inv a b
  Step-Inv {s} p inv (Step.notifies_all d c) = notify_all-Inv s inv d

  pub Steps-Inv :
      (n : ℕ) (queue : ℕ → Q)
      → 0 < n
      → n < 2 ^ 32
      → {s : Workers Q} → Steps queues (start n queue) s
      → Inv n s queues.is_empty
  Steps-Inv n queue p few Steps.here = start-Inv n queue p few
  Steps-Inv n queue p few (Steps.and_then r st) = Step-Inv p (Steps-Inv n queue p few r) st

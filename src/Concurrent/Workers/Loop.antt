-- ===== src/Concurrent/Workers/Loop.antt =====
-- WorkerLoop of work_queue_base.h and AddTask in a task, turn by turn.
use async_lib.Base.{
  Option-cases, Bool-cases, ℕ, ◌+◌, ◌<◌, ◌≡◌, inl, inr, refl, sym, ap, ◌∙◌, subst, arith, Bool,
  true, false, if◌then◌else◌,
}
use async_lib.Base.Sums.{total}
use async_lib.Base.Family.{update}
use async_lib.Concurrent.WorkQueueBase.{num_active_threads}
use async_lib.Concurrent.WorkQueueBase.Spinning.{
  Call, starts, stops, submits, call, spec, IsAllowed, call-Meets,
}
use async_lib.Concurrent.Workers.{
  Queues, Stage, looping, searching, running, notifying, alerting, spinning, stopping, retrying,
  preparing, robbing, Workers, go, start_spin, stop_spin, give_up_spin, decide_notify, rob,
}
use async_lib.Concurrent.Workers.Inv.{prewaiting, covers, spins, Inv}
use async_lib.Concurrent.Workers.Notified.{le-total}
use async_lib.Concurrent.Workers.Busy.{IsBusy, goes_busy, spins_busy, room_to_spin}

-- Stages in which a thread is busy, whatever the queues.
abbrev pub is_active : Stage → Bool
is_active (Stage.scanning l) = false
is_active Stage.blocking = false
is_active Stage.committing = false
is_active Stage.finishing = false
is_active (Stage.leaving l) = false
is_active Stage.parked = false
is_active Stage.woken = false
is_active Stage.exited = false
is_active Stage.dropped = false
is_active _ = true

pub active-IsBusy : (n : ℕ) (b : Stage) → is_active b ≡ true → IsBusy n b
active-IsBusy n b h = record {
  uncounted = ground arith;
  unparked = ground arith;
  staying = ground arith;
  looks = λ q _. active_covers b q h;
}
  where
    active_covers : (b : Stage) (q : ℕ) → is_active b ≡ true → covers b q ≡ true
    active_covers b q h = ground arith

module _ {Q : Type 0} {n : ℕ} {is_empty : Q → Bool} (s : Workers Q) (inv : Inv n s is_empty) (i : ℕ)
    (lt : i < n) where
  abbrev spinning_now : ℕ
  spinning_now = total n (λ j. spins (s.stage j))

  some_spin : (a : Stage) → s.stage i ≡ a → spins a ≡ 1 → 0 < spinning_now
  some_spin a e h = omega (arith, le-total n i (λ j. spins (s.stage j)) lt, ap spins e, h)

  -- What a call answers of the spinning threads, and the count that it leaves.
  abbrev specified : Call → Bool × ℕ × ℕ
  specified c = spec c (num_active_threads s.pool) spinning_now inv.numbers.skipped

  -- The thread goes on as the call answers.
  branches :
      (c : Call) (a x y : Stage)
      → s.stage i ≡ a
      → is_active a ≡ true
      → is_active x ≡ true
      → is_active y ≡ true
      → prewaiting a ≡ 0
      → prewaiting x ≡ 0
      → prewaiting y ≡ 0
      → IsAllowed c spinning_now
      → ((specified c).0 ≡ true → (specified c).1 + spins a ≡ spinning_now + spins x)
      → ((specified c).0 ≡ false → (specified c).1 + spins a ≡ spinning_now + spins y)
      → Inv n
          (go i (if (call c s.pool).0 then x else y) (record s { pool = (call c s.pool).1 }))
          is_empty
  branches c a x y e act actx acty pre prex prey ok up down =
      let ans =
        (call-Meets c s.pool spinning_now inv.numbers.skipped inv.numbers.spinning_count
          ok).answer in
      let idle = active-IsBusy n a act in
      elim (Bool-cases ((call c s.pool).0)) [
        | inl h ↦
            subst
              (λ b.
                Inv n (go i (if b then x else y) (record s { pool = (call c s.pool).1 })) is_empty)
              (sym h)
              (spins_busy s inv i lt a x e idle.unparked (active-IsBusy n x actx) c
                (omega (arith, pre, prex)) idle.uncounted ok (up (sym ans ∙ h)))
        | inr h ↦
            subst
              (λ b.
                Inv n (go i (if b then x else y) (record s { pool = (call c s.pool).1 })) is_empty)
              (sym h)
              (spins_busy s inv i lt a y e idle.unparked (active-IsBusy n y acty) c
                (omega (arith, pre, prey)) idle.uncounted ok (down (sym ans ∙ h)))
      ]

  pub start_spin-Inv : s.stage i ≡ searching → Inv n (start_spin i s) is_empty
  unfolding start_spin call
  start_spin-Inv e =
      branches starts searching spinning preparing e refl refl refl refl refl refl
        (room_to_spin s inv i lt searching e refl) (λ h. ground arith) (λ h. ground arith)

  pub give_up_spin-Inv : s.stage i ≡ spinning → Inv n (give_up_spin i s) is_empty
  unfolding give_up_spin call
  give_up_spin-Inv e =
      let some' = some_spin spinning e refl in
      branches stops spinning retrying preparing e refl refl refl refl refl refl some'
        (λ h. omega (arith, some')) (λ h. omega (arith, some'))

  pub stop_spin-Inv : s.stage i ≡ stopping → Inv n (stop_spin i s) is_empty
  unfolding stop_spin call
  stop_spin-Inv e =
      let some' = some_spin stopping e refl in
      spins_busy s inv i lt stopping running e refl (active-IsBusy n running refl) stops refl refl
        some' (omega (arith, some'))

  pub decide_notify-Inv : s.stage i ≡ notifying → Inv n (decide_notify i s) is_empty
  unfolding decide_notify call
  decide_notify-Inv e =
      branches submits notifying alerting running e refl refl refl refl refl refl tt
        (λ h. ground arith) (λ h. ground arith)

  -- A turn from an active stage to an active one, which changes a queue at most.
  pub active-Inv :
      (a b : Stage) (queue : ℕ → Q)
      → s.stage i ≡ a
      → is_active a ≡ true
      → is_active b ≡ true
      → prewaiting a ≡ prewaiting b
      → spins a ≡ spins b
      → Inv n (go i b (record s { pool = record s.pool { queue = queue } })) is_empty
  active-Inv a b queue e act actb pre spin =
      let idle = active-IsBusy n a act in
      goes_busy s inv i lt a b e idle.unparked (active-IsBusy n b actb) queue pre idle.uncounted
        spin

  module _ {T : Type 0} (queues : Queues Q T) where
    pub rob-Inv : (v : ℕ) → s.stage i ≡ robbing v → Inv n (rob queues i v s) is_empty
    unfolding rob
    rob-Inv v e = elim (Option-cases ((queues.steal (s.pool.queue v)).0)) [
      | inl h ↦ rw h (
          active-Inv (robbing v) looping (update s.pool.queue v (queues.steal (s.pool.queue v)).1) e
            refl refl refl refl)
      | inr (t, h) ↦ rw h (
          active-Inv (robbing v) running (update s.pool.queue v (queues.steal (s.pool.queue v)).1) e
            refl refl refl refl)
    ]

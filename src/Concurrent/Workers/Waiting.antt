-- ===== src/Concurrent/Workers/Waiting.antt =====
-- WaitForWork of work_queue_base.h, turn by turn.
use async_lib.Base.{
  ==_iff, Bool-cases, ℕ, ◌+◌, ◌-◌, ◌≤◌, ◌<◌, ◌≡◌, inl, inr, refl, ap, ◌∙◌, arith, Bool, true, false,
  List, [], ◌∷◌, mem, ◌==◌,
}
use async_lib.Runtime.TaskGraph.Counting.{count}
use async_lib.Concurrent.EventCount.Spec.{Waits, prewaits, cancels, after}
use async_lib.Concurrent.Workers.{
  Stage, looping, preparing, scanning, found, robbing, blocking, finishing, leaving, woken, Workers,
  go, set_blocked, prewait, cancel_wait, IsWalk,
}
use async_lib.Concurrent.Workers.Inv.{
  prewaiting, counted, spins, is_parked, is_late, is_closing, Covered, Inv,
}
use async_lib.Concurrent.Workers.Turns.{
  changed, parked_same, spins_same, changed-Counts, self-Covered, kept-Covered, noticed_self,
  changed-Inv,
}
use async_lib.Concurrent.Workers.Notified.{le-total}
use async_lib.Concurrent.Workers.Busy.{IsBusy, gets_busy}
use async_lib.Concurrent.Workers.Loop.{active-IsBusy}

module _ {Q : Type 0} {n : ℕ} {is_empty : Q → Bool} (s : Workers Q) (inv : Inv n s is_empty) (i : ℕ)
    (lt : i < n) where
  open inv.numbers use {skipped, pre_count, signals_le}

  pub prewait_pos : (a : Stage) → s.stage i ≡ a → prewaiting a ≡ 1 → 0 < s.waits.pre
  prewait_pos a e h =
      omega (arith, le-total n i (λ j. prewaiting (s.stage j)) lt, ap prewaiting e, h, pre_count)

  scanning-IsBusy : (l : List ℕ) → IsWalk n l → IsBusy n (scanning l)
  scanning-IsBusy l w = record { uncounted = refl; unparked = refl; staying = refl; looks = w }

  pub prewait-Inv :
      (l : List ℕ) → IsWalk n l → s.stage i ≡ preparing → Inv n (prewait i l s) is_empty
  unfolding prewait after
  prewait-Inv l w e =
      gets_busy s inv i lt preparing (scanning l) e refl (scanning-IsBusy l w) s.pool
        (after prewaits s.waits) skipped (record { threads = refl; cancelled = refl; done = refl })
        (omega arith) (omega (arith, signals_le)) refl (omega arith)
        (spins_same s inv i lt preparing (scanning l) e refl)

  cancelled_waits :
      0 < s.waits.pre
      → ((after cancels s.waits).pre + 1 ≡ s.waits.pre)
        × ((after cancels s.waits).signals ≤ (after cancels s.waits).pre)
        × ((after cancels s.waits).parked ≡ s.waits.parked)
  unfolding after
  cancelled_waits h = (omega (arith, h), ground (arith, h, signals_le), refl)

  pub cancel_wait-Inv : (v : ℕ) → s.stage i ≡ found v → Inv n (cancel_wait i (robbing v) s) is_empty
  unfolding cancel_wait
  cancel_wait-Inv v e =
      let (pre, sig, park) = cancelled_waits (prewait_pos (found v) e refl) in
      gets_busy s inv i lt (found v) (robbing v) e refl (active-IsBusy n (robbing v) refl) s.pool
        (after cancels s.waits) skipped (record { threads = refl; cancelled = refl; done = refl })
        (omega (arith, pre)) sig park (omega arith)
        (spins_same s inv i lt (found v) (robbing v) e refl)

  pub unblock-Inv :
      s.stage i ≡ woken → Inv n (go i looping (set_blocked (s.pool.blocked - 1) s)) is_empty
  unblock-Inv e =
      let some_blocked : 0 < s.pool.blocked = omega (
        arith,
        le-total n i (λ j. counted (s.stage j)) lt,
        ap counted e,
        inv.numbers.blocked_count,
      ) in
      let h = spins_same s inv i lt woken looping e refl in
      gets_busy s inv i lt woken looping e refl (active-IsBusy n looping refl)
        (record s.pool { blocked = s.pool.blocked - 1 }) s.waits skipped
        (record { threads = refl; cancelled = refl; done = refl }) (omega arith) signals_le refl
        (omega (arith, some_blocked))
        (record {
          fits = h.fits;
          spinning_field = h.spinning_field;
          skipped_field = h.skipped_field;
          covered = h.covered;
        })

  -- A turn to a stage in which the thread is counted as blocked and late.
  pub late-Inv :
      (a b : Stage) (e : s.stage i ≡ a) (m : ℕ) (v : Waits)
      → is_parked a ≡ 0
      → is_parked b ≡ 0
      → spins a ≡ spins b
      → is_late b ≡ true
      → (is_closing b ≡ true → s.pool.done ≡ true)
      → v.pre + prewaiting a ≡ s.waits.pre + prewaiting b
      → v.signals ≤ v.pre
      → v.parked ≡ s.waits.parked
      → m + counted a ≡ s.pool.blocked + counted b
      → ((q : ℕ)
          → q < n
          → is_empty (s.pool.queue q) ≡ false
          → Covered n (changed s inv i lt a b e (record s.pool { blocked = m }) v) q)
      → Inv n (changed s inv i lt a b e (record s.pool { blocked = m }) v) is_empty
  late-Inv a b e m v pa pb spin late close pre sig park block cov =
      let h = spins_same s inv i lt a b e spin in
      let p = record s.pool { blocked = m } in
      let c =
        changed-Counts s inv i lt a b e p v skipped pre sig block
          (record {
            fits = h.fits;
            spinning_field = h.spinning_field;
            skipped_field = h.skipped_field;
            covered = h.covered;
          })
          (λ j. ap (count j) park ∙ parked_same s inv i lt a b e pa pb j) in
      changed-Inv s inv i lt a b e p v refl refl refl c cov close
        (λ _ _. noticed_self s inv i lt a b e p v late)

  pub count-Inv :
      s.stage i ≡ scanning [] → Inv n (go i blocking (set_blocked (s.pool.blocked + 1) s)) is_empty
  count-Inv e =
      late-Inv (scanning []) blocking e (s.pool.blocked + 1) s.waits refl refl refl refl (λ h. cc)
        (omega arith) signals_le refl (omega arith)
        λ q l h.
          kept-Covered s inv i lt (scanning []) blocking e
            (record s.pool { blocked = s.pool.blocked + 1 }) s.waits q (omega arith) (λ c. c)
            (inv.covered q l h)

  pub finish-Inv :
      (l : List ℕ)
      → IsWalk n l
      → s.stage i ≡ finishing
      → Inv n (cancel_wait i (leaving l) s) is_empty
  unfolding cancel_wait
  finish-Inv l w e =
      let (pre, sig, park) = cancelled_waits (prewait_pos finishing e refl) in
      late-Inv finishing (leaving l) e s.pool.blocked (after cancels s.waits) refl refl refl refl
        (λ _. inv.closing i (ap is_closing e)) (omega (arith, pre)) sig park (omega arith)
        λ q lq h.
          self-Covered s inv i lt finishing (leaving l) e s.pool (after cancels s.waits) q (w q lq)

  -- A queue that holds a task is not the one that was seen to be empty.
  pub still_listed :
      (q x : ℕ) (l : List ℕ)
      → is_empty (s.pool.queue x) ≡ true
      → is_empty (s.pool.queue q) ≡ false
      → mem q (x ∷ l) ≡ true
      → mem q l ≡ true
  still_listed q x l ex eq h = elim (Bool-cases (q == x)) [
    | inl same ↦ cc (ex, eq, (==_iff q x).0 same)
    | inr other ↦ ground (arith, other, h)
  ]

  pub still_empty-Inv :
      (x : ℕ) (l : List ℕ)
      → s.stage i ≡ leaving (x ∷ l)
      → is_empty (s.pool.queue x) ≡ true
      → Inv n (go i (leaving l) s) is_empty
  still_empty-Inv x l e ex =
      late-Inv (leaving (x ∷ l)) (leaving l) e s.pool.blocked s.waits refl refl refl refl
        (λ _. inv.closing i (ap is_closing e)) (omega arith) signals_le refl (omega arith)
        λ q lq h.
          kept-Covered s inv i lt (leaving (x ∷ l)) (leaving l) e s.pool s.waits q (omega arith)
            (still_listed q x l ex h) (inv.covered q lq h)

  pub stay-Inv : (x : ℕ) (l : List ℕ) → s.stage i ≡ leaving (x ∷ l) → Inv n (go i woken s) is_empty
  stay-Inv x l e =
      late-Inv (leaving (x ∷ l)) woken e s.pool.blocked s.waits refl refl refl refl (λ h. cc)
        (omega arith) signals_le refl (omega arith)
        λ q _ _. self-Covered s inv i lt (leaving (x ∷ l)) woken e s.pool s.waits q refl

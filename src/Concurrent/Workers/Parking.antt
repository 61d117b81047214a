-- ===== src/Concurrent/Workers/Parking.antt =====
-- WaitForWork of work_queue_base.h where a thread looks for the last time, parks, or leaves.
use async_lib.Base.{
  ◌≢◌, Bool-cases, ℕ_discrete, ℕ, ◌-◌, ◌<◌, ◌≡◌, inl, inr, refl, ap, subst, arith, Bool, true,
  false, List, [], ◌∷◌, ◌==◌, ==_iff, ◌&&◌,
}
use async_lib.Base.Family.{update, update_self}
use async_lib.Runtime.TaskGraph.Counting.{count}
use async_lib.Concurrent.EventCount.Spec.{after}
use async_lib.Concurrent.WorkQueueBase.{all_blocked}
use async_lib.Concurrent.Workers.{
  Stage, scanning, blocking, committing, finishing, leaving, parked, woken, exited, Workers, go,
  notify, decide_wait, commit_wait,
}
use async_lib.Concurrent.Workers.Inv.{is_parked, is_closing, Inv}
use async_lib.Concurrent.Workers.Turns.{
  parked_same, spins_same, changed-Counts, self-Covered, kept-Covered, noticed_kept,
  not_all_blocked, changed-Inv,
}
use async_lib.Concurrent.Workers.Waiting.{prewait_pos, still_listed, late-Inv}
use async_lib.Concurrent.Workers.Notified.{notify-Inv, released_all, stage_kept, count_head}

count_parked :
    (i j : ℕ) (l : List ℕ) (stage : ℕ → Stage)
    → count j l ≡ is_parked (stage j)
    → is_parked (stage i) ≡ 0
    → count j (i ∷ l) ≡ is_parked (update stage i parked j)
count_parked i j l stage h free = elim (ℕ_discrete i j) [
  | yes same ↦
      subst
        (λ j.
          count j l ≡ is_parked (stage j) → count j (i ∷ l) ≡ is_parked (update stage i parked j))
        same
        (λ k. omega (arith, count_head i l, k, free, ap is_parked (update_self stage i parked))) h
  | no ne ↦ ground (arith, h, ne)
]

module _ {Q : Type 0} {n : ℕ} {is_empty : Q → Bool} (s : Workers Q) (inv : Inv n s is_empty) (i : ℕ)
    (lt : i < n) where
  open inv.numbers use {skipped, signals_le}

  pub sees_empty-Inv :
      (x : ℕ) (l : List ℕ)
      → s.stage i ≡ scanning (x ∷ l)
      → is_empty (s.pool.queue x) ≡ true
      → Inv n (go i (scanning l) s) is_empty
  sees_empty-Inv x l e ex =
      let a = scanning (x ∷ l) in
      let c =
        changed-Counts s inv i lt a (scanning l) e s.pool s.waits skipped (omega arith) signals_le
          (omega arith) (spins_same s inv i lt a (scanning l) e refl)
          (parked_same s inv i lt a (scanning l) e refl refl) in
      changed-Inv s inv i lt a (scanning l) e s.pool s.waits refl refl refl c
        (λ q lq h.
          kept-Covered s inv i lt a (scanning l) e s.pool s.waits q (omega arith)
            (still_listed s inv i lt q x l ex h) (inv.covered q lq h))
        (λ h. cc h)
        (λ _ full. absurd (not_all_blocked s inv i lt a (scanning l) e s.pool s.waits refl c full))

  not_all : s.pool.done && all_blocked s.pool ≡ false → s.pool.done ≡ true → s.pool.blocked ≢ n
  unfolding all_blocked
  not_all h d full = ground (arith, h, d, full, inv.threads)

  goes_finishing : s.pool.done ≡ true → s.stage i ≡ blocking → Inv n (go i finishing s) is_empty
  goes_finishing d e =
      late-Inv s inv i lt blocking finishing e s.pool.blocked s.waits refl refl refl refl (λ _. d)
        (omega arith) signals_le refl (omega arith)
        λ q lq _. self-Covered s inv i lt blocking finishing e s.pool s.waits q refl

  goes_committing :
      s.pool.done && all_blocked s.pool ≡ false
      → s.stage i ≡ blocking
      → Inv n (go i committing s) is_empty
  goes_committing h e =
      changed-Inv s inv i lt blocking committing e s.pool s.waits refl refl refl
        (changed-Counts s inv i lt blocking committing e s.pool s.waits skipped (omega arith)
          signals_le (omega arith) (spins_same s inv i lt blocking committing e refl)
          (parked_same s inv i lt blocking committing e refl refl))
        (λ q lq k.
          kept-Covered s inv i lt blocking committing e s.pool s.waits q (omega arith) (λ c. c)
            (inv.covered q lq k))
        (λ k. cc k) (λ told full. absurd (not_all h (inv.told told) full))

  pub decide_wait-Inv : s.stage i ≡ blocking → Inv n (decide_wait i s) is_empty
  unfolding decide_wait
  decide_wait-Inv e = elim (Bool-cases (s.pool.done && all_blocked s.pool)) [
    | inl h ↦ rw h (goes_finishing (done_of s.pool.done h) e)
    | inr h ↦ rw h (goes_committing h e)
  ]
    where
      done_of : (d : Bool) → d && all_blocked s.pool ≡ true → d ≡ true
      done_of true h = refl
      done_of false h = cc

  -- A signal is taken.
  takes_signal :
      s.waits.signals ≢ 0
      → s.stage i ≡ committing
      → Inv n
          (go i woken (record s {
            waits = record s.waits { pre = s.waits.pre - 1; signals = s.waits.signals - 1 };
          }))
          is_empty
  takes_signal some_signal e =
      let pos = prewait_pos s inv i lt committing e refl in
      let v = record s.waits { pre = s.waits.pre - 1; signals = s.waits.signals - 1 } in
      late-Inv s inv i lt committing woken e s.pool.blocked v refl refl refl refl (λ h. cc h)
        (omega (arith, pos)) (omega (arith, signals_le)) refl (omega arith)
        λ q lq _. self-Covered s inv i lt committing woken e s.pool v q refl

  parks :
      s.waits.signals ≡ 0
      → s.stage i ≡ committing
      → Inv n
          (go i parked (record s {
            waits = record s.waits { parked = i ∷ s.waits.parked; pre = s.waits.pre - 1 };
          }))
          is_empty
  parks no_signal e =
      let pos = prewait_pos s inv i lt committing e refl in
      let v = record s.waits { parked = i ∷ s.waits.parked; pre = s.waits.pre - 1 } in
      changed-Inv s inv i lt committing parked e s.pool v refl refl refl
        (changed-Counts s inv i lt committing parked e s.pool v skipped (omega (arith, pos))
          (omega (arith, no_signal)) (omega arith) (spins_same s inv i lt committing parked e refl)
          (λ j.
            count_parked i j s.waits.parked s.stage (inv.numbers.parked_count j) (ap is_parked e)))
        (λ q lq h.
          kept-Covered s inv i lt committing parked e s.pool v q (omega arith) (λ c. c)
            (inv.covered q lq h))
        (λ h. cc h)
        (λ told full.
          noticed_kept s inv i lt committing parked e s.pool v refl
            (λ all_signals _. absurd (omega (arith, all_signals, no_signal, pos)))
            (inv.noticed told full))

  pub commit_wait-Inv : s.stage i ≡ committing → Inv n (commit_wait i s) is_empty
  unfolding commit_wait after
  commit_wait-Inv e = elim (Bool-cases (s.waits.signals == 0)) [
    | inl h ↦ rw h (parks ((==_iff s.waits.signals 0).0 h) e)
    | inr h ↦ rw h (takes_signal (λ z. cc (h, (==_iff s.waits.signals 0).1 z)) e)
  ]

  pub exit-Inv : s.stage i ≡ leaving [] → Inv n (go i exited (notify true s)) is_empty
  exit-Inv e =
      let s' = notify true s in
      let inv' = notify-Inv true s inv in
      let e' = stage_kept true s inv i (leaving []) e refl in
      changed-Inv s' inv' i lt (leaving []) exited e' s'.pool s'.waits refl refl refl
        (changed-Counts s' inv' i lt (leaving []) exited e' s'.pool s'.waits inv'.numbers.skipped
          (omega arith) inv'.numbers.signals_le (omega arith)
          (spins_same s' inv' i lt (leaving []) exited e' refl)
          (parked_same s' inv' i lt (leaving []) exited e' refl refl))
        (λ q lq h.
          kept-Covered s' inv' i lt (leaving []) exited e' s'.pool s'.waits q (omega arith) (λ c. c)
            (inv'.covered q lq h))
        (λ _. inv'.closing i (ap is_closing e')) (λ _ _. inr (released_all s))

-- ===== src/Concurrent/Workers/Outside.antt =====
-- The free-standing threads that add tasks to a pool of work_queue_base.h or wait for it, and its
-- destructor.
use async_lib.Base.{
  dec_lt, Bool-cases, ℕ_discrete, ℕ, zero, suc, ◌+◌, ◌-◌, ◌<◌, ◌≡◌, inl, inr, refl, sym, ◌∙◌, subst,
  arith, Bool, true, false, if◌then◌else◌,
}
use async_lib.Base.Sums.{total}
use async_lib.Base.Family.{update, update_ne}
use async_lib.Concurrent.WorkQueueBase.{num_active_threads}
use async_lib.Concurrent.WorkQueueBase.Spinning.{Spins, submits, call, spec, call-Meets, call_rest}
use async_lib.Concurrent.Workers.{Stage, Workers, set_queue, notify, decide_notify_outside}
use async_lib.Concurrent.Workers.Inv.{spins, covers, Covered, Counts, Inv}
use async_lib.Concurrent.Workers.Notified.{notify-Inv, notify_wakes, released_all, Awake}

total_pos : (n : ℕ) (f : ℕ → ℕ) → 0 < total n f → (i : ℕ) × (i < n) × (0 < f i)
total_pos zero f h = absurd (omega arith)
total_pos (suc n) f h = elim (dec_lt 0 (f n)) [
  | yes pos ↦ (n, omega arith, pos)
  | no none_here ↦ let (i, l, p) = total_pos n f (omega (arith, h)) in (i, omega (arith, l), p)
]

spinning_covers : (x : Stage) (q : ℕ) → 0 < spins x → covers x q ≡ true
spinning_covers x q h = ground arith

spec_submits : (active spin skipped : ℕ) → (spec submits active spin skipped).1 ≡ spin
spec_submits active spin skipped = ground arith

module _ {Q : Type 0} {n : ℕ} {is_empty : Q → Bool} (s : Workers Q) (inv : Inv n s is_empty) where
  -- The counts do not depend on the queues, nor on the free-standing threads.
  same_counts :
      (queue : ℕ → Q) (done : Bool) (adding alerting : ℕ) (notified : Bool)
      → Counts n (record s {
        pool = record s.pool { queue = queue; done = done };
        adding = adding;
        alerting = alerting;
        notified = notified;
      })
  same_counts queue done adding alerting notified =
      let c = inv.numbers in
      record {
        pre_count = c.pre_count;
        signals_le = c.signals_le;
        blocked_count = c.blocked_count;
        skipped = c.skipped;
        spinning_count = record {
          fits = c.spinning_count.fits;
          spinning_field = c.spinning_count.spinning_field;
          skipped_field = c.spinning_count.skipped_field;
          covered = c.spinning_count.covered;
        };
        parked_count = c.parked_count;
        parked_lt = c.parked_lt;
      }

  pub add-Inv :
      (v : ℕ) (q : Q)
      → s.pool.done ≡ false
      → Inv n (record (set_queue v q s) { adding = s.adding + 1 }) is_empty
  add-Inv v q undone = record {
    few = inv.few;
    threads = inv.threads;
    active = inv.active;
    numbers =
        same_counts (update s.pool.queue v q) s.pool.done (s.adding + 1) s.alerting s.notified;
    covered = λ _ _ _. inr (inl (omega arith));
    closing = inv.closing;
    quiet = λ d. cc (d, undone);
    told = inv.told;
    noticed = λ t _. cc (inv.told t, undone);
  }

  pub quiesce_steal-Inv :
      (v : ℕ) (q : Q) → is_empty (s.pool.queue v) ≡ false → Inv n (set_queue v q s) is_empty
  quiesce_steal-Inv v q full = record {
    few = inv.few;
    threads = inv.threads;
    active = inv.active;
    numbers = same_counts (update s.pool.queue v q) s.pool.done s.adding s.alerting s.notified;
    covered = λ x l h. inv.covered x l (held x h);
    closing = inv.closing;
    quiet = inv.quiet;
    told = inv.told;
    noticed = inv.noticed;
  }
    where
      held :
          (x : ℕ) → is_empty (update s.pool.queue v q x) ≡ false → is_empty (s.pool.queue x) ≡ false
      held x h = elim (ℕ_discrete v x) [
        | yes same ↦ subst (λ y. is_empty (s.pool.queue y) ≡ false) same full
        | no ne ↦ subst (λ y. is_empty y ≡ false) (update_ne s.pool.queue v q x ne) h
      ]

  pub close-Inv :
      s.adding ≡ 0
      → s.alerting ≡ 0
      → Inv n (record s { pool = record s.pool { done = true } }) is_empty
  close-Inv none_adds none_alerts = record {
    few = inv.few;
    threads = inv.threads;
    active = inv.active;
    numbers = same_counts s.pool.queue true s.adding s.alerting s.notified;
    covered = inv.covered;
    closing = λ j _. refl;
    quiet = λ _. omega (arith, none_adds, none_alerts);
    told = λ _. refl;
    noticed = inv.noticed;
  }

  pub notify_all-Inv :
      s.pool.done ≡ true → Inv n (record (notify true s) { notified = true }) is_empty
  unfolding notify
  notify_all-Inv d =
      let inv' = notify-Inv true s inv in
      let c = inv'.numbers in
      record {
        few = inv'.few;
        threads = inv'.threads;
        active = inv'.active;
        numbers = record {
          pre_count = c.pre_count;
          signals_le = c.signals_le;
          blocked_count = c.blocked_count;
          skipped = c.skipped;
          spinning_count = c.spinning_count;
          parked_count = c.parked_count;
          parked_lt = c.parked_lt;
        };
        covered = inv'.covered;
        closing = inv'.closing;
        quiet = inv'.quiet;
        told = λ _. d;
        noticed = λ _ _. inr (released_all s);
      }

  -- While a free-standing thread is in AddTask the pool is open.
  still_open : 0 < s.adding + s.alerting → s.pool.done ≡ false
  still_open h = elim (Bool-cases s.pool.done) [
    | inl d ↦ absurd (omega (arith, inv.quiet d, h))
    | inr o ↦ o
  ]

  pub alert-Inv :
      0 < n
      → 0 < s.alerting
      → Inv n (record (notify false s) { alerting = s.alerting - 1 }) is_empty
  unfolding notify
  alert-Inv positive some_alerts =
      let undone = still_open (omega (arith, some_alerts)) in
      let inv' = notify-Inv false s inv in
      let c = inv'.numbers in
      record {
        few = inv'.few;
        threads = inv'.threads;
        active = inv'.active;
        numbers = record {
          pre_count = c.pre_count;
          signals_le = c.signals_le;
          blocked_count = c.blocked_count;
          skipped = c.skipped;
          spinning_count = c.spinning_count;
          parked_count = c.parked_count;
          parked_lt = c.parked_lt;
        };
        covered = λ q _ _. awake_covers q (notify_wakes s inv positive undone);
        closing = inv'.closing;
        quiet = λ d. cc (d, undone);
        told = inv'.told;
        noticed = λ t _. cc (inv.told t, undone);
      }
    where
      awake_covers :
          (q : ℕ)
          → Awake s inv positive (still_open (omega (arith, some_alerts))) (notify false s)
          → Covered n (record (notify false s) { alerting = s.alerting - 1 }) q
      awake_covers q (inl h) = inl h
      awake_covers q (inr (j, l, c)) = inr (inr (j, l, c q))

  -- The state that the answer of IsNotifyParkedThreadRequired leaves.
  decided : Bool → Workers Q
  decided required = record s {
    pool = (call submits s.pool).1;
    adding = s.adding - 1;
    alerting = if required then s.alerting + 1 else s.alerting;
  }

  decided-Inv :
      (required : Bool)
      → (call submits s.pool).0 ≡ required
      → 0 < s.adding
      → Inv n (decided required) is_empty
  unfolding decided
  decided-Inv required answer some_adds =
      let undone = still_open (omega (arith, some_adds)) in
      let c = inv.numbers in
      let now = total n (λ j. spins (s.stage j)) in
      let m = call-Meets submits s.pool now c.skipped c.spinning_count tt in
      let (threads, cancelled, done, blocked, queue) = call_rest submits s.pool in
      record {
        few = inv.few;
        threads = threads ∙ inv.threads;
        active = cancelled ∙ inv.active;
        numbers = record {
          pre_count = c.pre_count;
          signals_le = c.signals_le;
          blocked_count = blocked ∙ c.blocked_count;
          skipped = (spec submits (num_active_threads s.pool) now c.skipped).2;
          spinning_count =
              subst
                (λ t.
                  Spins (call submits s.pool).1 t
                    (spec submits (num_active_threads s.pool) now c.skipped).2)
                (spec_submits (num_active_threads s.pool) now c.skipped) m.left;
          parked_count = c.parked_count;
          parked_lt = c.parked_lt;
        };
        covered = λ q _ _. covered_by required q (sym m.answer ∙ answer);
        closing = λ j h. done ∙ inv.closing j h;
        quiet = λ d. cc (done, d, undone);
        told = λ t. done ∙ inv.told t;
        noticed = λ t _. cc (inv.told t, undone);
      }
    where
      covered_by :
          (required : Bool) (q : ℕ)
          → (spec submits
              (num_active_threads s.pool)
              (total n (λ j. spins (s.stage j)))
              inv.numbers.skipped).0
            ≡ required
          → Covered n (decided required) q
      covered_by true q e = inr (inl (omega arith))
      covered_by false q e =
          let some_spin : 0 < total n (λ j. spins (s.stage j)) =
            ground (arith, e, inv.numbers.spinning_count.covered) in
          let (j, l, p) = total_pos n (λ j. spins (s.stage j)) some_spin in
          inr (inr (j, l, spinning_covers (s.stage j) q p))

  pub decide-Inv : 0 < s.adding → Inv n (decide_notify_outside s) is_empty
  unfolding decide_notify_outside call decided
  decide-Inv some_adds = decided-Inv (call submits s.pool).0 refl some_adds

-- ===== src/Concurrent/Workers/Turns.antt =====
-- One worker of work_queue_base.h goes from a stage to another: the counts, and who covers a queue.
use async_lib.Base.{
  ℕ_discrete, ℕ, ◌+◌, ◌≤◌, ◌<◌, ◌≡◌, ◌≢◌, inl, inr, sym, ap, ◌∙◌, subst, arith, Bool, true, false,
  [],
}
use async_lib.Base.Sums.{total, total_at}
use async_lib.Base.Family.{update, update_self, update_ne}
use async_lib.Runtime.TaskGraph.Counting.{count, total-le}
use async_lib.Concurrent.EventCount.Spec.{Waits}
use async_lib.Concurrent.WorkQueueBase.{WorkQueueBase}
use async_lib.Concurrent.WorkQueueBase.Spinning.{Spins}
use async_lib.Concurrent.Workers.{Stage, blocking, Workers}
use async_lib.Concurrent.Workers.Inv.{
  prewaiting, counted, spins, is_parked, covers, is_late, is_closing, Covered, Noticed, Counts, Inv,
}

-- A sum over the stages after thread `i` has changed its own.
pub total_go :
    (w : Stage → ℕ) (n i : ℕ) (stage : ℕ → Stage) (a b : Stage)
    → stage i ≡ a
    → i < n
    → total n (λ j. w (update stage i b j)) + w a ≡ total n (λ j. w (stage j)) + w b
total_go w n i stage a b e lt =
    let t =
      total_at n i (λ j. w (stage j)) (λ j. w (update stage i b j)) lt
        (λ j ne. sym (ap w (update_ne stage i b j (λ q. ne (sym q))))) in
    omega (arith, t, ap w e, ap w (update_self stage i b))

pub spins-le : (a : Stage) → spins a ≤ 1
spins-le a = ground arith

counted-le : (a : Stage) → counted a ≤ 1
counted-le a = ground arith

module _ {Q : Type 0} {n : ℕ} {is_empty : Q → Bool} (s : Workers Q) (inv : Inv n s is_empty) (i : ℕ)
    (lt : i < n) (a b : Stage) (e : s.stage i ≡ a) where
  -- The state after the change, with another pool and other waits.
  abbrev pub changed : WorkQueueBase Q → Waits → Workers Q
  changed p v = record s { pool = p; waits = v; stage = update s.stage i b }

  pub parked_same :
      is_parked a ≡ 0
      → is_parked b ≡ 0
      → (j : ℕ) → count j s.waits.parked ≡ is_parked (update s.stage i b j)
  parked_same ea eb j = elim (ℕ_discrete i j) [
    | yes same ↦
        let k : count i s.waits.parked ≡ 0 = inv.numbers.parked_count i ∙ ap is_parked e ∙ ea in
        subst (λ j. count j s.waits.parked ≡ is_parked (update s.stage i b j)) same
          (k ∙ sym eb ∙ sym (ap is_parked (update_self s.stage i b)))
    | no ne ↦ inv.numbers.parked_count j ∙ sym (ap is_parked (update_ne s.stage i b j ne))
  ]

  -- How many threads spin after the change.
  pub spins_to :
      total n (λ j. spins (update s.stage i b j)) + spins a
      ≡ total n (λ j. spins (s.stage j)) + spins b
  spins_to = total_go spins n i s.stage a b e lt

  pub spins_same :
      spins a ≡ spins b
      → Spins s.pool (total n (λ j. spins (update s.stage i b j))) inv.numbers.skipped
  spins_same same =
      subst (λ m. Spins s.pool m inv.numbers.skipped) (omega (arith, spins_to, same))
        inv.numbers.spinning_count

  pub changed-Counts :
      (p : WorkQueueBase Q) (v : Waits) (k : ℕ)
      → v.pre + prewaiting a ≡ s.waits.pre + prewaiting b
      → v.signals ≤ v.pre
      → p.blocked + counted a ≡ s.pool.blocked + counted b
      → Spins p (total n (λ j. spins (update s.stage i b j))) k
      → ((j : ℕ) → count j v.parked ≡ is_parked (update s.stage i b j))
      → Counts n (changed p v)
  changed-Counts p v k pre sig block spun park = record {
    pre_count = omega (arith, pre, inv.numbers.pre_count, total_go prewaiting n i s.stage a b e lt);
    signals_le = sig;
    blocked_count =
        omega (arith, block, inv.numbers.blocked_count, total_go counted n i s.stage a b e lt);
    skipped = k;
    spinning_count = spun;
    parked_count = park;
    parked_lt = λ j h. elim (ℕ_discrete i j) [
      | yes same ↦ subst (λ j. j < n) same lt
      | no ne ↦
          inv.numbers.parked_lt j (subst (λ x. 0 < is_parked x) (update_ne s.stage i b j ne) h)
    ];
  }

  -- A thread that is going to look at a queue covers it.
  pub self-Covered :
      (p : WorkQueueBase Q) (v : Waits) (q : ℕ) → covers b q ≡ true → Covered n (changed p v) q
  self-Covered p v q c =
      inr (inr (i, lt, subst (λ x. covers x q ≡ true) (sym (update_self s.stage i b)) c))

  -- A queue that was covered still is, if the thread covers what it covered before.
  pub kept-Covered :
      (p : WorkQueueBase Q) (v : Waits) (q : ℕ)
      → s.waits.signals ≤ v.signals
      → (covers a q ≡ true → covers b q ≡ true)
      → Covered n s q
      → Covered n (changed p v) q
  kept-Covered p v q sig keep (inl h) = inl (omega (arith, h, sig))
  kept-Covered p v q sig keep (inr (inl h)) = inr (inl h)
  kept-Covered p v q sig keep (inr (inr (j, l, c))) = elim (ℕ_discrete i j) [
    | yes same ↦
        self-Covered p v q (keep (subst (λ x. covers x q ≡ true) (ap s.stage (sym same) ∙ e) c))
    | no ne ↦ inr (inr (j, l, subst (λ x. covers x q ≡ true) (sym (update_ne s.stage i b j ne)) c))
  ]

  pub noticed_self : (p : WorkQueueBase Q) (v : Waits) → is_late b ≡ true → Noticed n (changed p v)
  noticed_self p v c = inl (i, lt, subst (λ x. is_late x ≡ true) (sym (update_self s.stage i b)) c)

  -- A late thread other than this one stays so.
  pub noticed_kept :
      (p : WorkQueueBase Q) (v : Waits)
      → is_late a ≡ false
      → ((s.waits.signals ≡ s.waits.pre)
          → s.waits.parked ≡ []
          → (v.signals ≡ v.pre) × (v.parked ≡ []))
      → Noticed n s
      → Noticed n (changed p v)
  noticed_kept p v early keep (inl (j, l, c)) = elim (ℕ_discrete i j) [
    | yes same ↦
        let h : is_late a ≡ true = subst (λ x. is_late x ≡ true) (ap s.stage (sym same) ∙ e) c in
        cc (early, h)
    | no ne ↦ inl (j, l, subst (λ x. is_late x ≡ true) (sym (update_ne s.stage i b j ne)) c)
  ]
  noticed_kept p v early keep (inr (x, y)) = inr (keep x y)

  -- Not all threads are counted as blocked if this one is not.
  pub not_all_blocked :
      (p : WorkQueueBase Q) (v : Waits) → counted b ≡ 0 → Counts n (changed p v) → p.blocked ≢ n
  not_all_blocked p v free c full =
      let f = total_go counted n i (update s.stage i b) b blocking (update_self s.stage i b) lt in
      absurd (
        omega (
          arith,
          c.blocked_count,
          full,
          f,
          free,
          total-le n (λ j. counted (update (update s.stage i b) i blocking j)) (λ j. counted-le _),
        ))

  pub changed-Inv :
      (p : WorkQueueBase Q) (v : Waits)
      → p.num_threads ≡ s.pool.num_threads
      → p.cancelled ≡ s.pool.cancelled
      → p.done ≡ s.pool.done
      → Counts n (changed p v)
      → ((q : ℕ) → q < n → is_empty (p.queue q) ≡ false → Covered n (changed p v) q)
      → (is_closing b ≡ true → s.pool.done ≡ true)
      → (s.notified ≡ true → p.blocked ≡ n → Noticed n (changed p v))
      → Inv n (changed p v) is_empty
  changed-Inv p v th act dn c cov cl note = record {
    few = inv.few;
    threads = th ∙ inv.threads;
    active = act ∙ inv.active;
    numbers = c;
    covered = cov;
    closing = λ j h. elim (ℕ_discrete i j) [
      | yes same ↦
          dn
          ∙ cl (
              subst (λ x. is_closing x ≡ true)
                (ap (update s.stage i b) (sym same) ∙ update_self s.stage i b) h)
      | no ne ↦ dn ∙ inv.closing j (subst (λ x. is_closing x ≡ true) (update_ne s.stage i b j ne) h)
    ];
    quiet = λ d. inv.quiet (sym dn ∙ d);
    told = λ t. dn ∙ inv.told t;
    noticed = note;
  }

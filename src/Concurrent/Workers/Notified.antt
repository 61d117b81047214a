-- ===== src/Concurrent/Workers/Notified.antt =====
-- Notify, as the workers of work_queue_base.h see it: who is woken, and what stays as it was.
use async_lib.Base.{
  ==_refl, dec_lt, ℕ, zero, suc, ◌≤◌, ◌<◌, ◌≡◌, ◌⊎◌, inl, inr, refl, sym, ap, ◌∙◌, subst, arith,
  Bool, true, false, Bool-cases, List, [], ◌∷◌, mem, ltb, if◌then◌else◌,
}
use async_lib.Base.Sums.{total, total_same}
use async_lib.Runtime.TaskGraph.Counting.{count}
use async_lib.Concurrent.EventCount.Spec.{Waits, notifies, after, woken as woken_by, head, tail}
use async_lib.Concurrent.WorkQueueBase.Spinning.{Spins}
use async_lib.Concurrent.Workers.{Stage, woken, parked, wake, Workers, notify}
use async_lib.Concurrent.Workers.Inv.{
  prewaiting, counted, spins, is_parked, covers, is_late, is_closing, Covered, Noticed, Counts, Inv,
}

-- Whom a notification wakes, by the waits before it.
abbrev names : Bool → Waits → List ℕ
names all v = woken_by (notifies all) v

mem-count : (j : ℕ) (l : List ℕ) → mem j l ≡ true → 0 < count j l
mem-count j [] h = cc
mem-count j (x ∷ l) h = ground (arith, mem-count j l)

count-mem : (j : ℕ) (l : List ℕ) → mem j l ≡ false → count j l ≡ 0
count-mem j [] h = refl
count-mem j (x ∷ l) h = ground (arith, count-mem j l)

-- Only parked threads are woken.
woken_parked : (all : Bool) (v : Waits) (j : ℕ) → mem j (names all v) ≡ true → 0 < count j v.parked
unfolding woken_by
woken_parked true v j h = mem-count j v.parked h
woken_parked false v j h = elim (Bool-cases (ltb v.signals v.pre)) [
  | inl e ↦ cc (subst (λ b. mem j (if b then [] else head v.parked) ≡ true) e h)
  | inr e ↦
      mem-count j v.parked
        (head_mem v.parked (subst (λ b. mem j (if b then [] else head v.parked) ≡ true) e h))
]
  where
    head_mem : (l : List ℕ) → mem j (head l) ≡ true → mem j l ≡ true
    head_mem [] h = h
    head_mem (x ∷ l) h = ground arith

-- How often a thread is parked after the notification: not at all if it is woken, else as before.
parked_after :
    (all : Bool) (v : Waits) (j : ℕ)
    → count j v.parked ≤ 1
    → count j (after (notifies all) v).parked
      ≡ (if mem j (names all v) then 0 else count j v.parked)
unfolding after woken_by
parked_after true v j h = elim (Bool-cases (mem j v.parked)) [
  | inl e ↦ rw e
  | inr e ↦ rw e (sym (count-mem j v.parked e))
]
parked_after false v j h = elim (Bool-cases (ltb v.signals v.pre)) [
  | inl e ↦ rw e
  | inr e ↦ rw e (tail_count v.parked h)
]
  where
    tail_count :
        (l : List ℕ) → count j l ≤ 1 → count j (tail l) ≡ (if mem j (head l) then 0 else count j l)
    tail_count [] h = refl
    tail_count (x ∷ l) h = ground arith

-- Waking a parked thread changes no measure that counts it as before.
same_if :
    (w : Stage → ℕ) (b : Bool) (x : Stage)
    → w parked ≡ w woken
    → (b ≡ true → 0 < is_parked x)
    → w (if b then woken else x) ≡ w x
same_if w false x e h = refl
same_if w true parked e h = sym e
same_if w true x e h = absurd_of x (h refl)
  where
    absurd_of : (x : Stage) → 0 < is_parked x → w woken ≡ w x
    absurd_of parked h = sym e
    absurd_of x h = absurd (omega arith)

-- A term is at most the sum.
pub le-total : (n i : ℕ) (f : ℕ → ℕ) → i < n → f i ≤ total n f
le-total zero i f h = absurd (omega arith)
le-total (suc n) i f h = elim (dec_lt i n) [
  | yes lt ↦ omega (arith, le-total n i f lt)
  | no last ↦ let e : i ≡ n = omega arith in rw e (omega arith)
]

pub count_head : (x : ℕ) (l : List ℕ) → count x (x ∷ l) ≡ suc (count x l)
count_head x l = ground arith

parked-le : (a : Stage) → is_parked a ≤ 1
parked-le a = ground arith

module _ (all : Bool) (v : Waits) where
  pub pre_after : (after (notifies all) v).pre ≡ v.pre
  unfolding after
  pre_after = ground arith

  pub signals_after :
      v.signals ≤ v.pre
      → (v.signals ≤ (after (notifies all) v).signals) × ((after (notifies all) v).signals ≤ v.pre)
  unfolding after
  signals_after h = ground arith

  -- Where every waiter has a signal and none is parked, that stays so.
  pub released_after :
      v.signals ≡ v.pre
      → v.parked ≡ []
      → ((after (notifies all) v).signals ≡ v.pre) × ((after (notifies all) v).parked ≡ [])
  unfolding after
  released_after h k = ground (arith, k)

module _ {Q : Type 0} {n : ℕ} {is_empty : Q → Bool} (all : Bool) (s : Workers Q)
    (inv : Inv n s is_empty) where
  open inv.numbers use {
    pre_count, signals_le, blocked_count, skipped, spinning_count, parked_count, parked_lt,
  }

  abbrev is_woken : ℕ → Bool
  is_woken j = mem j (names all s.waits)

  woken-parked : (j : ℕ) → is_woken j ≡ true → 0 < is_parked (s.stage j)
  woken-parked j h = subst (λ k. 0 < k) (parked_count j) (woken_parked all s.waits j h)

  measure_same :
      (w : Stage → ℕ)
      → w parked ≡ w woken
      → total n (λ j. w (wake (names all s.waits) s.stage j)) ≡ total n (λ j. w (s.stage j))
  measure_same w e =
      total_same n (λ j. w (wake (names all s.waits) s.stage j)) (λ j. w (s.stage j))
        λ j _. same_if w (is_woken j) (s.stage j) e (woken-parked j)

  pub notify-Counts : Counts n (notify all s)
  unfolding notify
  notify-Counts = record {
    pre_count = pre_after all s.waits ∙ pre_count ∙ sym (measure_same prewaiting refl);
    signals_le = omega (arith, pre_after all s.waits, signals_after all s.waits signals_le);
    blocked_count = blocked_count ∙ sym (measure_same counted refl);
    skipped = skipped;
    spinning_count =
        subst (λ m. Spins s.pool m skipped) (sym (measure_same spins refl)) spinning_count;
    parked_count = λ j.
        parked_after all s.waits j
          (subst (λ k. k ≤ 1) (sym (parked_count j)) (parked-le (s.stage j)))
        ∙ parked_if (is_woken j) (s.stage j) _ (parked_count j);
    parked_lt = λ j h. parked_lt j (parked_before (is_woken j) (s.stage j) h);
  }
    where
      parked_if :
          (b : Bool) (x : Stage) (k : ℕ)
          → k ≡ is_parked x
          → (if b then 0 else k) ≡ is_parked (if b then woken else x)
      parked_if true x k e = refl
      parked_if false x k e = e

      parked_before :
          (b : Bool) (x : Stage) → 0 < is_parked (if b then woken else x) → 0 < is_parked x
      parked_before true x h = absurd (omega arith)
      parked_before false x h = h

  -- Others than the parked threads are not woken.
  pub stage_kept :
      (j : ℕ) (a : Stage) → s.stage j ≡ a → is_parked a ≡ 0 → (notify all s).stage j ≡ a
  unfolding notify
  stage_kept j a e free = elim (Bool-cases (is_woken j)) [
    | inl h ↦ absurd (omega (arith, woken-parked j h, ap is_parked e, free))
    | inr h ↦ rw h e
  ]

  covers_if :
      (b : Bool) (x : Stage) (q : ℕ) → covers x q ≡ true → covers (if b then woken else x) q ≡ true
  covers_if true x q h = refl
  covers_if false x q h = h

  late_if : (b : Bool) (x : Stage) → is_late x ≡ true → is_late (if b then woken else x) ≡ true
  late_if true x h = refl
  late_if false x h = h

  closing_if :
      (b : Bool) (x : Stage) → is_closing (if b then woken else x) ≡ true → is_closing x ≡ true
  closing_if true x h = cc
  closing_if false x h = h

  notify-Covered : (q : ℕ) → Covered n s q → Covered n (notify all s) q
  unfolding notify
  notify-Covered q (inl h) = inl (omega (arith, h, signals_after all s.waits signals_le))
  notify-Covered q (inr (inl h)) = inr (inl h)
  notify-Covered q (inr (inr (j, l, c))) = inr (inr (j, l, covers_if (is_woken j) (s.stage j) q c))

  notify-Noticed : Noticed n s → Noticed n (notify all s)
  unfolding notify
  notify-Noticed (inl (j, l, c)) = inl (j, l, late_if (is_woken j) (s.stage j) c)
  notify-Noticed (inr (x, y)) =
      let r = released_after all s.waits x y in inr (r.0 ∙ sym (pre_after all s.waits), r.1)

  pub notify-Inv : Inv n (notify all s) is_empty
  unfolding notify
  notify-Inv = record {
    few = inv.few;
    threads = inv.threads;
    active = inv.active;
    numbers = notify-Counts;
    covered = λ q l h. notify-Covered q (inv.covered q l h);
    closing = λ j h. inv.closing j (closing_if (is_woken j) (s.stage j) h);
    quiet = inv.quiet;
    told = inv.told;
    noticed = λ t f. notify-Noticed (inv.noticed t f);
  }

-- After a notification of all, every thread that waits has been released.
pub released_all :
    {Q : Type 0} (s : Workers Q)
    → ((notify true s).waits.signals ≡ (notify true s).waits.pre)
      × ((notify true s).waits.parked ≡ [])
unfolding notify after
released_all s = (refl, refl)

-- A stage in which a thread neither waits nor shuts down.
abbrev IsFree : Stage → Type 0
IsFree x = (prewaiting x ≡ 0) × (is_closing x ≡ false)

free_cases : (x : Stage) → IsFree x → (is_parked x ≡ 1) ⊎ ((q : ℕ) → covers x q ≡ true)
free_cases Stage.looping h = inr (λ q. refl)
free_cases Stage.searching h = inr (λ q. refl)
free_cases Stage.running h = inr (λ q. refl)
free_cases Stage.notifying h = inr (λ q. refl)
free_cases Stage.alerting h = inr (λ q. refl)
free_cases Stage.spinning h = inr (λ q. refl)
free_cases Stage.stopping h = inr (λ q. refl)
free_cases Stage.retrying h = inr (λ q. refl)
free_cases Stage.preparing h = inr (λ q. refl)
free_cases (Stage.scanning l) h = absurd (omega (arith, h.0))
free_cases (Stage.found v) h = inr (λ q. refl)
free_cases (Stage.robbing v) h = inr (λ q. refl)
free_cases Stage.blocking h = absurd (omega (arith, h.0))
free_cases Stage.committing h = absurd (omega (arith, h.0))
free_cases Stage.finishing h = cc
free_cases (Stage.leaving l) h = cc
free_cases Stage.parked h = inl refl
free_cases Stage.woken h = inr (λ q. refl)
free_cases Stage.exited h = cc
free_cases Stage.dropped h = cc

module _ {Q : Type 0} {n : ℕ} {is_empty : Q → Bool} (s : Workers Q) (inv : Inv n s is_empty)
    (positive : 0 < n) (unclosed : s.pool.done ≡ false) where
  -- Some signal is out, or some thread covers every queue.
  abbrev pub Awake : Workers Q → Type 0
  Awake t = (0 < t.waits.signals) ⊎ ((j : ℕ) × (j < n) × ((q : ℕ) → covers (t.stage j) q ≡ true))

  not_closing : (j : ℕ) → is_closing (s.stage j) ≡ false
  not_closing j = elim (Bool-cases (is_closing (s.stage j))) [
    | inl e ↦ cc (inv.closing j e, unclosed)
    | inr e ↦ e
  ]

  signals_kept :
      (ltb s.waits.signals s.waits.pre ≡ false) → (notify false s).waits.signals ≡ s.waits.signals
  unfolding notify after
  signals_kept h = rw h

  signals_up : (ltb s.waits.signals s.waits.pre ≡ true) → 0 < (notify false s).waits.signals
  unfolding notify after
  signals_up h = rw h (omega arith)

  -- The parked thread at the head is woken.
  woken_head :
      (x : ℕ) (l : List ℕ)
      → s.waits.parked ≡ x ∷ l
      → ltb s.waits.signals s.waits.pre ≡ false
      → (notify false s).stage x ≡ woken
  unfolding notify woken_by
  woken_head x l e h = rw (h, e, ==_refl x)

  -- Nobody waits for a signal: the thread at the head is woken, or thread 0 is awake by itself.
  wakes_parked :
      (l : List ℕ)
      → s.waits.parked ≡ l
      → s.waits.pre ≡ 0
      → ltb s.waits.signals s.waits.pre ≡ false
      → Awake (notify false s)
  unfolding notify
  wakes_parked [] e none_pre h =
      let z : prewaiting (s.stage 0) ≡ 0 = omega (
        arith,
        le-total n 0 (λ j. prewaiting (s.stage j)) positive,
        inv.numbers.pre_count,
        none_pre,
      ) in
      elim (free_cases (s.stage 0) (z, not_closing 0)) [
        | inl p ↦ absurd (omega (arith, p, inv.numbers.parked_count 0, ap (count 0) e))
        | inr c ↦
            inr
              (0, positive, λ q. covers_if false s inv (is_woken false s inv 0) (s.stage 0) q (c q))
      ]
  wakes_parked (x ∷ l) e none_pre h =
      let c : count x s.waits.parked ≡ suc (count x l) = ap (count x) e ∙ count_head x l in
      let inside = inv.numbers.parked_lt x (omega (arith, c, inv.numbers.parked_count x)) in
      inr (x, inside, λ q. subst (λ a. covers a q ≡ true) (sym (woken_head x l e h)) refl)

  pub notify_wakes : Awake (notify false s)
  notify_wakes = elim (Bool-cases (ltb s.waits.signals s.waits.pre)) [
    | inl h ↦ inl (signals_up h)
    | inr h ↦ elim (dec_lt 0 s.waits.signals) [
      | yes h' ↦ inl (omega (arith, signals_kept h, h'))
      | no out ↦ wakes_parked s.waits.parked refl (ground (arith, h, out, inv.numbers.signals_le)) h
    ]
  ]

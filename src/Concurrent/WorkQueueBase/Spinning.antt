-- ===== src/Concurrent/WorkQueueBase/Spinning.antt =====
-- The packed count of spinning threads, and of tasks submitted without a notification.
use async_lib.Base.{
  subst, ◌||◌, ℕ, ◌+◌, ◌-◌, ◌^◌, ◌≤◌, ◌<◌, ◌≡◌, refl, arith, Bool, true, false, List, [], ◌∷◌, ltb,
  ◌==◌, if◌then◌else◌,
}
use async_lib.Concurrent.WorkQueueBase.{
  WorkQueueBase, decode, start_spinning, stop_spinning, is_notify_parked_thread_required,
  num_active_threads,
}

pub data Call : Type 0 where
  starts stops submits : Call

-- The answer to a call, and the two counts after it.
abbrev pub spec : Call → ℕ → ℕ → ℕ → Bool × ℕ × ℕ
spec starts active spinning skipped =
    if ltb 4 active || ltb skipped spinning
    then (false, spinning, skipped)
    else (true, spinning + 1, skipped)
spec stops active spinning skipped = (ltb 0 skipped, spinning - 1, skipped - 1)
spec submits active spinning skipped =
    if skipped == spinning then (true, spinning, skipped) else (false, spinning, skipped + 1)

-- A thread that stops was spinning, and the count of spinning threads has room.
abbrev pub IsAllowed : Call → ℕ → Type 0
IsAllowed starts spinning = spinning + 1 < 2 ^ 32
IsAllowed stops spinning = 0 < spinning
IsAllowed submits spinning = Unit

-- A submission that is answered with false goes without a notification.
abbrev pub missed_by : Call → Bool → ℕ
missed_by submits false = 1
missed_by _ answer = 0

-- A thread that is answered with true on stopping steals once more.
abbrev pub told_by : Call → Bool → ℕ
told_by stops true = 1
told_by _ answer = 0

module _ {Q : Type 0} where
  -- `spinning` threads spin, and `skipped` tasks were submitted without a notification.
  pub record Spins (p : WorkQueueBase Q) (spinning skipped : ℕ) : Type 0 where
    pub fits : p.spinning_state < 2 ^ 64
    pub spinning_field : (decode p.spinning_state).num_spinning ≡ spinning
    pub skipped_field : (decode p.spinning_state).num_no_notification ≡ skipped
    pub covered : skipped ≤ spinning

  unfoldable pub call : Call → WorkQueueBase Q → Bool × WorkQueueBase Q
  call starts p = start_spinning p
  call stops p = stop_spinning p
  call submits p = is_notify_parked_thread_required p

  -- What the calls leave alone.
  pub call_rest :
      (c : Call) (p : WorkQueueBase Q)
      → ((call c p).1.num_threads ≡ p.num_threads)
        × ((call c p).1.cancelled ≡ p.cancelled)
        × ((call c p).1.done ≡ p.done)
        × ((call c p).1.blocked ≡ p.blocked)
        × ((call c p).1.queue ≡ p.queue)
  unfolding call start_spinning stop_spinning is_notify_parked_thread_required
  call_rest starts p = (ground arith, ground arith, ground arith, ground arith, ground arith)
  call_rest stops p = (refl, refl, refl, refl, refl)
  call_rest submits p = (ground arith, ground arith, ground arith, ground arith, ground arith)

  -- The call answers as specified, and leaves the counts of the specification.
  pub record Meets (c : Call) (p : WorkQueueBase Q) (spinning skipped : ℕ) : Type 0 where
    pub answer : (call c p).0 ≡ (spec c (num_active_threads p) spinning skipped).0
    pub left :
        Spins
          (call c p).1
          (spec c (num_active_threads p) spinning skipped).1
          (spec c (num_active_threads p) spinning skipped).2

  module _ (p : WorkQueueBase Q) (s k : ℕ) (h : Spins p s k) where
    starts_lem : s + 1 < 2 ^ 32 → Meets starts p s k
    unfolding call start_spinning
    starts_lem room = record {
      answer = ground arith;
      left = record {
        fits = ground arith;
        spinning_field = ground arith;
        skipped_field = ground arith;
        covered = ground arith;
      };
    }

    stops_lem : 0 < s → Meets stops p s k
    unfolding call stop_spinning
    stops_lem some_spin = record {
      answer = ground arith;
      left = record {
        fits = ground arith;
        spinning_field = ground arith;
        skipped_field = ground arith;
        covered = ground arith;
      };
    }

    submits_lem : Meets submits p s k
    unfolding call is_notify_parked_thread_required
    submits_lem = record {
      answer = ground arith;
      left = record {
        fits = ground arith;
        spinning_field = ground arith;
        skipped_field = ground arith;
        covered = ground arith;
      };
    }

  pub call-Meets :
      (c : Call) (p : WorkQueueBase Q) (s k : ℕ) → Spins p s k → IsAllowed c s → Meets c p s k
  call-Meets starts p s k h ok = starts_lem p s k h ok
  call-Meets stops p s k h ok = stops_lem p s k h ok
  call-Meets submits p s k h ok = submits_lem p s k h

  -- How many submissions went without a notification, how many threads were told on stopping to
  -- steal once more, and the pool at the end.
  unfoldable pub run : List Call → WorkQueueBase Q → ℕ × ℕ × WorkQueueBase Q
  run [] p = (0, 0, p)
  run (c ∷ cs) p =
      let (answer, p1) = call c p in
      let (missed, told, p2) = run cs p1 in
      (missed + missed_by c answer, told + told_by c answer, p2)

  -- Each thread that stops was spinning, and the count has room.
  abbrev pub AllAllowed : List Call → WorkQueueBase Q → Type 0
  AllAllowed [] p = Unit
  AllAllowed (c ∷ cs) p =
      IsAllowed c (decode p.spinning_state).num_spinning × AllAllowed cs (call c p).1

  balance_step :
      (c : Call) (p : WorkQueueBase Q) (s k : ℕ)
      → Spins p s k
      → Meets c p s k
      → k + missed_by c (call c p).0
        ≡ (spec c (num_active_threads p) s k).2 + told_by c (call c p).0
  balance_step starts p s k h m = ground (arith, m.answer)
  balance_step stops p s k h m = ground (arith, m.answer)
  balance_step submits p s k h m = ground (arith, m.answer)

  -- However threads start and stop spinning, every task that was submitted without a notification
  -- is made up for: by a spinning thread that was told, on stopping, to steal once more, or by one
  -- that still spins and has the task in the pool's count.
  pub run_balanced :
      (cs : List Call) (p : WorkQueueBase Q) (s k : ℕ)
      → Spins p s k
      → AllAllowed cs p
      → let (missed, told, p') = run cs p in (s' k' : ℕ) × Spins p' s' k' × (k + missed ≡ k' + told)
  unfolding run
  run_balanced [] p s k h ok = (s, k, h, refl)
  run_balanced (c ∷ cs) p s k h (ok, oks) =
      let m = call-Meets c p s k h (subst (IsAllowed c) h.spinning_field ok) in
      let (s', k', h', e) = run_balanced cs (call c p).1 _ _ m.left oks in
      (s', k', h', omega (arith, e, balance_step c p s k h m))

-- ===== src/Context/HostContext/Ready.antt =====
-- RunWhenReady of host_context.cpp: when the callee runs, and how often.
use async_lib.Base.{
  ℕ, zero, suc, ◌+◌, ◌*◌, ◌≤◌, ◌<◌, ◌≡◌, refl, ap, ◌∙◌, arith, some, List, [], ◌∷◌, ◌++◌, map,
  length, ◌==◌, if◌then◌else◌, ◌^◌,
}
use async_lib.Base.Sums.{weigh, weigh-append}
use async_lib.Context.AsyncValue.{Store}
use async_lib.Context.AsyncValue.Steps.{Call, waits_for}
use async_lib.Context.AsyncValue.Run.{of_users}
use async_lib.Context.AsyncValue.Once.{
  no_values, perform_all, AllAllowed, registers, registered, unavailable_pending,
  callbacks_run_once,
}
use async_lib.Context.HostContext.{
  plan_for, count_down, times, callee_runs, unavailable, run_when_ready,
}

-- Counts the closures of number `c`.
abbrev pub is_closure : ℕ → ℕ → ℕ
is_closure c n = if n == c then 1 else 0

-- A closure that is not the last.
counts_one :
    (k r : ℕ)
    → suc (suc k) < 2 ^ 64
    → count_down (record { counter = suc (suc k); runs = r }) ≡ record { counter = suc k; runs = r }
unfolding count_down
counts_one k r h = ground arith

same_last :
    (n k r : ℕ)
    → (if n == suc k then (if suc k == 0 then r else r + 1) else r)
      ≡ (if suc n == suc (suc k) then (if suc (suc k) == 0 then r else r + 1) else r)
same_last n k r = ground arith

-- The callee runs with the last of the closures.
times-count_down :
    (n k r : ℕ)
    → n ≤ k
    → k < 2 ^ 64
    → (times n count_down (record { counter = k; runs = r })).runs
      ≡ (if n == k then (if k == 0 then r else r + 1) else r)
unfolding count_down
times-count_down zero k r le small = ground arith
times-count_down (suc n) zero r le small = absurd (omega arith)
times-count_down (suc zero) (suc zero) r le small = ground arith
times-count_down (suc (suc n)) (suc zero) r le small = absurd (omega arith)
times-count_down (suc n) (suc (suc k)) r le small =
    ap (λ d. (times n count_down d).runs) (counts_one k r small)
    ∙ times-count_down n (suc k) r (omega arith) (omega arith)
    ∙ same_last n k r

runs_lem :
    (l : List ℕ) (n : ℕ)
    → length l < 2 ^ 64
    → n ≤ length l
    → callee_runs (plan_for l) n ≡ (if n == length l then 1 else 0)
unfolding callee_runs
runs_lem [] n small le = ground arith
runs_lem (i ∷ []) n small le = ground arith
runs_lem (i ∷ j ∷ l) n small le = times-count_down n (length (i ∷ j ∷ l)) 0 le small ∙ ground arith

module _ {V E : Type 0} (fuel t : ℕ) where
  registered-append :
      (f : ℕ → ℕ) (cs ds : List (Call V E))
      → registered fuel t f (cs ++ ds) ≡ registered fuel t f cs + registered fuel t f ds
  registered-append f cs ds = weigh-append (registers fuel t f) cs ds

  registered-waits :
      (cs : List (Call V E)) (c : ℕ) (l : List ℕ)
      → cs ≡ map (waits_for c) l
      → registered fuel t (is_closure c) cs ≡ length l
  registered-waits cs c [] e = rw e
  registered-waits cs c (i ∷ l) e =
      rw e (ground (arith, registered-waits (map (waits_for c) l) c l refl))

  -- From a store that allowed calls have led to: whatever allowed calls follow RunWhenReady, its
  -- callee has run exactly once if none of its closures waits for a value that is not available, and
  -- not at all if one does.
  pub run_when_ready_lem :
      (c : ℕ) (values : List ℕ) (before later : List (Call V E)) (h : Store V E)
      → perform_all fuel t before no_values ≡ some h
      → length (unavailable values h) < 2 ^ 64
      → registered fuel t (is_closure c) before ≡ 0
      → registered fuel t (is_closure c) later ≡ 0
      → AllAllowed fuel t (before ++ ((run_when_ready c values h).1 ++ later)) no_values
      → 2 * length (before ++ ((run_when_ready c values h).1 ++ later)) + 2 ≤ fuel
      → (h' : Store V E) × (perform_all fuel t
            (before ++ ((run_when_ready c values h).1 ++ later))
            no_values
          ≡ some h')
        × (callee_runs (run_when_ready c values h).0 (weigh (is_closure c) h'.log)
            ≡ (if unavailable_pending fuel t (of_users (is_closure c)) h' == 0 then 1 else 0))
  unfolding run_when_ready
  run_when_ready_lem c values before later h reached small fresh_before fresh_later allowed enough =
      let waiters = unavailable values h in
      let cs = before ++ (map (waits_for c) waiters ++ later) in
      let (h', e, _, same) = callbacks_run_once fuel t cs allowed enough in
      let total_registered : registered {V = V} {E = E} fuel t (is_closure c) cs ≡ length waiters =
        omega (
          arith,
          registered-append (is_closure c) before (map (waits_for c) waiters ++ later),
          registered-append (is_closure c) (map (waits_for c) waiters) later,
          registered-waits (map (waits_for c) waiters) c waiters refl,
          fresh_before,
          fresh_later,
        ) in
      let balance = same (is_closure c) in
      (
        h',
        e,
        runs_lem waiters (weigh (is_closure c) h'.log) small
              (omega (arith, balance, total_registered))
            ∙ same_test (weigh (is_closure c) h'.log)
                (unavailable_pending fuel t (of_users (is_closure c)) h') (length waiters)
                (balance ∙ total_registered),
      )
    where
      same_test :
          (ran waiting all : ℕ)
          → ran + waiting ≡ all
          → ◌≡◌ {A = ℕ} (if ran == all then 1 else 0) (if waiting == 0 then 1 else 0)
      same_test ran waiting all e = ground arith

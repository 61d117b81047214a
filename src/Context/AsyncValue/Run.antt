-- ===== src/Context/AsyncValue/Run.antt =====
-- RunWaiters of async_value.cpp: the loop over the waiters, and how often each of them runs.
use async_lib.Base.{
  ℕ, zero, suc, ◌+◌, ◌≤◌, ◌<◌, ◌≡◌, refl, ap, ◌∙◌, arith, true, Option, none, some, List, [], ◌∷◌,
  ◌++◌, if◌then◌else◌,
}
use async_lib.Base.Sums.{weigh, weigh-append}
use async_lib.Context.AsyncValue.{
  is_available, Waiter, user, forwards, Job, notify, release, Store, step, run_waiters, drop_ref,
}
use async_lib.Context.AsyncValue.Inv.{
  Runs, Inv, Later, Later-refl, Later-trans, Later-Runs, Later-Good,
}
use async_lib.Context.AsyncValue.Refs.{RefsOnly-Inv, RefsOnly-Later, drop_ref-RefsOnly}
use async_lib.Context.AsyncValue.Weigh.{job_weight, pending, pending-RefsOnly}
use async_lib.Context.AsyncValue.Moves.{Runs-append}
use async_lib.Context.AsyncValue.Forward.{forward_to-Moved}
use async_lib.Context.AsyncValue.Steps.{
  Call, waits_for, forwards_to, makes_unconstructed, makes_constructed, makes_concrete, makes_error,
  makes_indirect, sets_state_concrete, emplaces, sets_error, adds_ref, drops_ref, call, Allowed,
  accepted, call-Moved,
}

-- The weight of the callbacks of clients.
abbrev pub of_users : (ℕ → ℕ) → Waiter → ℕ
of_users f (user n) = f n
of_users f (forwards this i) = 0

abbrev pub twice : Waiter → ℕ
twice _ = 2

-- How many jobs there can be, each waiter counted with the end of its closure.
abbrev pub work : {V E : Type 0} → List Job → Store V E → ℕ
work js h = weigh (job_weight twice 1) js + pending twice h

-- The callbacks that ran, are to run or wait, weighed by `f`.
abbrev pub census : {V E : Type 0} → (ℕ → ℕ) → List Job → Store V E → ℕ
census f js h = weigh f h.log + weigh (job_weight (of_users f) 0) js + pending (of_users f) h

module _ {V E : Type 0} where
  -- What jobs leave: they are done with, in less work, and no callback is lost or doubled.
  record Stepped (h : Store V E) (js : List Job) (r : List Job × Store V E) : Type 0 where
    later : Later h r.1
    inv : Inv r.1
    runs : Runs r.1 r.0
    less : work r.0 r.1 < work js h
    same : (f : ℕ → ℕ) → census f r.0 r.1 ≡ census f js h

  -- What `js` beside them leaves as they are.
  beside :
      (h : Store V E) (j : Job) (js : List Job) (r : List Job × Store V E)
      → Stepped h (j ∷ []) r
      → Runs h js
      → Stepped h (j ∷ js) (r.0 ++ js, r.1)
  beside h j js r s k = record {
    later = s.later;
    inv = s.inv;
    runs = Runs-append r.1 r.0 js s.runs (Later-Runs h r.1 s.later js k);
    less = omega (arith, s.less, weigh-append (job_weight twice 1) r.0 js);
    same = λ f. omega (arith, s.same f, weigh-append (job_weight (of_users f) 0) r.0 js);
  }

  step_lem :
      (j : Job) (h : Store V E)
      → Inv h
      → Runs h (j ∷ [])
      → (r : List Job × Store V E) × (step j h ≡ some r) × Stepped h (j ∷ []) r
  unfolding step
  step_lem (notify (user n)) h inv k =
      let h' = record h { log = n ∷ h.log } in
      let l : Later h h' = record {
        bound = omega arith;
        kinds = λ i lt. refl;
        available = λ i lt a. a;
        settled = λ i lt c a. refl;
      } in
      (
        ([], h'),
        refl,
        record {
          later = l;
          inv = record {
            good = λ i lt. Later-Good h h' l i (h.value i) (inv.good i lt);
            fresh = inv.fresh;
          };
          runs = tt;
          less = omega arith;
          same = λ f. omega arith;
        },
      )
  step_lem (notify (forwards this i)) h inv (b, c, b', a, t) =
      let ((js, h'), e, m) = forward_to-Moved this i h inv b c b' in
      (
        (js ++ release this ∷ [], h'),
        rw (e, step) refl,
        record {
          later = m.later;
          inv = m.inv;
          runs = Runs-append h' js (release this ∷ []) m.runs tt;
          less = omega (
            arith,
            m.weights twice 1,
            weigh-append (job_weight twice 1) js (release this ∷ []),
            none_accepted twice a,
          );
          same = λ f. omega (
            arith,
            m.weights (of_users f) 0,
            weigh-append (job_weight (of_users f) 0) js (release this ∷ []),
            none_accepted (of_users f) a,
            ap (weigh f) m.log_kept,
          );
        },
      )
    where
      none_accepted :
          (w : Waiter → ℕ)
          → is_available (h.value i).state ≡ true
          → weigh w (if is_available (h.value i).state then [] else forwards this i ∷ []) ≡ 0
      none_accepted w a = rw a refl
  step_lem (release i) h inv k =
      let o = drop_ref-RefsOnly 1 i h in
      (
        ([], drop_ref 1 i h),
        refl,
        record {
          later = RefsOnly-Later h (drop_ref 1 i h) o;
          inv = RefsOnly-Inv h (drop_ref 1 i h) o inv;
          runs = tt;
          less = omega (arith, pending-RefsOnly twice h (drop_ref 1 i h) o);
          same = λ f.
              omega
                (arith, pending-RefsOnly (of_users f) h (drop_ref 1 i h) o, ap (weigh f) o.logs);
        },
      )

  -- What the waiters leave when all have run.
  pub record Ran (h : Store V E) (js : List Job) (h' : Store V E) : Type 0 where
    pub later : Later h h'
    pub inv : Inv h'
    pub same : (f : ℕ → ℕ) → census f [] h' ≡ census f js h
    pub falls : work [] h' ≤ work js h

  -- With as much fuel as there is work, RunWaiters comes to an end without a null pointer, leaves a
  -- well-formed store, and loses or doubles no callback.
  pub run_waiters-Ran :
      (fuel : ℕ) (js : List Job) (h : Store V E)
      → Inv h
      → Runs h js
      → work js h ≤ fuel
      → (h' : Store V E) × (run_waiters fuel js h ≡ some h') × Ran h js h'
  unfolding run_waiters
  run_waiters-Ran fuel [] h inv k enough =
      (h, refl, record { later = Later-refl h; inv = inv; same = λ f. refl; falls = omega arith })
  run_waiters-Ran zero (j ∷ js) h inv k enough = absurd (omega (arith, some_work j))
    where
      some_work : (j : Job) → 0 < job_weight twice 1 j
      some_work (notify x) = omega arith
      some_work (release i) = omega arith
  run_waiters-Ran (suc fuel) (j ∷ js) h inv k enough =
      let (r, e, s0) = step_lem j h inv (first j js k) in
      let s = beside h j js r s0 (others j js k) in
      let (h', e', n) = run_waiters-Ran fuel (r.0 ++ js) r.1 s.inv s.runs (omega (arith, s.less)) in
      (
        h',
        rw (e, run_waiters) e',
        record {
          later = Later-trans h r.1 h' s.later n.later;
          inv = n.inv;
          same = λ f. n.same f ∙ s.same f;
          falls = omega (arith, n.falls, s.less);
        },
      )
    where
      first : (j : Job) (js : List Job) → Runs h (j ∷ js) → Runs h (j ∷ [])
      first (notify (user n)) js k = tt
      first (notify (forwards this i)) js (a, b, c, d, k) = (a, b, c, d, tt)
      first (release i) js k = tt

      others : (j : Job) (js : List Job) → Runs h (j ∷ js) → Runs h js
      others (notify (user n)) js k = k
      others (notify (forwards this i)) js (a, b, c, d, k) = k
      others (release i) js k = k

  -- A call with the waiters that it wakes; `none` is a null pointer or fuel that ran out.
  unfoldable pub perform : ℕ → ℕ → Call V E → Store V E → Option (Store V E)
  perform fuel t c h = elim (call t c h) [ none ↦ none | some (js, h') ↦ run_waiters fuel js h' ]

  pub perform_ends :
      (fuel t : ℕ) (c : Call V E) (h : Store V E)
      → Inv h
      → Allowed c h
      → pending twice h + 2 ≤ fuel
      → (h' : Store V E) × (perform fuel t c h ≡ some h')
        × Later h h'
        × Inv h'
        × ((f : ℕ → ℕ) → census f [] h' ≡ census f [] h + weigh (of_users f) (accepted c h))
        × (pending twice h' ≤ pending twice h + 2)
  unfolding perform
  perform_ends fuel t c h inv a enough =
      let ((js, h1), e, m) = call-Moved t c h inv a in
      let (h', e', n) =
        run_waiters-Ran fuel js h1 m.inv m.runs (omega (arith, m.weights twice 1, accepts_one c)) in
      (
        h',
        rw (e, perform) e',
        Later-trans h h1 h' m.later n.later,
        n.inv,
        λ f. omega (arith, n.same f, m.weights (of_users f) 0, ap (weigh f) m.log_kept),
        omega (arith, n.falls, m.weights twice 1, accepts_one c),
      )
    where
      accepts_one : (c : Call V E) → weigh twice (accepted c h) ≤ 2
      accepts_one (forwards_to this i) = ground arith
      accepts_one (waits_for n i) = omega arith
      accepts_one (makes_unconstructed ty) = omega arith
      accepts_one (makes_constructed ty d) = omega arith
      accepts_one (makes_concrete ty d) = omega arith
      accepts_one (makes_error ty e) = omega arith
      accepts_one makes_indirect = omega arith
      accepts_one (sets_state_concrete i) = omega arith
      accepts_one (emplaces d i) = omega arith
      accepts_one (sets_error e i) = omega arith
      accepts_one (adds_ref n i) = omega arith
      accepts_one (drops_ref n i) = omega arith

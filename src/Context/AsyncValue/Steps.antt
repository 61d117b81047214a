-- ===== src/Context/AsyncValue/Steps.antt =====
-- The calls that clients make on a store, what they assert, and the jobs of the notifying thread.
use async_lib.Base.{
  ℕ, ◌<◌, ◌≡◌, refl, ap, sym, ◌∙◌, subst, arith, true, false, Option, some, List, [], ◌∷◌,
  if◌then◌else◌, ℕ_discrete,
}
use async_lib.Base.Family.{update, update_self, update_ne}
use async_lib.Base.Sums.{weigh}
use async_lib.Context.AsyncValue.Weigh.{pending-RefsOnly, pending-allocate}
use async_lib.Context.AsyncValue.{
  Kind, concrete_value, indirect_value, StateEnum, unconstructed, constructed, concrete, error,
  is_available, Waiter, user, forwards, Job, Payload, nothing, holds, fails, AsyncValue, Store,
  set_value, add_ref, drop_ref, notify_available, and_then, forward_to, construct, allocate,
  set_error, set_error_as, emplace, set_state_concrete,
}
use async_lib.Context.AsyncValue.Inv.{Good, Inv, Fits, Later, Later-trans, Later-Good}
use async_lib.Context.AsyncValue.Refs.{
  RefsOnly, RefsOnly-Inv, RefsOnly-Later, add_ref-RefsOnly, drop_ref-RefsOnly,
}
use async_lib.Context.AsyncValue.Moves.{
  Moved, Settles, notify_available-Moved, notify-set_value-Moved, and_then-Moved,
}
use async_lib.Context.AsyncValue.Forward.{forward_to-Moved}

-- The calls. A value is made unconstructed, constructed, concrete, with an error, or indirect.
pub data Call (V E : Type 0) : Type 0 where
  makes_unconstructed : ℕ → Call V E
  makes_constructed makes_concrete : ℕ → V → Call V E
  makes_error : ℕ → E → Call V E
  makes_indirect : Call V E
  waits_for : ℕ → ℕ → Call V E
  sets_state_concrete : ℕ → Call V E
  emplaces : V → ℕ → Call V E
  sets_error : E → ℕ → Call V E
  forwards_to : ℕ → ℕ → Call V E
  adds_ref drops_ref : ℕ → ℕ → Call V E

module _ {V E : Type 0} where
  abbrev made : AsyncValue V E → Store V E → Option (List Job × Store V E)
  made v h = some ([], allocate v h)

  -- A call with the jobs that it leaves; `error_type` is the type number of error values.
  unfoldable pub call : ℕ → Call V E → Store V E → Option (List Job × Store V E)
  call error_type (makes_unconstructed t) h =
      made (construct concrete_value t unconstructed nothing) h
  call error_type (makes_constructed t d) h =
      made (construct concrete_value t constructed (holds d)) h
  call error_type (makes_concrete t d) h = made (construct concrete_value t concrete (holds d)) h
  call error_type (makes_error t e) h = made (construct concrete_value t error (fails e)) h
  call error_type makes_indirect h = made (construct indirect_value 0 unconstructed nothing) h
  call error_type (waits_for n i) h = some (and_then (user n) i h)
  call error_type (sets_state_concrete i) h = some (set_state_concrete i h)
  call error_type (emplaces d i) h = some (emplace d i h)
  call error_type (sets_error e i) h = set_error error_type e i h
  call error_type (forwards_to this i) h = forward_to this i h
  call error_type (adds_ref count i) h = some ([], add_ref count i h)
  call error_type (drops_ref count i) h = some ([], drop_ref count i h)

  -- What the source asserts of a call, of values that exist.
  abbrev pub Allowed : Call V E → Store V E → Type 0
  Allowed (makes_unconstructed t) h = Unit {0}
  Allowed (makes_constructed t d) h = Unit {0}
  Allowed (makes_concrete t d) h = Unit {0}
  Allowed (makes_error t e) h = Unit {0}
  Allowed makes_indirect h = Unit {0}
  Allowed (waits_for n i) h = i < h.allocated
  Allowed (sets_state_concrete i) h =
      (i < h.allocated) × ((h.value i).kind ≡ concrete_value) × ((h.value i).state ≡ constructed)
  Allowed (emplaces d i) h =
      (i < h.allocated) × ((h.value i).kind ≡ concrete_value) × ((h.value i).state ≡ unconstructed)
  Allowed (sets_error e i) h = (i < h.allocated) × (is_available (h.value i).state ≡ false)
  Allowed (forwards_to this i) h =
      (this < h.allocated)
      × ((h.value this).kind ≡ indirect_value)
      × (i < h.allocated)
      × (is_available (h.value this).state ≡ false)
  Allowed (adds_ref count i) h = i < h.allocated
  Allowed (drops_ref count i) h = i < h.allocated

  -- The waiters that a call adds.
  abbrev pub accepted : Call V E → Store V E → List Waiter
  accepted (waits_for n i) h = user n ∷ []
  accepted (forwards_to this i) h =
      if is_available (h.value i).state then [] else forwards this i ∷ []
  accepted _ h = []

  allocate-Later : (v : AsyncValue V E) (h : Store V E) → Later h (allocate v h)
  allocate-Later v h = record {
    bound = omega arith;
    kinds = λ i lt. ground (arith, update_ne h.value h.allocated v i);
    available = λ i lt a. ground (arith, update_ne h.value h.allocated v i);
    settled = λ i lt k a. ground (arith, update_ne h.value h.allocated v i);
  }

  allocate-Inv :
      (v : AsyncValue V E) (h : Store V E) → Inv h → Good h h.allocated v → Inv (allocate v h)
  allocate-Inv v h inv g =
      let l = allocate-Later v h in
      let h' = allocate v h in
      record {
        good = λ i lt. elim (ℕ_discrete h.allocated i) [
          | yes e ↦
              subst (λ i. Good h' i (update h.value h.allocated v i)) e
                (subst (Good h' h.allocated) (sym (update_self h.value h.allocated v))
                  (Later-Good h h' l h.allocated v g))
          | no ne ↦
              subst (Good h' i) (sym (update_ne h.value h.allocated v i ne))
                (Later-Good h h' l i (h.value i) (inv.good i (omega arith)))
        ];
        fresh = λ i le.
            ap (λ x. x.waiters) (update_ne h.value h.allocated v i (omega arith))
            ∙ inv.fresh i (omega arith);
      }

  allocate-Moved :
      (v : AsyncValue V E) (h : Store V E)
      → Inv h
      → Good h h.allocated v
      → v.waiters ≡ []
      → Moved h [] ([], allocate v h)
  allocate-Moved v h inv g empty = record {
    later = allocate-Later v h;
    inv = allocate-Inv v h inv g;
    runs = tt;
    log_kept = refl;
    weights = λ w n. omega (arith, pending-allocate w h v, ap (weigh w) empty);
  }

  concrete-Good :
      (h : Store V E) (i t : ℕ) (s : StateEnum) (p : Payload V E)
      → Fits s p
      → Good h i (construct concrete_value t s p)
  concrete-Good h i t s p f = record {
    quiet = λ _. refl;
    waiting = tt;
    fits = λ _. f;
    resolved = λ k. absurd (ground arith);
    unresolved = λ k. absurd (ground arith);
  }

  indirect-Good :
      (h : Store V E) (i : ℕ) → Good h i (construct indirect_value 0 unconstructed nothing)
  indirect-Good h i = record {
    quiet = λ _. refl;
    waiting = tt;
    fits = λ k. absurd (ground arith);
    resolved = λ k a. absurd (ground arith);
    unresolved = λ k a. refl;
  }

  RefsOnly-Moved-nil : (h h' : Store V E) → RefsOnly h h' → Inv h → Moved h [] ([], h')
  RefsOnly-Moved-nil h h' o inv = record {
    later = RefsOnly-Later h h' o;
    inv = RefsOnly-Inv h h' o inv;
    runs = tt;
    log_kept = o.logs;
    weights = λ w n. omega (arith, pending-RefsOnly w h h' o);
  }

  -- A concrete value that is not available may become so.
  concrete-Settles :
      (h : Store V E) (i : ℕ) (s : StateEnum) (p : Payload V E)
      → i < h.allocated
      → (h.value i).kind ≡ concrete_value
      → is_available (h.value i).state ≡ false
      → is_available s ≡ true
      → Fits s p
      → Settles h i s (record (h.value i) { payload = p })
  concrete-Settles h i s p lt k un a f = record {
    inside = lt;
    available = a;
    kind_kept = refl;
    waiters_kept = refl;
    fits = λ _. f;
    kept = λ _ av. absurd (ground arith);
    resolved = λ ind. absurd (ground arith);
  }

  set_error-Moved :
      (t : ℕ) (e : E) (i : ℕ) (h : Store V E)
      → Inv h
      → Allowed (sets_error e i) h
      → (r : List Job × Store V E) × (set_error t e i h ≡ some r) × Moved h [] r
  unfolding set_error
  set_error-Moved t e i h inv (lt, un) = by_kind (h.value i).kind refl
    where
      by_kind :
          (k : Kind)
          → (h.value i).kind ≡ k
          → (r : List Job × Store V E) × (set_error t e i h ≡ some r) × Moved h [] r
      by_kind concrete_value k = (
        notify_available error i (set_value i (record (h.value i) { payload = fails e }) h),
        ap (λ x. set_error_as x t e i h) k,
        notify-set_value-Moved error i (record (h.value i) { payload = fails e }) h inv
            (concrete-Settles h i error (fails e) lt k un refl (e, refl)),
      )
      by_kind indirect_value k =
          let v = construct concrete_value t error (fails e) in
          let h' = allocate v h in
          let l = allocate-Later v h in
          let (r, eq, m0) =
            forward_to-Moved i h.allocated h'
              (allocate-Inv v h inv (concrete-Good h h.allocated t error (fails e) (e, refl)))
              (omega arith) (l.kinds i lt ∙ k) (omega arith) in
          let m : Moved h' [] r =
            subst
              (λ x. Moved h' (if is_available x.state then [] else forwards i h.allocated ∷ []) r)
              (update_self h.value h.allocated v) m0 in
          (
            r,
            ap (λ x. set_error_as x t e i h) k ∙ eq,
            record {
              later = Later-trans h h' r.1 l m.later;
              inv = m.inv;
              runs = m.runs;
              log_kept = m.log_kept;
              weights = λ w n. omega (arith, m.weights w n, pending-allocate w h v);
            },
          )

  -- Every call that the source allows comes to an end, without a null pointer, and leaves a
  -- well-formed store, in which what was available is still available.
  pub call-Moved :
      (t : ℕ) (c : Call V E) (h : Store V E)
      → Inv h
      → Allowed c h
      → (r : List Job × Store V E) × (call t c h ≡ some r) × Moved h (accepted c h) r
  unfolding call set_state_concrete emplace
  call-Moved t (makes_unconstructed ty) h inv a = (
    _,
    refl,
    allocate-Moved _ h inv (concrete-Good h h.allocated ty unconstructed nothing tt) refl,
  )
  call-Moved t (makes_constructed ty d) h inv a = (
    _,
    refl,
    allocate-Moved _ h inv (concrete-Good h h.allocated ty constructed (holds d) (d, refl)) refl,
  )
  call-Moved t (makes_concrete ty d) h inv a = (
    _,
    refl,
    allocate-Moved _ h inv (concrete-Good h h.allocated ty concrete (holds d) (d, refl)) refl,
  )
  call-Moved t (makes_error ty e) h inv a = (
    _,
    refl,
    allocate-Moved _ h inv (concrete-Good h h.allocated ty error (fails e) (e, refl)) refl,
  )
  call-Moved t makes_indirect h inv a =
      (_, refl, allocate-Moved _ h inv (indirect-Good h h.allocated) refl)
  call-Moved t (waits_for n i) h inv a = (_, refl, and_then-Moved (user n) i h inv a tt)
  call-Moved t (sets_state_concrete i) h inv (lt, k, s) = (
    _,
    refl,
    notify_available-Moved concrete i h inv (
        concrete-Settles h i concrete (h.value i).payload lt k (rw s refl) refl
          (subst (λ s. Fits s (h.value i).payload) s ((inv.good i lt).fits k))),
  )
  call-Moved t (emplaces d i) h inv (lt, k, s) = (
    _,
    refl,
    notify-set_value-Moved concrete i (record (h.value i) { payload = holds d }) h inv
        (concrete-Settles h i concrete (holds d) lt k (rw s refl) refl (d, refl)),
  )
  call-Moved t (sets_error e i) h inv a = set_error-Moved t e i h inv a
  call-Moved t (forwards_to this i) h inv (lt, k, b, un) = forward_to-Moved this i h inv lt k b
  call-Moved t (adds_ref count i) h inv a =
      (_, refl, RefsOnly-Moved-nil h _ (add_ref-RefsOnly count i h) inv)
  call-Moved t (drops_ref count i) h inv a =
      (_, refl, RefsOnly-Moved-nil h _ (drop_ref-RefsOnly count i h) inv)

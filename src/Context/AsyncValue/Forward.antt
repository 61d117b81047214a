-- ===== src/Context/AsyncValue/Forward.antt =====
-- ForwardTo of async_value.h, on a well-formed store.
use async_lib.Base.{
  ℕ, ◌<◌, ◌≡◌, refl, ap, ap₂, ◌∙◌, arith, true, false, some, List, [], ◌∷◌, Bool-cases, inl, inr,
  if◌then◌else◌,
}
use async_lib.Context.AsyncValue.Weigh.{pending-RefsOnly}
use async_lib.Context.AsyncValue.{
  Kind, concrete_value, indirect_value, is_available, Waiter, forwards, Job, Store, set_value,
  add_ref, drop_ref, notify_available, and_then, resolve, resolve_as, forward_to,
}
use async_lib.Context.AsyncValue.Inv.{Inv, Later-trans}
use async_lib.Context.AsyncValue.Refs.{
  RefsOnly, RefsOnly-Inv, RefsOnly-Later, RefsOnly-trans, RefsOnly-refl, add_ref-RefsOnly,
  drop_ref-RefsOnly,
}
use async_lib.Context.AsyncValue.Moves.{Moved, notify-set_value-Moved, and_then-Moved}

module _ {V E : Type 0} where
  -- A value that is available reads through to a concrete one in the same state.
  resolve_lem :
      (i : ℕ) (h : Store V E)
      → Inv h
      → i < h.allocated
      → is_available (h.value i).state ≡ true
      → (j : ℕ) × (h' : Store V E) × (resolve i h ≡ some (j, h'))
        × RefsOnly h h'
        × (j < h.allocated)
        × ((h.value j).kind ≡ concrete_value)
        × ((h.value j).state ≡ (h.value i).state)
  unfolding resolve
  resolve_lem i h inv lt a = by_kind (h.value i).kind refl
    where
      by_kind :
          (k : Kind)
          → (h.value i).kind ≡ k
          → (j : ℕ) × (h' : Store V E) × (resolve i h ≡ some (j, h'))
            × RefsOnly h h'
            × (j < h.allocated)
            × ((h.value j).kind ≡ concrete_value)
            × ((h.value j).state ≡ (h.value i).state)
      by_kind concrete_value k =
          (i, h, ap (λ x. resolve_as x (h.value i).target i h) k, RefsOnly-refl h, lt, k, refl)
      by_kind indirect_value k =
          let (j, e, b, kj, s) = (inv.good i lt).resolved k a in
          let h1 = add_ref 1 j h in
          let h2 = drop_ref 1 i h1 in
          (
            j,
            h2,
            ap₂ (λ x t. resolve_as x t i h) k e,
            RefsOnly-trans h h1 h2 (add_ref-RefsOnly 1 j h) (drop_ref-RefsOnly 1 i h1),
            b,
            kj,
            s,
          )

  pub RefsOnly-Moved :
      (h h' : Store V E) (x : List Waiter) (r : List Job × Store V E)
      → RefsOnly h h'
      → Moved h' x r
      → Moved h x r
  RefsOnly-Moved h h' x r o m = record {
    later = Later-trans h h' r.1 (RefsOnly-Later h h' o) m.later;
    inv = m.inv;
    runs = m.runs;
    log_kept = m.log_kept ∙ o.logs;
    weights = λ f n. omega (arith, m.weights f n, pending-RefsOnly f h h' o);
  }

  pub forward_to-Moved :
      (this i : ℕ) (h : Store V E)
      → Inv h
      → this < h.allocated
      → (h.value this).kind ≡ indirect_value
      → i < h.allocated
      → (r : List Job × Store V E) × (forward_to this i h ≡ some r)
        × Moved h (if is_available (h.value i).state then [] else forwards this i ∷ []) r
  unfolding forward_to
  forward_to-Moved this i h inv lt k b = elim (Bool-cases (is_available (h.value i).state)) [
    | inl a ↦
        let (j, h', e, o, bj, kj, s) = resolve_lem i h inv b a in
        let u = record (h'.value this) { target = some j; type_id = (h'.value j).type_id } in
        let s0 = (h.value i).state in
        (
          notify_available s0 this (set_value this u h'),
          rw (a, e) refl,
          accepts a (
              RefsOnly-Moved h h' [] _ o (
                notify-set_value-Moved s0 this u h' (RefsOnly-Inv h h' o inv) (record {
                  inside = omega (arith, o.bounds);
                  available = a;
                  kind_kept = refl;
                  waiters_kept = refl;
                  fits = λ c. absurd (ground (arith, ap (λ v. v.kind) (o.values this)));
                  kept = λ c. absurd (ground (arith, ap (λ v. v.kind) (o.values this)));
                  resolved = λ _. (
                    j,
                    refl,
                    omega (arith, o.bounds),
                    ap (λ v. v.kind) (o.values j) ∙ kj,
                    ap (λ v. v.state) (o.values j) ∙ s,
                  );
                }))),
        )
    | inr un ↦
        let h' = add_ref 1 this h in
        let o = add_ref-RefsOnly 1 this h in
        (
          and_then (forwards this i) i h',
          rw un refl,
          accepts_not un (
              RefsOnly-Moved h h' (forwards this i ∷ []) _ o (
                and_then-Moved (forwards this i) i h' (RefsOnly-Inv h h' o inv)
                  (omega (arith, o.bounds))
                  (refl, omega (arith, o.bounds), ap (λ v. v.kind) (o.values this) ∙ k, tt))),
        )
  ]
    where
      accepts :
          {r : List Job × Store V E}
          → is_available (h.value i).state ≡ true
          → Moved h [] r
          → Moved h (if is_available (h.value i).state then [] else forwards this i ∷ []) r
      accepts a m = rw a m

      accepts_not :
          {r : List Job × Store V E}
          → is_available (h.value i).state ≡ false
          → Moved h (forwards this i ∷ []) r
          → Moved h (if is_available (h.value i).state then [] else forwards this i ∷ []) r
      accepts_not a m = rw a m

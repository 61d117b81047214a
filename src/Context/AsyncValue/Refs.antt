-- ===== src/Context/AsyncValue/Refs.antt =====
-- AddRef and DropRef of async_value.h, and the rest of a store.
use async_lib.Base.{
  ℕ, ◌≡◌, refl, ap, sym, ◌∙◌, subst, arith, true, Option, none, some, ℕ_discrete, Bool-cases, inl,
  inr, ◌==◌,
}
use async_lib.Base.Family.{update, update_self, update_ne}
use async_lib.Context.AsyncValue.{
  Kind, concrete_value, indirect_value, is_available, AsyncValue, Store, set_value, add_ref, free,
  drop_with, destroy, drop_ref,
}
use async_lib.Context.AsyncValue.Inv.{Good, Inv, Later, Later-Good}

module _ {V E : Type 0} where
  -- A value but for its references.
  abbrev pub strip : AsyncValue V E → AsyncValue V E
  strip v = record v { ref_count = 0; live = true }

  -- Two stores that differ in references only.
  pub record RefsOnly (h h' : Store V E) : Type 0 where
    pub values : (i : ℕ) → strip (h'.value i) ≡ strip (h.value i)
    pub bounds : h'.allocated ≡ h.allocated
    pub logs : h'.log ≡ h.log

  pub RefsOnly-refl : (h : Store V E) → RefsOnly h h
  RefsOnly-refl h = record { values = λ i. refl; bounds = refl; logs = refl }

  pub RefsOnly-trans : (h h' h'' : Store V E) → RefsOnly h h' → RefsOnly h' h'' → RefsOnly h h''
  RefsOnly-trans h h' h'' a b = record {
    values = λ i. b.values i ∙ a.values i;
    bounds = b.bounds ∙ a.bounds;
    logs = b.logs ∙ a.logs;
  }

  pub RefsOnly-Later : (h h' : Store V E) → RefsOnly h h' → Later h h'
  RefsOnly-Later h h' r = record {
    bound = omega (arith, r.bounds);
    kinds = λ i lt. ap (λ v. v.kind) (r.values i);
    available = λ i lt a. ap (λ v. is_available v.state) (r.values i) ∙ a;
    settled = λ i lt k a. ap (λ v. v.state) (r.values i);
  }

  strip-Good :
      (h : Store V E) (i : ℕ) (v v' : AsyncValue V E)
      → strip v' ≡ strip v
      → Good h i v
      → Good h i v'
  strip-Good h i v v' e g =
      let s : Good h i (strip v) = record {
        quiet = g.quiet;
        waiting = g.waiting;
        fits = g.fits;
        resolved = g.resolved;
        unresolved = g.unresolved;
      } in
      let s' : Good h i (strip v') = subst (Good h i) (sym e) s in
      record {
        quiet = s'.quiet;
        waiting = s'.waiting;
        fits = s'.fits;
        resolved = s'.resolved;
        unresolved = s'.unresolved;
      }

  pub RefsOnly-Inv : (h h' : Store V E) → RefsOnly h h' → Inv h → Inv h'
  RefsOnly-Inv h h' r inv = record {
    good = λ i lt. strip-Good h' i (h.value i) (h'.value i) (r.values i) (
        Later-Good h h' (RefsOnly-Later h h' r) i (h.value i)
          (inv.good i (omega (arith, r.bounds))));
    fresh = λ i le. ap (λ v. v.waiters) (r.values i) ∙ inv.fresh i (omega (arith, r.bounds));
  }

  set_value-RefsOnly :
      (h : Store V E) (i : ℕ) (v : AsyncValue V E)
      → strip v ≡ strip (h.value i)
      → RefsOnly h (set_value i v h)
  set_value-RefsOnly h i v e = record {
    values = λ j. elim (ℕ_discrete i j) [
      | yes s ↦
          subst (λ j. strip (update h.value i v j) ≡ strip (h.value j)) s
            (ap strip (update_self h.value i v) ∙ e)
      | no ne ↦ ap strip (update_ne h.value i v j ne)
    ];
    bounds = refl;
    logs = refl;
  }

  pub add_ref-RefsOnly : (count i : ℕ) (h : Store V E) → RefsOnly h (add_ref count i h)
  unfolding add_ref
  add_ref-RefsOnly count i h = elim (Bool-cases (count == 0)) [
    | inl z ↦ rw z (RefsOnly-refl h)
    | inr s ↦ rw s (set_value-RefsOnly h i _ refl)
  ]

  free-RefsOnly : (i : ℕ) (h : Store V E) → RefsOnly h (free i h)
  free-RefsOnly i h = set_value-RefsOnly h i _ refl

  drop_with-RefsOnly :
      (f : ℕ → Store V E → Store V E) (count i : ℕ) (h : Store V E)
      → ((i : ℕ) (h : Store V E) → RefsOnly h (f i h))
      → RefsOnly h (drop_with f count i h)
  drop_with-RefsOnly f count i h k = elim (Bool-cases ((h.value i).ref_count == count)) [
    | inl last ↦ rw (last, drop_with) (k i h)
    | inr more ↦ rw (more, drop_with) (set_value-RefsOnly h i _ refl)
  ]

  destroy-RefsOnly : (i : ℕ) (h : Store V E) → RefsOnly h (destroy i h)
  destroy-RefsOnly i h = by_kind (h.value i).kind refl (h.value i).target refl
    where
      by_kind :
          (k : Kind)
          → (h.value i).kind ≡ k
          → (t : Option ℕ) → (h.value i).target ≡ t
          → RefsOnly h (destroy i h)
      by_kind concrete_value k t e = rw (k, destroy) (free-RefsOnly i h)
      by_kind indirect_value k none e = rw (k, e, destroy) (free-RefsOnly i h)
      by_kind indirect_value k (some j) e =
          let d = drop_with free 1 j h in
          rw (k, e, destroy)
            (RefsOnly-trans h d (free i d) (drop_with-RefsOnly free 1 j h free-RefsOnly)
              (free-RefsOnly i d))

  pub drop_ref-RefsOnly : (count i : ℕ) (h : Store V E) → RefsOnly h (drop_ref count i h)
  unfolding drop_ref
  drop_ref-RefsOnly count i h = drop_with-RefsOnly destroy count i h destroy-RefsOnly

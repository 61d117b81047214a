-- ===== src/Context/AsyncValue/Inv.antt =====
-- The well-formedness of a store of asynchronous values and of the jobs on the notifying thread.
use async_lib.Base.{
  ℕ, ◌≤◌, ◌<◌, ◌≡◌, refl, ap, sym, ◌∙◌, subst, arith, true, false, none, some, List, [], ◌∷◌,
  ℕ_discrete,
}
use async_lib.Base.Family.{update, update_self, update_ne}
use async_lib.Context.AsyncValue.{
  concrete_value, indirect_value, StateEnum, unconstructed, constructed, concrete, error,
  is_available, Waiter, user, forwards, Job, notify, release, Payload, holds, fails, AsyncValue,
  Store, set_value,
}

-- What the union holds in each state of a concrete value.
abbrev pub Fits : {V E : Type 0} → StateEnum → Payload V E → Type 0
Fits {V} {E} unconstructed p = Unit {0}
Fits {V} {E} constructed p = (d : V) × (p ≡ holds d)
Fits {V} {E} concrete p = (d : V) × (p ≡ holds d)
Fits {V} {E} error p = (e : E) × (p ≡ fails e)

module _ {V E : Type 0} where
  module _ (h : Store V E) where
    -- The waiters of value `i`: a forwarding closure waits for the value that it is to forward to.
    abbrev pub Waits : ℕ → List Waiter → Type 0
    Waits i [] = Unit {0}
    Waits i (user n ∷ ws) = Waits i ws
    Waits i (forwards this j ∷ ws) =
        (j ≡ i) × (this < h.allocated) × ((h.value this).kind ≡ indirect_value) × Waits i ws

    -- The jobs: a forwarding closure runs once its value is available.
    abbrev pub Runs : List Job → Type 0
    Runs [] = Unit {0}
    Runs (notify (user n) ∷ js) = Runs js
    Runs (notify (forwards this j) ∷ js) =
        (this < h.allocated)
        × ((h.value this).kind ≡ indirect_value)
        × (j < h.allocated)
        × (is_available (h.value j).state ≡ true)
        × Runs js
    Runs (release i ∷ js) = Runs js

    -- A value `v` that may stand at `i`.
    pub record Good (i : ℕ) (v : AsyncValue V E) : Type 0 where
      pub quiet : is_available v.state ≡ true → v.waiters ≡ []
      pub waiting : Waits i v.waiters
      pub fits : v.kind ≡ concrete_value → Fits v.state v.payload
      -- An indirect value is available exactly when it forwards to a concrete one in its state.
      pub resolved :
          v.kind ≡ indirect_value
          → is_available v.state ≡ true
          → (j : ℕ) × (v.target ≡ some j)
            × (j < h.allocated)
            × ((h.value j).kind ≡ concrete_value)
            × ((h.value j).state ≡ v.state)
      pub unresolved : v.kind ≡ indirect_value → is_available v.state ≡ false → v.target ≡ none

  pub record Inv (h : Store V E) : Type 0 where
    pub good : (i : ℕ) → i < h.allocated → Good h i (h.value i)
    -- No waiter outside the store.
    pub fresh : (i : ℕ) → h.allocated ≤ i → (h.value i).waiters ≡ []

  -- What time does not take back.
  pub record Later (h h' : Store V E) : Type 0 where
    pub bound : h.allocated ≤ h'.allocated
    pub kinds : (i : ℕ) → i < h.allocated → (h'.value i).kind ≡ (h.value i).kind
    pub available :
        (i : ℕ)
        → i < h.allocated
        → is_available (h.value i).state ≡ true
        → is_available (h'.value i).state ≡ true
    pub settled :
        (i : ℕ)
        → i < h.allocated
        → (h.value i).kind ≡ concrete_value
        → is_available (h.value i).state ≡ true
        → (h'.value i).state ≡ (h.value i).state

  pub Later-refl : (h : Store V E) → Later h h
  Later-refl h = record {
    bound = omega arith;
    kinds = λ i lt. refl;
    available = λ i lt a. a;
    settled = λ i lt k a. refl;
  }

  pub Later-trans : (h h' h'' : Store V E) → Later h h' → Later h' h'' → Later h h''
  Later-trans h h' h'' a b = record {
    bound = omega (arith, a.bound, b.bound);
    kinds = λ i lt. b.kinds i (omega (arith, a.bound)) ∙ a.kinds i lt;
    available = λ i lt v. b.available i (omega (arith, a.bound)) (a.available i lt v);
    settled = λ i lt k v.
        b.settled i (omega (arith, a.bound)) (a.kinds i lt ∙ k) (a.available i lt v)
        ∙ a.settled i lt k v;
  }

  pub Later-Waits :
      (h h' : Store V E) → Later h h' → (i : ℕ) (ws : List Waiter) → Waits h i ws → Waits h' i ws
  Later-Waits h h' l i [] w = w
  Later-Waits h h' l i (user n ∷ ws) w = Later-Waits h h' l i ws w
  Later-Waits h h' l i (forwards this j ∷ ws) (e, lt, k, w) =
      (e, omega (arith, l.bound), l.kinds this lt ∙ k, Later-Waits h h' l i ws w)

  pub Later-Runs : (h h' : Store V E) → Later h h' → (js : List Job) → Runs h js → Runs h' js
  Later-Runs h h' l [] r = r
  Later-Runs h h' l (notify (user n) ∷ js) r = Later-Runs h h' l js r
  Later-Runs h h' l (notify (forwards this j) ∷ js) (lt, k, lt', a, r) = (
    omega (arith, l.bound),
    l.kinds this lt ∙ k,
    omega (arith, l.bound),
    l.available j lt' a,
    Later-Runs h h' l js r,
  )
  Later-Runs h h' l (release i ∷ js) r = Later-Runs h h' l js r

  pub Later-Good :
      (h h' : Store V E) → Later h h' → (i : ℕ) (v : AsyncValue V E) → Good h i v → Good h' i v
  Later-Good h h' l i v g = record {
    quiet = g.quiet;
    waiting = Later-Waits h h' l i v.waiters g.waiting;
    fits = g.fits;
    resolved = λ k a.
        let (j, e, lt, kj, s) = g.resolved k a in
        (
          j,
          e,
          omega (arith, l.bound),
          l.kinds j lt ∙ kj,
          l.settled j lt kj (ap is_available s ∙ a) ∙ s,
        );
    unresolved = g.unresolved;
  }

  -- A change of one value that keeps what time does not take back.
  pub record Moves (h : Store V E) (i : ℕ) (v : AsyncValue V E) : Type 0 where
    pub inside : i < h.allocated
    pub kind_kept : v.kind ≡ (h.value i).kind
    pub available_kept : is_available (h.value i).state ≡ true → is_available v.state ≡ true
    pub settled_kept :
        (h.value i).kind ≡ concrete_value
        → is_available (h.value i).state ≡ true
        → v.state ≡ (h.value i).state

  pub set_value-Later :
      (h : Store V E) (i : ℕ) (v : AsyncValue V E) → Moves h i v → Later h (set_value i v h)
  set_value-Later h i v m = record {
    bound = omega arith;
    kinds = λ j lt. elim (ℕ_discrete i j) [
      | yes e ↦
          subst (λ j. (update h.value i v j).kind ≡ (h.value j).kind) e
            (ap (λ x. x.kind) (update_self h.value i v) ∙ m.kind_kept)
      | no ne ↦ ap (λ x. x.kind) (update_ne h.value i v j ne)
    ];
    available = λ j lt a. elim (ℕ_discrete i j) [
      | yes e ↦ ground (arith, m.available_kept)
      | no ne ↦ ground (arith, update_ne h.value i v j ne)
    ];
    settled = λ j lt k a. elim (ℕ_discrete i j) [
      | yes e ↦ ground (arith, m.settled_kept)
      | no ne ↦ ground (arith, update_ne h.value i v j ne)
    ];
  }

  pub set_value-Inv :
      (h : Store V E) (i : ℕ) (v : AsyncValue V E)
      → Inv h
      → Moves h i v
      → Good h i v
      → Inv (set_value i v h)
  set_value-Inv h i v inv m g =
      let l = set_value-Later h i v m in
      let h' = set_value i v h in
      record {
        good = λ j lt. elim (ℕ_discrete i j) [
          | yes e ↦
              subst (λ j. Good h' j (update h.value i v j)) e
                (subst (Good h' i) (sym (update_self h.value i v)) (Later-Good h h' l i v g))
          | no ne ↦
              subst (Good h' j) (sym (update_ne h.value i v j ne))
                (Later-Good h h' l j (h.value j) (inv.good j lt))
        ];
        fresh = λ j le.
            ap (λ x. x.waiters) (update_ne h.value i v j (λ e. ground (arith, m.inside)))
            ∙ inv.fresh j le;
      }

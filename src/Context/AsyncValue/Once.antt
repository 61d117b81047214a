-- ===== src/Context/AsyncValue/Once.antt =====
-- Whole runs of calls on a store of asynchronous values: the callbacks and the readers.
use async_lib.Base.{
  false, Bool, not, ◌||◌, if◌then◌else◌, ℕ, ◌+◌, ◌*◌, ◌≤◌, ◌<◌, ◌≡◌, ◌≢◌, refl, ap, ap₂, sym, ◌∙◌,
  subst, arith, true, Option, none, some, List, [], ◌∷◌, length, Bool-cases, inl, inr,
}
use async_lib.Base.Sums.{weigh, total, total_same}
use async_lib.Context.AsyncValue.{
  Kind, concrete_value, indirect_value, StateEnum, unconstructed, constructed, concrete, error,
  is_available, is_error, is_concrete, nothing, holds, Waiter, AsyncValue, Store, construct, get,
  get_as, error_as, get_error_if_present, error_of, get_concrete,
}
use async_lib.Context.AsyncValue.Inv.{Inv, Fits}
use async_lib.Context.AsyncValue.Weigh.{pending}
use async_lib.Context.AsyncValue.Steps.{
  Call, waits_for, forwards_to, makes_unconstructed, makes_constructed, makes_concrete, makes_error,
  makes_indirect, sets_state_concrete, emplaces, sets_error, adds_ref, drops_ref, Allowed, accepted,
}
use async_lib.Context.AsyncValue.Run.{of_users, twice, census, perform, perform_ends}

abbrev pub is_some {ℓ} : {A : Type ℓ} → Option A → Bool
is_some none = false
is_some (some x) = true

-- No values yet.
abbrev pub no_values : {V E : Type 0} → Store V E
no_values = record {
  value = λ i. construct concrete_value 0 unconstructed nothing;
  allocated = 0;
  log = [];
}

pub no_values-Inv : {V E : Type 0} → Inv (no_values {V = V} {E = E})
no_values-Inv = record { good = λ i lt. absurd (omega arith); fresh = λ i le. refl }

module _ {V E : Type 0} (fuel t : ℕ) where
  unfoldable pub perform_all : List (Call V E) → Store V E → Option (Store V E)
  perform_all [] h = some h
  perform_all (c ∷ cs) h = elim (perform fuel t c h) [ none ↦ none | some h' ↦ perform_all cs h' ]

  abbrev pub AndThen : Option (Store V E) → (Store V E → Type 0) → Type 0
  AndThen none p = Unit {0}
  AndThen (some h) p = p h

  -- Each call is allowed where its turn comes.
  abbrev pub AllAllowed : List (Call V E) → Store V E → Type 0
  AllAllowed [] h = Unit {0}
  AllAllowed (c ∷ cs) h = Allowed c h × AndThen (perform fuel t c h) (AllAllowed cs)

  -- The callbacks that the calls register, weighed by `f`.
  abbrev pub registers : (ℕ → ℕ) → Call V E → ℕ
  registers f (waits_for n i) = f n
  registers f _ = 0

  abbrev pub registered : (ℕ → ℕ) → List (Call V E) → ℕ
  registered f cs = weigh (registers f) cs

  accepted-registers :
      (f : ℕ → ℕ) (c : Call V E) (h : Store V E) → weigh (of_users f) (accepted c h) ≡ registers f c
  accepted-registers f (waits_for n i) h = omega arith
  accepted-registers f (forwards_to this i) h = ground arith
  accepted-registers f (makes_unconstructed ty) h = refl
  accepted-registers f (makes_constructed ty d) h = refl
  accepted-registers f (makes_concrete ty d) h = refl
  accepted-registers f (makes_error ty e) h = refl
  accepted-registers f makes_indirect h = refl
  accepted-registers f (sets_state_concrete i) h = refl
  accepted-registers f (emplaces d i) h = refl
  accepted-registers f (sets_error e i) h = refl
  accepted-registers f (adds_ref n i) h = refl
  accepted-registers f (drops_ref n i) h = refl

  -- Allowed calls all come to an end.
  perform_all_ends :
      (cs : List (Call V E)) (h : Store V E)
      → Inv h
      → AllAllowed cs h
      → pending twice h + 2 * length cs + 2 ≤ fuel
      → (h' : Store V E) × (perform_all cs h ≡ some h')
        × Inv h'
        × ((f : ℕ → ℕ) → census f [] h' ≡ census f [] h + registered f cs)
  unfolding perform_all
  perform_all_ends [] h inv a enough = (h, refl, inv, λ f. omega arith)
  perform_all_ends (c ∷ cs) h inv (a, next) enough =
      let (h1, e, l, inv1, same, falls) = perform_ends fuel t c h inv a (omega arith) in
      let (h2, e2, inv2, same2) =
        perform_all_ends cs h1 inv1 (subst (λ o. AndThen o (AllAllowed cs)) e next) (omega arith) in
      (
        h2,
        rw (e, perform_all) e2,
        inv2,
        λ f. omega (arith, same f, same2 f, accepted-registers f c h),
      )

  -- The callbacks that wait for values that are not available, weighed by `w`.
  abbrev pub unavailable_pending : (Waiter → ℕ) → Store V E → ℕ
  unavailable_pending w h =
      total h.allocated
        (λ i. if is_available (h.value i).state then 0 else weigh w (h.value i).waiters)

  pending-unavailable_pending :
      (w : Waiter → ℕ) (h : Store V E) → Inv h → pending w h ≡ unavailable_pending w h
  pending-unavailable_pending w h inv =
      total_same h.allocated (λ i. weigh w (h.value i).waiters)
        (λ i. if is_available (h.value i).state then 0 else weigh w (h.value i).waiters)
        (λ i lt. elim (Bool-cases (is_available (h.value i).state)) [
          | inl a ↦ rw a (ap (weigh w) ((inv.good i lt).quiet a))
          | inr un ↦ rw un refl
        ])

  -- A run of calls that the source allows, from no values, comes to an end without a null pointer
  -- within two rounds of fuel for each call and two more. A callback, weighed by any `f`, has then
  -- run once, or it waits once, for a value that is not available.
  pub callbacks_run_once :
      (cs : List (Call V E))
      → AllAllowed cs no_values
      → 2 * length cs + 2 ≤ fuel
      → (h : Store V E) × (perform_all cs no_values ≡ some h)
        × Inv h
        × ((f : ℕ → ℕ) → weigh f h.log + unavailable_pending (of_users f) h ≡ registered f cs)
  callbacks_run_once cs a enough =
      let (h, e, inv, same) = perform_all_ends cs no_values no_values-Inv a (omega arith) in
      (h, e, inv, λ f. omega (arith, same f, pending-unavailable_pending (of_users f) h inv))

module _ {V E : Type 0} where
  error_of_lem :
      (v : AsyncValue V E)
      → Fits v.state v.payload
      → (v.state ≡ error → (e : E) × (error_of v ≡ some e)) × (v.state ≢ error → error_of v ≡ none)
  error_of_lem v f = by_state v.state refl f
    where
      by_state :
          (s : StateEnum)
          → v.state ≡ s
          → Fits s v.payload
          → (v.state ≡ error → (e : E) × (error_of v ≡ some e))
            × (v.state ≢ error → error_of v ≡ none)
      by_state unconstructed e f = (λ k. absurd (ground arith), λ _. rw (e, error_of) refl)
      by_state constructed e f = (λ k. absurd (ground arith), λ _. rw (e, error_of) refl)
      by_state concrete e f = (λ k. absurd (ground arith), λ _. rw (e, error_of) refl)
      by_state error e (d, p) = (λ _. (d, rw (e, p, error_of) refl), λ k. absurd (k e))

  concrete_payload :
      (h : Store V E) (j : ℕ)
      → (h.value j).state ≡ concrete
      → Fits (h.value j).state (h.value j).payload
      → (d : V) × (get_concrete j h ≡ some d)
  concrete_payload h j e f =
      let (d, p) = subst (λ s. Fits s (h.value j).payload) e f in (d, held d p)
    where
      held : (d : V) → (h.value j).payload ≡ holds d → get_concrete j h ≡ some d
      held d p = rw (p, get_concrete) refl

  reads :
      (h : Store V E) (i : ℕ)
      → Inv h
      → i < h.allocated
      → ((h.value i).state ≡ error → (e : E) × (get_error_if_present i h ≡ some e))
        × ((h.value i).state ≢ error → get_error_if_present i h ≡ none)
        × ((h.value i).state ≡ concrete → (d : V) × (get i h ≡ some d))
  unfolding get get_error_if_present
  reads h i inv lt = by_kind (h.value i).kind refl
    where
      Reads : Type 0
      Reads =
          ((h.value i).state ≡ error → (e : E) × (get_error_if_present i h ≡ some e))
          × ((h.value i).state ≢ error → get_error_if_present i h ≡ none)
          × ((h.value i).state ≡ concrete → (d : V) × (get i h ≡ some d))

      -- Through the concrete value `j`.
      through :
          (j : ℕ)
          → j < h.allocated
          → (h.value j).kind ≡ concrete_value
          → (h.value j).state ≡ (h.value i).state
          → get_error_if_present i h ≡ error_of (h.value j)
          → get i h ≡ get_concrete j h
          → Reads
      through j b k s ee eg =
          let f = (inv.good j b).fits k in
          let (found, absent) = error_of_lem (h.value j) f in
          (
            λ e. let (x, p) = found (s ∙ e) in (x, ee ∙ p),
            λ ne. ee ∙ absent (λ e. ne (sym s ∙ e)),
            λ c. let (d, p) = concrete_payload h j (s ∙ c) f in (d, eg ∙ p),
          )

      by_kind : (k : Kind) → (h.value i).kind ≡ k → Reads
      by_kind concrete_value k =
          through i lt k refl (ap (λ x. error_as x (h.value i).target i h) k)
            (ap (λ x. get_as x (h.value i).target i h) k)
      by_kind indirect_value k = elim (Bool-cases (is_available (h.value i).state)) [
        | inl a ↦
            let (j, e, b, kj, s) = (inv.good i lt).resolved k a in
            through j b kj s (ap₂ (λ x t. error_as x t i h) k e) (ap₂ (λ x t. get_as x t i h) k e)
        | inr un ↦
            let e = (inv.good i lt).unresolved k un in
            (
              λ er. absurd (ground arith),
              λ _. ap₂ (λ x t. error_as x t i h) k e,
              λ c. absurd (ground arith),
            )
      ]

  -- GetErrorIfPresent finds an error exactly where IsError holds, and `get` finds a value wherever
  -- IsConcrete holds, of concrete and indirect values alike.
  pub readers_lem :
      (h : Store V E) (i : ℕ)
      → Inv h
      → i < h.allocated
      → (is_some (get_error_if_present i h) ≡ is_error (h.value i).state)
        × ((not (is_concrete (h.value i).state) || is_some (get i h)) ≡ true)
  readers_lem h i inv lt = go (h.value i).state refl (reads h i inv lt)
    where
      go :
          (s : StateEnum)
          → (h.value i).state ≡ s
          → ((h.value i).state ≡ error → (e : E) × (get_error_if_present i h ≡ some e))
            × ((h.value i).state ≢ error → get_error_if_present i h ≡ none)
            × ((h.value i).state ≡ concrete → (d : V) × (get i h ≡ some d))
          → (is_some (get_error_if_present i h) ≡ is_error s)
            × ((not (is_concrete s) || is_some (get i h)) ≡ true)
      go unconstructed e (a, b, c) = (ap is_some (b (λ k. ground arith)), refl)
      go constructed e (a, b, c) = (ap is_some (b (λ k. ground arith)), refl)
      go concrete e (a, b, c) = (ap is_some (b (λ k. ground arith)), ap is_some (c e).1)
      go error e (a, b, c) = (ap is_some (a e).1, refl)

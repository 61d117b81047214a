-- ===== src/Context/HostContext/Cancelled.antt =====
-- CancelExecution and Restart of host_context.cpp in any order.
use async_lib.Base.{
  ℕ_discrete, ℕ, suc, ◌<◌, ◌≡◌, ◌≢◌, refl, sym, ap, ◌∙◌, subst, arith, false, Option, none, some,
  List, [], ◌∷◌,
}
use async_lib.Base.Family.{update_self, update_ne}
use async_lib.Context.AsyncValue.{
  concrete_value, error, fails, AsyncValue, Store, construct, allocate, drop_ref, free,
  get_error_if_present, error_as, error_of,
}
use async_lib.Context.AsyncValue.Once.{no_values}
use async_lib.Context.HostContext.{
  Execution, cancel_execution, restart, get_cancel_async_value, make_error,
}

pub data Call (E : Type 0) : Type 0 where
  cancels : E → Call E
  restarts : Call E

-- The message that the execution is cancelled with, after a call and after several.
abbrev pub message : {E : Type 0} → Call E → Option E → Option E
message (cancels e) none = some e
message (cancels e) (some first) = some first
message restarts o = none

abbrev pub message_of : {E : Type 0} → List (Call E) → Option E → Option E
message_of [] o = o
message_of (c ∷ cs) o = message_of cs (message c o)

module _ {V E : Type 0} (error_type : ℕ) where
  unfoldable pub call : Call E → Execution V E → Execution V E
  call (cancels e) x = cancel_execution error_type e x
  call restarts x = restart x

  unfoldable pub run : List (Call E) → Execution V E → Execution V E
  run [] x = x
  run (c ∷ cs) x = run cs (call c x)

  -- The value of a cancelled execution, with its one reference.
  abbrev held : E → AsyncValue V E
  held e = construct concrete_value error_type error (fails e)

  -- The execution has the message `o`, and every value but the one that carries it has been freed.
  abbrev pub Carries : Option E → Execution V E → Type 0
  Carries none x =
      (x.cancel_value ≡ none) × ((j : ℕ) → j < x.store.allocated → (x.store.value j).live ≡ false)
  Carries (some e) x =
      (i : ℕ) × (x.cancel_value ≡ some i)
      × (i < x.store.allocated)
      × (x.store.value i ≡ held e)
      × ((j : ℕ) → j < x.store.allocated → j ≢ i → (x.store.value j).live ≡ false)

  -- The last reference on an error value frees it.
  drops : (i : ℕ) (e : E) (h : Store V E) → h.value i ≡ held e → drop_ref 1 i h ≡ free i h
  unfolding drop_ref
  drops i e h k = by_fields (ap (λ v. v.ref_count) k) (ap (λ v. v.kind) k)
    where
      by_fields :
          (h.value i).ref_count ≡ 1 → (h.value i).kind ≡ concrete_value → drop_ref 1 i h ≡ free i h
      by_fields count kind = ground (arith, count, kind)

  cancelled :
      (e : E) (o : Option E) (c : Option ℕ) (h : Store V E)
      → Carries o (record { store = h; cancel_value = c })
      → Carries
          (message (cancels e) o)
          (cancel_execution error_type e (record { store = h; cancel_value = c }))
  unfolding cancel_execution make_error
  cancelled e none none h (c, dead) = (
    h.allocated,
    refl,
    omega arith,
    update_self h.value h.allocated (held e),
    λ j lt ne.
        ap (λ v. v.live) (update_ne h.value h.allocated (held e) j (λ q. ne (sym q)))
        ∙ dead j (omega (arith, lt, ne)),
  )
  cancelled e none (some k) h (c, dead) = cc
  cancelled e (some first) none h (i, c, r1, r2, r3) = cc
  cancelled e (some first) (some k) h (i, c, lt, v, dead) =
      let a = h.allocated in
      let grown = allocate (held e) h in
      let d = drops a e grown (update_self h.value a (held e)) in
      subst (λ st. Carries (some first) (record { store = st; cancel_value = some k })) (sym d)
        (
          i,
          c,
          omega (arith, lt),
          ground (arith, lt, v),
          λ j l ne. freed_or_dead j l (λ l'. dead j l' ne),
        )
    where
      freed_or_dead :
          (j : ℕ)
          → j < suc h.allocated
          → (j < h.allocated → (h.value j).live ≡ false)
          → ((free h.allocated (allocate (held e) h)).value j).live ≡ false
      freed_or_dead j l old = ground (arith, l, old)

  restarted :
      (o : Option E) (c : Option ℕ) (h : Store V E)
      → Carries o (record { store = h; cancel_value = c })
      → Carries none (restart (record { store = h; cancel_value = c }))
  unfolding restart
  restarted none none h r = r
  restarted none (some k) h (c, dead) = cc
  restarted (some e) none h (i, c, r1, r2, r3) = cc
  restarted (some e) (some k) h (i, c, lt, v, dead) =
      let same : i ≡ k = ground (arith, c) in
      let d = drops k e h (subst (λ n. h.value n ≡ held e) same v) in
      subst (λ st. Carries none (record { store = st; cancel_value = none })) (sym d)
        (refl, λ j l. freed_or_dead j (λ ne. dead j l (λ q. ne (q ∙ same))))
    where
      freed_or_dead :
          (j : ℕ) → (j ≢ k → (h.value j).live ≡ false) → ((free k h).value j).live ≡ false
      freed_or_dead j old = elim (ℕ_discrete k j) [
        | yes q ↦ ground (arith, q)
        | no ne ↦ ground (arith, ne, old (λ q. ne (sym q)))
      ]

  call-Carries :
      (c : Call E) (o : Option E) (x : Execution V E)
      → Carries o x
      → Carries (message c o) (call c x)
  unfolding call
  call-Carries (cancels e) o x r = cancelled e o x.cancel_value x.store r
  call-Carries restarts none x r = restarted none x.cancel_value x.store r
  call-Carries restarts (some e) x r = restarted (some e) x.cancel_value x.store r

  run-Carries :
      (cs : List (Call E)) (o : Option E) (x : Execution V E)
      → Carries o x
      → Carries (message_of cs o) (run cs x)
  unfolding run
  run-Carries [] o x r = r
  run-Carries (c ∷ cs) o x r = run-Carries cs (message c o) (call c x) (call-Carries c o x r)

  -- The message that GetCancelAsyncValue leads to.
  abbrev pub cancel_message : Execution V E → Option E
  cancel_message x = elim (get_cancel_async_value x) [
    | none ↦ none
    | some i ↦ get_error_if_present i x.store
  ]

  abbrev pub no_execution : Execution V E
  no_execution = record { store = no_values; cancel_value = none }

  read_message : (o : Option E) (x : Execution V E) → Carries o x → cancel_message x ≡ o
  unfolding get_error_if_present
  read_message none x (c, dead) = rw (c, cancel_message) refl
  read_message (some e) x (i, c, lt, v, dead) =
      rw (c, cancel_message)
        (reads (ap (λ a. a.kind) v) (ap (λ a. a.state) v) (ap (λ a. a.payload) v))
    where
      reads :
          (x.store.value i).kind ≡ concrete_value
          → (x.store.value i).state ≡ error
          → (x.store.value i).payload ≡ fails e
          → get_error_if_present i x.store ≡ some e
      reads k s p = rw (k, error_as) (rw (s, error_of) (rw p refl))

  others_freed :
      (o : Option E) (x : Execution V E)
      → Carries o x
      → (j : ℕ) → j < x.store.allocated
      → x.cancel_value ≢ some j
      → (x.store.value j).live ≡ false
  others_freed none x (c, dead) j l ne = dead j l
  others_freed (some e) x (i, c, lt, v, dead) j l ne = dead j l (λ q. ne (c ∙ ap some (sym q)))

-- In whatever order an execution is cancelled and restarted, its message is that of the first
-- cancellation since the last restart, and every other error value has been freed.
pub cancel_lem :
    (V : Type 0) {E : Type 0} (error_type : ℕ) (cs : List (Call E))
    → let x = run {V = V} error_type cs (no_execution error_type) in
      (cancel_message error_type x ≡ message_of cs none)
      × ((j : ℕ) → j < x.store.allocated → x.cancel_value ≢ some j → (x.store.value j).live ≡ false)
cancel_lem V error_type cs =
    let r =
      run-Carries {V = V} error_type cs none (no_execution error_type)
        (refl, λ j l. absurd (omega arith)) in
    (
      read_message error_type (message_of cs none) _ r,
      others_freed error_type (message_of cs none) _ r,
    )

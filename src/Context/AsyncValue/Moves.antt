-- ===== src/Context/AsyncValue/Moves.antt =====
-- NotifyAvailable and EnqueueWaiter of async_value.h, on a well-formed store.
use mathlib.Core.Path.{fun_ext}
use async_lib.Base.{
  ℕ, ◌+◌, ◌<◌, ◌≡◌, refl, ap, sym, ◌∙◌, subst, arith, true, some, List, [], ◌∷◌, ◌++◌, map,
  Bool-cases, inl, inr,
}
use async_lib.Base.Family.{update_self}
use async_lib.Base.Sums.{weigh}
use async_lib.Context.AsyncValue.Weigh.{job_weight, weigh-notify, pending, pending-set_value}
use async_lib.Context.AsyncValue.{
  concrete_value, indirect_value, StateEnum, is_available, Waiter, user, forwards, Job, notify,
  release, AsyncValue, Store, set_value, notify_available, and_then,
}
use async_lib.Context.AsyncValue.Inv.{
  Waits, Runs, Inv, Fits, Moves, Later, Later-refl, Later-Waits, set_value-Later, set_value-Inv,
}

module _ {V E : Type 0} where
  -- What an operation leaves that accepts the waiters `x`: each waiter is still there, or its turn
  -- has come.
  pub record Moved (h : Store V E) (x : List Waiter) (r : List Job × Store V E) : Type 0 where
    pub later : Later h r.1
    pub inv : Inv r.1
    pub runs : Runs r.1 r.0
    pub log_kept : r.1.log ≡ h.log
    pub weights :
        (w : Waiter → ℕ) (n : ℕ)
        → weigh (job_weight w n) r.0 + pending w r.1 ≡ pending w h + weigh w x

  pub Runs-append : (h : Store V E) (js ks : List Job) → Runs h js → Runs h ks → Runs h (js ++ ks)
  Runs-append h [] ks r s = s
  Runs-append h (notify (user n) ∷ js) ks r s = Runs-append h js ks r s
  Runs-append h (notify (forwards this j) ∷ js) ks (a, b, c, d, r) s =
      (a, b, c, d, Runs-append h js ks r s)
  Runs-append h (release i ∷ js) ks r s = Runs-append h js ks r s

  waiters-Runs :
      (h : Store V E) (i : ℕ) (ws : List Waiter)
      → Waits h i ws
      → i < h.allocated
      → is_available (h.value i).state ≡ true
      → Runs h (map notify ws)
  waiters-Runs h i [] w lt a = w
  waiters-Runs h i (user n ∷ ws) w lt a = waiters-Runs h i ws w lt a
  waiters-Runs h i (forwards this j ∷ ws) (e, b, k, w) lt a = (
    b,
    k,
    omega (arith, e),
    ap (λ j. is_available (h.value j).state) e ∙ a,
    waiters-Runs h i ws w lt a,
  )

  -- The value that NotifyAvailable leaves at `i`, which held `v` before.
  abbrev notified : StateEnum → AsyncValue V E → AsyncValue V E
  notified s v = record v { state = s; waiters = [] }

  -- What a value that holds `u` needs to become available in state `s`.
  pub record Settles (h : Store V E) (i : ℕ) (s : StateEnum) (u : AsyncValue V E) : Type 0 where
    pub inside : i < h.allocated
    pub available : is_available s ≡ true
    pub kind_kept : u.kind ≡ (h.value i).kind
    pub waiters_kept : u.waiters ≡ (h.value i).waiters
    pub fits : u.kind ≡ concrete_value → Fits s u.payload
    pub kept :
        u.kind ≡ concrete_value → is_available (h.value i).state ≡ true → s ≡ (h.value i).state
    pub resolved :
        u.kind ≡ indirect_value
        → (j : ℕ) × (u.target ≡ some j)
          × (j < h.allocated)
          × ((h.value j).kind ≡ concrete_value)
          × ((h.value j).state ≡ s)

  notified-Moved :
      (h : Store V E) (i : ℕ) (s : StateEnum) (u : AsyncValue V E)
      → Inv h
      → Settles h i s u
      → Moved h [] (map notify u.waiters, set_value i (notified s u) h)
  notified-Moved h i s u inv c =
      let v = notified s u in
      let h' = set_value i v h in
      let m : Moves h i v = record {
        inside = c.inside;
        kind_kept = c.kind_kept;
        available_kept = λ _. c.available;
        settled_kept = λ k. c.kept (c.kind_kept ∙ k);
      } in
      let l = set_value-Later h i v m in
      record {
        later = l;
        inv = set_value-Inv h i v inv m (record {
          quiet = λ _. refl;
          waiting = tt;
          fits = c.fits;
          resolved = λ k _. c.resolved k;
          unresolved = λ k no. absurd (ground (arith, c.available));
        });
        runs =
            waiters-Runs h' i u.waiters
              (Later-Waits h h' l i u.waiters
                (subst (Waits h i) (sym c.waiters_kept) (inv.good i c.inside).waiting))
              c.inside (ap (λ x. is_available x.state) (update_self h.value i v) ∙ c.available);
        log_kept = refl;
        weights = λ w n. omega (
          arith,
          weigh-notify w n u.waiters,
          pending-set_value w h i v c.inside,
          ap (weigh w) c.waiters_kept,
        );
      }

  pub notify_available-Moved :
      (s : StateEnum) (i : ℕ) (h : Store V E)
      → Inv h
      → Settles h i s (h.value i)
      → Moved h [] (notify_available s i h)
  unfolding notify_available
  notify_available-Moved s i h inv c = notified-Moved h i s (h.value i) inv c

  set_value_twice :
      (h : Store V E) (i : ℕ) (u v : AsyncValue V E)
      → set_value i v (set_value i u h) ≡ set_value i v h
  set_value_twice h i u v = ap (λ f. record h { value = f }) (fun_ext λ j. ground arith)

  -- NotifyAvailable after other fields were set.
  pub notify-set_value :
      (s : StateEnum) (i : ℕ) (u : AsyncValue V E) (h : Store V E)
      → notify_available s i (set_value i u h)
        ≡ (map notify u.waiters, set_value i (notified s u) h)
  unfolding notify_available
  notify-set_value s i u h =
      ap (λ x. (map notify x.waiters, set_value i (notified s x) (set_value i u h)))
        (update_self h.value i u)
      ∙ ap (λ g. (map notify u.waiters, g)) (set_value_twice h i u (notified s u))

  pub notify-set_value-Moved :
      (s : StateEnum) (i : ℕ) (u : AsyncValue V E) (h : Store V E)
      → Inv h
      → Settles h i s u
      → Moved h [] (notify_available s i (set_value i u h))
  notify-set_value-Moved s i u h inv c =
      subst (Moved h []) (sym (notify-set_value s i u h)) (notified-Moved h i s u inv c)

  -- A waiter that may wait for `i`.
  abbrev pub MayWait : Store V E → ℕ → Waiter → Type 0
  MayWait h i w = Waits h i (w ∷ [])

  one-Runs :
      (h : Store V E) (i : ℕ) (w : Waiter)
      → MayWait h i w
      → i < h.allocated
      → is_available (h.value i).state ≡ true
      → Runs h (notify w ∷ [])
  one-Runs h i w m lt a = waiters-Runs h i (w ∷ []) m lt a

  cons-Waits :
      (h : Store V E) (i : ℕ) (w : Waiter) (ws : List Waiter)
      → MayWait h i w
      → Waits h i ws
      → Waits h i (w ∷ ws)
  cons-Waits h i (user n) ws m k = k
  cons-Waits h i (forwards this j) ws (a, b, c, d) k = (a, b, c, k)

  pub and_then-Moved :
      (w : Waiter) (i : ℕ) (h : Store V E)
      → Inv h
      → i < h.allocated
      → MayWait h i w
      → Moved h (w ∷ []) (and_then w i h)
  unfolding and_then
  and_then-Moved w i h inv lt m = elim (Bool-cases (is_available (h.value i).state)) [
    | inl a ↦ rw a (record {
      later = Later-refl h;
      inv = inv;
      runs = one-Runs h i w m lt a;
      log_kept = refl;
      weights = λ f n. omega arith;
    })
    | inr un ↦
        let g = inv.good i lt in
        let v = record (h.value i) { waiters = w ∷ (h.value i).waiters } in
        let mv : Moves h i v = record {
          inside = lt;
          kind_kept = refl;
          available_kept = λ a. a;
          settled_kept = λ _ _. refl;
        } in
        rw un (record {
          later = set_value-Later h i v mv;
          inv = set_value-Inv h i v inv mv (record {
            quiet = λ a. absurd (ground arith);
            waiting = cons-Waits h i w (h.value i).waiters m g.waiting;
            fits = g.fits;
            resolved = g.resolved;
            unresolved = g.unresolved;
          });
          runs = tt;
          log_kept = refl;
          weights = λ f n. omega (arith, pending-set_value f h i v lt);
        })
  ]

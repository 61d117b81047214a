-- ===== src/Support/RefCount/Moves.antt =====
-- What each operation of ref_count.h does to the tally of references.
use async_lib.Base.{ℕ, ◌+◌, ◌^◌, ◌<◌, ◌≡◌, ap, subst, arith, Option, none, some, ℕ_discrete}
use async_lib.Base.Family.{update, update_self, update_ne}
use async_lib.Support.RefCount.{
  References, set_handle, create, add_ref, drop_pointer, give, spend, move_construct, move_assign,
  destroy, reset, release, form_ref, take_ref, copy_of, swap,
}
use async_lib.Support.RefCount.Tally.{
  points, refs, Tally, drop-Tally, add-Tally, create-Tally, same-Tally, refs-set_handle, refs-give,
  IsHeld, refs-spend, give-Tally, spend-Tally, refs-drop, handle-drop, IsHeld-drop,
}

-- A second handle is unchanged by an assignment to the first, or has what was assigned to it.
kept : (f : ℕ → Option ℕ) (h g : ℕ) (o : ℕ) → points (update f h (f g) g) o ≡ points (f g) o
kept f h g o = elim (ℕ_discrete h g) [
  | yes e ↦
      subst (λ i. points (update f h (f g) i) o ≡ points (f g) o) e
        (ap (λ q. points q o) (update_self f h (f g)))
  | no ne ↦ ap (λ q. points q o) (update_ne f h (f g) g ne)
]

module _ (n : ℕ) (s : References) (o : ℕ) where
  refs-move :
      (h g : ℕ)
      → h < n
      → g < n
      → refs n (set_handle g none (set_handle h (s.handle g) s)) o + points (s.handle h) o
        ≡ refs n s o
  refs-move h g hn gn = omega (
    arith,
    refs-set_handle n s h (s.handle g) o hn,
    refs-set_handle n (set_handle h (s.handle g) s) g none o gn,
    kept s.handle h g o,
  )

  refs-swap : (a b : ℕ) → a < n → b < n → refs n s o ≡ refs n (swap a b s) o
  unfolding swap
  refs-swap a b an bn = omega (
    arith,
    refs-set_handle n s a (s.handle b) o an,
    refs-set_handle n (set_handle a (s.handle b) s) b (s.handle a) o bn,
    kept s.handle a b o,
  )

  -- Where a handle's old pointer has been dropped.
  refs-replace :
      (h : ℕ) (q : Option ℕ)
      → h < n
      → refs n (set_handle h q (drop_pointer (s.handle h) s)) o + points (s.handle h) o
        ≡ refs n s o + points q o
  refs-replace h q hn = omega (
    arith,
    refs-set_handle n (drop_pointer (s.handle h) s) h q o hn,
    refs-drop n s (s.handle h) o,
    ap (λ f. points (f h) o) (handle-drop s (s.handle h)),
  )

refs-move_assign :
    (n : ℕ) (s : References) (o h g : ℕ)
    → h < n
    → g < n
    → refs n s o ≡ points (s.handle h) o + refs n (move_assign h g s) o
unfolding move_assign
refs-move_assign n s o h g hn gn = omega (
  arith,
  refs-move n (drop_pointer (s.handle h) s) o h g hn gn,
  refs-drop n s (s.handle h) o,
  ap (λ f. points (f h) o) (handle-drop s (s.handle h)),
)

-- A handle that did not exist has come to be.
refs_new :
    (n : ℕ) (s : References) (o h : ℕ) (q : Option ℕ)
    → h < n
    → s.handle h ≡ none
    → refs n (set_handle h q s) o ≡ refs n s o + points q o
refs_new n s o h q hn e = omega (arith, refs-set_handle n s h q o hn, ap (λ p. points p o) e)

-- `k` is above every number of references before the call.
module _ (n k : ℕ) (small : k < 2 ^ 32) (s : References) (below : (o : ℕ) → refs n s o < k)
    (t : Tally k s (refs n s)) where
  pub create_lem : Tally k (create s) (refs n (create s))
  unfolding create
  create_lem =
      create-Tally k small s (refs n s) (refs n (create s)) t (omega (arith, below 0))
        (λ o. ground (arith, t s.next))

  pub form_lem :
      (h o : ℕ)
      → h < n
      → s.handle h ≡ none
      → 0 < refs n s o
      → Tally k (form_ref h o s) (refs n (form_ref h o s))
  unfolding form_ref add_ref
  form_lem h o hn e pos =
      add-Tally k small s (refs n s) (refs n (set_handle h (some o) s)) t o pos (below o)
        (λ x. omega (arith, refs_new n s x h (some o) hn e))

  pub copied_lem :
      (h from : ℕ) (p : Option ℕ)
      → h < n
      → from < n
      → s.handle h ≡ none
      → s.handle from ≡ p
      → Tally k (copy_of h p s) (refs n (copy_of h p s))
  copied_lem h from none hn fn e is =
      same-Tally k small s (refs n s) (refs n (set_handle h none s)) t
        (λ x. omega (arith, refs_new n s x h none hn e))
  copied_lem h from (some o) hn fn e is =
      form_lem h o hn e
        (ground (arith, refs-set_handle n s from none o fn, ap (λ p. points p o) is))

  pub take_lem :
      (h o : ℕ)
      → h < n
      → s.handle h ≡ none
      → 0 < s.raw o
      → Tally k (take_ref h o s) (refs n (take_ref h o s))
  unfolding take_ref
  take_lem h o hn e pos =
      let s' = set_handle h (some o) s in
      spend-Tally k s' (refs n (spend (some o) s'))
        (same-Tally k small s (refs n s) (refs n (spend (some o) s')) t
          (λ x. omega (arith, refs_new n s x h (some o) hn e, refs-spend n s' (some o) x pos)))
        (some o)

  pub release_lem : (h : ℕ) → h < n → Tally k (release h s) (refs n (release h s))
  unfolding release
  release_lem h hn =
      let s' = set_handle h none s in
      let p = s.handle h in
      give-Tally k s' (refs n (give p s'))
        (same-Tally k small s (refs n s) (refs n (give p s')) t
          (λ x. omega (arith, refs-set_handle n s h none x hn, refs-give n s' p x)))
        p

  pub reset_lem :
      (h : ℕ) (p : Option ℕ) → h < n → IsHeld p s → Tally k (reset h p s) (refs n (reset h p s))
  unfolding reset
  reset_lem h p hn held =
      let s' = set_handle h p (drop_pointer (s.handle h) s) in
      spend-Tally k s' (refs n (spend p s'))
        (drop-Tally k small s (refs n s) (refs n (spend p s')) t (s.handle h) (λ x. omega (
          arith,
          refs-replace n s x h p hn,
          refs-spend n s' p x (IsHeld-drop s p (s.handle h) p h held),
        )))
        p

  pub destroy_lem : (h : ℕ) → h < n → Tally k (destroy h s) (refs n (destroy h s))
  unfolding destroy
  destroy_lem h hn =
      drop-Tally k small s (refs n s) (refs n (destroy h s)) t (s.handle h)
        (λ x. omega (arith, refs-replace n s x h none hn))

  pub construct_lem :
      (h g : ℕ)
      → h < n
      → g < n
      → s.handle h ≡ none
      → Tally k (move_construct h g s) (refs n (move_construct h g s))
  unfolding move_construct
  construct_lem h g hn gn e =
      same-Tally k small s (refs n s) (refs n (move_construct h g s)) t
        (λ x. omega (arith, refs-move n s x h g hn gn, ap (λ p. points p x) e))

  pub assign_lem :
      (h g : ℕ) → h < n → g < n → Tally k (move_assign h g s) (refs n (move_assign h g s))
  unfolding move_assign
  assign_lem h g hn gn =
      drop-Tally k small s (refs n s) (refs n (move_assign h g s)) t (s.handle h)
        (λ x. refs-move_assign n s x h g hn gn)

  pub swap_lem : (a b : ℕ) → a < n → b < n → Tally k (swap a b s) (refs n (swap a b s))
  unfolding swap
  swap_lem a b an bn =
      same-Tally k small s (refs n s) (refs n (swap a b s)) t (λ x. refs-swap n s x a b an bn)

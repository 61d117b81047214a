-- ===== src/Support/RefCount/Tally.antt =====
-- The counts of ref_count.h against a number of references for each object, which a call changes in
-- steps.
use async_lib.Base.{
  ℕ, ◌+◌, ◌^◌, ◌<◌, ◌≤◌, ◌≡◌, refl, sym, ap, arith, Option, none, some, ◌==◌, ltb, if◌then◌else◌,
}
use async_lib.Base.Family.{update, update_self, update_ne}
use async_lib.Base.Sums.{total, total_at}
use async_lib.Support.RefCount.{
  References, set_handle, create, add_ref, drop_ref, drop_pointer, give, spend,
}

abbrev pub points : Option ℕ → ℕ → ℕ
points none o = 0
points (some p) o = if p == o then 1 else 0

-- The references to an object, from the first `n` handles and from plain pointers.
abbrev pub refs : ℕ → References → ℕ → ℕ
refs n s o = total n (λ h. points (s.handle h) o) + s.raw o

-- Each object has `r o` references, at most `k`, and has been destroyed if it has come to have none.
abbrev pub Tally : ℕ → References → (ℕ → ℕ) → Type 0
Tally k s r =
    (o : ℕ)
    → (s.count o ≡ r o)
      × (r o ≤ k)
      × (s.destroyed o + (if r o == 0 then 0 else 1) ≡ (if ltb o s.next then 1 else 0))

module _ (k : ℕ) (small : k < 2 ^ 32) (s : References) (r r' : ℕ → ℕ) (t : Tally k s r) where
  pub drop-Tally :
      (p : Option ℕ) → ((o : ℕ) → r o ≡ points p o + r' o) → Tally k (drop_pointer p s) r'
  unfolding drop_ref
  drop-Tally none e = λ o. ground (arith, t o, e o)
  drop-Tally (some p) e = λ o. ground (arith, t o, e o, t p, e p, small)

  pub add-Tally :
      (p : ℕ)
      → 0 < r p
      → r p < k
      → ((o : ℕ) → r' o ≡ points (some p) o + r o)
      → Tally k (add_ref p s) r'
  unfolding add_ref
  add-Tally p pos lt e = λ o. ground (arith, t o, e o, t p, e p, small, pos, lt)

  pub create-Tally : 0 < k → ((o : ℕ) → r' o ≡ points (some s.next) o + r o) → Tally k (create s) r'
  unfolding create
  create-Tally pos e = λ o. ground (arith, t o, e o, t s.next, e s.next, pos)

  pub same-Tally : ((o : ℕ) → r o ≡ r' o) → Tally k s r'
  same-Tally e = λ o. ground (arith, t o, e o)

module _ (n : ℕ) (s : References) where
  pub refs-set_handle :
      (h : ℕ) (p : Option ℕ) (o : ℕ)
      → h < n
      → refs n (set_handle h p s) o + points (s.handle h) o ≡ refs n s o + points p o
  refs-set_handle h p o lt = omega (
    arith,
    total_at n h (λ i. points (s.handle i) o) (λ i. points (update s.handle h p i) o) lt
        (λ i ne. ap (λ q. points q o) (sym (update_ne s.handle h p i (λ e. ne (sym e))))),
    ap (λ q. points q o) (update_self s.handle h p),
  )

  pub refs-give : (p : Option ℕ) (o : ℕ) → refs n (give p s) o ≡ refs n s o + points p o
  refs-give none o = omega arith
  refs-give (some p) o = ground arith

-- A pointer to give away is there to be given away.
abbrev pub IsHeld : Option ℕ → References → Type 0
IsHeld none s = Unit
IsHeld (some o) s = 0 < s.raw o

pub refs-spend :
    (n : ℕ) (s : References) (p : Option ℕ) (o : ℕ)
    → IsHeld p s
    → refs n (spend p s) o + points p o ≡ refs n s o
refs-spend n s none o h = omega arith
refs-spend n s (some p) o h = ground (arith, h)

module _ (k : ℕ) (s : References) (r : ℕ → ℕ) (t : Tally k s r) where
  pub give-Tally : (p : Option ℕ) → Tally k (give p s) r
  give-Tally none = t
  give-Tally (some p) = t

  pub spend-Tally : (p : Option ℕ) → Tally k (spend p s) r
  spend-Tally none = t
  spend-Tally (some p) = t

pub refs-drop :
    (n : ℕ) (s : References) (p : Option ℕ) (o : ℕ) → refs n (drop_pointer p s) o ≡ refs n s o
unfolding drop_ref
refs-drop n s none o = refl
refs-drop n s (some p) o = refl

pub handle-drop : (s : References) (p : Option ℕ) → (drop_pointer p s).handle ≡ s.handle
unfolding drop_ref
handle-drop s none = refl
handle-drop s (some p) = refl

pub IsHeld-drop :
    (s : References) (p q r : Option ℕ) (h : ℕ)
    → IsHeld p s
    → IsHeld p (set_handle h r (drop_pointer q s))
unfolding drop_ref
IsHeld-drop s none q r h held = tt
IsHeld-drop s (some o) none r h held = held
IsHeld-drop s (some o) (some x) r h held = held

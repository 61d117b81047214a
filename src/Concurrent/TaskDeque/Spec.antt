-- ===== src/Concurrent/TaskDeque/Spec.antt =====
-- What `TaskDeque` promises: a list of at most `capacity` tasks, the back of the deque first. A
-- push hands its task back when the list is full; a pop of an empty list returns nothing.
use async_lib.Base.{
  ◌-◌, arith, ℕ, ◌≡◌, refl, Option, none, some, List, [], ◌∷◌, ◌++◌, length, ◌==◌, if◌then◌else◌,
}

module _ {T : Type 0} where
  -- The last item, and the items before it.
  abbrev pub unsnoc : List T → Option (T × List T)
  unsnoc [] = none
  unsnoc (x ∷ xs) = elim (unsnoc xs) [ none ↦ some (x, []) | some (l, ys) ↦ some (l, x ∷ ys) ]

  pub unsnoc-append : (xs : List T) (x : T) → unsnoc (xs ++ x ∷ []) ≡ some (x, xs)
  unsnoc-append [] x = refl
  unsnoc-append (y ∷ xs) x = rw (unsnoc-append xs x)

  module _ (cap : ℕ) where
    abbrev pub push_front : T → List T → Option T × List T
    push_front t l = if length l == cap then (some t, l) else (none, l ++ t ∷ [])

    abbrev pub push_back : T → List T → Option T × List T
    push_back t l = if length l == cap then (some t, l) else (none, t ∷ l)

  abbrev pub pop_front : List T → Option T × List T
  pop_front l = elim (unsnoc l) [ none ↦ (none, []) | some (x, xs) ↦ (some x, xs) ]

  abbrev pub pop_back : List T → Option T × List T
  pop_back [] = (none, [])
  pop_back (x ∷ xs) = (some x, xs)

  pub length-pop_front : (l : List T) → length (pop_front l).1 ≡ length l - 1
  length-pop_front [] = refl
  length-pop_front (x ∷ []) = refl
  length-pop_front (x ∷ y ∷ xs) = ground (arith, length-pop_front (y ∷ xs))

  pub eq_nil_of_length : (l : List T) → length l ≡ 0 → l ≡ []
  eq_nil_of_length [] e = refl
  eq_nil_of_length (x ∷ l) e = absurd (omega arith)

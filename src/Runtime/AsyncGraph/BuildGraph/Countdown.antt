-- ===== src/Runtime/AsyncGraph/BuildGraph/Countdown.antt =====
-- What DecreaseReadyCountAndPush does to one kernel, and how many names match its arguments.
use async_lib.Base.{
  ℕ, ◌+◌, ◌≤◌, ◌≡◌, ◌≢◌, refl, ap, sym, ◌∙◌, subst, arith, Bool, true, false, not, List, [], ◌∷◌,
  ◌++◌, length, mem, ◌==◌, ◌&&◌, if◌then◌else◌, Bool-cases, ℕ_discrete, inl, inr,
}
use async_lib.Base.Words.{sub32}
use async_lib.Base.Sums.{weigh, weigh-append}
use async_lib.Base.Family.{update, update_self, update_ne}
use async_lib.Runtime.AsyncGraph.BuildGraph.{decrease_ready_count_and_push}
use async_lib.Runtime.AsyncGraph.BuildGraph.Users.{Above, Sorted}

-- How often a kernel stands in a list of ready ones.
abbrev pub pushes : ℕ → List ℕ → ℕ
pushes k l = weigh (λ u. if u == k then 1 else 0) l

abbrev pub bit : Bool → ℕ
bit b = if b then 1 else 0

Above-mem : (x : ℕ) (l : List ℕ) → Above x l → mem x l ≡ false
Above-mem x [] a = refl
Above-mem x (y ∷ l) (h, a) = ground (arith, Above-mem x l a)

-- Each user counts down once.
pub decrease_lem :
    (k : ℕ) (us : List ℕ) (counts : ℕ → ℕ) (ready : List ℕ)
    → Sorted us
    → ((decrease_ready_count_and_push us (counts, ready)).0 k
        ≡ (if mem k us then sub32 (counts k) 1 else counts k))
      × (pushes k (decrease_ready_count_and_push us (counts, ready)).1
          ≡ pushes k ready + bit (mem k us && counts k == 1))
decrease_lem k [] counts ready s = (refl, omega arith)
decrease_lem k (u ∷ us) counts ready (a, s) =
    let counts' = update counts u (sub32 (counts u) 1) in
    let ready' = if counts u == 1 then ready ++ u ∷ [] else ready in
    let (c, p) = decrease_lem k us counts' ready' s in
    elim (ℕ_discrete u k) [
      | yes same ↦
          let out : mem k us ≡ false = subst (λ k. mem k us ≡ false) same (Above-mem u us a) in
          let at =
            ap (update counts u (sub32 (counts u) 1)) (sym same)
            ∙ update_self counts u (sub32 (counts u) 1) in
          let pushed = pushed_self u k ready (counts u == 1) same in
          (
            ground (arith, c, at, out, ap counts same),
            ground (arith, p, at, out, pushed, ap counts same),
          )
      | no ne ↦
          let at = update_ne counts u (sub32 (counts u) 1) k ne in
          let pushed = pushed_ne u k ready (counts u == 1) ne in
          (ground (arith, c, at), ground (arith, p, at, pushed))
    ]
  where
    pushed_self :
        (u k : ℕ) (ready : List ℕ) (b : Bool)
        → u ≡ k
        → pushes k (if b then ready ++ u ∷ [] else ready) ≡ pushes k ready + bit b
    pushed_self u k ready true e =
        ground (arith, weigh-append (λ u. if u == k then 1 else 0) ready (u ∷ []))
    pushed_self u k ready false e = omega arith

    pushed_ne :
        (u k : ℕ) (ready : List ℕ) (b : Bool)
        → u ≢ k
        → pushes k (if b then ready ++ u ∷ [] else ready) ≡ pushes k ready
    pushed_ne u k ready true ne =
        ground (arith, weigh-append (λ u. if u == k then 1 else 0) ready (u ∷ []))
    pushed_ne u k ready false ne = refl

-- No number twice, and every number of the one list in the other.
abbrev pub no_repeats : List ℕ → Bool
no_repeats [] = true
no_repeats (x ∷ l) = not (mem x l) && no_repeats l

abbrev pub all_in : List ℕ → List ℕ → Bool
all_in [] l = true
all_in (x ∷ xs) l = mem x l && all_in xs l

-- How many of `xs` are among the names `ins`.
abbrev pub match_count : List ℕ → List ℕ → ℕ
match_count ins xs = weigh (λ x. bit (mem x ins)) xs

once : (y : ℕ) (xs : List ℕ) → no_repeats xs ≡ true → pushes y xs ≡ bit (mem y xs)
once y [] h = refl
once y (x ∷ xs) h = ground (arith, once y xs)

match-new :
    (y : ℕ) (ins xs : List ℕ)
    → mem y ins ≡ false
    → match_count (y ∷ ins) xs ≡ pushes y xs + match_count ins xs
match-new y ins [] h = refl
match-new y ins (x ∷ xs) h = elim (ℕ_discrete x y) [
  | yes e ↦ ground (arith, match-new y ins xs h, ap (λ x. mem x ins) e)
  | no ne ↦ ground (arith, match-new y ins xs h)
]

match-old :
    (y : ℕ) (ins xs : List ℕ) → mem y ins ≡ true → match_count (y ∷ ins) xs ≡ match_count ins xs
match-old y ins [] h = refl
match-old y ins (x ∷ xs) h = elim (ℕ_discrete x y) [
  | yes e ↦ ground (arith, match-old y ins xs h, ap (λ x. mem x ins) e)
  | no ne ↦ ground (arith, match-old y ins xs h)
]

none_match : (xs : List ℕ) → match_count [] xs ≡ 0
none_match [] = refl
none_match (x ∷ xs) = omega (arith, none_match xs)

pub match_lem :
    (ins xs : List ℕ)
    → no_repeats xs ≡ true
    → all_in ins xs ≡ true
    → (match_count ins xs ≤ length ins) × ((match_count ins xs == length ins) ≡ no_repeats ins)
match_lem [] xs n a = (omega (arith, none_match xs), ground (arith, none_match xs))
match_lem (y ∷ ins) xs n a =
    let (b, e) = match_lem ins xs n (ground arith) in
    elim (Bool-cases (mem y ins)) [
      | inl old ↦ (omega (arith, match-old y ins xs old), ground (arith, match-old y ins xs old))
      | inr new ↦ (
        ground (arith, match-new y ins xs new, once y xs n),
        ground (arith, match-new y ins xs new, once y xs n),
      )
    ]

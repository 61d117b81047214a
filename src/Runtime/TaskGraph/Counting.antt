-- ===== src/Runtime/TaskGraph/Counting.antt =====
-- Occurrences in a list, and sums of them.
use async_lib.Base.{
  ap, ℕ, zero, suc, ◌+◌, ◌≤◌, ◌<◌, ◌≡◌, refl, List, [], ◌∷◌, ◌++◌, arith, length, ltb, ◌==◌,
  if◌then◌else◌,
}
use async_lib.Base.Sums.{weigh, weigh-append, total, total_zero}

-- How often a node stands in a list.
abbrev pub count : ℕ → List ℕ → ℕ
count a = weigh (λ x. if a == x then 1 else 0)

pub count-append : (a : ℕ) (l r : List ℕ) → count a (l ++ r) ≡ count a l + count a r
count-append a = weigh-append (λ x. if a == x then 1 else 0)

-- How many entries of the first list are not in the second.
abbrev pub waits : List ℕ → List ℕ → ℕ
waits [] log = 0
waits (d ∷ ds) log = (if count d log == 0 then 1 else 0) + waits ds log

pub waits-nil : (ds : List ℕ) → waits ds [] ≡ length ds
waits-nil [] = refl
waits-nil (d ∷ ds) = omega (arith, waits-nil ds)

pub waits-cons :
    (ds log : List ℕ) (k : ℕ) → count k log ≡ 0 → waits ds (k ∷ log) + count k ds ≡ waits ds log
waits-cons [] log k h = omega arith
waits-cons (d ∷ ds) log k h = ground (arith, waits-cons ds log k h)

-- An entry of `ds` that is not in `log` makes `waits` positive.
pub waits-pos : (ds log : List ℕ) (d : ℕ) → 0 < count d ds → count d log ≡ 0 → 0 < waits ds log
waits-pos [] log d h e = absurd (omega arith)
waits-pos (x ∷ ds) log d h e = ground (arith, waits-pos ds log d)

pub total-le : (n : ℕ) (f : ℕ → ℕ) → ((i : ℕ) → f i ≤ 1) → total n f ≤ n
total-le zero f h = omega arith
total-le (suc n) f h = omega (arith, total-le n f h, h n)

-- If each term is at most 1 and the sum is `n`, then each term is 1.
pub total_full :
    (n : ℕ) (f : ℕ → ℕ) → ((i : ℕ) → f i ≤ 1) → total n f ≡ n → (i : ℕ) → i < n → f i ≡ 1
total_full zero f h e i lt = absurd (omega arith)
total_full (suc n) f h e i lt =
    ground (arith, h n, total-le n f h, total_full n f h (omega (arith, h n, total-le n f h)) i)

pub total_ones : (n : ℕ) (f : ℕ → ℕ) → ((i : ℕ) → i < n → f i ≡ 1) → total n f ≡ n
total_ones zero f h = refl
total_ones (suc n) f h =
    omega (arith, total_ones n f (λ i lt. h i (omega arith)), h n (omega arith))

total_one :
    (n k : ℕ) (f : ℕ → ℕ)
    → total n (λ i. (if i == k then 1 else 0) + f i) ≡ (if ltb k n then 1 else 0) + total n f
total_one zero k f = ground arith
total_one (suc n) k f = ground (arith, total_one n k f)

-- A list of numbers below `n` has as many entries as all those numbers occur in it.
pub total-count :
    (n : ℕ) (l : List ℕ) → ((i : ℕ) → n ≤ i → count i l ≡ 0) → total n (λ i. count i l) ≡ length l
total-count n [] h = total_zero n
total-count n (x ∷ l) h =
    ground
      (arith, h x, total_one n x (λ i. count i l), total-count n l (λ i hi. omega (arith, h i hi)))

-- A list in which one entry is replaced by some others.
pub weigh_split {ℓ} :
    {A : Type ℓ} (w : A → ℕ) {l : List A} (xs ys : List A) (x : A)
    → l ≡ xs ++ (x ∷ ys)
    → weigh w l ≡ w x + (weigh w xs + weigh w ys)
weigh_split w xs ys x e = omega (arith, ap (weigh w) e, weigh-append w xs (x ∷ ys))

pub weigh_replaced {ℓ} :
    {A : Type ℓ} (w : A → ℕ) (xs zs ys : List A)
    → weigh w (xs ++ (zs ++ ys)) ≡ weigh w zs + (weigh w xs + weigh w ys)
weigh_replaced w xs zs ys = omega (arith, weigh-append w xs (zs ++ ys), weigh-append w zs ys)

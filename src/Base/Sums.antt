-- ===== src/Base/Sums.antt =====
-- Sums over a list and over an initial stretch of the numbers.
use async_lib.Base.{dec_lt, ℕ, zero, suc, ◌+◌, ◌<◌, ◌≡◌, ◌≢◌, refl, List, [], ◌∷◌, ◌++◌, arith}

abbrev pub weigh {ℓ} : {A : Type ℓ} → (A → ℕ) → List A → ℕ
weigh w [] = 0
weigh w (x ∷ xs) = w x + weigh w xs

pub weigh-append {ℓ} :
    {A : Type ℓ} (w : A → ℕ) (xs ys : List A) → weigh w (xs ++ ys) ≡ weigh w xs + weigh w ys
weigh-append w [] ys = omega arith
weigh-append w (x ∷ xs) ys = omega (arith, weigh-append w xs ys)

-- The sum of `f` over the numbers below `n`.
abbrev pub total : ℕ → (ℕ → ℕ) → ℕ
total zero f = 0
total (suc n) f = total n f + f n

pub total_same : (n : ℕ) (f f' : ℕ → ℕ) → ((i : ℕ) → i < n → f i ≡ f' i) → total n f ≡ total n f'
total_same zero f f' h = refl
total_same (suc n) f f' h =
    omega (arith, total_same n f f' (λ i lt. h i (omega arith)), h n (omega arith))

-- Two families that differ at `k` only.
pub total_at :
    (n k : ℕ) (f f' : ℕ → ℕ)
    → k < n
    → ((i : ℕ) → i ≢ k → f i ≡ f' i)
    → total n f' + f k ≡ total n f + f' k
total_at zero k f f' h same = absurd (omega arith)
total_at (suc n) k f f' h same = elim (dec_lt k n) [
  | yes lt ↦ omega (arith, total_at n k f f' lt same, same n (omega arith))
  | no last ↦
      let e : k ≡ n = omega arith in
      rw e (omega (arith, total_same n f f' (λ i lt. same i (omega arith))))
]

pub total_zero : (n : ℕ) → total n (λ _. 0) ≡ 0
total_zero zero = refl
total_zero (suc n) = omega (arith, total_zero n)

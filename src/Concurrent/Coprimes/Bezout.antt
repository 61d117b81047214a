-- ===== src/Concurrent/Coprimes/Bezout.antt =====
-- The loop for the greatest common divisor that ends with 1 gives multiples of its two arguments
-- that are neighbours.
use async_lib.Base.{
  ◌↔◌, ℕ, zero, suc, ◌+◌, ◌-◌, ◌*◌, ◌/◌, ◌%◌, ◌<◌, ◌≡◌, ◌≢◌, refl, arith, dec_lt, ap, sym, subst,
  ◌∙◌,
}
use async_lib.Concurrent.Coprimes.{gcd_loop}

-- Multiples of `a` and `b` that are neighbours, either way round.
pub record Neighbours (a b : ℕ) : Type 0 where
  pub above : (x : ℕ) × (y : ℕ) × (a * x ≡ b * y + 1)
  pub below : (x : ℕ) × (y : ℕ) × (a * x + 1 ≡ b * y)

Neighbours-one : (a : ℕ) → 0 < a → Neighbours a 1
Neighbours-one a h = record { above = (1, a - 1, omega arith); below = (0, 1, omega arith) }

Neighbours-step : (a b q r : ℕ) → a ≡ b * q + r → Neighbours b r → Neighbours a b
Neighbours-step a b q r e h =
    let (x, y, p) = h.below in
    let (z, w, s) = h.above in
    record {
      above = (y, x + q * y, omega (arith, p, ap (λ t. t * y) e));
      below = (w, z + q * w, omega (arith, s, ap (λ t. t * w) e));
    }

div_mod : (a b : ℕ) → 0 < b → (a ≡ b * (a / b) + a % b) × (a % b < b)
div_mod a b h = grind arith

gcd_loop_zero : (fuel a : ℕ) → gcd_loop fuel a 0 ≡ a
unfolding gcd_loop
gcd_loop_zero zero a = refl
gcd_loop_zero (suc fuel) a = refl

gcd_loop-suc : (fuel a b : ℕ) → 0 < b → gcd_loop (suc fuel) a b ≡ gcd_loop fuel b (a % b)
unfolding gcd_loop
gcd_loop-suc fuel a b h = ground arith

-- Enough fuel for the loop is more than its second argument.
pub gcd_loop-Neighbours :
    (fuel a b : ℕ) → 0 < a → 0 < b → b < fuel → gcd_loop fuel a b ≡ 1 → Neighbours a b
gcd_loop-Neighbours zero a b pa pb h e = absurd (omega arith)
gcd_loop-Neighbours (suc fuel) a b pa pb h e =
    let (d, m) = div_mod a b pb in
    elim (dec_lt 0 (a % b)) [
      | yes pr ↦ Neighbours-step a b (a / b) (a % b) d (
          gcd_loop-Neighbours fuel b (a % b) pb pr (omega arith)
            (sym (gcd_loop-suc fuel a b pb) ∙ e))
      | no nr ↦
          subst (Neighbours a)
            (sym (
              sym (gcd_loop_zero fuel b)
              ∙ ap (gcd_loop fuel b) (omega arith)
              ∙ sym (gcd_loop-suc fuel a b pb)
              ∙ e))
            (Neighbours-one a pa)
    ]

-- `d` divides both `a` and `b`.
abbrev pub Divides : ℕ → ℕ → Type 0
Divides d a = (k : ℕ) × (d * k ≡ a)

-- The loop ends with a number that divides both its arguments.
pub gcd_loop-Divides :
    (fuel a b : ℕ) → b < fuel → Divides (gcd_loop fuel a b) a × Divides (gcd_loop fuel a b) b
gcd_loop-Divides zero a b h = absurd (omega arith)
gcd_loop-Divides (suc fuel) a b h = elim (dec_lt 0 b) [
  | yes pb ↦
      let (d, m) = div_mod a b pb in
      let ((j, p), (k, q)) = gcd_loop-Divides fuel b (a % b) (omega arith) in
      rw (gcd_loop-suc fuel a b pb)
        ((j * (a / b) + k, omega (arith, p, q, ap (λ t. t * (a / b)) p)), (j, p))
  | no nb ↦ (
    (1, omega (arith, gcd_loop_zero (suc fuel) a, ap (gcd_loop (suc fuel) a) (zero_of b nb))),
    (0, omega (arith)),
  )
]
  where
    zero_of : (b : ℕ) → ¬ (0 < b) → b ≡ 0
    zero_of b h = omega arith

-- 1 alone divides both `a` and `b`.
abbrev pub Coprime : ℕ → ℕ → Type 0
Coprime a b = (d : ℕ) → Divides d a → Divides d b → d ≡ 1

multiples_apart : (d u v : ℕ) → 1 < d → d * u ≢ d * v + 1
multiples_apart d zero v h e = omega arith
multiples_apart d (suc u) zero h e = omega arith
multiples_apart d (suc u) (suc v) h e = multiples_apart d u v h (omega arith)

pub divides_one : (d u v : ℕ) → d * u ≡ d * v + 1 → d ≡ 1
divides_one zero u v e = absurd (omega arith)
divides_one (suc zero) u v e = refl
divides_one (suc (suc d)) u v e = absurd (multiples_apart (suc (suc d)) u v (omega arith) e)

Neighbours-Coprime : (a b : ℕ) → Neighbours a b → Coprime a b
Neighbours-Coprime a b h d (j, p) (k, q) =
    let (x, y, e) = h.above in
    divides_one d (j * x) (k * y) (omega (arith, e, ap (λ t. t * x) p, ap (λ t. t * y) q))

-- The loop ends with 1 exactly on numbers that are coprime.
pub gcd_loop_iff : (a b : ℕ) → 0 < a → 0 < b → (gcd_loop (b + 1) a b ≡ 1) ↔ Coprime a b
gcd_loop_iff a b pa pb = (
  λ e. Neighbours-Coprime a b (gcd_loop-Neighbours (b + 1) a b pa pb (omega arith) e),
  λ c. let (d, e) = gcd_loop-Divides (b + 1) a b (omega arith) in c _ d e,
)

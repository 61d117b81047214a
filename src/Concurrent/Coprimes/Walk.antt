-- ===== src/Concurrent/Coprimes/Walk.antt =====
-- The walk of work_queue_base.h over the queues of a pool, and the queues that it meets.
use async_lib.Base.{ℕ, zero, suc, ◌+◌, ◌-◌, ◌*◌, ◌/◌, ◌%◌, ◌^◌, ◌≤◌, ◌<◌, ◌≡◌, ap, arith, dec_lt}
use async_lib.Concurrent.Coprimes.{next_victim, fast_reduce}
use async_lib.Concurrent.Coprimes.Bezout.{Neighbours}

pub fast_reduce_lt :
    (x size : ℕ) → x < 2 ^ 32 → 0 < size → size < 2 ^ 32 → fast_reduce x size < size
fast_reduce_lt x size h p q = grind arith

-- The queue at which the walk from `v` stands after `j` steps.
abbrev pub victim_at : ℕ → ℕ → ℕ → ℕ → ℕ
victim_at n inc v zero = v
victim_at n inc v (suc j) = victim_at n inc (next_victim n inc v) j

pub next_victim_lem :
    (n inc v : ℕ)
    → v < n
    → inc ≤ n
    → n < 2 ^ 31
    → (next_victim n inc v < n) × (c : ℕ) × (v + inc ≡ next_victim n inc v + n * c)
next_victim_lem n inc v h k r = elim (dec_lt (v + inc) n) [
  | yes lt ↦ (ground arith, 0, ground arith)
  | no ge ↦ (ground arith, 1, ground arith)
]

victim_at_lem :
    (n inc v j : ℕ)
    → v < n
    → inc ≤ n
    → n < 2 ^ 31
    → (victim_at n inc v j < n) × (c : ℕ) × (v + inc * j ≡ victim_at n inc v j + n * c)
victim_at_lem n inc v zero h k r = (h, 0, omega arith)
victim_at_lem n inc v (suc j) h k r =
    let (b, c, e) = next_victim_lem n inc v h k r in
    let (b', c', e') = victim_at_lem n inc (next_victim n inc v) j b k r in
    (b', c + c', omega (arith, e, e'))

remainder_unique : (n c c' w t : ℕ) → w < n → t < n → w + n * c ≡ t + n * c' → w ≡ t
remainder_unique n zero zero w t h k e = omega arith
remainder_unique n zero (suc c') w t h k e = absurd (omega arith)
remainder_unique n (suc c) zero w t h k e = absurd (omega arith)
remainder_unique n (suc c) (suc c') w t h k e = remainder_unique n c c' w t h k (omega arith)

div_mod : (a b : ℕ) → 0 < b → (a ≡ b * (a / b) + a % b) × (a % b < b)
div_mod a b h = grind arith

solve_walk :
    (n inc v t d x y j q w c : ℕ)
    → v + d ≡ t + n
    → inc * x ≡ n * y + 1
    → d * x ≡ n * q + j
    → v + inc * j ≡ w + n * c
    → w + n * (c + inc * q) ≡ t + n * (1 + y * d)
solve_walk n inc v t d x y j q w c h e f g =
    omega (arith, h, ap (λ z. d * z) e, ap (λ z. inc * z) f, g)

-- Any queue `t` is met.
pub walk_meets :
    (n inc v t : ℕ)
    → v < n
    → t < n
    → inc ≤ n
    → n < 2 ^ 31
    → Neighbours inc n
    → (j : ℕ) × (j < n) × (victim_at n inc v j ≡ t)
walk_meets n inc v t hv ht hi hn nb =
    let (x, y, e) = nb.above in
    let d = t + n - v in
    let (q, b) = div_mod (d * x) n (omega arith) in
    let j = d * x % n in
    let (w, c, f) = victim_at_lem n inc v j hv hi hn in
    (
      j,
      b,
      remainder_unique n (c + inc * (d * x / n)) (1 + y * d) (victim_at n inc v j) t w ht
          (solve_walk n inc v t d x y j (d * x / n) (victim_at n inc v j) c (omega arith) e q f),
    )

-- ===== src/Concurrent/Coprimes/Members.antt =====
-- ComputeCoprimes of work_queue_base.h: the members of its list.
use async_lib.Base.{ℕ, zero, suc, ◌+◌, ◌≤◌, ◌<◌, ◌≡◌, ◌↔◌, arith, List, [], ◌∷◌, length, mem, true}
use async_lib.Concurrent.Coprimes.{compute_coprimes, coprimes_from, gcd_loop}
use async_lib.Concurrent.Coprimes.Bezout.{divides_one, Coprime, gcd_loop_iff}

mem-coprimes_from :
    (left i n j : ℕ)
    → (mem j (coprimes_from left i n) ≡ true)
      ↔ ((i ≤ j) × (j < i + left) × (gcd_loop (n + 1) j n ≡ 1))
unfolding coprimes_from
mem-coprimes_from zero i n j = ground arith
mem-coprimes_from (suc left) i n j = ground (arith, mem-coprimes_from left (i + 1) n j)

-- ComputeCoprimes lists exactly the numbers from 1 to a positive `n` that have no common divisor
-- with `n` but 1.
pub mem-compute_coprimes :
    (n : ℕ)
    → 0 < n
    → (j : ℕ) → (mem j (compute_coprimes n) ≡ true) ↔ ((0 < j) × (j ≤ n) × Coprime j n)
unfolding compute_coprimes
mem-compute_coprimes n h j =
    let (f, g) = mem-coprimes_from n 1 n j in
    (
      λ m.
          let (a, b, c) = f m in (omega arith, omega arith, (gcd_loop_iff j n (omega arith) h).0 c),
      λ (a, b, c). g (omega arith, omega arith, (gcd_loop_iff j n a h).1 c),
    )

mem_some : (j : ℕ) (l : List ℕ) → mem j l ≡ true → 0 < length l
mem_some j [] m = ground arith
mem_some j (x ∷ l) m = omega arith

pub compute_coprimes_some : (n : ℕ) → 0 < n → 0 < length (compute_coprimes n)
compute_coprimes_some n h = mem_some 1 (compute_coprimes n) (
    (mem-compute_coprimes n h 1).1
      (omega arith, omega arith, λ d (k, e) _. divides_one d k 0 (omega (arith, e))))

length-coprimes_from : (left i n : ℕ) → length (coprimes_from left i n) ≤ left
unfolding coprimes_from
length-coprimes_from zero i n = omega arith
length-coprimes_from (suc left) i n = ground (arith, length-coprimes_from left (i + 1) n)

pub length-compute_coprimes : (n : ℕ) → length (compute_coprimes n) ≤ n
unfolding compute_coprimes
length-compute_coprimes n = length-coprimes_from n 1 n

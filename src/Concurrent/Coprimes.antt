-- ===== src/Concurrent/Coprimes.antt =====
-- async/concurrent/work_queue_base.h: the random walk over the worker queues of a pool. The walk
-- starts at a random victim and goes on by a random number that is coprime to their number.
pub mod Bezout
pub mod Members
mod Tests
pub mod Walk
use async_lib.Base.{
  ℕ, zero, suc, ◌+◌, ◌-◌, ◌*◌, ◌/◌, ◌%◌, ◌^◌, ◌<◌, List, [], ◌∷◌, ltb, ◌==◌, if◌then◌else◌,
}
use async_lib.Base.Words.{u32, u64, sub32}
use Prim.Native.Nat.{bit_xor}

-- FastRng: a draw, and the state after it.
abbrev pub next_random : ℕ → ℕ × ℕ
next_random state = (
  u32 (bit_xor state (state / 2 ^ 22) / 2 ^ (22 + state / 2 ^ 61)),
  u64 (u64 (state * 6364136223846793005) + 15726070495360670683),
)

abbrev pub fast_reduce : ℕ → ℕ → ℕ
fast_reduce x size = u32 (u64 (x * size) / 2 ^ 32)

-- `while (b != 0)`, on fuel: `b` is lower in every round.
pub gcd_loop : ℕ → ℕ → ℕ → ℕ
gcd_loop zero a b = a
gcd_loop (suc fuel) a b = let rest = gcd_loop fuel b (a % b) in if b == 0 then a else rest

-- The body of `for (unsigned i = 1; i <= total; i++)`, with the rounds left.
pub coprimes_from : ℕ → ℕ → ℕ → List ℕ
unfolding gcd_loop
coprimes_from zero i n = []
coprimes_from (suc left) i n =
    let rest = coprimes_from left (i + 1) n in if gcd_loop (n + 1) i n == 1 then i ∷ rest else rest

pub compute_coprimes : ℕ → List ℕ
unfolding coprimes_from
compute_coprimes n = coprimes_from n 1 n

-- `victim += inc; if (victim >= mNumThreads) victim -= mNumThreads`.
abbrev pub next_victim : ℕ → ℕ → ℕ → ℕ
next_victim n inc victim = let sum = u32 (victim + inc) in if ltb sum n then sum else sub32 sum n

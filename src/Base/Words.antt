-- ===== src/Base/Words.antt =====
-- Machine words as native numbers. `x & (2 ^ k - 1)` is `x % 2 ^ k`, `x >> k` is `x / 2 ^ k`, and
-- `a | b` of words with no common bit is `a + b`; `^` is the native `bit_xor`.
use Prim.Native.Nat.{
  ℕ, zero, suc, ◌+◌, ◌-◌, ◌*◌, ◌/◌, ◌%◌, ◌^◌, ◌≤◌, ◌<◌, bit_xor, differ, digits, bit_xor-bitwise,
}
use mathlib.Core.Path.{◌≡◌, refl}
use mathlib.Core.Logic.{◌↔◌}
use native.Mathlib.Nat.{pow-suc}
use native.Mathlib.Omega.{arith}

abbrev pub u32 : ℕ → ℕ
u32 n = n % 2 ^ 32

abbrev pub u64 : ℕ → ℕ
u64 n = n % 2 ^ 64

-- Subtraction of unsigned words wraps.
abbrev pub sub32 : ℕ → ℕ → ℕ
sub32 a b = u32 (a + 2 ^ 32 - b)

abbrev pub sub64 : ℕ → ℕ → ℕ
sub64 a b = u64 (a + 2 ^ 64 - b)

-- The law of the lowest digit, from the definition that the native operation stands for.
abbrev xor_digits : ℕ → ℕ → ℕ → ℕ
xor_digits n a b = digits (λ b. b) differ n a b

xor_digits_fuel : (n m a b : ℕ) → a ≤ n → a ≤ m → xor_digits n a b ≡ xor_digits m a b
xor_digits_fuel zero zero a b p q = refl
xor_digits_fuel zero (suc m) zero b p q = refl
xor_digits_fuel zero (suc m) (suc a) b p q = absurd (omega arith)
xor_digits_fuel (suc n) zero zero b p q = refl
xor_digits_fuel (suc n) zero (suc a) b p q = absurd (omega arith)
xor_digits_fuel (suc n) (suc m) zero b p q = refl
xor_digits_fuel (suc n) (suc m) (suc a) b p q =
    omega (arith, xor_digits_fuel n m (suc a / 2) (b / 2) (omega arith) (omega arith))

zero-bit_xor : (b : ℕ) → bit_xor 0 b ≡ b
zero-bit_xor b = bit_xor-bitwise 0 b

bit_xor_step : (a b : ℕ) → bit_xor a b ≡ bit_xor (a / 2) (b / 2) * 2 + differ (a % 2) (b % 2)
bit_xor_step zero b = omega (arith, zero-bit_xor b, zero-bit_xor (b / 2))
bit_xor_step (suc a) b = omega (
  arith,
  bit_xor-bitwise (suc a) b,
  bit_xor-bitwise (suc a / 2) (b / 2),
  xor_digits_fuel a (suc a / 2) (suc a / 2) (b / 2) (omega arith) (omega arith),
)

differ_bits : (x y : ℕ) → x < 2 → y < 2 → (differ x y < 2) × ((differ x y ≡ 0) ↔ (x ≡ y))
differ_bits zero y h k = ground arith
differ_bits (suc zero) zero h k = ground arith
differ_bits (suc zero) (suc zero) h k = ground arith
differ_bits (suc zero) (suc (suc y)) h k = absurd (omega arith)
differ_bits (suc (suc x)) y h k = absurd (omega arith)

mod_double : (a m : ℕ) → 0 < m → a % (m * 2) ≡ (a / 2 % m) * 2 + a % 2
mod_double a m h = grind arith

two_pow_pos : (k : ℕ) → 0 < 2 ^ k
two_pow_pos zero = omega arith
two_pow_pos (suc k) = omega (arith, pow-suc 2 k, two_pow_pos k)

bit_xor_halves :
    (a b : ℕ)
    → (bit_xor a b / 2 ≡ bit_xor (a / 2) (b / 2)) × (bit_xor a b % 2 ≡ differ (a % 2) (b % 2))
bit_xor_halves a b =
    omega (arith, bit_xor_step a b, differ_bits (a % 2) (b % 2) (omega arith) (omega arith))

join_digits :
    (p q r d u v : ℕ)
    → u < 2
    → v < 2
    → (p ≡ 0) ↔ (q ≡ r)
    → (d ≡ 0) ↔ (u ≡ v)
    → (p * 2 + d ≡ 0) ↔ (q * 2 + u ≡ r * 2 + v)
join_digits p q r d u v hu hv high low = (
  λ e. omega (arith, high.0 (omega arith), low.0 (omega arith)),
  λ e. omega (arith, high.1 (omega arith), low.1 (omega arith)),
)

xor_mod_double :
    (m a b : ℕ)
    → 0 < m
    → (bit_xor (a / 2) (b / 2) % m ≡ 0) ↔ (a / 2 % m ≡ b / 2 % m)
    → (bit_xor a b % (m * 2) ≡ 0) ↔ (a % (m * 2) ≡ b % (m * 2))
xor_mod_double m a b h ih =
    rw (mod_double (bit_xor a b) m h, mod_double a m h, mod_double b m h, halves.0, halves.1)
      (join_digits _ _ _ _ (a % 2) (b % 2) (omega arith) (omega arith) ih bits.1)
  where
    halves :
        (bit_xor a b / 2 ≡ bit_xor (a / 2) (b / 2)) × (bit_xor a b % 2 ≡ differ (a % 2) (b % 2))
    halves = bit_xor_halves a b

    bits : (differ (a % 2) (b % 2) < 2) × ((differ (a % 2) (b % 2) ≡ 0) ↔ (a % 2 ≡ b % 2))
    bits = differ_bits (a % 2) (b % 2) (omega arith) (omega arith)

-- The low `k` bits of two words agree exactly when those of `a ^ b` are all zero.
pub bit_xor-mod_zero : (k a b : ℕ) → (bit_xor a b % 2 ^ k ≡ 0) ↔ (a % 2 ^ k ≡ b % 2 ^ k)
bit_xor-mod_zero zero a b = omega arith
bit_xor-mod_zero (suc k) a b =
    rw (pow-suc 2 k)
      (xor_mod_double (2 ^ k) a b (two_pow_pos k) (bit_xor-mod_zero k (a / 2) (b / 2)))

-- ===== src/Base/Lists.antt =====
-- Lists measured and indexed by native numbers, under the library's names.
use Prim.Native.Nat.{ℕ, zero, suc, ◌+◌, ◌<◌}
use mathlib.Core.Path.{◌≡◌, refl, ap}
use mathlib.Core.List.{List, [], ◌∷◌, ◌++◌, reverse, reverse-cons}
use mathlib.Core.Option.{Option, none, some}
use native.Mathlib.Omega.{arith}
use mathlib.Core.Bool.{Bool, true, false, ◌||◌}
use async_lib.Base.Tests.{◌==◌}

module _ {ℓ} {A : Type ℓ} where
  abbrev pub length : List A → ℕ
  length [] = 0
  length (x ∷ xs) = suc (length xs)

  abbrev pub get_elem? : List A → ℕ → Option A
  get_elem? [] i = none
  get_elem? (x ∷ xs) zero = some x
  get_elem? (x ∷ xs) (suc i) = get_elem? xs i

  abbrev pub take : ℕ → List A → List A
  take zero xs = []
  take (suc n) [] = []
  take (suc n) (x ∷ xs) = x ∷ take n xs

  abbrev pub drop : ℕ → List A → List A
  drop zero xs = xs
  drop (suc n) [] = []
  drop (suc n) (x ∷ xs) = drop n xs

  pub length-append : (xs ys : List A) → length (xs ++ ys) ≡ length xs + length ys
  length-append [] ys = omega arith
  length-append (x ∷ xs) ys = omega (arith, length-append xs ys)

  pub length-reverse : (xs : List A) → length (reverse xs) ≡ length xs
  length-reverse [] = refl
  length-reverse (x ∷ xs) =
      omega (
        arith,
        ap length (reverse-cons x xs),
        length-append (reverse xs) (x ∷ []),
        length-reverse xs,
      )

-- Whether `i` is among those listed.
abbrev pub mem : ℕ → List ℕ → Bool
mem i [] = false
mem i (x ∷ xs) = i == x || mem i xs

-- The element at a position; past the end, 0 stands for what the source leaves open.
abbrev pub get_elem : List ℕ → ℕ → ℕ
get_elem [] i = 0
get_elem (x ∷ xs) zero = x
get_elem (x ∷ xs) (suc i) = get_elem xs i

pub mem-get_elem : (l : List ℕ) (i : ℕ) → i < length l → mem (get_elem l i) l ≡ true
mem-get_elem [] i h = absurd (omega arith)
mem-get_elem (x ∷ l) zero h = ground arith
mem-get_elem (x ∷ l) (suc i) h = ground (arith, mem-get_elem l i)

-- ===== src/Support/Latch/Released.antt =====
-- The latch against a plain count.
use async_lib.Base.{ℕ, ◌+◌, ◌-◌, ◌/◌, ◌%◌, ◌^◌, ◌≤◌, ◌<◌, ◌≡◌, true, List, [], ◌∷◌}
use async_lib.Support.Latch.{Latch, Call, adds, downs, waits}

-- The count after a call.
abbrev pub count_after : Call → ℕ → ℕ
count_after (adds n) count = count + n
count_after (downs n) count = count - n
count_after waits count = count

abbrev pub counted : List Call → ℕ → ℕ
counted [] count = count
counted (c ∷ cs) count = counted cs (count_after c count)

-- What the source asserts, and, which it does not assert, that a latch which has reached zero is not
-- counted up again: `notified_` would stay set.
abbrev pub Allowed : Call → ℕ → Type 0
Allowed (adds n) count = (0 < count) × (count + n < 2 ^ 63)
Allowed (downs n) count = n ≤ count
Allowed waits count = Unit

abbrev pub AllAllowed : List Call → ℕ → Type 0
AllAllowed [] count = Unit
AllAllowed (c ∷ cs) count = Allowed c count × AllAllowed cs (count_after c count)

-- The word has the count and whether a thread has come to wait. Where one is blocked, the bit is
-- set, and it has been notified exactly if the count is zero.
pub record Inv (count : ℕ) (l : Latch) (blocked : ℕ) : Type 0 where
  pub small : count < 2 ^ 63
  pub word : l.state / 2 ≡ count
  pub told : l.notified ≡ true → count ≡ 0
  pub asked : 0 < blocked → l.state % 2 ≡ 1
  pub released : 0 < blocked → count ≡ 0 → l.notified ≡ true

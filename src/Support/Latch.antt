-- ===== src/Support/Latch.antt =====
-- async/support/latch.h: a counter that threads wait on. A call is its one access to `state_`, with
-- the notification that follows it.
pub mod Released
mod Tests
use async_lib.Base.{
  ℕ, ◌+◌, ◌-◌, ◌*◌, ◌/◌, ◌%◌, ◌^◌, ◌≤◌, ◌<◌, Bool, true, false, ◌&&◌, ◌==◌, if◌then◌else◌, List, [],
  ◌∷◌,
}
use async_lib.Base.Words.{u64, sub64}

pub record Latch : Type 0 where
  pub state : ℕ
  pub notified : Bool

unfoldable pub init : ℕ → Latch
init count = record { state = u64 (count * 2); notified = false }

unfoldable pub add_count : ℕ → Latch → Latch
add_count n l = record l { state = u64 (l.state + n * 2) }

unfoldable pub count_down : ℕ → Latch → Latch
count_down n l = record {
  state = sub64 l.state (n * 2);
  notified = if l.state / 2 == n && l.state % 2 == 1 then true else l.notified;
}

unfoldable pub try_wait : Latch → Bool
try_wait l = l.state / 2 == 0

-- The start of `wait`: whether it returns at once. `fetch_or(1)` sets the lowest bit.
unfoldable pub wait : Latch → Bool × Latch
wait l = (l.state / 2 == 0, record l { state = l.state - l.state % 2 + 1 })

-- The calls, with the number of threads that have been left in `cv_.wait`.
pub data Call : Type 0 where
  adds downs : ℕ → Call
  waits : Call

unfoldable pub call : Call → Latch × ℕ → Latch × ℕ
unfolding add_count count_down wait
call (adds n) (l, blocked) = (add_count n l, blocked)
call (downs n) (l, blocked) = (count_down n l, blocked)
call waits (l, blocked) = let (free, l') = wait l in (l', if free then blocked else blocked + 1)

unfoldable pub run : List Call → Latch × ℕ → Latch × ℕ
run [] s = s
run (c ∷ cs) s = run cs (call c s)

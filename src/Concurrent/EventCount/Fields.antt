-- ===== src/Concurrent/EventCount/Fields.antt =====
-- What each operation of `EventCount` does to the fields of the state word.
use async_lib.Base.{ℕ, ◌+◌, ◌-◌, ◌^◌, ◌<◌, ◌≡◌, arith}
use async_lib.Base.Words.{u64, sub64}
use async_lib.Concurrent.EventCount.{waiter_inc, signal_inc, stack_of, waiters_of, signals_of}

-- A word with the given fields, and whatever stands above them.
pub record Holds (s stack waiters signals : ℕ) : Type 0 where
  pub fits : s < 2 ^ 64
  pub stack_field : stack_of s ≡ stack
  pub waiters_field : waiters_of s ≡ waiters
  pub signals_field : signals_of s ≡ signals

module _ {s a w g : ℕ} (h : Holds s a w g) where
  pub inc_waiters : w + 1 < 2 ^ 14 → Holds (u64 (s + waiter_inc)) a (w + 1) g
  inc_waiters room = omega arith

  pub dec_waiters : 0 < w → Holds (sub64 s waiter_inc) a (w - 1) g
  dec_waiters pos = omega arith

  pub dec_both : 0 < w → 0 < g → Holds (sub64 (sub64 s waiter_inc) signal_inc) a (w - 1) (g - 1)
  dec_both pos pos_g = omega arith

  pub inc_signals : g + 1 < 2 ^ 14 → Holds (u64 (s + signal_inc)) a w (g + 1)
  inc_signals room = omega arith

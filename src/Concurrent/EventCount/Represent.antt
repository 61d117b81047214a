-- ===== src/Concurrent/EventCount/Represent.antt =====
-- How a packed word and linked waiters keep the waits that the specification describes.
use async_lib.Base.{
  mem, ℕ, ◌/◌, ◌%◌, ◌^◌, ◌≤◌, ◌<◌, ◌≡◌, refl, Bool, true, false, List, [], ◌∷◌, arith, length, ◌==◌,
}
use async_lib.Concurrent.EventCount.{
  EventCount, Waiter, waiting, signaled, stack_of, prewait, cancel_wait, commit_wait, notify,
}
use async_lib.Concurrent.EventCount.Fields.{Holds}
use async_lib.Concurrent.EventCount.Spec.{
  Waits, Call, prewaits, cancels, commits, notifies, after, woken,
}

-- The waiters `l` are linked from index `a`, all waiting, each once.
abbrev pub Linked : (ℕ → Waiter) → ℕ → List ℕ → Type 0
Linked w a [] = a ≡ 16383
Linked w a (i ∷ l) =
    (a ≡ i)
    × (i < 16383)
    × ((w i).state ≡ waiting)
    × ((w i).next < 2 ^ 64)
    × ((w i).next / 2 ^ 14 % 2 ^ 28 ≡ 0)
    × (mem i l ≡ false)
    × Linked w (stack_of (w i).next) l

-- The event count `c` keeps the waits `v`.
pub record Keeps (c : EventCount) (v : Waits) : Type 0 where
  pub fields : Holds c.state (stack_of c.state) v.pre v.signals
  pub linked : Linked c.waiter (stack_of c.state) v.parked
  pub epochs : (i : ℕ) → ((c.waiter i).epoch < 2 ^ 64) × ((c.waiter i).epoch % 2 ^ 42 ≡ 0)
  pub covered : v.signals ≤ v.pre
  pub room : v.pre < 16383
  pub few : length v.parked ≤ 16383

pub Linked-cong :
    (w w' : ℕ → Waiter) (a : ℕ) (l : List ℕ)
    → ((j : ℕ) → mem j l ≡ true → w' j ≡ w j)
    → Linked w a l
    → Linked w' a l
Linked-cong w w' a [] same h = h
Linked-cong w w' a (i ∷ l) same (e, b, s, n, z, m, h) =
    let e_i = same i (ground arith) in
    (
      e,
      b,
      ground (arith, e_i),
      ground (arith, e_i),
      ground (arith, e_i),
      m,
      Linked-cong w w' (stack_of (w' i).next) l (λ j hj. same j (ground arith))
          (ground (arith, e_i)),
    )

pub at_top : (w : ℕ → Waiter) (a i : ℕ) (l : List ℕ) → Linked w a (i ∷ l) → Linked w i (i ∷ l)
at_top w a i l (e, b, s, n, z, m, r) = (refl, b, s, n, z, m, r)

-- One call: whether the caller parks, and the event count after it.
unfoldable pub run : Call → EventCount → Bool × EventCount
run prewaits c = (false, prewait c)
run cancels c = (false, cancel_wait c)
run (commits i) c = commit_wait i c
run (notifies all) c = (false, notify all c)

-- A thread parks exactly when it commits with no signal pending.
unfoldable pub parks : Call → Waits → Bool
parks (commits i) v = v.signals == 0
parks _ v = false

-- Whether the call is the commit of waiter `i`.
abbrev pub committing : Call → ℕ → Bool
committing (commits i) j = i == j
committing _ j = false

-- The call answers, keeps its waits, and signals the waiters that it wakes and no others.
pub record Answers (call : Call) (c : EventCount) (v : Waits) (r : Bool × EventCount) : Type 0 where
  pub answer : r.0 ≡ parks call v
  pub kept : Keeps r.1 (after call v)
  pub wakes : (j : ℕ) → mem j (woken call v) ≡ true → (r.1.waiter j).state ≡ signaled
  pub others :
      (j : ℕ)
      → mem j (woken call v) ≡ false
      → committing call j ≡ false
      → (r.1.waiter j).state ≡ (c.waiter j).state

-- ===== src/Concurrent/EventCount/Spec.antt =====
-- What `EventCount` promises: a stack of parked waiters, a number of threads that have announced a
-- wait, and a number of signals for these.
use async_lib.Base.{
  mem, ℕ, ◌+◌, ◌-◌, ◌<◌, ◌≡◌, Bool, true, false, List, [], ◌∷◌, length, ltb, ◌==◌, if◌then◌else◌,
  arith, refl,
}

pub record Waits : Type 0 where
  pub parked : List ℕ
  pub pre : ℕ
  pub signals : ℕ

pub data Call : Type 0 where
  prewaits cancels : Call
  commits : ℕ → Call
  notifies : Bool → Call

abbrev pub tail : List ℕ → List ℕ
tail [] = []
tail (x ∷ xs) = xs

unfoldable pub after : Call → Waits → Waits
after prewaits v = record v { pre = v.pre + 1 }
after cancels v = record v {
  pre = v.pre - 1;
  signals = if v.pre == v.signals then v.signals - 1 else v.signals;
}
after (commits i) v =
    if v.signals == 0
    then record v { parked = i ∷ v.parked; pre = v.pre - 1 }
    else record v { pre = v.pre - 1; signals = v.signals - 1 }
after (notifies true) v = record v { parked = []; signals = v.pre }
after (notifies false) v =
    if ltb v.signals v.pre
    then record v { signals = v.signals + 1 }
    else record v { parked = tail v.parked }

abbrev pub head : List ℕ → List ℕ
head [] = []
head (x ∷ xs) = x ∷ []

-- The parked waiters that a call wakes.
unfoldable pub woken : Call → Waits → List ℕ
woken (notifies true) v = v.parked
woken (notifies false) v = if ltb v.signals v.pre then [] else head v.parked
woken _ v = []

-- Calls that the protocol allows: a wait is announced before it is cancelled or committed, a
-- parked waiter does not commit again, and the fields have room.
abbrev pub IsAllowed : Call → Waits → Type 0
IsAllowed prewaits v = v.pre + 1 < 16383
IsAllowed cancels v = 0 < v.pre
IsAllowed (commits i) v =
    (0 < v.pre) × (i < 16383) × (mem i v.parked ≡ false) × (length v.parked < 16383)
IsAllowed (notifies all) v = Unit

-- Threads that are waiting, or about to wait, with no signal for them.
abbrev pub unreleased : Waits → ℕ
unreleased v = v.pre - v.signals + length v.parked

length-tail : (l : List ℕ) → length (tail l) ≡ length l - 1
length-tail [] = refl
length-tail (x ∷ l) = omega arith

-- A notification of one releases one unreleased thread, if there is any; a notification of all
-- releases every one.
pub unreleased-notifies :
    (v : Waits)
    → (unreleased (after (notifies false) v) ≡ unreleased v - 1)
      × (unreleased (after (notifies true) v) ≡ 0)
unfolding after
unreleased-notifies v = (ground (arith, length-tail v.parked), omega arith)

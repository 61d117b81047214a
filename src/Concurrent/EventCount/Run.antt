-- ===== src/Concurrent/EventCount/Run.antt =====
-- Sequences of calls of an `EventCount`.
use async_lib.Base.{◌-◌, ◌≡◌, refl, ap₂, Bool, true, false, List, [], ◌∷◌}
use async_lib.Concurrent.EventCount.{EventCount, notify}
use async_lib.Concurrent.EventCount.Represent.{Keeps, run, parks}
use async_lib.Concurrent.EventCount.Spec.{
  Waits, Call, notifies, after, IsAllowed, unreleased, unreleased-notifies,
}
use async_lib.Concurrent.EventCount.Refine.{run-Answers}

-- Whether each call parks, and the event count at the end.
unfoldable pub runs : List Call → EventCount → List Bool × EventCount
runs [] c = ([], c)
runs (call ∷ calls) c =
    let (parked, c1) = run call c in let (rest, c2) = runs calls c1 in (parked ∷ rest, c2)

abbrev pub all_parks : List Call → Waits → List Bool
all_parks [] v = []
all_parks (call ∷ calls) v = parks call v ∷ all_parks calls (after call v)

abbrev pub after_all : List Call → Waits → Waits
after_all [] v = v
after_all (call ∷ calls) v = after_all calls (after call v)

-- Each call is allowed where it is made.
abbrev pub AllAllowed : List Call → Waits → Type 0
AllAllowed [] v = Unit
AllAllowed (call ∷ calls) v = IsAllowed call v × AllAllowed calls (after call v)

-- Under calls that the protocol allows, the packed word and the linked waiters cannot be told from
-- a stack of parked waiters with two counters: each call parks exactly when the specification says,
-- and the event count at the end keeps the waits of the specification.
pub runs_refines :
    (calls : List Call) (c : EventCount) (v : Waits)
    → Keeps c v
    → AllAllowed calls v
    → ((runs calls c).0 ≡ all_parks calls v) × Keeps (runs calls c).1 (after_all calls v)
unfolding runs
runs_refines [] c v k ok = (refl, k)
runs_refines (call ∷ calls) c v k (ok, oks) =
    let a = run-Answers call c v k ok in
    let (r, k2) = runs_refines calls (run call c).1 (after call v) a.kept oks in
    (ap₂ (λ x y. x ∷ y) a.answer r, k2)

-- Notify of one leaves one thread fewer that waits with no signal for it, if there is any, and
-- Notify of all leaves none.
pub notify-unreleased :
    (c : EventCount) (v : Waits)
    → Keeps c v
    → ((one : Waits) × Keeps (notify false c) one × (unreleased one ≡ unreleased v - 1))
      × ((none : Waits) × Keeps (notify true c) none × (unreleased none ≡ 0))
unfolding run
notify-unreleased c v k =
    let (e1, e2) = unreleased-notifies v in
    (
      (after (notifies false) v, (run-Answers (notifies false) c v k tt).kept, e1),
      (after (notifies true) v, (run-Answers (notifies true) c v k tt).kept, e2),
    )

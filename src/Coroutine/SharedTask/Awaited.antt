-- ===== src/Coroutine/SharedTask/Awaited.antt =====
-- What holds of a shared task and those that await it, in any order of steps.
use async_lib.Base.{
  ℕ, ◌≤◌, ◌≡◌, ◌≢◌, refl, sym, ap, ◌∙◌, subst, arith, inl, inr, true, Bool-cases, [], ◌++◌,
}
use async_lib.Runtime.TaskGraph.Counting.{count, count-append}
use async_lib.Coroutine.SharedTask.{
  Word, not_started, ready, waiting, this_waiters, pointer, same_pointer, waiters, idle, checking,
  claiming, enqueuing, suspended, continuing, SharedTask, is_ready, await_ready, load, Step, asks,
  loads, claims, returns, enqueues, fails, ends, resumes, Steps, here, and_then,
}
use async_lib.Coroutine.SharedTask.Inv.{started, is_suspended, Fits, pointer-Seen, Inv, goes-Inv}
use async_lib.Coroutine.SharedTask.Moves.{
  Seen-started, claim-Inv, reload-Inv, enqueue-Inv, finish-Inv, resume-Inv,
}

ask-Inv : (s : SharedTask) → Inv s → (i : ℕ) → s.stage i ≡ idle → Inv (await_ready i s)
unfolding await_ready
ask-Inv s inv i e = elim (Bool-cases (is_ready s.word)) [
  | inl h ↦ rw h (goes-Inv s inv i continuing (ap is_suspended e) h)
  | inr h ↦ rw h (goes-Inv s inv i checking (ap is_suspended e) tt)
]

load-Inv : (s : SharedTask) → Inv s → (i : ℕ) → s.stage i ≡ checking → Inv (load i s)
unfolding load
load-Inv s inv i e = elim (Bool-cases (same_pointer (pointer s.word) this_waiters)) [
  | inl h ↦ rw h (goes-Inv s inv i claiming (ap is_suspended e) tt)
  | inr h ↦
      rw h
        (goes-Inv s inv i (enqueuing (pointer s.word)) (ap is_suspended e) (pointer-Seen s.word h))
]

Step-Inv : {s t : SharedTask} → Inv s → Step s t → Inv t
Step-Inv {s} inv (asks i e) = ask-Inv s inv i e
Step-Inv {s} inv (loads i e) = load-Inv s inv i e
Step-Inv {s} inv (claims i e) = claim-Inv s inv i e
Step-Inv {s} inv (returns i e) =
    reload-Inv s inv i (ap is_suspended e) (subst (λ x. Fits x s.word) e (inv.fits i))
Step-Inv {s} inv (enqueues i old e) = enqueue-Inv s inv i old e
Step-Inv {s} inv (fails i old e h) =
    reload-Inv s inv i (ap is_suspended e)
      (Seen-started old s.word (subst (λ x. Fits x s.word) e (inv.fits i)))
Step-Inv {s} inv (ends a b) = finish-Inv s inv a b
Step-Inv {s} inv (resumes i l e) = resume-Inv s inv i l e

Steps-Inv : {s : SharedTask} → Steps s → Inv s
Steps-Inv here = record {
  once = refl;
  ended = refl;
  fits = λ i. tt;
  listed = λ i. refl;
  later = λ h. refl;
}
Steps-Inv (and_then r st) = Step-Inv (Steps-Inv r) st

-- In any order of steps: the coroutine is started at most once; who continues past its await does so
-- after the coroutine has ended; a suspended awaiter stands exactly once among the waiters and those
-- still to be resumed, and any other does not; and when all of these have been resumed after the
-- end, nobody is suspended.
pub awaited_lem :
    (s : SharedTask)
    → Steps s
    → (s.starts ≤ 1)
      × ((i : ℕ) → s.stage i ≡ continuing → s.finished ≡ true)
      × ((i : ℕ) → count i (waiters s.word ++ s.resuming) ≡ is_suspended (s.stage i))
      × (s.finished ≡ true → s.resuming ≡ [] → (i : ℕ) → s.stage i ≢ suspended)
awaited_lem s r =
    let inv = Steps-Inv r in
    (
      omega (arith, inv.once, started-le s.word),
      λ i e. inv.ended ∙ subst (λ x. Fits x s.word) e (inv.fits i),
      λ i. count-append i (waiters s.word) s.resuming ∙ inv.listed i,
      λ f none_left i e. absurd (
          omega (
            arith,
            inv.listed i,
            ap is_suspended e,
            ap (count i) none_left,
            no_waiters s.word (sym inv.ended ∙ f) i,
          )),
    )
  where
    started-le : (w : Word) → started w ≤ 1
    started-le w = ground arith

    no_waiters : (w : Word) → is_ready w ≡ true → (i : ℕ) → count i (waiters w) ≡ 0
    no_waiters not_started h i = cc
    no_waiters ready h i = refl
    no_waiters (waiting l) h i = cc

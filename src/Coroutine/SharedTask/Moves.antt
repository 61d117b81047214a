-- ===== src/Coroutine/SharedTask/Moves.antt =====
-- TryAwait and FinalAwaiter of shared_task.h, step by step.
use async_lib.Base.{
  ℕ_discrete, ℕ, ◌+◌, ◌≤◌, ◌<◌, ◌≡◌, ◌≢◌, refl, sym, ap, ◌∙◌, subst, arith, inl, inr, true, false,
  Bool-cases, List, [], ◌∷◌,
}
use async_lib.Base.Family.{update, update_self, update_ne}
use async_lib.Runtime.TaskGraph.Counting.{count}
use async_lib.Coroutine.SharedTask.{
  Word, not_started, ready, waiting, Pointer, this_waiters, this_promise, null, head, pointer,
  same_pointer, waiters, Stage, claiming, starting, enqueuing, suspended, continuing, SharedTask,
  go, is_ready, claim, reload, enqueue, finish,
}
use async_lib.Coroutine.SharedTask.Inv.{
  started, is_suspended, Seen, Fits, Later-Fits, pointer-Seen, Inv, changed-Inv, goes-Inv,
}

unstarted : (w : Word) → same_pointer (pointer w) this_waiters ≡ true → w ≡ not_started
unstarted not_started h = refl
unstarted ready h = cc
unstarted (waiting []) h = cc
unstarted (waiting (i ∷ l)) h = cc

started-Seen : (w : Word) → started w ≡ 1 → Seen (pointer w) w
started-Seen not_started h = absurd (omega (arith, h))
started-Seen ready h = refl
started-Seen (waiting []) h = refl
started-Seen (waiting (i ∷ l)) h = refl

pub Seen-started : (p : Pointer) (w : Word) → Seen p w → started w ≡ 1
Seen-started this_waiters w h = absurd h
Seen-started this_promise ready h = refl
Seen-started this_promise not_started h = cc
Seen-started this_promise (waiting l) h = cc
Seen-started null w h = h
Seen-started (head i) w h = h

Seen-ready :
    (p : Pointer) (w : Word) → same_pointer p this_promise ≡ true → Seen p w → is_ready w ≡ true
Seen-ready this_waiters w e h = cc
Seen-ready this_promise w e h = h
Seen-ready null w e h = cc
Seen-ready (head i) w e h = cc

-- Where the pointer that was read is a list's and still stands, the word is that list.
still_waiting :
    (p : Pointer) (w : Word)
    → Seen p w
    → same_pointer p this_promise ≡ false
    → same_pointer p (pointer w) ≡ true
    → w ≡ waiting (waiters w)
still_waiting this_waiters w h a b = absurd h
still_waiting this_promise w h a b = cc
still_waiting p (waiting l) h a b = refl
still_waiting null not_started h a b = cc
still_waiting null ready h a b = cc
still_waiting (head i) not_started h a b = cc
still_waiting (head i) ready h a b = cc

pub suspended-le : (x : Stage) → is_suspended x ≤ 1
suspended-le x = ground arith

-- Suspended waiters as the word counts them, after `i` joins them.
joins :
    (i : ℕ) (w : Word) → w ≡ waiting (waiters w) → count i (i ∷ waiters w) ≡ count i (waiters w) + 1
joins i w e = ground arith

module _ (s : SharedTask) (inv : Inv s) where
  pub claim-Inv : (i : ℕ) → s.stage i ≡ claiming → Inv (claim i s)
  unfolding claim
  claim-Inv i e = elim (Bool-cases (same_pointer (pointer s.word) this_waiters)) [
    | inl h ↦
        let z = unstarted s.word h in
        rw h (
          changed-Inv s inv i starting (waiting []) (s.starts + 1)
            (omega (arith, inv.once, ap started z)) (ap is_ready z)
            (record {
              still_started = λ _. refl;
              still_ready = λ r. let r' : is_ready s.word ≡ true = r in cc (r', ap is_ready z);
            })
            refl (λ j _. sym (ap (λ w. count j (waiters w)) z))
            (omega (arith, ap is_suspended e, ap (λ w. count i (waiters w)) z)))
    | inr h ↦
        rw h (
          goes-Inv s inv i (enqueuing (pointer s.word)) (ap is_suspended e) (pointer-Seen s.word h))
  ]

  pub reload-Inv : (i : ℕ) → is_suspended (s.stage i) ≡ 0 → started s.word ≡ 1 → Inv (reload i s)
  unfolding reload
  reload-Inv i e h = goes-Inv s inv i (enqueuing (pointer s.word)) e (started-Seen s.word h)

  pub enqueue-Inv : (i : ℕ) (old : Pointer) → s.stage i ≡ enqueuing old → Inv (enqueue i old s)
  unfolding enqueue
  enqueue-Inv i old e =
      let seen : Seen old s.word = subst (λ x. Fits x s.word) e (inv.fits i) in
      let out = ap is_suspended e in
      elim (Bool-cases (same_pointer old this_promise)) [
        | inl h ↦ rw h (goes-Inv s inv i continuing out (Seen-ready old s.word h seen))
        | inr h ↦ rw h (elim (Bool-cases (same_pointer old (pointer s.word))) [
          | inl k ↦
              let z = still_waiting old s.word seen h k in
              rw k (
                changed-Inv s inv i suspended (waiting (i ∷ waiters s.word)) s.starts
                  (omega (arith, inv.once, Seen-started old s.word seen)) (ap is_ready z)
                  (record { still_started = λ _. refl; still_ready = λ r. cc (r, ap is_ready z) })
                  refl (λ j ne. ground (arith, ne)) (omega (arith, out, joins i s.word z)))
          | inr k ↦ rw k (
              goes-Inv s inv i (enqueuing (pointer s.word)) out
                (started-Seen s.word (Seen-started old s.word seen)))
        ])
      ]

  pub finish-Inv : 0 < s.starts → s.finished ≡ false → Inv (finish s)
  unfolding finish
  finish-Inv some_start going =
      let unready : is_ready s.word ≡ false = sym inv.ended ∙ going in
      record {
        once = omega (arith, inv.once, some_start, started-le s.word);
        ended = refl;
        fits = λ j.
            Later-Fits (s.stage j) s.word ready
              (record { still_started = λ _. refl; still_ready = λ _. refl }) (inv.fits j);
        listed = λ j. omega (arith, inv.listed j, ap (count j) (inv.later unready));
        later = λ h. cc;
      }
    where
      started-le : (w : Word) → started w ≤ 1
      started-le w = ground arith

  pub resume-Inv :
      (i : ℕ) (l : List ℕ) → s.resuming ≡ i ∷ l → Inv (go i continuing (record s { resuming = l }))
  resume-Inv i l e = record {
    once = inv.once;
    ended = inv.ended;
    fits = λ j. elim (ℕ_discrete i j) [
      | yes q ↦
          subst (λ j. Fits (update s.stage i continuing j) s.word) q
            (subst (λ x. Fits x s.word) (sym (update_self s.stage i continuing)) ready_now)
      | no ne ↦ subst (λ x. Fits x s.word) (sym (update_ne s.stage i continuing j ne)) (inv.fits j)
    ];
    listed = λ j. elim (ℕ_discrete i j) [
      | yes q ↦
          subst
            (λ j.
              count j (waiters s.word) + count j l ≡ is_suspended (update s.stage i continuing j))
            q
            (omega (
              arith,
              inv.listed i,
              ap (count i) e,
              counts_own,
              suspended-le (s.stage i),
              ap is_suspended (update_self s.stage i continuing),
            ))
      | no ne ↦ omega (
        arith,
        inv.listed j,
        ap (count j) e,
        counts_other j ne,
        ap is_suspended (update_ne s.stage i continuing j ne),
      )
    ];
    later = λ h. cc (inv.later h, e);
  }
    where
      ready_now : is_ready s.word ≡ true
      ready_now = elim (Bool-cases (is_ready s.word)) [ inl r ↦ r | inr u ↦ cc (inv.later u, e) ]

      counts_own : count i (i ∷ l) ≡ count i l + 1
      counts_own = ground arith

      counts_other : (j : ℕ) → i ≢ j → count j (i ∷ l) ≡ count j l
      counts_other j ne = ground (arith, ne)

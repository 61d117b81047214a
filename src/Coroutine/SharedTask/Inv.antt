-- ===== src/Coroutine/SharedTask/Inv.antt =====
-- What holds at every moment between a shared task of shared_task.h and those that await it.
use async_lib.Base.{
  ℕ_discrete, ℕ, ◌+◌, ◌≡◌, ◌≢◌, refl, sym, ap, ◌∙◌, subst, arith, true, false, [], ◌∷◌,
}
use async_lib.Base.Family.{update, update_self, update_ne}
use async_lib.Runtime.TaskGraph.Counting.{count}
use async_lib.Coroutine.SharedTask.{
  Word, not_started, ready, waiting, Pointer, this_waiters, this_promise, null, head, pointer,
  same_pointer, waiters, Stage, idle, checking, claiming, starting, enqueuing, suspended,
  continuing, SharedTask, go, is_ready,
}

abbrev pub started : Word → ℕ
started not_started = 0
started _ = 1

abbrev pub is_suspended : Stage → ℕ
is_suspended suspended = 1
is_suspended _ = 0

-- What a pointer that was read says of the word since.
abbrev pub Seen : Pointer → Word → Type 0
Seen this_waiters w = ⊥
Seen this_promise w = is_ready w ≡ true
Seen null w = started w ≡ 1
Seen (head i) w = started w ≡ 1

-- What a stage says of the word.
abbrev pub Fits : Stage → Word → Type 0
Fits starting w = started w ≡ 1
Fits (enqueuing p) w = Seen p w
Fits suspended w = started w ≡ 1
Fits continuing w = is_ready w ≡ true
Fits _ w = Unit

-- The word has gone on from `w` to `w'`.
pub record Later (w w' : Word) : Type 0 where
  pub still_started : started w ≡ 1 → started w' ≡ 1
  pub still_ready : is_ready w ≡ true → is_ready w' ≡ true

Later-Seen : (p : Pointer) (w w' : Word) → Later w w' → Seen p w → Seen p w'
Later-Seen this_waiters w w' l h = absurd h
Later-Seen this_promise w w' l h = l.still_ready h
Later-Seen null w w' l h = l.still_started h
Later-Seen (head i) w w' l h = l.still_started h

pub Later-Fits : (x : Stage) (w w' : Word) → Later w w' → Fits x w → Fits x w'
Later-Fits idle w w' l h = tt
Later-Fits checking w w' l h = tt
Later-Fits claiming w w' l h = tt
Later-Fits starting w w' l h = l.still_started h
Later-Fits (enqueuing p) w w' l h = Later-Seen p w w' l h
Later-Fits suspended w w' l h = l.still_started h
Later-Fits continuing w w' l h = l.still_ready h

Later-refl : (w : Word) → Later w w
Later-refl w = record { still_started = λ h. h; still_ready = λ h. h }

pub pointer-Seen : (w : Word) → same_pointer (pointer w) this_waiters ≡ false → Seen (pointer w) w
pointer-Seen not_started h = cc
pointer-Seen ready h = refl
pointer-Seen (waiting []) h = refl
pointer-Seen (waiting (i ∷ l)) h = refl

pub record Inv (s : SharedTask) : Type 0 where
  pub once : s.starts ≡ started s.word
  pub ended : s.finished ≡ is_ready s.word
  pub fits : (i : ℕ) → Fits (s.stage i) s.word
  pub listed : (i : ℕ) → count i (waiters s.word) + count i s.resuming ≡ is_suspended (s.stage i)
  pub later : is_ready s.word ≡ false → s.resuming ≡ []

module _ (s : SharedTask) (inv : Inv s) (i : ℕ) where
  -- Awaiter `i` goes on, and the word with it; the lists change only for `i`.
  pub changed-Inv :
      (b : Stage) (w : Word) (starts : ℕ)
      → starts ≡ started w
      → is_ready s.word ≡ is_ready w
      → Later s.word w
      → Fits b w
      → ((j : ℕ) → i ≢ j → count j (waiters w) ≡ count j (waiters s.word))
      → count i (waiters w) + is_suspended (s.stage i) ≡ count i (waiters s.word) + is_suspended b
      → Inv (go i b (record s { word = w; starts = starts }))
  changed-Inv b w starts once same l fit others own = record {
    once = once;
    ended = inv.ended ∙ same;
    fits = λ j. elim (ℕ_discrete i j) [
      | yes e ↦
          subst (λ j. Fits (update s.stage i b j) w) e
            (subst (λ x. Fits x w) (sym (update_self s.stage i b)) fit)
      | no ne ↦
          subst (λ x. Fits x w) (sym (update_ne s.stage i b j ne))
            (Later-Fits (s.stage j) s.word w l (inv.fits j))
    ];
    listed = λ j. elim (ℕ_discrete i j) [
      | yes e ↦
          subst
            (λ j. count j (waiters w) + count j s.resuming ≡ is_suspended (update s.stage i b j)) e
            (omega (arith, own, inv.listed i, ap is_suspended (update_self s.stage i b)))
      | no ne ↦
          omega (arith, others j ne, inv.listed j, ap is_suspended (update_ne s.stage i b j ne))
    ];
    later = λ h. inv.later (same ∙ h);
  }

  -- The same where the word stays.
  pub goes-Inv :
      (b : Stage) → is_suspended (s.stage i) ≡ is_suspended b → Fits b s.word → Inv (go i b s)
  goes-Inv b same fit =
      changed-Inv b s.word s.starts inv.once refl (Later-refl s.word) fit (λ j ne. refl)
        (omega (arith, same))

-- ===== src/Concurrent/EventCount/Notify.antt =====
-- What Notify does in each of its cases.
use async_lib.Base.{
  ◌∙◌, dec_lt, inl, inr, List-cases, ℕ, ◌+◌, ◌^◌, ◌<◌, ◌≡◌, ◌≢◌, refl, ap, Bool, true, false, List,
  [], ◌∷◌, arith,
}
use async_lib.Base.Words.{u64}
use async_lib.Concurrent.EventCount.{
  EventCount, stack_of, waiters_of, signals_of, unpark, signal_inc,
}
use async_lib.Concurrent.EventCount.Fields.{Holds, inc_signals}
use async_lib.Concurrent.EventCount.Spec.{Waits, notifies, after, woken}
use async_lib.Concurrent.EventCount.Represent.{Linked, Linked-cong, Keeps, run, parks, Answers}
use async_lib.Concurrent.EventCount.Unpark.{unpark-Unparked}
use async_lib.Concurrent.EventCount.Cases.{
  all_state, one_popped, notify_nobody, notify_prewaiting, notify_all_prewaiting, notify_all_parked,
  notify_one_parked,
}

module _ (c : EventCount) (v : Waits) (k : Keeps c v) where
  abbrev sig : signals_of c.state ≡ v.signals
  sig = k.fields.signals_field

  abbrev pre : waiters_of c.state ≡ v.pre
  pre = k.fields.waiters_field

  notify_prewaiting-Answers :
      v.signals < v.pre
      → Answers (notifies false) c v (false, record c { state = u64 (c.state + signal_inc) })
  unfolding after woken parks
  notify_prewaiting-Answers lt =
      let f = inc_signals k.fields (omega (arith, k.room)) in
      record {
        answer = refl;
        kept = record {
          fields = ground (arith, f, f.stack_field);
          linked = ground (arith, f.stack_field, k.linked);
          epochs = ground (arith, k.epochs);
          covered = ground (arith, k.covered);
          room = ground (arith, k.room);
          few = ground (arith, k.few);
        };
        wakes = λ j m. ground arith;
        others = λ j m n. refl;
      }

  all_word : Holds (all_state c) 16383 v.pre v.pre
  all_word = record {
    fits = omega (arith, pre, k.room);
    stack_field = omega (arith, pre, k.room);
    waiters_field = omega (arith, pre, k.room);
    signals_field = omega (arith, pre, k.room);
  }

  notify_all_prewaiting-Answers :
      v.parked ≡ [] → Answers (notifies true) c v (false, record c { state = all_state c })
  unfolding after woken parks
  notify_all_prewaiting-Answers e = record {
    answer = refl;
    kept = record {
      fields = ground (arith, all_word, all_word.stack_field);
      linked = all_word.stack_field;
      epochs = k.epochs;
      covered = omega arith;
      room = omega (arith, k.room);
      few = omega arith;
    };
    wakes = λ j m. ground arith;
    others = λ j m n. refl;
  }

  Linked-top :
      (i : ℕ) (l : List ℕ) → v.parked ≡ i ∷ l → (stack_of c.state ≡ i) × Linked c.waiter i (i ∷ l)
  Linked-top i l e = ground (arith, k.linked)

  notify_all_parked-Answers :
      (i : ℕ) (l : List ℕ)
      → v.parked ≡ i ∷ l
      → Answers (notifies true) c v (false, unpark (2 ^ 14) i (record c { state = all_state c }))
  unfolding after woken parks
  notify_all_parked-Answers i l e =
      let u =
        unpark-Unparked (2 ^ 14) i l (record c { state = all_state c }) (ground (arith, k.few))
          (Linked-top i l e).1 in
      record {
        answer = refl;
        kept = record {
          fields = ground (arith, u.state_same, all_word, all_word.stack_field);
          linked = ground (arith, u.state_same, all_word.stack_field);
          epochs = λ j. ground (arith, u.epoch_same j, k.epochs j);
          covered = omega arith;
          room = omega (arith, k.room);
          few = omega arith;
        };
        wakes = λ j m. ground (arith, u.wakes j);
        others = λ j m n. ground (arith, u.others j);
      }

  one_word :
      (i : ℕ) (l : List ℕ)
      → v.parked ≡ i ∷ l
      → Holds (one_popped c).state (stack_of (c.waiter i).next) v.pre v.signals
  one_word i l e = record {
    fits = ground (arith, sig, pre, k.room, k.covered, Linked-top i l e);
    stack_field = ground (arith, sig, pre, k.room, k.covered, Linked-top i l e);
    waiters_field = ground (arith, sig, pre, k.room, k.covered, Linked-top i l e);
    signals_field = ground (arith, sig, pre, k.room, k.covered, Linked-top i l e);
  }

  notify_one_parked-Answers :
      (i : ℕ) (l : List ℕ)
      → v.parked ≡ i ∷ l
      → v.pre ≡ v.signals
      → Answers (notifies false) c v (false, unpark (2 ^ 14) i (one_popped c))
  unfolding after woken parks
  notify_one_parked-Answers i l e f =
      let t = Linked-top i l e in
      let w = one_word i l e in
      let u = unpark-Unparked (2 ^ 14) i [] (one_popped c) (omega arith) (ground (arith, t)) in
      record {
        answer = refl;
        kept = record {
          fields = ground (arith, u.state_same, w, w.stack_field, t);
          linked = ground (
            arith,
            u.state_same,
            w.stack_field,
            t,
            Linked-cong c.waiter (unpark (2 ^ 14) i (one_popped c)).waiter
                (stack_of (c.waiter i).next) l (λ j hj. ground (arith, t, u.others j)),
          );
          epochs = λ j. ground (arith, t, u.epoch_same j, k.epochs j);
          covered = ground (arith, k.covered);
          room = ground (arith, k.room);
          few = ground (arith, k.few);
        };
        wakes = λ j m. ground (arith, u.wakes j);
        others = λ j m n. ground (arith, t, u.others j);
      }

  -- With nobody to release, nothing changes.
  idle-Answers :
      (all : Bool) → v.parked ≡ [] → v.pre ≡ v.signals → Answers (notifies all) c v (false, c)
  unfolding after woken parks
  idle-Answers true e f = record {
    answer = refl;
    kept = record {
      fields = ground (arith, k.fields);
      linked = ground (arith, k.linked);
      epochs = k.epochs;
      covered = omega arith;
      room = k.room;
      few = omega arith;
    };
    wakes = λ j m. ground arith;
    others = λ j m n. refl;
  }
  idle-Answers false e f = record {
    answer = refl;
    kept = record {
      fields = ground (arith, k.fields);
      linked = ground (arith, k.linked);
      epochs = ground (arith, k.epochs);
      covered = ground (arith, k.covered);
      room = ground (arith, k.room);
      few = ground (arith, k.few);
    };
    wakes = λ j m. ground arith;
    others = λ j m n. refl;
  }

  none_linked : v.parked ≡ [] → stack_of c.state ≡ 16383
  none_linked e = ground (arith, k.linked)

  some_linked : (i : ℕ) (l : List ℕ) → v.parked ≡ i ∷ l → stack_of c.state ≢ 16383
  some_linked i l e = ground (arith, k.linked)

  pub notifies_all-Answers : Answers (notifies true) c v (run (notifies true) c)
  unfolding run
  notifies_all-Answers = elim (List-cases v.parked) [
    | inl e ↦ elim (dec_lt v.signals v.pre) [
      | yes lt ↦
          rw (notify_all_prewaiting c (none_linked e) (omega (arith, sig, pre)))
            (notify_all_prewaiting-Answers e)
      | no ge ↦
          rw (notify_nobody c true (none_linked e) (omega (arith, sig, pre, k.covered)))
            (idle-Answers true e (omega (arith, k.covered)))
    ]
    | inr (i, l, e) ↦
        rw (notify_all_parked c (some_linked i l e), (Linked-top i l e).0)
          (notify_all_parked-Answers i l e)
  ]

  pub notifies_one-Answers : Answers (notifies false) c v (run (notifies false) c)
  unfolding run
  notifies_one-Answers = elim (dec_lt v.signals v.pre) [
    | yes lt ↦ rw (notify_prewaiting c (omega (arith, sig, pre))) (notify_prewaiting-Answers lt)
    | no ge ↦ elim (List-cases v.parked) [
      | inl e ↦
          rw (notify_nobody c false (none_linked e) (omega (arith, sig, pre, k.covered)))
            (idle-Answers false e (omega (arith, k.covered)))
      | inr (i, l, e) ↦
          rw
            (notify_one_parked c (some_linked i l e) (omega (arith, sig, pre, k.covered))
              ∙ ap (λ x. unpark (2 ^ 14) x (one_popped c)) (Linked-top i l e).0)
            (notify_one_parked-Answers i l e (omega (arith, k.covered)))
    ]
  ]

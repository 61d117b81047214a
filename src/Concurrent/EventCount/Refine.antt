-- ===== src/Concurrent/EventCount/Refine.antt =====
-- The calls of `EventCount` against its specification.
use async_lib.Base.{dec_lt, ℕ, ◌<◌, ◌≡◌, refl, true, false, [], arith}
use async_lib.Concurrent.EventCount.{EventCount, stack_of, prewait, cancel_wait, commit_wait, init}
use async_lib.Concurrent.EventCount.Fields.{inc_waiters, dec_waiters, dec_both}
use async_lib.Concurrent.EventCount.Spec.{
  Waits, Call, prewaits, cancels, commits, notifies, after, woken, IsAllowed,
}
use async_lib.Concurrent.EventCount.Represent.{Linked-cong, Keeps, run, parks, Answers}
use async_lib.Concurrent.EventCount.Notify.{notifies_all-Answers, notifies_one-Answers}

prewaits-Answers :
    (c : EventCount) (v : Waits)
    → Keeps c v
    → IsAllowed prewaits v
    → Answers prewaits c v (run prewaits c)
unfolding run prewait after woken parks
prewaits-Answers c v k ok =
    let f = inc_waiters k.fields (omega (arith, ok)) in
    record {
      answer = refl;
      kept = record {
        fields = ground (arith, f, f.stack_field);
        linked = ground (arith, f.stack_field, k.linked);
        epochs = k.epochs;
        covered = omega (arith, k.covered);
        room = omega (arith, ok);
        few = k.few;
      };
      wakes = λ j m. ground arith;
      others = λ j m n. refl;
    }

cancels-Answers :
    (c : EventCount) (v : Waits)
    → Keeps c v
    → IsAllowed cancels v
    → Answers cancels c v (run cancels c)
unfolding run cancel_wait after woken parks
cancels-Answers c v k ok =
    let f = dec_waiters k.fields ok in
    record {
      answer = refl;
      kept = record {
        fields =
            ground (arith, k.fields.waiters_field, k.fields.signals_field, f, dec_both k.fields ok);
        linked = ground (
          arith,
          k.fields.waiters_field,
          k.fields.signals_field,
          f.stack_field,
          dec_both k.fields ok,
          k.linked,
        );
        epochs = k.epochs;
        covered = ground (arith, k.covered);
        room = omega (arith, k.room);
        few = k.few;
      };
      wakes = λ j m. ground arith;
      others = λ j m n. refl;
    }

-- A commit with a signal pending takes it.
commits_take :
    (i : ℕ) (c : EventCount) (v : Waits)
    → Keeps c v
    → IsAllowed (commits i) v
    → 0 < v.signals
    → Answers (commits i) c v (run (commits i) c)
unfolding run commit_wait after woken parks
commits_take i c v k (ok, _, apart, _) pending =
    let f = dec_both k.fields ok pending in
    let sig = k.fields.signals_field in
    record {
      answer = ground (arith, sig);
      kept = record {
        fields = ground (arith, sig, f);
        linked = ground (
          arith,
          sig,
          f.stack_field,
          Linked-cong c.waiter (run (commits i) c).1.waiter (stack_of c.state) v.parked
              (λ j hj. ground (arith, sig)) k.linked,
        );
        epochs = λ j. ground (arith, k.epochs j);
        covered = ground (arith, k.covered, sig);
        room = ground (arith, k.room, sig);
        few = ground (arith, k.few, sig);
      };
      wakes = λ j m. ground arith;
      others = λ j m n. ground arith;
    }

-- A commit with none parks the waiter on top of the stack.
commits_park :
    (i : ℕ) (c : EventCount) (v : Waits)
    → Keeps c v
    → IsAllowed (commits i) v
    → v.signals ≡ 0
    → Answers (commits i) c v (run (commits i) c)
unfolding run commit_wait after woken parks
commits_park i c v k (ok, index, apart, few) none =
    let sig = k.fields.signals_field in
    let pre = k.fields.waiters_field in
    let ep = k.epochs i in
    record {
      answer = ground (arith, sig);
      kept = record {
        fields = record {
          fits = ground (arith, sig, ep, pre, k.room);
          stack_field = refl;
          waiters_field = ground (arith, sig, ep, pre, k.room);
          signals_field = ground (arith, sig, ep, pre, k.room);
        };
        linked = ground (
          arith,
          sig,
          ep,
          pre,
          k.room,
          Linked-cong c.waiter (run (commits i) c).1.waiter (stack_of c.state) v.parked
              (λ j hj. ground (arith, sig)) k.linked,
        );
        epochs = λ j. ground (arith, k.epochs j);
        covered = ground (arith, k.covered, sig);
        room = ground (arith, k.room, sig);
        few = ground (arith, few, sig);
      };
      wakes = λ j m. ground arith;
      others = λ j m n. ground arith;
    }

-- A call that the protocol allows keeps the waits of the specification in the packed word and the
-- linked waiters, parks exactly when it should, and signals exactly the waiters that it wakes.
pub run-Answers :
    (call : Call) (c : EventCount) (v : Waits)
    → Keeps c v
    → IsAllowed call v
    → Answers call c v (run call c)
run-Answers prewaits c v k ok = prewaits-Answers c v k ok
run-Answers cancels c v k ok = cancels-Answers c v k ok
run-Answers (commits i) c v k ok = elim (dec_lt 0 v.signals) [
  | yes h ↦ commits_take i c v k ok h
  | no h ↦ commits_park i c v k ok (omega arith)
]
run-Answers (notifies true) c v k ok = notifies_all-Answers c v k
run-Answers (notifies false) c v k ok = notifies_one-Answers c v k

pub init-Keeps : Keeps init (record { parked = []; pre = 0; signals = 0 })
unfolding init
init-Keeps = record {
  fields = record {
    fits = omega arith;
    stack_field = refl;
    waiters_field = refl;
    signals_field = refl;
  };
  linked = refl;
  epochs = λ i. omega arith;
  covered = omega arith;
  room = omega arith;
  few = omega arith;
}

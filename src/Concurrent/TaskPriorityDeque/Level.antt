-- ===== src/Concurrent/TaskPriorityDeque/Level.antt =====
-- The ring of one priority, read as a `TaskDeque`, and what an operation on a priority does to it.
use async_lib.Base.{
  ap₂, ℕ, ◌%◌, ◌^◌, ◌<◌, ◌≡◌, refl, ap, ◌∙◌, arith, true, false, Option, none, some,
}
use async_lib.Base.Words.{sub64}
use async_lib.Concurrent.TaskDeque
use async_lib.Concurrent.TaskDeque.{
  TaskDeque, Elem, SlotState, empty, busy, ready, same_state, mask, mask2, capacity,
}
use async_lib.Concurrent.TaskDeque.Inv.{used, offset, Inv, is_empty-eq}
use async_lib.Concurrent.TaskDeque.Window.{window, contents, window_cong}
use async_lib.Concurrent.TaskPriorityDeque.{
  TaskPriority, critical, high, default, low, same_priority, index, index_ext, TaskPriorityDeque,
  push_front, push_back, pop_front_at, pop_back_at,
}
use async_lib.Concurrent.TaskPriorityDeque.Fields.{
  inc-same, inc-other, with_index_ext-same, with_index_ext-other,
}

pub same_priority_self : (p : TaskPriority) → same_priority p p ≡ true
same_priority_self critical = refl
same_priority_self high = refl
same_priority_self default = refl
same_priority_self low = refl

module _ {T : Type 0} where
  -- The deque of the tasks at one priority.
  abbrev pub level : TaskPriority → TaskPriorityDeque T → TaskDeque T
  level p q = record { front = index_ext p q.front; back = index_ext p q.back; array = q.array p }

  -- Deques that differ at most in the counters above their indices.
  pub record Agrees (d d' : TaskDeque T) : Type 0 where
    pub fits_front : d.front < 2 ^ 32
    pub fits_back : d.back < 2 ^ 32
    pub same_front : mask2 d.front ≡ mask2 d'.front
    pub same_back : mask2 d.back ≡ mask2 d'.back
    pub same_array : (j : ℕ) → d.array j ≡ d'.array j

  module _ (d d' : TaskDeque T) (a : Agrees d d') where
    pub used-Agrees : used d.front d.back ≡ used d'.front d'.back
    used-Agrees = rw (a.same_front, a.same_back) refl

    offset-Agrees : (j : ℕ) → offset d.back j ≡ offset d'.back j
    offset-Agrees j = omega (arith, a.same_back)

    pub Agrees-Inv : Inv d' → Inv d
    Agrees-Inv v = record {
      front_fits = a.fits_front;
      back_fits = a.fits_back;
      bounded = omega (arith, used-Agrees, v.bounded);
      slots = λ j h. ground (arith, a.same_array j, v.slots j h, offset-Agrees j, used-Agrees);
    }

    pub Agrees-contents : contents d ≡ contents d'
    Agrees-contents =
        window_cong d.array d'.array (mask d.back) (used d.front d.back) (omega arith)
          (λ j h l. ap (λ e. e.task) (a.same_array j))
        ∙ ap₂ (window d'.array) (omega (arith, a.same_back)) used-Agrees

  -- An operation on priority `p` that does as the deque's own does to that level, and leaves the
  -- other levels alone.
  pub record At {A : Type 0} (p : TaskPriority) (q : TaskPriorityDeque T)
      (r : A × TaskPriorityDeque T) (d : A × TaskDeque T) : Type 0 where
    pub answer : r.0 ≡ d.0
    pub here : Agrees (level p r.1) d.1
    pub there :
        (p' : TaskPriority) → same_priority p p' ≡ false → Agrees (level p' r.1) (level p' q)

  module _ (t : T) (p : TaskPriority) (q : TaskPriorityDeque T) where
    pub push_front-At : At p q (push_front t p q) (TaskDeque.push_front t (level p q))
    unfolding push_front TaskDeque.push_front
    push_front-At = record {
      answer = ground (arith, same_priority_self p);
      here = record {
        fits_front = omega arith;
        fits_back = omega arith;
        same_front = ground (arith, inc-same p q.front);
        same_back = ground (arith);
        same_array = λ j. ground (arith, same_priority_self p);
      };
      there = λ p' ne. record {
        fits_front = omega arith;
        fits_back = omega arith;
        same_front = ground (arith, inc-other p p' q.front ne);
        same_back = ground (arith);
        same_array = λ j. ground arith;
      };
    }

    pub push_back-At : At p q (push_back t p q) (TaskDeque.push_back t (level p q))
    unfolding push_back TaskDeque.push_back
    push_back-At = record {
      answer = ground (arith, same_priority_self p);
      here = record {
        fits_front = omega arith;
        fits_back = omega arith;
        same_front = ground arith;
        same_back = ground (
          arith,
          with_index_ext-same (sub64 (index_ext p q.back) 1 % 2 ^ 11) p q.back (omega arith),
        );
        same_array = λ j. ground (arith, same_priority_self p);
      };
      there = λ p' ne. record {
        fits_front = omega arith;
        fits_back = omega arith;
        same_front = ground arith;
        same_back = ground (
          arith,
          with_index_ext-other (sub64 (index_ext p q.back) 1 % 2 ^ 11) p p' q.back (omega arith) ne,
        );
        same_array = λ j. ground arith;
      };
    }

  -- The answer of a round of a pop's loop, and the deque after it.
  abbrev pub tried :
      Option (T × TaskPriorityDeque T) → TaskPriorityDeque T → Option T × TaskPriorityDeque T
  tried none q = (none, q)
  tried (some (t, q')) q = (some t, q')

  module _ (null : T) (p : TaskPriority) (q : TaskPriorityDeque T) where
    pub pop_front_at-At :
        At p q (tried (pop_front_at null p q) q) (TaskDeque.pop_front null (level p q))
    unfolding TaskDeque.pop_front
    pop_front_at-At = record {
      answer = ground (arith, same_priority_self p);
      here = record {
        fits_front = omega arith;
        fits_back = omega arith;
        same_front = ground (
          arith,
          with_index_ext-same (sub64 (index_ext p q.front) 1 % 2 ^ 11) p q.front (omega arith),
        );
        same_back = ground arith;
        same_array = λ j. ground (arith, same_priority_self p);
      };
      there = λ p' ne. record {
        fits_front = omega arith;
        fits_back = omega arith;
        same_front = ground (
          arith,
          with_index_ext-other (sub64 (index_ext p q.front) 1 % 2 ^ 11) p p' q.front (omega arith)
              ne,
        );
        same_back = ground arith;
        same_array = λ j. ground arith;
      };
    }

    pub pop_back_at-At :
        Inv (level p q)
        → At p q (tried (pop_back_at null p q) q) (TaskDeque.pop_back null (level p q))
    unfolding TaskDeque.pop_back
    pop_back_at-At v =
        let e = is_empty-eq (level p q) in
        let s = v.slots (index p q.back) (omega arith) in
        record {
          answer = ground (arith, e, s);
          here = record {
            fits_front = omega arith;
            fits_back = omega arith;
            same_front = ground (arith, e, s);
            same_back = ground (arith, e, s, inc-same p q.back);
            same_array = λ j. ground (arith, e, s, same_priority_self p);
          };
          there = λ p' ne. record {
            fits_front = omega arith;
            fits_back = omega arith;
            same_front = ground arith;
            same_back = ground (arith, inc-other p p' q.back ne);
            same_array = λ j. ground arith;
          };
        }

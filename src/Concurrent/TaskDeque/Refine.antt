-- ===== src/Concurrent/TaskDeque/Refine.antt =====
-- A valid `TaskDeque` behaves as the bounded list of the tasks that it holds.
use async_lib.Base.{
  ℕ, suc, ◌+◌, ◌≤◌, ◌<◌, ◌≡◌, ◌≢◌, dec_lt, ap, Option, none, some, [], ◌∷◌, ◌++◌, arith, length,
}
use async_lib.Base.Words.{u32, sub32}
use async_lib.Concurrent.TaskDeque.{
  TaskDeque, capacity, mask, increment, step_back, push_front, pop_front, push_back, pop_back,
}
use async_lib.Concurrent.TaskDeque.Inv.{used, offset, Inv, is_empty-eq}
use async_lib.Concurrent.TaskDeque.Spec
use async_lib.Concurrent.TaskDeque.Spec.{unsnoc-append}
use async_lib.Concurrent.TaskDeque.Window.{
  window, contents, length-window, window_snoc, window_cong,
}

module _ {T : Type 0} where
  -- The slots other than `i` hold the tasks that they held.
  abbrev Same : TaskDeque T → TaskDeque T → ℕ → Type 0
  Same q q' i = (j : ℕ) → i ≢ j → (q'.array j).task ≡ (q.array j).task

  -- A push that is taken writes slot `i` and widens the used stretch by one.
  record Pushed (t : T) (i : ℕ) (q : TaskDeque T) (r : Option T × TaskDeque T) : Type 0 where
    taken : r.0 ≡ none
    more : used r.1.front r.1.back ≡ suc (used q.front q.back)
    written : (r.1.array i).task ≡ t
    same : Same q r.1 i

  -- A pop that succeeds answers with the task of slot `i` and narrows the stretch by one.
  record Popped (i : ℕ) (q : TaskDeque T) (r : Option T × TaskDeque T) : Type 0 where
    found : r.0 ≡ some (q.array i).task
    fewer : used q.front q.back ≡ suc (used r.1.front r.1.back)
    same : Same q r.1 i

  length-contents : (q : TaskDeque T) → length (contents q) ≡ used q.front q.back
  length-contents q = length-window q.array (mask q.back) (used q.front q.back)

  module _ (q : TaskDeque T) (v : Inv q) where
    abbrev n : ℕ
    n = used q.front q.back

    window_apart :
        (q' : TaskDeque T) (i b k : ℕ)
        → b < capacity
        → k ≤ offset b i
        → Same q q' i
        → window q'.array b k ≡ window q.array b k
    window_apart q' i b k h out same =
        window_cong q'.array q.array b k h (λ j hj l. same j (omega arith))

    contents_empty : n ≡ 0 → contents q ≡ []
    contents_empty e = ap (window q.array (mask q.back)) e

    push_front-Pushed : (t : T) → n < capacity → Pushed t (mask q.front) q (push_front t q)
    unfolding push_front
    push_front-Pushed t room = record {
      taken = ground (arith, v.slots (mask q.front) (omega arith));
      more = ground (arith, v.slots (mask q.front) (omega arith));
      written = ground (arith, v.slots (mask q.front) (omega arith));
      same = λ j ne. ground (arith, v.slots (mask q.front) (omega arith));
    }

    back-push_front : (t : T) → n < capacity → (push_front t q).1.back ≡ q.back
    unfolding push_front
    back-push_front t room = ground (arith, v.slots (mask q.front) (omega arith))

    push_front_full : (t : T) → n ≡ capacity → push_front t q ≡ (some t, q)
    unfolding push_front
    push_front_full t full = ground (arith, v.slots (mask q.front) (omega arith))

    contents-push_front :
        (t : T) → n < capacity → contents (push_front t q).1 ≡ contents q ++ t ∷ []
    contents-push_front t room =
        let p = push_front-Pushed t room in
        ground (
          arith,
          back-push_front t room,
          window_snoc (push_front t q).1.array (mask q.back) n (omega arith),
          window_apart (push_front t q).1 (mask q.front) (mask q.back) n (omega arith) (omega arith)
              p.same,
        )

    -- `push_front` answers as the bounded list does, and leaves the deque holding its list.
    pub push_front_refines :
        (t : T)
        → let (r, q') = push_front t q in (r, contents q') ≡ Spec.push_front capacity t (contents q)
    push_front_refines t = elim (dec_lt n capacity) [
      | yes room ↦
          ground
            (arith, (push_front-Pushed t room).taken, contents-push_front t room, length-contents q)
      | no full ↦ ground (arith, push_front_full t (omega arith), length-contents q)
    ]

    push_back-Pushed : (t : T) → n < capacity → Pushed t (mask (sub32 q.back 1)) q (push_back t q)
    unfolding push_back
    push_back-Pushed t room = record {
      taken = ground (arith, v.slots (mask (sub32 q.back 1)) (omega arith));
      more = ground (arith, v.slots (mask (sub32 q.back 1)) (omega arith));
      written = ground (arith, v.slots (mask (sub32 q.back 1)) (omega arith));
      same = λ j ne. ground (arith, v.slots (mask (sub32 q.back 1)) (omega arith));
    }

    back-push_back : (t : T) → n < capacity → (push_back t q).1.back ≡ step_back q.back
    unfolding push_back
    back-push_back t room = ground (arith, v.slots (mask (sub32 q.back 1)) (omega arith))

    push_back_full : (t : T) → n ≡ capacity → push_back t q ≡ (some t, q)
    unfolding push_back
    push_back_full t full = ground (arith, v.slots (mask (sub32 q.back 1)) (omega arith))

    contents-push_back : (t : T) → n < capacity → contents (push_back t q).1 ≡ t ∷ contents q
    contents-push_back t room =
        let p = push_back-Pushed t room in
        ground (
          arith,
          back-push_back t room,
          window_apart (push_back t q).1 (mask (sub32 q.back 1)) (mask q.back) n (omega arith)
              (omega arith) p.same,
        )

    -- `push_back` answers as the bounded list does, and leaves the deque holding its list.
    pub push_back_refines :
        (t : T)
        → let (r, q') = push_back t q in (r, contents q') ≡ Spec.push_back capacity t (contents q)
    push_back_refines t = elim (dec_lt n capacity) [
      | yes room ↦
          ground
            (arith, (push_back-Pushed t room).taken, contents-push_back t room, length-contents q)
      | no full ↦ ground (arith, push_back_full t (omega arith), length-contents q)
    ]

    pop_front-Popped : (null : T) → 0 < n → Popped (mask (sub32 q.front 1)) q (pop_front null q)
    unfolding pop_front
    pop_front-Popped null some_left = record {
      found = ground (arith, is_empty-eq q, v.slots (mask (sub32 q.front 1)) (omega arith));
      fewer = ground (arith, is_empty-eq q, v.slots (mask (sub32 q.front 1)) (omega arith));
      same = λ j ne. ground (arith, is_empty-eq q, v.slots (mask (sub32 q.front 1)) (omega arith));
    }

    back-pop_front : (null : T) → 0 < n → (pop_front null q).1.back ≡ q.back
    unfolding pop_front
    back-pop_front null some_left =
        ground (arith, is_empty-eq q, v.slots (mask (sub32 q.front 1)) (omega arith))

    pop_front_empty : (null : T) → n ≡ 0 → pop_front null q ≡ (none, q)
    unfolding pop_front
    pop_front_empty null none_left =
        ground (arith, is_empty-eq q, v.slots (mask (sub32 q.front 1)) (omega arith))

    contents-pop_front :
        (null : T)
        → 0 < n
        → contents q ≡ contents (pop_front null q).1 ++ (q.array (mask (sub32 q.front 1))).task ∷ []
    contents-pop_front null some_left =
        let p = pop_front-Popped null some_left in
        ground (
          arith,
          back-pop_front null some_left,
          window_snoc q.array (mask q.back)
              (used (pop_front null q).1.front (pop_front null q).1.back) (omega arith),
          window_apart (pop_front null q).1 (mask (sub32 q.front 1)) (mask q.back)
              (used (pop_front null q).1.front (pop_front null q).1.back) (omega arith)
              (omega arith) p.same,
        )

    -- `pop_front` answers as the bounded list does, and leaves the deque holding its list.
    pub pop_front_refines :
        (null : T)
        → let (r, q') = pop_front null q in (r, contents q') ≡ Spec.pop_front (contents q)
    pop_front_refines null = elim (dec_lt 0 n) [
      | yes some_left ↦ ground (
        arith,
        (pop_front-Popped null some_left).found,
        contents-pop_front null some_left,
        unsnoc-append (contents (pop_front null q).1) (q.array (mask (sub32 q.front 1))).task,
      )
      | no none_left ↦
          ground (arith, pop_front_empty null (omega arith), contents_empty (omega arith))
    ]

    pop_back-Popped : (null : T) → 0 < n → Popped (mask q.back) q (pop_back null q)
    unfolding pop_back
    pop_back-Popped null some_left = record {
      found = ground (arith, is_empty-eq q, v.slots (mask q.back) (omega arith));
      fewer = ground (arith, is_empty-eq q, v.slots (mask q.back) (omega arith));
      same = λ j ne. ground (arith, is_empty-eq q, v.slots (mask q.back) (omega arith));
    }

    back-pop_back : (null : T) → 0 < n → (pop_back null q).1.back ≡ u32 (q.back + increment)
    unfolding pop_back
    back-pop_back null some_left =
        ground (arith, is_empty-eq q, v.slots (mask q.back) (omega arith))

    pop_back_empty : (null : T) → n ≡ 0 → pop_back null q ≡ (none, q)
    unfolding pop_back
    pop_back_empty null none_left =
        ground (arith, is_empty-eq q, v.slots (mask q.back) (omega arith))

    contents-pop_back :
        (null : T)
        → 0 < n
        → contents q ≡ (q.array (mask q.back)).task ∷ contents (pop_back null q).1
    contents-pop_back null some_left =
        let p = pop_back-Popped null some_left in
        ground (
          arith,
          back-pop_back null some_left,
          window_apart (pop_back null q).1 (mask q.back) (mask (mask q.back + 1))
              (used (pop_back null q).1.front (pop_back null q).1.back) (omega arith) (omega arith)
              p.same,
        )

    -- `pop_back` answers as the bounded list does, and leaves the deque holding its list.
    pub pop_back_refines :
        (null : T) → let (r, q') = pop_back null q in (r, contents q') ≡ Spec.pop_back (contents q)
    pop_back_refines null = elim (dec_lt 0 n) [
      | yes some_left ↦
          ground (arith, (pop_back-Popped null some_left).found, contents-pop_back null some_left)
      | no none_left ↦
          ground (arith, pop_back_empty null (omega arith), contents_empty (omega arith))
    ]

-- ===== src/Concurrent/TaskQueue/Run.antt =====
-- A client's calls on a `TaskQueue` in order, against the bounded list of its tasks.
use async_lib.Base.{
  ◌==◌, ◌+◌, ◌%◌, ◌^◌, ◌≤◌, ◌<◌, ◌≡◌, refl, ap, ◌∙◌, arith, Option, none, some, List, [], ◌∷◌,
  length, dec_lt, ◌⊎◌, inl, inr,
}
use async_lib.Base.Words.{u32}
use async_lib.Base.Family.{update}
use async_lib.Concurrent.TaskDeque.Spec
use async_lib.Concurrent.TaskQueue.{size, is_empty, TaskQueue, capacity, push_front, pop_back}
use async_lib.Concurrent.TaskQueue.Inv.{
  used, Inv, ring, contents, length-ring, ring_longer, ring_same,
}
use async_lib.Concurrent.TaskQueue.Refine.{
  push_front_room, push_front_full, push_front_stuck, pop_back-some, pop_back_empty, pop_back_stuck,
}

pub data Call (T : Type 0) : Type 0 where
  pushes : T → Call T
  pops : Call T

module _ {T : Type 0} (null : T) where
  unfoldable pub call : Call T → TaskQueue T → Option (Option T × TaskQueue T)
  call (pushes t) q = push_front t q
  call pops q = pop_back null q

  abbrev pub spec_call : Call T → List T → Option T × List T
  spec_call (pushes t) l = Spec.push_front capacity t l
  spec_call pops l = Spec.pop_back l

  -- The queue is full, or empty, at the place where its indices wrap.
  abbrev pub AtWrap : Call T → TaskQueue T → Type 0
  AtWrap (pushes t) q = (used q.front q.back ≡ capacity) × (q.front ≤ u32 (q.back + 1))
  AtWrap pops q = (used q.front q.back ≡ 0) × (q.back + 1 ≡ 2 ^ 32)

  -- The call ends, keeps the invariant, and answers as the bounded list does.
  pub record Ends (c : Call T) (q : TaskQueue T) : Type 0 where
    pub answer : Option T
    pub next : TaskQueue T
    pub result : call c q ≡ some (answer, next)
    pub kept : Inv next
    pub refines : ◌≡◌ {A = Option T × List T} (answer, contents next) (spec_call c (contents q))
    pub moved : next.back + used next.front next.back ≤ q.back + used q.front q.back + 1

  module _ (q : TaskQueue T) (v : Inv q) where
    push_Ends : (t : T) → used q.front q.back < capacity → Ends (pushes t) q
    unfolding call
    push_Ends t room =
        let pushed : TaskQueue T = record {
          front = u32 (q.front + 1);
          back = q.back;
          array =
              update q.array (q.front % capacity) (record { state = u32 (q.front + 1); task = t });
        } in
        record {
          answer = none;
          next = pushed;
          result = push_front_room q v t room;
          kept = record {
            front_fits = omega arith;
            back_fits = v.back_fits;
            bounded = omega arith;
            slots = λ j h. ground (arith, v.slots j h);
          };
          refines = ground (
            arith,
            length-ring q.array (q.back % capacity) (used q.front q.back),
            ring_longer pushed.array (q.back % capacity) (used q.front q.back) (omega arith),
            ring_same pushed.array q.array (q.back % capacity) (used q.front q.back) (omega arith)
                (λ j h l. ground arith),
          );
          moved = omega arith;
        }

    full_Ends :
        (t : T) → used q.front q.back ≡ capacity → u32 (q.back + 1) < q.front → Ends (pushes t) q
    unfolding call
    full_Ends t full far = record {
      answer = some t;
      next = q;
      result = push_front_full q v t full far;
      kept = v;
      refines = ground (arith, length-ring q.array (q.back % capacity) (used q.front q.back));
      moved = omega arith;
    }

    pop_Ends : 0 < used q.front q.back → Ends pops q
    unfolding call
    pop_Ends pos =
        let popped : TaskQueue T = record {
          front = q.front;
          back = u32 (q.back + 1);
          array =
              update q.array (q.back % capacity)
                (record { state = u32 (q.back + capacity); task = null });
        } in
        record {
          answer = some (q.array (q.back % capacity)).task;
          next = popped;
          result = pop_back-some q v null pos;
          kept = record {
            front_fits = v.front_fits;
            back_fits = omega arith;
            bounded = omega arith;
            slots = λ j h. ground (arith, v.slots j h);
          };
          refines = ground (
            arith,
            ring_same popped.array q.array ((q.back + 1) % capacity) (used popped.front popped.back)
                (omega arith) (λ j h l. ground arith),
          );
          moved = omega arith;
        }

    empty_Ends : used q.front q.back ≡ 0 → q.back + 1 < 2 ^ 32 → Ends pops q
    unfolding call
    empty_Ends none_left far = record {
      answer = none;
      next = q;
      result = pop_back_empty q v null none_left far;
      kept = v;
      refines = ground (arith, ap (ring q.array (q.back % capacity)) none_left);
      moved = omega arith;
    }

  -- On a valid queue a call never ends if the queue is full, for a push, or empty, for a pop, where
  -- the indices wrap; and any other call ends, keeps the queue valid, and answers as the bounded
  -- list does.
  pub call_cases :
      (c : Call T) (q : TaskQueue T)
      → Inv q
      → (AtWrap c q × (call c q ≡ none)) ⊎ (¬ (AtWrap c q) × Ends c q)
  unfolding call
  call_cases (pushes t) q v = elim (dec_lt (used q.front q.back) capacity) [
    | yes room ↦ inr (λ (full, near). omega arith, push_Ends q v t room)
    | no full ↦ elim (dec_lt (u32 (q.back + 1)) q.front) [
      | yes far ↦ inr (λ (full, near). omega arith, full_Ends q v t (omega (arith, v.bounded)) far)
      | no near ↦ inl (
        (omega (arith, v.bounded), omega arith),
        push_front_stuck q v t (omega (arith, v.bounded)) (omega arith),
      )
    ]
  ]
  call_cases pops q v = elim (dec_lt 0 (used q.front q.back)) [
    | yes pos ↦ inr (λ (empty, near). omega arith, pop_Ends q v pos)
    | no none_left ↦ elim (dec_lt (q.back + 1) (2 ^ 32)) [
      | yes far ↦ inr (λ (empty, near). omega arith, empty_Ends q v (omega arith) far)
      | no near ↦ inl (
        (omega arith, omega (arith, v.back_fits)),
        pop_back_stuck q v null (omega arith) (omega (arith, v.back_fits)),
      )
    ]
  ]

  -- What each call of a sequence returns, if all of them end.
  unfoldable pub run : List (Call T) → TaskQueue T → Option (List (Option T))
  run [] q = some []
  run (c ∷ cs) q = elim (call c q) [
    | none ↦ none
    | some (r, q') ↦ elim (run cs q') [ none ↦ none | some rs ↦ some (r ∷ rs) ]
  ]

  pub spec_run : List (Call T) → List T → List (Option T)
  spec_run [] l = []
  spec_run (c ∷ cs) l = (spec_call c l).0 ∷ spec_run cs (spec_call c l).1

  run_step :
      (c : Call T) (cs : List (Call T)) (q : TaskQueue T) (r : Option T) (q' : TaskQueue T)
      (rs : List (Option T))
      → call c q ≡ some (r, q')
      → run cs q' ≡ some rs
      → run (c ∷ cs) q ≡ some (r ∷ rs)
  unfolding run
  run_step c cs q r q' rs e f = rw (run, e, f) refl

  far_from_wrap :
      (c : Call T) (q : TaskQueue T)
      → q.back + used q.front q.back + 1 < 2 ^ 32
      → Inv q
      → ¬ (AtWrap c q)
  far_from_wrap (pushes t) q h v (e, l) = omega (arith, v.front_fits, v.back_fits)
  far_from_wrap pops q h v (e, l) = omega arith

  -- As long as there are too few calls for the indices to reach 2 ^ 32, every call of a sequence
  -- ends, and no sequence tells the ring with its turn numbers from a first-in, first-out list of
  -- at most `capacity` tasks.
  pub run_ends :
      (cs : List (Call T)) (q : TaskQueue T)
      → Inv q
      → q.back + used q.front q.back + length cs < 2 ^ 32
      → run cs q ≡ some (spec_run cs (contents q))
  unfolding run spec_run
  run_ends [] q v h = refl
  run_ends (c ∷ cs) q v h = elim (call_cases c q v) [
    | inl (w, e) ↦ absurd (far_from_wrap c q (omega arith) v w)
    | inr (_, e) ↦
        run_step c cs q e.answer e.next (spec_run cs (contents e.next)) e.result
          (run_ends cs e.next e.kept (omega (arith, e.moved)))
        ∙ ap (λ x. some (x.0 ∷ spec_run cs x.1)) e.refines
  ]

-- Size is the number of tasks that a valid queue holds, and Empty holds exactly when there is none.
pub size-length :
    {T : Type 0} (q : TaskQueue T)
    → Inv q
    → (size q ≡ length (contents q)) × (is_empty q ≡ (length (contents q) == 0))
unfolding size is_empty
size-length q v = ground (arith, length-ring q.array (q.back % capacity) (used q.front q.back))

-- ===== src/Concurrent/TaskDeque/Half.antt =====
-- TaskDeque::PopBackHalf: it takes the back half of the deque in one go.
use mathlib.Core.List.{reverse-append, append-nil, append_assoc}
use async_lib.Base.{
  sym, ℕ, zero, suc, ◌+◌, ◌-◌, ◌/◌, ◌^◌, ◌≤◌, ◌<◌, ◌≡◌, ◌≢◌, dec_lt, ap, refl, none, some, List, [],
  ◌∷◌, ◌++◌, arith, ltb, ◌==◌, if◌then◌else◌, reverse, take, drop, ◌&&◌, ◌∙◌, true, false,
}
use async_lib.Base.Words.{u32, sub32}
use async_lib.Concurrent.TaskDeque.{
  TaskDeque, Elem, empty, ready, capacity, mask, increment, is_empty, size, set_state, set_task,
  claim,
}
use async_lib.Concurrent.TaskDeque.Inv.{used, offset, Inv, is_empty-eq, size-eq-used}
use async_lib.Concurrent.TaskDeque.Window.{
  window, contents, window_snoc, window_cong, take-window, drop-window,
}

-- The local variables of the loop, with the deque and the vector that it fills.
pub record HalfLoop (T : Type 0) : Type 0 where
  pub mid : ℕ
  pub n : ℕ
  pub start : ℕ
  pub result : List T
  pub deque : TaskDeque T

module _ {T : Type 0} where
  -- The part of the body that runs on an element the loop owns.
  abbrev pub take_elem : T → HalfLoop T → TaskDeque T → HalfLoop T
  take_elem null h q = record {
    mid = sub32 h.mid 1;
    n = h.n + 1;
    start = if h.n == 0 then h.mid else h.start;
    result = h.result ++ (h.deque.array (mask h.mid)).task ∷ [];
    deque = set_state (mask h.mid) empty (set_task (mask h.mid) null q);
  }

  -- One round: the first element found ready is claimed, those behind it are owned with it.
  unfoldable pub half_step : T → HalfLoop T → HalfLoop T
  half_step null h =
      if h.n == 0
      then elim (claim (mask h.mid) ready h.deque) [
        | none ↦ record h { mid = sub32 h.mid 1 }
        | some q ↦ take_elem null h q
      ]
      else take_elem null h h.deque

  -- `for (; static_cast<int>(mid - back) >= 0; mid--)`, on fuel.
  unfoldable pub half_loop : T → ℕ → ℕ → HalfLoop T → HalfLoop T
  half_loop null back zero h = h
  half_loop null back (suc fuel) h =
      let rest = half_loop null back fuel (half_step null h) in
      if ltb (sub32 h.mid back) (2 ^ 31) then rest else h

  -- The loop variables at its start: `mid` is the last slot of the back half.
  unfoldable pub half_start : TaskDeque T → HalfLoop T
  half_start q = record {
    mid = if ltb 1 (size q) then u32 (q.back + (size q - 1) / 2) else q.back;
    n = 0;
    start = 0;
    result = [];
    deque = q;
  }

  -- `if (n != 0) mBack.store(start + kIncrement)`.
  unfoldable pub half_finish : HalfLoop T → ℕ × List T × TaskDeque T
  half_finish h = (
    h.n,
    h.result,
    if h.n == 0 then h.deque else record (h.deque) { back = u32 (h.start + increment) },
  )

  -- The number of tasks taken, the tasks in the order of the vector, and the deque.
  unfoldable pub pop_back_half : T → TaskDeque T → ℕ × List T × TaskDeque T
  pop_back_half null q =
      if is_empty q then (0, [], q) else half_finish (half_loop null q.back capacity (half_start q))

  -- What one round does at a slot that is ready.
  record Stepped (h h' : HalfLoop T) : Type 0 where
    mid : h'.mid ≡ sub32 h.mid 1
    count : h'.n ≡ h.n + 1
    first : h'.start ≡ (if h.n == 0 then h.mid else h.start)
    tasks : h'.result ≡ h.result ++ (h.deque.array (mask h.mid)).task ∷ []
    front_same : h'.deque.front ≡ h.deque.front
    back_same : h'.deque.back ≡ h.deque.back
    slots :
        (j : ℕ)
        → (h'.deque.array j).state ≡ (if mask h.mid == j then empty else (h.deque.array j).state)
    kept : (j : ℕ) → mask h.mid ≢ j → (h'.deque.array j).task ≡ (h.deque.array j).task

  half_step-Stepped :
      (null : T) (h : HalfLoop T)
      → (h.deque.array (mask h.mid)).state ≡ ready
      → Stepped h (half_step null h)
  unfolding half_step
  half_step-Stepped null h e = record {
    mid = ground arith;
    count = ground arith;
    first = ground arith;
    tasks = ground arith;
    front_same = ground arith;
    back_same = ground arith;
    slots = λ j. ground arith;
    kept = λ j ne. ground arith;
  }

  -- What the loop has done to a state with `k` ready slots from `back` on.
  record Done (back k : ℕ) (h h' : HalfLoop T) : Type 0 where
    count : h'.n ≡ h.n + k
    first : h'.start ≡ (if h.n == 0 && ltb 0 k then h.mid else h.start)
    tasks : h'.result ≡ h.result ++ reverse (window h.deque.array (mask back) k)
    front_same : h'.deque.front ≡ h.deque.front
    back_same : h'.deque.back ≡ h.deque.back
    slots :
        (j : ℕ)
        → j < capacity
        → (h'.deque.array j).state
          ≡ (if ltb (offset back j) k then empty else (h.deque.array j).state)
    kept :
        (j : ℕ)
        → j < capacity
        → k ≤ offset back j
        → (h'.deque.array j).task ≡ (h.deque.array j).task

  reverse-window :
      (a : ℕ → Elem T) (b k : ℕ)
      → b < capacity
      → reverse (window a b (suc k)) ≡ (a (mask (b + k))).task ∷ reverse (window a b k)
  reverse-window a b k h = ap reverse (window_snoc a b k h) ∙ reverse-append (window a b k) _

  -- The round at the top slot of `suc k`, and then the rounds on the `k` slots below it.
  step-Done :
      (back k : ℕ) (h h1 h2 : HalfLoop T)
      → back < 2 ^ 32
      → k < 512
      → h.mid ≡ u32 (back + suc k + 2 ^ 32 - 1)
      → Stepped h h1
      → Done back k h1 h2
      → Done back (suc k) h h2
  step-Done back k h h1 h2 b_ok k_ok mid_ok s d = record {
    count = omega (arith, s.count, d.count);
    first = ground (arith, s.first, d.first, s.count);
    tasks = ground (
      arith,
      s.tasks,
      d.tasks,
      reverse-window h.deque.array (mask back) k (omega arith),
      window_cong h1.deque.array h.deque.array (mask back) k (omega arith)
          (λ j hj lt. s.kept j (omega arith)),
      append_assoc h.result ((h.deque.array (mask h.mid)).task ∷ [])
          (reverse (window h.deque.array (mask back) k)),
    );
    front_same = d.front_same ∙ s.front_same;
    back_same = d.back_same ∙ s.back_same;
    slots = λ j hj. ground (arith, s.slots j, d.slots j hj);
    kept = λ j hj out. d.kept j hj (omega arith) ∙ s.kept j (omega arith);
  }

  half_loop-Done :
      (null : T) (back k fuel : ℕ) (h : HalfLoop T)
      → back < 2 ^ 32
      → k ≤ 512
      → k < fuel
      → h.mid ≡ u32 (back + k + 2 ^ 32 - 1)
      → ((j : ℕ) → j < capacity → offset back j < k → (h.deque.array j).state ≡ ready)
      → Done back k h (half_loop null back fuel h)
  unfolding half_loop
  half_loop-Done null back k zero h b_ok k_ok enough mid_ok all_ready = absurd (omega arith)
  half_loop-Done null back zero (suc fuel) h b_ok k_ok enough mid_ok all_ready =
      let stop : ltb (sub32 h.mid back) (2 ^ 31) ≡ false = ground arith in
      rw stop (record {
        count = omega arith;
        first = ground arith;
        tasks = sym (append-nil h.result);
        front_same = refl;
        back_same = refl;
        slots = λ j hj. ground arith;
        kept = λ j hj out. refl;
      })
  half_loop-Done null back (suc k) (suc fuel) h b_ok k_ok enough mid_ok all_ready =
      let go_on : ltb (sub32 h.mid back) (2 ^ 31) ≡ true = ground arith in
      let s : Stepped h (half_step null h) =
        half_step-Stepped null h (all_ready (mask h.mid) (omega arith) (omega arith)) in
      rw go_on (
        step-Done back k h (half_step null h) _ b_ok (omega arith) mid_ok s (
          half_loop-Done null back k fuel (half_step null h) b_ok (omega arith) (omega arith)
            (omega (arith, s.mid))
            (λ j hj lt. s.slots j ∙ ground (arith, all_ready j hj (omega arith)))))

  module _ (q : TaskDeque T) (v : Inv q) where
    abbrev pub n : ℕ
    n = used q.front q.back

    abbrev pub k : ℕ
    k = (n + 1) / 2

    half-Done :
        (null : T)
        → 0 < n
        → Done q.back k (half_start q) (half_loop null q.back capacity (half_start q))
    unfolding half_start
    half-Done null some_left =
        half_loop-Done null q.back k capacity (half_start q) v.back_fits (omega arith) (omega arith)
          (ground (arith, size-eq-used q v)) (λ j hj lt. ground (arith, v.slots j hj))

    -- What is left is the front half, in a valid deque.
    pub record Taken (r : ℕ × List T × TaskDeque T) : Type 0 where
      pub count : r.0 ≡ k
      pub tasks : r.1 ≡ reverse (take k (contents q))
      pub rest : contents r.2 ≡ drop k (contents q)
      pub valid : Inv r.2

    -- The deque that the loop leaves, with the new back.
    abbrev new_back : ℕ
    new_back = u32 (u32 (q.back + k + 2 ^ 32 - 1) + increment)

    half_finish_eq :
        (h : HalfLoop T)
        → 0 < n
        → Done q.back k (half_start q) h
        → half_finish h ≡ (k, h.result, record (h.deque) { back = new_back })
    unfolding half_finish half_start
    half_finish_eq h some_left d = ground (arith, size-eq-used q v)

    rest-half :
        (h : HalfLoop T)
        → 0 < n
        → Done q.back k (half_start q) h
        → contents (record (h.deque) { back = new_back }) ≡ drop k (contents q)
    unfolding half_start
    rest-half h some_left d = ground (
      arith,
      d.front_same,
      drop-window q.array (mask q.back) n k (omega arith) (omega arith),
      window_cong h.deque.array q.array (mask new_back) (n - k) (omega arith)
          (λ j hj lt. d.kept j hj (omega arith)),
    )

    valid-half :
        (h : HalfLoop T)
        → 0 < n
        → Done q.back k (half_start q) h
        → Inv (record (h.deque) { back = new_back })
    unfolding half_start
    valid-half h some_left d = record {
      front_fits = ground (arith, d.front_same);
      back_fits = omega arith;
      bounded = ground (arith, d.front_same);
      slots = λ j hj. ground (arith, d.front_same, d.slots j hj, v.slots j hj);
    }

    tasks-half :
        (h : HalfLoop T) → Done q.back k (half_start q) h → h.result ≡ reverse (take k (contents q))
    unfolding half_start
    tasks-half h d = ground (arith, take-window q.array (mask q.back) n k (omega arith))

    -- pop_back_half takes the back half, rounded up, with the task nearest the middle first, and
    -- leaves the front half in a valid deque.
    pub pop_back_half-Taken : (null : T) → Taken (pop_back_half null q)
    unfolding pop_back_half
    pop_back_half-Taken null = elim (dec_lt 0 n) [
      | yes some_left ↦
          let h : HalfLoop T = half_loop null q.back capacity (half_start q) in
          let d : Done q.back k (half_start q) h = half-Done null some_left in
          let non_empty : is_empty q ≡ false = ground (arith, is_empty-eq q) in
          rw (non_empty, half_finish_eq h some_left d)
            (record {
              count = refl;
              tasks = tasks-half h d;
              rest = rest-half h some_left d;
              valid = valid-half h some_left d;
            })
      | no none_left ↦
          let no_tasks : is_empty q ≡ true = ground (arith, is_empty-eq q) in
          let none_taken : k ≡ 0 = omega arith in
          let no_slots : n ≡ 0 = omega arith in
          let none_held : contents q ≡ [] = ap (window q.array (mask q.back)) no_slots in
          rw (no_tasks) (record {
            count = omega arith;
            tasks = rw (none_taken) refl;
            rest = rw (none_taken, none_held) refl;
            valid = v;
          })
    ]

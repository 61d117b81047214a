-- ===== src/Concurrent/TaskDeque/Inv.antt =====
-- The representation invariant of `TaskDeque`: the occupied slots are those from `back` up to
-- `front`, and every operation of the four keeps it.
use async_lib.Base.{ℕ, ◌+◌, ◌-◌, ◌*◌, ◌%◌, ◌^◌, ◌≤◌, ◌<◌, ◌≡◌, arith, ltb, ◌==◌, if◌then◌else◌}
use async_lib.Base.Words.{sub32, bit_xor-mod_zero}
use async_lib.Concurrent.TaskDeque.{
  TaskDeque, empty, ready, capacity, mask, mask2, init, push_front, pop_front, push_back, pop_back,
  is_empty, size,
}

-- How many tasks the two indices enclose.
abbrev pub used : ℕ → ℕ → ℕ
used front back = (mask2 front + 2 * capacity - mask2 back) % (2 * capacity)

-- How far slot `j` stands from the back.
abbrev pub offset : ℕ → ℕ → ℕ
offset back j = (j + capacity - mask back) % capacity

pub record Inv {T : Type 0} (q : TaskDeque T) : Type 0 where
  pub front_fits : q.front < 2 ^ 32
  pub back_fits : q.back < 2 ^ 32
  pub bounded : used q.front q.back ≤ capacity
  pub slots :
      (j : ℕ)
      → j < capacity
      → (q.array j).state ≡ (if ltb (offset q.back j) (used q.front q.back) then ready else empty)

module _ {T : Type 0} where
  pub init-Inv : (null : T) → Inv (init null)
  unfolding init
  init-Inv null = record {
    front_fits = omega arith;
    back_fits = omega arith;
    bounded = omega arith;
    slots = λ j h. ground arith;
  }

  pub size-eq-used : (q : TaskDeque T) → Inv q → size q ≡ used q.front q.back
  unfolding size
  size-eq-used q v = ground arith

  pub is_empty-eq : (q : TaskDeque T) → is_empty q ≡ (used q.front q.back == 0)
  unfolding is_empty
  is_empty-eq q =
      ground (arith, (bit_xor-mod_zero 11 q.front q.back).0, (bit_xor-mod_zero 11 q.front q.back).1)

  pub push_front-Inv : (t : T) (q : TaskDeque T) → Inv q → Inv (push_front t q).1
  unfolding push_front
  push_front-Inv t q v = record {
    front_fits = ground arith;
    back_fits = ground arith;
    bounded = ground (arith, v.slots (mask q.front) (omega arith));
    slots = λ j h. ground (arith, v.slots j h, v.slots (mask q.front) (omega arith));
  }

  pub pop_front-Inv : (t : T) (q : TaskDeque T) → Inv q → Inv (pop_front t q).1
  unfolding pop_front
  pop_front-Inv t q v = record {
    front_fits = ground arith;
    back_fits = ground arith;
    bounded = ground (arith, v.slots (mask (sub32 q.front 1)) (omega arith));
    slots = λ j h. ground (arith, v.slots j h, v.slots (mask (sub32 q.front 1)) (omega arith));
  }

  pub push_back-Inv : (t : T) (q : TaskDeque T) → Inv q → Inv (push_back t q).1
  unfolding push_back
  push_back-Inv t q v = record {
    front_fits = ground arith;
    back_fits = ground arith;
    bounded = ground (arith, v.slots (mask (sub32 q.back 1)) (omega arith));
    slots = λ j h. ground (arith, v.slots j h, v.slots (mask (sub32 q.back 1)) (omega arith));
  }

  pub pop_back-Inv : (t : T) (q : TaskDeque T) → Inv q → Inv (pop_back t q).1
  unfolding pop_back
  pop_back-Inv t q v = record {
    front_fits = ground arith;
    back_fits = ground arith;
    bounded = ground (arith, v.slots (mask q.back) (omega arith));
    slots = λ j h. ground (arith, v.slots j h, v.slots (mask q.back) (omega arith));
  }

-- ===== src/Support/ConcurrentVector.antt =====
-- async/support/concurrent_vector.h: a vector that grows by copying into a buffer twice as large and
-- keeps the old buffers. The mutex makes emplace_back one step.
pub mod Laws
mod Tests
use async_lib.Base.{
  ℕ, zero, suc, ◌+◌, ◌-◌, ◌*◌, ◌/◌, ◌%◌, ◌^◌, Bool, Option, none, some, List, [], ◌∷◌, ◌++◌, length,
  get_elem?, ltb, if◌then◌else◌, max,
}

-- A `std::vector` with the capacity that it has reserved.
pub record Buffer (T : Type 0) : Type 0 where
  pub items : List T
  pub room : ℕ

-- State: the index of the last allocated buffer and the size.
pub record State : Type 0 where
  pub last_allocated : ℕ
  pub size : ℕ

unfoldable pub decode : ℕ → State
decode state = record { last_allocated = state % 2 ^ 32; size = state / 2 ^ 32 }

-- `|` of parts that do not overlap is `+`; what `<< 32` pushes out of the word is lost.
unfoldable pub encode : State → ℕ
encode s = s.size * 2 ^ 32 % 2 ^ 64 + s.last_allocated

-- `mAllAllocatedElements` is `older` and then `last`.
pub record ConcurrentVector (T : Type 0) : Type 0 where
  pub state : ℕ
  pub older : List (Buffer T)
  pub last : Buffer T

module _ {T : Type 0} where
  unfoldable pub init : ℕ → ConcurrentVector T
  init initial_capacity = record {
    state = 0;
    older = [];
    last = record { items = []; room = max 1 initial_capacity };
  }

  abbrev pub read_in : Option (Buffer T) → ℕ → Option T
  read_in none index = none
  read_in (some b) index = get_elem? b.items index

  -- operator[] with the word `state` that it has loaded; `none` is past the end.
  unfoldable pub read : ℕ → ℕ → ConcurrentVector T → Option T
  read index state v =
      read_in (get_elem? (v.older ++ v.last ∷ []) (decode state).last_allocated) index

  unfoldable pub size_of : ConcurrentVector T → ℕ
  size_of v = (decode v.state).size

  -- The index of the new element with what emplace_back leaves.
  unfoldable pub emplace_back : T → ConcurrentVector T → ℕ × ConcurrentVector T
  emplace_back x v =
      let s = decode v.state in
      if ltb (length v.last.items) v.last.room
      then (
        s.size + 1 - 1,
        record v {
          last = record v.last { items = v.last.items ++ x ∷ [] };
          state = encode (record s { size = s.size + 1 });
        },
      )
      else (
        s.size + 1 - 1,
        record {
          older = v.older ++ v.last ∷ [];
          last = record { items = v.last.items ++ x ∷ []; room = v.last.room * 2 };
          state = encode (record { last_allocated = s.last_allocated + 1; size = s.size + 1 });
        },
      )

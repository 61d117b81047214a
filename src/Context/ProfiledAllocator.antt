-- ===== src/Context/ProfiledAllocator.antt =====
-- async/context/profiled_allocator.cpp: an allocator that counts the calls which it passes on to
-- another. Its counters are 64-bit words, read as signed numbers. A call runs whole: what a call of
-- another thread does between the accesses to the counters is not modelled.
pub mod Peak
mod Tests
use async_lib.Base.{ℕ, ◌+◌, ◌-◌, ◌%◌, ◌^◌, Bool, not, ltb, ◌==◌, if◌then◌else◌}
use async_lib.Base.Words.{u64, sub64}

-- `allocator` is the state of the allocator that it wraps.
pub record ProfiledAllocator (A : Type 0) : Type 0 where
  pub cur_num_allocations : ℕ
  pub max_num_allocations : ℕ
  pub cum_num_allocations : ℕ
  pub curr_bytes_allocated : ℕ
  pub max_bytes_allocated : ℕ
  pub allocator : A

abbrev pub init : {A : Type 0} → A → ProfiledAllocator A
init a = record {
  cur_num_allocations = 0;
  max_num_allocations = 0;
  cum_num_allocations = 0;
  curr_bytes_allocated = 0;
  max_bytes_allocated = 0;
  allocator = a;
}

-- `<` on int64_t.
abbrev pub signed_ltb : ℕ → ℕ → Bool
signed_ltb a b = ltb (u64 (a + 2 ^ 63)) (u64 (b + 2 ^ 63))

-- What AtomicUpdateMax leaves in `maxValue`.
unfoldable pub atomic_update_max : ℕ → ℕ → ℕ
atomic_update_max value max_value = if signed_ltb max_value value then value else max_value

-- The wrapped allocator's calls: with a size and an alignment, and with a pointer and a size.
module _ {A : Type 0} (inner_allocate : ℕ → ℕ → A → ℕ × A) (inner_deallocate : ℕ → ℕ → A → A) where
  unfoldable pub allocate_bytes : ℕ → ℕ → ProfiledAllocator A → ℕ × ProfiledAllocator A
  allocate_bytes size alignment s =
      let cur = u64 (s.cur_num_allocations + 1) in
      let bytes = u64 (s.curr_bytes_allocated + size) in
      let (p, a) = inner_allocate size alignment s.allocator in
      (
        p,
        record {
          cur_num_allocations = cur;
          max_num_allocations = atomic_update_max cur s.max_num_allocations;
          cum_num_allocations = u64 (s.cum_num_allocations + 1);
          curr_bytes_allocated = bytes;
          max_bytes_allocated = atomic_update_max bytes s.max_bytes_allocated;
          allocator = a;
        },
      )

  unfoldable pub deallocate_bytes : ℕ → ℕ → ProfiledAllocator A → ProfiledAllocator A
  deallocate_bytes ptr size s = record s {
    cur_num_allocations = sub64 s.cur_num_allocations 1;
    curr_bytes_allocated = sub64 s.curr_bytes_allocated size;
    allocator = inner_deallocate ptr size s.allocator;
  }

-- Whether ~LeakCheckAllocator reports a leak and exits.
unfoldable pub leak_detected : {A : Type 0} → ProfiledAllocator A → Bool
leak_detected s = not (s.curr_bytes_allocated == 0)

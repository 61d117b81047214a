-- ===== src/Context/ProfiledAllocator/Tests.antt =====
-- A run on an allocator that hands out one address after another and takes nothing back.
use async_lib.Base.{ℕ, ◌+◌, ◌≡◌, refl, arith, not, List, [], ◌∷◌, ◌==◌}
use async_lib.Context.ProfiledAllocator.{
  init, atomic_update_max, allocate_bytes, deallocate_bytes, leak_detected,
}
use async_lib.Context.ProfiledAllocator.Peak.{
  Call, allocates, deallocates, in_use, peak, requested, one, bytes, run, run_inner, profile_lem,
}

abbrev hand_out : ℕ → ℕ → ℕ → ℕ × ℕ
hand_out size alignment next = (next, next + size)

abbrev ignore : ℕ → ℕ → ℕ → ℕ
ignore ptr size next = next

abbrev calls : List Call
calls = allocates 64 8 ∷ allocates 16 8 ∷ deallocates 100 64 ∷ allocates 32 8 ∷ []

most_bytes : (run hand_out ignore calls (init 100)).1.max_bytes_allocated ≡ 80
unfolding run allocate_bytes deallocate_bytes atomic_update_max
most_bytes = refl

profile_lem_example :
    let (ps, t) = run hand_out ignore calls (init 100) in
    ((ps, t.allocator) ≡ run_inner hand_out ignore calls 100)
    × (t.cur_num_allocations ≡ in_use one calls 0)
    × (t.max_num_allocations ≡ peak one calls 0)
    × (t.cum_num_allocations ≡ requested one calls)
    × (t.curr_bytes_allocated ≡ in_use bytes calls 0)
    × (t.max_bytes_allocated ≡ peak bytes calls 0)
    × (leak_detected t ≡ not (in_use bytes calls 0 == 0))
profile_lem_example =
    profile_lem hand_out ignore calls 100 (omega arith, tt) (omega arith, tt) (omega arith)
      (omega arith)

-- ===== src/Context/ProfiledAllocator/Peak.antt =====
-- Any calls on the allocator of profiled_allocator.cpp, against the history of what was allocated.
use async_lib.Base.{ℕ, ◌+◌, ◌-◌, ◌^◌, ◌<◌, ◌≤◌, ◌≡◌, refl, ap, max, arith, not, List, [], ◌∷◌, ◌==◌}
use async_lib.Base.Words.{u64, sub64}
use async_lib.Context.ProfiledAllocator.{
  ProfiledAllocator, init, atomic_update_max, allocate_bytes, deallocate_bytes, leak_detected,
}

-- With a size and an alignment, and with a pointer and a size.
pub data Call : Type 0 where
  allocates deallocates : ℕ → ℕ → Call

-- The number of blocks, or of bytes, after a call, where a block counts `weight size`.
abbrev pub after : (ℕ → ℕ) → Call → ℕ → ℕ
after weight (allocates size alignment) n = n + weight size
after weight (deallocates ptr size) n = n - weight size

abbrev pub in_use : (ℕ → ℕ) → List Call → ℕ → ℕ
in_use weight [] n = n
in_use weight (c ∷ cs) n = in_use weight cs (after weight c n)

-- The most that there has been at any moment.
abbrev pub peak : (ℕ → ℕ) → List Call → ℕ → ℕ
peak weight [] n = n
peak weight (c ∷ cs) n = max n (peak weight cs (after weight c n))

-- All that was allocated.
abbrev pub requested : (ℕ → ℕ) → List Call → ℕ
requested weight [] = 0
requested weight (allocates size alignment ∷ cs) = weight size + requested weight cs
requested weight (deallocates ptr size ∷ cs) = requested weight cs

abbrev pub one : ℕ → ℕ
one size = 1

abbrev pub bytes : ℕ → ℕ
bytes size = size

-- No more is given back than there is.
abbrev pub IsCovered : (ℕ → ℕ) → List Call → ℕ → Type 0
IsCovered weight [] n = Unit
IsCovered weight (allocates size alignment ∷ cs) n = IsCovered weight cs (n + weight size)
IsCovered weight (deallocates ptr size ∷ cs) n =
    (weight size ≤ n) × IsCovered weight cs (n - weight size)

-- A counter and its maximum.
pub record Counts (cur top n m : ℕ) : Type 0 where
  pub current : cur ≡ n
  pub highest : top ≡ m
  pub least : n ≤ m

pub allocate-Counts :
    (cur top n m w : ℕ)
    → Counts cur top n m
    → m < 2 ^ 63
    → n + w < 2 ^ 63
    → Counts (u64 (cur + w)) (atomic_update_max (u64 (cur + w)) top) (n + w) (max m (n + w))
unfolding atomic_update_max
allocate-Counts cur top n m w c small fits = record {
  current = omega (arith, c.current);
  highest = ground (arith, c.current, c.highest, small, fits);
  least = omega arith;
}

pub deallocate-Counts :
    (cur top n m w : ℕ)
    → Counts cur top n m
    → m < 2 ^ 63
    → w ≤ n
    → Counts (sub64 cur w) top (n - w) m
deallocate-Counts cur top n m w c small le = record {
  current = omega (arith, c.current, c.least);
  highest = c.highest;
  least = omega (arith, c.least);
}

same-Counts : (cur top n m m' : ℕ) → Counts cur top n m → m ≡ m' → Counts cur top n m'
same-Counts cur top n m m' c e = record {
  current = c.current;
  highest = omega (arith, c.highest, e);
  least = omega (arith, c.least, e);
}

pub le-peak : (weight : ℕ → ℕ) (cs : List Call) (n : ℕ) → n ≤ peak weight cs n
le-peak weight [] n = omega arith
le-peak weight (c ∷ cs) n = omega arith

module _ {A : Type 0} (inner_allocate : ℕ → ℕ → A → ℕ × A) (inner_deallocate : ℕ → ℕ → A → A) where
  -- The pointers that the calls return, and the allocator after them.
  unfoldable pub run : List Call → ProfiledAllocator A → List ℕ × ProfiledAllocator A
  run [] s = ([], s)
  run (allocates size alignment ∷ cs) s =
      let (p, s') = allocate_bytes inner_allocate inner_deallocate size alignment s in
      let (ps, t) = run cs s' in (p ∷ ps, t)
  run (deallocates ptr size ∷ cs) s =
      run cs (deallocate_bytes inner_allocate inner_deallocate ptr size s)

  -- The same calls on the allocator that is wrapped.
  abbrev pub run_inner : List Call → A → List ℕ × A
  run_inner [] a = ([], a)
  run_inner (allocates size alignment ∷ cs) a =
      let (p, a') = inner_allocate size alignment a in let (ps, b) = run_inner cs a' in (p ∷ ps, b)
  run_inner (deallocates ptr size ∷ cs) a = run_inner cs (inner_deallocate ptr size a)

  passed_on :
      (cs : List Call) (s : ProfiledAllocator A)
      → ((run cs s).0, (run cs s).1.allocator) ≡ run_inner cs s.allocator
  unfolding run allocate_bytes deallocate_bytes
  passed_on [] s = refl
  passed_on (allocates size alignment ∷ cs) s =
      let (p, s') = allocate_bytes inner_allocate inner_deallocate size alignment s in
      ap (λ r. (p ∷ r.0, r.1)) (passed_on cs s')
  passed_on (deallocates ptr size ∷ cs) s =
      passed_on cs (deallocate_bytes inner_allocate inner_deallocate ptr size s)

  counted :
      (cs : List Call) (s : ProfiledAllocator A) (n m b q : ℕ)
      → Counts s.cur_num_allocations s.max_num_allocations n m
      → Counts s.curr_bytes_allocated s.max_bytes_allocated b q
      → IsCovered one cs n
      → IsCovered bytes cs b
      → m + requested one cs < 2 ^ 63
      → q + requested bytes cs < 2 ^ 63
      → s.cum_num_allocations + requested one cs < 2 ^ 63
      → let t = (run cs s).1 in
        Counts t.cur_num_allocations t.max_num_allocations (in_use one cs n) (max m (peak one cs n))
        × Counts t.curr_bytes_allocated t.max_bytes_allocated
            (in_use bytes cs b)
            (max q (peak bytes cs b))
        × (t.cum_num_allocations ≡ s.cum_num_allocations + requested one cs)
  unfolding run allocate_bytes deallocate_bytes
  counted [] s n m b q x y cx cy sm sq sc = (
    same-Counts s.cur_num_allocations s.max_num_allocations n m (max m n) x
        (omega (arith, x.least)),
    same-Counts s.curr_bytes_allocated s.max_bytes_allocated b q (max q b) y
        (omega (arith, y.least)),
    omega arith,
  )
  counted (allocates size alignment ∷ cs) s n m b q x y cx cy sm sq sc =
      let (p, s') = allocate_bytes inner_allocate inner_deallocate size alignment s in
      let t = (run cs s').1 in
      let (x', y', c') =
        counted cs s' (n + 1) (max m (n + 1)) (b + size) (max q (b + size))
          (allocate-Counts s.cur_num_allocations s.max_num_allocations n m 1 x (omega arith)
            (omega (arith, x.least)))
          (allocate-Counts s.curr_bytes_allocated s.max_bytes_allocated b q size y (omega arith)
            (omega (arith, y.least)))
          cx cy (omega (arith, x.least)) (omega (arith, y.least)) (omega arith) in
      (
        same-Counts t.cur_num_allocations t.max_num_allocations (in_use one cs (n + 1))
            (max (max m (n + 1)) (peak one cs (n + 1))) (max m (max n (peak one cs (n + 1)))) x'
            (omega (arith, x.least, le-peak one cs (n + 1))),
        same-Counts t.curr_bytes_allocated t.max_bytes_allocated (in_use bytes cs (b + size))
            (max (max q (b + size)) (peak bytes cs (b + size)))
            (max q (max b (peak bytes cs (b + size)))) y'
            (omega (arith, y.least, le-peak bytes cs (b + size))),
        omega (arith, c'),
      )
  counted (deallocates ptr size ∷ cs) s n m b q x y (lx, cx) (ly, cy) sm sq sc =
      let s' = deallocate_bytes inner_allocate inner_deallocate ptr size s in
      let t = (run cs s').1 in
      let (x', y', c') =
        counted cs s' (n - 1) m (b - size) q
          (deallocate-Counts s.cur_num_allocations s.max_num_allocations n m 1 x (omega arith) lx)
          (deallocate-Counts s.curr_bytes_allocated s.max_bytes_allocated b q size y (omega arith)
            ly)
          cx cy sm sq sc in
      (
        same-Counts t.cur_num_allocations t.max_num_allocations (in_use one cs (n - 1))
            (max m (peak one cs (n - 1))) (max m (max n (peak one cs (n - 1)))) x'
            (omega (arith, x.least)),
        same-Counts t.curr_bytes_allocated t.max_bytes_allocated (in_use bytes cs (b - size))
            (max q (peak bytes cs (b - size))) (max q (max b (peak bytes cs (b - size)))) y'
            (omega (arith, y.least)),
        c',
      )

  -- After any whole calls, one after another, that give back no more blocks or bytes than are in use
  -- and allocate fewer than 2 ^ 63 of each: the calls have returned and done what they do on the
  -- wrapped allocator; the counters are the blocks and bytes in use, the most that were in use at any
  -- moment, and all blocks allocated; and a leak is reported exactly if bytes are in use.
  pub profile_lem :
      (cs : List Call) (a : A)
      → IsCovered one cs 0
      → IsCovered bytes cs 0
      → requested one cs < 2 ^ 63
      → requested bytes cs < 2 ^ 63
      → let (ps, t) = run cs (init a) in
        ((ps, t.allocator) ≡ run_inner cs a)
        × (t.cur_num_allocations ≡ in_use one cs 0)
        × (t.max_num_allocations ≡ peak one cs 0)
        × (t.cum_num_allocations ≡ requested one cs)
        × (t.curr_bytes_allocated ≡ in_use bytes cs 0)
        × (t.max_bytes_allocated ≡ peak bytes cs 0)
        × (leak_detected t ≡ not (in_use bytes cs 0 == 0))
  unfolding leak_detected
  profile_lem cs a cx cy sx sy =
      let start : Counts 0 0 0 0 = record { current = refl; highest = refl; least = omega arith } in
      let (x, y, c) =
        counted cs (init a) 0 0 0 0 start start cx cy (omega arith) (omega arith) (omega arith) in
      (
        passed_on cs (init a),
        x.current,
        omega (arith, x.highest),
        omega (arith, c),
        y.current,
        omega (arith, y.highest),
        ap (λ k. not (k == 0)) y.current,
      )

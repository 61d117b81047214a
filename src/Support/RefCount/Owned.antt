-- ===== src/Support/RefCount/Owned.antt =====
-- Any calls of the handles of ref_count.h that a program may make: who owns an object, and when it is
-- destroyed.
use async_lib.Base.{
  ℕ, ◌+◌, ◌^◌, ◌<◌, ◌≡◌, refl, arith, Option, none, List, [], ◌∷◌, length, ◌==◌, ltb, if◌then◌else◌,
}
use async_lib.Base.Sums.{total_zero}
use async_lib.Support.RefCount.{
  References, init, create, is_unique, move_construct, move_assign, destroy, reset, release,
  form_ref, take_ref, copy_ref, swap,
}
use async_lib.Support.RefCount.Tally.{refs, Tally, IsHeld}
use async_lib.Support.RefCount.Moves.{
  create_lem, form_lem, copied_lem, take_lem, release_lem, reset_lem, destroy_lem, construct_lem,
  assign_lem, swap_lem,
}

pub data Call : Type 0 where
  creates : Call
  move_constructs move_assigns copies swaps : ℕ → ℕ → Call
  destroys releases : ℕ → Call
  resets : ℕ → Option ℕ → Call
  forms takes : ℕ → ℕ → Call

unfoldable pub call : Call → References → References
call creates = create
call (move_constructs h other) = move_construct h other
call (move_assigns h other) = move_assign h other
call (copies h from) = copy_ref h from
call (swaps a b) = swap a b
call (destroys h) = destroy h
call (releases h) = release h
call (resets h p) = reset h p
call (forms h o) = form_ref h o
call (takes h o) = take_ref h o

unfoldable pub run : List Call → References → References
run [] s = s
run (c ∷ cs) s = run cs (call c s)

-- What a program has to see to, with `n` handles: a handle is constructed once, a plain pointer is
-- given to a handle only with the reference that it carries, and FormRef gets a live object.
abbrev pub IsAllowed : ℕ → Call → References → Type 0
IsAllowed n creates s = Unit
IsAllowed n (move_constructs h other) s = (h < n) × (other < n) × (s.handle h ≡ none)
IsAllowed n (move_assigns h other) s = (h < n) × (other < n)
IsAllowed n (copies h from) s = (h < n) × (from < n) × (s.handle h ≡ none)
IsAllowed n (swaps a b) s = (a < n) × (b < n)
IsAllowed n (destroys h) s = h < n
IsAllowed n (releases h) s = h < n
IsAllowed n (resets h p) s = (h < n) × IsHeld p s
IsAllowed n (forms h o) s = (h < n) × (s.handle h ≡ none) × (0 < refs n s o)
IsAllowed n (takes h o) s = (h < n) × (s.handle h ≡ none) × (0 < s.raw o)

abbrev pub AreAllowed : ℕ → List Call → References → Type 0
AreAllowed n [] s = Unit
AreAllowed n (c ∷ cs) s = IsAllowed n c s × AreAllowed n cs (call c s)

-- `k` is above every number of references before the call.
module _ (n k : ℕ) (small : k < 2 ^ 32) (s : References) (below : (o : ℕ) → refs n s o < k)
    (t : Tally k s (refs n s)) where
  call-Tally : (c : Call) → IsAllowed n c s → Tally k (call c s) (refs n (call c s))
  unfolding call copy_ref
  call-Tally creates ok = create_lem n k small s below t
  call-Tally (move_constructs h g) (hn, gn, e) = construct_lem n k small s below t h g hn gn e
  call-Tally (move_assigns h g) (hn, gn) = assign_lem n k small s below t h g hn gn
  call-Tally (copies h from) (hn, fn, e) =
      copied_lem n k small s below t h from (s.handle from) hn fn e refl
  call-Tally (swaps a b) (an, bn) = swap_lem n k small s below t a b an bn
  call-Tally (destroys h) hn = destroy_lem n k small s below t h hn
  call-Tally (releases h) hn = release_lem n k small s below t h hn
  call-Tally (resets h p) (hn, held) = reset_lem n k small s below t h p hn held
  call-Tally (forms h o) (hn, e, pos) = form_lem n k small s below t h o hn e pos
  call-Tally (takes h o) (hn, e, pos) = take_lem n k small s below t h o hn e pos

run-Tally :
    (n k : ℕ) (s : References) (cs : List Call)
    → k + length cs < 2 ^ 32
    → Tally k s (refs n s)
    → AreAllowed n cs s
    → Tally (k + length cs) (run cs s) (refs n (run cs s))
unfolding run
run-Tally n k s [] small t ok = λ o. ground (arith, t o)
run-Tally n k s (c ∷ cs) small t (ok, oks) =
    let next =
      run-Tally n (k + 1) (call c s) cs (omega arith)
        (call-Tally n (k + 1) (omega arith) s (λ o. omega (arith, t o)) (λ o. ground (arith, t o)) c
          ok)
        oks in
    λ o. ground (arith, next o)

init-Tally : (n : ℕ) → Tally 0 init (refs n init)
init-Tally n o = ground (arith, total_zero n)

-- After fewer than 2 ^ 32 calls, each of which a program may make: mRefCounted of an object is the
-- number of handles that point to it and of plain pointers that carry a reference, and has not
-- overflowed; IsUnique says whether that number is one; and the object has been destroyed once if it
-- was created and no reference is left, and otherwise not at all.
pub owned_lem :
    (n : ℕ) (cs : List Call)
    → length cs < 2 ^ 32
    → AreAllowed n cs init
    → (o : ℕ)
    → ((run cs init).count o ≡ refs n (run cs init) o)
      × (refs n (run cs init) o < 2 ^ 32)
      × (is_unique o (run cs init) ≡ (refs n (run cs init) o == 1))
      × ((run cs init).destroyed o
          ≡ (if ltb o (run cs init).next then if refs n (run cs init) o == 0 then 1 else 0 else 0))
unfolding is_unique
owned_lem n cs small ok o =
    let t = run-Tally n 0 init cs (omega arith) (init-Tally n) ok o in ground (arith, t, small)

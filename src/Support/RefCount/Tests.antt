-- ===== src/Support/RefCount/Tests.antt =====
-- Two handles on one object, of which the second is a copy and the first is moved from, and both are
-- destroyed in the end.
use async_lib.Base.{◌^◌, ◌<◌, ◌≡◌, refl, arith, List, [], ◌∷◌, ltb, ◌==◌, if◌then◌else◌}
use async_lib.Support.RefCount.{
  init, is_unique, create, take_ref, copy_ref, form_ref, add_ref, drop_ref, move_assign, destroy,
}
use async_lib.Support.RefCount.Tally.{refs}
use async_lib.Support.RefCount.Owned.{
  Call, creates, takes, copies, move_assigns, destroys, call, run, AreAllowed, owned_lem,
}

abbrev calls : List Call
calls = creates ∷ takes 0 0 ∷ copies 1 0 ∷ creates ∷ takes 2 1 ∷ move_assigns 2 0 ∷ destroys 1 ∷ []

calls_allowed : AreAllowed 3 calls init
unfolding run call create take_ref copy_ref form_ref add_ref drop_ref move_assign destroy
calls_allowed = (
  tt,
  (
    (omega arith, refl, omega arith),
    (
      (omega arith, omega arith, refl),
      (tt, ((omega arith, refl, omega arith), ((omega arith, omega arith), (omega arith, tt)))),
    ),
  ),
)

first_lives : (run calls init).destroyed 0 ≡ 0
unfolding run call create take_ref copy_ref form_ref add_ref drop_ref move_assign destroy
first_lives = refl

second_destroyed : (run calls init).destroyed 1 ≡ 1
unfolding run call create take_ref copy_ref form_ref add_ref drop_ref move_assign destroy
second_destroyed = refl

owned_lem_example :
    ((run calls init).count 1 ≡ refs 3 (run calls init) 1)
    × (refs 3 (run calls init) 1 < 2 ^ 32)
    × (is_unique 1 (run calls init) ≡ (refs 3 (run calls init) 1 == 1))
    × ((run calls init).destroyed 1 ≡ (
        if ltb 1 (run calls init).next then if refs 3 (run calls init) 1 == 0 then 1 else 0 else 0))
owned_lem_example = owned_lem 3 calls (omega arith) calls_allowed 1
